-- ===== src/BdevTest.antt =====
-- examples/rw_test.cc: zones of a block device are reset, appended to and read back by callbacks.
pub mod Phases
pub mod Passes
pub mod Whole
pub mod Tests
use zns_emulation_bench.Prelude.{
  ℕ, zero, suc, ◌+◌, ◌*◌, ◌/◌, ◌%◌, Bool, true, false, not, if◌then◌else◌, ◌==◌, none, some, List,
  [], ◌∷◌, ◌++◌, get_elem?, remove_at, ℤ, pos, negsuc, u32, u64,
}
use zns_emulation_bench.Text.{Bytes, same_text}

-- What the block device answers to the `k`-th command: whether it takes it, and if not, whether that is
-- -ENOMEM.
pub record Bdev : Type 0 where
  pub accepts : ℕ → Bool
  pub no_memory : ℕ → Bool

-- A command in flight, with its block.
pub data Request : Type 0 where
  reset : ℕ → Request
  append : ℕ → Request
  read : ℕ → Request

-- The function that is called again when there is memory.
pub data Wait : Type 0 where
  reset_again : Wait
  read_again : Wait

-- `struct rwtest_context_t`; the 32 bits of `count`. With the commands in flight, the functions that wait
-- for memory, how often the device was closed (its channel, if there is one, is put before), the codes given to `spdk_app_stop`,
-- latest first, and the number of commands tried.
pub record Context : Type 0 where
  pub zone_size : ℕ
  pub buff_size : ℕ
  pub count : ℕ
  pub write_buff : Bytes
  pub read_buff : Bytes
  pub in_flight : List Request
  pub waits : List Wait
  pub closed : ℕ
  pub stops : List ℤ
  pub calls : ℕ

-- `spdk_put_io_channel`, `spdk_bdev_close` and `spdk_app_stop`.
abbrev pub stop : ℤ → Context → Context
stop code c = record c { closed = c.closed + 1; stops = code ∷ c.stops }

abbrev pub filled : ℕ → ℕ → Bytes
filled b zero = []
filled b (suc n) = b ∷ filled b n

abbrev pub sent : Request → Context → Context
sent r c = record c { in_flight = c.in_flight ++ r ∷ []; calls = c.calls + 1 }

abbrev pub refused : Context → Context
refused c = record c { calls = c.calls + 1 }

-- A command that may wait for memory.
abbrev pub send_or_wait : Bdev → Request → Wait → Context → Context
send_or_wait d r w c =
    if d.accepts c.calls
    then sent r c
    else if d.no_memory c.calls
    then record (refused c) { waits = c.waits ++ w ∷ [] }
    else stop (negsuc 0) (refused c)

-- `read_zone`.
unfoldable pub read_zone : Bdev → Context → Context
read_zone d c =
    send_or_wait d (read 0) read_again (record c { count = 0; read_buff = filled 0x34 c.buff_size })

-- The block that is read when `count` blocks have been.
abbrev pub lba_of : Context → ℕ
lba_of c = u64 (u64 (c.count / 0x100 * c.zone_size) + c.count % 0x100)

-- The end of `read_zone_complete`: the next block is read.
unfoldable pub read_next : Bdev → Context → Context
read_next d c =
    if d.accepts c'.calls then sent (read (lba_of c')) c' else stop (negsuc 0) (refused c')
  where
    c' : Context
    c' = record c { read_buff = filled 0x34 c.buff_size }

-- `read_zone_complete`; `data_read` is what the read left in the buffer.
unfoldable pub read_zone_complete : Bdev → Bool → Bytes → Context → Context
unfolding same_text read_next
read_zone_complete d success data_read c =
    if not success
    then stop (negsuc 0) c
    else if not (same_text c.write_buff data_read)
    then stop (negsuc 0) (record c { read_buff = data_read })
    else if counted.count == 4 * 0x100
    then stop (pos 0) counted
    else read_next d counted
  where
    counted : Context
    counted = record c { read_buff = data_read; count = u32 (c.count + 1) }

-- The inner loop of `write_zone`, which goes on behind a refused command.
unfoldable pub append_times : Bdev → ℕ → ℕ → Context → Context
append_times d slba zero c = c
append_times d slba (suc n) c =
    append_times d slba n
      (if d.accepts c.calls then sent (append slba) c else stop (negsuc 0) (refused c))

-- Its outer loop.
unfoldable pub append_zones : Bdev → ℕ → List ℕ → Context → Context
unfolding append_times
append_zones d times [] c = c
append_zones d times (slba ∷ slbas) c = append_zones d times slbas (append_times d slba times c)

-- The starts of `n` zones from `slba` on.
abbrev pub zone_starts : ℕ → ℕ → ℕ → List ℕ
zone_starts zone_size slba zero = []
zone_starts zone_size slba (suc n) = slba ∷ zone_starts zone_size (slba + zone_size) n

-- The loops over zones do nothing if the size of a zone is 0. The zones lie below block 2^64.
abbrev pub zones : ℕ → ℕ → List ℕ
zones zone_size n = if zone_size == 0 then [] else zone_starts zone_size 0 n

-- `write_zone`.
unfoldable pub write_zone : Bdev → Context → Context
unfolding append_zones
write_zone d c =
    append_zones d 0x100 (zones c.zone_size 4)
      (record c { count = 4 * 0x100; write_buff = filled 0x12 c.buff_size })

-- `fetch_sub`, and what follows when nothing is left.
abbrev pub count_down : (Context → Context) → Context → Context
count_down next c = if c'.count == 0 then next c' else c'
  where
    c' : Context
    c' = record c { count = u32 (c.count + 0xffffffff) }

-- `write_zone_complete`.
unfoldable pub write_zone_complete : Bdev → Bool → Context → Context
unfolding read_zone
write_zone_complete d success c =
    if not success then stop (negsuc 0) c else count_down (read_zone d) c

-- `reset_zone_complete`.
unfoldable pub reset_zone_complete : Bdev → Bool → Context → Context
unfolding write_zone
reset_zone_complete d success c =
    if not success then stop (negsuc 0) c else count_down (write_zone d) c

-- The loop of `reset_zone`, which goes on behind a refused command.
unfoldable pub reset_each : Bdev → List ℕ → Context → Context
reset_each d [] c = c
reset_each d (slba ∷ slbas) c = reset_each d slbas (send_or_wait d (reset slba) reset_again c)

-- `reset_zone`.
unfoldable pub reset_zone : Bdev → Context → Context
unfolding reset_each
reset_zone d c = reset_each d (zones c.zone_size 10) (record c { count = 10 })

-- A command in flight is completed, or a function that waits is called.
pub data Event : Type 0 where
  completed : ℕ → Bool → Bytes → Event
  woken : ℕ → Event

unfoldable pub call_back : Bdev → Request → Bool → Bytes → Context → Context
unfolding reset_zone_complete write_zone_complete read_zone_complete
call_back d (reset b) success data_read c = reset_zone_complete d success c
call_back d (append b) success data_read c = write_zone_complete d success c
call_back d (read b) success data_read c = read_zone_complete d success data_read c

abbrev pub wake : Bdev → Wait → Context → Context
wake d reset_again c = reset_zone d c
wake d read_again c = read_zone d c

unfoldable pub step : Bdev → Event → Context → Context
unfolding call_back reset_zone read_zone
step d (completed i success data_read) c = elim (get_elem? c.in_flight i) [
  | none ↦ c
  | some r ↦ call_back d r success data_read (record c { in_flight = remove_at c.in_flight i })
]
step d (woken i) c = elim (get_elem? c.waits i) [
  | none ↦ c
  | some w ↦ wake d w (record c { waits = remove_at c.waits i })
]

unfoldable pub run : Bdev → List Event → Context → Context
unfolding step
run d [] c = c
run d (e ∷ es) c = run d es (step d e c)

-- What SPDK answers at the start, and what it tells of the device.
pub record Start : Type 0 where
  pub opens : Bool
  pub has_channel : Bool
  pub has_write_buff : Bool
  pub has_read_buff : Bool
  pub is_zoned : Bool
  pub block_size : ℕ
  pub write_unit_size : ℕ
  pub zone_blocks : ℕ

-- `test_start`. A device that does not open is not closed.
unfoldable pub test_start : Bdev → Start → Context → Context
unfolding reset_zone
test_start d s c =
    if not s.opens
    then record c { stops = negsuc 0 ∷ c.stops }
    else if not s.has_channel
    then stop (negsuc 0) c
    else if not s.has_write_buff
    then stop (negsuc 0) sized
    else if not s.has_read_buff
    then stop (negsuc 0) sized
    else if not s.is_zoned
    then stop (negsuc 0) sized
    else reset_zone d sized
  where
    sized : Context
    sized = record c {
      zone_size = s.zone_blocks;
      buff_size = u32 (s.block_size * s.write_unit_size);
    }
