-- ===== src/Zones.antt =====
-- examples/zns_nvme_test.cc: two zones are reset, appended to and read back by chains of callbacks. The
-- fields of the context (include/zns_device.h) are known by their uses only; its counters are taken to
-- be 64 bits wide.
pub mod Ends
pub mod Reset
pub mod Tests
use zns_emulation_bench.Prelude.{
  ℕ, zero, suc, ◌+◌, ◌*◌, Bool, true, false, not, if◌then◌else◌, ◌==◌, Option, none, some, List, [],
  ◌∷◌, ◌++◌, get_elem?, remove_at, length, ℤ, pos, negsuc, u64, dec64,
}
use zns_emulation_bench.Exec.{Exec, done, waiting}
use zns_emulation_bench.Text.{Bytes, same_text}

-- What SPDK answers to the `k`-th command: whether it takes it, and if not, whether that is -ENOMEM.
pub record Device : Type 0 where
  pub accepts : ℕ → Bool
  pub no_memory : ℕ → Bool

-- A command in flight, with its first block.
pub data Request : Type 0 where
  reset : ℕ → Request
  append : ℕ → Request
  read : ℕ → Request

-- `struct ZstoreContext`, with the commands in flight on its queue pair, whether that has been freed,
-- the codes given to `spdk_app_stop`, latest first, and the number of commands tried.
pub record Context : Type 0 where
  pub zone_size : ℕ
  pub buff_size : ℕ
  pub num_queued : ℕ
  pub num_completed : ℕ
  pub num_success : ℕ
  pub num_fail : ℕ
  pub count : ℕ
  pub write_buff : Bytes
  pub read_buff : Bytes
  pub in_flight : List Request
  pub freed : Bool
  pub stops : List ℤ
  pub calls : ℕ

-- What the device reports of a command: its place, its status, and what a read leaves in the buffer.
pub record Answer : Type 0 where
  pub place : ℕ
  pub is_error : Bool
  pub data_read : Bytes

-- `spdk_nvme_ctrlr_free_io_qpair(ctx->qpair); spdk_app_stop(code);`
abbrev pub stop : ℤ → Context → Context
stop code c = record c { freed = true; stops = code ∷ c.stops }

-- The blocks at which the loops over two zones are.
abbrev pub zone_starts : ℕ → List ℕ
zone_starts zone_size = if zone_size == 0 then [] else 0 ∷ zone_size ∷ []

-- The end of a callback that is told of an error.
abbrev pub fail : Context → Context
fail c =
    stop (negsuc 0) (record c { num_fail = u64 (c.num_fail + 1); num_queued = dec64 c.num_queued })

abbrev pub succeed : Context → Context
succeed c = record c { num_success = u64 (c.num_success + 1); num_queued = dec64 c.num_queued }

-- `read_complete`.
unfoldable pub read_complete : Answer → Context → Context
unfolding same_text
read_complete a c =
    if a.is_error
    then fail c'
    else if not (same_text c'.write_buff a.data_read)
    then stop (negsuc 0) c'
    else if u64 (c.count + 1) == 2
    then stop (pos 0) (succeed (record c' { count = u64 (c.count + 1) }))
    else succeed (record c' { count = u64 (c.count + 1) })
  where
    c' : Context
    c' = record c { num_completed = u64 (c.num_completed + 1); read_buff = a.data_read }

-- The loops of `read_zone` and `write_zone`: a command that is refused ends them.
unfoldable pub submit_each : Device → (ℕ → Request) → List ℕ → Context → Context
submit_each d request [] c = c
submit_each d request (slba ∷ slbas) c =
    let sent = record c {
      num_queued = u64 (c.num_queued + 1);
      in_flight = c.in_flight ++ request slba ∷ [];
      calls = c.calls + 1;
    } in
    let rest = submit_each d request slbas sent in
    let refused = record c { num_queued = u64 (c.num_queued + 1); calls = c.calls + 1 } in
    if d.accepts c.calls then rest else stop (negsuc 0) refused

abbrev pub filled : ℕ → ℕ → Bytes
filled b zero = []
filled b (suc n) = b ∷ filled b n

-- `read_zone` up to its polling.
unfoldable pub read_zone : Device → Context → Context
unfolding submit_each
read_zone d c = submit_each d read (zone_starts c.zone_size) (record c {
  count = 0;
  num_queued = u64 (c.num_queued + 1);
  read_buff = filled 0x34 c.buff_size;
})

-- `write_zone_complete`, whose `read_zone` polls inside of it: its loop has the test of the loop around
-- it, on the same queue pair, and so the one loop below stands for both.
unfoldable pub write_zone_complete : Device → Answer → Context → Context
unfolding read_zone
write_zone_complete d a c =
    let good = succeed (record c' { count = dec64 c.count }) in
    let reading = read_zone d good in
    if a.is_error then fail c' else if dec64 c.count == 0 then reading else good
  where
    c' : Context
    c' = record c { num_completed = u64 (c.num_completed + 1) }

-- `write_zone` up to its polling.
unfoldable pub write_each : Device → Context → Context
unfolding submit_each
write_each d c =
    submit_each d append (zone_starts c.zone_size)
      (record c { count = 2; write_buff = filled 0x12 c.buff_size })

-- `reset_zone_complete`.
unfoldable pub reset_zone_complete : Device → Answer → Context → Context
unfolding write_each
reset_zone_complete d a c =
    let good = record (succeed c') { count = dec64 c.count } in
    let writing = write_each d good in
    if a.is_error then fail c' else if dec64 c.count == 2 then writing else good
  where
    c' : Context
    c' = record c { num_completed = u64 (c.num_completed + 1) }

unfoldable pub call_back : Device → Request → Answer → Context → Context
unfolding reset_zone_complete write_zone_complete read_complete
call_back d (reset b) a c = reset_zone_complete d a c
call_back d (append b) a c = write_zone_complete d a c
call_back d (read b) a c = read_complete a c

-- The device answers only commands in flight.
unfoldable pub answer : Device → Answer → Context → Context
unfolding call_back
answer d a c = elim (get_elem? c.in_flight a.place) [
  | none ↦ c
  | some r ↦ call_back d r a (record c { in_flight = remove_at c.in_flight a.place })
]

unfoldable pub answer_each : Device → List Answer → Context → Context
unfolding answer
answer_each d [] c = c
answer_each d (a ∷ rest) c = answer_each d rest (answer d a c)

-- `while (ctx->num_queued) spdk_nvme_qpair_process_completions(ctx->qpair, 0);`
unfoldable pub poll_queued : Device → List (List Answer) → Context → Exec Context
unfolding answer_each
poll_queued d [] c = if c.num_queued == 0 then done c else waiting c
poll_queued d (p ∷ ps) c =
    let rest = poll_queued d ps (answer_each d p c) in if c.num_queued == 0 then done c else rest

-- Whether the commands of a loop over two zones are taken.
abbrev pub accepts_both : Device → ℕ → Bool
accepts_both d k = if d.accepts k then d.accepts (k + 1) else false

-- `write_zone`: a refused command returns at once.
unfoldable pub write_zone : Device → List (List Answer) → Context → Exec Context
unfolding write_each poll_queued
write_zone d polls c =
    let c' = write_each d c in
    let rest = poll_queued d polls c' in
    if c.zone_size == 0 then rest else if accepts_both d c.calls then rest else done c'

-- The loop of `reset_zone`, which resets the zone behind the one that it is at. -ENOMEM goes on; the
-- answer is whether the loop came to its end.
unfoldable pub reset_each : Device → List ℕ → Context → Context × Bool
reset_each d [] c = (c, true)
reset_each d (slba ∷ slbas) c =
    let sent = record c {
      in_flight = c.in_flight ++ reset (u64 (slba + c.zone_size)) ∷ [];
      calls = c.calls + 1;
    } in
    let rest = reset_each d slbas sent in
    let later = reset_each d slbas (record c { calls = c.calls + 1 }) in
    if d.accepts c.calls
    then rest
    else if d.no_memory c.calls
    then later
    else (stop (negsuc 0) (record c { calls = c.calls + 1 }), false)

-- `reset_zone`.
unfoldable pub reset_zone : Device → List (List Answer) → Context → Exec Context
unfolding reset_each poll_queued
reset_zone d polls c =
    let (c', at_end) =
      reset_each d (zone_starts c.zone_size)
        (record c { count = 2; num_queued = u64 (c.num_queued + 1) }) in
    let rest = poll_queued d polls c' in if at_end then rest else done c'
