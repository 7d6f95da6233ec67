-- ===== src/SimpleAppend.antt =====
-- examples/simple_append.cc: the same blocks are appended to a zone of two devices, read back, and
-- compared. The devices (ZNSDevice) are not in the repository.
pub mod Appends
pub mod Filled
pub mod Mismatches
pub mod Tests
use zns_emulation_bench.Prelude.{
  ℕ, zero, suc, ◌+◌, ◌*◌, ◌/◌, Bool, true, false, not, ◌&&◌, ◌||◌, if◌then◌else◌, ◌==◌, Option,
  List, [], ◌∷◌, ◌++◌, get_elem?, min, u64,
}

-- A block of 4096 bytes, as its words of 64 bits.
abbrev pub Block : Type 0
Block = List ℕ

-- The first `n` words become `val`.
abbrev pub set_words : ℕ → ℕ → Block → Block
set_words zero val words = words
set_words (suc n) val [] = []
set_words (suc n) val (w ∷ words) = val ∷ set_words n val words

unfoldable pub memset64 : Block → ℕ → ℕ → Block
memset64 dest val bytes = set_words (bytes / 8) val dest

-- The blocks of a buffer from the `i`-th on: `n` of them are filled with their number and an offset.
unfoldable pub fill : ℕ → ℕ → List Block → List Block
unfolding memset64
fill i zero blocks = blocks
fill i (suc n) [] = []
fill i (suc n) (b ∷ blocks) = memset64 b (u64 (i + 0xdeadbeef)) 4096 ∷ fill (i + 1) n blocks

-- What the two queues were given: blocks of the buffers, or `none` for memory behind them.
pub record Queued : Type 0 where
  pub to_first : List (Option Block)
  pub to_second : List (Option Block)

abbrev pub enqueue : Bool → List (Option Block) → Option Block → List (Option Block)
enqueue accepted queue b = if accepted then queue ++ b ∷ [] else queue

-- The loop over the appends, from the `i`-th on: both queues are asked, and it ends when one refuses.
unfoldable pub append_loop :
    (ℕ → Bool) → (ℕ → Bool) → List Block → List Block → ℕ → ℕ → Queued → Queued
append_loop takes_first takes_second buf1 buf2 zero i q = q
append_loop takes_first takes_second buf1 buf2 (suc n) i q =
    let q' : Queued = record {
      to_first = enqueue (takes_first i) q.to_first (get_elem? buf1 i);
      to_second = enqueue (takes_second i) q.to_second (get_elem? buf2 i);
    } in
    let rest = append_loop takes_first takes_second buf1 buf2 n (i + 1) q' in
    if takes_first i && takes_second i then rest else q'

-- A device: the capacity of the zone in blocks, which appends it queues, what its read buffer holds at
-- first, the blocks of the zone, which reads it queues, and which of them end in each round.
pub record Device : Type 0 where
  pub zcap : ℕ
  pub queues : ℕ → Bool
  pub rbuf : List Block
  pub zone : ℕ → Block
  pub queues_read : ℕ → Bool
  pub ends : ℕ → List ℕ

-- The `j`-th block of a read buffer becomes this one.
abbrev pub set_block : List Block → ℕ → Block → List Block
set_block [] j b = []
set_block (x ∷ xs) zero b = b ∷ xs
set_block (x ∷ xs) (suc j) b = x ∷ set_block xs j b

abbrev pub is_queued : ℕ → List ℕ → Bool
is_queued j [] = false
is_queued j (k ∷ ks) = j == k || is_queued j ks

-- The reads that are queued, by their rounds, and the read buffer.
pub record Reading : Type 0 where
  pub queued : List ℕ
  pub rbuf : List Block

-- `enq_read(zslba + i, 4096, rbuf + i * 4096)`, whose return code is not looked at.
abbrev pub enq_read : Device → ℕ → Reading → Reading
enq_read d i s = if d.queues_read i then record s { queued = i ∷ s.queued } else s

-- Reads end: the one of round `j` writes the zone's block `j` to the buffer's block `j`.
unfoldable pub end_reads : Device → List ℕ → Reading → Reading
end_reads d [] s = s
end_reads d (j ∷ js) s =
    end_reads d js
      (if is_queued j s.queued then record s { rbuf = set_block s.rbuf j (d.zone j) } else s)

-- `*(u64 *)rbuf`.
abbrev pub first_word : List Block → ℕ
first_word [] = 0
first_word ([] ∷ blocks) = 0
first_word ((w ∷ words) ∷ blocks) = w

-- The loop over the reads, from round `i` on, with what is pushed each time.
unfoldable pub read_loop : Device → ℕ → ℕ → Reading → List ℕ
unfolding end_reads
read_loop d zero i s = []
read_loop d (suc n) i s =
    let s' = end_reads d (d.ends i) (enq_read d i s) in
    first_word s'.rbuf ∷ read_loop d n (i + 1) s'

unfoldable pub count_mismatches : List ℕ → List ℕ → ℕ
count_mismatches [] ys = 0
count_mismatches (x ∷ xs) [] = 0
count_mismatches (x ∷ xs) (y ∷ ys) =
    let rest = count_mismatches xs ys in if not (x == y) then rest + 1 else rest

-- `main` behind its arguments, on the memory of the two buffers: what was queued, and the number of
-- mismatches that it reports.
unfoldable pub run : ℕ → Device → Device → List Block → List Block → Queued × ℕ
unfolding fill append_loop read_loop count_mismatches
run num_appends d1 d2 mem1 mem2 = (
  append_loop d1.queues d2.queues (fill 0 zcap mem1) (fill 0 zcap mem2) num_appends 0
      (record { to_first = []; to_second = [] }),
  count_mismatches (read_loop d1 num_appends 0 (reading d1))
      (read_loop d2 num_appends 0 (reading d2)),
)
  where
    zcap : ℕ
    zcap = min d1.zcap d2.zcap

    reading : Device → Reading
    reading d = record { queued = []; rbuf = d.rbuf }
