-- ===== src/SimpleAppend/Tests.antt =====
-- Small runs of examples/simple_append.cc.
use mathlib.Core.List.Memᴰ.{head, tail}
use zns_emulation_bench.Prelude.{
  refl, true, if◌then◌else◌, ◌==◌, ℕ, ◌+◌, ◌≤◌, ◌≡◌, ◌≢◌, ltb, List, [], ◌∷◌, arith, min,
}
use zns_emulation_bench.SimpleAppend.{Device, Block, fill, run}
use zns_emulation_bench.SimpleAppend.Appends.{Reached, run-Reached}
use zns_emulation_bench.SimpleAppend.Mismatches.{zone_word, run-mismatches}
use zns_emulation_bench.SimpleAppend.Filled.{words}

abbrev mem : List Block
mem = words 512 1 ∷ words 512 2 ∷ []

-- All reads are queued. The first one and the second end in the round `r`, the second one first.
abbrev device : ℕ → ℕ → Device
device word r = record {
  zcap = 2;
  queues = λ i. ltb i 3;
  rbuf = mem;
  zone = λ i. words 512 (word + i);
  queues_read = λ i. true;
  ends = λ i. if i == r then 1 ∷ 0 ∷ [] else [];
}

run-mismatches_example :
    (zone_word (device 7 1) ≡ zone_word (device 7 0)
      → (run 4 (device 7 1) (device 7 0) mem mem).1 ≤ 1)
    × (zone_word (device 7 1) ≢ zone_word (device 7 0)
        → 4 ≤ (run 4 (device 7 1) (device 7 0) mem mem).1 + 1)
run-mismatches_example =
    run-mismatches (device 7 1) (device 7 0) 1 0 1 refl refl (tail (head refl)) (tail (head refl))
      (omega arith) (omega arith) 4 mem mem (omega arith) (omega arith)

run-Reached_example :
    Reached
      (fill 0 (min 2 2) mem)
      (fill 0 (min 2 2) mem)
      4
      0
      (record { to_first = []; to_second = [] })
      (run 4 (device 7 1) (device 7 0) mem mem).0
run-Reached_example = run-Reached 4 (device 7 1) (device 7 0) mem mem
