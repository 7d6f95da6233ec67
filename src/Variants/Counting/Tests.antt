-- ===== src/Variants/Counting/Tests.antt =====
-- Small runs of examples/multipath/mp_one_drive_read.cc.
use zns_emulation_bench.Prelude.{
  ℕ, ◌+◌, ◌^◌, ◌<◌, ◌≡◌, refl, List, [], ◌∷◌, ◌++◌, All, map, u64, arith,
}
use zns_emulation_bench.Exec.{done, final}
use zns_emulation_bench.Arbitration.{Command}
use zns_emulation_bench.Arbitration.Tests.{env, cfg, entry}
use zns_emulation_bench.Arbitration.Setup.{new_ctx}
use zns_emulation_bench.Bench.{Round, submit_times, work_fn}
use zns_emulation_bench.Variants.{Shared}
use zns_emulation_bench.Variants.Counting
use zns_emulation_bench.Variants.Counting.{CountingCtx, State, read_at_count, append_at_23, program}
use zns_emulation_bench.Variants.Counting.Submit.{accepted, submit_times-accepted}
use zns_emulation_bench.Variants.Counting.Ascending.{Ascending, work_fn-Ascending}

abbrev new : CountingCtx
new = record { ns_ctx = new_ctx entry; count = 0; failures = 0 }

abbrev shared : Shared
shared = record { task_pool = 3; seed = 0; calls = 0 }

-- The second of three commands is refused.
submit_times-accepted_example :
    (s' : State) × (submit_times (program env cfg read_at_count) cfg 3 (new, shared) ≡ done s')
    × (s'.0.ns_ctx.qpair ≡ [] ++ accepted env read_at_count 8 0 0 3)
    × (s'.0.count ≡ u64 (0 + 3))
    × (s'.1.task_pool + 3 ≡ 3)
submit_times-accepted_example =
    submit_times-accepted env cfg read_at_count (λ k. refl) 3 (new, shared) (omega arith)
      (omega arith)

first_and_third : map (λ (c : Command). c.lba) (accepted env read_at_count 8 0 0 3) ≡ 0 ∷ 2 ∷ []
unfolding read_at_count
first_and_third = refl

-- The reads of eight blocks overlap.
overlap : (read_at_count 1 8).lba < (read_at_count 0 8).lba + (read_at_count 0 8).blocks
unfolding read_at_count
overlap = omega arith

always_zone_23 :
    map (λ (c : Command). c.lba) (accepted env append_at_23 8 0 5 3) ≡ 12058624 ∷ 12058624 ∷ []
unfolding append_at_23
always_zone_23 = refl

abbrev rounds : List (Round ℕ)
rounds = record { reaped = (0 ∷ []) ∷ []; ticks = 20 } ∷ []

abbrev ended : ℕ × (List CountingCtx × Shared)
ended = final (work_fn (program env cfg read_at_count) cfg 20 rounds [] (new ∷ new ∷ [], shared))

few_calls : ended.1.1.calls < 2 ^ 64
unfolding work_fn Counting.init_ns_worker_ctx Counting.submit_single_io Counting.task_complete
few_calls = omega arith

work_fn-Ascending_example : All (λ (c : CountingCtx). Ascending 0 c.ns_ctx.qpair c.count) ended.1.0
work_fn-Ascending_example =
    work_fn-Ascending env cfg 20 rounds [] (new ∷ new ∷ [], shared)
      ((refl, refl), ((refl, refl), tt)) few_calls
