-- ===== src/Variants/Marking/Tests.antt =====
-- Small runs of examples/multipath/mp_one_drive_append.cc.
use zns_emulation_bench.Prelude.{ℕ, ◌^◌, ◌<◌, ◌≡◌, refl, List, [], ◌∷◌, All, arith}
use zns_emulation_bench.Exec.{final}
use zns_emulation_bench.Text.{codes, to_string}
use zns_emulation_bench.Arbitration.Tests.{env, cfg, entry}
use zns_emulation_bench.Arbitration.Setup.{new_ctx}
use zns_emulation_bench.Bench.{Round, work_fn}
use zns_emulation_bench.Variants.{Shared}
use zns_emulation_bench.Variants.Marking
use zns_emulation_bench.Variants.Marking.{MarkingCtx, mark, program}
use zns_emulation_bench.Variants.Marking.Marks.{AllDistinct}
use zns_emulation_bench.Variants.Marking.Distinct.{work_fn-AllDistinct}

mark_of_12 : mark 12 ≡ codes "zstore1:12"
unfolding mark to_string
mark_of_12 = refl

abbrev new : MarkingCtx
new = record { ns_ctx = new_ctx entry; count = 0; failures = 0; texts = [] }

abbrev shared : Shared
shared = record { task_pool = 5; seed = 0; calls = 0 }

abbrev rounds : List (Round ℕ)
rounds = record { reaped = (0 ∷ []) ∷ []; ticks = 20 } ∷ []

abbrev ended : ℕ × (List MarkingCtx × Shared)
ended = final (work_fn (program env cfg) cfg 20 rounds [] (new ∷ [], shared))

few_calls : ended.1.1.calls < 2 ^ 64
unfolding work_fn Marking.init_ns_worker_ctx Marking.submit_single_io Marking.task_complete
few_calls = omega arith

work_fn-AllDistinct_example : All (λ (c : MarkingCtx). AllDistinct c.texts) ended.1.0
work_fn-AllDistinct_example =
    work_fn-AllDistinct env cfg 20 rounds [] (new ∷ [], shared) ((refl, refl), tt) few_calls
