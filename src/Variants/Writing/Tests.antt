-- ===== src/Variants/Writing/Tests.antt =====
-- Small runs of examples/arbitration/arbitration_write.cc.
use zns_emulation_bench.Prelude.{
  ℕ, ◌+◌, ◌*◌, ◌<◌, ◌≡◌, refl, true, false, ◌==◌, List, [], ◌∷◌, pos, arith,
}
use zns_emulation_bench.Exec.{done, waiting}
use zns_emulation_bench.Arbitration.{Spdk}
use zns_emulation_bench.Arbitration.Tests.{env, cfg, entry}
use zns_emulation_bench.Arbitration.Setup.{new_ctx}
use zns_emulation_bench.Arbitration.Loop.Commands.{contiguous}
use zns_emulation_bench.Bench.{submit_io, work_fn}
use zns_emulation_bench.Variants.{Shared}
use zns_emulation_bench.Variants.Writing.{WritingCtx, ZoneDesc, Report, State, program}
use zns_emulation_bench.Variants.Writing.Waiting.{is_answered, AllIdle, work_fn_waits}
use zns_emulation_bench.Variants.Writing.Contiguous.{submit_io-contiguous}

abbrev willing : Spdk
willing = record env { accepts = λ k. true }

abbrev zone : ℕ → ZoneDesc
zone k = record { zslba = 1000 * k; wp = 1000 * k + k }

abbrev seven_zones : List ZoneDesc
seven_zones = zone 0 ∷ zone 1 ∷ zone 2 ∷ zone 3 ∷ zone 4 ∷ zone 5 ∷ zone 6 ∷ []

-- The first context gets its report with the second poll, the others' are refused.
abbrev zones : ℕ → Report
zones i = record { accepted = i == 0; brings = false ∷ true ∷ []; descs = seven_zones }

abbrev new : WritingCtx
new = record { ns_ctx = new_ctx entry; wp = 6006; failures = 0 }

abbrev shared : Shared
shared = record { task_pool = 4; seed = 0; calls = 0 }

submit_io-contiguous_example :
    (s' : State) × (submit_io (program willing cfg zones) cfg (pos 2) (new, shared) ≡ done s')
    × (s'.0.ns_ctx.qpair ≡ contiguous (6006 + 0 * 8) 8 2)
submit_io-contiguous_example =
    submit_io-contiguous willing cfg zones refl (λ k. refl) (λ k. refl) (new, shared) refl
      (omega arith) (omega arith) (pos 2) (omega arith) (omega arith) (omega arith)

first_answered : (j : ℕ) → j < 1 → is_answered (zones j) ≡ true
first_answered j h = ground arith

work_fn_waits_example :
    (cs' : List WritingCtx) × (work_fn
        (program willing cfg zones)
        cfg
        20
        []
        []
        (new ∷ new ∷ [], shared)
      ≡ waiting (0, (cs', shared)))
    × AllIdle (new ∷ new ∷ []) cs'
work_fn_waits_example =
    work_fn_waits willing cfg zones (λ i. refl) 1 20 [] [] (new ∷ new ∷ []) shared (omega arith)
      first_answered refl
