-- ===== src/Variants/Measuring/Tests.antt =====
-- Small runs of examples/measurement.cc.
use zns_emulation_bench.Prelude.{ℕ, ◌≡◌, refl, List, [], ◌∷◌, map, arith}
use zns_emulation_bench.Exec.{Exec, done, final}
use zns_emulation_bench.Arbitration.{read}
use zns_emulation_bench.Arbitration.Tests.{env, cfg, entry}
use zns_emulation_bench.Arbitration.Setup.{new_ctx}
use zns_emulation_bench.Bench.{Round}
use zns_emulation_bench.Variants.Sampling.{SampledCtx, State}
use zns_emulation_bench.Variants.Sampling.Tests.{now, new, start}
use zns_emulation_bench.Variants.Measuring
use zns_emulation_bench.Variants.Measuring.{program, poll_loop}
use zns_emulation_bench.Variants.Measuring.Starved.{behind_first, poll_loop-starves}

abbrev init : ℕ → State → Exec (ℕ × State)
init i s = done (0, s)

-- A context that has completed three I/Os, and one that waits for a read.
abbrev ahead : SampledCtx
ahead = record new { ns_ctx = record (new_ctx entry) { io_completed = 3 } }

abbrev behind : SampledCtx
behind = record new {
  ns_ctx = record (new_ctx entry) {
    current_queue_depth = 1;
    qpair = record { op = read; lba = 0; blocks = 8 } ∷ [];
  };
  stimes = 0 ∷ [];
}

-- The second context's read is done in both rounds, and nobody asks for it.
abbrev rounds : List (Round ℕ)
rounds =
    record { reaped = [] ∷ (0 ∷ []) ∷ []; ticks = 20 }
    ∷ record { reaped = [] ∷ (0 ∷ []) ∷ []; ticks = 51 }
    ∷ []

poll_loop-starves_example :
    behind_first
      (final
        (poll_loop (program env cfg now init) cfg 2 50 rounds (ahead ∷ behind ∷ [], start.1))).0
    ≡ behind ∷ []
poll_loop-starves_example =
    poll_loop-starves env cfg now init 2 50 rounds ahead (behind ∷ []) (start.1) (omega arith)
      (omega arith)

-- With a larger `append_times` the read is retired and replaced.
polled :
    map
      (λ (c : SampledCtx). c.ns_ctx.io_completed)
      (final
        (poll_loop (program env cfg now init) cfg 5 50 rounds (ahead ∷ behind ∷ [], start.1))).0
    ≡ 3 ∷ 2 ∷ []
unfolding poll_loop Measuring.submit_single_io Measuring.task_complete
polled = refl
