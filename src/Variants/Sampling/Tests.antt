-- ===== src/Variants/Sampling/Tests.antt =====
-- Small runs of examples/arbitration/arbitration_read.cc.
use mathlib.Core.List.Permᴰ.{swap}
use zns_emulation_bench.Prelude.{
  ℕ, ◌+◌, ◌*◌, ◌^◌, ◌≤◌, ◌<◌, ◌≡◌, refl, none, some, List, [], ◌∷◌, length, All, pos, map, arith,
}
use zns_emulation_bench.Exec.{done, final}
use zns_emulation_bench.Arbitration.{read}
use zns_emulation_bench.Arbitration.Tests.{env, cfg, entry}
use zns_emulation_bench.Arbitration.Setup.{new_ctx}
use zns_emulation_bench.Arbitration.Loop.{read_at}
use zns_emulation_bench.Arbitration.Loop
use zns_emulation_bench.Bench.{Round, work_fn}
use zns_emulation_bench.Bench
use zns_emulation_bench.Variants.Sampling
use zns_emulation_bench.Variants.Sampling.{SampledCtx, Timed, State, thread, report, program}
use zns_emulation_bench.Variants.Sampling.Counts.{Sampled, Fresh}
use zns_emulation_bench.Variants.Sampling.Report.{Outcome, Reported, work_fn-Outcome}
use zns_emulation_bench.Variants.Sampling.Mean.{sum, total_latency, report-mean}
use zns_emulation_bench.Arbitration.Loop.Invariant.{Inv, AnyCommand}
use zns_emulation_bench.Variants.Sampling.Ends.{finish_ends}
use zns_emulation_bench.Variants.Sampling.Erase.{erase, calls-erase}

-- A tick of the clock is 1100 nanoseconds.
abbrev pub now : ℕ → ℕ
now k = 1100 * k

abbrev pub new : SampledCtx
new = record { ns_ctx = new_ctx entry; failures = 0; stimes = []; etimes = []; reports = [] }

abbrev pub start : List SampledCtx × Timed
start = (new ∷ [], record { shared = record { task_pool = 2; seed = 0; calls = 0 }; readings = 0 })

abbrev rounds : List (Round ℕ)
rounds = record { reaped = (0 ∷ []) ∷ []; ticks = 20 } ∷ record { reaped = []; ticks = 51 } ∷ []

abbrev last_polls : List (List (List ℕ))
last_polls = ((0 ∷ []) ∷ [] ∷ (0 ∷ []) ∷ []) ∷ []

abbrev ended : ℕ × (List SampledCtx × Timed)
ended = final (work_fn (program env cfg now read_at) cfg 20 rounds last_polls start)

-- The second command is refused, and the report runs over.
ended-reports : map (λ (c : SampledCtx). c.reports) ended.1.0 ≡ (none ∷ []) ∷ []
unfolding work_fn Sampling.init_ns_worker_ctx Sampling.submit_single_io Sampling.task_complete
    report
ended-reports = refl

new-Fresh : Fresh now new start.1
new-Fresh = record {
  idle = refl;
  sampled = record {
    depth = refl;
    samples = refl;
    completed = refl;
    counted = omega arith;
    ordered = tt;
    past = tt;
    unreported = refl;
  };
}

few_readings : ended.1.1.readings < 2 ^ 64
unfolding work_fn Sampling.init_ns_worker_ctx Sampling.submit_single_io Sampling.task_complete
    report
few_readings = omega arith

work_fn-Outcome_example : All Outcome ended.1.0
work_fn-Outcome_example =
    work_fn-Outcome env cfg now read_at (λ i j h. omega arith) 20 rounds last_polls start
      (new-Fresh, tt) few_readings

-- Two reads that end in the other order than they started.
abbrev drained : SampledCtx
drained = record new {
  ns_ctx = record (new_ctx entry) { io_completed = 2 };
  stimes = 0 ∷ 1100 ∷ [];
  etimes = 2200 ∷ 5500 ∷ [];
}

abbrev later : Timed
later = record (start.1) { readings = 6 }

drained-Sampled : Sampled now drained later
drained-Sampled = record {
  depth = refl;
  samples = refl;
  completed = refl;
  counted = omega arith;
  ordered = (omega arith, (omega arith, tt));
  past = (omega arith, (omega arith, tt));
  unreported = refl;
}

report-mean_example :
    (ds : List ℕ) × ((report drained).reports ≡ some ds ∷ [])
    × (length ds ≡ 2)
    × (1000 * sum ds ≤ total_latency (0 ∷ 1100 ∷ []) (5500 ∷ 2200 ∷ []))
    × (total_latency (0 ∷ 1100 ∷ []) (5500 ∷ 2200 ∷ []) ≤ 1000 * sum ds + 999 * length ds)
report-mean_example =
    report-mean now drained later drained-Sampled refl refl (omega arith) (5500 ∷ 2200 ∷ [])
      (swap refl refl) (omega arith, (omega arith, tt))

abbrev begun : State
begun = (new, start.1)

calls-erase_example :
    (erase (Bench.submit_io (program env cfg now read_at) cfg (pos 2) begun)
      ≡ Loop.submit_io env cfg read_at (pos 2) (thread begun))
    × (erase (Bench.check_io (program env cfg now read_at) cfg (0 ∷ []) begun)
        ≡ Loop.check_io env cfg read_at (0 ∷ []) (thread begun))
    × (erase (Bench.drain_io (program env cfg now read_at) cfg ((0 ∷ []) ∷ []) begun)
        ≡ Loop.drain_io env cfg read_at ((0 ∷ []) ∷ []) (thread begun))
calls-erase_example = calls-erase env cfg now read_at (pos 2) (0 ∷ []) ((0 ∷ []) ∷ []) begun

-- The same with the second read still in flight.
abbrev half : SampledCtx
half = record new {
  ns_ctx = record (new_ctx entry) {
    io_completed = 1;
    current_queue_depth = 1;
    qpair = record { op = read; lba = 8; blocks = 8 } ∷ [];
  };
  stimes = 0 ∷ 1100 ∷ [];
  etimes = 2200 ∷ [];
}

half-Sampled : Sampled now half later
half-Sampled = record {
  depth = refl;
  samples = refl;
  completed = refl;
  counted = omega arith;
  ordered = (omega arith, tt);
  past = (omega arith, (omega arith, tt));
  unreported = refl;
}

half-Inv : Inv 3 entry AnyCommand (thread (half, later))
half-Inv = record {
  same = refl;
  depth = refl;
  balance = refl;
  offset = omega arith;
  commands = (tt, tt);
}

finish_ends_example :
    (c : SampledCtx) × (g : Timed) × (Bench.finish
        (program env cfg now read_at)
        cfg
        ([] ∷ (0 ∷ []) ∷ [])
        (half, later)
      ≡ done (c, g))
    × (c.ns_ctx.qpair ≡ [])
    × (c.failures ≡ 0)
    × (g.shared.task_pool + 0 ≡ 3)
    × Reported c
finish_ends_example =
    finish_ends env cfg now read_at (λ i j h. omega arith) 3 entry (omega arith) (omega arith)
      ([] ∷ (0 ∷ []) ∷ []) half later half-Sampled half-Inv (omega arith)
