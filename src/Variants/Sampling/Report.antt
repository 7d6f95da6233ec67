-- ===== src/Variants/Sampling/Report.antt =====
-- The report at the end of `work_fn` of examples/arbitration/arbitration_read.cc: when it reads behind the
-- end of `etimes`.
use zns_emulation_bench.Prelude.{
  ℕ, zero, suc, ◌^◌, ◌≤◌, ◌<◌, ◌≡◌, refl, ap, ◌∙◌, none, some, List, [], ◌∷◌, length, All, u64,
  arith,
}
use zns_emulation_bench.Exec.{final}
use zns_emulation_bench.Arbitration.{ArbContext, Spdk}
use zns_emulation_bench.Arbitration.Loop.{Build}
use zns_emulation_bench.Bench.{Round, work_fn}
use zns_emulation_bench.Bench.Keeps.{Rely, Keeps}
use zns_emulation_bench.Bench.Contexts.{work_fn-AllQ}
use zns_emulation_bench.Variants.Sampling.{SampledCtx, Timed, micros, deltas, report, program}
use zns_emulation_bench.Variants.Sampling.Counts.{
  Sampled, Fresh, Later, Sampled-Rely, submit_single_io-Leaves, task_complete-Leaves, init-Leaves,
}

pub deltas-enough :
    (es ss : List ℕ)
    → length ss ≤ length es
    → (ds : List ℕ) × (deltas es ss ≡ some ds) × (length ds ≡ length ss)
unfolding deltas
deltas-enough es [] h = ([], refl, refl)
deltas-enough [] (s ∷ ss) h = absurd (omega arith)
deltas-enough (e ∷ es) (s ∷ ss) h =
    let (ds, d, l) = deltas-enough es ss (omega arith) in (micros e s ∷ ds, rw d refl, ap suc l)

pub deltas-short : (es ss : List ℕ) → length es < length ss → deltas es ss ≡ none
unfolding deltas
deltas-short es [] h = absurd (omega arith)
deltas-short [] (s ∷ ss) h = refl
deltas-short (e ∷ es) (s ∷ ss) h = rw (deltas-short es ss (omega arith)) refl

-- A report: as many latencies as commands were completed, or it ran over `etimes`, as a command was
-- refused.
pub data Reported (c : SampledCtx) : Type 0 where
  complete :
      (ds : List ℕ)
      → c.reports ≡ some ds ∷ []
      → c.failures ≡ 0
      → c.ns_ctx.io_completed ≡ u64 (length ds)
      → Reported c
  overrun : c.reports ≡ none ∷ [] → 0 < c.failures → Reported c

pub data Outcome (c : SampledCtx) : Type 0 where
  silent : c.reports ≡ [] → Outcome c
  reported : Reported c → Outcome c

abbrev pub Q : SampledCtx → Timed → Type 0
Q c g = g.readings < 2 ^ 64 → Outcome c

pub report-Reported :
    (now : ℕ → ℕ) (c : SampledCtx) (g : Timed)
    → Sampled now c g
    → length c.ns_ctx.qpair ≡ 0
    → Reported (report c)
unfolding report
report-Reported now c g v none_left = by_failures c.failures refl
  where
    by_failures : (n : ℕ) → c.failures ≡ n → Reported (report c)
    by_failures zero e =
        let (ds, d, l) = deltas-enough c.etimes c.stimes (omega (arith, v.samples, none_left, e)) in
        complete ds (rw (v.unreported, d) refl) e
          (v.completed ∙ ap u64 (omega (arith, l, v.samples, none_left, e)))
    by_failures (suc n) e =
        overrun
          (rw
            (v.unreported, deltas-short c.etimes c.stimes (omega (arith, v.samples, none_left, e)))
            refl)
          (omega (arith, e))

Q-Rely : Rely Later Q
Q-Rely = record {
  later_refl = λ g. omega arith;
  later_trans = λ l m. omega (arith, l, m);
  stable = λ l q h. q (omega (arith, l, h));
}

module _ (env : Spdk) (cfg : ArbContext) (now : ℕ → ℕ) (build : Build)
    (clock : (i j : ℕ) → i ≤ j → now i ≤ now j) where
  Fresh-Rely : Rely Later (Fresh now)
  Fresh-Rely = record {
    later_refl = λ g. omega arith;
    later_trans = λ l m. omega (arith, l, m);
    stable = λ l v. record {
      idle = v.idle;
      sampled = (Sampled-Rely env cfg now build clock).stable l v.sampled;
    };
  }

  pub program-Keeps : Keeps Later (Fresh now) (Sampled now) Q (program env cfg now build)
  program-Keeps = record {
    rely_i = Fresh-Rely;
    rely_p = Sampled-Rely env cfg now build clock;
    rely_q = Q-Rely;
    fresh = λ c g v. v.sampled;
    weaken = λ c g v h. silent v.unreported;
    inits = init-Leaves env cfg now build clock;
    submits = submit_single_io-Leaves env cfg now build clock;
    completes = task_complete-Leaves env cfg now build clock;
    drains = λ c g v. record {
      depth = v.depth;
      samples = v.samples;
      completed = v.completed;
      counted = v.counted;
      ordered = v.ordered;
      past = v.past;
      unreported = v.unreported;
    };
    reports = λ c g v z h.
        reported (report-Reported now c g v (omega (arith, v.depth, z, v.samples, v.counted, h)));
  }

  All-apply :
      (cs : List SampledCtx) (g : Timed)
      → g.readings < 2 ^ 64
      → All (λ c. Q c g) cs
      → All Outcome cs
  All-apply [] g h a = tt
  All-apply (c ∷ cs) g h a = (a.0 h, All-apply cs g h a.1)

  -- On a clock that does not run backwards, from contexts that have neither samples nor commands in
  -- flight, and with fewer than 2^64 readings of the clock: however the worker ends, each context has
  -- reported nothing yet, or it has reported once. A report has one latency for each completion if no
  -- command of the context was refused, and reads behind the end of `etimes` if one was.
  pub work_fn-Outcome :
      (start : ℕ) (rounds : List (Round ℕ)) (last : List (List (List ℕ)))
      (w : List SampledCtx × Timed)
      → All (λ c. Fresh now c w.1) w.0
      → (final (work_fn (program env cfg now build) cfg start rounds last w)).1.1.readings < 2 ^ 64
      → All Outcome (final (work_fn (program env cfg now build) cfg start rounds last w)).1.0
  work_fn-Outcome start rounds last w fresh h =
      All-apply _ (final (work_fn (program env cfg now build) cfg start rounds last w)).1.1 h (
        work_fn-AllQ (program env cfg now build) cfg Later (Fresh now) (Sampled now) Q program-Keeps
          start rounds last w fresh)
