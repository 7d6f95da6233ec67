-- ===== src/Variants/Sampling/Ends.antt =====
-- The end of a context of examples/arbitration/arbitration_read.cc: it drains, and it reports.
use zns_emulation_bench.Prelude.{
  ℕ, ◌+◌, ◌^◌, ◌≤◌, ◌<◌, ◌≡◌, true, refl, ap, subst, ◌∙◌, List, [], length, arith, pos,
}
use zns_emulation_bench.Exec.{Exec, done, exited, waiting, final, ◌>>=◌}
use zns_emulation_bench.Arbitration.{NsEntry, ArbContext, Spdk}
use zns_emulation_bench.Arbitration.Loop.{Thread, Build}
use zns_emulation_bench.Arbitration.Loop.Invariant.{Inv, AnyCommand, drain_loop-Inv}
use zns_emulation_bench.Arbitration.Loop.Drain.{left_after, drain_io_ends}
use zns_emulation_bench.Arbitration.Loop
use zns_emulation_bench.Bench.{Program, drain_io, finish}
use zns_emulation_bench.Bench.Keeps.{Keeps, drain_loop-Kept}
use zns_emulation_bench.Variants.Sampling.{SampledCtx, Timed, State, thread, report, program}
use zns_emulation_bench.Variants.Sampling.Counts.{Sampled, Fresh, Later}
use zns_emulation_bench.Variants.Sampling.Report.{Reported, Q, report-Reported, program-Keeps}
use zns_emulation_bench.Variants.Sampling.Erase.{erase, calls-erase}

erased_done :
    (m : Exec State) (t : Thread) → erase m ≡ done t → (s : State) × (m ≡ done s) × (thread s ≡ t)
erased_done (done s) t e = (s, refl, ap final e)
erased_done (exited s) t e = absurd (cc)
erased_done (waiting s) t e = absurd (cc)

module _ (env : Spdk) (cfg : ArbContext) (now : ℕ → ℕ) (build : Build)
    (clock : (i j : ℕ) → i ≤ j → now i ≤ now j) where
  drain_io-Sampled :
      (polls : List (List ℕ)) (c : SampledCtx) (g : Timed) (s : State)
      → Sampled now c g
      → drain_io (program env cfg now build) cfg polls (c, g) ≡ done s
      → Sampled now s.0 s.1
  unfolding drain_io
  drain_io-Sampled polls c g s v e =
      subst (λ (m : Exec State). Sampled now (final m).0 (final m).1) e
        (drain_loop-Kept prog cfg Later (Fresh now) (Sampled now) Q k polls
          (prog.start_draining c, g) (k.drains c g v)).0
    where
      prog : Program SampledCtx Timed ℕ
      prog = program env cfg now build

      k : Keeps Later (Fresh now) (Sampled now) Q prog
      k = program-Keeps env cfg now build clock

  drain_io-Inv :
      (total : ℕ) (entry : NsEntry)
      → total < 2 ^ 64
      → entry.size_in_ios < 2 ^ 64
      → (polls : List (List ℕ)) (t t' : Thread) → Inv total entry AnyCommand t
      → Loop.drain_io env cfg build polls t ≡ done t'
      → Inv total entry AnyCommand t'
  unfolding Loop.drain_io
  drain_io-Inv total entry small fits polls t t' v e =
      subst (λ (m : Exec Thread). Inv total entry AnyCommand (final m)) e
        (drain_loop-Inv env cfg total entry small fits AnyCommand build (λ _ _. tt) polls
          (record t { ctx = record (t.ctx) { is_draining = true } }) (ground arith))

  -- A context whose counts agree, with fewer than 2^64 tasks: once the polls of `drain_io` have reported every
  -- command in flight, in whatever order and batches, the last loop of `work_fn` ends on it, with nothing in flight, no failure
  -- more, all the tasks but those of the refused commands in the pool, and a report, which is complete if
  -- no command of the context was refused, and reads behind the end of `etimes` if one was.
  pub finish_ends :
      (total : ℕ) (entry : NsEntry)
      → total < 2 ^ 64
      → entry.size_in_ios < 2 ^ 64
      → (polls : List (List ℕ)) (c : SampledCtx) (g : Timed) → Sampled now c g
      → Inv total entry AnyCommand (thread (c, g))
      → left_after cfg.max_completions (length c.ns_ctx.qpair) polls ≡ 0
      → (c' : SampledCtx) × (g' : Timed) × (finish (program env cfg now build) cfg polls (c, g)
          ≡ done (c', g'))
        × (c'.ns_ctx.qpair ≡ [])
        × (c'.failures ≡ c.failures)
        × (g'.shared.task_pool + c.failures ≡ total)
        × Reported c'
  unfolding finish
  finish_ends total entry small fits polls c g v inv h =
      let (t, d, z, q, n, u, b) =
        drain_io_ends env cfg build total entry small fits polls (thread (c, g)) inv h in
      let (_, _, drains) = calls-erase env cfg now build (pos 0) [] polls (c, g) in
      let (s, e, same) =
        erased_done (drain_io (program env cfg now build) cfg polls (c, g)) t (drains ∙ d) in
      let v' = drain_io-Sampled polls c g s v e in
      let inv' = drain_io-Inv total entry small fits polls (thread (c, g)) t inv d in
      let empty = ap (λ (r : Thread). r.ctx.qpair) same ∙ q in
      let all_back = ap (λ (r : Thread). r.task_pool) same in
      (
        report s.0,
        s.1,
        rw (e, ◌>>=◌) refl,
        unfold report in empty,
        unfold report in
            (ap (λ (r : Thread). r.failures) same ∙ omega (arith, inv'.balance, b, ap length q)),
        omega (arith, all_back, b),
        report-Reported now s.0 s.1 v' (ap length empty),
      )
