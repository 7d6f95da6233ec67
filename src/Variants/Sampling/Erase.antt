-- ===== src/Variants/Sampling/Erase.antt =====
-- Without its samples, a context of examples/arbitration/arbitration_read.cc is worked on as one of
-- examples/arbitration/arbitration.cc.
use zns_emulation_bench.Prelude.{
  ℕ, zero, suc, ◌≡◌, refl, ap, ◌∙◌, true, false, if◌then◌else◌, ◌==◌, Bool, Bool-cases,
  Option-cases, inl, inr, List, [], ◌∷◌, get_elem?, ℤ, pos_part,
}
use zns_emulation_bench.Exec.{Exec, done, exited, waiting, ◌>>=◌}
use zns_emulation_bench.Arbitration.{ArbContext, Spdk}
use zns_emulation_bench.Arbitration.Loop.{Thread, Build, limit}
use zns_emulation_bench.Arbitration.Loop
use zns_emulation_bench.Bench
use zns_emulation_bench.Variants.Sampling.{
  State, thread, submit_task, submit_single_io, retire, task_complete, program,
}

abbrev pub erase : Exec State → Exec Thread
erase (done s) = done (thread s)
erase (exited s) = exited (thread s)
erase (waiting s) = waiting (thread s)

erase->>= :
    (m : Exec State) (f : State → Exec State) (n : Exec Thread) (g : Thread → Exec Thread)
    → erase m ≡ n
    → ((s : State) → erase (f s) ≡ g (thread s))
    → erase (m >>= f) ≡ (n >>= g)
erase->>= (done s) f n g e h = h s ∙ ap (λ (k : Exec Thread). k >>= g) e
erase->>= (exited s) f n g e h = ap (λ (k : Exec Thread). k >>= g) e
erase->>= (waiting s) f n g e h = ap (λ (k : Exec Thread). k >>= g) e

erase-if :
    (b : Bool) (m n : Exec State) → erase (if b then m else n) ≡ (if b then erase m else erase n)
erase-if true m n = refl
erase-if false m n = refl

module _ (env : Spdk) (cfg : ArbContext) (now : ℕ → ℕ) (build : Build) where
  submit_task-thread :
      (s : State)
      → thread (submit_task env cfg now build s) ≡ Loop.submit_task env cfg build (thread s)
  unfolding submit_task Loop.submit_task
  submit_task-thread s = refl

  submit_single_io-erase :
      (s : State)
      → erase (submit_single_io env cfg now build s)
        ≡ Loop.submit_single_io env cfg build (thread s)
  unfolding submit_single_io Loop.submit_single_io
  submit_single_io-erase s = elim (Bool-cases (s.1.shared.task_pool == 0)) [
    | inl e ↦ rw e refl
    | inr e ↦ rw e (elim (Bool-cases (env.dma_zmalloc s.1.shared.calls)) [
      | inl a ↦ rw a (ap done (submit_task-thread s))
      | inr a ↦ rw a refl
    ])
  ]

  retire-thread :
      (i : ℕ) (s : State) → thread (retire env cfg now build i s) ≡ Loop.retire i (thread s)
  unfolding retire Loop.retire
  retire-thread i s = refl

  replaced-erase :
      (s : State)
      → erase (if s.0.ns_ctx.is_draining then done s else submit_single_io env cfg now build s) ≡ (
          if (thread s).ctx.is_draining
          then done (thread s)
          else Loop.submit_single_io env cfg build (thread s))
  replaced-erase s =
      erase-if s.0.ns_ctx.is_draining _ _
      ∙ ap (λ (m : Exec Thread). if s.0.ns_ctx.is_draining then done (thread s) else m)
          (submit_single_io-erase s)

  task_complete-erase :
      (i : ℕ) (s : State)
      → erase (task_complete env cfg now build i s) ≡ Loop.task_complete env cfg build i (thread s)
  unfolding task_complete Loop.task_complete
  task_complete-erase i s = elim (Option-cases (get_elem? s.0.ns_ctx.qpair i)) [
    | inl e ↦ rw (e, task_complete, Loop.task_complete) refl
    | inr (cmd, e) ↦
        rw (e, task_complete, Loop.task_complete) (replaced-erase (retire env cfg now build i s))
  ]

  complete_each-erase :
      (is : List ℕ) (s : State)
      → erase (Bench.complete_each (program env cfg now build) cfg is s)
        ≡ Loop.complete_each env cfg build is (thread s)
  unfolding Bench.complete_each Loop.complete_each
  complete_each-erase [] s = refl
  complete_each-erase (i ∷ is) s =
      erase->>= (task_complete env cfg now build i s) _ _ _ (task_complete-erase i s)
        (complete_each-erase is)

  check_io-erase :
      (is : List ℕ) (s : State)
      → erase (Bench.check_io (program env cfg now build) cfg is s)
        ≡ Loop.check_io env cfg build is (thread s)
  unfolding Bench.check_io Loop.check_io
  check_io-erase is s = complete_each-erase (limit cfg.max_completions is) s

  submit_times-erase :
      (n : ℕ) (s : State)
      → erase (Bench.submit_times (program env cfg now build) cfg n s)
        ≡ Loop.submit_times env cfg build n (thread s)
  unfolding Bench.submit_times Loop.submit_times
  submit_times-erase zero s = refl
  submit_times-erase (suc n) s =
      erase->>= (submit_single_io env cfg now build s) _ _ _ (submit_single_io-erase s)
        (submit_times-erase n)

  drain_loop-erase :
      (polls : List (List ℕ)) (s : State)
      → erase (Bench.drain_loop (program env cfg now build) cfg polls s)
        ≡ Loop.drain_loop env cfg build polls (thread s)
  unfolding Bench.drain_loop Loop.drain_loop
  drain_loop-erase [] s = erase-if (s.0.ns_ctx.current_queue_depth == 0) (done s) (waiting s)
  drain_loop-erase (reaped ∷ polls) s =
      erase-if (s.0.ns_ctx.current_queue_depth == 0) (done s) _
      ∙ ap (λ (m : Exec Thread). if s.0.ns_ctx.current_queue_depth == 0 then done (thread s) else m)
          (erase->>= (Bench.check_io (program env cfg now build) cfg reaped s) _ _ _
            (check_io-erase reaped s) (drain_loop-erase polls))

  -- Taking the times changes nothing of what is read: without the samples, submission, polling and
  -- draining are those of arbitration.cc, however they end.
  pub calls-erase :
      (queue_depth : ℤ) (reaped : List ℕ) (polls : List (List ℕ)) (s : State)
      → (erase (Bench.submit_io (program env cfg now build) cfg queue_depth s)
          ≡ Loop.submit_io env cfg build queue_depth (thread s))
        × (erase (Bench.check_io (program env cfg now build) cfg reaped s)
            ≡ Loop.check_io env cfg build reaped (thread s))
        × (erase (Bench.drain_io (program env cfg now build) cfg polls s)
            ≡ Loop.drain_io env cfg build polls (thread s))
  unfolding Bench.submit_io Loop.submit_io Bench.drain_io Loop.drain_io
  calls-erase queue_depth reaped polls s = (
    submit_times-erase (pos_part queue_depth) s,
    check_io-erase reaped s,
    drain_loop-erase polls
        (record (s.0) { ns_ctx = record (s.0.ns_ctx) { is_draining = true } }, s.1),
  )
