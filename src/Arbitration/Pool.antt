-- ===== src/Arbitration/Pool.antt =====
-- The task pool of examples/arbitration/arbitration.cc against what its workers take from it.
use native.Mathlib.Nat.{mod-eq_of_lt}
use zns_emulation_bench.Prelude.{
  ℕ, zero, suc, ◌+◌, ◌*◌, ◌^◌, ◌≤◌, ◌<◌, ◌≡◌, refl, ap, ◌∙◌, if_true, true, ◌⊎◌, inl, inr, max,
  List, [], ◌∷◌, length, get_or, Bool, pos, pos_part, ltb, if◌then◌else◌, ◌%◌, arith,
}
use zns_emulation_bench.Exec.{Exec, done, exited, ◌>>=◌}
use zns_emulation_bench.Arbitration.{NsEntry, NsWorkerCtx, WorkerThread, ArbContext, Spdk}
use zns_emulation_bench.Arbitration.Loop.{
  Thread, Build, submit_task, submit_times, submit_io, drain_io,
}
use zns_emulation_bench.Arbitration.Loop.Invariant.{submit_single_io_cases}
use zns_emulation_bench.Arbitration.Loop.Submit.{submit_task-pool}
use zns_emulation_bench.Arbitration.Worker.{
  Work, Round, focus, unfocus, put_back, for_each, for_each_ctx, init_contexts, poll_loop,
  tsc_end_of, run_phases, work_fn,
}
use zns_emulation_bench.Arbitration.Worker.Invariant.{then_rest}
use zns_emulation_bench.Arbitration.Setup.{new_ctx, associate_loop, task_count}

mul_mono : (a b c : ℕ) → a ≤ b → a * c ≤ b * c
mul_mono a b c h = grind arith

larger : (n w : ℕ) → (if ltb w n then n else w) ≡ max n w
larger n w = ground arith

-- `main` makes the pool large enough for `count` contexts, if `count` is at most the larger of the
-- numbers of namespaces and workers, and the product with the queue depth fits a `uint32_t`.
pub task_count_enough :
    (arb : ArbContext) (count q : ℕ)
    → arb.queue_depth ≡ pos q
    → q < 2 ^ 31
    → max arb.num_namespaces arb.num_workers < 2 ^ 31
    → max arb.num_namespaces arb.num_workers * q < 2 ^ 32
    → count ≤ max arb.num_namespaces arb.num_workers
    → count * q ≤ task_count arb
unfolding task_count
task_count_enough arb count q e int_q int_max small le =
    rw (larger arb.num_namespaces arb.num_workers, e)
      (rw (word q int_q, word (max arb.num_namespaces arb.num_workers) int_max)
        (rw (mod-eq_of_lt small) (mul_mono count (max arb.num_namespaces arb.num_workers) q le)))
  where
    word : (n : ℕ) → n < 2 ^ 31 → n % 2 ^ 32 ≡ n
    word n h = omega arith

init_contexts-given :
    (env : Spdk) (i : ℕ) (cs : List NsWorkerCtx)
    → ((k : ℕ) → env.alloc_io_qpair k ≡ true)
    → ((init_contexts env i cs).0 ≡ true) × (length (init_contexts env i cs).1 ≡ length cs)
unfolding init_contexts
init_contexts-given env i [] given = (refl, refl)
init_contexts-given env i (c ∷ cs) given =
    let (a, l) = init_contexts-given env (i + 1) cs given in rw (given i) (a, ap suc l)

module _ (env : Spdk) (cfg : ArbContext) (build : Build) where
  -- Submissions end in `exit(1)`, or have taken a task each.
  submit_times_takes :
      (n : ℕ) (t : Thread)
      → ((t' : Thread) × (submit_times env cfg build n t ≡ exited t'))
        ⊎ ((t' : Thread) × (submit_times env cfg build n t ≡ done t')
            × (t'.task_pool + n ≡ t.task_pool))
  unfolding submit_times
  submit_times_takes zero t = inr (t, refl, omega arith)
  submit_times_takes (suc n) t =
      submit_single_io_cases env cfg build
        (λ m.
          ((t' : Thread) × ((m >>= submit_times env cfg build n) ≡ exited t'))
          ⊎ ((t' : Thread) × ((m >>= submit_times env cfg build n) ≡ done t')
              × (t'.task_pool + suc n ≡ t.task_pool)))
        t (λ _. inl (t, refl)) (λ _. inl (t, refl))
        (λ h. taken h (submit_times_takes n (submit_task env cfg build t)))
    where
      taken :
          0 < t.task_pool
          → ((t' : Thread) × (submit_times env cfg build n (submit_task env cfg build t)
                ≡ exited t'))
            ⊎ ((t' : Thread) × (submit_times env cfg build n (submit_task env cfg build t)
                  ≡ done t')
                × (t'.task_pool + n ≡ (submit_task env cfg build t).task_pool))
          → ((t' : Thread) × (submit_times env cfg build n (submit_task env cfg build t)
                ≡ exited t'))
            ⊎ ((t' : Thread) × (submit_times env cfg build n (submit_task env cfg build t)
                  ≡ done t')
                × (t'.task_pool + suc n ≡ t.task_pool))
      taken h (inl r) = inl r
      taken h (inr (u, e, p)) = inr (u, e, omega (arith, submit_task-pool env cfg build t, p))

  -- A pass of `submit_io` over contexts that ask for more tasks than there are ends in `exit(1)`.
  submit_all_exhausted :
      (i : ℕ) (cs : List NsWorkerCtx) (w : Work)
      → w.task_pool < length cs * pos_part cfg.queue_depth
      → (w' : Work) × (for_each (λ _. submit_io env cfg build cfg.queue_depth) i cs w ≡ exited w')
  unfolding for_each submit_io
  submit_all_exhausted i [] w h = absurd (omega arith)
  submit_all_exhausted i (c ∷ cs) w h =
      elim (submit_times_takes (pos_part cfg.queue_depth) (focus c w)) [
        | inl (t, e) ↦ (unfocus t cs, ap (then_rest rest cs) e)
        | inr (t, e, p) ↦
            let (w', e') = submit_all_exhausted (i + 1) cs (unfocus t cs) (omega (arith, p)) in
            (
              record w' { ctxs = t.ctx ∷ w'.ctxs },
              ap (then_rest rest cs) e ∙ ap (put_back t.ctx) e',
            )
      ]
    where
      rest : Work → Exec Work
      rest = for_each (λ _. submit_io env cfg build cfg.queue_depth) (i + 1) cs

  -- So does a worker whose contexts ask for more tasks than there are, once it has its queue pairs.
  pub work_fn_exhausted :
      (start : ℕ) (rounds : List Round) (last : List (List (List ℕ))) (w : Work)
      → ((k : ℕ) → env.alloc_io_qpair k ≡ true)
      → w.task_pool < length w.ctxs * pos_part cfg.queue_depth
      → (w' : Work) × (work_fn env cfg build start rounds last w ≡ (0, exited w'))
  unfolding work_fn run_phases
  work_fn_exhausted start rounds last w given h =
      let (ok, l) = init_contexts-given env 0 w.ctxs given in
      let w0 : Work = record w { ctxs = (init_contexts env 0 w.ctxs).1 } in
      let (u, e) = submit_all_exhausted 0 w0.ctxs w0 (rw l h) in
      (
        u,
        if_true _ _ ok
            ∙ ap
                (λ m. (
                  0,
                  m
                      >>= poll_loop env cfg build (tsc_end_of cfg start) rounds
                      >>= for_each_ctx (λ i. drain_io env cfg build (get_or last i [])),
                ))
                e,
      )

-- With one namespace, one worker, a positive queue depth, and every queue pair and context allocated,
-- the two contexts that `associate_workers_with_ns` makes ask for twice the tasks of the pool: the
-- benchmark ends in `exit(1)`, whatever the device does.
pub one_namespace_one_worker_exits :
    (env : Spdk) (cfg : ArbContext) (build : Build) (entry : NsEntry) (worker : WorkerThread)
    (q : ℕ) (mallocs : ℕ → Bool) (start seed : ℕ) (rounds : List Round)
    (last : List (List (List ℕ)))
    → ((k : ℕ) → env.alloc_io_qpair k ≡ true)
    → ((k : ℕ) → mallocs k ≡ true)
    → cfg.queue_depth ≡ pos q
    → 0 < q
    → q < 2 ^ 31
    → cfg.num_namespaces ≡ 1
    → cfg.num_workers ≡ 1
    → (ctxs : List NsWorkerCtx) × (associate_loop
          (entry ∷ [])
          2
          0
          0
          mallocs
          (record worker { ns_ctx = [] } ∷ [])
        ≡ (0, record worker { ns_ctx = ctxs } ∷ []))
      × (w' : Work) × (work_fn env cfg build start rounds last (record {
        ctxs = ctxs;
        task_pool = task_count cfg;
        seed = seed;
        calls = 0;
        failures = 0;
      })
          ≡ (0, exited w'))
unfolding associate_loop task_count
one_namespace_one_worker_exits env cfg build entry worker q mallocs start seed rounds last given ok
      e h int_q n1 w1 =
    let (u, x) =
      work_fn_exhausted env cfg build start rounds last
        (record { ctxs = twice; task_pool = task_count cfg; seed = seed; calls = 0; failures = 0 })
        given (rw (pool, e) (omega arith)) in
    (twice, ground (arith, ok 1, ok 0), u, x)
  where
    twice : List NsWorkerCtx
    twice = new_ctx entry ∷ new_ctx entry ∷ []

    pool : task_count cfg ≡ q
    pool = ground arith
