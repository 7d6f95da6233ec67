-- ===== src/Arbitration/Loop/Submit.antt =====
-- `submit_io` of examples/arbitration/arbitration.cc: how many I/Os the task pool lets it start, at
-- which offsets, and within which blocks.
use native.Mathlib.Nat.{mod-eq_of_lt, mod_self, mod-add-mod, mod-lt}
use zns_emulation_bench.Prelude.{
  ℕ, zero, suc, ◌+◌, ◌-◌, ◌%◌, ◌^◌, ◌≤◌, ◌<◌, ◌≡◌, refl, sym, ap, true, false, ◌==◌, ◌∙◌,
  if◌then◌else◌, inl, inr, Bool-cases, if_false, Option-cases, some, List, [], ◌∷◌, length,
  length-append, length-remove_at, get_elem?, u64, arith,
}
use zns_emulation_bench.Exec.{done, exited, ◌>>=◌}
use zns_emulation_bench.Arbitration.{Command, ArbContext, Spdk}
use zns_emulation_bench.Arbitration.Loop.{
  Thread, Build, submit_task, submit_single_io, submit_times, task_complete, complete_each, retire,
  check_io, limit,
}

wrap-mod :
    (o size : ℕ)
    → o < size
    → size < 2 ^ 64
    → (if u64 (o + 1) == size then 0 else u64 (o + 1)) ≡ (o + 1) % size
wrap-mod o size h f = elim (Bool-cases (u64 (o + 1) == size)) [
  | inl e ↦ let whole : o + 1 ≡ size = ground arith in rw e (rw (whole, mod_self))
  | inr e ↦ let below : o + 1 < size = ground arith in rw e (rw (mod-eq_of_lt below) (omega arith))
]

module _ (env : Spdk) (cfg : ArbContext) (build : Build) where
  pub submit_task-pool : (t : Thread) → (submit_task env cfg build t).task_pool ≡ t.task_pool - 1
  unfolding submit_task
  submit_task-pool t = ground arith

  pub submit_single_io_taken :
      (t : Thread)
      → 0 < t.task_pool
      → env.dma_zmalloc t.calls ≡ true
      → submit_single_io env cfg build t ≡ done (submit_task env cfg build t)
  unfolding submit_single_io
  submit_single_io_taken t h a = ground arith

  submit_task-length :
      (t : Thread) → length (submit_task env cfg build t).ctx.qpair ≤ length t.ctx.qpair + 1
  unfolding submit_task
  submit_task-length t = grind (arith, length-append)

  -- With a buffer for every task, `n` submissions succeed if the pool holds `n` tasks: they take one
  -- task each, and put at most `n` commands in flight.
  pub submit_times_enough :
      ((k : ℕ) → env.dma_zmalloc k ≡ true)
      → (n : ℕ) (t : Thread) → n ≤ t.task_pool
      → (t' : Thread) × (submit_times env cfg build n t ≡ done t')
        × (t'.task_pool + n ≡ t.task_pool)
        × (length t'.ctx.qpair ≤ length t.ctx.qpair + n)
  unfolding submit_times
  submit_times_enough buffers zero t h = (t, refl, omega arith, omega arith)
  submit_times_enough buffers (suc n) t h =
      let e = submit_single_io_taken t (omega arith) (buffers t.calls) in
      let (u, d, p, l) =
        submit_times_enough buffers n (submit_task env cfg build t)
          (omega (arith, submit_task-pool t)) in
      (
        u,
        rw (e, ◌>>=◌) d,
        omega (arith, submit_task-pool t, p),
        omega (arith, submit_task-length t, l),
      )

  -- If it holds fewer, the program ends in `exit(1)`.
  pub submit_times_exhausted :
      (n : ℕ) (t : Thread)
      → t.task_pool < n
      → (t' : Thread) × (submit_times env cfg build n t ≡ exited t')
  unfolding submit_times
  submit_times_exhausted zero t h = absurd (omega arith)
  submit_times_exhausted (suc n) t h = elim (Bool-cases (t.task_pool == 0)) [
    | inl e ↦ (t, unfold submit_single_io in rw e)
    | inr e ↦ elim (Bool-cases (env.dma_zmalloc t.calls)) [
      | inl a ↦
          let (u, d) =
            submit_times_exhausted n (submit_task env cfg build t)
              (ground (arith, submit_task-pool t)) in
          (u, rw (submit_single_io_taken t (ground arith) a, ◌>>=◌) d)
      | inr a ↦ (t, unfold submit_single_io in rw e (rw a))
    ]
  ]

  pub submit_task-offset :
      (t : Thread) (size : ℕ)
      → cfg.is_random ≡ false
      → size < 2 ^ 64
      → t.ctx.entry.size_in_ios ≡ size
      → t.ctx.offset_in_ios < size
      → ((submit_task env cfg build t).ctx.offset_in_ios ≡ (t.ctx.offset_in_ios + 1) % size)
        × ((submit_task env cfg build t).ctx.entry.size_in_ios ≡ size)
  unfolding submit_task
  submit_task-offset t size h f e l =
      (ground arith ∙ wrap-mod t.ctx.offset_in_ios size l f, ground arith)

  -- In a sequential workload, with a buffer for each I/O, `n` tasks in the pool, and an offset below the
  -- size of the namespace in I/Os, `n` submissions end and advance the offset by `n` modulo that size,
  -- whichever commands are refused.
  pub submit_times-offset :
      ((k : ℕ) → env.dma_zmalloc k ≡ true)
      → cfg.is_random ≡ false
      → (size : ℕ) → size < 2 ^ 64
      → (n : ℕ) (t : Thread) → t.ctx.entry.size_in_ios ≡ size
      → t.ctx.offset_in_ios < size
      → n ≤ t.task_pool
      → (t' : Thread) × (submit_times env cfg build n t ≡ done t')
        × (t'.ctx.offset_in_ios ≡ (t.ctx.offset_in_ios + n) % size)
  unfolding submit_times
  submit_times-offset buffers s size f zero t e l h =
      (t, refl, sym (mod-eq_of_lt l) ∙ ap (λ (k : ℕ). k % size) (omega arith))
  submit_times-offset buffers s size f (suc n) t e l h =
      let (o, e') = submit_task-offset t size s f e l in
      let (u, d, p) =
        submit_times-offset buffers s size f n (submit_task env cfg build t) e'
          (rw o (mod-lt _ (omega arith))) (omega (arith, submit_task-pool t)) in
      (
        u,
        rw (submit_single_io_taken t (omega arith) (buffers t.calls), ◌>>=◌) d,
        p
            ∙ ap (λ (k : ℕ). (k + n) % size) o
            ∙ mod-add-mod (t.ctx.offset_in_ios + 1) size n
            ∙ ap (λ (k : ℕ). k % size) (omega arith),
      )

  -- A completed command is replaced by at most one: the number in flight stays within its limit, and
  -- the task that came back serves the replacement.
  task_complete_steady :
      ((k : ℕ) → env.dma_zmalloc k ≡ true)
      → (q i : ℕ) (t : Thread) → length t.ctx.qpair ≤ q
      → (t' : Thread) × (task_complete env cfg build i t ≡ done t') × (length t'.ctx.qpair ≤ q)
  unfolding task_complete
  task_complete_steady buffers q i t h = elim (Option-cases (get_elem? t.ctx.qpair i)) [
    | inl e ↦ (t, rw (e, task_complete), h)
    | inr (cmd, e) ↦ elim (Bool-cases t.ctx.is_draining) [
      | inl d ↦ (retire i t, rw (e, task_complete) (rw d), fewer e)
      | inr d ↦ (
        submit_task env cfg build (retire i t),
        rw (e, task_complete)
            (if_false _ _ d
              ∙ submit_single_io_taken (retire i t) (unfold retire in omega arith) (buffers _)),
        omega (arith, submit_task-length (retire i t), back e),
      )
    ]
  ]
    where
      back :
          {cmd : Command}
          → get_elem? t.ctx.qpair i ≡ some cmd
          → length (retire i t).ctx.qpair + 1 ≤ q
      back e = unfold retire in omega (arith, length-remove_at t.ctx.qpair i e)

      fewer :
          {cmd : Command} → get_elem? t.ctx.qpair i ≡ some cmd → length (retire i t).ctx.qpair ≤ q
      fewer e = omega (arith, back e)

  complete_each_steady :
      ((k : ℕ) → env.dma_zmalloc k ≡ true)
      → (q : ℕ) (is : List ℕ) (t : Thread) → length t.ctx.qpair ≤ q
      → (t' : Thread) × (complete_each env cfg build is t ≡ done t') × (length t'.ctx.qpair ≤ q)
  unfolding complete_each
  complete_each_steady buffers q [] t h = (t, refl, h)
  complete_each_steady buffers q (i ∷ is) t h =
      let (u, e, l) = task_complete_steady buffers q i t h in
      let (v, d, l') = complete_each_steady buffers q is u l in (v, rw (e, ◌>>=◌) d, l')

  pub check_io_steady :
      ((k : ℕ) → env.dma_zmalloc k ≡ true)
      → (q : ℕ) (reaped : List ℕ) (t : Thread) → length t.ctx.qpair ≤ q
      → (t' : Thread) × (check_io env cfg build reaped t ≡ done t') × (length t'.ctx.qpair ≤ q)
  unfolding check_io
  check_io_steady buffers q reaped =
      complete_each_steady buffers q (limit cfg.max_completions reaped)
