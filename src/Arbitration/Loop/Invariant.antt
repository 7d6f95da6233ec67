-- ===== src/Arbitration/Loop/Invariant.antt =====
-- What every call on a context keeps: the queue depth counts the commands in flight, and each task is
-- in the pool, in flight, or lost to a refused command.
use mathlib.Core.Path.{subst}
use native.Mathlib.Nat.{mod-lt}
use zns_emulation_bench.Prelude.{
  ℕ, zero, suc, ◌+◌, ◌-◌, sym, ◌^◌, ◌<◌, ◌≡◌, false, if◌then◌else◌, ◌==◌, inl, inr, Bool-cases,
  Option-cases, some, List, [], ◌∷◌, get_elem?, length, All, All-append, All-remove_at,
  length-append, length-remove_at, arith,
}
use zns_emulation_bench.Exec.{Exec, done, exited, final, final->>=}
use zns_emulation_bench.Arbitration.{Command, NsEntry, ArbContext, Spdk}
use zns_emulation_bench.Arbitration.Loop.{
  Thread, Build, take_offset, issue, submit_task, submit_single_io, retire, task_complete,
  complete_each, check_io, limit, submit_times, drain_loop,
}

-- `total` tasks in all, over one namespace; each command in flight satisfies `P`.
pub record Inv (total : ℕ) (entry : NsEntry) (P : Command → Type 0) (t : Thread) : Type 0 where
  pub same : t.ctx.entry ≡ entry
  pub depth : t.ctx.current_queue_depth ≡ length t.ctx.qpair
  pub balance : t.task_pool + length t.ctx.qpair + t.failures ≡ total
  pub offset : t.ctx.offset_in_ios < entry.size_in_ios
  pub commands : All P t.ctx.qpair

-- No condition on the commands.
abbrev pub AnyCommand : Command → Type 0
AnyCommand cmd = Unit

-- The three ways of a submission: no task, no buffer, or the command is built and issued.
pub submit_single_io_cases {ℓ} :
    (env : Spdk) (cfg : ArbContext) (build : Build) (P : Exec Thread → Type ℓ) (t : Thread)
    → (t.task_pool ≡ 0 → P (exited t))
    → (env.dma_zmalloc t.calls ≡ false → P (exited t))
    → (0 < t.task_pool → P (done (submit_task env cfg build t)))
    → P (submit_single_io env cfg build t)
unfolding submit_single_io
submit_single_io_cases env cfg build P t dry full goes = elim (Bool-cases (t.task_pool == 0)) [
  | inl e ↦ rw e (dry (ground arith))
  | inr e ↦ rw e (elim (Bool-cases (env.dma_zmalloc t.calls)) [
    | inl a ↦ rw a (goes (ground arith))
    | inr a ↦ rw a (full a)
  ])
]

module _ (env : Spdk) (cfg : ArbContext) (total : ℕ) (entry : NsEntry) (small : total < 2 ^ 64)
    (fits : entry.size_in_ios < 2 ^ 64) (P : Command → Type 0) (build : Build)
    (builds : (o : ℕ) → o < entry.size_in_ios → P (build o entry.io_size_blocks)) where
  pub issue-Inv :
      (cmd : Command) (t : Thread)
      → P cmd
      → Inv total entry P (record t { task_pool = t.task_pool + 1 })
      → Inv total entry P (issue env cmd t)
  unfolding issue
  issue-Inv cmd t p v = ground (
    arith,
    length-append t.ctx.qpair (cmd ∷ []),
    All-append P t.ctx.qpair (cmd ∷ []) v.commands (p, tt),
  )

  pub retire-Inv :
      (i : ℕ) (t : Thread) {cmd : Command}
      → get_elem? t.ctx.qpair i ≡ some cmd
      → Inv total entry P t
      → Inv total entry P (retire i t)
  unfolding retire
  retire-Inv i t e v =
      ground (arith, length-remove_at t.ctx.qpair i e, All-remove_at P t.ctx.qpair i v.commands)

  -- Every offset lies in the namespace, in the random workloads too.
  take_offset-lt :
      (t : Thread) (n : ℕ)
      → Inv total entry P t
      → (take_offset env cfg (record t { task_pool = n })).0 < entry.size_in_ios
  unfolding take_offset
  take_offset-lt t n v = ground (arith, mod-lt (env.rand_r t.seed).0 {m = entry.size_in_ios})

  take_offset-entry :
      (t : Thread) (n : ℕ)
      → Inv total entry P t
      → (take_offset env cfg (record t { task_pool = n })).1.ctx.entry ≡ entry
  unfolding take_offset
  take_offset-entry t n v = ground arith

  pub submit_task-Inv :
      (t : Thread)
      → 0 < t.task_pool
      → Inv total entry P t
      → Inv total entry P (submit_task env cfg build t)
  unfolding submit_task
  submit_task-Inv t h v = issue-Inv _ _ built (ground arith)
    where
      taken : ℕ × Thread
      taken = take_offset env cfg (record t { task_pool = t.task_pool - 1 })

      built : P (build taken.0 taken.1.ctx.entry.io_size_blocks)
      built =
          subst (λ (e : NsEntry). P (build taken.0 e.io_size_blocks))
            (sym (take_offset-entry t (t.task_pool - 1) v))
            (builds taken.0 (take_offset-lt t (t.task_pool - 1) v))

  pub submit_single_io-Inv :
      (t : Thread)
      → Inv total entry P t
      → Inv total entry P (final (submit_single_io env cfg build t))
  submit_single_io-Inv t v =
      submit_single_io_cases env cfg build (λ m. Inv total entry P (final m)) t (λ _. v) (λ _. v)
        (λ h. submit_task-Inv t h v)

  pub task_complete-Inv :
      (i : ℕ) (t : Thread)
      → Inv total entry P t
      → Inv total entry P (final (task_complete env cfg build i t))
  unfolding task_complete
  task_complete-Inv i t v = elim (Option-cases (get_elem? t.ctx.qpair i)) [
    | inl e ↦ rw (e, task_complete) v
    | inr (cmd, e) ↦ rw (e, task_complete) (kept (retire-Inv i t e v))
  ]
    where
      kept :
          Inv total entry P (retire i t)
          → Inv total entry P (
              final (
                if t.ctx.is_draining
                then done (retire i t)
                else submit_single_io env cfg build (retire i t)))
      kept w = ground (arith, submit_single_io-Inv (retire i t) w)

  pub complete_each-Inv :
      (is : List ℕ) (t : Thread)
      → Inv total entry P t
      → Inv total entry P (final (complete_each env cfg build is t))
  unfolding complete_each
  complete_each-Inv [] t v = v
  complete_each-Inv (i ∷ is) t v =
      final->>= (Inv total entry P) (task_complete env cfg build i t) _ (task_complete-Inv i t v)
        (complete_each-Inv is)

  pub check_io-Inv :
      (reaped : List ℕ) (t : Thread)
      → Inv total entry P t
      → Inv total entry P (final (check_io env cfg build reaped t))
  unfolding check_io
  check_io-Inv reaped t v = complete_each-Inv (limit cfg.max_completions reaped) t v

  pub submit_times-Inv :
      (n : ℕ) (t : Thread)
      → Inv total entry P t
      → Inv total entry P (final (submit_times env cfg build n t))
  unfolding submit_times
  submit_times-Inv zero t v = v
  submit_times-Inv (suc n) t v =
      final->>= (Inv total entry P) (submit_single_io env cfg build t) _ (submit_single_io-Inv t v)
        (submit_times-Inv n)

  pub drain_loop-Inv :
      (polls : List (List ℕ)) (t : Thread)
      → Inv total entry P t
      → Inv total entry P (final (drain_loop env cfg build polls t))
  unfolding drain_loop
  drain_loop-Inv [] t v = ground arith
  drain_loop-Inv (reaped ∷ polls) t v = elim (Bool-cases (t.ctx.current_queue_depth == 0)) [
    | inl e ↦ rw e v
    | inr e ↦ rw e (
        final->>= (Inv total entry P) (check_io env cfg build reaped t) _ (check_io-Inv reaped t v)
          (drain_loop-Inv polls))
  ]
