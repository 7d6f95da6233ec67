-- ===== src/Variants/Counting/Submit.antt =====
-- `submit_io` of examples/multipath/mp_one_drive_read.cc: which commands it puts in flight.
use mathlib.Core.List.{append_assoc, append-nil}
use native.Mathlib.Nat.{mod-lt}
use zns_emulation_bench.Prelude.{
  ℕ, zero, suc, ◌+◌, ◌-◌, ◌^◌, ◌≤◌, ◌<◌, ◌≡◌, refl, sym, ap, ◌∙◌, true, false, if◌then◌else◌, Bool,
  List, [], ◌∷◌, ◌++◌, u64, arith,
}
use zns_emulation_bench.Exec.{done, ◌>>=◌}
use zns_emulation_bench.Arbitration.{NsEntry, Command, ArbContext, Spdk}
use zns_emulation_bench.Arbitration.Loop.{Build}
use zns_emulation_bench.Bench.{submit_times}
use zns_emulation_bench.Variants.Counting.{State, submit_task, submit_single_io, program}

-- Those of `n` commands, built from `count` on, that the device accepts.
abbrev pub accepted : Spdk → Build → ℕ → ℕ → ℕ → ℕ → List Command
accepted env build blocks calls count zero = []
accepted env build blocks calls count (suc n) =
    let rest = accepted env build blocks (calls + 1) (u64 (count + 1)) n in
    if env.accepts calls then build count blocks ∷ rest else rest

next_accepted :
    (b : Bool) (q : List Command) (x : Command) (rest : List Command)
    → (if b then q ++ x ∷ [] else q) ++ rest ≡ q ++ (if b then x ∷ rest else rest)
next_accepted true q x rest = append_assoc q (x ∷ []) rest
next_accepted false q x rest = refl

module _ (env : Spdk) (cfg : ArbContext) (build : Build) where
  submit_single_io_taken :
      (s : State)
      → 0 < s.1.task_pool
      → env.dma_zmalloc s.1.calls ≡ true
      → submit_single_io env cfg build s ≡ done (submit_task env cfg build s)
  unfolding submit_single_io
  submit_single_io_taken s h a = ground arith

  pub submit_task-fields :
      (s : State)
      → ((submit_task env cfg build s).0.count ≡ u64 (s.0.count + 1))
        × ((submit_task env cfg build s).1.task_pool ≡ s.1.task_pool - 1)
        × ((submit_task env cfg build s).1.calls ≡ s.1.calls + 1)
        × ((submit_task env cfg build s).0.ns_ctx.entry ≡ s.0.ns_ctx.entry)
  unfolding submit_task
  submit_task-fields s = (refl, ground arith, ground arith, ground arith)

  pub submit_task-qpair :
      (s : State)
      → (submit_task env cfg build s).0.ns_ctx.qpair ≡ (
          if env.accepts s.1.calls
          then s.0.ns_ctx.qpair ++ build s.0.count s.0.ns_ctx.entry.io_size_blocks ∷ []
          else s.0.ns_ctx.qpair)
  unfolding submit_task
  submit_task-qpair s = ground arith

  -- With a buffer for each command and `n` tasks in the pool, `n` submissions end: they put in flight, in
  -- order, those commands that the device accepts of the `n` that the context's count builds, and advance
  -- the count by `n` whichever are refused.
  pub submit_times-accepted :
      ((k : ℕ) → env.dma_zmalloc k ≡ true)
      → (n : ℕ) (s : State) → n ≤ s.1.task_pool
      → s.0.count < 2 ^ 64
      → (s' : State) × (submit_times (program env cfg build) cfg n s ≡ done s')
        × (s'.0.ns_ctx.qpair
            ≡ s.0.ns_ctx.qpair
              ++ accepted env build s.0.ns_ctx.entry.io_size_blocks s.1.calls s.0.count n)
        × (s'.0.count ≡ u64 (s.0.count + n))
        × (s'.1.task_pool + n ≡ s.1.task_pool)
  unfolding submit_times
  submit_times-accepted buffers zero s h c = (s, refl, sym (append-nil _), omega arith, omega arith)
  submit_times-accepted buffers (suc n) s h c =
      let (count, pool, calls, entry) = submit_task-fields s in
      let (s', e, q, k, p) =
        submit_times-accepted buffers n (submit_task env cfg build s) (omega (arith, pool))
          (rw count (mod-lt _ (omega arith))) in
      (
        s',
        rw (submit_single_io_taken s (omega arith) (buffers s.1.calls), ◌>>=◌) e,
        q
            ∙ rw (submit_task-qpair s, ap (λ (e : NsEntry). e.io_size_blocks) entry, calls, count)
                (next_accepted (env.accepts s.1.calls) s.0.ns_ctx.qpair _ _),
        omega (arith, k, count),
        omega (arith, p, pool),
      )
