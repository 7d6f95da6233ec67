-- ===== src/Arbitration/Loop/Commands.antt =====
-- `submit_io` of examples/arbitration/arbitration.cc and its variants in a sequential workload: which
-- commands it puts in flight.
use mathlib.Core.List.{append_assoc, append-nil}
use native.Mathlib.Nat.{mod-lt, mod-eq_of_lt, mul-le-mul_right}
use zns_emulation_bench.Prelude.{
  ℕ, zero, suc, ◌+◌, ◌*◌, ◌%◌, ◌^◌, ◌≤◌, ◌<◌, ◌≡◌, refl, sym, ap, ◌∙◌, if_true, Bool, true, false,
  if◌then◌else◌, List, [], ◌∷◌, ◌++◌, arith,
}
use zns_emulation_bench.Exec.{done, ◌>>=◌}
use zns_emulation_bench.Arbitration.{write, Command, NsEntry, ArbContext, Spdk}
use zns_emulation_bench.Arbitration.Loop.{Thread, Build, submit_task, submit_times, write_behind}
use zns_emulation_bench.Arbitration.Loop.Submit.{
  submit_task-pool, submit_task-offset, submit_single_io_taken,
}

-- Those of `n` commands, at the offsets from `o` on, that the device accepts.
abbrev pub accepted : Spdk → Build → ℕ → ℕ → ℕ → ℕ → ℕ → List Command
accepted env build blocks size calls o zero = []
accepted env build blocks size calls o (suc n) =
    let rest = accepted env build blocks size (calls + 1) ((o + 1) % size) n in
    if env.accepts calls then build o blocks ∷ rest else rest

next_accepted :
    (b : Bool) (q : List Command) (x : Command) (rest : List Command)
    → (if b then q ++ x ∷ [] else q) ++ rest ≡ q ++ (if b then x ∷ rest else rest)
next_accepted true q x rest = append_assoc q (x ∷ []) rest
next_accepted false q x rest = refl

module _ (env : Spdk) (cfg : ArbContext) (build : Build) (sequential : cfg.is_random ≡ false) where
  submit_task-qpair :
      (t : Thread)
      → (submit_task env cfg build t).ctx.qpair ≡ (
          if env.accepts t.calls
          then t.ctx.qpair ++ build t.ctx.offset_in_ios t.ctx.entry.io_size_blocks ∷ []
          else t.ctx.qpair)
  unfolding submit_task
  submit_task-qpair t = ground arith

  submit_task-fields :
      (t : Thread)
      → ((submit_task env cfg build t).calls ≡ t.calls + 1)
        × ((submit_task env cfg build t).ctx.entry ≡ t.ctx.entry)
  unfolding submit_task
  submit_task-fields t = (ground arith, ground arith)

  -- In a sequential workload, with a buffer for each I/O, `n` tasks in the pool and the offset in the
  -- namespace, `n` submissions end and put in flight, in order, those commands that the device accepts of
  -- the `n` at the offsets that follow one another modulo the size of the namespace.
  pub submit_times-accepted :
      ((k : ℕ) → env.dma_zmalloc k ≡ true)
      → (entry : NsEntry) → entry.size_in_ios < 2 ^ 64
      → (n : ℕ) (t : Thread) → t.ctx.entry ≡ entry
      → t.ctx.offset_in_ios < entry.size_in_ios
      → n ≤ t.task_pool
      → (t' : Thread) × (submit_times env cfg build n t ≡ done t')
        × (t'.ctx.qpair
            ≡ t.ctx.qpair
              ++ accepted env build entry.io_size_blocks entry.size_in_ios t.calls
                  t.ctx.offset_in_ios n)
  unfolding submit_times
  submit_times-accepted buffers entry fits zero t e l h = (t, refl, sym (append-nil _))
  submit_times-accepted buffers entry fits (suc n) t e l h =
      let (o, _) =
        submit_task-offset env cfg build t entry.size_in_ios sequential fits
          (ap (λ (x : NsEntry). x.size_in_ios) e) l in
      let (calls, same) = submit_task-fields t in
      let (t', d, q) =
        submit_times-accepted buffers entry fits n (submit_task env cfg build t) (same ∙ e)
          (rw o (mod-lt _ (omega arith))) (omega (arith, submit_task-pool env cfg build t)) in
      (
        t',
        rw (submit_single_io_taken env cfg build t (omega arith) (buffers t.calls), ◌>>=◌) d,
        q
            ∙ rw (calls, o, submit_task-qpair t, ap (λ (x : NsEntry). x.io_size_blocks) e)
                (next_accepted (env.accepts t.calls) t.ctx.qpair _ _),
      )

-- `n` writes, each of which starts where the one before ends.
abbrev pub contiguous : ℕ → ℕ → ℕ → List Command
contiguous lba blocks zero = []
contiguous lba blocks (suc n) =
    record { op = write; lba = lba; blocks = blocks } ∷ contiguous (lba + blocks) blocks n

module _ (env : Spdk) (accepts : (k : ℕ) → env.accepts k ≡ true) (wp blocks size : ℕ)
    (fits : wp + size * blocks < 2 ^ 64) where
  first_write :
      (o : ℕ)
      → o < size
      → write_behind wp o blocks ≡ record { op = write; lba = wp + o * blocks; blocks = blocks }
  unfolding write_behind
  first_write o h =
      ap (λ (l : ℕ). record { op = write; lba = l; blocks = blocks })
        (let below : o * blocks ≤ size * blocks = mul-le-mul_right blocks (omega arith) in
          omega (arith, below, fits))

  rest_accepted :
      (n calls o : ℕ)
      → o + suc n ≤ size
      → accepted env (write_behind wp) blocks size calls ((o + 1) % size) n
        ≡ accepted env (write_behind wp) blocks size calls (o + 1) n
  rest_accepted zero calls o h = refl
  rest_accepted (suc n) calls o h =
      ap (λ (k : ℕ). accepted env (write_behind wp) blocks size calls k (suc n))
        (mod-eq_of_lt (omega arith))

  -- The writes behind `wp` that are all accepted follow one another without a gap, as long as their offsets
  -- do not run over the namespace.
  pub accepted-contiguous :
      (n calls o : ℕ)
      → o + n ≤ size
      → accepted env (write_behind wp) blocks size calls o n ≡ contiguous (wp + o * blocks) blocks n
  accepted-contiguous zero calls o h = refl
  accepted-contiguous (suc n) calls o h =
      if_true _ _ (accepts calls)
      ∙ ap
          (λ (c : Command).
            c ∷ accepted env (write_behind wp) blocks size (calls + 1) ((o + 1) % size) n)
          (first_write o (omega arith))
      ∙ ap (◌∷◌ (record { op = write; lba = wp + o * blocks; blocks = blocks })) (
          rest_accepted n (calls + 1) o h
          ∙ accepted-contiguous n (calls + 1) (o + 1) (omega arith)
          ∙ ap (λ (l : ℕ). contiguous l blocks n) (ground arith))
