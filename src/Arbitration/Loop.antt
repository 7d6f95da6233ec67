-- ===== src/Arbitration/Loop.antt =====
-- examples/arbitration/arbitration.cc: submission, completion, polling and draining on one
-- namespace context.
pub mod Invariant
pub mod Drain
pub mod Submit
pub mod Range
pub mod Queue
pub mod Commands
use zns_emulation_bench.Prelude.{
  ℕ, zero, suc, ◌+◌, ◌-◌, ◌*◌, ◌%◌, true, not, if◌then◌else◌, ◌==◌, none, some, List, [], ◌∷◌, ◌++◌,
  get_elem?, remove_at, u64, dec64, pos_part, ℤ,
}
use zns_emulation_bench.Exec.{Exec, done, exited, waiting, ◌>>=◌}
use zns_emulation_bench.Arbitration.{read, write, append, Command, NsWorkerCtx, ArbContext, Spdk}

-- What the calls on one context read and write: the context, the task pool (the number of free
-- tasks), the thread's seed, the number of submissions tried, and the number of times that
-- "starting I/O failed" was printed.
pub record Thread : Type 0 where
  pub ctx : NsWorkerCtx
  pub task_pool : ℕ
  pub seed : ℕ
  pub calls : ℕ
  pub failures : ℕ

-- The command that a program builds from an offset in I/Os and the blocks of one I/O.
abbrev pub Build : Type 0
Build = ℕ → ℕ → Command

-- arbitration.cc reads at the offset.
unfoldable pub read_at : Build
read_at offset blocks = record { op = read; lba = u64 (offset * blocks); blocks = blocks }

-- arbitration_write.cc writes behind the write pointer that it found at the start.
unfoldable pub write_behind : ℕ → Build
write_behind wp offset blocks = record {
  op = write;
  lba = u64 (wp + u64 (offset * blocks));
  blocks = blocks;
}

-- arbitration_append.cc appends to zone 17, whatever the offset.
unfoldable pub append_to_zone : Build
append_to_zone offset blocks = record { op = append; lba = 0x80000 * 17; blocks = blocks }

-- The offset of the next I/O, and the context and seed after taking it.
unfoldable pub take_offset : Spdk → ArbContext → Thread → ℕ × Thread
take_offset env cfg t =
    if cfg.is_random
    then (let (r, seed) = env.rand_r t.seed in
        (r % ctx.entry.size_in_ios, record t { seed = seed }))
    else (ctx.offset_in_ios, record t { ctx = record ctx { offset_in_ios = wrapped } })
  where
    open t use {ctx}

    next : ℕ
    next = u64 (ctx.offset_in_ios + 1)

    wrapped : ℕ
    wrapped = if next == ctx.entry.size_in_ios then 0 else next

-- The last part of `submit_single_io`: a task was taken, and the device accepts the command or not.
unfoldable pub issue : Spdk → Command → Thread → Thread
issue env cmd t =
    if env.accepts t.calls
    then record t {
      ctx = record ctx {
        current_queue_depth = u64 (ctx.current_queue_depth + 1);
        qpair = ctx.qpair ++ cmd ∷ [];
      };
      calls = t.calls + 1;
    }
    else record t { calls = t.calls + 1; failures = t.failures + 1 }
  where
    open t use {ctx}

-- `submit_single_io` once it has a task and a buffer.
unfoldable pub submit_task : Spdk → ArbContext → Build → Thread → Thread
unfolding take_offset issue
submit_task env cfg build t =
    let (offset, t') = take_offset env cfg (record t { task_pool = t.task_pool - 1 }) in
    issue env (build offset t'.ctx.entry.io_size_blocks) t'

unfoldable pub submit_single_io : Spdk → ArbContext → Build → Thread → Exec Thread
submit_single_io env cfg build t =
    if t.task_pool == 0
    then exited t
    else if not (env.dma_zmalloc t.calls)
    then exited t
    else done (submit_task env cfg build t)

-- The state before the replacement: the command has left the queue pair, the task is back.
unfoldable pub retire : ℕ → Thread → Thread
retire i t = record t {
  ctx = record ctx {
    current_queue_depth = dec64 ctx.current_queue_depth;
    io_completed = u64 (ctx.io_completed + 1);
    qpair = remove_at ctx.qpair i;
  };
  task_pool = t.task_pool + 1;
}
  where
    open t use {ctx}

-- `io_complete` and `task_complete` for the `i`-th command in flight. The device completes only
-- commands that are in flight.
unfoldable pub task_complete : Spdk → ArbContext → Build → ℕ → Thread → Exec Thread
unfolding retire submit_single_io
task_complete env cfg build i t = elim (get_elem? t.ctx.qpair i) [
  | none ↦ done t
  | some cmd ↦
      if t.ctx.is_draining then done (retire i t) else submit_single_io env cfg build (retire i t)
]

-- The completions that one call of `spdk_nvme_qpair_process_completions` handles, in order; they
-- are given as positions in the queue pair, each taken when its turn comes.
unfoldable pub complete_each : Spdk → ArbContext → Build → List ℕ → Thread → Exec Thread
unfolding task_complete
complete_each env cfg build [] t = done t
complete_each env cfg build (i ∷ is) t =
    task_complete env cfg build i t >>= complete_each env cfg build is

-- `max_completions` is a limit, unless it is 0.
abbrev pub limit : {A : Type 0} → ℕ → List A → List A
limit m [] = []
limit zero (i ∷ is) = i ∷ is
limit (suc zero) (i ∷ is) = i ∷ []
limit (suc (suc m)) (i ∷ is) = i ∷ limit (suc m) is

unfoldable pub check_io : Spdk → ArbContext → Build → List ℕ → Thread → Exec Thread
unfolding complete_each
check_io env cfg build reaped t = complete_each env cfg build (limit cfg.max_completions reaped) t

-- `while (queue_depth-- > 0) submit_single_io(ns_ctx);`
unfoldable pub submit_times : Spdk → ArbContext → Build → ℕ → Thread → Exec Thread
unfolding submit_single_io
submit_times env cfg build zero t = done t
submit_times env cfg build (suc n) t =
    submit_single_io env cfg build t >>= submit_times env cfg build n

unfoldable pub submit_io : Spdk → ArbContext → Build → ℤ → Thread → Exec Thread
unfolding submit_times
submit_io env cfg build queue_depth t = submit_times env cfg build (pos_part queue_depth) t

-- The loop of `drain_io`: one entry of the list is what one poll reaps.
unfoldable pub drain_loop : Spdk → ArbContext → Build → List (List ℕ) → Thread → Exec Thread
unfolding check_io
drain_loop env cfg build [] t = if t.ctx.current_queue_depth == 0 then done t else waiting t
drain_loop env cfg build (reaped ∷ polls) t =
    let go = check_io env cfg build reaped t >>= drain_loop env cfg build polls in
    if t.ctx.current_queue_depth == 0 then done t else go

unfoldable pub drain_io : Spdk → ArbContext → Build → List (List ℕ) → Thread → Exec Thread
unfolding drain_loop
drain_io env cfg build polls t =
    drain_loop env cfg build polls (record t { ctx = record (t.ctx) { is_draining = true } })
