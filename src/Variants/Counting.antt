-- ===== src/Variants/Counting.antt =====
-- examples/multipath/mp_one_drive_read.cc, and two_targets_read.cc, three_target_reads.cc and
-- three_target_writes.cc beside it: each context counts its commands, and its reads start at the count.
pub mod Submit
pub mod Ascending
pub mod Tests
use zns_emulation_bench.Prelude.{
  ℕ, ◌+◌, ◌-◌, ◌*◌, true, not, if◌then◌else◌, ◌==◌, none, some, List, [], get_elem?, u64,
}
use zns_emulation_bench.Exec.{Exec, done, exited}
use zns_emulation_bench.Arbitration.{read, append, Command, NsWorkerCtx, ArbContext, Spdk}
use zns_emulation_bench.Arbitration.Loop.{Thread, Build, take_offset, issue, retire as retire_task}
use zns_emulation_bench.Bench.{Program}
use zns_emulation_bench.Variants.{Shared, thread_of, shared_of}

-- `struct ns_worker_ctx`, with the number of times that "starting I/O failed" was printed.
pub record CountingCtx : Type 0 where
  pub ns_ctx : NsWorkerCtx
  pub count : ℕ
  pub failures : ℕ

abbrev pub State : Type 0
State = CountingCtx × Shared

abbrev pub thread : State → Thread
thread (c, g) = thread_of c.ns_ctx c.failures g

abbrev pub with_thread : Thread → State → State
with_thread t (c, g) = (record c { ns_ctx = t.ctx; failures = t.failures }, shared_of t)

-- The read of mp_one_drive_read.cc, two_targets_read.cc and three_target_reads.cc, from zone 0 on.
unfoldable pub read_at_count : Build
read_at_count count blocks = record { op = read; lba = u64 (0x80000 * 0 + count); blocks = blocks }

-- The append of three_target_writes.cc, to zone 23 whatever the count.
unfoldable pub append_at_23 : Build
append_at_23 count blocks = record { op = append; lba = 0x80000 * 23; blocks = blocks }

module _ (env : Spdk) (cfg : ArbContext) (build : Build) where
  -- `submit_single_io` once it has a task and a buffer. The offset moves on, but the command takes the
  -- count, which moves on also if the device refuses the command.
  unfoldable pub submit_task : State → State
  unfolding take_offset issue
  submit_task (c, g) =
      let (_, t) = take_offset env cfg (record (thread (c, g)) { task_pool = g.task_pool - 1 }) in
      let cmd = build c.count t.ctx.entry.io_size_blocks in
      let (c', g') = with_thread (issue env cmd t) (c, g) in
      (record c' { count = u64 (c.count + 1) }, g')

  unfoldable pub submit_single_io : State → Exec State
  unfolding submit_task
  submit_single_io s =
      if s.1.task_pool == 0
      then exited s
      else if not (env.dma_zmalloc s.1.calls)
      then exited s
      else done (submit_task s)

  unfoldable pub retire : ℕ → State → State
  unfolding retire_task
  retire i s = with_thread (retire_task i (thread s)) s

  -- `io_complete` and `task_complete` for the `i`-th command in flight.
  unfoldable pub task_complete : ℕ → State → Exec State
  unfolding retire submit_single_io
  task_complete i s = elim (get_elem? s.0.ns_ctx.qpair i) [
    | none ↦ done s
    | some cmd ↦ let r = retire i s in if r.0.ns_ctx.is_draining then done r else submit_single_io r
  ]

  unfoldable pub init_ns_worker_ctx : ℕ → State → Exec (ℕ × State)
  init_ns_worker_ctx i (c, g) =
      if env.alloc_io_qpair i
      then done (0, (record c { ns_ctx = record (c.ns_ctx) { qpair = [] }; count = 0 }, g))
      else done (1, (c, g))

  abbrev pub program : Program CountingCtx Shared ℕ
  program = record {
    init_ns_worker_ctx = init_ns_worker_ctx;
    submit_single_io = submit_single_io;
    task_complete = task_complete;
    current_queue_depth = λ (c : CountingCtx). c.ns_ctx.current_queue_depth;
    start_draining =
        λ (c : CountingCtx). record c { ns_ctx = record (c.ns_ctx) { is_draining = true } };
    report = λ (c : CountingCtx). c;
  }
