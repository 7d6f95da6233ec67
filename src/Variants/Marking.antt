-- ===== src/Variants/Marking.antt =====
-- examples/multipath/mp_one_drive_append.cc: appends to zone 0 of blocks that carry the context's count as
-- a text.
pub mod Marks
pub mod Distinct
pub mod Tests
use zns_emulation_bench.Prelude.{
  ℕ, ◌+◌, ◌-◌, ◌*◌, true, not, if◌then◌else◌, ◌==◌, none, some, List, [], ◌∷◌, ◌++◌, get_elem?,
  remove_at, u64,
}
use zns_emulation_bench.Exec.{Exec, done, exited}
use zns_emulation_bench.Text.{Bytes, codes, to_string}
use zns_emulation_bench.Arbitration.{append, Command, NsWorkerCtx, ArbContext, Spdk}
use zns_emulation_bench.Arbitration.Loop.{Thread, take_offset, issue, retire as retire_task}
use zns_emulation_bench.Bench.{Program}
use zns_emulation_bench.Variants.{Shared, thread_of, shared_of}

-- `struct ns_worker_ctx`, with the number of times that "starting I/O failed" was printed, and the texts in
-- the buffers of the commands in flight, oldest first.
pub record MarkingCtx : Type 0 where
  pub ns_ctx : NsWorkerCtx
  pub count : ℕ
  pub failures : ℕ
  pub texts : List Bytes

abbrev pub State : Type 0
State = MarkingCtx × Shared

abbrev pub thread : State → Thread
thread (c, g) = thread_of c.ns_ctx c.failures g

abbrev pub with_thread : Thread → State → State
with_thread t (c, g) = (record c { ns_ctx = t.ctx; failures = t.failures }, shared_of t)

-- `snprintf(task->buf, 4096, "%s:%lu", "zstore1", ns_ctx->count)`: the text is shorter than 4096 bytes.
unfoldable pub mark : ℕ → Bytes
unfolding to_string
mark count = codes "zstore1:" ++ to_string count

abbrev pub append_command : ℕ → Command
append_command blocks = record { op = append; lba = 0x80000 * 0; blocks = blocks }

module _ (env : Spdk) (cfg : ArbContext) where
  -- `submit_single_io` once it has a task and a buffer. The text and the count come first.
  unfoldable pub submit_task : State → State
  unfolding mark take_offset issue
  submit_task (c, g) =
      let (_, t) = take_offset env cfg (record (thread (c, g)) { task_pool = g.task_pool - 1 }) in
      let (c', g') = with_thread (issue env (append_command t.ctx.entry.io_size_blocks) t) (c, g) in
      (
        record c' {
          count = u64 (c.count + 1);
          texts = if env.accepts t.calls then c.texts ++ mark c.count ∷ [] else c.texts;
        },
        g',
      )

  -- Without a buffer the program ends as well, though by the write into it that comes before the test.
  unfoldable pub submit_single_io : State → Exec State
  unfolding submit_task
  submit_single_io s =
      if s.1.task_pool == 0
      then exited s
      else if not (env.dma_zmalloc s.1.calls)
      then exited s
      else done (submit_task s)

  unfoldable pub retire : ℕ → State → State
  unfolding retire_task
  retire i (c, g) =
      let (c', g') = with_thread (retire_task i (thread (c, g))) (c, g) in
      (record c' { texts = remove_at c.texts i }, g')

  -- `io_complete` and `task_complete` for the `i`-th command in flight.
  unfoldable pub task_complete : ℕ → State → Exec State
  unfolding retire submit_single_io
  task_complete i s = elim (get_elem? s.0.ns_ctx.qpair i) [
    | none ↦ done s
    | some cmd ↦ let r = retire i s in if r.0.ns_ctx.is_draining then done r else submit_single_io r
  ]

  unfoldable pub init_ns_worker_ctx : ℕ → State → Exec (ℕ × State)
  init_ns_worker_ctx i (c, g) =
      if env.alloc_io_qpair i
      then done
          (0, (record c { ns_ctx = record (c.ns_ctx) { qpair = [] }; count = 0; texts = [] }, g))
      else done (1, (c, g))

  abbrev pub program : Program MarkingCtx Shared ℕ
  program = record {
    init_ns_worker_ctx = init_ns_worker_ctx;
    submit_single_io = submit_single_io;
    task_complete = task_complete;
    current_queue_depth = λ (c : MarkingCtx). c.ns_ctx.current_queue_depth;
    start_draining =
        λ (c : MarkingCtx). record c { ns_ctx = record (c.ns_ctx) { is_draining = true } };
    report = λ (c : MarkingCtx). c;
  }
