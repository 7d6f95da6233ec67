-- ===== src/Variants/Writing.antt =====
-- examples/arbitration/arbitration_write.cc: writes behind the write pointer of zone 6, which each context
-- asks the device for.
pub mod Contiguous
pub mod Waiting
pub mod Tests
use zns_emulation_bench.Prelude.{
  ℕ, zero, suc, ◌+◌, Bool, true, ◌&&◌, if◌then◌else◌, List, [], ◌∷◌, get_or,
}
use zns_emulation_bench.Exec.{Exec, done, exited, waiting}
use zns_emulation_bench.Arbitration.{NsWorkerCtx, ArbContext, Spdk}
use zns_emulation_bench.Arbitration.Loop
use zns_emulation_bench.Arbitration.Loop.{Thread, write_behind}
use zns_emulation_bench.Bench.{Program}
use zns_emulation_bench.Variants.{Shared, thread_of, shared_of}

-- `struct ns_worker_ctx`, with the number of times that "starting I/O failed" was printed.
pub record WritingCtx : Type 0 where
  pub ns_ctx : NsWorkerCtx
  pub wp : ℕ
  pub failures : ℕ

-- `struct spdk_nvme_zns_zone_desc`, as far as it is read.
pub record ZoneDesc : Type 0 where
  pub zslba : ℕ
  pub wp : ℕ

-- The command that asks for the zones: whether it is accepted, which of the polls bring its completion if
-- it is in flight, and the descriptors that it then has written, as many as the namespace has zones.
pub record Report : Type 0 where
  pub accepted : Bool
  pub brings : List Bool
  pub descs : List ZoneDesc

abbrev pub State : Type 0
State = WritingCtx × Shared

abbrev pub thread : State → Thread
thread (c, g) = thread_of c.ns_ctx c.failures g

abbrev pub with_thread : Thread → State → State
with_thread t (c, g) = (record c { ns_ctx = t.ctx; failures = t.failures }, shared_of t)

abbrev pub lift : State → Exec Thread → Exec State
lift s (done t) = done (with_thread t s)
lift s (exited t) = exited (with_thread t s)
lift s (waiting t) = waiting (with_thread t s)

-- The memory of the report is zeroed.
abbrev pub no_zone : ZoneDesc
no_zone = record { zslba = 0; wp = 0 }

-- `while (!done)`: each poll may call `complete`, if the command is in flight.
unfoldable pub wait_loop : Bool → List Bool → State → Exec State
wait_loop in_flight [] s = waiting s
wait_loop in_flight (now ∷ polls) s =
    let again = wait_loop in_flight polls s in if in_flight && now then done s else again

-- The write pointer of `current_zone`.
abbrev pub set_wp : Report → State → State
set_wp r (c, g) = (record c { wp = (get_or r.descs 6 no_zone).wp }, g)

abbrev pub with_wp : Report → Exec State → Exec (ℕ × State)
with_wp r (done s) = done (0, set_wp r s)
with_wp r (exited s) = exited (0, s)
with_wp r (waiting s) = waiting (0, s)

-- The report, whose return code is not looked at, the loop that waits for it, and the write pointer.
unfoldable pub ask : Report → State → Exec (ℕ × State)
unfolding wait_loop
ask r s = with_wp r (wait_loop r.accepted r.brings s)

module _ (env : Spdk) (cfg : ArbContext) (zones : ℕ → Report) where
  -- `submit_single_io` and `task_complete` are those of arbitration.cc but for the command.
  unfoldable pub submit_single_io : State → Exec State
  unfolding Loop.submit_single_io write_behind
  submit_single_io s = lift s (Loop.submit_single_io env cfg (write_behind s.0.wp) (thread s))

  unfoldable pub task_complete : ℕ → State → Exec State
  unfolding Loop.task_complete write_behind
  task_complete i s = lift s (Loop.task_complete env cfg (write_behind s.0.wp) i (thread s))

  -- The message on an empty zone is left out.
  unfoldable pub init_ns_worker_ctx : ℕ → State → Exec (ℕ × State)
  unfolding ask
  init_ns_worker_ctx i (c, g) =
      if env.alloc_io_qpair i
      then ask (zones i) (record c { ns_ctx = record (c.ns_ctx) { qpair = [] } }, g)
      else done (1, (c, g))

  abbrev pub program : Program WritingCtx Shared ℕ
  program = record {
    init_ns_worker_ctx = init_ns_worker_ctx;
    submit_single_io = submit_single_io;
    task_complete = task_complete;
    current_queue_depth = λ (c : WritingCtx). c.ns_ctx.current_queue_depth;
    start_draining =
        λ (c : WritingCtx). record c { ns_ctx = record (c.ns_ctx) { is_draining = true } };
    report = λ (c : WritingCtx). c;
  }
