-- ===== src/Variants/Sampling.antt =====
-- examples/arbitration/arbitration_read.cc: sequential or random reads whose latencies are sampled. The
-- program differs from arbitration.cc in the times that it records and in the report at the end, as
-- arbitration_rdma_read.cc does, and arbitration_append.cc and arbitration_rdma_append.cc, which append.
pub mod Counts
pub mod Report
pub mod Mean
pub mod Erase
pub mod Ends
pub mod Tests
use mathlib.Core.Option.{map as option_map}
use zns_emulation_bench.Prelude.{
  ℕ, zero, suc, ◌+◌, ◌-◌, ◌*◌, ◌/◌, ◌^◌, Bool, true, false, not, if◌then◌else◌, leb, ◌==◌, Option,
  none, some, List, [], ◌∷◌, ◌++◌, get_elem?, u64,
}
use zns_emulation_bench.Exec.{Exec, done, exited}
use zns_emulation_bench.Arbitration.{append, NsWorkerCtx, ArbContext, Spdk}
use zns_emulation_bench.Arbitration.Loop.{Thread, Build, take_offset, issue, retire as retire_task}
use zns_emulation_bench.Bench.{Program}
use zns_emulation_bench.Variants.{Shared, thread_of, shared_of}

-- `struct ns_worker_ctx` with its samples, in nanoseconds. `reports` holds the latencies that each report
-- is computed from, and `none` for a report that reads behind the end of `etimes`.
pub record SampledCtx : Type 0 where
  pub ns_ctx : NsWorkerCtx
  pub failures : ℕ
  pub stimes : List ℕ
  pub etimes : List ℕ
  pub reports : List (Option (List ℕ))

-- What the contexts share, with the number of readings of the clock.
pub record Timed : Type 0 where
  pub shared : Shared
  pub readings : ℕ

abbrev pub State : Type 0
State = SampledCtx × Timed

abbrev pub thread : State → Thread
thread (c, g) = thread_of c.ns_ctx c.failures g.shared

abbrev pub with_thread : Thread → State → State
with_thread t (c, g) =
    (record c { ns_ctx = t.ctx; failures = t.failures }, record g { shared = shared_of t })

module _ (env : Spdk) (cfg : ArbContext) (now : ℕ → ℕ) (build : Build) where
  unfoldable pub push_stime : State → State
  push_stime (c, g) = (
    record c { stimes = c.stimes ++ now g.readings ∷ [] },
    record g { readings = g.readings + 1 },
  )

  unfoldable pub push_etime : State → State
  push_etime (c, g) = (
    record c { etimes = c.etimes ++ now g.readings ∷ [] },
    record g { readings = g.readings + 1 },
  )

  -- `submit_single_io` once it has a task and a buffer: the time is taken before the command.
  unfoldable pub submit_task : State → State
  unfolding take_offset push_stime issue
  submit_task s =
      let (offset, t) =
        take_offset env cfg (record (thread s) { task_pool = s.1.shared.task_pool - 1 }) in
      let s' = push_stime (with_thread t s) in
      with_thread (issue env (build offset t.ctx.entry.io_size_blocks) (thread s')) s'

  unfoldable pub submit_single_io : State → Exec State
  unfolding submit_task
  submit_single_io s =
      if s.1.shared.task_pool == 0
      then exited s
      else if not (env.dma_zmalloc s.1.shared.calls)
      then exited s
      else done (submit_task s)

  unfoldable pub retire : ℕ → State → State
  unfolding push_etime retire_task
  retire i s = push_etime (with_thread (retire_task i (thread s)) s)

  -- `io_complete` and `task_complete` for the `i`-th command in flight.
  unfoldable pub task_complete : ℕ → State → Exec State
  unfolding retire submit_single_io
  task_complete i s = elim (get_elem? s.0.ns_ctx.qpair i) [
    | none ↦ done s
    | some cmd ↦ let r = retire i s in if r.0.ns_ctx.is_draining then done r else submit_single_io r
  ]

  -- Memory is reserved for the samples, which changes nothing.
  unfoldable pub init_ns_worker_ctx : ℕ → State → Exec (ℕ × State)
  init_ns_worker_ctx i (c, g) =
      if env.alloc_io_qpair i
      then done (0, (record c { ns_ctx = record (c.ns_ctx) { qpair = [] } }, g))
      else done (1, (c, g))

-- `duration_cast<microseconds>(etime - stime).count()` as a `uint64_t`: rounded towards 0.
abbrev pub micros : ℕ → ℕ → ℕ
micros etime stime =
    if leb stime etime then (etime - stime) / 1000 else u64 (2 ^ 64 - (stime - etime) / 1000)

-- The loop over `stimes` that reads `etimes[i]`.
unfoldable pub deltas : List ℕ → List ℕ → Option (List ℕ)
deltas etimes [] = some []
deltas [] (s ∷ stimes) = none
deltas (e ∷ etimes) (s ∷ stimes) = option_map (◌∷◌ (micros e s)) (deltas etimes stimes)

unfoldable pub report : SampledCtx → SampledCtx
unfolding deltas
report c = record c {
  reports = c.reports ++ deltas c.etimes c.stimes ∷ [];
  stimes = [];
  etimes = [];
}

abbrev pub program : Spdk → ArbContext → (ℕ → ℕ) → Build → Program SampledCtx Timed ℕ
program env cfg now build = record {
  init_ns_worker_ctx = init_ns_worker_ctx env cfg now build;
  submit_single_io = submit_single_io env cfg now build;
  task_complete = task_complete env cfg now build;
  current_queue_depth = λ (c : SampledCtx). c.ns_ctx.current_queue_depth;
  start_draining =
      λ (c : SampledCtx). record c { ns_ctx = record (c.ns_ctx) { is_draining = true } };
  report = report;
}

-- arbitration_rdma_append.cc appends to zone 27, whatever the offset.
unfoldable pub append_at_27 : Build
append_at_27 offset blocks = record { op = append; lba = 0x80000 * 27; blocks = blocks }
