-- ===== src/Variants/Measuring.antt =====
-- examples/measurement.cc: sequential reads whose latencies are sampled, in a worker whose passes over
-- the contexts stop at one that has completed enough. `append_times`, `init_ns_worker_ctx` and the
-- structures are of include/zns_device.h, which is not in the repository: the first two are parameters,
-- and the fields that the code uses are those of arbitration.cc's structures. cleanup_ns_worker_ctx, of
-- the same header, is taken to leave the samples as they are.
pub mod Starved
pub mod Tests
use zns_emulation_bench.Prelude.{
  ℕ, ◌+◌, ◌-◌, true, not, if◌then◌else◌, ltb, ◌==◌, none, some, List, [], ◌∷◌, ◌++◌, get_elem?,
  get_or, u64,
}
use zns_emulation_bench.Exec.{Exec, done, exited, waiting, ◌>>=◌}
use zns_emulation_bench.Arbitration.{ArbContext, Spdk}
use zns_emulation_bench.Arbitration.Loop.{Thread, read_at, issue}
use zns_emulation_bench.Arbitration.Worker.{tsc_end_of}
use zns_emulation_bench.Bench.{
  Program, Round, check_io, submit_io, finish, for_each_ctx, put_back, returning, init_each,
}
use zns_emulation_bench.Variants.Sampling.{
  SampledCtx, Timed, State, thread, with_thread, push_stime, retire, deltas,
}

module _ (env : Spdk) (cfg : ArbContext) (now : ℕ → ℕ) where
  -- `offset_in_ios++`, and back to 0 at the end.
  unfoldable pub next_offset : Thread → ℕ × Thread
  next_offset t = (ctx.offset_in_ios, record t { ctx = record ctx { offset_in_ios = wrapped } })
    where
      open t use {ctx}

      next : ℕ
      next = u64 (ctx.offset_in_ios + 1)

      wrapped : ℕ
      wrapped = if next == ctx.entry.size_in_ios then 0 else next

  -- `submit_single_io` once it has a task and a buffer.
  unfoldable pub submit_task : State → State
  unfolding next_offset push_stime issue
  submit_task s =
      let (offset, t) = next_offset (record (thread s) { task_pool = s.1.shared.task_pool - 1 }) in
      let s' = push_stime env cfg now read_at (with_thread t s) in
      with_thread (issue env (read_at offset t.ctx.entry.io_size_blocks) (thread s')) s'

  unfoldable pub submit_single_io : State → Exec State
  unfolding submit_task
  submit_single_io s =
      if s.1.shared.task_pool == 0
      then exited s
      else if not (env.dma_zmalloc s.1.shared.calls)
      then exited s
      else done (submit_task s)

  -- `io_complete` and `task_complete` for the `i`-th command in flight.
  unfoldable pub task_complete : ℕ → State → Exec State
  unfolding retire submit_single_io
  task_complete i s = elim (get_elem? s.0.ns_ctx.qpair i) [
    | none ↦ done s
    | some cmd ↦
        let r = retire env cfg now read_at i s in
        if r.0.ns_ctx.is_draining then done r else submit_single_io r
  ]

-- The end of `work_fn` on a drained context: the starts are cleared twice, the ends never.
unfoldable pub report : SampledCtx → SampledCtx
unfolding deltas
report c = record c { reports = c.reports ++ deltas c.etimes c.stimes ∷ []; stimes = [] }

abbrev pub program :
    Spdk → ArbContext → (ℕ → ℕ) → (ℕ → State → Exec (ℕ × State)) → Program SampledCtx Timed ℕ
program env cfg now init = record {
  init_ns_worker_ctx = init;
  submit_single_io = submit_single_io env cfg now;
  task_complete = task_complete env cfg now;
  current_queue_depth = λ (c : SampledCtx). c.ns_ctx.current_queue_depth;
  start_draining =
      λ (c : SampledCtx). record c { ns_ctx = record (c.ns_ctx) { is_draining = true } };
  report = report;
}

module _ (prog : Program SampledCtx Timed ℕ) (cfg : ArbContext) (append_times : ℕ) where
  -- One pass over the contexts, from the `i`-th on.
  unfoldable pub poll_each :
      List (List ℕ) → ℕ → List SampledCtx → Timed → Exec (List SampledCtx × Timed)
  unfolding check_io
  poll_each reaped i [] g = done ([], g)
  poll_each reaped i (c ∷ cs) g = elim (check_io prog cfg (get_or reaped i []) (c, g)) [
    | done (c', g') ↦
        let rest = poll_each reaped (i + 1) cs g' in
        if ltb append_times c'.ns_ctx.io_completed then done (c' ∷ cs, g') else put_back c' rest
    | exited (c', g') ↦ exited (c' ∷ cs, g')
    | waiting (c', g') ↦ waiting (c' ∷ cs, g')
  ]

  -- The `while (1)` loop, for the rounds that the clock allows to see.
  unfoldable pub poll_loop :
      ℕ → List (Round ℕ) → List SampledCtx × Timed → Exec (List SampledCtx × Timed)
  unfolding poll_each
  poll_loop tsc_end [] w = waiting w
  poll_loop tsc_end (r ∷ rs) w = poll_each r.reaped 0 w.0 w.1 >>= (λ w'.
      let next = poll_loop tsc_end rs w' in if ltb tsc_end r.ticks then done w' else next)

  -- The phases after the queue pairs have been given.
  unfoldable pub run_phases :
      ℕ
      → List (Round ℕ)
      → List (List (List ℕ))
      → List SampledCtx × Timed
      → Exec (List SampledCtx × Timed)
  unfolding poll_loop finish submit_io tsc_end_of
  run_phases start rounds last w =
      for_each_ctx (λ _. submit_io prog cfg cfg.queue_depth) w
      >>= poll_loop (tsc_end_of cfg start) rounds
      >>= for_each_ctx (λ i. finish prog cfg (get_or last i []))

  -- The return code, and the state in which the worker ends.
  unfoldable pub work_fn :
      ℕ
      → List (Round ℕ)
      → List (List (List ℕ))
      → List SampledCtx × Timed
      → Exec (ℕ × (List SampledCtx × Timed))
  unfolding init_each run_phases
  work_fn start rounds last (cs, g) = elim (init_each prog cfg 0 cs g) [
    | done (rc, w) ↦ if rc == 0 then returning 0 (run_phases start rounds last w) else done (1, w)
    | exited (rc, w) ↦ exited (rc, w)
    | waiting (rc, w) ↦ waiting (rc, w)
  ]
