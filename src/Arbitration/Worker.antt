-- ===== src/Arbitration/Worker.antt =====
-- `work_fn` of examples/arbitration/arbitration.cc, the life of one worker thread.
pub mod Invariant
pub mod Phases
pub mod Total
use zns_emulation_bench.Prelude.{
  ℕ, zero, suc, ◌+◌, ◌*◌, Bool, true, false, if◌then◌else◌, ltb, List, [], ◌∷◌, get_or, u64, bits64,
}
use zns_emulation_bench.Exec.{Exec, done, exited, waiting, ◌>>=◌}
use zns_emulation_bench.Arbitration.{NsWorkerCtx, WorkerThread, ArbContext, Spdk}
use zns_emulation_bench.Arbitration.Loop.{Thread, Build, check_io, submit_io, drain_io}

-- What the calls of one worker read and write: its contexts, and what its thread shares among them.
pub record Work : Type 0 where
  pub ctxs : List NsWorkerCtx
  pub task_pool : ℕ
  pub seed : ℕ
  pub calls : ℕ
  pub failures : ℕ

-- One pass of the polling loop: what each context's poll reaps, and the ticks read afterwards.
pub record Round : Type 0 where
  pub reaped : List (List ℕ)
  pub ticks : ℕ

-- The calls on one context see it together with the shared part.
abbrev pub focus : NsWorkerCtx → Work → Thread
focus c w = record {
  ctx = c;
  task_pool = w.task_pool;
  seed = w.seed;
  calls = w.calls;
  failures = w.failures;
}

abbrev pub unfocus : Thread → List NsWorkerCtx → Work
unfocus t cs = record {
  ctxs = t.ctx ∷ cs;
  task_pool = t.task_pool;
  seed = t.seed;
  calls = t.calls;
  failures = t.failures;
}

abbrev pub put_back : NsWorkerCtx → Exec Work → Exec Work
put_back c (done w) = done (record w { ctxs = c ∷ w.ctxs })
put_back c (exited w) = exited (record w { ctxs = c ∷ w.ctxs })
put_back c (waiting w) = waiting (record w { ctxs = c ∷ w.ctxs })

-- `TAILQ_FOREACH(ns_ctx, &worker->ns_ctx, link) f(ns_ctx);` from the `i`-th context on.
unfoldable pub for_each : (ℕ → Thread → Exec Thread) → ℕ → List NsWorkerCtx → Work → Exec Work
for_each f i [] w = done (record w { ctxs = [] })
for_each f i (c ∷ cs) w = elim (f i (focus c w)) [
  | done t ↦ put_back t.ctx (for_each f (i + 1) cs (unfocus t cs))
  | exited t ↦ exited (unfocus t cs)
  | waiting t ↦ waiting (unfocus t cs)
]

abbrev pub for_each_ctx : (ℕ → Thread → Exec Thread) → Work → Exec Work
for_each_ctx f w = for_each f 0 w.ctxs w

-- `init_ns_worker_ctx` on each context; `false` if SPDK gives no queue pair, which ends the loop.
unfoldable pub init_contexts : Spdk → ℕ → List NsWorkerCtx → Bool × List NsWorkerCtx
init_contexts env i [] = (true, [])
init_contexts env i (c ∷ cs) =
    let (ok, cs') = init_contexts env (i + 1) cs in
    if env.alloc_io_qpair i then (ok, record c { qpair = [] } ∷ cs') else (false, c ∷ cs)

-- The test at the end of a pass of the `while (1)` loop.
abbrev pub unless_over : ℕ → Round → (Work → Exec Work) → Work → Exec Work
unless_over tsc_end r again w = let next = again w in if ltb tsc_end r.ticks then done w else next

-- The `while (1)` loop. The list is the rounds that the clock allows to see.
unfoldable pub poll_loop : Spdk → ArbContext → Build → ℕ → List Round → Work → Exec Work
unfolding for_each
poll_loop env cfg build tsc_end [] w = waiting w
poll_loop env cfg build tsc_end (r ∷ rs) w =
    for_each_ctx (λ i. check_io env cfg build (get_or r.reaped i [])) w
    >>= unless_over tsc_end r (poll_loop env cfg build tsc_end rs)

unfoldable pub tsc_end_of : ArbContext → ℕ → ℕ
tsc_end_of cfg start = u64 (start + u64 (bits64 cfg.time_in_sec * cfg.tsc_rate))

-- The three phases behind the allocation of the queue pairs. `last` holds each context's polls in
-- `drain_io`; `cleanup_ns_worker_ctx` then returns the empty queue pair.
unfoldable pub run_phases :
    Spdk → ArbContext → Build → ℕ → List Round → List (List (List ℕ)) → Work → Exec Work
unfolding poll_loop for_each tsc_end_of
run_phases env cfg build start rounds last w =
    for_each_ctx (λ _. submit_io env cfg build cfg.queue_depth) w
    >>= poll_loop env cfg build (tsc_end_of cfg start) rounds
    >>= for_each_ctx (λ i. drain_io env cfg build (get_or last i []))

-- The return code, and the state in which the worker ended.
unfoldable pub work_fn :
    Spdk → ArbContext → Build → ℕ → List Round → List (List (List ℕ)) → Work → ℕ × Exec Work
unfolding init_contexts run_phases
work_fn env cfg build start rounds last w =
    let (ok, cs) = init_contexts env 0 w.ctxs in
    if ok
    then (0, run_phases env cfg build start rounds last (record w { ctxs = cs }))
    else (1, done (record w { ctxs = cs }))
