-- ===== src/Bench.antt =====
-- The worker thread that the programs of examples/multipath and the variants of
-- examples/arbitration/arbitration.cc share, over the operations in which they differ: lines of
-- examples/multipath/mp_one_drive_read.cc, which has it as the others do.
pub mod Keeps
pub mod Contexts
use zns_emulation_bench.Prelude.{
  ℕ, zero, suc, ◌+◌, ◌*◌, if◌then◌else◌, ltb, ◌==◌, List, [], ◌∷◌, get_or, u64, bits64, pos_part, ℤ,
}
use zns_emulation_bench.Exec.{Exec, done, exited, waiting, ◌>>=◌}
use zns_emulation_bench.Arbitration.{ArbContext}
use zns_emulation_bench.Arbitration.Loop.{limit}
use zns_emulation_bench.Arbitration.Worker.{tsc_end_of}

-- What a program does on one of its contexts, a `C`, with what the contexts of a thread share, a `G`.
-- The device reports a completion as an `R`.
pub record Program (C G R : Type 0) : Type 0 where
  pub init_ns_worker_ctx : ℕ → C × G → Exec (ℕ × (C × G))
  pub submit_single_io : C × G → Exec (C × G)
  pub task_complete : R → C × G → Exec (C × G)
  pub current_queue_depth : C → ℕ
  pub start_draining : C → C
  pub report : C → C

module _ {C G R : Type 0} (prog : Program C G R) (cfg : ArbContext) where
  unfoldable pub complete_each : List R → C × G → Exec (C × G)
  complete_each [] s = done s
  complete_each (r ∷ rs) s = prog.task_complete r s >>= complete_each rs

  unfoldable pub check_io : List R → C × G → Exec (C × G)
  unfolding complete_each
  check_io reaped s = complete_each (limit cfg.max_completions reaped) s

  -- `while (queue_depth-- > 0) submit_single_io(ns_ctx);`
  unfoldable pub submit_times : ℕ → C × G → Exec (C × G)
  submit_times zero s = done s
  submit_times (suc n) s = prog.submit_single_io s >>= submit_times n

  unfoldable pub submit_io : ℤ → C × G → Exec (C × G)
  unfolding submit_times
  submit_io queue_depth s = submit_times (pos_part queue_depth) s

  unfoldable pub drain_loop : List (List R) → C × G → Exec (C × G)
  unfolding check_io
  drain_loop [] s = if prog.current_queue_depth s.0 == 0 then done s else waiting s
  drain_loop (reaped ∷ polls) s =
      let go = check_io reaped s >>= drain_loop polls in
      if prog.current_queue_depth s.0 == 0 then done s else go

  unfoldable pub drain_io : List (List R) → C × G → Exec (C × G)
  unfolding drain_loop
  drain_io polls (c, g) = drain_loop polls (prog.start_draining c, g)

-- `TAILQ_FOREACH(ns_ctx, &worker->ns_ctx, link) f(ns_ctx);` from the `i`-th context on.
abbrev pub put_back : {C G : Type 0} → C → Exec (List C × G) → Exec (List C × G)
put_back c (done (cs, g)) = done (c ∷ cs, g)
put_back c (exited (cs, g)) = exited (c ∷ cs, g)
put_back c (waiting (cs, g)) = waiting (c ∷ cs, g)

abbrev pub put_back_with : {C G : Type 0} → C → Exec (ℕ × (List C × G)) → Exec (ℕ × (List C × G))
put_back_with c (done (rc, (cs, g))) = done (rc, (c ∷ cs, g))
put_back_with c (exited (rc, (cs, g))) = exited (rc, (c ∷ cs, g))
put_back_with c (waiting (rc, (cs, g))) = waiting (rc, (c ∷ cs, g))

abbrev pub returning : {A : Type 0} → ℕ → Exec A → Exec (ℕ × A)
returning rc (done a) = done (rc, a)
returning rc (exited a) = exited (rc, a)
returning rc (waiting a) = waiting (rc, a)

unfoldable pub for_each :
    {C G : Type 0} → (ℕ → C × G → Exec (C × G)) → ℕ → List C → G → Exec (List C × G)
for_each f i [] g = done ([], g)
for_each f i (c ∷ cs) g = elim (f i (c, g)) [
  | done (c', g') ↦ put_back c' (for_each f (i + 1) cs g')
  | exited (c', g') ↦ exited (c' ∷ cs, g')
  | waiting (c', g') ↦ waiting (c' ∷ cs, g')
]

abbrev pub for_each_ctx :
    {C G : Type 0} → (ℕ → C × G → Exec (C × G)) → List C × G → Exec (List C × G)
for_each_ctx f (cs, g) = for_each f 0 cs g

-- One pass of the polling loop: what each context's poll reaps, and the ticks read afterwards.
pub record Round (R : Type 0) : Type 0 where
  pub reaped : List (List R)
  pub ticks : ℕ

module _ {C G R : Type 0} (prog : Program C G R) (cfg : ArbContext) where
  -- The `while (1)` loop, for the rounds that the clock allows to see.
  unfoldable pub poll_loop : ℕ → List (Round R) → List C × G → Exec (List C × G)
  unfolding for_each check_io
  poll_loop tsc_end [] w = waiting w
  poll_loop tsc_end (r ∷ rs) w =
      for_each_ctx (λ i. check_io prog cfg (get_or r.reaped i [])) w >>= (λ w'.
        let next = poll_loop tsc_end rs w' in if ltb tsc_end r.ticks then done w' else next)

  -- The last loop of `work_fn` on one context.
  unfoldable pub finish : List (List R) → C × G → Exec (C × G)
  unfolding drain_io
  finish polls s = drain_io prog cfg polls s >>= (λ s'. done (prog.report s'.0, s'.1))

  unfoldable pub run_phases :
      ℕ → List (Round R) → List (List (List R)) → List C × G → Exec (List C × G)
  unfolding poll_loop finish submit_io tsc_end_of
  run_phases start rounds last w =
      for_each_ctx (λ _. submit_io prog cfg cfg.queue_depth) w
      >>= poll_loop (tsc_end_of cfg start) rounds
      >>= for_each_ctx (λ i. finish (get_or last i []))

  -- `init_ns_worker_ctx` for each context, up to the first that it fails for.
  unfoldable pub init_each : ℕ → List C → G → Exec (ℕ × (List C × G))
  init_each i [] g = done (0, ([], g))
  init_each i (c ∷ cs) g = elim (prog.init_ns_worker_ctx i (c, g)) [
    | done (rc, (c', g')) ↦
        let rest = init_each (i + 1) cs g' in
        if rc == 0 then put_back_with c' rest else done (1, (c' ∷ cs, g'))
    | exited (rc, (c', g')) ↦ exited (rc, (c' ∷ cs, g'))
    | waiting (rc, (c', g')) ↦ waiting (rc, (c' ∷ cs, g'))
  ]

  -- The return code, and the state in which the worker ends.
  unfoldable pub work_fn :
      ℕ → List (Round R) → List (List (List R)) → List C × G → Exec (ℕ × (List C × G))
  unfolding init_each run_phases
  work_fn start rounds last (cs, g) = elim (init_each 0 cs g) [
    | done (rc, w) ↦ if rc == 0 then returning 0 (run_phases start rounds last w) else done (1, w)
    | exited (rc, w) ↦ exited (rc, w)
    | waiting (rc, w) ↦ waiting (rc, w)
  ]
