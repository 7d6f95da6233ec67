-- ===== src/Arbitration/Worker/Total.antt =====
-- `work_fn` of examples/arbitration/arbitration.cc runs to its end, and gives every task back but those
-- that refused commands lost.
use zns_emulation_bench.Prelude.{
  ℕ, suc, ◌+◌, ◌*◌, ◌^◌, ◌≤◌, ◌<◌, ◌≡◌, refl, ◌∙◌, ap, subst, ltb, if_true, if_false, true, false,
  ◌⊎◌, inl, inr, Bool-cases, List, [], ◌∷◌, length, All, get_or, pos_part, arith,
}
use zns_emulation_bench.Exec.{Exec, done, final, ◌>>=◌}
use zns_emulation_bench.Arbitration.{NsWorkerCtx, ArbContext, Spdk}
use zns_emulation_bench.Arbitration.Loop.{read_at, submit_io, check_io, drain_io}
use zns_emulation_bench.Arbitration.Loop.Invariant.{
  AnyCommand, submit_times-Inv, check_io-Inv, drain_loop-Inv,
}
use zns_emulation_bench.Arbitration.Loop.Drain.{left_after, drain_io_ends}
use zns_emulation_bench.Arbitration.Loop.Submit.{submit_times_enough, check_io_steady}
use zns_emulation_bench.Arbitration.Loop.Range.{InRange, read_at-InRange}
use zns_emulation_bench.Arbitration.Worker.{
  Work, Round, for_each_ctx, init_contexts, unless_over, poll_loop, tsc_end_of, run_phases, work_fn,
}
use zns_emulation_bench.Arbitration.Worker.Invariant.{IsEntry, IsCtx, in_flight, WorkInv, Keeps}
use zns_emulation_bench.Arbitration.Worker.Phases.{AllFrom, Ends, for_each_ends}

-- Some round reads the clock after the end of the run.
abbrev pub Timely : ℕ → List Round → Type 0
Timely tsc_end [] = ⊥
Timely tsc_end (r ∷ rs) = (tsc_end < r.ticks) ⊎ Timely tsc_end rs

abbrev pub Fresh : ℕ → NsWorkerCtx → Type 0
Fresh i c = c.qpair ≡ []

abbrev pub Bounded : ArbContext → ℕ → NsWorkerCtx → Type 0
Bounded cfg i c = length c.qpair ≤ pos_part cfg.queue_depth

-- What the `i`-th context's polls report in the end covers all that it has in flight, in whatever
-- order and batches.
abbrev pub Drains : ArbContext → List (List (List ℕ)) → ℕ → NsWorkerCtx → Type 0
Drains cfg last i c = left_after cfg.max_completions (length c.qpair) (get_or last i []) ≡ 0

abbrev pub Drained : ℕ → NsWorkerCtx → Type 0
Drained i c = (c.current_queue_depth ≡ 0) × (c.qpair ≡ [])

module _ (env : Spdk) (cfg : ArbContext) where
  submit_io-Keeps : Keeps (submit_io env cfg read_at cfg.queue_depth)
  unfolding submit_io
  submit_io-Keeps n entry t small k v =
      submit_times-Inv env cfg n entry small k.fits (InRange entry) read_at
        (read_at-InRange entry k.whole) _ t v

  check_io-Keeps : (reaped : List ℕ) → Keeps (check_io env cfg read_at reaped)
  check_io-Keeps reaped n entry t small k v =
      check_io-Inv env cfg n entry small k.fits (InRange entry) read_at
        (read_at-InRange entry k.whole) reaped t v

  drain_io-Keeps : (polls : List (List ℕ)) → Keeps (drain_io env cfg read_at polls)
  unfolding drain_io
  drain_io-Keeps polls n entry t small k v =
      drain_loop-Inv env cfg n entry small k.fits (InRange entry) read_at
        (read_at-InRange entry k.whole) polls _
        (record {
          same = v.same;
          depth = v.depth;
          balance = v.balance;
          offset = v.offset;
          commands = v.commands;
        })

  module _ (buffers : (k : ℕ) → env.dma_zmalloc k ≡ true) where
    submit_io_ends :
        Ends
          (λ _. submit_io env cfg read_at cfg.queue_depth)
          Fresh
          (Bounded cfg)
          (λ k p. k * pos_part cfg.queue_depth ≤ p)
    unfolding submit_io
    submit_io_ends i k m t small entry v fresh room =
        let (u, e, p, l) =
          submit_times_enough env cfg read_at buffers (pos_part cfg.queue_depth) t (omega arith) in
        (u, e, omega (arith, l, ap length fresh), omega (arith, p))

    check_io_ends :
        (r : Round)
        → Ends
            (λ i. check_io env cfg read_at (get_or r.reaped i []))
            (Bounded cfg)
            (Bounded cfg)
            (λ k p. Unit)
    check_io_ends r i k m t small entry v bounded room =
        let (u, e, l) =
          check_io_steady env cfg read_at buffers _ (get_or r.reaped i []) t bounded in
        (u, e, l, tt)

  drain_io-Ends :
      (last : List (List (List ℕ)))
      → Ends
          (λ i. drain_io env cfg read_at (get_or last i []))
          (Drains cfg last)
          Drained
          (λ k p. Unit)
  drain_io-Ends last i k m t small entry v drains room =
      let (u, e, d, q, _, _, _) =
        drain_io_ends env cfg read_at m t.ctx.entry small entry.fits (get_or last i []) t
          (record {
            same = v.same;
            depth = v.depth;
            balance = v.balance;
            offset = v.offset;
            commands = any t.ctx.qpair;
          })
          drains in
      (u, e, (d, q), tt)
    where
      any : (cs : List _) → All AnyCommand cs
      any [] = tt
      any (c ∷ cs) = (tt, any cs)

-- A context as `associate_workers_with_ns` leaves it.
pub record IsNew (c : NsWorkerCtx) : Type 0 where
  pub entry_ok : IsEntry c.entry
  pub not_empty : 0 < c.entry.size_in_ios
  pub no_depth : c.current_queue_depth ≡ 0
  pub at_start : c.offset_in_ios ≡ 0

init_contexts-IsNew :
    (env : Spdk) (i : ℕ) (cs : List NsWorkerCtx)
    → ((k : ℕ) → env.alloc_io_qpair k ≡ true)
    → All IsNew cs
    → ((init_contexts env i cs).0 ≡ true)
      × All IsCtx (init_contexts env i cs).1
      × (in_flight (init_contexts env i cs).1 ≡ 0)
      × (length (init_contexts env i cs).1 ≡ length cs)
unfolding init_contexts
init_contexts-IsNew env i [] given v = (refl, tt, refl, refl)
init_contexts-IsNew env i (c ∷ cs) given (n, v) =
    let (a, b, d, e) = init_contexts-IsNew env (i + 1) cs given v in
    rw (given i) (a, (ready, b), omega (arith, d), ap suc e)
  where
    ready : IsCtx (record c { qpair = [] })
    ready = record {
      entry_ok = n.entry_ok;
      depth = n.no_depth;
      offset = omega (arith, n.at_start, n.not_empty);
      commands = tt;
    }

init_contexts-Fresh :
    (env : Spdk) (i : ℕ) (cs : List NsWorkerCtx)
    → ((k : ℕ) → env.alloc_io_qpair k ≡ true)
    → AllFrom Fresh i (init_contexts env i cs).1
unfolding init_contexts
init_contexts-Fresh env i [] given = tt
init_contexts-Fresh env i (c ∷ cs) given =
    rw (given i) (refl, init_contexts-Fresh env (i + 1) cs given)

in_flight-Drained : (i : ℕ) (cs : List NsWorkerCtx) → AllFrom Drained i cs → in_flight cs ≡ 0
in_flight-Drained i [] v = refl
in_flight-Drained i (c ∷ cs) ((d, e), v) =
    omega (arith, ap length e, in_flight-Drained (i + 1) cs v)

module _ (env : Spdk) (cfg : ArbContext) (buffers : (k : ℕ) → env.dma_zmalloc k ≡ true) (total : ℕ)
    (small : total < 2 ^ 64) where
  poll_loop_ends :
      (tsc_end : ℕ) (rounds : List Round) (w : Work)
      → Timely tsc_end rounds
      → WorkInv total w
      → AllFrom (Bounded cfg) 0 w.ctxs
      → (w' : Work) × (poll_loop env cfg read_at tsc_end rounds w ≡ done w')
        × WorkInv total w'
        × AllFrom (Bounded cfg) 0 w'.ctxs
        × (length w'.ctxs ≡ length w.ctxs)
  unfolding poll_loop
  poll_loop_ends tsc_end [] w timely v b = absurd timely
  poll_loop_ends tsc_end (r ∷ rs) w timely v b =
      let (u, e, v', b', l) =
        for_each_ends _ (λ i. check_io-Keeps env cfg (get_or r.reaped i [])) _ _ _
          (check_io_ends env cfg buffers r) w total small v b tt in
      elim (Bool-cases (ltb tsc_end r.ticks)) [
        | inl over ↦ (u, ap (λ m. m >>= unless_over tsc_end r rest) e ∙ if_true _ _ over, v', b', l)
        | inr more ↦
            let (x, e', v'', b'', l') = poll_loop_ends tsc_end rs u (later timely more) v' b' in
            (
              x,
              ap (λ m. m >>= unless_over tsc_end r rest) e ∙ if_false _ _ more ∙ e',
              v'',
              b'',
              l' ∙ l,
            )
      ]
    where
      rest : Work → Exec Work
      rest = poll_loop env cfg read_at tsc_end rs

      later :
          (tsc_end < r.ticks) ⊎ Timely tsc_end rs → ltb tsc_end r.ticks ≡ false → Timely tsc_end rs
      later (inl now) more = absurd (ground arith)
      later (inr t) more = t

  -- The worker up to the end of the polling loop, with its queue pairs.
  abbrev pub polled : ℕ → List Round → Work → Exec Work
  polled start rounds w =
      for_each_ctx (λ _. submit_io env cfg read_at cfg.queue_depth)
        (record w { ctxs = (init_contexts env 0 w.ctxs).1 })
      >>= poll_loop env cfg read_at (tsc_end_of cfg start) rounds

  -- With a buffer for each I/O, a queue pair for each context, a pool that holds `queue_depth` tasks
  -- for each context, a clock that passes the end of the run, and polls in `drain_io` that report
  -- all that each context has in flight when the polling loop has ended, `work_fn` returns 0; then nothing is in flight, and the pool holds all the
  -- tasks but those of the refused commands.
  pub work_fn_total :
      (start : ℕ) (rounds : List Round) (last : List (List (List ℕ))) (w : Work)
      → ((k : ℕ) → env.alloc_io_qpair k ≡ true)
      → All IsNew w.ctxs
      → w.task_pool + w.failures ≡ total
      → length w.ctxs * pos_part cfg.queue_depth ≤ w.task_pool
      → Timely (tsc_end_of cfg start) rounds
      → AllFrom (Drains cfg last) 0 (final (polled start rounds w)).ctxs
      → (w' : Work) × (work_fn env cfg read_at start rounds last w ≡ (0, done w'))
        × AllFrom Drained 0 w'.ctxs
        × (w'.task_pool + w'.failures ≡ total)
  unfolding work_fn run_phases
  work_fn_total start rounds last w given new pool room timely reports =
      let (a, b, d, l) = init_contexts-IsNew env 0 w.ctxs given new in
      let w0 : Work = record w { ctxs = (init_contexts env 0 w.ctxs).1 } in
      let (w1, e1, v1, b1, l1) =
        for_each_ends _ (λ _. submit_io-Keeps env cfg) _ _ _ (submit_io_ends env cfg buffers) w0
          total small (record { contexts = b; balance = omega (arith, d) })
          (init_contexts-Fresh env 0 w.ctxs given) (rw l room) in
      let (w2, e2, v2, b2, l2) = poll_loop_ends (tsc_end_of cfg start) rounds w1 timely v1 b1 in
      let (w3, e3, v3, b3, l3) =
        for_each_ends _ (λ i. drain_io-Keeps env cfg (get_or last i [])) _ _ _
          (drain_io-Ends env cfg last) w2 total small v2
          (subst (λ (m : Exec Work). AllFrom (Drains cfg last) 0 (final m).ctxs)
            (ap (λ m. m >>= poll_loop env cfg read_at (tsc_end_of cfg start) rounds) e1 ∙ e2)
            reports)
          tt in
      (
        w3,
        if_true _ _ a ∙ ap (λ m. (0, m)) (ap then_polled e1 ∙ ap drained e2 ∙ e3),
        b3,
        omega (arith, v3.balance, in_flight-Drained 0 w3.ctxs b3),
      )
    where
      drained : Exec Work → Exec Work
      drained m = m >>= for_each_ctx (λ i. drain_io env cfg read_at (get_or last i []))

      then_polled : Exec Work → Exec Work
      then_polled m = drained (m >>= poll_loop env cfg read_at (tsc_end_of cfg start) rounds)
