-- ===== src/Variants/Measuring/Starved.antt =====
-- What examples/measurement.cc does to the contexts behind one that has completed enough.
use zns_emulation_bench.Prelude.{
  ℕ, zero, suc, ◌+◌, ◌^◌, ◌<◌, ◌≤◌, ◌≡◌, refl, subst, Bool-cases, not, if◌then◌else◌, ltb, ◌==◌,
  Option-cases, inl, inr, List, [], ◌∷◌, length, get_elem?, get_or, arith,
}
use zns_emulation_bench.Exec.{Exec, done, exited, waiting, final, ◌>>=◌, final-if}
use zns_emulation_bench.Arbitration.{ArbContext, Spdk}
use zns_emulation_bench.Arbitration.Loop.{read_at, limit}
use zns_emulation_bench.Bench.{Round, check_io, complete_each, put_back}
use zns_emulation_bench.Variants.Sampling.{SampledCtx, Timed, State, retire}
use zns_emulation_bench.Variants.Measuring.{
  submit_task, submit_single_io, task_complete, program, poll_each, poll_loop,
}

-- At most `n` I/Os more have been completed.
abbrev pub Completed : ℕ → State → State → Type 0
Completed n s s' =
    (s.0.ns_ctx.io_completed ≤ s'.0.ns_ctx.io_completed)
    × (s'.0.ns_ctx.io_completed ≤ s.0.ns_ctx.io_completed + n)

length-limit : (m : ℕ) (rs : List ℕ) → length (limit m rs) ≤ length rs
length-limit m [] = omega arith
length-limit zero (r ∷ rs) = omega arith
length-limit (suc zero) (r ∷ rs) = omega arith
length-limit (suc (suc m)) (r ∷ rs) = omega (arith, length-limit (suc m) rs)

-- The reports of completions on the first context.
abbrev pub first_reaped : List (Round ℕ) → ℕ
first_reaped [] = 0
first_reaped (r ∷ rs) = length (get_or r.reaped 0 []) + first_reaped rs

abbrev pub behind_first : {A : Type 0} → List A → List A
behind_first [] = []
behind_first (c ∷ cs) = cs

module _ (env : Spdk) (cfg : ArbContext) (now : ℕ → ℕ) (init : ℕ → State → Exec (ℕ × State)) where
  submit_task-completed :
      (s : State) → (submit_task env cfg now s).0.ns_ctx.io_completed ≡ s.0.ns_ctx.io_completed
  unfolding submit_task
  submit_task-completed s = elim (Bool-cases (env.accepts s.1.shared.calls)) [
    | inl e ↦ rw e refl
    | inr e ↦ rw e refl
  ]

  submit_single_io-Completed : (s : State) → Completed 0 s (final (submit_single_io env cfg now s))
  unfolding submit_single_io
  submit_single_io-Completed s =
      final-if (Completed 0 s) (s.1.shared.task_pool == 0) (exited s) _ (omega arith, omega arith)
        (final-if (Completed 0 s) (not (env.dma_zmalloc s.1.shared.calls)) (exited s)
          (done (submit_task env cfg now s)) (omega arith, omega arith)
          (omega (arith, submit_task-completed s), omega (arith, submit_task-completed s)))

  replaced-Completed :
      (s r : State)
      → Completed 1 s r
      → Completed 1 s
          (final (if r.0.ns_ctx.is_draining then done r else submit_single_io env cfg now r))
  replaced-Completed s r h =
      final-if (Completed 1 s) r.0.ns_ctx.is_draining (done r) _ h
        (let k = submit_single_io-Completed r in (omega (arith, h.0, k.0), omega (arith, h.1, k.1)))

  task_complete-Completed :
      (i : ℕ) (s : State)
      → s.0.ns_ctx.io_completed + 1 < 2 ^ 64
      → Completed 1 s (final (task_complete env cfg now i s))
  unfolding task_complete retire
  task_complete-Completed i s h = elim (Option-cases (get_elem? s.0.ns_ctx.qpair i)) [
    | inl e ↦ rw (e, task_complete) (omega arith, omega arith)
    | inr (cmd, e) ↦
        rw (e, task_complete)
          (replaced-Completed s (retire env cfg now read_at i s) (omega arith, omega arith))
  ]

  then-Completed :
      (n : ℕ) (s : State) (m : Exec State) (f : State → Exec State)
      → Completed 1 s (final m)
      → ((s' : State) → Completed 1 s s' → Completed n s' (final (f s')))
      → Completed (suc n) s (final (m >>= f))
  then-Completed n s (done s') f k next =
      let l = next s' k in (omega (arith, k.0, l.0), omega (arith, k.1, l.1))
  then-Completed n s (exited s') f k next = (omega (arith, k.0), omega (arith, k.1))
  then-Completed n s (waiting s') f k next = (omega (arith, k.0), omega (arith, k.1))

  complete_each-Completed :
      (rs : List ℕ) (s : State)
      → s.0.ns_ctx.io_completed + length rs < 2 ^ 64
      → Completed (length rs) s (final (complete_each (program env cfg now init) cfg rs s))
  unfolding complete_each
  complete_each-Completed [] s h = (omega arith, omega arith)
  complete_each-Completed (r ∷ rs) s h =
      then-Completed (length rs) s (task_complete env cfg now r s)
        (complete_each (program env cfg now init) cfg rs)
        (task_complete-Completed r s (omega (arith, h)))
        (λ s' k. complete_each-Completed rs s' (omega (arith, h, k.1)))

  check_io-Completed :
      (rs : List ℕ) (s : State)
      → s.0.ns_ctx.io_completed + length rs < 2 ^ 64
      → Completed (length rs) s (final (check_io (program env cfg now init) cfg rs s))
  unfolding check_io
  check_io-Completed rs s h =
      let l = length-limit cfg.max_completions rs in
      let k = complete_each-Completed (limit cfg.max_completions rs) s (omega (arith, h, l)) in
      (omega (arith, k.0), omega (arith, k.1, l))

  module _ (append_times : ℕ) where
    -- The first context has completed enough, and those behind it are `cs`.
    abbrev Past : ℕ → List SampledCtx → List SampledCtx × Timed → Type 0
    Past n cs ([], g) = ⊥
    Past n cs (c ∷ cs', g) =
        (append_times < c.ns_ctx.io_completed) × (c.ns_ctx.io_completed ≤ n) × (cs' ≡ cs)

    poll_each-Past :
        (reaped : List (List ℕ)) (c : SampledCtx) (cs : List SampledCtx) (g : Timed) (n : ℕ)
        → append_times < c.ns_ctx.io_completed
        → c.ns_ctx.io_completed ≤ n
        → n + length (get_or reaped 0 []) < 2 ^ 64
        → Past
            (n + length (get_or reaped 0 []))
            cs
            (final (poll_each (program env cfg now init) cfg append_times reaped 0 (c ∷ cs) g))
    unfolding poll_each
    poll_each-Past reaped c cs g n h l b =
        go (check_io (program env cfg now init) cfg (get_or reaped 0 []) (c, g))
          (check_io-Completed (get_or reaped 0 []) (c, g) (omega (arith, l, b)))
      where
        go :
            (m : Exec State)
            → Completed (length (get_or reaped 0 [])) (c, g) (final m)
            → Past (n + length (get_or reaped 0 [])) cs (
                final (elim m [
                  | done (c', g') ↦
                      let rest =
                        poll_each
                          (program env cfg now init)
                          cfg
                          append_times
                          reaped
                          (0 + 1)
                          cs
                          g' in
                      if ltb append_times c'.ns_ctx.io_completed
                      then done (c' ∷ cs, g')
                      else put_back c' rest
                  | exited (c', g') ↦ exited (c' ∷ cs, g')
                  | waiting (c', g') ↦ waiting (c' ∷ cs, g')
                ]))
        go (done (c', g')) k = elim (Bool-cases (ltb append_times c'.ns_ctx.io_completed)) [
          | inl e ↦ rw e (omega (arith, h, k.0), omega (arith, l, k.1), refl)
          | inr e ↦ absurd (ground (arith, e, h, k.0))
        ]
        go (exited (c', g')) k = (omega (arith, h, k.0), omega (arith, l, k.1), refl)
        go (waiting (c', g')) k = (omega (arith, h, k.0), omega (arith, l, k.1), refl)

    behind_Past :
        (n : ℕ) (cs : List SampledCtx) (w : List SampledCtx × Timed)
        → Past n cs w
        → behind_first w.0 ≡ cs
    behind_Past n cs ([], g) h = absurd h
    behind_Past n cs (c ∷ cs', g) h = h.2

    then_behind :
        (n : ℕ) (cs : List SampledCtx) (m : Exec (List SampledCtx × Timed))
        (f : List SampledCtx × Timed → Exec (List SampledCtx × Timed))
        → Past n cs (final m)
        → ((w : List SampledCtx × Timed) → Past n cs w → behind_first (final (f w)).0 ≡ cs)
        → behind_first (final (m >>= f)).0 ≡ cs
    then_behind n cs (done w) f h next = next w h
    then_behind n cs (exited w) f h next = behind_Past n cs w h
    then_behind n cs (waiting w) f h next = behind_Past n cs w h

    poll_loop-behind :
        (tsc_end : ℕ) (rs : List (Round ℕ)) (w : List SampledCtx × Timed) (cs : List SampledCtx)
        (n : ℕ)
        → Past n cs w
        → n + first_reaped rs < 2 ^ 64
        → behind_first
            (final (poll_loop (program env cfg now init) cfg append_times tsc_end rs w)).0
          ≡ cs
    unfolding poll_loop
    poll_loop-behind tsc_end rs ([], g) cs n h b = absurd h
    poll_loop-behind tsc_end [] (c ∷ cs', g) cs n h b = h.2
    poll_loop-behind tsc_end (r ∷ rs) (c ∷ cs', g) cs n h b =
        then_behind (n + length (get_or r.reaped 0 [])) cs
          (poll_each (program env cfg now init) cfg append_times r.reaped 0 (c ∷ cs') g) _
          (subst
            (λ x. Past (n + length (get_or r.reaped 0 [])) x (
              final (poll_each (program env cfg now init) cfg append_times r.reaped 0 (c ∷ cs') g)))
            h.2 (poll_each-Past r.reaped c cs' g n h.0 h.1 (omega (arith, b))))
          (λ w' k. elim (Bool-cases (ltb tsc_end r.ticks)) [
            | inl e ↦ rw e (behind_Past _ cs w' k)
            | inr e ↦ rw e (poll_loop-behind tsc_end rs w' cs _ k (omega (arith, b)))
          ])

    -- Once the first context has completed more than `append_times` I/Os, and the reports on it stay below
    -- 2^64, the polling loop leaves the contexts behind it as they are, however long it polls and
    -- however it ends.
    pub poll_loop-starves :
        (tsc_end : ℕ) (rs : List (Round ℕ)) (c : SampledCtx) (cs : List SampledCtx) (g : Timed)
        → append_times < c.ns_ctx.io_completed
        → c.ns_ctx.io_completed + first_reaped rs < 2 ^ 64
        → behind_first
            (final (poll_loop (program env cfg now init) cfg append_times tsc_end rs (c ∷ cs, g))).0
          ≡ cs
    poll_loop-starves tsc_end rs c cs g h b =
        poll_loop-behind tsc_end rs (c ∷ cs, g) cs c.ns_ctx.io_completed (h, omega arith, refl) b
