-- ===== src/Variants/Writing/Waiting.antt =====
-- The start of `work_fn` of examples/arbitration/arbitration_write.cc, where a report on the zones is not
-- answered.
use zns_emulation_bench.Prelude.{
  ℕ, zero, suc, ◌+◌, ◌<◌, ◌≡◌, refl, Bool, true, false, ◌&&◌, ◌||◌, if_true, List, [], ◌∷◌, length,
  arith, ap, ◌∙◌,
}
use zns_emulation_bench.Exec.{done, waiting}
use zns_emulation_bench.Arbitration.{ArbContext, Spdk}
use zns_emulation_bench.Bench.{Round, init_each, work_fn}
use zns_emulation_bench.Variants.{Shared}
use zns_emulation_bench.Variants.Writing.{
  State, WritingCtx, Report, wait_loop, with_wp, ask, init_ns_worker_ctx, program,
}

-- Whether some poll brings the completion of the report.
abbrev pub any : List Bool → Bool
any [] = false
any (b ∷ bs) = b || any bs

abbrev pub is_answered : Report → Bool
is_answered r = r.accepted && any r.brings

wait_loop-waits :
    (b : Bool) (polls : List Bool) (s : State)
    → (b && any polls) ≡ false
    → wait_loop b polls s ≡ waiting s
unfolding wait_loop
wait_loop-waits b [] s h = refl
wait_loop-waits true (true ∷ polls) s h = absurd (cc)
wait_loop-waits true (false ∷ polls) s h = wait_loop-waits true polls s h
wait_loop-waits false (now ∷ polls) s h = wait_loop-waits false polls s refl

wait_loop-ends :
    (b : Bool) (polls : List Bool) (s : State)
    → (b && any polls) ≡ true
    → wait_loop b polls s ≡ done s
unfolding wait_loop
wait_loop-ends b [] s h = absurd (none_left b h)
  where
    none_left : (b : Bool) → (b && false) ≡ true → ⊥
    none_left true e = absurd (cc)
    none_left false e = absurd (cc)
wait_loop-ends true (true ∷ polls) s h = refl
wait_loop-ends true (false ∷ polls) s h = wait_loop-ends true polls s h
wait_loop-ends false (now ∷ polls) s h = absurd (cc)

-- A context that has submitted nothing since it was `c`.
abbrev pub HasNotSubmitted : WritingCtx → WritingCtx → Type 0
HasNotSubmitted c c' =
    (c'.ns_ctx.current_queue_depth ≡ c.ns_ctx.current_queue_depth)
    × (c'.ns_ctx.offset_in_ios ≡ c.ns_ctx.offset_in_ios)
    × (c'.failures ≡ c.failures)

abbrev pub AllIdle : List WritingCtx → List WritingCtx → Type 0
AllIdle [] [] = Unit
AllIdle [] (c' ∷ cs') = ⊥
AllIdle (c ∷ cs) [] = ⊥
AllIdle (c ∷ cs) (c' ∷ cs') = HasNotSubmitted c c' × AllIdle cs cs'

AllIdle-refl : (cs : List WritingCtx) → AllIdle cs cs
AllIdle-refl [] = tt
AllIdle-refl (c ∷ cs) = ((refl, refl, refl), AllIdle-refl cs)

module _ (env : Spdk) (cfg : ArbContext) (zones : ℕ → Report)
    (given : (i : ℕ) → env.alloc_io_qpair i ≡ true) where
  init_waits :
      (i : ℕ) (c : WritingCtx) (g : Shared)
      → is_answered (zones i) ≡ false
      → (c' : WritingCtx) × (init_ns_worker_ctx env cfg zones i (c, g) ≡ waiting (0, (c', g)))
        × HasNotSubmitted c c'
  unfolding init_ns_worker_ctx ask
  init_waits i c g h = (
    _,
    if_true _ _ (given i)
        ∙ ap (with_wp (zones i)) (wait_loop-waits (zones i).accepted (zones i).brings _ h),
    (refl, refl, refl),
  )

  init_ends :
      (i : ℕ) (c : WritingCtx) (g : Shared)
      → is_answered (zones i) ≡ true
      → (c' : WritingCtx) × (init_ns_worker_ctx env cfg zones i (c, g) ≡ done (0, (c', g)))
        × HasNotSubmitted c c'
  unfolding init_ns_worker_ctx ask
  init_ends i c g h = (
    _,
    if_true _ _ (given i)
        ∙ ap (with_wp (zones i)) (wait_loop-ends (zones i).accepted (zones i).brings _ h),
    (refl, refl, refl),
  )

  init_each_waits :
      (i k : ℕ) (cs : List WritingCtx) (g : Shared)
      → k < length cs
      → ((j : ℕ) → j < k → is_answered (zones (i + j)) ≡ true)
      → is_answered (zones (i + k)) ≡ false
      → (cs' : List WritingCtx) × (init_each (program env cfg zones) cfg i cs g
          ≡ waiting (0, (cs', g)))
        × AllIdle cs cs'
  unfolding init_each
  init_each_waits i k [] g l h e = absurd (omega arith)
  init_each_waits i zero (c ∷ cs) g l h e =
      let (c', d, u) = init_waits i c g (ap (λ (n : ℕ). is_answered (zones n)) (omega arith) ∙ e) in
      (c' ∷ cs, rw (d, init_each) refl, (u, AllIdle-refl cs))
  init_each_waits i (suc k) (c ∷ cs) g l h e =
      let (c', d, u) =
        init_ends i c g (ap (λ (n : ℕ). is_answered (zones n)) (omega arith) ∙ h 0 (omega arith)) in
      let (cs', d', us) =
        init_each_waits (i + 1) k cs g (omega arith)
          (λ j b.
            ap (λ (n : ℕ). is_answered (zones n)) (omega arith) ∙ h (suc j) (omega (arith, b)))
          (ap (λ (n : ℕ). is_answered (zones n)) (omega arith) ∙ e) in
      (c' ∷ cs', rw (d, init_each) (rw d' refl), (u, us))

  -- If every queue pair is given and one of a worker's contexts gets no answer on its report, because the
  -- command is refused or because no poll brings its completion, while those before it get theirs, the
  -- worker is still waiting when all polls are over, and has started no I/O: no submission has been tried,
  -- no task taken, and every context's depth, offset and failures are as at the start.
  pub work_fn_waits :
      (k start : ℕ) (rounds : List (Round ℕ)) (last : List (List (List ℕ))) (cs : List WritingCtx)
      (g : Shared)
      → k < length cs
      → ((j : ℕ) → j < k → is_answered (zones j) ≡ true)
      → is_answered (zones k) ≡ false
      → (cs' : List WritingCtx) × (work_fn (program env cfg zones) cfg start rounds last (cs, g)
          ≡ waiting (0, (cs', g)))
        × AllIdle cs cs'
  unfolding work_fn
  work_fn_waits k start rounds last cs g l h e =
      let (cs', d, u) =
        init_each_waits 0 k cs g l
          (λ j b. ap (λ (n : ℕ). is_answered (zones n)) (omega arith) ∙ h j b)
          (ap (λ (n : ℕ). is_answered (zones n)) (omega arith) ∙ e) in
      (cs', rw (d, work_fn) refl, u)
