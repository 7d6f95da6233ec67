-- ===== src/Variants/Marking/Distinct.antt =====
-- The appends in flight of examples/multipath/mp_one_drive_append.cc carry different texts.
use zns_emulation_bench.Prelude.{
  ℕ, ◌+◌, ◌^◌, ◌≤◌, ◌<◌, ◌≡◌, refl, subst, true, false, not, if◌then◌else◌, ◌==◌, inl, inr, Bool,
  Bool-cases, Option-cases, List, [], ◌∷◌, ◌++◌, All, get_elem?, u64, arith,
}
use zns_emulation_bench.Exec.{done, final, final-if}
use zns_emulation_bench.Arbitration.{ArbContext, Spdk}
use zns_emulation_bench.Arbitration.Loop
use zns_emulation_bench.Bench.{Round, work_fn}
use zns_emulation_bench.Bench.Keeps.{Rely, Leaves, Keeps}
use zns_emulation_bench.Bench.Contexts.{work_fn-AllQ}
use zns_emulation_bench.Variants.{Shared}
use zns_emulation_bench.Variants.Marking.{
  MarkingCtx, State, mark, submit_task, submit_single_io, retire, task_complete, init_ns_worker_ctx,
  program,
}
use zns_emulation_bench.Variants.Marking.Marks.{
  Marked, Marked-widen, Marked-append, Marked-remove_at, AllDistinct, Marked-AllDistinct,
}

pub record Counted (c : MarkingCtx) (g : Shared) : Type 0 where
  pub counted : c.count ≤ g.calls
  pub marked : g.calls < 2 ^ 64 → Marked 0 c.texts c.count

-- A context that `calloc` or `memset` has zeroed.
abbrev pub Fresh : MarkingCtx → Shared → Type 0
Fresh c g = (c.texts ≡ []) × (c.count ≡ 0)

abbrev pub Later : Shared → Shared → Type 0
Later g g' = g.calls ≤ g'.calls

Counted-Rely : Rely Later Counted
Counted-Rely = record {
  later_refl = λ g. omega arith;
  later_trans = λ l m. omega (arith, l, m);
  stable = λ l v. record {
    counted = omega (arith, l, v.counted);
    marked = λ h. v.marked (omega (arith, l, h));
  };
}

Fresh-Rely : Rely Later Fresh
Fresh-Rely = record {
  later_refl = λ g. omega arith;
  later_trans = λ l m. omega (arith, l, m);
  stable = λ l v. v;
}

Fresh-Counted : (c : MarkingCtx) (g : Shared) → Fresh c g → Counted c g
Fresh-Counted c g v = record {
  counted = omega (arith, v.1);
  marked = λ h. rw (v.0, v.1) (omega arith);
}

module _ (env : Spdk) (cfg : ArbContext) where
  -- What a submission does to the texts and the count, whether the device accepts the command or not.
  submit_task-fields :
      (c : MarkingCtx) (g : Shared)
      → ((submit_task env cfg (c, g)).0.count ≡ u64 (c.count + 1))
        × ((submit_task env cfg (c, g)).1.calls ≡ g.calls + 1)
        × ((submit_task env cfg (c, g)).0.texts
            ≡ (if env.accepts g.calls then c.texts ++ mark c.count ∷ [] else c.texts))
  unfolding submit_task
  submit_task-fields c g = (refl, ground arith, ground arith)

  submitted-Marked :
      (c : MarkingCtx) (accepts : Bool)
      → Marked 0 c.texts c.count
      → Marked 0 (if accepts then c.texts ++ mark c.count ∷ [] else c.texts) (c.count + 1)
  submitted-Marked c true m = Marked-append 0 c.texts c.count m
  submitted-Marked c false m =
      Marked-widen 0 0 c.texts c.count (c.count + 1) (omega arith) (omega arith) m

  submit_task-Leaves :
      (c : MarkingCtx) (g : Shared)
      → Counted c g
      → Leaves Later Counted g (submit_task env cfg (c, g))
  submit_task-Leaves c g v =
      let (count, calls, texts) = submit_task-fields c g in
      (
        record {
          counted = omega (arith, count, calls, v.counted);
          marked = λ h.
              rw (texts, count)
                (subst
                  (Marked 0 (if env.accepts g.calls then c.texts ++ mark c.count ∷ [] else c.texts))
                  (omega (arith, v.counted, h, calls))
                  (submitted-Marked c (env.accepts g.calls) (v.marked (omega (arith, h, calls)))));
        },
        omega (arith, calls),
      )

  submit_single_io-Leaves :
      (c : MarkingCtx) (g : Shared)
      → Counted c g
      → Leaves Later Counted g (final (submit_single_io env cfg (c, g)))
  unfolding submit_single_io
  submit_single_io-Leaves c g v =
      final-if (Leaves Later Counted g) (g.task_pool == 0) _ _ (v, omega arith)
        (final-if (Leaves Later Counted g) (not (env.dma_zmalloc g.calls)) _ _ (v, omega arith)
          (submit_task-Leaves c g v))

  retire-Leaves :
      (i : ℕ) (c : MarkingCtx) (g : Shared)
      → Counted c g
      → Leaves Later Counted g (retire env cfg i (c, g))
  unfolding retire Loop.retire
  retire-Leaves i c g v = (
    record { counted = v.counted; marked = λ h. Marked-remove_at 0 c.texts i c.count (v.marked h) },
    omega arith,
  )

  replaced-Leaves :
      (g : Shared) (s : State)
      → Leaves Later Counted g s
      → Leaves Later Counted g
          (final (if s.0.ns_ctx.is_draining then done s else submit_single_io env cfg s))
  replaced-Leaves g s w =
      final-if (Leaves Later Counted g) s.0.ns_ctx.is_draining (done s) _ w
        (let (p, l) = submit_single_io-Leaves s.0 s.1 w.0 in (p, omega (arith, w.1, l)))

  task_complete-Leaves :
      (i : ℕ) (c : MarkingCtx) (g : Shared)
      → Counted c g
      → Leaves Later Counted g (final (task_complete env cfg i (c, g)))
  unfolding task_complete
  task_complete-Leaves i c g v = elim (Option-cases (get_elem? c.ns_ctx.qpair i)) [
    | inl e ↦ rw (e, task_complete) (v, omega arith)
    | inr (cmd, e) ↦
        rw (e, task_complete) (replaced-Leaves g (retire env cfg i (c, g)) (retire-Leaves i c g v))
  ]

  init-Leaves :
      (i : ℕ) (c : MarkingCtx) (g : Shared)
      → Fresh c g
      → Leaves Later Counted g (final (init_ns_worker_ctx env cfg i (c, g))).1
  unfolding init_ns_worker_ctx
  init-Leaves i c g v = elim (Bool-cases (env.alloc_io_qpair i)) [
    | inl a ↦ rw a (record { counted = omega arith; marked = λ h. omega arith }, omega arith)
    | inr a ↦ rw a (Fresh-Counted c g v, omega arith)
  ]

  program-Keeps : Keeps Later Fresh Counted Counted (program env cfg)
  program-Keeps = record {
    rely_i = Fresh-Rely;
    rely_p = Counted-Rely;
    rely_q = Counted-Rely;
    weaken = λ c g v. v;
    fresh = Fresh-Counted;
    inits = init-Leaves;
    submits = submit_single_io-Leaves;
    completes = task_complete-Leaves;
    drains = λ c g v. record { counted = v.counted; marked = v.marked };
    reports = λ c g v z. v;
  }

  All-apply :
      (cs : List MarkingCtx) (g : Shared)
      → g.calls < 2 ^ 64
      → All (λ c. Counted c g) cs
      → All (λ (c : MarkingCtx). AllDistinct c.texts) cs
  All-apply [] g h a = tt
  All-apply (c ∷ cs) g h a = (
    Marked-AllDistinct 0 c.texts c.count (omega (arith, a.0.counted, h)) (a.0.marked h),
    All-apply cs g h a.1,
  )

  -- From contexts with nothing in flight and the count 0, and with fewer than 2^64 submissions: however
  -- the worker ends, no two appends in flight on a context carry the same text.
  pub work_fn-AllDistinct :
      (start : ℕ) (rounds : List (Round ℕ)) (last : List (List (List ℕ)))
      (w : List MarkingCtx × Shared)
      → All (λ c. Fresh c w.1) w.0
      → (final (work_fn (program env cfg) cfg start rounds last w)).1.1.calls < 2 ^ 64
      → All
          (λ (c : MarkingCtx). AllDistinct c.texts)
          (final (work_fn (program env cfg) cfg start rounds last w)).1.0
  work_fn-AllDistinct start rounds last w fresh h =
      All-apply _ (final (work_fn (program env cfg) cfg start rounds last w)).1.1 h (
        work_fn-AllQ (program env cfg) cfg Later Fresh Counted Counted program-Keeps start rounds
          last w fresh)
