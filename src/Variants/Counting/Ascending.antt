-- ===== src/Variants/Counting/Ascending.antt =====
-- The reads in flight of examples/multipath/mp_one_drive_read.cc: they start at different blocks, below the
-- context's count.
use zns_emulation_bench.Prelude.{
  ℕ, zero, suc, ◌+◌, ◌^◌, ◌≤◌, ◌<◌, ◌≡◌, subst, true, false, not, if◌then◌else◌, ◌==◌, inl, inr,
  Bool, Bool-cases, Option-cases, List, [], ◌∷◌, ◌++◌, All, get_elem?, remove_at, arith,
}
use zns_emulation_bench.Exec.{done, final, final-if}
use zns_emulation_bench.Arbitration.{Command, ArbContext, Spdk}
use zns_emulation_bench.Arbitration.Loop
use zns_emulation_bench.Bench.{Round, work_fn}
use zns_emulation_bench.Bench.Keeps.{Rely, Leaves, Keeps}
use zns_emulation_bench.Bench.Contexts.{work_fn-AllQ}
use zns_emulation_bench.Variants.{Shared}
use zns_emulation_bench.Variants.Counting.{
  CountingCtx, State, read_at_count, submit_task, submit_single_io, retire, task_complete,
  init_ns_worker_ctx, program,
}
use zns_emulation_bench.Variants.Counting.Submit.{submit_task-qpair, submit_task-fields}

-- From `lo` on and below `hi`, each command starts behind the start of the one before.
abbrev pub Ascending : ℕ → List Command → ℕ → Type 0
Ascending lo [] hi = lo ≤ hi
Ascending lo (c ∷ cs) hi = (lo ≤ c.lba) × Ascending (c.lba + 1) cs hi

Ascending-widen :
    (lo lo' : ℕ) (cs : List Command) (hi hi' : ℕ)
    → lo' ≤ lo
    → hi ≤ hi'
    → Ascending lo cs hi
    → Ascending lo' cs hi'
Ascending-widen lo lo' [] hi hi' l h a = omega arith
Ascending-widen lo lo' (c ∷ cs) hi hi' l h a =
    (omega (arith, a.0), Ascending-widen (c.lba + 1) (c.lba + 1) cs hi hi' (omega arith) h a.1)

Ascending-append :
    (lo : ℕ) (cs : List Command) (hi : ℕ) (c : Command)
    → hi ≤ c.lba
    → Ascending lo cs hi
    → Ascending lo (cs ++ c ∷ []) (c.lba + 1)
Ascending-append lo [] hi c h a = (omega arith, omega arith)
Ascending-append lo (d ∷ cs) hi c h a = (a.0, Ascending-append (d.lba + 1) cs hi c h a.1)

Ascending-remove_at :
    (lo : ℕ) (cs : List Command) (i hi : ℕ) → Ascending lo cs hi → Ascending lo (remove_at cs i) hi
Ascending-remove_at lo [] i hi a = a
Ascending-remove_at lo (c ∷ cs) zero hi a =
    Ascending-widen (c.lba + 1) lo cs hi hi (omega (arith, a.0)) (omega arith) a.1
Ascending-remove_at lo (c ∷ cs) (suc i) hi a = (a.0, Ascending-remove_at (c.lba + 1) cs i hi a.1)

pub record Counted (c : CountingCtx) (g : Shared) : Type 0 where
  pub counted : c.count ≤ g.calls
  pub ascending : g.calls < 2 ^ 64 → Ascending 0 c.ns_ctx.qpair c.count

-- A context that `calloc` or `memset` has zeroed.
abbrev pub Fresh : CountingCtx → Shared → Type 0
Fresh c g = (c.ns_ctx.qpair ≡ []) × (c.count ≡ 0)

abbrev pub Later : Shared → Shared → Type 0
Later g g' = g.calls ≤ g'.calls

Counted-Rely : Rely Later Counted
Counted-Rely = record {
  later_refl = λ g. omega arith;
  later_trans = λ l m. omega (arith, l, m);
  stable = λ l v. record {
    counted = omega (arith, l, v.counted);
    ascending = λ h. v.ascending (omega (arith, l, h));
  };
}

Fresh-Rely : Rely Later Fresh
Fresh-Rely = record {
  later_refl = λ g. omega arith;
  later_trans = λ l m. omega (arith, l, m);
  stable = λ l v. v;
}

Fresh-Counted : (c : CountingCtx) (g : Shared) → Fresh c g → Counted c g
Fresh-Counted c g v = record {
  counted = omega (arith, v.1);
  ascending = λ h. rw (v.0, v.1) (omega arith);
}

module _ (env : Spdk) (cfg : ArbContext) where
  -- The queue pair after a submission, whether the device accepts the command or not.
  submitted-Ascending :
      (c : CountingCtx) (blocks : ℕ) (accepts : Bool)
      → c.count + 1 < 2 ^ 64
      → Ascending 0 c.ns_ctx.qpair c.count
      → Ascending 0
          (if accepts then c.ns_ctx.qpair ++ read_at_count c.count blocks ∷ [] else c.ns_ctx.qpair)
          (c.count + 1)
  unfolding read_at_count
  submitted-Ascending c blocks true h a =
      subst (λ (k : ℕ). Ascending 0 (c.ns_ctx.qpair ++ cmd ∷ []) (k + 1)) same
        (Ascending-append 0 c.ns_ctx.qpair c.count cmd (omega (arith, same)) a)
    where
      cmd : Command
      cmd = read_at_count c.count blocks

      same : cmd.lba ≡ c.count
      same = omega arith
  submitted-Ascending c blocks false h a =
      Ascending-widen 0 0 c.ns_ctx.qpair c.count (c.count + 1) (omega arith) (omega arith) a

  submit_task-Leaves :
      (c : CountingCtx) (g : Shared)
      → Counted c g
      → Leaves Later Counted g (submit_task env cfg read_at_count (c, g))
  submit_task-Leaves c g v =
      let (count, _, calls, _) = submit_task-fields env cfg read_at_count (c, g) in
      (
        record {
          counted = omega (arith, count, calls, v.counted);
          ascending = λ h.
              (let below : c.count + 1 < 2 ^ 64 = omega (arith, v.counted, h, calls) in
                rw (submit_task-qpair env cfg read_at_count (c, g), count)
                  (subst
                    (λ (k : ℕ).
                      Ascending 0
                        (if env.accepts g.calls
                          then c.ns_ctx.qpair
                            ++ read_at_count c.count c.ns_ctx.entry.io_size_blocks ∷ []
                          else c.ns_ctx.qpair)
                        k)
                    (omega arith)
                    (submitted-Ascending c c.ns_ctx.entry.io_size_blocks (env.accepts g.calls) below
                      (v.ascending (omega (arith, h, calls))))));
        },
        omega (arith, calls),
      )

  submit_single_io-Leaves :
      (c : CountingCtx) (g : Shared)
      → Counted c g
      → Leaves Later Counted g (final (submit_single_io env cfg read_at_count (c, g)))
  unfolding submit_single_io
  submit_single_io-Leaves c g v =
      final-if (Leaves Later Counted g) (g.task_pool == 0) _ _ (v, omega arith)
        (final-if (Leaves Later Counted g) (not (env.dma_zmalloc g.calls)) _ _ (v, omega arith)
          (submit_task-Leaves c g v))

  retire-Leaves :
      (i : ℕ) (c : CountingCtx) (g : Shared)
      → Counted c g
      → Leaves Later Counted g (retire env cfg read_at_count i (c, g))
  unfolding retire Loop.retire
  retire-Leaves i c g v = (
    record {
      counted = v.counted;
      ascending = λ h. Ascending-remove_at 0 c.ns_ctx.qpair i c.count (v.ascending h);
    },
    omega arith,
  )

  replaced-Leaves :
      (g : Shared) (s : State)
      → Leaves Later Counted g s
      → Leaves Later Counted g (
          final
            (if s.0.ns_ctx.is_draining then done s else submit_single_io env cfg read_at_count s))
  replaced-Leaves g s w =
      final-if (Leaves Later Counted g) s.0.ns_ctx.is_draining (done s) _ w
        (let (p, l) = submit_single_io-Leaves s.0 s.1 w.0 in (p, omega (arith, w.1, l)))

  task_complete-Leaves :
      (i : ℕ) (c : CountingCtx) (g : Shared)
      → Counted c g
      → Leaves Later Counted g (final (task_complete env cfg read_at_count i (c, g)))
  unfolding task_complete
  task_complete-Leaves i c g v = elim (Option-cases (get_elem? c.ns_ctx.qpair i)) [
    | inl e ↦ rw (e, task_complete) (v, omega arith)
    | inr (cmd, e) ↦
        rw (e, task_complete)
          (replaced-Leaves g (retire env cfg read_at_count i (c, g)) (retire-Leaves i c g v))
  ]

  init-Leaves :
      (i : ℕ) (c : CountingCtx) (g : Shared)
      → Fresh c g
      → Leaves Later Counted g (final (init_ns_worker_ctx env cfg read_at_count i (c, g))).1
  unfolding init_ns_worker_ctx
  init-Leaves i c g v = elim (Bool-cases (env.alloc_io_qpair i)) [
    | inl a ↦ rw a (record { counted = omega arith; ascending = λ h. omega arith }, omega arith)
    | inr a ↦ rw a (Fresh-Counted c g v, omega arith)
  ]

  program-Keeps : Keeps Later Fresh Counted Counted (program env cfg read_at_count)
  program-Keeps = record {
    rely_i = Fresh-Rely;
    rely_p = Counted-Rely;
    rely_q = Counted-Rely;
    weaken = λ c g v. v;
    fresh = Fresh-Counted;
    inits = init-Leaves;
    submits = submit_single_io-Leaves;
    completes = task_complete-Leaves;
    drains = λ c g v. record { counted = v.counted; ascending = v.ascending };
    reports = λ c g v z. v;
  }

  All-apply :
      (cs : List CountingCtx) (g : Shared)
      → g.calls < 2 ^ 64
      → All (λ c. Counted c g) cs
      → All (λ c. Ascending 0 c.ns_ctx.qpair c.count) cs
  All-apply [] g h a = tt
  All-apply (c ∷ cs) g h a = (a.0.ascending h, All-apply cs g h a.1)

  -- From contexts with nothing in flight and the count 0, and with fewer than 2^64 submissions: however
  -- the worker ends, the reads in flight on a context start at different blocks, all below the context's
  -- count, in the order in which they were submitted.
  pub work_fn-Ascending :
      (start : ℕ) (rounds : List (Round ℕ)) (last : List (List (List ℕ)))
      (w : List CountingCtx × Shared)
      → All (λ c. Fresh c w.1) w.0
      → (final (work_fn (program env cfg read_at_count) cfg start rounds last w)).1.1.calls < 2 ^ 64
      → All
          (λ c. Ascending 0 c.ns_ctx.qpair c.count)
          (final (work_fn (program env cfg read_at_count) cfg start rounds last w)).1.0
  work_fn-Ascending start rounds last w fresh h =
      All-apply _ (final (work_fn (program env cfg read_at_count) cfg start rounds last w)).1.1 h (
        work_fn-AllQ (program env cfg read_at_count) cfg Later Fresh Counted Counted program-Keeps
          start rounds last w fresh)
