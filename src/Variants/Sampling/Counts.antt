-- ===== src/Variants/Sampling/Counts.antt =====
-- The samples of examples/arbitration/arbitration_read.cc: how many there are of either kind, and that
-- the two at one position are in order.
use zns_emulation_bench.Prelude.{
  ℕ, ◌+◌, ◌-◌, ◌≤◌, ◌≡◌, ap, Bool-cases, if◌then◌else◌, ◌==◌, Option-cases, inl, inr, some, List,
  [], ◌∷◌, ◌++◌, length, All, All-append, get_elem?, length-append, u64, arith,
}
use zns_emulation_bench.Exec.{done, final, final-if}
use zns_emulation_bench.Arbitration.{ArbContext, Spdk}
use zns_emulation_bench.Bench.Keeps.{Rely, Leaves}
use zns_emulation_bench.Arbitration.Loop.{Thread, Build}
use zns_emulation_bench.Arbitration.Loop.Queue.{
  issue-IsCounted, issue-issued, take_offset-issued, retire-IsCounted, retire-issued,
}
use zns_emulation_bench.Variants.Sampling.{
  thread, SampledCtx, Timed, State, submit_task, submit_single_io, retire, task_complete,
  init_ns_worker_ctx,
}

-- Where both lists have an element, the first one's is the smaller.
abbrev pub Before : List ℕ → List ℕ → Type 0
Before ss [] = Unit
Before [] (e ∷ es) = Unit
Before (s ∷ ss) (e ∷ es) = (s ≤ e) × Before ss es

Before-stime :
    (ss es : List ℕ) (t : ℕ) → length es ≤ length ss → Before ss es → Before (ss ++ t ∷ []) es
Before-stime ss [] t h b = tt
Before-stime [] (e ∷ es) t h b = absurd (omega arith)
Before-stime (s ∷ ss) (e ∷ es) t h b = (b.0, Before-stime ss es t (omega arith) b.1)

Before-etime :
    (ss es : List ℕ) (t : ℕ) → All (λ s. s ≤ t) ss → Before ss es → Before ss (es ++ t ∷ [])
Before-etime [] [] t h b = tt
Before-etime [] (e ∷ es) t h b = tt
Before-etime (s ∷ ss) [] t h b = (h.0, tt)
Before-etime (s ∷ ss) (e ∷ es) t h b = (b.0, Before-etime ss es t h.1 b.1)

All-later_time : (ss : List ℕ) (t u : ℕ) → t ≤ u → All (λ s. s ≤ t) ss → All (λ s. s ≤ u) ss
All-later_time [] t u h a = tt
All-later_time (s ∷ ss) t u h a = (omega (arith, a.0), All-later_time ss t u h a.1)

-- A command in flight and one that was refused have a start and no end.
pub record Sampled (now : ℕ → ℕ) (c : SampledCtx) (g : Timed) : Type 0 where
  pub depth : c.ns_ctx.current_queue_depth ≡ u64 (length c.ns_ctx.qpair)
  pub samples : length c.stimes ≡ length c.etimes + length c.ns_ctx.qpair + c.failures
  pub completed : c.ns_ctx.io_completed ≡ u64 (length c.etimes)
  pub counted : length c.stimes ≤ g.readings
  pub ordered : Before c.stimes c.etimes
  pub past : All (λ s. s ≤ now g.readings) c.stimes
  pub unreported : c.reports ≡ []

-- A context before its `init_ns_worker_ctx`.
pub record Fresh (now : ℕ → ℕ) (c : SampledCtx) (g : Timed) : Type 0 where
  pub idle : c.ns_ctx.qpair ≡ []
  pub sampled : Sampled now c g

abbrev pub Later : Timed → Timed → Type 0
Later g g' = g.readings ≤ g'.readings

module _ (env : Spdk) (cfg : ArbContext) (now : ℕ → ℕ) (build : Build)
    (clock : (i j : ℕ) → i ≤ j → now i ≤ now j) where
  pub Sampled-Rely : Rely Later (Sampled now)
  Sampled-Rely = record {
    later_refl = λ g. omega arith;
    later_trans = λ l m. omega (arith, l, m);
    stable = λ {c} {g} {g'} l v. record {
      depth = v.depth;
      samples = v.samples;
      completed = v.completed;
      counted = omega (arith, l, v.counted);
      ordered = v.ordered;
      past = All-later_time c.stimes (now g.readings) (now g'.readings) (clock _ _ l) v.past;
      unreported = v.unreported;
    };
  }

  submit_task-Leaves :
      (c : SampledCtx) (g : Timed)
      → Sampled now c g
      → Leaves Later (Sampled now) g (submit_task env cfg now build (c, g))
  unfolding submit_task
  submit_task-Leaves c g v = (
    record {
      depth = issue-IsCounted env _ _ ((take_offset-issued env cfg begun).1 v.depth);
      samples = omega (
        arith,
        issue-issued env _ _,
        (take_offset-issued env cfg begun).0,
        v.samples,
        length-append c.stimes (now g.readings ∷ []),
      );
      completed = ground (arith, v.completed);
      counted = omega (arith, v.counted, length-append c.stimes (now g.readings ∷ []));
      ordered =
          Before-stime c.stimes c.etimes (now g.readings) (omega (arith, v.samples)) v.ordered;
      past =
          All-append (λ s. s ≤ now (g.readings + 1)) c.stimes (now g.readings ∷ [])
            (All-later_time c.stimes (now g.readings) (now (g.readings + 1)) tick v.past)
            (tick, tt);
      unreported = v.unreported;
    },
    omega arith,
  )
    where
      tick : now g.readings ≤ now (g.readings + 1)
      tick = clock g.readings (g.readings + 1) (omega arith)

      begun : Thread
      begun = record (thread (c, g)) { task_pool = g.shared.task_pool - 1 }

  pub submit_single_io-Leaves :
      (c : SampledCtx) (g : Timed)
      → Sampled now c g
      → Leaves Later (Sampled now) g (final (submit_single_io env cfg now build (c, g)))
  unfolding submit_single_io
  submit_single_io-Leaves c g v = elim (Bool-cases (g.shared.task_pool == 0)) [
    | inl e ↦ rw e (v, omega arith)
    | inr e ↦ rw e (elim (Bool-cases (env.dma_zmalloc g.shared.calls)) [
      | inl a ↦ rw a (submit_task-Leaves c g v)
      | inr a ↦ rw a (v, omega arith)
    ])
  ]

  retire-Leaves :
      (i : ℕ) (c : SampledCtx) (g : Timed) {cmd : _}
      → get_elem? c.ns_ctx.qpair i ≡ some cmd
      → Sampled now c g
      → Leaves Later (Sampled now) g (retire env cfg now build i (c, g))
  unfolding retire
  retire-Leaves i c g e v = (
    record {
      depth = retire-IsCounted i (thread (c, g)) e v.depth;
      samples = omega (
        arith,
        retire-issued i (thread (c, g)) e,
        v.samples,
        length-append c.etimes (now g.readings ∷ []),
      );
      completed = omega (arith, v.completed, length-append c.etimes (now g.readings ∷ []));
      counted = omega (arith, v.counted);
      ordered = Before-etime c.stimes c.etimes (now g.readings) v.past v.ordered;
      past =
          All-later_time c.stimes (now g.readings) (now (g.readings + 1))
            (clock g.readings (g.readings + 1) (omega arith)) v.past;
      unreported = v.unreported;
    },
    omega arith,
  )

  replaced-Leaves :
      (g : Timed) (s : State)
      → Leaves Later (Sampled now) g s
      → Leaves Later
          (Sampled now)
          g
          (final (if s.0.ns_ctx.is_draining then done s else submit_single_io env cfg now build s))
  replaced-Leaves g s w =
      final-if (Leaves Later (Sampled now) g) s.0.ns_ctx.is_draining (done s) _ w
        (let (p, l) = submit_single_io-Leaves s.0 s.1 w.0 in (p, omega (arith, w.1, l)))

  pub task_complete-Leaves :
      (i : ℕ) (c : SampledCtx) (g : Timed)
      → Sampled now c g
      → Leaves Later (Sampled now) g (final (task_complete env cfg now build i (c, g)))
  unfolding task_complete
  task_complete-Leaves i c g v = elim (Option-cases (get_elem? c.ns_ctx.qpair i)) [
    | inl e ↦ rw (e, task_complete) (v, omega arith)
    | inr (cmd, e) ↦
        rw (e, task_complete)
          (replaced-Leaves g (retire env cfg now build i (c, g)) (retire-Leaves i c g e v))
  ]

  pub init-Leaves :
      (i : ℕ) (c : SampledCtx) (g : Timed)
      → Fresh now c g
      → Leaves Later (Sampled now) g (final (init_ns_worker_ctx env cfg now build i (c, g))).1
  unfolding init_ns_worker_ctx
  init-Leaves i c g v = elim (Bool-cases (env.alloc_io_qpair i)) [
    | inl a ↦ rw a (
      record {
        depth = omega (arith, u.depth, none_yet);
        samples = omega (arith, u.samples, none_yet);
        completed = u.completed;
        counted = u.counted;
        ordered = u.ordered;
        past = u.past;
        unreported = u.unreported;
      },
      omega arith,
    )
    | inr a ↦ rw a (u, omega arith)
  ]
    where
      u : Sampled now c g
      u = v.sampled

      none_yet : length c.ns_ctx.qpair ≡ 0
      none_yet = ap length v.idle
