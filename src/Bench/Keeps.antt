-- ===== src/Bench/Keeps.antt =====
-- What every call of a program keeps of its context, whatever other contexts do to the shared part in
-- between, the worker's loops keep of all the contexts.
use zns_emulation_bench.Prelude.{
  ℕ, zero, suc, ◌+◌, ◌==◌, Bool-cases, inl, inr, List, [], ◌∷◌, All, ◌≡◌, arith,
}
use zns_emulation_bench.Exec.{OnDone, Exec, done, exited, waiting, final, ◌>>=◌, final->>=}
use zns_emulation_bench.Arbitration.{ArbContext}
use zns_emulation_bench.Arbitration.Loop.{limit}
use zns_emulation_bench.Bench.{
  Program, complete_each, check_io, submit_times, drain_loop, drain_io, put_back, for_each, finish,
}

-- `Later g g'`: the shared part may become `g'` from `g`.
pub record Rely {C G : Type 0} (Later : G → G → Type 0) (P : C → G → Type 0) : Type 0 where
  pub later_refl : (g : G) → Later g g
  pub later_trans : {a b c : G} → Later a b → Later b c → Later a c
  pub stable : {c : C} {g g' : G} → Later g g' → P c g → P c g'

-- The state in which a call leaves a context and the shared part.
abbrev pub Leaves : {C G : Type 0} → (G → G → Type 0) → (C → G → Type 0) → G → C × G → Type 0
Leaves Later P g s = P s.0 s.1 × Later g s.1

pub All-later :
    {C G : Type 0} {Later : G → G → Type 0} {P : C → G → Type 0} (rely : Rely Later P) (cs : List C)
    {g g' : G}
    → Later g g'
    → All (λ c. P c g) cs
    → All (λ c. P c g') cs
All-later rely [] l h = tt
All-later rely (c ∷ cs) l h = (rely.stable l h.0, All-later rely cs l h.1)

module _ {C G : Type 0} (Later : G → G → Type 0) (P Q : C → G → Type 0) (rely : Rely Later P)
    (rely_q : Rely Later Q) (weaken : (c : C) (g : G) → P c g → Q c g) where
  abbrev AllLeft : G → List C × G → Type 0
  AllLeft g w = All (λ c. Q c w.1) w.0 × Later g w.1

  All-stable : (cs : List C) {g g' : G} → Later g g' → All (λ c. P c g) cs → All (λ c. Q c g') cs
  All-stable [] l h = tt
  All-stable (c ∷ cs) l h = (weaken c _ (rely.stable l h.0), All-stable cs l h.1)

  put_back-AllLeft :
      (c : C) (g g' : G) (r : Exec (List C × G))
      → Later g g'
      → Q c g'
      → AllLeft g' (final r)
      → AllLeft g (final (put_back c r))
  put_back-AllLeft c g g' (done (cs, e)) l q h =
      ((rely_q.stable h.1 q, h.0), rely.later_trans l h.1)
  put_back-AllLeft c g g' (exited (cs, e)) l q h =
      ((rely_q.stable h.1 q, h.0), rely.later_trans l h.1)
  put_back-AllLeft c g g' (waiting (cs, e)) l q h =
      ((rely_q.stable h.1 q, h.0), rely.later_trans l h.1)

  pub for_each-AllLeft :
      (f : ℕ → C × G → Exec (C × G))
      → ((i : ℕ) (c : C) (g : G) → P c g → Leaves Later Q g (final (f i (c, g))))
      → (i : ℕ) (cs : List C) (g : G) → All (λ c. P c g) cs
      → AllLeft g (final (for_each f i cs g))
  unfolding for_each
  for_each-AllLeft f k i [] g h = (tt, rely.later_refl g)
  for_each-AllLeft f k i (c ∷ cs) g h =
      go (f i (c, g)) (k i c g h.0) (λ g'. for_each-AllLeft f k (i + 1) cs g')
    where
      go :
          (r : Exec (C × G))
          → Leaves Later Q g (final r)
          → ((g' : G) → All (λ c. P c g') cs → AllLeft g' (final (for_each f (i + 1) cs g')))
          → AllLeft g (
              final (elim r [
                | done (c', g') ↦ put_back c' (for_each f (i + 1) cs g')
                | exited (c', g') ↦ exited (c' ∷ cs, g')
                | waiting (c', g') ↦ waiting (c' ∷ cs, g')
              ]))
      go (done (c', g')) q rest =
          put_back-AllLeft c' g g' (for_each f (i + 1) cs g') q.1 q.0
            (rest g' (All-later rely cs q.1 h.1))
      go (exited (c', g')) q rest = ((q.0, All-stable cs q.1 h.1), q.1)
      go (waiting (c', g')) q rest = ((q.0, All-stable cs q.1 h.1), q.1)

-- What a program must keep of each context for its worker to keep it: `I` is what a context satisfies at
-- first, `P` while it works, and `Q` once it has been drained and reported.
pub record Keeps {C G R : Type 0} (Later : G → G → Type 0) (I P Q : C → G → Type 0)
    (prog : Program C G R) : Type 0 where
  pub rely_i : Rely Later I
  pub rely_p : Rely Later P
  pub rely_q : Rely Later Q
  pub weaken : (c : C) (g : G) → P c g → Q c g
  pub fresh : (c : C) (g : G) → I c g → P c g
  pub inits :
      (i : ℕ) (c : C) (g : G)
      → I c g
      → Leaves Later P g (final (prog.init_ns_worker_ctx i (c, g))).1
  pub submits : (c : C) (g : G) → P c g → Leaves Later P g (final (prog.submit_single_io (c, g)))
  pub completes :
      (r : R) (c : C) (g : G) → P c g → Leaves Later P g (final (prog.task_complete r (c, g)))
  pub drains : (c : C) (g : G) → P c g → P (prog.start_draining c) g
  pub reports : (c : C) (g : G) → P c g → prog.current_queue_depth c ≡ 0 → Q (prog.report c) g

module _ {C G R : Type 0} (prog : Program C G R) (cfg : ArbContext) (Later : G → G → Type 0)
    (I P Q : C → G → Type 0) (k : Keeps Later I P Q prog) where
  -- The calls on one context.
  abbrev Kept : C × G → Exec (C × G) → Type 0
  Kept s m = Leaves Later P s.1 (final m)

  next_kept :
      (g : G) (m : Exec (C × G)) (f : C × G → Exec (C × G))
      → Leaves Later P g (final m)
      → ((s : C × G) → P s.0 s.1 → Leaves Later P s.1 (final (f s)))
      → Leaves Later P g (final (m >>= f))
  next_kept g m f h next =
      final->>= (λ s. Leaves Later P g s) m f h
        (λ s q. ((next s q.0).0, k.rely_p.later_trans q.1 (next s q.0).1))

  complete_each-Kept : (rs : List R) (s : C × G) → P s.0 s.1 → Kept s (complete_each prog cfg rs s)
  unfolding complete_each
  complete_each-Kept [] s h = (h, k.rely_p.later_refl s.1)
  complete_each-Kept (r ∷ rs) s h =
      next_kept s.1 (prog.task_complete r s) _ (k.completes r s.0 s.1 h) (complete_each-Kept rs)

  pub check_io-Kept : (rs : List R) (s : C × G) → P s.0 s.1 → Kept s (check_io prog cfg rs s)
  unfolding check_io
  check_io-Kept rs s h = complete_each-Kept (limit cfg.max_completions rs) s h

  pub submit_times-Kept : (n : ℕ) (s : C × G) → P s.0 s.1 → Kept s (submit_times prog cfg n s)
  unfolding submit_times
  submit_times-Kept zero s h = (h, k.rely_p.later_refl s.1)
  submit_times-Kept (suc n) s h =
      next_kept s.1 (prog.submit_single_io s) _ (k.submits s.0 s.1 h) (submit_times-Kept n)

  pub drain_loop-Kept :
      (polls : List (List R)) (s : C × G) → P s.0 s.1 → Kept s (drain_loop prog cfg polls s)
  unfolding drain_loop
  drain_loop-Kept [] s h = elim (Bool-cases (prog.current_queue_depth s.0 == 0)) [
    | inl e ↦ rw e (h, k.rely_p.later_refl s.1)
    | inr e ↦ rw e (h, k.rely_p.later_refl s.1)
  ]
  drain_loop-Kept (rs ∷ polls) s h = elim (Bool-cases (prog.current_queue_depth s.0 == 0)) [
    | inl e ↦ rw e (h, k.rely_p.later_refl s.1)
    | inr e ↦
        rw e
          (next_kept s.1 (check_io prog cfg rs s) _ (check_io-Kept rs s h) (drain_loop-Kept polls))
  ]

  -- `drain_io` ends only with nothing in flight.
  after_poll :
      (m : Exec (C × G)) (f : C × G → Exec (C × G))
      → ((s : C × G) → OnDone (λ t. prog.current_queue_depth t.0 ≡ 0) (f s))
      → OnDone (λ t. prog.current_queue_depth t.0 ≡ 0) (m >>= f)
  after_poll (done s) f h = h s
  after_poll (exited s) f h = tt
  after_poll (waiting s) f h = tt

  drain_loop-depth :
      (polls : List (List R)) (s : C × G)
      → OnDone (λ t. prog.current_queue_depth t.0 ≡ 0) (drain_loop prog cfg polls s)
  unfolding drain_loop
  drain_loop-depth [] s = elim (Bool-cases (prog.current_queue_depth s.0 == 0)) [
    | inl e ↦ rw e (ground arith)
    | inr e ↦ rw e tt
  ]
  drain_loop-depth (rs ∷ polls) s = elim (Bool-cases (prog.current_queue_depth s.0 == 0)) [
    | inl e ↦ rw e (ground arith)
    | inr e ↦ rw e (after_poll (check_io prog cfg rs s) _ (drain_loop-depth polls))
  ]

  reported :
      (g : G) (m : Exec (C × G))
      → Leaves Later P g (final m)
      → OnDone (λ t. prog.current_queue_depth t.0 ≡ 0) m
      → Leaves Later Q g (final (m >>= (λ s'. done (prog.report s'.0, s'.1))))
  reported g (done s) h d = (k.reports s.0 s.1 h.0 d, h.1)
  reported g (exited s) h d = (k.weaken s.0 s.1 h.0, h.1)
  reported g (waiting s) h d = (k.weaken s.0 s.1 h.0, h.1)

  pub finish-Leaves :
      (polls : List (List R)) (c : C) (g : G)
      → P c g
      → Leaves Later Q g (final (finish prog cfg polls (c, g)))
  unfolding finish drain_io
  finish-Leaves polls c g h =
      reported g (drain_loop prog cfg polls (prog.start_draining c, g))
        (drain_loop-Kept polls (prog.start_draining c, g) (k.drains c g h))
        (drain_loop-depth polls (prog.start_draining c, g))
