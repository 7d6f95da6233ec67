-- ===== src/Bench/Contexts.antt =====
-- The worker of a program keeps of all its contexts what each call keeps of its own.
use zns_emulation_bench.Prelude.{
  ℕ, ◌+◌, ◌==◌, if◌then◌else◌, Bool-cases, ltb, inl, inr, List, [], ◌∷◌, All, get_or, pos_part,
}
use zns_emulation_bench.Exec.{Exec, done, exited, waiting, final, ◌>>=◌, final->>=}
use zns_emulation_bench.Arbitration.{ArbContext}
use zns_emulation_bench.Arbitration.Worker.{tsc_end_of}
use zns_emulation_bench.Bench.{
  Program, Round, check_io, submit_times, submit_io, put_back_with, returning, for_each, poll_loop,
  finish, run_phases, init_each, work_fn,
}
use zns_emulation_bench.Bench.Keeps.{
  Keeps, Leaves, All-later, for_each-AllLeft, check_io-Kept, submit_times-Kept, finish-Leaves,
}

module _ {C G R : Type 0} (prog : Program C G R) (cfg : ArbContext) (Later : G → G → Type 0)
    (I P Q : C → G → Type 0) (k : Keeps Later I P Q prog) where
  -- The loops over the contexts.
  abbrev AllP : List C × G → Type 0
  AllP w = All (λ c. P c w.1) w.0

  poll_loop-AllP :
      (tsc_end : ℕ) (rs : List (Round R)) (w : List C × G)
      → AllP w
      → AllP (final (poll_loop prog cfg tsc_end rs w))
  unfolding poll_loop
  poll_loop-AllP tsc_end [] w h = h
  poll_loop-AllP tsc_end (r ∷ rs) w h =
      final->>= AllP (for_each (λ i. check_io prog cfg (get_or r.reaped i [])) 0 w.0 w.1) _
        (for_each-AllLeft Later P P k.rely_p k.rely_p (λ c g p. p)
          (λ i. check_io prog cfg (get_or r.reaped i []))
          (λ i c g p. check_io-Kept prog cfg Later I P Q k (get_or r.reaped i []) (c, g) p) 0 w.0
          w.1 h).0
        (λ w' h'. elim (Bool-cases (ltb tsc_end r.ticks)) [
          | inl e ↦ rw e h'
          | inr e ↦ rw e (poll_loop-AllP tsc_end rs w' h')
        ])

  abbrev AllQ : List C × G → Type 0
  AllQ w = All (λ c. Q c w.1) w.0

  All-weaken : (cs : List C) (g : G) → All (λ c. P c g) cs → All (λ c. Q c g) cs
  All-weaken [] g h = tt
  All-weaken (c ∷ cs) g h = (k.weaken c g h.0, All-weaken cs g h.1)

  ends :
      (m : Exec (List C × G)) (f : List C × G → Exec (List C × G))
      → AllP (final m)
      → ((w : List C × G) → AllP w → AllQ (final (f w)))
      → AllQ (final (m >>= f))
  ends (done w) f h next = next w h
  ends (exited w) f h next = All-weaken w.0 w.1 h
  ends (waiting w) f h next = All-weaken w.0 w.1 h

  run_phases-AllQ :
      (start : ℕ) (rounds : List (Round R)) (last : List (List (List R))) (w : List C × G)
      → AllP w
      → AllQ (final (run_phases prog cfg start rounds last w))
  unfolding run_phases submit_io
  run_phases-AllQ start rounds last w h =
      ends (submitted >>= poll_loop prog cfg (tsc_end_of cfg start) rounds)
        (λ w'. for_each (λ i. finish prog cfg (get_or last i [])) 0 w'.0 w'.1)
        (final->>= AllP submitted (poll_loop prog cfg (tsc_end_of cfg start) rounds)
          (for_each-AllLeft Later P P k.rely_p k.rely_p (λ c g p. p)
            (λ _. submit_times prog cfg (pos_part cfg.queue_depth))
            (λ i c g p.
              submit_times-Kept prog cfg Later I P Q k (pos_part cfg.queue_depth) (c, g) p)
            0 w.0 w.1 h).0
          (poll_loop-AllP (tsc_end_of cfg start) rounds))
        (λ w' h'.
          (for_each-AllLeft Later P Q k.rely_p k.rely_q k.weaken
            (λ i. finish prog cfg (get_or last i []))
            (λ i c g p. finish-Leaves prog cfg Later I P Q k (get_or last i []) c g p) 0 w'.0 w'.1
            h').0)
    where
      submitted : Exec (List C × G)
      submitted = for_each (λ _. submit_times prog cfg (pos_part cfg.queue_depth)) 0 w.0 w.1

  abbrev AllKept : G → ℕ × (List C × G) → Type 0
  AllKept g r = All (λ c. P c r.1.1) r.1.0 × Later g r.1.1

  put_back_with-AllKept :
      (c : C) (g g' : G) (r : Exec (ℕ × (List C × G)))
      → Later g g'
      → P c g'
      → AllKept g' (final r)
      → AllKept g (final (put_back_with c r))
  put_back_with-AllKept c g g' (done (rc, (cs, e))) l q h =
      ((k.rely_p.stable h.1 q, h.0), k.rely_p.later_trans l h.1)
  put_back_with-AllKept c g g' (exited (rc, (cs, e))) l q h =
      ((k.rely_p.stable h.1 q, h.0), k.rely_p.later_trans l h.1)
  put_back_with-AllKept c g g' (waiting (rc, (cs, e))) l q h =
      ((k.rely_p.stable h.1 q, h.0), k.rely_p.later_trans l h.1)

  All-fresh : (cs : List C) (g : G) → All (λ c. I c g) cs → All (λ c. P c g) cs
  All-fresh [] g h = tt
  All-fresh (c ∷ cs) g h = (k.fresh c g h.0, All-fresh cs g h.1)

  init_each-AllKept :
      (i : ℕ) (cs : List C) (g : G)
      → All (λ c. I c g) cs
      → AllKept g (final (init_each prog cfg i cs g))
  unfolding init_each
  init_each-AllKept i [] g h = (tt, k.rely_p.later_refl g)
  init_each-AllKept i (c ∷ cs) g h =
      go (prog.init_ns_worker_ctx i (c, g)) (k.inits i c g h.0)
        (λ g'. init_each-AllKept (i + 1) cs g')
    where
      go :
          (r : Exec (ℕ × (C × G)))
          → Leaves Later P g (final r).1
          → ((g' : G)
              → All (λ c. I c g') cs
              → AllKept g' (final (init_each prog cfg (i + 1) cs g')))
          → AllKept g (
              final (elim r [
                | done (rc, (c', g')) ↦
                    let rest = init_each prog cfg (i + 1) cs g' in
                    if rc == 0 then put_back_with c' rest else done (1, (c' ∷ cs, g'))
                | exited (rc, (c', g')) ↦ exited (rc, (c' ∷ cs, g'))
                | waiting (rc, (c', g')) ↦ waiting (rc, (c' ∷ cs, g'))
              ]))
      go (done (rc, (c', g'))) q rest = elim (Bool-cases (rc == 0)) [
        | inl e ↦ rw e (
            put_back_with-AllKept c' g g' (init_each prog cfg (i + 1) cs g') q.1 q.0
              (rest g' (All-later k.rely_i cs q.1 h.1)))
        | inr e ↦ rw e ((q.0, All-fresh cs g' (All-later k.rely_i cs q.1 h.1)), q.1)
      ]
      go (exited (rc, (c', g'))) q rest =
          ((q.0, All-fresh cs g' (All-later k.rely_i cs q.1 h.1)), q.1)
      go (waiting (rc, (c', g'))) q rest =
          ((q.0, All-fresh cs g' (All-later k.rely_i cs q.1 h.1)), q.1)

  returning-AllQ :
      (rc : ℕ) (m : Exec (List C × G)) → AllQ (final m) → AllQ (final (returning rc m)).1
  returning-AllQ rc (done w) h = h
  returning-AllQ rc (exited w) h = h
  returning-AllQ rc (waiting w) h = h

  -- However the worker ends, each of its contexts satisfies `Q`, if all satisfied `I`.
  pub work_fn-AllQ :
      (start : ℕ) (rounds : List (Round R)) (last : List (List (List R))) (w : List C × G)
      → All (λ c. I c w.1) w.0
      → AllQ (final (work_fn prog cfg start rounds last w)).1
  unfolding work_fn
  work_fn-AllQ start rounds last w h =
      go (init_each prog cfg 0 w.0 w.1) (init_each-AllKept 0 w.0 w.1 h).0
    where
      go :
          (r : Exec (ℕ × (List C × G)))
          → AllP (final r).1
          → AllQ
              (final {A = ℕ × (List C × G)} (elim r [
                | done (rc, w') ↦
                    if rc == 0
                    then returning 0 (run_phases prog cfg start rounds last w')
                    else done (1, w')
                | exited (rc, w') ↦ exited (rc, w')
                | waiting (rc, w') ↦ waiting (rc, w')
              ])).1
      go (done (rc, w')) p = elim (Bool-cases (rc == 0)) [
        | inl e ↦ rw e (
            returning-AllQ 0 (run_phases prog cfg start rounds last w')
              (run_phases-AllQ start rounds last w' p))
        | inr e ↦ rw e (All-weaken w'.0 w'.1 p)
      ]
      go (exited (rc, w')) p = All-weaken w'.0 w'.1 p
      go (waiting (rc, w')) p = All-weaken w'.0 w'.1 p
