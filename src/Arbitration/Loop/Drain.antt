-- ===== src/Arbitration/Loop/Drain.antt =====
-- `drain_io` of examples/arbitration/arbitration.cc: it submits nothing, and it ends once the device
-- has reported what is in flight.
use zns_emulation_bench.Prelude.{
  ℕ, zero, suc, ◌+◌, ◌^◌, ◌≤◌, ◌<◌, ◌-◌, ◌≡◌, refl, ap, ◌∙◌, true, ltb, if◌then◌else◌, ◌==◌, inl,
  inr, Bool-cases, Option-cases, none, some, remove_at, List, [], ◌∷◌, get_elem?, length,
  length-remove_at, eq_nil_of_length, u64, arith,
}
use zns_emulation_bench.Exec.{done, ◌>>=◌}
use zns_emulation_bench.Arbitration.{NsEntry, ArbContext, Spdk}
use zns_emulation_bench.Arbitration.Loop.{
  Thread, Build, retire, task_complete, complete_each, check_io, limit, drain_loop, drain_io,
}
use zns_emulation_bench.Arbitration.Loop.Invariant.{Inv, AnyCommand, retire-Inv}

-- How many commands are left of `n` in flight when the one at `i` has been reported, if there is one.
abbrev pub left_of : ℕ → ℕ → ℕ
left_of n i = if ltb i n then n - 1 else n

-- How many are left after a poll, and after some polls that report at most `m` commands each.
abbrev pub left_by : ℕ → List ℕ → ℕ
left_by n [] = n
left_by n (i ∷ is) = left_by (left_of n i) is

abbrev pub left_after : ℕ → ℕ → List (List ℕ) → ℕ
left_after m n [] = n
left_after m n (is ∷ polls) = left_after m (left_by n (limit m is)) polls

missed {ℓ} :
    {A : Type ℓ} (xs : List A) (i : ℕ) → get_elem? xs i ≡ none → length xs ≡ left_of (length xs) i
missed [] i e = ground arith
missed (x ∷ xs) zero e = cc
missed (x ∷ xs) (suc i) e = ground (arith, missed xs i e)

found {ℓ} : {A : Type ℓ} (xs : List A) (i : ℕ) {x : A} → get_elem? xs i ≡ some x → i < length xs
found [] i e = absurd (cc)
found (y ∷ xs) zero e = omega arith
found (y ∷ xs) (suc i) e = omega (arith, found xs i e)

hit {ℓ} :
    {A : Type ℓ} (xs : List A) (i : ℕ) {x : A}
    → get_elem? xs i ≡ some x
    → length (remove_at xs i) ≡ left_of (length xs) i
hit xs i e = ground (arith, found xs i e, length-remove_at xs i e)

-- What one thread has become after commands were retired and nothing was submitted.
pub record Retired (total : ℕ) (entry : NsEntry) (s t : Thread) : Type 0 where
  pub inv : Inv total entry AnyCommand t
  pub still : t.ctx.is_draining ≡ true
  pub calls_same : t.calls ≡ s.calls
  pub failures_same : t.failures ≡ s.failures
  pub fewer : length t.ctx.qpair ≤ length s.ctx.qpair
  pub counted :
      u64 (t.ctx.io_completed + length t.ctx.qpair) ≡ u64 (s.ctx.io_completed + length s.ctx.qpair)

module _ (env : Spdk) (cfg : ArbContext) (build : Build) (total : ℕ) (entry : NsEntry)
    (small : total < 2 ^ 64) (fits : entry.size_in_ios < 2 ^ 64) where
  retire-Retired :
      (s : Thread) (i : ℕ) (t : Thread) {cmd : _}
      → get_elem? t.ctx.qpair i ≡ some cmd
      → Retired total entry s t
      → Retired total entry s (retire i t)
  unfolding retire
  retire-Retired s i t e r = record {
    inv = retire-Inv env cfg total entry small fits AnyCommand build (λ _ _. tt) i t e r.inv;
    still = r.still;
    calls_same = r.calls_same;
    failures_same = r.failures_same;
    fewer = ground (arith, length-remove_at t.ctx.qpair i e);
    counted = ground (arith, length-remove_at t.ctx.qpair i e);
  }

  -- One completion while draining: nothing is submitted in its place.
  task_complete-Retired :
      (s : Thread) (i : ℕ) (t : Thread)
      → Retired total entry s t
      → (t' : Thread) × (task_complete env cfg build i t ≡ done t')
        × Retired total entry s t'
        × (length t'.ctx.qpair ≡ left_of (length t.ctx.qpair) i)
  unfolding task_complete
  task_complete-Retired s i t r = elim (Option-cases (get_elem? t.ctx.qpair i)) [
    | inl e ↦ (t, rw (e, task_complete), r, missed t.ctx.qpair i e)
    | inr (cmd, e) ↦ (
      retire i t,
      rw (e, task_complete) (rw r.still),
      retire-Retired s i t e r,
      hit t.ctx.qpair i e,
    )
  ]

  complete_each-Retired :
      (s : Thread) (is : List ℕ) (t : Thread)
      → Retired total entry s t
      → (t' : Thread) × (complete_each env cfg build is t ≡ done t')
        × Retired total entry s t'
        × (length t'.ctx.qpair ≡ left_by (length t.ctx.qpair) is)
  unfolding complete_each
  complete_each-Retired s [] t r = (t, refl, r, refl)
  complete_each-Retired s (i ∷ is) t r =
      let (u, e, ru, lu) = task_complete-Retired s i t r in
      let (v, e', rv, lv) = complete_each-Retired s is u ru in
      (v, rw (e, ◌>>=◌) e', rv, lv ∙ ap (λ n. left_by n is) lu)

  check_io-Retired :
      (s : Thread) (reaped : List ℕ) (t : Thread)
      → Retired total entry s t
      → (t' : Thread) × (check_io env cfg build reaped t ≡ done t')
        × Retired total entry s t'
        × (length t'.ctx.qpair ≡ left_by (length t.ctx.qpair) (limit cfg.max_completions reaped))
  unfolding check_io
  check_io-Retired s reaped t r = complete_each-Retired s (limit cfg.max_completions reaped) t r

  drain_loop-Retired :
      (s : Thread) (polls : List (List ℕ)) (t : Thread)
      → Retired total entry s t
      → left_after cfg.max_completions (length t.ctx.qpair) polls ≡ 0
      → (t' : Thread) × (drain_loop env cfg build polls t ≡ done t')
        × Retired total entry s t'
        × (t'.ctx.current_queue_depth ≡ 0)
  unfolding drain_loop
  drain_loop-Retired s [] t r h = (t, rw zero_depth, r, zero_depth)
    where
      zero_depth : t.ctx.current_queue_depth ≡ 0
      zero_depth = omega (arith, r.inv.depth)
  drain_loop-Retired s (reaped ∷ polls) t r h = elim (Bool-cases (t.ctx.current_queue_depth == 0)) [
    | inl e ↦ (t, rw e, r, ground arith)
    | inr e ↦
        let (u, c, ru, lu) = check_io-Retired s reaped t r in
        let (v, d, rv, z) =
          drain_loop-Retired s polls u ru
            (ap (λ n. left_after cfg.max_completions n polls) lu ∙ h) in
        (v, rw e (rw (c, ◌>>=◌) d), rv, z)
  ]

  -- Once the polls of `drain_io` have reported every command in flight, in whatever order and however many
  -- at a time within `max_completions`, it ends: nothing is in
  -- flight, nothing was submitted, each command was counted once, and the pool holds all the tasks
  -- but those of the refused commands.
  pub drain_io_ends :
      (polls : List (List ℕ)) (t : Thread)
      → Inv total entry AnyCommand t
      → left_after cfg.max_completions (length t.ctx.qpair) polls ≡ 0
      → (t' : Thread) × (drain_io env cfg build polls t ≡ done t')
        × (t'.ctx.current_queue_depth ≡ 0)
        × (t'.ctx.qpair ≡ [])
        × (t'.calls ≡ t.calls)
        × (u64 t'.ctx.io_completed ≡ u64 (t.ctx.io_completed + length t.ctx.qpair))
        × (t'.task_pool + t.failures ≡ total)
  unfolding drain_io
  drain_io_ends polls t v h =
      let (u, e, r, z) = drain_loop-Retired start polls start begun h in
      (
        u,
        e,
        z,
        eq_nil_of_length u.ctx.qpair (omega (arith, r.inv.depth)),
        r.calls_same,
        omega (arith, r.inv.depth, r.counted),
        omega (arith, r.inv.depth, r.inv.balance, r.failures_same),
      )
    where
      start : Thread
      start = record t { ctx = record (t.ctx) { is_draining = true } }

      begun : Retired total entry start start
      begun = ground arith
