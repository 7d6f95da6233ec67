-- ===== src/Zones/Reset.antt =====
-- What the reset of examples/zns_nvme_test.cc leads to.
use zns_emulation_bench.Prelude.{
  ℕ, ◌+◌, ◌≤◌, ◌≡◌, inl, inr, refl, sym, ap, subst, ◌∙◌, Bool, if_true, if_false, Bool-cases,
  Option-cases, ◌==◌, Option, none, some, List, [], ◌∷◌, ◌++◌, get_elem?, remove_at, length,
  length-append, length-remove_at, All, All-append, All-remove_at, All-get_elem?, u64, dec64, arith,
}
use zns_emulation_bench.Exec.{final}
use zns_emulation_bench.Text.{Bytes}
use zns_emulation_bench.Zones.{
  Device, Request, reset, append, read, Context, Answer, zone_starts, reset_zone_complete,
  reset_each, reset_zone, call_back, answer, answer_each, poll_queued,
}

abbrev pub IsReset : Request → Type 0
IsReset (append b) = ⊥
IsReset (read b) = ⊥
IsReset (reset b) = Unit

-- Only resets are in flight, no more than `count`, and nothing has been filled for a write.
pub record IsResetting (wb : Bytes) (c : Context) : Type 0 where
  pub resets : All IsReset c.in_flight
  pub fits : length c.in_flight ≤ c.count
  pub small : c.count ≤ 2
  pub unfilled : c.write_buff ≡ wb

module _ (d : Device) (wb : Bytes) where
  reset_each-IsResetting :
      (bs : List ℕ) (c : Context)
      → length c.in_flight + length bs ≤ c.count
      → IsResetting wb c
      → IsResetting wb (reset_each d bs c).0
  unfolding reset_each
  reset_each-IsResetting [] c l r = r
  reset_each-IsResetting (b ∷ bs) c l r = elim (Bool-cases (d.accepts c.calls)) [
    | inl t ↦
        subst (λ (q : Context × Bool). IsResetting wb q.0) (sym (if_true _ _ t))
          (reset_each-IsResetting bs _ (omega (arith, l, added)) (record {
            resets = All-append IsReset c.in_flight (now ∷ []) r.resets (tt, tt);
            fits = omega (arith, l, added);
            small = r.small;
            unfilled = r.unfilled;
          }))
    | inr t ↦ elim (Bool-cases (d.no_memory c.calls)) [
      | inl u ↦
          subst (λ (q : Context × Bool). IsResetting wb q.0) (sym (if_false _ _ t ∙ if_true _ _ u))
            (reset_each-IsResetting bs _ (omega (arith, l))
              (record { resets = r.resets; fits = r.fits; small = r.small; unfilled = r.unfilled }))
      | inr u ↦
          subst (λ (q : Context × Bool). IsResetting wb q.0) (sym (if_false _ _ t ∙ if_false _ _ u))
            (record { resets = r.resets; fits = r.fits; small = r.small; unfilled = r.unfilled })
    ]
  ]
    where
      now : Request
      now = reset (u64 (b + c.zone_size))

      added : length (c.in_flight ++ now ∷ []) ≡ length c.in_flight + 1
      added = length-append c.in_flight (now ∷ [])

  -- The callback of a reset, which is no longer in flight: `count` is never 2 behind its decrement.
  reset_zone_complete-IsResetting :
      (a : Answer) (c : Context)
      → All IsReset c.in_flight
      → length c.in_flight + 1 ≤ c.count
      → c.count ≤ 2
      → c.write_buff ≡ wb
      → IsResetting wb (reset_zone_complete d a c)
  unfolding reset_zone_complete
  reset_zone_complete-IsResetting a c r l s e = elim (Bool-cases a.is_error) [
    | inl t ↦
        subst (IsResetting wb) (sym (if_true _ _ t))
          (record { resets = r; fits = omega (arith, l); small = s; unfilled = e })
    | inr t ↦
        subst (IsResetting wb)
          (sym (if_false _ _ t ∙ if_false {b = dec64 c.count == 2} _ _ (ground (arith, l, s))))
          (record {
            resets = r;
            fits = omega (arith, l, s);
            small = omega (arith, l, s);
            unfilled = e;
          })
  ]

  call_back-IsResetting :
      (r : Request) (a : Answer) (c : Context)
      → get_elem? c.in_flight a.place ≡ some r
      → IsReset r
      → IsResetting wb c
      → IsResetting wb (call_back d r a (record c { in_flight = remove_at c.in_flight a.place }))
  unfolding call_back
  call_back-IsResetting (reset b) a c e h w =
      reset_zone_complete-IsResetting a (record c { in_flight = remove_at c.in_flight a.place })
        (All-remove_at IsReset c.in_flight a.place w.resets)
        (omega (arith, length-remove_at c.in_flight a.place e, w.fits)) w.small w.unfilled
  call_back-IsResetting (append b) a c e h w = absurd h
  call_back-IsResetting (read b) a c e h w = absurd h

  answer-IsResetting : (a : Answer) (c : Context) → IsResetting wb c → IsResetting wb (answer d a c)
  unfolding answer
  answer-IsResetting a c w = elim (Option-cases (get_elem? c.in_flight a.place)) [
    | inl e ↦ subst (λ o. IsResetting wb (answered o)) (sym e) w
    | inr (r, e) ↦
        subst (λ o. IsResetting wb (answered o)) (sym e)
          (call_back-IsResetting r a c e (All-get_elem? IsReset c.in_flight a.place w.resets e) w)
  ]
    where
      answered : Option Request → Context
      answered none = c
      answered (some r) = call_back d r a (record c { in_flight = remove_at c.in_flight a.place })

  answer_each-IsResetting :
      (p : List Answer) (c : Context) → IsResetting wb c → IsResetting wb (answer_each d p c)
  unfolding answer_each
  answer_each-IsResetting [] c w = w
  answer_each-IsResetting (a ∷ p) c w =
      answer_each-IsResetting p (answer d a c) (answer-IsResetting a c w)

  poll_queued-IsResetting :
      (ps : List (List Answer)) (c : Context)
      → IsResetting wb c
      → IsResetting wb (final (poll_queued d ps c))
  unfolding poll_queued
  poll_queued-IsResetting [] c w = elim (Bool-cases (c.num_queued == 0)) [
    | inl t ↦ subst (λ m. IsResetting wb (final m)) (sym (if_true _ _ t)) w
    | inr t ↦ subst (λ m. IsResetting wb (final m)) (sym (if_false _ _ t)) w
  ]
  poll_queued-IsResetting (p ∷ ps) c w = elim (Bool-cases (c.num_queued == 0)) [
    | inl t ↦ subst (λ m. IsResetting wb (final m)) (sym (if_true _ _ t)) w
    | inr t ↦
        subst (λ m. IsResetting wb (final m)) (sym (if_false _ _ t))
          (poll_queued-IsResetting ps (answer_each d p c) (answer_each-IsResetting p c w))
  ]

starts_at_most_two : (n : ℕ) → length (zone_starts n) ≤ 2
starts_at_most_two n = elim (Bool-cases (n == 0)) [
  | inl t ↦ subst (λ (bs : List ℕ). length bs ≤ 2) (sym (if_true _ _ t)) (omega arith)
  | inr t ↦ subst (λ (bs : List ℕ). length bs ≤ 2) (sym (if_false _ _ t)) (omega arith)
]

-- With nothing in flight, `reset_zone` never goes on to write: whatever the device takes and reports, only
-- resets are in flight in the end, and the buffer for the writes is as it was.
pub reset_zone-IsResetting :
    (d : Device) (polls : List (List Answer)) (c : Context)
    → c.in_flight ≡ []
    → IsResetting c.write_buff (final (reset_zone d polls c))
unfolding reset_zone
reset_zone-IsResetting d polls c e = elim (Bool-cases begun.1) [
  | inl t ↦
      subst (λ m. IsResetting c.write_buff (final m)) (sym (if_true _ _ t))
        (poll_queued-IsResetting d c.write_buff polls begun.0 at_once)
  | inr t ↦ subst (λ m. IsResetting c.write_buff (final m)) (sym (if_false _ _ t)) at_once
]
  where
    begun : Context × Bool
    begun =
        reset_each d (zone_starts c.zone_size)
          (record c { count = 2; num_queued = u64 (c.num_queued + 1) })

    at_once : IsResetting c.write_buff begun.0
    at_once =
        reset_each-IsResetting d c.write_buff (zone_starts c.zone_size)
          (record c { count = 2; num_queued = u64 (c.num_queued + 1) })
          (omega (arith, ap length e, starts_at_most_two c.zone_size))
          (record {
            resets = subst (All IsReset) (sym e) tt;
            fits = omega (arith, ap length e);
            small = omega arith;
            unfilled = refl;
          })
