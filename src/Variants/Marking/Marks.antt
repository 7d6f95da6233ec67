-- ===== src/Variants/Marking/Marks.antt =====
-- The texts of examples/multipath/mp_one_drive_append.cc: lists of the marks of growing numbers.
use zns_emulation_bench.Prelude.{
  ℕ, zero, suc, ◌+◌, ◌^◌, ◌≤◌, ◌<◌, ◌≡◌, ◌≢◌, refl, sym, ap, subst, ◌∙◌, List, [], ◌∷◌, ◌++◌,
  remove_at, All, arith,
}
use zns_emulation_bench.Text.{Bytes}
use zns_emulation_bench.Text.Decimal.{to_string_injective}
use zns_emulation_bench.Variants.Marking.{mark}

-- Marks of numbers from `lo` on and below `hi`, each greater than the one before.
abbrev pub Marked : ℕ → List Bytes → ℕ → Type 0
Marked lo [] hi = lo ≤ hi
Marked lo (x ∷ xs) hi = (k : ℕ) × (lo ≤ k) × (x ≡ mark k) × Marked (k + 1) xs hi

pub Marked-widen :
    (lo lo' : ℕ) (xs : List Bytes) (hi hi' : ℕ)
    → lo' ≤ lo
    → hi ≤ hi'
    → Marked lo xs hi
    → Marked lo' xs hi'
Marked-widen lo lo' [] hi hi' l h m = omega arith
Marked-widen lo lo' (x ∷ xs) hi hi' l h (k, b, e, m) =
    (k, omega (arith, b), e, Marked-widen (k + 1) (k + 1) xs hi hi' (omega arith) h m)

pub Marked-append :
    (lo : ℕ) (xs : List Bytes) (hi : ℕ) → Marked lo xs hi → Marked lo (xs ++ mark hi ∷ []) (hi + 1)
Marked-append lo [] hi m = (hi, m, refl, omega arith)
Marked-append lo (x ∷ xs) hi (k, b, e, m) = (k, b, e, Marked-append (k + 1) xs hi m)

pub Marked-remove_at :
    (lo : ℕ) (xs : List Bytes) (i hi : ℕ) → Marked lo xs hi → Marked lo (remove_at xs i) hi
Marked-remove_at lo [] i hi m = m
Marked-remove_at lo (x ∷ xs) zero hi (k, b, e, m) =
    Marked-widen (k + 1) lo xs hi hi (omega (arith, b)) (omega arith) m
Marked-remove_at lo (x ∷ xs) (suc i) hi (k, b, e, m) = (k, b, e, Marked-remove_at (k + 1) xs i hi m)

-- No element occurs twice.
abbrev pub AllDistinct : List Bytes → Type 0
AllDistinct [] = Unit
AllDistinct (x ∷ xs) = All (λ y. x ≢ y) xs × AllDistinct xs

behind_first : ℕ → Bytes → Bytes
behind_first zero xs = xs
behind_first (suc n) [] = []
behind_first (suc n) (x ∷ xs) = behind_first n xs

mark_injective : (n k : ℕ) → n < 2 ^ 64 → k < 2 ^ 64 → mark n ≡ mark k → n ≡ k
unfolding mark behind_first
mark_injective n k hn hk e = to_string_injective n k hn hk (ap (behind_first 8) e)

Marked-lt : (lo : ℕ) (xs : List Bytes) (hi : ℕ) → Marked lo xs hi → lo ≤ hi
Marked-lt lo [] hi m = m
Marked-lt lo (x ∷ xs) hi (k, b, e, m) = omega (arith, b, Marked-lt (k + 1) xs hi m)

other_marks :
    (n lo : ℕ) (xs : List Bytes) (hi : ℕ)
    → n < lo
    → hi ≤ 2 ^ 64
    → Marked lo xs hi
    → All (λ y. mark n ≢ y) xs
other_marks n lo [] hi l h m = tt
other_marks n lo (x ∷ xs) hi l h (k, b, e, m) =
    let k_below = Marked-lt (k + 1) xs hi m in
    (
      λ same.
          (let equal : n ≡ k =
              mark_injective n k (omega (arith, l, b, k_below, h)) (omega (arith, k_below, h))
                (same ∙ e) in
            absurd (omega (arith, equal, l, b))),
      other_marks n (k + 1) xs hi (omega (arith, l, b)) h m,
    )

pub Marked-AllDistinct :
    (lo : ℕ) (xs : List Bytes) (hi : ℕ) → hi ≤ 2 ^ 64 → Marked lo xs hi → AllDistinct xs
Marked-AllDistinct lo [] hi h m = tt
Marked-AllDistinct lo (x ∷ xs) hi h (k, b, e, m) = (
  subst (λ (t : Bytes). All (λ y. t ≢ y) xs) (sym e)
      (other_marks k (k + 1) xs hi (omega arith) h m),
  Marked-AllDistinct (k + 1) xs hi h m,
)
