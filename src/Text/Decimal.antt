-- ===== src/Text/Decimal.antt =====
-- Numbers printed by `std::to_string` are read back.
use zns_emulation_bench.Prelude.{
  ℕ, zero, suc, ◌+◌, ◌*◌, ◌/◌, ◌%◌, ◌^◌, ◌<◌, ◌≤◌, ◌≡◌, refl, sym, ap, subst, ◌∙◌, Bool, true,
  false, if◌then◌else◌, if_true, if_false, inl, inr, Bool-cases, ◌==◌, [], ◌∷◌, ◌++◌, All, length,
  arith,
}
use zns_emulation_bench.Text.{Bytes, digits_onto, to_string, is_digit, digits}

-- Ten times itself for each digit.
abbrev digit_limit : ℕ → ℕ
digit_limit zero = 1
digit_limit (suc fuel) = 10 * digit_limit fuel

abbrev pub IsDigit : ℕ → Type 0
IsDigit c = is_digit c ≡ true

-- What does not go on with a digit.
abbrev pub EndsNumber : Bytes → Type 0
EndsNumber [] = Unit
EndsNumber (c ∷ cs) = is_digit c ≡ false

digits-EndsNumber : (n : ℕ) (rest : Bytes) → EndsNumber rest → digits n rest ≡ n
unfolding digits
digits-EndsNumber n [] e = refl
digits-EndsNumber n (c ∷ cs) e = if_false _ _ e

below_ten-IsDigit : (n : ℕ) → IsDigit (b'0' + n % 10)
below_ten-IsDigit n = ground arith

-- Reading the last digit behind the digits before it.
digits_last : (n : ℕ) (rest : Bytes) → digits (n / 10) ((b'0' + n % 10) ∷ rest) ≡ digits n rest
unfolding digits
digits_last n rest = if_true _ _ (below_ten-IsDigit n) ∙ ap (λ k. digits k rest) (omega arith)

digits-digits_onto :
    (fuel n : ℕ) (rest : Bytes)
    → n < digit_limit fuel
    → digits 0 (digits_onto fuel n rest) ≡ digits n rest
unfolding digits_onto
digits-digits_onto zero n rest h = ap (λ k. digits k rest) (omega arith)
digits-digits_onto (suc fuel) n rest h = elim (Bool-cases (n / 10 == 0)) [
  | inl e ↦
      ap (digits 0) (if_true _ _ e)
      ∙ ap (λ k. digits k ((b'0' + n % 10) ∷ rest)) (ground (arith, e))
      ∙ digits_last n rest
  | inr e ↦
      ap (digits 0) (if_false _ _ e)
      ∙ digits-digits_onto fuel (n / 10) ((b'0' + n % 10) ∷ rest) (omega arith)
      ∙ digits_last n rest
]

digits_onto-append :
    (fuel n : ℕ) (xs rest : Bytes) → digits_onto fuel n (xs ++ rest) ≡ digits_onto fuel n xs ++ rest
unfolding digits_onto
digits_onto-append zero n xs rest = refl
digits_onto-append (suc fuel) n xs rest = elim (Bool-cases (n / 10 == 0)) [
  | inl e ↦ if_true _ _ e ∙ ap (λ l. l ++ rest) (sym (if_true _ _ e))
  | inr e ↦
      if_false _ _ e
      ∙ digits_onto-append fuel (n / 10) ((b'0' + n % 10) ∷ xs) rest
      ∙ ap (λ l. l ++ rest) (sym (if_false _ _ e))
]

digits_onto-IsDigit :
    (fuel n : ℕ) (xs : Bytes) → All IsDigit xs → All IsDigit (digits_onto fuel n xs)
unfolding digits_onto
digits_onto-IsDigit zero n xs h = h
digits_onto-IsDigit (suc fuel) n xs h = elim (Bool-cases (n / 10 == 0)) [
  | inl e ↦ subst (All IsDigit) (sym (if_true _ _ e)) (below_ten-IsDigit n, h)
  | inr e ↦
      subst (All IsDigit) (sym (if_false _ _ e))
        (digits_onto-IsDigit fuel (n / 10) _ (below_ten-IsDigit n, h))
]

length-if :
    (b : Bool) (xs ys : Bytes) (m : ℕ)
    → length xs ≤ m
    → length ys ≤ m
    → length (if b then xs else ys) ≤ m
length-if true xs ys m h k = h
length-if false xs ys m h k = k

length-digits_onto : (fuel n : ℕ) (xs : Bytes) → length (digits_onto fuel n xs) ≤ fuel + length xs
unfolding digits_onto
length-digits_onto zero n xs = omega arith
length-digits_onto (suc fuel) n xs =
    length-if (n / 10 == 0) _ _ (suc fuel + length xs) (omega arith)
      (omega (arith, length-digits_onto fuel (n / 10) ((b'0' + n % 10) ∷ xs)))

pub length-to_string : (n : ℕ) → length (to_string n) ≤ 20
unfolding to_string
length-to_string n = length-digits_onto 20 n []

pub to_string-IsDigit : (n : ℕ) → All IsDigit (to_string n)
unfolding to_string
to_string-IsDigit n = digits_onto-IsDigit 20 n [] tt

-- A printed uint64 is read back from the front of any text that goes on with no digit.
pub digits-to_string :
    (n : ℕ) (rest : Bytes) → n < 2 ^ 64 → EndsNumber rest → digits 0 (to_string n ++ rest) ≡ n
unfolding to_string
digits-to_string n rest h e =
    ap (digits 0) (sym (digits_onto-append 20 n [] rest))
    ∙ digits-digits_onto 20 n rest (omega arith)
    ∙ digits-EndsNumber n rest e

-- Different numbers print differently.
pub to_string_injective : (n k : ℕ) → n < 2 ^ 64 → k < 2 ^ 64 → to_string n ≡ to_string k → n ≡ k
to_string_injective n k hn hk e =
    sym (digits-to_string n [] hn tt) ∙ ap (λ l. digits 0 (l ++ [])) e ∙ digits-to_string k [] hk tt
