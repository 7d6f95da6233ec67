-- ===== src/Verify/Distinct.antt =====
-- examples/multipath/verification.cc notices a block that holds the text of another write.
use zns_emulation_bench.Prelude.{
  ℕ, zero, suc, ◌+◌, ◌-◌, ◌*◌, ◌^◌, ◌<◌, ◌≤◌, ◌≡◌, ◌≢◌, refl, sym, ap, ◌∙◌, false, Bool-cases, inl,
  inr, [], ◌∷◌, ◌++◌, All, length, length-append, take, take-take, min, arith, u64,
}
use zns_emulation_bench.Text.{Bytes, codes, to_string, same_text, same_text-eq}
use zns_emulation_bench.Text.Decimal.{
  IsDigit, to_string-IsDigit, to_string_injective, length-to_string,
}
use zns_emulation_bench.Verify.{data_pattern, is_verified}

abbrev drop : ℕ → Bytes → Bytes
drop zero xs = xs
drop (suc n) [] = []
drop (suc n) (x ∷ xs) = drop n xs

-- Digits up to a colon are known from a part of the text that shows the colon.
digits_before_colon :
    (xs ys s r : Bytes) (m : ℕ)
    → All IsDigit xs
    → All IsDigit ys
    → take m (ys ++ b':' ∷ r) ≡ xs ++ b':' ∷ s
    → ys ≡ xs
digits_before_colon [] [] s r m hx hy e = refl
digits_before_colon [] (y ∷ ys) s r zero hx hy e = absurd (cc)
digits_before_colon [] (y ∷ ys) s r (suc m) hx hy e = absurd (ground (arith, ap (take 1) e))
digits_before_colon (x ∷ xs) [] s r zero hx hy e = absurd (cc)
digits_before_colon (x ∷ xs) [] s r (suc m) hx hy e = absurd (ground (arith, ap (take 1) e))
digits_before_colon (x ∷ xs) (y ∷ ys) s r zero hx hy e = absurd (cc)
digits_before_colon (x ∷ xs) (y ∷ ys) s r (suc m) hx hy e =
    ground (arith, digits_before_colon xs ys s r m hx.1 hy.1)

sub_zero : (n : ℕ) → n ≡ n - 0
sub_zero n = omega arith

sub_suc : (n k : ℕ) → n - k ≡ suc n - suc k
sub_suc n k = omega arith

drop-take : (k n : ℕ) (xs : Bytes) → drop k (take n xs) ≡ take (n - k) (drop k xs)
drop-take zero n xs = ap (λ m. take m xs) (sub_zero n)
drop-take (suc k) zero xs = ap (λ m. take m (drop (suc k) xs)) (zero_sub (suc k))
  where
    zero_sub : (j : ℕ) → 0 ≡ 0 - j
    zero_sub j = omega arith
drop-take (suc k) (suc n) [] = sym (take-nil (suc n - suc k))
  where
    take-nil : (m : ℕ) → take {A = ℕ} m [] ≡ []
    take-nil zero = refl
    take-nil (suc m) = refl
drop-take (suc k) (suc n) (x ∷ xs) = drop-take k n xs ∙ ap (λ m. take m (drop k xs)) (sub_suc n k)

take_past :
    (xs : Bytes) (c : ℕ) (r : Bytes) (m : ℕ)
    → length xs < m
    → take m (xs ++ c ∷ r) ≡ xs ++ c ∷ take (m - length xs - 1) r
take_past [] c r zero h = absurd (omega arith)
take_past [] c r (suc m) h = ap (λ k. c ∷ take k r) (less m)
  where
    less : (k : ℕ) → k ≡ suc k - 0 - 1
    less k = omega arith
take_past (x ∷ xs) c r zero h = absurd (omega arith)
take_past (x ∷ xs) c r (suc m) h =
    ap (λ l. x ∷ l) (take_past xs c r m (omega arith))
    ∙ ap (λ k. x ∷ (xs ++ c ∷ take k r)) (less m (length xs))
  where
    less : (k n : ℕ) → k - n - 1 ≡ suc k - suc n - 1
    less k n = omega arith

-- What follows the colon behind the count.
behind_count : ℕ → Bytes
behind_count k = codes "pattern:" ++ to_string (u64 (k * 0xDEADBEEF))

drop-data_pattern : (k : ℕ) → drop 8 (data_pattern k) ≡ to_string k ++ b':' ∷ behind_count k
unfolding data_pattern behind_count
drop-data_pattern k = refl

length-pattern :
    (t u : Bytes)
    → length (codes "zstore1:" ++ (t ++ (codes ":pattern:" ++ u))) ≡ 8 + (length t + (9 + length u))
length-pattern t u = omega (arith, length-append t (codes ":pattern:" ++ u))

length-data_pattern :
    (k : ℕ)
    → length (data_pattern k)
      ≡ 8 + (length (to_string k) + (9 + length (to_string (u64 (k * 0xDEADBEEF)))))
unfolding data_pattern
length-data_pattern k = length-pattern (to_string k) (to_string (u64 (k * 0xDEADBEEF)))

shown : Bytes → ℕ
shown expected = min (length expected) 50

shown-le : (xs : Bytes) → shown xs ≤ 50
unfolding shown
shown-le xs = omega arith

-- From two patterns that agree in the characters compared follows that the counts print alike.
same_count :
    (a b : ℕ)
    → take (shown (data_pattern a)) (data_pattern b)
      ≡ take (shown (data_pattern a)) (data_pattern a)
    → to_string b ≡ to_string a
unfolding shown
same_count a b e =
    digits_before_colon (to_string a) (to_string b) _ (behind_count b) (n - 8) (to_string-IsDigit a)
      (to_string-IsDigit b)
      (cut b
        ∙ ap (drop 8) e
        ∙ sym (cut a)
        ∙ take_past (to_string a) b':' (behind_count a) (n - 8) enough)
  where
    n : ℕ
    n = shown (data_pattern a)

    enough : length (to_string a) < n - 8
    enough = omega (arith, length-data_pattern a, length-to_string a)

    cut :
        (k : ℕ)
        → take (n - 8) (to_string k ++ b':' ∷ behind_count k) ≡ drop 8 (take n (data_pattern k))
    cut k = ap (take (n - 8)) (sym (drop-data_pattern k)) ∙ sym (drop-take 8 n (data_pattern k))

-- A read that returns what another write has stored fails its verification: the counts of two writes
-- differ within the characters that are compared. I/Os are larger than the 50 compared at most.
pub other_write-fails :
    (a b io : ℕ)
    → a < 2 ^ 64
    → b < 2 ^ 64
    → a ≢ b
    → 50 < io
    → is_verified (data_pattern a) (take (io - 1) (data_pattern b)) ≡ false
unfolding is_verified shown
other_write-fails a b io ha hb d r =
    elim (Bool-cases
      (same_text (take n (take (io - 1) (data_pattern b))) (take n (data_pattern a)))) [
        | inl e ↦
            absurd (
              d (sym (to_string_injective b a hb ha (same_count a b (agree (same_text-eq _ _ e))))))
        | inr e ↦ e
      ]
  where
    n : ℕ
    n = shown (data_pattern a)

    below : n ≤ io - 1
    below = omega (arith, shown-le (data_pattern a))

    agree :
        take n (take (io - 1) (data_pattern b)) ≡ take n (data_pattern a)
        → take n (data_pattern b) ≡ take n (data_pattern a)
    agree q = sym (take-take n (io - 1) (data_pattern b) below) ∙ q
