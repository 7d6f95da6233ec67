-- ===== src/Text.antt =====
-- Texts as lists of bytes: string literals, `std::to_string`, and `==` of std::string.
pub mod Decimal
pub mod Tests
use Prim.Native.String.{String}
use Prim.Native.Char.{code}
use zns_emulation_bench.Prelude.{
  ℕ, zero, suc, ◌+◌, ◌/◌, ◌%◌, ◌≡◌, refl, Bool, true, false, ◌&&◌, ◌||◌, ◌^◌, min, if◌then◌else◌,
  ◌==◌, List, [], ◌∷◌, arith, ltb, leb, ◌-◌, ◌*◌,
}

abbrev pub Bytes : Type 0
Bytes = List ℕ

abbrev pub codes : String → Bytes
codes String.[] = []
codes (String.◌∷◌ c s) = code c ∷ codes s

-- `std::to_string` of a `uint64_t`, which has at most 20 digits.
unfoldable pub digits_onto : ℕ → ℕ → Bytes → Bytes
digits_onto zero n rest = rest
digits_onto (suc fuel) n rest =
    let shown = (b'0' + n % 10) ∷ rest in
    let more = digits_onto fuel (n / 10) shown in if n / 10 == 0 then shown else more

unfoldable pub to_string : ℕ → Bytes
unfolding digits_onto
to_string n = digits_onto 20 n []

-- `operator==` on texts.
unfoldable pub same_text : Bytes → Bytes → Bool
same_text [] [] = true
same_text (x ∷ xs) (y ∷ ys) = x == y && same_text xs ys
same_text [] (y ∷ ys) = false
same_text (x ∷ xs) [] = false

pub same_text_refl : (xs : Bytes) → same_text xs xs ≡ true
unfolding same_text
same_text_refl [] = refl
same_text_refl (x ∷ xs) = ground (arith, same_text_refl xs)

pub same_text-eq : (xs ys : Bytes) → same_text xs ys ≡ true → xs ≡ ys
unfolding same_text
same_text-eq [] [] e = refl
same_text-eq [] (y ∷ ys) e = cc
same_text-eq (x ∷ xs) [] e = cc
same_text-eq (x ∷ xs) (y ∷ ys) e = ground (arith, same_text-eq xs ys)

abbrev pub is_digit : ℕ → Bool
is_digit c = leb b'0' c && leb c b'9'

unfoldable pub digits : ℕ → Bytes → ℕ
digits acc [] = acc
digits acc (c ∷ cs) =
    let more = digits (acc * 10 + (c - b'0')) cs in if is_digit c then more else acc

-- An `int` is kept as its distance from INT_MIN, which keeps the order; this is 0.
abbrev pub int_zero : ℕ
int_zero = 2 ^ 31

-- What `%d` stores for digits behind a sign, or behind none: `strtol` stops at the bounds of `long`, and
-- the lower 32 bits go into the `int`.
abbrev pub to_int : Bool → ℕ → ℕ
to_int false n = (min n (2 ^ 63 - 1) + int_zero) % 2 ^ 32
to_int true n = (2 ^ 63 - n + int_zero) % 2 ^ 32

abbrev pub is_space : ℕ → Bool
is_space c = c == b' ' || (leb 9 c && leb c 13)

unfoldable pub scan_digits : Bool → Bytes → ℕ → ℕ
unfolding digits
scan_digits negative [] v = v
scan_digits negative (c ∷ cs) v = if is_digit c then to_int negative (digits 0 (c ∷ cs)) else v

unfoldable pub scan_sign : Bytes → ℕ → ℕ
unfolding scan_digits
scan_sign [] v = v
scan_sign (c ∷ cs) v =
    if c == b'-'
    then scan_digits true cs v
    else if c == b'+'
    then scan_digits false cs v
    else scan_digits false (c ∷ cs) v

-- `sscanf(text, "%d", &v)`, which skips white space, and leaves `v` alone where no number follows.
unfoldable pub sscanf_d : Bytes → ℕ → ℕ
unfolding scan_sign
sscanf_d [] v = v
sscanf_d (c ∷ cs) v = let more = sscanf_d cs v in if is_space c then more else scan_sign (c ∷ cs) v
