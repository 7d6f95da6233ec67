-- ===== src/Prelude/Words.antt =====
-- Machine integers: unsigned words keep their wrap-around, and a C `int` is an integer.
use Prim.Native.Nat.{ℕ, ◌+◌, ◌-◌, ◌%◌, ◌^◌}
use mathlib.Core.Bool.{Bool, true, false}
use zns_emulation_bench.Prelude.Tests.{ltb, if◌then◌else◌}

abbrev pub u8 : ℕ → ℕ
u8 n = n % 2 ^ 8

abbrev pub u32 : ℕ → ℕ
u32 n = n % 2 ^ 32

abbrev pub u64 : ℕ → ℕ
u64 n = n % 2 ^ 64

-- `x--` on a `uint64_t`.
abbrev pub dec64 : ℕ → ℕ
dec64 n = u64 (n + 2 ^ 64 - 1)

-- `negsuc n` is -(n + 1).
pub data ℤ : Type 0 where
  pos : ℕ → ℤ
  negsuc : ℕ → ℤ

abbrev pub pos_part : ℤ → ℕ
pos_part (pos n) = n
pos_part (negsuc n) = 0

abbrev pub is_negative : ℤ → Bool
is_negative (pos n) = false
is_negative (negsuc n) = true

-- A `long` that is not negative, stored in an `int`.
abbrev pub int32 : ℕ → ℤ
int32 n = let low = u32 n in if ltb low (2 ^ 31) then pos low else negsuc (2 ^ 32 - low - 1)

-- An `int` read as a `uint32_t`.
abbrev pub bits32 : ℤ → ℕ
bits32 (pos n) = u32 n
bits32 (negsuc n) = 2 ^ 32 - 1 - u32 n

-- An `int` widened to a `uint64_t`.
abbrev pub bits64 : ℤ → ℕ
bits64 (pos n) = u64 n
bits64 (negsuc n) = 2 ^ 64 - 1 - u64 n
