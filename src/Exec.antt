-- ===== src/Exec.antt =====
-- How a call of the benchmark programs ends: with a result, in `exit(code)`, or still polling when
-- the device has nothing more to report.
use zns_emulation_bench.Prelude.{Bool, true, false, if◌then◌else◌}

pub data Exec {ℓ} (A : Type ℓ) : Type ℓ where
  done : A → Exec A
  exited : A → Exec A
  waiting : A → Exec A

infixl 5 ◌>>=◌
abbrev pub ◌>>=◌ {ℓ} : {A : Type ℓ} → Exec A → (A → Exec A) → Exec A
done a >>= f = f a
exited a >>= f = exited a
waiting a >>= f = waiting a

-- The state in which a call ended, whichever way.
abbrev pub final {ℓ} : {A : Type ℓ} → Exec A → A
final (done a) = a
final (exited a) = a
final (waiting a) = a

-- A property of the final state that every step keeps is kept by a sequence.
pub final->>= {ℓ κ} :
    {A : Type ℓ} (P : A → Type κ) (m : Exec A) (f : A → Exec A)
    → P (final m)
    → ((a : A) → P a → P (final (f a)))
    → P (final (m >>= f))
final->>= P (done a) f h k = k a h
final->>= P (exited a) f h k = h
final->>= P (waiting a) f h k = h

-- What holds of the final state of both branches of a conditional.
pub final-if {ℓ κ} :
    {A : Type ℓ} (P : A → Type κ) (b : Bool) (m n : Exec A)
    → P (final m)
    → P (final n)
    → P (final (if b then m else n))
final-if P true m n h k = h
final-if P false m n h k = k

-- A property of the result, if there is one.
abbrev pub OnDone {ℓ κ} : {A : Type ℓ} → (A → Type κ) → Exec A → Type κ
OnDone P (done a) = P a
OnDone P (exited a) = Unit
OnDone P (waiting a) = Unit
