-- ===== src/Leader/Order.antt =====
-- The order of std::string and its sorting, as examples/zookeeper/zkleader.cc uses them.
use mathlib.Core.List.{Memᴰ}
use mathlib.Core.List.Memᴰ.{head, tail}
use zns_emulation_bench.Prelude.{
  ◌≡◌, inl, inr, refl, sym, subst, Bool, true, false, ◌&&◌, ◌||◌, if◌then◌else◌, if_true, if_false,
  Bool-cases, ltb, ◌==◌, List, [], ◌∷◌, All, arith,
}
use zns_emulation_bench.Text.{Bytes, same_text}

-- `operator<`, byte by byte.
unfoldable pub text_lt : Bytes → Bytes → Bool
text_lt xs [] = false
text_lt [] (y ∷ ys) = true
text_lt (x ∷ xs) (y ∷ ys) = ltb x y || (x == y && text_lt xs ys)

unfoldable pub insert : Bytes → List Bytes → List Bytes
unfolding text_lt
insert x [] = x ∷ []
insert x (y ∷ ys) = let rest = insert x ys in if text_lt y x then y ∷ rest else x ∷ y ∷ ys

-- `std::sort`.
unfoldable pub sort : List Bytes → List Bytes
unfolding insert
sort [] = []
sort (x ∷ xs) = insert x (sort xs)

-- Not above.
abbrev pub Le : Bytes → Bytes → Type 0
Le x y = text_lt y x ≡ false

pub Le-refl : (x : Bytes) → Le x x
unfolding text_lt
Le-refl [] = refl
Le-refl (x ∷ xs) = ground (arith, Le-refl xs)

pub Le-trans : (x y z : Bytes) → Le x y → Le y z → Le x z
unfolding text_lt
Le-trans [] y z h k = refl
Le-trans (a ∷ x) [] z h k = absurd (cc)
Le-trans (a ∷ x) (b ∷ y) [] h k = absurd (cc)
Le-trans (a ∷ x) (b ∷ y) (c ∷ z) h k = ground (arith, Le-trans x y z)

pub Le-of_lt : (x y : Bytes) → text_lt x y ≡ true → Le x y
unfolding text_lt
Le-of_lt [] y h = refl
Le-of_lt (a ∷ x) [] h = absurd (cc)
Le-of_lt (a ∷ x) (b ∷ y) h = ground (arith, Le-of_lt x y)

pub Le-antisym : (x y : Bytes) → Le x y → Le y x → x ≡ y
unfolding text_lt
Le-antisym [] [] h k = refl
Le-antisym [] (b ∷ y) h k = absurd (cc)
Le-antisym (a ∷ x) [] h k = absurd (cc)
Le-antisym (a ∷ x) (b ∷ y) h k = ground (arith, Le-antisym x y)

-- Not above, and different.
pub lt_of_Le : (x y : Bytes) → Le x y → same_text x y ≡ false → text_lt x y ≡ true
unfolding text_lt same_text
lt_of_Le [] [] h k = absurd (cc)
lt_of_Le [] (b ∷ y) h k = refl
lt_of_Le (a ∷ x) [] h k = absurd (cc)
lt_of_Le (a ∷ x) (b ∷ y) h k = ground (arith, lt_of_Le x y)

abbrev pub IsSorted : List Bytes → Type 0
IsSorted [] = Unit
IsSorted (x ∷ xs) = All (λ y. Le x y) xs × IsSorted xs

All-Le : (x y : Bytes) (zs : List Bytes) → Le x y → All (λ z. Le y z) zs → All (λ z. Le x z) zs
All-Le x y [] h k = tt
All-Le x y (z ∷ zs) h k = (Le-trans x y z h k.0, All-Le x y zs h k.1)

All-insert :
    (P : Bytes → Type 0) (x : Bytes) (ys : List Bytes) → P x → All P ys → All P (insert x ys)
unfolding insert
All-insert P x [] p h = (p, tt)
All-insert P x (y ∷ ys) p h = elim (Bool-cases (text_lt y x)) [
  | inl e ↦ subst (All P) (sym (if_true _ _ e)) (h.0, All-insert P x ys p h.1)
  | inr e ↦ subst (All P) (sym (if_false _ _ e)) (p, h)
]

insert-IsSorted : (x : Bytes) (ys : List Bytes) → IsSorted ys → IsSorted (insert x ys)
unfolding insert
insert-IsSorted x [] h = (tt, tt)
insert-IsSorted x (y ∷ ys) h = elim (Bool-cases (text_lt y x)) [
  | inl e ↦
      subst IsSorted (sym (if_true _ _ e))
        (All-insert (λ z. Le y z) x ys (Le-of_lt y x e) h.0, insert-IsSorted x ys h.1)
  | inr e ↦ subst IsSorted (sym (if_false _ _ e)) ((e, All-Le x y ys e h.0), h)
]

pub sort-IsSorted : (xs : List Bytes) → IsSorted (sort xs)
unfolding sort
sort-IsSorted [] = tt
sort-IsSorted (x ∷ xs) = insert-IsSorted x (sort xs) (sort-IsSorted xs)

Memᴰ-insert : (x : Bytes) (ys : List Bytes) {z : Bytes} → Memᴰ z (insert x ys) → Memᴰ z (x ∷ ys)
unfolding insert
Memᴰ-insert x [] i = i
Memᴰ-insert x (y ∷ ys) {z} i = elim (Bool-cases (text_lt y x)) [
  | inl e ↦ elim (subst (Memᴰ z) (if_true _ _ e) i) [
    | head q ↦ tail (head q)
    | tail j ↦ elim (Memᴰ-insert x ys j) [ head q ↦ head q | tail k ↦ tail (tail k) ]
  ]
  | inr e ↦ subst (Memᴰ z) (if_false _ _ e) i
]

insert-Memᴰ : (x : Bytes) (ys : List Bytes) {z : Bytes} → Memᴰ z (x ∷ ys) → Memᴰ z (insert x ys)
unfolding insert
insert-Memᴰ x [] i = i
insert-Memᴰ x (y ∷ ys) {z} i = elim (Bool-cases (text_lt y x)) [
  | inl e ↦ subst (Memᴰ z) (sym (if_true _ _ e)) (elim i [
    | head q ↦ tail (insert-Memᴰ x ys (head q))
    | tail j ↦ elim j [ head q ↦ head q | tail k ↦ tail (insert-Memᴰ x ys (tail k)) ]
  ])
  | inr e ↦ subst (Memᴰ z) (sym (if_false _ _ e)) i
]

-- Sorting keeps the elements.
pub Memᴰ-sort : (xs : List Bytes) {z : Bytes} → Memᴰ z (sort xs) → Memᴰ z xs
unfolding sort
Memᴰ-sort [] i = i
Memᴰ-sort (x ∷ xs) i = elim (Memᴰ-insert x (sort xs) i) [
  | head q ↦ head q
  | tail j ↦ tail (Memᴰ-sort xs j)
]

pub sort-Memᴰ : (xs : List Bytes) {z : Bytes} → Memᴰ z xs → Memᴰ z (sort xs)
unfolding sort
sort-Memᴰ [] i = i
sort-Memᴰ (x ∷ xs) (head q) = insert-Memᴰ x (sort xs) (head q)
sort-Memᴰ (x ∷ xs) (tail j) = insert-Memᴰ x (sort xs) (tail (sort-Memᴰ xs j))
