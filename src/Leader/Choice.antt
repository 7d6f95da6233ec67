-- ===== src/Leader/Choice.antt =====
-- Who is the leader in examples/zookeeper/zkleader.cc, and whom the others watch.
use mathlib.Core.List.{Memᴰ}
use mathlib.Core.List.Memᴰ.{head, tail}
use zns_emulation_bench.Prelude.{
  ◌≤◌, ◌≡◌, ◌⊎◌, inl, inr, refl, sym, ap, subst, ◌∙◌, true, false, if_true, if_false, Bool-cases,
  ltb, none, some, List, [], ◌∷◌, All, All-Memᴰ, get_elem?, length, arith, pos,
}
use zns_emulation_bench.Text.{Bytes, same_text, same_text_refl, same_text-eq}
use zns_emulation_bench.Leader.{
  Election, leader, watches, find, previous, own_name, decide, elect, path_of, out_of_range,
  check_leadership,
}
use zns_emulation_bench.Leader.Order.{
  text_lt, sort, Le, Le-refl, Le-antisym, lt_of_Le, IsSorted, sort-IsSorted, Memᴰ-sort, sort-Memᴰ,
}

-- `p` is the nearest name below `own`.
pub record IsPredecessor (own p : Bytes) (names : List Bytes) : Type 0 where
  pub is_name : Memᴰ p names
  pub is_below : text_lt p own ≡ true
  pub is_nearest : All (λ x. text_lt x own ≡ true → Le x p) names

behind_head :
    (own z : Bytes) (zs : List Bytes) → Memᴰ own (z ∷ zs) → same_text z own ≡ false → Memᴰ own zs
behind_head own z zs (head q) e =
    let t = ap (λ x. same_text x own) q ∙ e in let u = same_text_refl own in absurd (cc)
behind_head own z zs (tail i) e = i

none_below :
    (own : Bytes) (xs : List Bytes) (p : Bytes)
    → All (λ x. Le own x) xs
    → All (λ x. text_lt x own ≡ true → Le x p) xs
none_below own [] p h = tt
none_below own (x ∷ xs) p h = ((λ t. absurd (cc)), none_below own xs p h.1)

-- The element before the place of `own` in a sorted list that starts below it.
before_own :
    (own y : Bytes) (ys : List Bytes)
    → IsSorted (y ∷ ys)
    → Memᴰ own ys
    → same_text y own ≡ false
    → (p : Bytes) × (get_elem? (y ∷ ys) (find own ys) ≡ some p) × IsPredecessor own p (y ∷ ys)
unfolding find
before_own own y [] s i e = elim i [ ]
before_own own y (z ∷ zs) s i e = elim (Bool-cases (same_text z own)) [
  | inl t ↦
      let q = same_text-eq z own t in
      (
        y,
        ap (get_elem? (y ∷ z ∷ zs)) (if_true _ _ t),
        record {
          is_name = head refl;
          is_below = lt_of_Le y own (subst (Le y) q s.0.0) e;
          is_nearest = (
            (λ u. Le-refl y),
            none_below own (z ∷ zs) y
                (subst (λ o. All (λ x. Le o x) (z ∷ zs)) q (Le-refl z, s.1.0)),
          );
        },
      )
  | inr t ↦
      let (p, g, k) = before_own own z zs s.1 (behind_head own z zs i t) t in
      (
        p,
        ap (get_elem? (y ∷ z ∷ zs)) (if_false _ _ t) ∙ g,
        record {
          is_name = tail k.is_name;
          is_below = k.is_below;
          is_nearest = ((λ u. All-Memᴰ (λ x. Le y x) (z ∷ zs) s.0 k.is_name), k.is_nearest);
        },
      )
]

-- The decision on a sorted list that has the client's own name.
sorted_choice :
    (own : Bytes) (ys : List Bytes)
    → IsSorted ys
    → Memᴰ own ys
    → ((previous (find own ys) ys ≡ none) × All (λ x. Le own x) ys)
      ⊎ ((p : Bytes) × (previous (find own ys) ys ≡ some p) × IsPredecessor own p ys)
unfolding find previous
sorted_choice own [] s i = elim i [ ]
sorted_choice own (y ∷ ys) s i = elim (Bool-cases (same_text y own)) [
  | inl t ↦
      let q = same_text-eq y own t in
      inl (
        ap (λ n. previous n (y ∷ ys)) (if_true _ _ t),
        subst (λ o. All (λ x. Le o x) (y ∷ ys)) q (Le-refl y, s.0),
      )
  | inr t ↦
      let (p, g, k) = before_own own y ys s (behind_head own y ys i t) t in
      inr (p, ap (λ n. previous n (y ∷ ys)) (if_false _ _ t) ∙ g, k)
]

All-of : {P : Bytes → Type 0} (xs : List Bytes) → ((x : Bytes) → Memᴰ x xs → P x) → All P xs
All-of [] f = tt
All-of (x ∷ xs) f = (f x (head refl), All-of xs (λ y i. f y (tail i)))

-- Whatever the order of the children, a client whose own node is among them either has the least name,
-- and is the leader; or it watches the child with the greatest of the names below its own. The path of
-- its node is as long as that of the election, at least.
pub check_leadership-chooses :
    (children : List Bytes) (e : Election)
    → 10 ≤ length e.current_node
    → Memᴰ (own_name e) children
    → ((check_leadership (pos 0) children e ≡ (e, leader)) × All (λ x. Le (own_name e) x) children)
      ⊎ ((p : Bytes) × (check_leadership (pos 0) children e
            ≡ (record e { predecessor_node = path_of p }, watches (path_of p)))
          × IsPredecessor (own_name e) p children)
unfolding check_leadership decide
check_leadership-chooses children e h i =
    elim (sorted_choice (own_name e) (sort children) (sort-IsSorted children)
      (sort-Memᴰ children i)) [
        | inl (q, a) ↦ inl (
          long ∙ ap (elect e) q,
          All-of {P = λ x. Le (own_name e) x} children
              (λ x j. All-Memᴰ (λ y. Le (own_name e) y) (sort children) a (sort-Memᴰ children j)),
        )
        | inr (p, q, k) ↦ inr (
          p,
          long ∙ ap (elect e) q,
          record {
            is_name = Memᴰ-sort children k.is_name;
            is_below = k.is_below;
            is_nearest = All-of {P = λ x. text_lt x (own_name e) ≡ true → Le x p} children (λ x j.
                All-Memᴰ (λ y. text_lt y (own_name e) ≡ true → Le y p) (sort children) k.is_nearest
                  (sort-Memᴰ children j));
          },
        )
      ]
  where
    long :
        check_leadership (pos 0) children e
        ≡ elect e (previous (find (own_name e) (sort children)) (sort children))
    long =
        if_false {b = ltb (length e.current_node) 10} (e, out_of_range) (decide (sort children) e)
          (ground (arith, h))

least :
    (children : List Bytes) (e : Election)
    → 10 ≤ length e.current_node
    → Memᴰ (own_name e) children
    → (check_leadership (pos 0) children e).1 ≡ leader
    → (x : Bytes) → Memᴰ x children
    → Le (own_name e) x
least children e h i l x j = elim (check_leadership-chooses children e h i) [
  | inl (q, a) ↦ All-Memᴰ (λ y. Le (own_name e) y) children a j
  | inr (p, q, k) ↦ let t = sym (ap (λ r. r.1) q) ∙ l in absurd (cc)
]

-- Two clients whose nodes are both among the children, and that are both leaders by that list, in
-- whatever order each of them gets it, have the same node.
pub one_leader :
    (children children' : List Bytes) (e e' : Election)
    → ((x : Bytes) → Memᴰ x children → Memᴰ x children')
    → ((x : Bytes) → Memᴰ x children' → Memᴰ x children)
    → 10 ≤ length e.current_node
    → 10 ≤ length e'.current_node
    → Memᴰ (own_name e) children
    → Memᴰ (own_name e') children'
    → (check_leadership (pos 0) children e).1 ≡ leader
    → (check_leadership (pos 0) children' e').1 ≡ leader
    → own_name e ≡ own_name e'
one_leader children children' e e' f g h h' i i' l l' =
    Le-antisym (own_name e) (own_name e') (least children e h i l (own_name e') (g _ i'))
      (least children' e' h' i' l' (own_name e) (f _ i))
