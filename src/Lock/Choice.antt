-- ===== src/Lock/Choice.antt =====
-- The node that zk_get_children_lock_res1 of examples/zookeeper/zklock.cc watches.
use mathlib.Core.List.{Memᴰ}
use mathlib.Core.List.Memᴰ.{head, tail}
use zns_emulation_bench.Prelude.{
  ℕ, zero, suc, ◌<◌, ◌≤◌, ◌≡◌, ◌⊎◌, inl, inr, refl, sym, ap, subst, ◌∙◌, Bool, Bool-cases, some,
  List, [], ◌∷◌, ◌++◌, All, arith, ltb, not, ◌||◌, ◌&&◌, ◌==◌, pos,
}
use zns_emulation_bench.Text.{sscanf_d, Bytes}
use zns_emulation_bench.Lock.{
  Mutex, Scan, scan_child, scan_children, first_scan, conclude, zk_get_children_lock_res1,
  delete_node, exists_node, lock_path,
}

-- The number in a name.
abbrev pub number : Bytes → ℕ
number name = sscanf_d name 0

-- A name that starts with a number.
abbrev pub IsNumeric : Bytes → Type 0
IsNumeric name = (v : ℕ) → sscanf_d name v ≡ number name

-- The loop has found a node with the client's own number.
abbrev HasOwn : ℕ → Scan → Type 0
HasOwn me s = (name : Bytes) × (s.value_self ≡ some name) × (number name ≡ me)

-- How the variables of the loop are before and after it has gone over some names.
record Passes (me : ℕ) (names : List Bytes) (s r : Scan) : Type 0 where
  grows : 0 < s.n → (0 < r.n × s.seq_watch ≤ r.seq_watch)
  below : (0 < s.n → s.seq_watch < me) → 0 < r.n → r.seq_watch < me
  nearest : 0 < r.n → All (λ x. number x < me → number x ≤ r.seq_watch) names
  least : r.n ≡ 0 → (s.n ≡ 0 × All (λ x. me ≤ number x) names)
  kept : HasOwn me s → HasOwn me r
  own : (x : Bytes) → Memᴰ x names → number x ≡ me → HasOwn me r
  seen :
      0 < r.n
      → (0 < s.n × (r.value_other ≡ s.value_other) × (r.seq_watch ≡ s.seq_watch))
        ⊎ ((name : Bytes) × (r.value_other ≡ some name)
            × (number name ≡ r.seq_watch)
            × Memᴰ name names)

scan_child-Passes :
    (me : ℕ) (x : Bytes) (s : Scan) → IsNumeric x → Passes me (x ∷ []) s (scan_child me x s)
unfolding scan_child
scan_child-Passes me x s k = record {
  grows = λ h. ground (arith, k s.v);
  below = λ b h. ground (arith, k s.v, b);
  nearest = λ h. ground (arith, k s.v);
  least = λ e. ground (arith, k s.v);
  kept = λ (y, e, f). elim (Bool-cases own_here) [
    | inl o ↦ (x, ground (arith, o), ground (arith, o, k s.v))
    | inr o ↦ (y, ground (arith, o, e), f)
  ];
  own = λ (y : Bytes) i f. let q = f' y i f in (x, ground (arith, q, k s.v), q);
  seen = λ h.
      elim (Bool-cases
        (ltb (sscanf_d x s.v) me && (s.n == 0 || ltb s.seq_watch (sscanf_d x s.v)))) [
          | inl e ↦ inr (x, ground (arith, e), ground (arith, e, k s.v), head refl)
          | inr e ↦ inl (ground (arith, e), ground (arith, e), ground (arith, e))
        ];
}
  where
    own_here : Bool
    own_here = not (ltb (sscanf_d x s.v) me) && sscanf_d x s.v == me

    f' : (y : Bytes) → Memᴰ y (x ∷ []) → number y ≡ me → number x ≡ me
    f' y (head e) f = ap number (sym e) ∙ f
    f' y (tail i) f = elim i [ ]

pub zero_or_pos : (n : ℕ) → (n ≡ 0) ⊎ (0 < n)
zero_or_pos zero = inl refl
zero_or_pos (suc n) = inr (omega arith)

Memᴰ-cons : {a x : Bytes} (xs : List Bytes) → Memᴰ a (x ∷ []) → Memᴰ a (x ∷ xs)
Memᴰ-cons xs (head e) = head e
Memᴰ-cons xs (tail i) = elim i [ ]

Passes-cons :
    (me : ℕ) (x : Bytes) (xs : List Bytes) (s m r : Scan)
    → Passes me (x ∷ []) s m
    → Passes me xs m r
    → Passes me (x ∷ xs) s r
Passes-cons me x xs s m r one rest = record {
  grows = λ h. let g = one.grows h in let g' = rest.grows g.0 in (g'.0, omega (arith, g.1, g'.1));
  below = λ b h. rest.below (one.below b) h;
  nearest = λ h. (first h, rest.nearest h);
  least = λ e. let l = rest.least e in ((one.least l.0).0, ((one.least l.0).1.0, l.1));
  kept = λ h. rest.kept (one.kept h);
  own = λ y i f. found y i f;
  seen = λ h. elim (rest.seen h) [
    | inl (p, o, w) ↦ elim (one.seen p) [
      | inl (p', o', w') ↦ inl (p', o ∙ o', w ∙ w')
      | inr (name, o', k, i) ↦ inr (name, o ∙ o', k ∙ sym w, Memᴰ-cons xs i)
    ]
    | inr (name, o, k, i) ↦ inr (name, o, k, tail i)
  ];
}
  where
    found : (y : Bytes) → Memᴰ y (x ∷ xs) → number y ≡ me → HasOwn me r
    found y (head e) f = rest.kept (one.own x (head refl) (ap number (sym e) ∙ f))
    found y (tail i) f = rest.own y i f

    first : 0 < r.n → number x < me → number x ≤ r.seq_watch
    first h b = elim (zero_or_pos m.n) [
      | inl e ↦ absurd (omega (arith, b, (one.least e).1.0))
      | inr p ↦ omega (arith, (one.nearest p).0 b, (rest.grows p).1)
    ]

scan_children-Passes :
    (me : ℕ) (names : List Bytes) (s : Scan)
    → All IsNumeric names
    → Passes me names s (scan_children me names s)
unfolding scan_children
scan_children-Passes me [] s k = record {
  grows = λ h. (h, omega arith);
  below = λ b h. b h;
  nearest = λ h. tt;
  least = λ e. (e, tt);
  kept = λ h. h;
  own = λ x i f. elim i [ ];
  seen = λ h. inl (h, refl, refl);
}
scan_children-Passes me (x ∷ xs) s k =
    Passes-cons me x xs s (scan_child me x s) _ (scan_child-Passes me x s k.0)
      (scan_children-Passes me xs (scan_child me x s) k.1)

pub scan_children-least :
    (junk me : ℕ) (names : List Bytes) (m : Mutex)
    → All IsNumeric names
    → (scan_children me names (first_scan junk m)).n ≡ 0
    → All (λ x. me ≤ number x) names
scan_children-least junk me names m k e =
    ((scan_children-Passes me names (first_scan junk m) k).least e).1

-- `value_self` is only ever the name of a node with the client's own number.
abbrev pub IsOwn : ℕ → Scan → Type 0
IsOwn me s = (x : Bytes) → s.value_self ≡ some x → number x ≡ me

scan_child-IsOwn :
    (me : ℕ) (x : Bytes) (s : Scan) → IsNumeric x → IsOwn me s → IsOwn me (scan_child me x s)
unfolding scan_child
scan_child-IsOwn me x s k h y e = ground (arith, k s.v, h y)

pub scan_children-IsOwn :
    (me : ℕ) (names : List Bytes) (s : Scan)
    → All IsNumeric names
    → IsOwn me s
    → IsOwn me (scan_children me names s)
unfolding scan_children
scan_children-IsOwn me [] s k h = h
scan_children-IsOwn me (x ∷ xs) s k h =
    scan_children-IsOwn me xs (scan_child me x s) k.1 (scan_child-IsOwn me x s k.0 h)

-- What a client does with the names of the children, if all start with a number and its own node is
-- among them: either no number is below its own, and it takes the lock, deleting a node with its own
-- number; or it watches the child with the greatest of the numbers below its own.
pub zk_get_children_lock_res1-chooses :
    (junk : ℕ) (names : List Bytes) (own : Bytes) (m : Mutex)
    → All IsNumeric names
    → Memᴰ own names
    → number own ≡ m.seq_me
    → ((name : Bytes) × ((zk_get_children_lock_res1 junk (pos 0) names m).1
          ≡ delete_node (some name))
        × (number name ≡ m.seq_me)
        × All (λ x. m.seq_me ≤ number x) names)
      ⊎ ((name : Bytes) × (zk_get_children_lock_res1 junk (pos 0) names m ≡ (
        record m { seq_watch = number name; watch = lock_path ++ name },
        exists_node (some name),
      ))
          × Memᴰ name names
          × (number name < m.seq_me)
          × All (λ x. number x < m.seq_me → number x ≤ number name) names)
unfolding zk_get_children_lock_res1 conclude
zk_get_children_lock_res1-chooses junk names own m k j f = elim (zero_or_pos r.n) [
  | inl e ↦
      let (name, o, q) = passes.own own j f in
      inl (name, ground (arith, e, o), q, (passes.least e).1)
  | inr p ↦ elim (passes.seen p) [
    | inl (q, _, _) ↦ absurd (omega (arith, q))
    | inr (name, o, w, i) ↦ inr (
      name,
      ground (arith, p, o, w),
      i,
      omega (arith, w, passes.below (λ q. absurd (omega (arith, q))) p),
      subst (λ z. All (λ x. number x < m.seq_me → number x ≤ z) names) (sym w) (passes.nearest p),
    )
  ]
]
  where
    r : Scan
    r = scan_children m.seq_me names (first_scan junk m)

    passes : Passes m.seq_me names (first_scan junk m) r
    passes = scan_children-Passes m.seq_me names (first_scan junk m) k
