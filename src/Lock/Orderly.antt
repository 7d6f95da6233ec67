-- ===== src/Lock/Orderly.antt =====
-- What the callbacks of examples/zookeeper/zklock.cc keep true of a client's tasks.
use mathlib.Core.List.{Memᴰ}
use zns_emulation_bench.Prelude.{
  ℕ, zero, suc, ◌^◌, ◌<◌, ◌≤◌, ◌≡◌, ◌⊎◌, inl, inr, sym, subst, if_true, if_false, Bool, Bool-cases,
  ltb, ◌==◌, List, [], ◌∷◌, ◌++◌, ℤ, pos, negsuc, All, All-Memᴰ, arith,
}
use zns_emulation_bench.Text.{int_zero, sscanf_d, Bytes, same_text}
use zns_emulation_bench.Lock.{
  Mutex, Scan, Request, lock_path, behind, scan_children, first_scan, conclude,
  zk_create_lock_res1_es, zk_get_children_lock_res1, zk_watcher_disconnect,
}
use zns_emulation_bench.Lock.Choice.{number, IsNumeric, scan_children-least}
use zns_emulation_bench.Lock.Protocol.{
  sequence, Task, listing, listed, asking, watching, deleting, requested, Client, System, put,
}

nat_cases : (k n : ℕ) → (k < n) ⊎ (n ≤ k)
nat_cases k n = elim (Bool-cases (ltb k n)) [
  | inl e ↦ inl (ground (arith, e))
  | inr e ↦ inr (ground (arith, e))
]

-- No node that exists is before the client's, whose sequence number has not overflowed.
abbrev pub IsLeast : List ℕ → ℕ → Type 0
IsLeast nodes n = n < 2 ^ 31 → (k : ℕ) → Memᴰ k nodes → n ≤ k

-- What is known of a task of the client of the node `n`, `nodes` being those that exist: a list has every
-- node before the client's that still exists, and who has taken the lock with the number of its own node
-- is the least.
abbrev pub IsGood : List ℕ → ℕ → Task → Type 0
IsGood nodes n listing = Unit
IsGood nodes n (listed xs) =
    All IsNumeric xs
    × ((k : ℕ) → Memᴰ k nodes → k < n → (x : Bytes) × Memᴰ x xs × (number x ≡ sequence k))
IsGood nodes n (asking path) = Unit
IsGood nodes n (watching path) = Unit
IsGood nodes n (deleting me o) = me ≡ sequence n → IsLeast nodes n

abbrev pub AllGood : List ℕ → ℕ → List Task → Type 0
AllGood nodes n ts = All (IsGood nodes n) ts

-- New nodes come behind.
pub IsGood-later :
    (nodes nodes' : List ℕ) (n : ℕ) (t : Task)
    → ((k : ℕ) → Memᴰ k nodes' → Memᴰ k nodes ⊎ (n < k))
    → IsGood nodes n t
    → IsGood nodes' n t
IsGood-later nodes nodes' n listing f g = tt
IsGood-later nodes nodes' n (listed xs) f g =
    (g.0, (λ k i h. elim (f k i) [ inl j ↦ g.1 k j h | inr l ↦ absurd (omega (arith, h, l)) ]))
IsGood-later nodes nodes' n (asking path) f g = tt
IsGood-later nodes nodes' n (watching path) f g = tt
IsGood-later nodes nodes' n (deleting me o) f g =
    λ e b k i. elim (f k i) [ inl j ↦ g e b k j | inr l ↦ omega (arith, l) ]

pub AllGood-later :
    (nodes nodes' : List ℕ) (n : ℕ) (ts : List Task)
    → ((k : ℕ) → Memᴰ k nodes' → Memᴰ k nodes ⊎ (n < k))
    → AllGood nodes n ts
    → AllGood nodes' n ts
AllGood-later nodes nodes' n [] f g = tt
AllGood-later nodes nodes' n (t ∷ ts) f g =
    (IsGood-later nodes nodes' n t f g.0, AllGood-later nodes nodes' n ts f g.1)

pub record IsOrderly (s : System) : Type 0 where
  pub named :
      (n : ℕ) → n < s.next → (IsNumeric (s.client n).name × (number (s.client n).name ≡ sequence n))
  pub below : (k : ℕ) → Memᴰ k s.nodes → k < s.next
  pub good : (n : ℕ) → n < s.next → AllGood s.nodes n (s.client n).tasks

-- A client that moves on, and stays good, keeps the system orderly.
pub put-IsOrderly :
    (s : System) (n : ℕ) (m : Mutex) (is_new : Bool) (ts : List Task)
    → n < s.next
    → IsOrderly s
    → AllGood s.nodes n ts
    → IsOrderly
        (put n (record { name = (s.client n).name; mutex = m; is_new = is_new; tasks = ts }) s)
put-IsOrderly s n m is_new ts h o g = record {
  named = λ k l. elim (Bool-cases (k == n)) [
    | inl e ↦
        subst (λ (c : Client). IsNumeric c.name × (number c.name ≡ sequence k))
          (sym (if_true _ _ e))
          (subst (λ j. IsNumeric (s.client n).name × (number (s.client n).name ≡ sequence j))
            (ground (arith, e)) (o.named n h))
    | inr e ↦
        subst (λ (c : Client). IsNumeric c.name × (number c.name ≡ sequence k))
          (sym (if_false _ _ e)) (o.named k l)
  ];
  below = o.below;
  good = λ k l. elim (Bool-cases (k == n)) [
    | inl e ↦
        subst (λ (c : Client). AllGood s.nodes k c.tasks) (sym (if_true _ _ e))
          (subst (λ j. AllGood s.nodes j ts) (ground (arith, e)) g)
    | inr e ↦ subst (λ (c : Client). AllGood s.nodes k c.tasks) (sym (if_false _ _ e)) (o.good k l)
  ];
}

-- What a callback asks for is good.
abbrev pub Asks : List ℕ → ℕ → Mutex × Request → Type 0
Asks nodes n q = AllGood nodes n (requested q.0 q.1)

-- What the list of the children makes a client do.
pub list_callback-Asks :
    (nodes : List ℕ) (n junk : ℕ) (rc : ℤ) (xs : List Bytes) (m : Mutex)
    → IsGood nodes n (listed xs)
    → Asks nodes n (zk_get_children_lock_res1 junk rc xs m)
unfolding zk_get_children_lock_res1 conclude
list_callback-Asks nodes n junk (negsuc rc) xs m g = tt
list_callback-Asks nodes n junk (pos (suc rc)) xs m g = tt
list_callback-Asks nodes n junk (pos zero) xs m g = elim (Bool-cases (r.n == 0)) [
  | inl e ↦ subst (Asks nodes n) (sym (if_true _ _ e)) (first (ground (arith, e)), tt)
  | inr e ↦ subst (Asks nodes n) (sym (if_false _ _ e)) (tt, tt)
]
  where
    r : Scan
    r = scan_children m.seq_me xs (first_scan junk m)

    first : r.n ≡ 0 → m.seq_me ≡ sequence n → IsLeast nodes n
    first e me b k i = elim (nat_cases k n) [
      | inl l ↦
          let (x, j, q) = g.1 k i l in
          absurd (
            omega (
              arith,
              l,
              q,
              me,
              b,
              All-Memᴰ (λ x. m.seq_me ≤ number x) xs (scan_children-least junk m.seq_me xs m g.0 e)
                  j,
            ))
      | inr l ↦ l
    ]

pub create_callback-Asks :
    (nodes : List ℕ) (n junk : ℕ) (rc : ℤ) (name : Bytes) (m : Mutex)
    → Asks nodes n (zk_create_lock_res1_es junk rc (lock_path ++ name) m)
unfolding zk_create_lock_res1_es behind
create_callback-Asks nodes n junk (negsuc rc) name m = tt
create_callback-Asks nodes n junk (pos (suc rc)) name m = tt
create_callback-Asks nodes n junk (pos zero) name m =
    elim (Bool-cases (ltb int_zero (sscanf_d name junk))) [
      | inl t ↦ subst (Asks nodes n) (sym (if_true _ _ t)) (tt, tt)
      | inr t ↦
          subst (Asks nodes n) (sym (if_false _ _ t)) ((λ e b k i. ground (arith, t, e, b)), tt)
    ]

pub watcher-Asks :
    (nodes : List ℕ) (n : ℕ) (path : Bytes) (m : Mutex)
    → Asks nodes n (m, zk_watcher_disconnect path m)
unfolding zk_watcher_disconnect
watcher-Asks nodes n path m = elim (Bool-cases (same_text m.watch path)) [
  | inl t ↦ subst (λ (q : Request). Asks nodes n (m, q)) (sym (if_true _ _ t)) (tt, tt)
  | inr t ↦ subst (λ (q : Request). Asks nodes n (m, q)) (sym (if_false _ _ t)) tt
]

-- One task among the others.
pub All-parts :
    (P : Task → Type 0) (before after : List Task) (t : Task)
    → All P (before ++ t ∷ after)
    → All P before × P t × All P after
All-parts P [] after t g = (tt, g.0, g.1)
All-parts P (b ∷ before) after t g =
    let (x, y, z) = All-parts P before after t g.1 in ((g.0, x), y, z)
