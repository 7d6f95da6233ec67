-- ===== src/Lock/Exclusion.antt =====
-- Two clients of examples/zookeeper/zklock.cc never have the lock at once.
use mathlib.Core.List.{Memᴰ}
use mathlib.Core.List.Memᴰ.{head, tail}
use zns_emulation_bench.Prelude.{
  ℕ, ◌+◌, ◌^◌, ◌<◌, ◌≡◌, ◌⊎◌, inl, inr, refl, sym, ap, subst, Bool, true, false, if_true, if_false,
  if◌then◌else◌, Bool-cases, ◌==◌, Option, List, [], ◌∷◌, ◌++◌, All, All-append, All-Memᴰ, arith,
  map,
}
use zns_emulation_bench.Text.{Bytes}
use zns_emulation_bench.Lock.Choice.{number, IsNumeric}
use zns_emulation_bench.Lock.Protocol.{
  sequence, Task, listing, listed, asking, watching, deleting, Client, System, put, enter, names,
  is_there, without, is_named, blank, Step, Steps, stay, step, start, create, create_callback,
  session_event, serve_list, list_callback, serve_exists, notify, serve_delete, node_goes,
}
use zns_emulation_bench.Lock.Orderly.{
  IsLeast, IsGood, AllGood, IsOrderly, AllGood-later, put-IsOrderly, list_callback-Asks,
  create_callback-Asks, watcher-Asks, All-parts,
}

pub Memᴰ-without : (out : ℕ → Bool) (ks : List ℕ) {k : ℕ} → Memᴰ k (without out ks) → Memᴰ k ks
Memᴰ-without out [] i = i
Memᴰ-without out (j ∷ js) {k} i = elim (Bool-cases (out j)) [
  | inl e ↦ tail (Memᴰ-without out js (subst (Memᴰ k) (if_true _ _ e) i))
  | inr e ↦ elim (subst (Memᴰ k) (if_false _ _ e) i) [
    | head q ↦ head q
    | tail t ↦ tail (Memᴰ-without out js t)
  ]
]

pub Memᴰ-snoc : (ks : List ℕ) (n : ℕ) {k : ℕ} → Memᴰ k (ks ++ n ∷ []) → Memᴰ k ks ⊎ (k ≡ n)
Memᴰ-snoc [] n (head e) = inr e
Memᴰ-snoc [] n (tail i) = elim i [ ]
Memᴰ-snoc (j ∷ js) n (head e) = inl (head e)
Memᴰ-snoc (j ∷ js) n (tail i) = elim (Memᴰ-snoc js n i) [ inl t ↦ inl (tail t) | inr e ↦ inr e ]

-- The names of the nodes are listed, and read as their numbers.
names-IsNumeric :
    (s : System) (ks : List ℕ)
    → IsOrderly s
    → ((k : ℕ) → Memᴰ k ks → k < s.next)
    → All IsNumeric (map (λ k. (s.client k).name) ks)
names-IsNumeric s [] o b = tt
names-IsNumeric s (k ∷ ks) o b =
    ((o.named k (b k (head refl))).0, names-IsNumeric s ks o (λ j i. b j (tail i)))

names-Memᴰ :
    (s : System) (ks : List ℕ) {k : ℕ}
    → Memᴰ k ks
    → Memᴰ (s.client k).name (map (λ j. (s.client j).name) ks)
names-Memᴰ s (j ∷ js) (head e) = head (ap (λ i. (s.client i).name) e)
names-Memᴰ s (j ∷ js) (tail i) = tail (names-Memᴰ s js i)
names-Memᴰ s [] i = elim i [ ]

lists_good :
    (nodes : List ℕ) (n : ℕ) (ts : List Task) → All (λ t. t ≡ listing) ts → AllGood nodes n ts
lists_good nodes n [] h = tt
lists_good nodes n (t ∷ ts) h = (subst (IsGood nodes n) (sym h.0) tt, lists_good nodes n ts h.1)

create-IsOrderly :
    (s : System) (name : Bytes) (lists : List Task)
    → IsNumeric name
    → number name ≡ sequence s.next
    → All (λ t. t ≡ listing) lists
    → IsOrderly s
    → IsOrderly (
        put s.next
          (record { name = name; mutex = blank; is_new = true; tasks = lists })
          (record s { next = s.next + 1; nodes = s.nodes ++ s.next ∷ [] }))
create-IsOrderly s name lists k e a o = record {
  named = λ n l. elim (Bool-cases (n == s.next)) [
    | inl t ↦
        subst (λ (c : Client). IsNumeric c.name × (number c.name ≡ sequence n))
          (sym (if_true _ _ t))
          (subst (λ j. IsNumeric name × (number name ≡ sequence j)) (ground (arith, t)) (k, e))
    | inr t ↦
        subst (λ (c : Client). IsNumeric c.name × (number c.name ≡ sequence n))
          (sym (if_false _ _ t)) (o.named n (ground (arith, l, t)))
  ];
  below = λ n i. elim (Memᴰ-snoc s.nodes s.next i) [
    | inl j ↦ omega (arith, o.below n j)
    | inr t ↦ omega (arith, t)
  ];
  good = λ n l. elim (Bool-cases (n == s.next)) [
    | inl t ↦
        subst (λ (c : Client). AllGood (s.nodes ++ s.next ∷ []) n c.tasks) (sym (if_true _ _ t))
          (lists_good _ n lists a)
    | inr t ↦
        subst (λ (c : Client). AllGood (s.nodes ++ s.next ∷ []) n c.tasks) (sym (if_false _ _ t))
          (AllGood-later s.nodes _ n (s.client n).tasks (later n (ground (arith, l, t)))
            (o.good n (ground (arith, l, t))))
  ];
}
  where
    later :
        (n : ℕ) → n < s.next → (k : ℕ) → Memᴰ k (s.nodes ++ s.next ∷ []) → Memᴰ k s.nodes ⊎ (n < k)
    later n l k i = elim (Memᴰ-snoc s.nodes s.next i) [
      | inl j ↦ inl j
      | inr t ↦ inr (omega (arith, l, t))
    ]

-- Nodes that go leave the system orderly.
fewer-IsOrderly :
    (s : System) (out : ℕ → Bool)
    → IsOrderly s
    → IsOrderly (record s { nodes = without out s.nodes })
fewer-IsOrderly s out o = record {
  named = o.named;
  below = λ k i. o.below k (Memᴰ-without out s.nodes i);
  good = λ k l.
      AllGood-later s.nodes _ k (s.client k).tasks (λ j i. inl (Memᴰ-without out s.nodes i))
        (o.good k l);
}

-- What is known of the parts of a client's tasks.
split :
    (s : System) (n : ℕ) (before after : List Task) (t : Task)
    → IsOrderly s
    → n < s.next
    → (s.client n).tasks ≡ before ++ t ∷ after
    → AllGood s.nodes n before × IsGood s.nodes n t × AllGood s.nodes n after
split s n before after t o h e =
    All-parts (IsGood s.nodes n) before after t (subst (AllGood s.nodes n) e (o.good n h))

join :
    (nodes : List ℕ) (n : ℕ) (xs ys : List Task)
    → AllGood nodes n xs
    → AllGood nodes n ys
    → AllGood nodes n (xs ++ ys)
join nodes n xs ys = All-append (IsGood nodes n) xs ys

pub Step-IsOrderly : (s t : System) → Step s t → IsOrderly s → IsOrderly t
Step-IsOrderly _ _ (create s name lists k e a) o = create-IsOrderly s name lists k e a o
Step-IsOrderly _ _ (create_callback s n junk rc h e) o = put-IsOrderly s n _ false _ h o (
    join s.nodes n _ _ (create_callback-Asks s.nodes n junk rc (s.client n).name (s.client n).mutex)
      (o.good n h))
Step-IsOrderly _ _ (session_event s n h) o =
    put-IsOrderly s n _ _ _ h o
      (join s.nodes n _ _ (watcher-Asks s.nodes n [] (s.client n).mutex) (o.good n h))
Step-IsOrderly _ _ (serve_list s n before after h e) o =
    let (b, _, a) = split s n before after listing o h e in
    put-IsOrderly s n _ _ _ h o (
      join s.nodes n before _ b (
        (
          names-IsNumeric s s.nodes o o.below,
          (λ k i l. ((s.client k).name, names-Memᴰ s s.nodes i, (o.named k (o.below k i)).1)),
        ),
        a,
      ))
Step-IsOrderly _ _ (list_callback s n junk rc xs before after h e) o =
    let (b, g, a) = split s n before after (listed xs) o h e in
    put-IsOrderly s n _ _ _ h o (
      join s.nodes n _ _ (list_callback-Asks s.nodes n junk rc xs (s.client n).mutex g)
        (join s.nodes n before after b a))
Step-IsOrderly _ _ (serve_exists s n path before after h e) o =
    let (b, _, a) = split s n before after (asking path) o h e in
    put-IsOrderly s n _ _ _ h o (
      join s.nodes n before _ b
        (either (is_there path (names s)) (watching path ∷ after) after (tt, a) a))
  where
    either :
        (c : Bool) (xs ys : List Task)
        → AllGood s.nodes n xs
        → AllGood s.nodes n ys
        → AllGood s.nodes n (if c then xs else ys)
    either true xs ys g g' = g
    either false xs ys g g' = g'
Step-IsOrderly _ _ (notify s n path before after h e w) o =
    let (b, _, a) = split s n before after (watching path) o h e in
    put-IsOrderly s n _ _ _ h o (
      join s.nodes n _ _ (watcher-Asks s.nodes n path (s.client n).mutex)
        (join s.nodes n before after b a))
Step-IsOrderly _ _ (serve_delete s n me x before after h e) o =
    let (b, _, a) = split s n before after (deleting me x) o h e in
    fewer-IsOrderly (enter n (before ++ after) s) (is_named s x)
      (put-IsOrderly s n _ _ _ h o (join s.nodes n before after b a))
Step-IsOrderly _ _ (node_goes s out) o = fewer-IsOrderly s out o

pub Steps-IsOrderly : (s t : System) → Steps s t → IsOrderly s → IsOrderly t
Steps-IsOrderly s _ stay o = o
Steps-IsOrderly s _ (step {t} {u} r x) o = Step-IsOrderly t u x (Steps-IsOrderly s t r o)

pub start-IsOrderly : IsOrderly start
start-IsOrderly = record {
  named = λ n h. absurd (omega (arith, h));
  below = λ k i. elim i [ ];
  good = λ n h. absurd (omega (arith, h));
}

-- However many clients there are, however their callbacks, their sessions' events and the server's answers
-- are interleaved and fail, and whichever nodes go by themselves: two clients among the first 2^31 that
-- have both taken the lock with the sequence numbers of their own nodes, and whose nodes both still exist,
-- are the same.
pub mutual_exclusion :
    (s : System) (n k : ℕ) (o o' : Option Bytes)
    → Steps start s
    → n < s.next
    → k < s.next
    → n < 2 ^ 31
    → k < 2 ^ 31
    → Memᴰ (deleting (sequence n) o) (s.client n).tasks
    → Memᴰ (deleting (sequence k) o') (s.client k).tasks
    → Memᴰ n s.nodes
    → Memᴰ k s.nodes
    → n ≡ k
mutual_exclusion s n k o o' r hn hk bn bk en ek in_n in_k =
    omega (arith, least n o hn en refl bn k in_k, least k o' hk ek refl bk n in_n)
  where
    orderly : IsOrderly s
    orderly = Steps-IsOrderly start s r start-IsOrderly

    least :
        (j : ℕ) (x : Option Bytes)
        → j < s.next
        → Memᴰ (deleting (sequence j) x) (s.client j).tasks
        → sequence j ≡ sequence j
        → IsLeast s.nodes j
    least j x h i = All-Memᴰ (IsGood s.nodes j) (s.client j).tasks (orderly.good j h) i
