-- ===== src/BdevTest/Phases.antt =====
-- examples/rw_test.cc on a device that takes every command: the resets and the appends, which end in any
-- order.
use zns_emulation_bench.Prelude.{
  ℕ, zero, suc, ◌+◌, ◌-◌, ◌*◌, ◌^◌, ◌<◌, ◌≡◌, refl, sym, ap, subst, ◌∙◌, true, if_true, if_false,
  ◌==◌, some, List, [], ◌∷◌, length, length-append, length-remove_at, All, All-append,
  All-get_elem?, All-remove_at, eq_nil_of_length, get_elem?, remove_at, map, u32, arith,
}
use zns_emulation_bench.BdevTest.{
  Bdev, Request, reset, append, read, Context, Event, completed, sent, append_times, append_zones,
  count_down, step, run,
}

-- What a loop of appends changes: `n` commands more are in flight.
pub record Grown (P : Request → Type 0) (n : ℕ) (c c' : Context) : Type 0 where
  pub more : length c'.in_flight ≡ length c.in_flight + n
  pub kinds : All P c.in_flight → All P c'.in_flight
  pub count_same : c'.count ≡ c.count
  pub write_same : c'.write_buff ≡ c.write_buff
  pub size_same : c'.zone_size ≡ c.zone_size
  pub buff_same : c'.buff_size ≡ c.buff_size
  pub closed_same : c'.closed ≡ c.closed
  pub stops_same : c'.stops ≡ c.stops

pub Grown-refl : (P : Request → Type 0) (c : Context) → Grown P 0 c c
Grown-refl P c = record {
  more = omega arith;
  kinds = λ a. a;
  count_same = refl;
  write_same = refl;
  size_same = refl;
  buff_same = refl;
  closed_same = refl;
  stops_same = refl;
}

pub Grown-trans :
    (P : Request → Type 0) (m n : ℕ) (a b c : Context)
    → Grown P m a b
    → Grown P n b c
    → Grown P (m + n) a c
Grown-trans P m n a b c g h = record {
  more = omega (arith, g.more, h.more);
  kinds = λ x. h.kinds (g.kinds x);
  count_same = h.count_same ∙ g.count_same;
  write_same = h.write_same ∙ g.write_same;
  size_same = h.size_same ∙ g.size_same;
  buff_same = h.buff_same ∙ g.buff_same;
  closed_same = h.closed_same ∙ g.closed_same;
  stops_same = h.stops_same ∙ g.stops_same;
}

pub sent-Grown : (P : Request → Type 0) (r : Request) (c : Context) → P r → Grown P 1 c (sent r c)
sent-Grown P r c p = record {
  more = length-append c.in_flight (r ∷ []);
  kinds = λ a. All-append P c.in_flight (r ∷ []) a (p, tt);
  count_same = refl;
  write_same = refl;
  size_same = refl;
  buff_same = refl;
  closed_same = refl;
  stops_same = refl;
}

abbrev pub kind : Request → ℕ
kind (reset b) = 0
kind (append b) = 1
kind (read b) = 2

abbrev pub IsKind : ℕ → Request → Type 0
IsKind k r = kind r ≡ k

module _ (d : Bdev) (takes : (k : ℕ) → d.accepts k ≡ true) where
  append_times-Grown : (slba n : ℕ) (c : Context) → Grown (IsKind 1) n c (append_times d slba n c)
  unfolding append_times
  append_times-Grown slba zero c = Grown-refl (IsKind 1) c
  append_times-Grown slba (suc n) c =
      subst (λ (x : Context). Grown (IsKind 1) (suc n) c (append_times d slba n x))
        (sym (if_true _ _ (takes c.calls)))
        (subst (λ (k : ℕ). Grown (IsKind 1) k c (append_times d slba n (sent (append slba) c)))
          (omega arith)
          (Grown-trans (IsKind 1) 1 n c (sent (append slba) c) _
            (sent-Grown (IsKind 1) (append slba) c refl)
            (append_times-Grown slba n (sent (append slba) c))))

  pub append_zones-Grown :
      (times : ℕ) (slbas : List ℕ) (c : Context)
      → Grown (IsKind 1) (length slbas * times) c (append_zones d times slbas c)
  unfolding append_zones
  append_zones-Grown times [] c =
      subst (λ (k : ℕ). Grown (IsKind 1) k c c) (omega arith) (Grown-refl (IsKind 1) c)
  append_zones-Grown times (slba ∷ slbas) c =
      subst (λ (k : ℕ). Grown (IsKind 1) k c (append_zones d times (slba ∷ slbas) c)) (ground arith)
        (Grown-trans (IsKind 1) times (length slbas * times) c (append_times d slba times c) _
          (append_times-Grown slba times c)
          (append_zones-Grown times slbas (append_times d slba times c)))

-- Places at which `n` commands in flight end, one after another.
abbrev pub Places : List ℕ → ℕ → Type 0
Places [] n = n ≡ 0
Places (i ∷ is) n = (i < n) × Places is (n - 1)

abbrev pub succeeds : ℕ → Event
succeeds i = completed i true []

pub get_elem?-lt :
    {A : Type 0} (xs : List A) (i : ℕ) → i < length xs → (x : A) × (get_elem? xs i ≡ some x)
get_elem?-lt [] i h = absurd (omega arith)
get_elem?-lt (x ∷ xs) zero h = (x, refl)
get_elem?-lt (x ∷ xs) (suc i) h = get_elem?-lt xs i (omega arith)

count_down_last :
    (next : Context → Context) (c : Context)
    → c.count ≡ 1
    → count_down next c ≡ next (record c { count = 0 })
count_down_last next c e =
    if_true {b = u32 (c.count + 0xffffffff) == 0} _ _ (ground (arith, e))
    ∙ ap (λ (n : ℕ). next (record c { count = n })) (omega (arith, e))

count_down_more :
    (next : Context → Context) (c : Context) (n : ℕ)
    → c.count ≡ suc (suc n)
    → suc (suc n) < 2 ^ 32
    → count_down next c ≡ record c { count = suc n }
count_down_more next c n e small =
    if_false {b = u32 (c.count + 0xffffffff) == 0} _ _ (ground (arith, e))
    ∙ ap (λ (n : ℕ). record c { count = n }) (omega (arith, e))

-- Commands of one kind that count down: when all have ended, in whatever order, what follows is done.
module _ (d : Bdev) (k : ℕ) (next : Context → Context)
    (counts : (r : Request) (c : Context)
      → kind r ≡ k
      → (i : ℕ) → get_elem? c.in_flight i ≡ some r
      → step d (succeeds i) c
        ≡ count_down next (record c { in_flight = remove_at c.in_flight i })) where
  pub all_end :
      (is : List ℕ) (c : Context) (n : ℕ)
      → length c.in_flight ≡ suc n
      → c.count ≡ suc n
      → suc n < 2 ^ 32
      → All (IsKind k) c.in_flight
      → Places is (suc n)
      → run d (map succeeds is) c ≡ next (record c { count = 0; in_flight = [] })
  unfolding run
  all_end [] c n l e small kinds places = absurd (omega arith)
  all_end (i ∷ []) c zero l e small kinds (h, _) =
      let (r, found) = get_elem?-lt c.in_flight i (omega (arith, h, l)) in
      let kind_r = All-get_elem? (IsKind k) c.in_flight i kinds found in
      let none_left =
        eq_nil_of_length (remove_at c.in_flight i)
          (omega (arith, length-remove_at c.in_flight i found, l)) in
      counts r c kind_r i found
      ∙ count_down_last next (record c { in_flight = remove_at c.in_flight i }) e
      ∙ ap (λ (xs : List Request). next (record c { in_flight = xs; count = 0 })) none_left
  all_end (i ∷ j ∷ is) c zero l e small kinds (h, (h', _)) = absurd (omega (arith, h'))
  all_end (i ∷ is) c (suc n) l e small kinds (h, rest) =
      let (r, found) = get_elem?-lt c.in_flight i (omega (arith, h, l)) in
      let kind_r = All-get_elem? (IsKind k) c.in_flight i kinds found in
      ap (run d (map succeeds is)) (
        counts r c kind_r i found
        ∙ count_down_more next (record c { in_flight = remove_at c.in_flight i }) n e small)
      ∙ all_end is (record c { in_flight = remove_at c.in_flight i; count = suc n }) n
          (omega (arith, length-remove_at c.in_flight i found, l)) refl (omega (arith, small))
          (All-remove_at (IsKind k) c.in_flight i kinds) (subst (Places is) (omega arith) rest)
