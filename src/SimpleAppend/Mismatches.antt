-- ===== src/SimpleAppend/Mismatches.antt =====
-- What examples/simple_append.cc reports as mismatches.
use mathlib.Core.List.{Memᴰ}
use mathlib.Core.List.Memᴰ.{head, tail}
use zns_emulation_bench.Prelude.{
  ℕ, zero, suc, ◌+◌, ◌-◌, ◌≤◌, ◌<◌, ◌≡◌, ◌≢◌, refl, ap, subst, ◌∙◌, true, if◌then◌else◌, ◌==◌,
  Bool-cases, inl, inr, List, [], ◌∷◌, length, arith,
}
use zns_emulation_bench.SimpleAppend.{
  Device, Block, set_block, is_queued, Reading, enq_read, end_reads, first_word, read_loop,
  count_mismatches, run,
}

-- The first word of the zone's first block.
abbrev pub zone_word : Device → ℕ
zone_word d = first_word (d.zone 0 ∷ [])

first_only : (b : Block) (xs ys : List Block) → first_word (b ∷ xs) ≡ first_word (b ∷ ys)
first_only [] xs ys = refl
first_only (w ∷ ws) xs ys = refl

length-set_block : (xs : List Block) (j : ℕ) (b : Block) → length (set_block xs j b) ≡ length xs
length-set_block [] j b = refl
length-set_block (x ∷ xs) zero b = refl
length-set_block (x ∷ xs) (suc j) b = omega (arith, length-set_block xs j b)

-- A read that ends leaves the first word or brings the zone's.
set_block-keeps :
    (d : Device) (xs : List Block) (j : ℕ)
    → first_word xs ≡ zone_word d
    → first_word (set_block xs j (d.zone j)) ≡ zone_word d
set_block-keeps d [] j h = h
set_block-keeps d (x ∷ xs) zero h = first_only (d.zone 0) xs []
set_block-keeps d (x ∷ xs) (suc j) h = first_only x _ xs ∙ h

set_block-brings :
    (d : Device) (xs : List Block)
    → 0 < length xs
    → first_word (set_block xs 0 (d.zone 0)) ≡ zone_word d
set_block-brings d [] h = absurd (omega arith)
set_block-brings d (x ∷ xs) h = first_only (d.zone 0) xs []

-- The first read is queued behind its round, and has brought the zone's word behind the round `r`.
record Reads (d : Device) (r i : ℕ) (s : Reading) : Type 0 where
  room : 0 < length s.rbuf
  asked : 0 < i → is_queued 0 s.queued ≡ true
  here : r < i → first_word s.rbuf ≡ zone_word d

module _ (d : Device) where
  abbrev ended : ℕ → Reading → Reading
  ended j s = if is_queued j s.queued then record s { rbuf = set_block s.rbuf j (d.zone j) } else s

  -- What the end of one read keeps.
  record Kept (s s' : Reading) : Type 0 where
    same_queued : s'.queued ≡ s.queued
    same_length : length s'.rbuf ≡ length s.rbuf
    keeps : first_word s.rbuf ≡ zone_word d → first_word s'.rbuf ≡ zone_word d

  ended-Kept : (j : ℕ) (s : Reading) → Kept s (ended j s)
  ended-Kept j s = elim (Bool-cases (is_queued j s.queued)) [
    | inl e ↦ rw e (record {
      same_queued = refl;
      same_length = length-set_block s.rbuf j (d.zone j);
      keeps = set_block-keeps d s.rbuf j;
    })
    | inr e ↦ rw e (record { same_queued = refl; same_length = refl; keeps = λ h. h })
  ]

  end_reads-Kept : (js : List ℕ) (s : Reading) → Kept s (end_reads d js s)
  unfolding end_reads
  end_reads-Kept [] s = record { same_queued = refl; same_length = refl; keeps = λ h. h }
  end_reads-Kept (j ∷ js) s =
      let one = ended-Kept j s in
      let rest = end_reads-Kept js (ended j s) in
      record {
        same_queued = rest.same_queued ∙ one.same_queued;
        same_length = rest.same_length ∙ one.same_length;
        keeps = λ h. rest.keeps (one.keeps h);
      }

  end_reads_brings :
      (js : List ℕ) (s : Reading)
      → Memᴰ 0 js
      → is_queued 0 s.queued ≡ true
      → 0 < length s.rbuf
      → first_word (end_reads d js s).rbuf ≡ zone_word d
  unfolding end_reads
  end_reads_brings (j ∷ js) s (head e) q l = (end_reads-Kept js (ended j s)).keeps (brings j e)
    where
      brings : (j : ℕ) → 0 ≡ j → first_word (ended j s).rbuf ≡ zone_word d
      brings zero e = rw q (set_block-brings d s.rbuf l)
      brings (suc j) e = absurd (omega (arith, e))
  end_reads_brings (j ∷ js) s (tail i) q l =
      let one = ended-Kept j s in
      end_reads_brings js (ended j s) i (rw one.same_queued q) (omega (arith, one.same_length, l))
  end_reads_brings [] s i q l = elim i [ ]

  enq_read-asked :
      (i : ℕ) (s : Reading)
      → d.queues_read 0 ≡ true
      → (0 < i → is_queued 0 s.queued ≡ true)
      → is_queued 0 (enq_read d i s).queued ≡ true
  enq_read-asked zero s a q = rw a refl
  enq_read-asked (suc i) s a q = elim (Bool-cases (d.queues_read (suc i))) [
    | inl e ↦ rw e (ground (arith, q (omega arith)))
    | inr e ↦ rw e (q (omega arith))
  ]

  enq_read-rbuf : (i : ℕ) (s : Reading) → (enq_read d i s).rbuf ≡ s.rbuf
  enq_read-rbuf i s = elim (Bool-cases (d.queues_read i)) [ inl e ↦ rw e refl | inr e ↦ rw e refl ]

  -- One round.
  round-Reads :
      (r i : ℕ) (s : Reading)
      → d.queues_read 0 ≡ true
      → Memᴰ 0 (d.ends r)
      → Reads d r i s
      → Reads d r (i + 1) (end_reads d (d.ends i) (enq_read d i s))
  round-Reads r i s a m v = record {
    room = omega (arith, k.same_length, room);
    asked = λ h. rw k.same_queued asked;
    here = λ h. elim (Bool-cases (r == i)) [
      | inl e ↦
          end_reads_brings (d.ends i) t (subst (λ x. Memᴰ 0 (d.ends x)) (ground (arith, e)) m) asked
            room
      | inr e ↦ k.keeps (ap first_word (enq_read-rbuf i s) ∙ v.here (ground (arith, h, e)))
    ];
  }
    where
      t : Reading
      t = enq_read d i s

      k : Kept t (end_reads d (d.ends i) t)
      k = end_reads-Kept (d.ends i) t

      asked : is_queued 0 t.queued ≡ true
      asked = enq_read-asked i s a v.asked

      room : 0 < length t.rbuf
      room = omega (arith, ap length (enq_read-rbuf i s), v.room)

-- Two devices whose first reads are queued, and end in the rounds `r1` and `r2`, by the round `k`.
module _ (d1 d2 : Device) (r1 r2 k : ℕ) (queued1 : d1.queues_read 0 ≡ true)
    (queued2 : d2.queues_read 0 ≡ true) (ends1 : Memᴰ 0 (d1.ends r1)) (ends2 : Memᴰ 0 (d2.ends r2))
    (first : r1 ≤ k) (second : r2 ≤ k) where
  abbrev mismatches : ℕ → ℕ → Reading → Reading → ℕ
  mismatches n i s1 s2 = count_mismatches (read_loop d1 n i s1) (read_loop d2 n i s2)

  few :
      zone_word d1 ≡ zone_word d2
      → (n i : ℕ) (s1 s2 : Reading) → Reads d1 r1 i s1
      → Reads d2 r2 i s2
      → mismatches n i s1 s2 ≤ k - i
  unfolding count_mismatches read_loop
  few e zero i s1 s2 v1 v2 = omega arith
  few e (suc n) i s1 s2 v1 v2 =
      let u1 = round-Reads d1 r1 i s1 queued1 ends1 v1 in
      let u2 = round-Reads d2 r2 i s2 queued2 ends2 v2 in
      ground (arith, few e n (i + 1) _ _ u1 u2, u1.here, u2.here)

  many :
      zone_word d1 ≢ zone_word d2
      → (n i : ℕ) (s1 s2 : Reading) → Reads d1 r1 i s1
      → Reads d2 r2 i s2
      → n ≤ mismatches n i s1 s2 + (k - i)
  unfolding count_mismatches read_loop
  many e zero i s1 s2 v1 v2 = omega arith
  many e (suc n) i s1 s2 v1 v2 =
      let u1 = round-Reads d1 r1 i s1 queued1 ends1 v1 in
      let u2 = round-Reads d2 r2 i s2 queued2 ends2 v2 in
      ground (arith, many e n (i + 1) _ _ u1 u2, u1.here, u2.here)

  reading-Reads :
      (d : Device) (r : ℕ) → 0 < length d.rbuf → Reads d r 0 (record { queued = []; rbuf = d.rbuf })
  reading-Reads d r l = record {
    room = l;
    asked = λ h. absurd (omega (arith, h));
    here = λ h. absurd (omega (arith, h));
  }

  -- If both first reads are queued and end by the round `k`, into buffers of at least a block, the report
  -- looks at nothing but the first words of the zones' first blocks: if these agree it counts at most `k`
  -- mismatches, and if they differ all but `k` of the rounds, whatever else the zones hold, and whatever
  -- becomes of the other reads.
  pub run-mismatches :
      (n : ℕ) (mem1 mem2 : List Block)
      → 0 < length d1.rbuf
      → 0 < length d2.rbuf
      → (zone_word d1 ≡ zone_word d2 → (run n d1 d2 mem1 mem2).1 ≤ k)
        × (zone_word d1 ≢ zone_word d2 → n ≤ (run n d1 d2 mem1 mem2).1 + k)
  unfolding run
  run-mismatches n mem1 mem2 l1 l2 = (
    λ e. omega (arith, few e n 0 _ _ (reading-Reads d1 r1 l1) (reading-Reads d2 r2 l2)),
    λ e. omega (arith, many e n 0 _ _ (reading-Reads d1 r1 l1) (reading-Reads d2 r2 l2)),
  )
