-- ===== src/SimpleAppend/Appends.antt =====
-- What examples/simple_append.cc queues: its buffers, and how far.
use mathlib.Core.List.{append_assoc, append-nil}
use zns_emulation_bench.Prelude.{
  ℕ, zero, suc, ◌+◌, ◌≤◌, ◌≡◌, refl, sym, ◌∙◌, true, false, if◌then◌else◌, ◌&&◌, Bool, Option, List,
  [], ◌∷◌, ◌++◌, get_elem?, arith, min,
}
use zns_emulation_bench.SimpleAppend.{Device, Block, Queued, enqueue, fill, append_loop, run}

-- The first `n` blocks of a buffer from the `i`-th on.
abbrev pub blocks_of : List Block → ℕ → ℕ → List (Option Block)
blocks_of buf i zero = []
blocks_of buf i (suc n) = get_elem? buf i ∷ blocks_of buf (i + 1) n

-- How far the queues are: both equally far, or one of them by one block behind.
pub record Reached (buf1 buf2 : List Block) (n i : ℕ) (q0 q : Queued) : Type 0 where
  pub first : ℕ
  pub second : ℕ
  pub first_queued : q.to_first ≡ q0.to_first ++ blocks_of buf1 i first
  pub second_queued : q.to_second ≡ q0.to_second ++ blocks_of buf2 i second
  pub first_within : first ≤ n
  pub second_within : second ≤ n
  pub first_near : first ≤ second + 1
  pub second_near : second ≤ first + 1

continued :
    (buf1 buf2 : List Block) (n i : ℕ) (q end : Queued)
    → Reached buf1 buf2 n
        (i + 1)
        (record {
          to_first = q.to_first ++ get_elem? buf1 i ∷ [];
          to_second = q.to_second ++ get_elem? buf2 i ∷ [];
        })
        end
    → Reached buf1 buf2 (suc n) i q end
continued buf1 buf2 n i q end r = record {
  first = suc r.first;
  second = suc r.second;
  first_queued = r.first_queued ∙ append_assoc q.to_first (get_elem? buf1 i ∷ []) _;
  second_queued = r.second_queued ∙ append_assoc q.to_second (get_elem? buf2 i ∷ []) _;
  first_within = omega (arith, r.first_within);
  second_within = omega (arith, r.second_within);
  first_near = omega (arith, r.first_near);
  second_near = omega (arith, r.second_near);
}

-- One queue or both have refused.
refused :
    (buf1 buf2 : List Block) (n i : ℕ) (q : Queued) (b1 b2 : Bool)
    → Reached buf1 buf2 (suc n) i q (record {
      to_first = enqueue b1 q.to_first (get_elem? buf1 i);
      to_second = enqueue b2 q.to_second (get_elem? buf2 i);
    })
refused buf1 buf2 n i q b1 b2 = record {
  first = one b1;
  second = one b2;
  first_queued = queued buf1 q.to_first b1;
  second_queued = queued buf2 q.to_second b2;
  first_within = omega (arith, one-le b1);
  second_within = omega (arith, one-le b2);
  first_near = omega (arith, one-le b1);
  second_near = omega (arith, one-le b2);
}
  where
    one : Bool → ℕ
    one b = if b then 1 else 0

    one-le : (b : Bool) → one b ≤ 1
    one-le true = omega arith
    one-le false = omega arith

    queued :
        (buf : List Block) (xs : List (Option Block)) (b : Bool)
        → enqueue b xs (get_elem? buf i) ≡ xs ++ blocks_of buf i (one b)
    queued buf xs true = refl
    queued buf xs false = sym (append-nil xs)

module _ (takes1 takes2 : ℕ → Bool) (buf1 buf2 : List Block) where
  append_loop-Reached :
      (n i : ℕ) (q : Queued) → Reached buf1 buf2 n i q (append_loop takes1 takes2 buf1 buf2 n i q)
  unfolding append_loop
  append_loop-Reached zero i q = record {
    first = 0;
    second = 0;
    first_queued = sym (append-nil _);
    second_queued = sym (append-nil _);
    first_within = omega arith;
    second_within = omega arith;
    first_near = omega arith;
    second_near = omega arith;
  }
  append_loop-Reached (suc n) i q = go (takes1 i) (takes2 i) (append_loop-Reached n (i + 1))
    where
      next : Bool → Bool → Queued
      next b1 b2 = record {
        to_first = enqueue b1 q.to_first (get_elem? buf1 i);
        to_second = enqueue b2 q.to_second (get_elem? buf2 i);
      }

      go :
          (b1 b2 : Bool)
          → ((q' : Queued)
              → Reached buf1 buf2 n (i + 1) q' (append_loop takes1 takes2 buf1 buf2 n (i + 1) q'))
          → Reached buf1 buf2 (suc n) i q (
              if b1 && b2
              then append_loop takes1 takes2 buf1 buf2 n (i + 1) (next b1 b2)
              else next b1 b2)
      go true true ih = continued buf1 buf2 n i q _ (ih (next true true))
      go true false ih = refused buf1 buf2 n i q true false
      go false true ih = refused buf1 buf2 n i q false true
      go false false ih = refused buf1 buf2 n i q false false

-- However far the appends get before a queue refuses, each device is given the blocks of its own buffer
-- from the first on, and neither is given more than one block more than the other.
pub run-Reached :
    (n : ℕ) (d1 d2 : Device) (mem1 mem2 : List Block)
    → Reached
        (fill 0 (min d1.zcap d2.zcap) mem1)
        (fill 0 (min d1.zcap d2.zcap) mem2)
        n
        0
        (record { to_first = []; to_second = [] })
        (run n d1 d2 mem1 mem2).0
unfolding run
run-Reached n d1 d2 mem1 mem2 = append_loop-Reached d1.queues d2.queues _ _ n 0 _
