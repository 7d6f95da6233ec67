-- ===== src/Variants/Sampling/Mean.antt =====
-- The mean that `work_fn` of examples/arbitration/arbitration_read.cc reports: it pairs the i-th start with
-- the i-th completion, whichever command that was.
use mathlib.Core.List.{Permᴰ}
use mathlib.Core.List.Permᴰ.{nil, cons, swap, trans}
use zns_emulation_bench.Prelude.{
  ℕ, suc, ◌+◌, ◌-◌, ◌*◌, ◌^◌, ◌≤◌, ◌<◌, ◌≡◌, refl, sym, ap, ◌∙◌, some, List, [], ◌∷◌, length, arith,
}
use zns_emulation_bench.Variants.Sampling.{SampledCtx, Timed, micros, deltas, report}
use zns_emulation_bench.Variants.Sampling.Counts.{Sampled, Before}

abbrev pub sum : List ℕ → ℕ
sum [] = 0
sum (n ∷ ns) = n + sum ns

-- The sum of the latencies of commands that started at `ss` and ended at `es`, in nanoseconds.
abbrev pub total_latency : List ℕ → List ℕ → ℕ
total_latency [] es = 0
total_latency (s ∷ ss) [] = 0
total_latency (s ∷ ss) (e ∷ es) = (e - s) + total_latency ss es

sum-Permᴰ : {xs ys : List ℕ} → Permᴰ xs ys → sum xs ≡ sum ys
sum-Permᴰ nil = refl
sum-Permᴰ (cons e p) = omega (arith, e, sum-Permᴰ p)
sum-Permᴰ (swap d e) = omega (arith, d, e)
sum-Permᴰ (trans p q) = sum-Permᴰ p ∙ sum-Permᴰ q

length-Permᴰ : {xs ys : List ℕ} → Permᴰ xs ys → length xs ≡ length ys
length-Permᴰ nil = refl
length-Permᴰ (cons e p) = ap suc (length-Permᴰ p)
length-Permᴰ (swap d e) = refl
length-Permᴰ (trans p q) = length-Permᴰ p ∙ length-Permᴰ q

-- It is the difference of the sums, so that it does not depend on who ended when.
sum-total_latency :
    (ss es : List ℕ) → length ss ≡ length es → Before ss es → sum es ≡ sum ss + total_latency ss es
sum-total_latency [] [] l b = refl
sum-total_latency [] (e ∷ es) l b = absurd (omega arith)
sum-total_latency (s ∷ ss) [] l b = absurd (omega arith)
sum-total_latency (s ∷ ss) (e ∷ es) l b =
    omega (arith, b.0, sum-total_latency ss es (omega arith) b.1)

micros-bounds : (e s : ℕ) → s ≤ e → (1000 * micros e s ≤ e - s) × (e - s ≤ 1000 * micros e s + 999)
micros-bounds e s h = (ground arith, ground arith)

-- What `deltas` gives for as many completions as starts, to within a microsecond each.
deltas-bounds :
    (ss es : List ℕ)
    → length ss ≡ length es
    → Before ss es
    → (ds : List ℕ) × (deltas es ss ≡ some ds)
      × (length ds ≡ length ss)
      × (1000 * sum ds ≤ total_latency ss es)
      × (total_latency ss es ≤ 1000 * sum ds + 999 * length ds)
unfolding deltas
deltas-bounds [] es l b = ([], refl, refl, omega arith, omega arith)
deltas-bounds (s ∷ ss) [] l b = absurd (omega arith)
deltas-bounds (s ∷ ss) (e ∷ es) l b =
    let (ds, d, n, lo, hi) = deltas-bounds ss es (omega arith) b.1 in
    let (lo', hi') = micros-bounds e s b.0 in
    (micros e s ∷ ds, rw d refl, ap suc n, omega (arith, lo, lo'), omega (arith, hi, hi'))

-- A context of the worker with nothing in flight, no refused command and fewer than 2^64 readings of the
-- clock reports one latency for each command it started, in microseconds. For every way to say which
-- completion belongs to which command, where none ended before it started, their sum is that of the
-- commands' latencies to within a microsecond for each, so that the mean is right though the samples may
-- be paired wrongly.
pub report-mean :
    (now : ℕ → ℕ) (c : SampledCtx) (g : Timed)
    → Sampled now c g
    → c.ns_ctx.current_queue_depth ≡ 0
    → c.failures ≡ 0
    → g.readings < 2 ^ 64
    → (own : List ℕ) → Permᴰ own c.etimes
    → Before c.stimes own
    → (ds : List ℕ) × ((report c).reports ≡ some ds ∷ [])
      × (length ds ≡ length c.stimes)
      × (1000 * sum ds ≤ total_latency c.stimes own)
      × (total_latency c.stimes own ≤ 1000 * sum ds + 999 * length ds)
unfolding report
report-mean now c g v z f h own p b =
    let (ds, d, n, lo, hi) = deltas-bounds c.stimes c.etimes as_many v.ordered in
    (ds, rw (v.unreported, d) refl, n, omega (arith, lo, same_total), omega (arith, hi, same_total))
  where
    as_many : length c.stimes ≡ length c.etimes
    as_many = omega (arith, v.depth, z, v.samples, v.counted, h, f)

    same_total : total_latency c.stimes own ≡ total_latency c.stimes c.etimes
    same_total = omega (
      arith,
      sum-Permᴰ p,
      sum-total_latency c.stimes c.etimes as_many v.ordered,
      sum-total_latency c.stimes own (as_many ∙ sym (length-Permᴰ p)) b,
    )
