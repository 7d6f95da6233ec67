-- ===== src/Arbitration/Args/Accepted.antt =====
-- The configurations that `parse_args` of examples/arbitration/arbitration.cc lets through.
use Prim.Native.String.{String}
use text.Mathlib.Text.{◌==◌ as str_eq}
use mathlib.Core.Path.{subst}
use zns_emulation_bench.Prelude.{
  ℕ, ◌≤◌, ◌≡◌, refl, ap, true, not, ◌||◌, ◌⊎◌, List, ℤ, pos, negsuc, arith,
}
use zns_emulation_bench.Arbitration.{ArbContext}
use zns_emulation_bench.Arbitration.Setup.{NvmeSpec}
use zns_emulation_bench.Arbitration.Args.{
  Parsers, Settings, Parsed, proceed, returns, exits, ◌>>=◌, parse_options, parse_args,
  check_settings, check_workload, check_arbitration, is_one_of, is_workload, percentage_of,
  is_percentage,
}

pub record IsAccepted (spec : NvmeSpec) (arb : ArbContext) : Type 0 where
  pub workload : is_workload arb.workload_type ≡ true
  pub percentage : (n : ℕ) × (arb.rw_percentage ≡ pos n) × (n ≤ 100)
  pub random :
      arb.is_random
      ≡ not (is_one_of arb.workload_type "read" "write" || str_eq arb.workload_type "rw")
  pub latency : arb.latency_tracking_enable ≤ 1
  pub mechanism :
      (arb.arbitration_mechanism ≡ spec.cc_ams_rr)
      ⊎ (arb.arbitration_mechanism ≡ spec.cc_ams_wrr)
      ⊎ (arb.arbitration_mechanism ≡ spec.cc_ams_vs)
  pub config : arb.arbitration_config ≤ 1
  pub weighted : arb.arbitration_config ≡ 1 → arb.arbitration_mechanism ≡ spec.cc_ams_wrr

check_arbitration_lem :
    (spec : NvmeSpec) (arb : ArbContext) (next : Parsed) {s : Settings}
    → check_arbitration spec arb next ≡ proceed s
    → (next ≡ proceed s)
      × (arb.latency_tracking_enable ≤ 1)
      × ((arb.arbitration_mechanism ≡ spec.cc_ams_rr)
          ⊎ (arb.arbitration_mechanism ≡ spec.cc_ams_wrr)
          ⊎ (arb.arbitration_mechanism ≡ spec.cc_ams_vs))
      × (arb.arbitration_config ≤ 1)
      × (arb.arbitration_config ≡ 1 → arb.arbitration_mechanism ≡ spec.cc_ams_wrr)
unfolding check_arbitration
check_arbitration_lem spec arb next e = ground arith

in_percent : (z : ℤ) → is_percentage z ≡ true → (n : ℕ) × (z ≡ pos n) × (n ≤ 100)
in_percent (pos n) e = (n, refl, ground arith)
in_percent (negsuc n) e = cc

check_workload_lem :
    (arb : ArbContext) (next : Parsed) {s : Settings}
    → check_workload arb next ≡ proceed s
    → (next ≡ proceed s)
      × (is_workload arb.workload_type ≡ true)
      × (is_percentage (percentage_of arb.workload_type arb.rw_percentage) ≡ true)
unfolding check_workload
check_workload_lem arb next e = ground arith

>>=-proceed :
    (m : Parsed) (f : Settings → Parsed) {s : Settings}
    → (m >>= f) ≡ proceed s
    → (u : Settings) × (m ≡ proceed u) × (f u ≡ proceed s)
>>=-proceed (proceed u) f e = (u, refl, e)
>>=-proceed (returns rc) f e = cc
>>=-proceed exits f e = cc

arb_of : Parsed → ArbContext → ArbContext
arb_of (proceed s) arb = s.arb
arb_of _ arb = arb

-- The checks alone already ensure it.
check_settings-IsAccepted :
    (spec : NvmeSpec) (u s : Settings) → check_settings spec u ≡ proceed s → IsAccepted spec s.arb
unfolding check_settings arb_of
check_settings-IsAccepted spec u s e =
    let (e1, w, r) = check_workload_lem u.arb _ e in
    let (e2, l, m, c, x) = check_arbitration_lem spec u.arb _ e1 in
    subst (IsAccepted spec) (ap (λ q. arb_of q u.arb) e2) (record {
      workload = w;
      percentage = in_percent _ r;
      random = refl;
      latency = l;
      mechanism = m;
      config = c;
      weighted = x;
    })

-- Whatever the options, a configuration that is let through names one of the six workloads, is random
-- unless that is read, write or rw, has a share of reads from 0 to 100, a latency flag and a weights flag
-- of 0 or 1, a known arbitration mechanism, and weights only under weighted round robin.
pub parse_args-IsAccepted :
    (spec : NvmeSpec) (p : Parsers) (options : List (ℕ × String)) (s s' : Settings)
    → parse_args spec p options s ≡ proceed s'
    → IsAccepted spec s'.arb
unfolding parse_args
parse_args-IsAccepted spec p options s s' e =
    let (u, _, c) = >>=-proceed (parse_options p options s) (check_settings spec) e in
    check_settings-IsAccepted spec u s' c
