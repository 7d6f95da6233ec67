-- ===== src/Arbitration/Features/Tests.antt =====
-- Small runs of the admin commands.
use zns_emulation_bench.Prelude.{◌≡◌, refl, true, false, [], ◌∷◌}
use zns_emulation_bench.Exec.{done, waiting}
use zns_emulation_bench.Arbitration.Features.{
  Admin, Cpl, get_arb_feature, set_arb_feature, set_latency_tracking_feature, wait_loop,
  answer_each, call_back, enable_latency_tracking_complete,
}
use zns_emulation_bench.Arbitration.Features.Waiting.{
  get_arb_feature_hangs, get_arb_feature_reads, set_arb_feature_ends,
}

-- The first poll reaps nothing, the second one an answer.
abbrev at_rest : Admin
at_rest = record {
  outstanding_commands = 0;
  result = 5;
  valid = true;
  in_flight = [];
  polls = [] ∷ (record { is_error = false; cdw0 = 33 } ∷ []) ∷ [];
}

abbrev answer : Cpl
answer = record { is_error = false; cdw0 = 33 }

tracked : set_latency_tracking_feature true true at_rest ≡ done (record at_rest { polls = [] })
unfolding set_latency_tracking_feature wait_loop answer_each call_back
    enable_latency_tracking_complete
tracked = refl

get_arb_feature_hangs_example : (a' : Admin) × (get_arb_feature false at_rest ≡ waiting a')
get_arb_feature_hangs_example = get_arb_feature_hangs at_rest refl

get_arb_feature_reads_example :
    (a' : Admin) × (get_arb_feature true at_rest ≡ done a')
    × (a'.valid ≡ true)
    × (a'.result ≡ 33)
    × (a'.outstanding_commands ≡ 0)
    × (a'.in_flight ≡ [])
get_arb_feature_reads_example = get_arb_feature_reads at_rest answer refl refl refl

set_arb_feature_ends_example :
    (set_arb_feature 7 false at_rest ≡ (1, done at_rest))
    × (a' : Admin) × (set_arb_feature 7 true at_rest ≡ (0, done a'))
    × (a'.valid ≡ true)
    × (a'.result ≡ 5)
    × (a'.outstanding_commands ≡ 0)
    × (a'.in_flight ≡ [])
set_arb_feature_ends_example = set_arb_feature_ends 7 at_rest answer refl refl
