-- ===== src/Arbitration/Args/Tests.antt =====
-- Small command lines.
use Prim.Native.String.{String}
use text.Mathlib.Text.{◌==◌ as str_eq}
use zns_emulation_bench.Prelude.{
  ℕ, ◌≡◌, refl, true, false, if◌then◌else◌, List, [], ◌∷◌, pos, negsuc,
}
use zns_emulation_bench.Arbitration.Setup.{NvmeSpec}
use zns_emulation_bench.Arbitration.Args.{
  Parsers, Settings, proceed, returns, parse_args, parse_options, parse_option, numeric_option,
  check_settings, check_workload, check_arbitration,
}
use zns_emulation_bench.Arbitration.Args.Accepted.{IsAccepted, parse_args-IsAccepted}

abbrev spec : NvmeSpec
spec = record {
  qprio_urgent = 0;
  create_io_sq_qprio_mask = 3;
  cap_ams_wrr = 1;
  cc_ams_rr = 0;
  cc_ams_wrr = 1;
  cc_ams_vs = 7;
}

-- A parser that knows three numbers.
abbrev parsers : Parsers
parsers = record {
  strtol = λ s. if str_eq s "1" then pos 1 else if str_eq s "30" then pos 30 else negsuc 0;
  transport_id = λ s. true;
  log_flag = λ s. false;
}

abbrev given : Settings
given = record {
  arb = record {
    shm_id = negsuc 0;
    outstanding_commands = 0;
    num_namespaces = 0;
    num_workers = 0;
    rw_percentage = pos 50;
    is_random = false;
    queue_depth = pos 8;
    time_in_sec = pos 60;
    io_count = pos 100000;
    latency_tracking_enable = 0;
    arbitration_mechanism = 0;
    arbitration_config = 0;
    io_size_bytes = 131072;
    max_completions = 0;
    tsc_rate = 10;
    core_mask = "0xf";
    workload_type = "rw";
  };
  dpdk_mem = pos 0;
  dpdk_mem_single_seg = false;
  mix_specified = false;
}

-- `-w randrw -M 30 -a 1 -b 1`
abbrev weighted : List (ℕ × String)
weighted = (b'w', "randrw") ∷ (b'M', "30") ∷ (b'a', "1") ∷ (b'b', "1") ∷ []

abbrev decided : Settings
decided = record given {
  arb = record given.arb {
    workload_type = "randrw";
    rw_percentage = pos 30;
    arbitration_mechanism = 1;
    arbitration_config = 1;
    is_random = true;
  };
  mix_specified = true;
}

weighted_parsed : parse_args spec parsers weighted given ≡ proceed decided
unfolding parse_args parse_options parse_option numeric_option check_settings check_workload
    check_arbitration
weighted_parsed = refl

-- Weights need weighted round robin.
unweighted_refused : parse_args spec parsers ((b'b', "1") ∷ []) given ≡ returns (pos 1)
unfolding parse_args parse_options parse_option numeric_option check_settings check_workload
    check_arbitration
unweighted_refused = refl

-- A number that is none ends in its error code.
no_number : parse_args spec parsers ((b'q', "x") ∷ []) given ≡ returns (negsuc 0)
unfolding parse_args parse_options parse_option numeric_option check_settings check_workload
    check_arbitration
no_number = refl

parse_args-IsAccepted_example : IsAccepted spec decided.arb
parse_args-IsAccepted_example =
    parse_args-IsAccepted spec parsers weighted given decided weighted_parsed
