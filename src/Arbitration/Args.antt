-- ===== src/Arbitration/Args.antt =====
-- `parse_args` of examples/arbitration/arbitration.cc. `getopt` has split the command line into options
-- with their arguments.
pub mod Accepted
pub mod Tests
use Prim.Native.String.{String}
use text.Mathlib.Text.{◌==◌ as str_eq}
use zns_emulation_bench.Prelude.{
  ℕ, ◌+◌, ◌-◌, ◌<◌, Bool, true, false, not, ◌&&◌, ◌||◌, if◌then◌else◌, ltb, leb, ◌==◌, List, [],
  ◌∷◌, u8, u32, ℤ, pos, negsuc, int32, is_negative, pos_part,
}
use zns_emulation_bench.Arbitration.{ArbContext}
use zns_emulation_bench.Arbitration.Setup.{NvmeSpec}

-- What the option parser calls of SPDK: `spdk_strtol`, whether `spdk_nvme_transport_id_parse` takes an
-- address, and whether `spdk_log_set_flag` knows a flag.
pub record Parsers : Type 0 where
  pub strtol : String → ℤ
  pub transport_id : String → Bool
  pub log_flag : String → Bool

-- The globals that the options set.
pub record Settings : Type 0 where
  pub arb : ArbContext
  pub dpdk_mem : ℤ
  pub dpdk_mem_single_seg : Bool
  pub mix_specified : Bool

-- How the parser ends: it goes on, it returns a code, or it calls `exit(EXIT_FAILURE)`.
pub data Parsed : Type 0 where
  proceed : Settings → Parsed
  returns : ℤ → Parsed
  exits : Parsed

infixl 5 ◌>>=◌
abbrev pub ◌>>=◌ : Parsed → (Settings → Parsed) → Parsed
proceed s >>= f = f s
returns rc >>= f = returns rc
exits >>= f = exits

abbrev set_arb : Settings → ArbContext → Parsed
set_arb s arb = proceed (record s { arb = arb })

-- The inner `switch`, for the options with a number; `val` is not negative. EINVAL is 22.
unfoldable pub numeric_option : ℕ → ℕ → Settings → Parsed
numeric_option op val s =
    if op == b'i'
    then set_arb s (record arb { shm_id = int32 val })
    else if op == b'l'
    then set_arb s (record arb { latency_tracking_enable = u8 val })
    else if op == b'm'
    then set_arb s (record arb { max_completions = u32 val })
    else if op == b'q'
    then set_arb s (record arb { queue_depth = int32 val })
    else if op == b'o'
    then set_arb s (record arb { io_size_bytes = u32 val })
    else if op == b't'
    then set_arb s (record arb { time_in_sec = int32 val })
    else if op == b'M'
    then proceed (record s { arb = record arb { rw_percentage = int32 val }; mix_specified = true })
    else if op == b'a'
    then set_arb s (record arb { arbitration_mechanism = u8 val })
    else if op == b'b'
    then set_arb s (record arb { arbitration_config = u8 val })
    else if op == b'n'
    then set_arb s (record arb { io_count = int32 val })
    else returns (negsuc 21)
  where
    open s use {arb}

-- A `long` in an `int`.
abbrev pub long_to_int : ℤ → ℤ
long_to_int (pos n) = int32 n
long_to_int (negsuc n) =
    if ltb (u32 n) 2_147_483_648 then negsuc (u32 n) else pos (4_294_967_295 - u32 n)

abbrev unless_negative : ℤ → (ℕ → Parsed) → Parsed
unless_negative (pos n) f = f n
unless_negative (negsuc n) f = returns (long_to_int (negsuc n))

-- The outer `switch`.
unfoldable pub parse_option : Parsers → ℕ → String → Settings → Parsed
unfolding numeric_option
parse_option p op optarg s =
    if op == b'c'
    then set_arb s (record arb { core_mask = optarg })
    else if op == b'd'
    then (let mem = long_to_int (p.strtol optarg) in
        if is_negative mem then returns mem else proceed (record s { dpdk_mem = mem }))
    else if op == b'w'
    then set_arb s (record arb { workload_type = optarg })
    else if op == b'r'
    then (if p.transport_id optarg then proceed s else returns (pos 1))
    else if op == b'g'
    then proceed (record s { dpdk_mem_single_seg = true })
    else if op == b'h' || op == b'?'
    then returns (pos 1)
    else if op == b'L'
    then (if p.log_flag optarg then proceed s else exits)
    else unless_negative (p.strtol optarg) (λ val. numeric_option op val s)
  where
    open s use {arb}

unfoldable pub parse_options : Parsers → List (ℕ × String) → Settings → Parsed
unfolding parse_option
parse_options p [] s = proceed s
parse_options p ((op, optarg) ∷ rest) s = parse_option p op optarg s >>= parse_options p rest

-- `strcmp` with two names.
abbrev pub is_one_of : String → String → String → Bool
is_one_of w a b = str_eq w a || str_eq w b

abbrev pub is_workload : String → Bool
is_workload w =
    is_one_of w "read" "write" || is_one_of w "randread" "randwrite" || is_one_of w "rw" "randrw"

-- The share of reads, which four of the workloads fix.
abbrev pub percentage_of : String → ℤ → ℤ
percentage_of w given =
    let reads = if is_one_of w "read" "randread" then pos 100 else given in
    if is_one_of w "write" "randwrite" then pos 0 else reads

abbrev pub is_percentage : ℤ → Bool
is_percentage (pos n) = leb n 100
is_percentage (negsuc n) = false

unfoldable pub check_workload : ArbContext → Parsed → Parsed
check_workload arb next =
    if not (is_workload arb.workload_type)
    then returns (pos 1)
    else if is_one_of arb.workload_type "rw" "randrw"
        && not (is_percentage (percentage_of arb.workload_type arb.rw_percentage))
    then returns (pos 1)
    else next

unfoldable pub check_arbitration : NvmeSpec → ArbContext → Parsed → Parsed
check_arbitration spec arb next =
    if not (leb arb.latency_tracking_enable 1)
    then returns (pos 1)
    else if not
        (mechanism == spec.cc_ams_rr || mechanism == spec.cc_ams_wrr || mechanism == spec.cc_ams_vs)
    then returns (pos 1)
    else if not (leb arb.arbitration_config 1)
    then returns (pos 1)
    else if arb.arbitration_config == 1 && not (mechanism == spec.cc_ams_wrr)
    then returns (pos 1)
    else next
  where
    mechanism : ℕ
    mechanism = arb.arbitration_mechanism

-- The part behind the options. The message on an ignored `-M` changes nothing.
unfoldable pub check_settings : NvmeSpec → Settings → Parsed
unfolding check_workload check_arbitration
check_settings spec s =
    check_workload arb (check_arbitration spec arb (proceed (record s { arb = decided })))
  where
    open s use {arb}

    decided : ArbContext
    decided = record arb {
      rw_percentage = percentage_of arb.workload_type arb.rw_percentage;
      is_random = not (is_one_of arb.workload_type "read" "write" || str_eq arb.workload_type "rw");
    }

-- `parse_args`: `proceed` is the return code 0.
unfoldable pub parse_args : NvmeSpec → Parsers → List (ℕ × String) → Settings → Parsed
unfolding parse_options check_settings
parse_args spec p options s = parse_options p options s >>= check_settings spec
