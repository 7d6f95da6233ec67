-- ===== src/Arbitration/Features.antt =====
-- examples/arbitration/arbitration.cc: the admin commands for the arbitration feature and for Intel's
-- latency tracking, and the loops that wait for them.
pub mod Waiting
pub mod Tests
use zns_emulation_bench.Prelude.{
  ℕ, zero, suc, ◌+◌, ◌-◌, Bool, true, false, if◌then◌else◌, ◌==◌, List, [], ◌∷◌, ◌++◌,
}
use zns_emulation_bench.Exec.{Exec, done, waiting, ◌>>=◌}

-- What a completion queue entry says: `spdk_nvme_cpl_is_error`, and `cdw0`.
pub record Cpl : Type 0 where
  pub is_error : Bool
  pub cdw0 : ℕ

-- The weights in `cdw11` of a set-features command.
pub record Weights : Type 0 where
  pub burst : ℕ
  pub low : ℕ
  pub medium : ℕ
  pub high : ℕ

-- An admin command in flight, with the callback that it will have.
pub data Request : Type 0 where
  get_arbitration : Request
  set_arbitration : Weights → Request
  track_latency : Bool → Request

-- `g_arbitration.outstanding_commands`, `features[SPDK_NVME_FEAT_ARBITRATION]`, the admin commands in
-- flight, oldest first, and what the coming polls of the admin queue answer, oldest command first.
pub record Admin : Type 0 where
  pub outstanding_commands : ℕ
  pub result : ℕ
  pub valid : Bool
  pub in_flight : List Request
  pub polls : List (List Cpl)

-- `get_feature_completion`.
unfoldable pub get_feature_completion : Cpl → Admin → Admin
get_feature_completion cpl a =
    let a' = record a { outstanding_commands = a.outstanding_commands - 1 } in
    if cpl.is_error then a' else record a' { result = cpl.cdw0; valid = true }

-- `set_feature_completion`.
unfoldable pub set_feature_completion : Cpl → Admin → Admin
set_feature_completion cpl a =
    let a' = record a { outstanding_commands = a.outstanding_commands - 1 } in
    if cpl.is_error then record a' { valid = false } else a'

-- `enable_latency_tracking_complete`.
unfoldable pub enable_latency_tracking_complete : Cpl → Admin → Admin
enable_latency_tracking_complete cpl a = record a {
  outstanding_commands = a.outstanding_commands - 1;
}

unfoldable pub call_back : Request → Cpl → Admin → Admin
unfolding get_feature_completion set_feature_completion enable_latency_tracking_complete
call_back get_arbitration cpl a = get_feature_completion cpl a
call_back (set_arbitration w) cpl a = set_feature_completion cpl a
call_back (track_latency b) cpl a = enable_latency_tracking_complete cpl a

-- One `spdk_nvme_ctrlr_process_admin_completions`: an answer goes to the oldest command in flight.
unfoldable pub answer_each : List Cpl → List Request → Admin → Admin
unfolding call_back
answer_each [] rs a = record a { in_flight = rs }
answer_each (c ∷ cs) [] a = record a { in_flight = [] }
answer_each (c ∷ cs) (r ∷ rs) a = answer_each cs rs (call_back r c a)

-- `while (g_arbitration.outstanding_commands) spdk_nvme_ctrlr_process_admin_completions(ctrlr);`
unfoldable pub wait_loop : List (List Cpl) → Admin → Exec Admin
unfolding answer_each
wait_loop [] a =
    if a.outstanding_commands == 0
    then done (record a { polls = [] })
    else waiting (record a { polls = [] })
wait_loop (p ∷ ps) a =
    let go = wait_loop ps (answer_each p a.in_flight a) in
    if a.outstanding_commands == 0 then done (record a { polls = p ∷ ps }) else go

abbrev pub wait : Admin → Exec Admin
wait a = wait_loop a.polls a

-- `spdk_nvme_ctrlr_cmd_admin_raw`: a command that is accepted is in flight.
abbrev pub send : Bool → Request → Admin → Admin
send accepted r a = if accepted then record a { in_flight = a.in_flight ++ r ∷ [] } else a

-- `get_feature`; `accepted` is whether its return code is 0.
unfoldable pub get_feature : Bool → Admin → Admin
get_feature accepted a = send accepted get_arbitration (record a { valid = false })

abbrev pub count_one : Admin → Admin
count_one a = record a { outstanding_commands = a.outstanding_commands + 1 }

-- `get_arb_feature` looks at no return code.
unfoldable pub get_arb_feature : Bool → Admin → Exec Admin
unfolding get_feature wait_loop
get_arb_feature accepted a = wait (count_one (get_feature accepted a))

-- The burst stays a parameter: SPDK_NVME_ARBITRATION_BURST_UNLIMITED is in SPDK's headers.
abbrev pub user_weights : ℕ → Weights
user_weights unlimited = record { burst = unlimited; low = 8; medium = 16; high = 32 }

abbrev pub no_weights : Weights
no_weights = record { burst = 0; low = 0; medium = 0; high = 0 }

-- `set_arb_feature`: the weights are set only if the feature was read.
unfoldable pub set_arb_feature : ℕ → Bool → Admin → ℕ × Exec Admin
unfolding wait_loop
set_arb_feature unlimited accepted a =
    if accepted then (0, wait (count_one sent)) else (1, done fresh)
  where
    fresh : Admin
    fresh = record a { outstanding_commands = 0 }

    sent : Admin
    sent =
        send accepted (set_arbitration (if a.valid then user_weights unlimited else no_weights))
          fresh

-- `set_latency_tracking_feature` returns at once if the command is refused.
unfoldable pub set_latency_tracking_feature : Bool → Bool → Admin → Exec Admin
unfolding wait_loop
set_latency_tracking_feature enable accepted a =
    if accepted then wait (count_one (send accepted (track_latency enable) a)) else done a
