-- ===== src/Arbitration/Features/Waiting.antt =====
-- Which waits of examples/arbitration/arbitration.cc end.
use mathlib.Core.Option.{some-injective}
use zns_emulation_bench.Prelude.{
  ℕ, ◌+◌, ◌-◌, ◌<◌, ◌≡◌, refl, true, false, not, if◌then◌else◌, if_true, if_false, eq_zero, ne_zero,
  ap, ◌∙◌, Option, none, some, List, [], ◌∷◌, ◌++◌, arith,
}
use zns_emulation_bench.Exec.{done, waiting}
use zns_emulation_bench.Arbitration.Features.{
  Cpl, Request, get_arbitration, set_arbitration, track_latency, Admin, call_back, answer_each,
  user_weights, no_weights, wait_loop, get_feature, get_arb_feature, set_arb_feature,
}

answer_each-none : (p : List Cpl) (a : Admin) → answer_each p [] a ≡ record a { in_flight = [] }
unfolding answer_each
answer_each-none [] a = refl
answer_each-none (c ∷ cs) a = refl

-- With no command in flight, a wait for one never ends.
wait_loop-waiting :
    (polls : List (List Cpl)) (a : Admin)
    → a.in_flight ≡ []
    → 0 < a.outstanding_commands
    → (a' : Admin) × (wait_loop polls a ≡ waiting a')
unfolding wait_loop
wait_loop-waiting [] a e h =
    (record a { polls = [] }, if_false _ _ (ne_zero a.outstanding_commands h))
wait_loop-waiting (p ∷ ps) a e h =
    let (u, w) = wait_loop-waiting ps (record a { in_flight = [] }) refl h in
    (
      u,
      if_false _ _ (ne_zero a.outstanding_commands h)
          ∙ ap (wait_loop ps) (ap (λ rs. answer_each p rs a) e ∙ answer_each-none p a)
          ∙ w,
    )

-- With no admin command in flight, if the get-features command is refused, `get_arb_feature` still
-- polls when the device has given all its answers, however many those are.
pub get_arb_feature_hangs :
    (a : Admin) → a.in_flight ≡ [] → (a' : Admin) × (get_arb_feature false a ≡ waiting a')
unfolding get_arb_feature get_feature
get_arb_feature_hangs a e =
    wait_loop-waiting a.polls
      (record a { valid = false; outstanding_commands = a.outstanding_commands + 1 }) e
      (omega arith)

-- The first answer that the coming polls hold, and the polls behind it.
abbrev pub first_answer : List (List Cpl) → Option Cpl
first_answer [] = none
first_answer ([] ∷ ps) = first_answer ps
first_answer ((c ∷ cs) ∷ ps) = some c

abbrev pub after_answer : List (List Cpl) → List (List Cpl)
after_answer [] = []
after_answer ([] ∷ ps) = after_answer ps
after_answer ((c ∷ cs) ∷ ps) = ps

call_back-outstanding :
    (r : Request) (c : Cpl) (a : Admin)
    → (call_back r c a).outstanding_commands ≡ a.outstanding_commands - 1
unfolding call_back
call_back-outstanding get_arbitration c a = ground arith
call_back-outstanding (set_arbitration w) c a = ground arith
call_back-outstanding (track_latency b) c a = refl

wait_loop-stops :
    (polls : List (List Cpl)) (a : Admin)
    → a.outstanding_commands ≡ 0
    → wait_loop polls a ≡ done (record a { polls = polls })
unfolding wait_loop
wait_loop-stops [] a e = if_true _ _ (eq_zero a.outstanding_commands e)
wait_loop-stops (p ∷ ps) a e = if_true _ _ (eq_zero a.outstanding_commands e)

-- A wait for one command ends with its answer.
wait_loop-one :
    (polls : List (List Cpl)) (r : Request) (c : Cpl) (a : Admin)
    → a.in_flight ≡ r ∷ []
    → a.outstanding_commands ≡ 1
    → first_answer polls ≡ some c
    → wait_loop polls a
      ≡ done (record (call_back r c a) { in_flight = []; polls = after_answer polls })
unfolding wait_loop answer_each
wait_loop-one [] r c a e h f = cc
wait_loop-one ([] ∷ ps) r c a e h f =
    if_false _ _ (ne_zero a.outstanding_commands (omega arith)) ∙ wait_loop-one ps r c a e h f
wait_loop-one ((c' ∷ cs) ∷ ps) r c a e h f =
    if_false _ _ (ne_zero a.outstanding_commands (omega arith))
    ∙ ap (wait_loop ps)
        (ap (λ rs. answer_each (c' ∷ cs) rs a) e ∙ answer_each-none cs (call_back r c' a) ∙ given)
    ∙ wait_loop-stops ps answered (omega (arith, call_back-outstanding r c a))
  where
    answered : Admin
    answered = record (call_back r c a) { in_flight = [] }

    given : record (call_back r c' a) { in_flight = [] } ≡ answered
    given =
        ap {B = Admin} (λ (x : Cpl). record (call_back r x a) { in_flight = [] })
          (some-injective c' c f)

-- With no admin command in flight or outstanding, and an answer to come, `get_arb_feature` with an
-- accepted command ends with the first answer of the device: the
-- feature is valid if that is no error, its value is the answer's, and nothing is outstanding.
pub get_arb_feature_reads :
    (a : Admin) (c : Cpl)
    → a.in_flight ≡ []
    → a.outstanding_commands ≡ 0
    → first_answer a.polls ≡ some c
    → (a' : Admin) × (get_arb_feature true a ≡ done a')
      × (a'.valid ≡ not c.is_error)
      × (a'.result ≡ (if c.is_error then a.result else c.cdw0))
      × (a'.outstanding_commands ≡ 0)
      × (a'.in_flight ≡ [])
unfolding get_arb_feature get_feature
get_arb_feature_reads a c e h f = (
  record (call_back get_arbitration c asked) { in_flight = []; polls = after_answer a.polls },
  wait_loop-one a.polls get_arbitration c asked (ap (λ rs. rs ++ get_arbitration ∷ []) e)
      (omega arith) f,
  unfold call_back in ground arith,
  unfold call_back in ground arith,
  omega (arith, call_back-outstanding get_arbitration c asked),
  refl,
)
  where
    asked : Admin
    asked = record a {
      outstanding_commands = a.outstanding_commands + 1;
      valid = false;
      in_flight = a.in_flight ++ get_arbitration ∷ [];
    }

-- With no admin command in flight and an answer to come, `set_arb_feature` returns 1 at once if its command is refused, and 0 with the first
-- answer otherwise; the feature stays valid only if it was, and the answer is no error.
pub set_arb_feature_ends :
    (unlimited : ℕ) (a : Admin) (c : Cpl)
    → a.in_flight ≡ []
    → first_answer a.polls ≡ some c
    → (set_arb_feature unlimited false a ≡ (1, done (record a { outstanding_commands = 0 })))
      × (a' : Admin) × (set_arb_feature unlimited true a ≡ (0, done a'))
      × (a'.valid ≡ (if c.is_error then false else a.valid))
      × (a'.result ≡ a.result)
      × (a'.outstanding_commands ≡ 0)
      × (a'.in_flight ≡ [])
unfolding set_arb_feature
set_arb_feature_ends unlimited a c e f = (
  refl,
  record (call_back request c asked) { in_flight = []; polls = after_answer a.polls },
  ap (λ m. (0, m))
      (wait_loop-one a.polls request c asked (ap (λ rs. rs ++ request ∷ []) e) (omega arith) f),
  unfold call_back in ground arith,
  unfold call_back in ground arith,
  omega (arith, call_back-outstanding request c asked),
  refl,
)
  where
    request : Request
    request = set_arbitration (if a.valid then user_weights unlimited else no_weights)

    asked : Admin
    asked = record a { outstanding_commands = 0 + 1; in_flight = a.in_flight ++ request ∷ [] }
