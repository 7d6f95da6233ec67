-- ===== src/Zones/Ends.antt =====
-- When the polling of examples/zns_nvme_test.cc ends.
use zns_emulation_bench.Prelude.{
  ℕ, ◌+◌, ◌<◌, ◌≤◌, ◌≡◌, ◌⊎◌, inl, inr, sym, ap, subst, ◌∙◌, true, if◌then◌else◌, if_true, if_false,
  Bool-cases, Option-cases, ◌==◌, Option, none, some, List, [], ◌∷◌, ◌++◌, get_elem?, remove_at,
  length, length-append, length-remove_at, All, All-append, All-remove_at, All-get_elem?, u64,
  dec64, arith, eq_nil_of_length,
}
use zns_emulation_bench.Exec.{Exec, done, waiting}
use zns_emulation_bench.Zones.{
  Device, Request, reset, append, read, Context, Answer, zone_starts, succeed, read_complete,
  submit_each, filled, read_zone, write_zone_complete, write_each, call_back, answer, answer_each,
  poll_queued, accepts_both, write_zone,
}

abbrev IsAppend : Request → Type 0
IsAppend (append b) = Unit
IsAppend (read b) = ⊥
IsAppend (reset b) = ⊥

abbrev IsRead : Request → Type 0
IsRead (append b) = ⊥
IsRead (read b) = Unit
IsRead (reset b) = ⊥

-- Appends are in flight, and `count` is short of the two by those that have succeeded.
record IsWriting (c : Context) : Type 0 where
  appends : All IsAppend c.in_flight
  queued : c.num_queued ≡ length c.in_flight
  counted : c.count ≡ length c.in_flight + c.num_fail
  positive : 0 < c.count
  small : c.count ≤ 2
  two_zones : 0 < c.zone_size

-- Reads are in flight, and more is counted as queued than there are.
record IsReading (c : Context) : Type 0 where
  reads : All IsRead c.in_flight
  over : length c.in_flight < c.num_queued
  bounded : c.num_queued ≤ 3

read_complete-IsReading :
    (a : Answer) (c : Context)
    → All IsRead c.in_flight
    → length c.in_flight + 1 < c.num_queued
    → c.num_queued ≤ 3
    → IsReading (read_complete a c)
unfolding read_complete
read_complete-IsReading a c r o b = ground arith

starts_of_zones : (n : ℕ) → 0 < n → zone_starts n ≡ 0 ∷ n ∷ []
starts_of_zones n h = if_false {b = n == 0} [] (0 ∷ n ∷ []) (ground (arith, h))

submit_reads-IsReading :
    (d : Device) (bs : List ℕ) (c : Context)
    → All IsRead c.in_flight
    → length c.in_flight < c.num_queued
    → c.num_queued + length bs ≤ 3
    → IsReading (submit_each d read bs c)
unfolding submit_each
submit_reads-IsReading d [] c r o b = record { reads = r; over = o; bounded = omega (arith, b) }
submit_reads-IsReading d (s ∷ ss) c r o b = elim (Bool-cases (d.accepts c.calls)) [
  | inl t ↦ subst IsReading (sym (if_true _ _ t)) (
      submit_reads-IsReading d ss _ (All-append IsRead c.in_flight (read s ∷ []) r (tt, tt))
        (omega (arith, o, b, length-append c.in_flight (read s ∷ []))) (omega (arith, b)))
  | inr t ↦
      subst IsReading (sym (if_false _ _ t))
        (record { reads = r; over = omega (arith, o, b); bounded = omega (arith, b) })
]

read_zone-IsReading :
    (d : Device) (c : Context)
    → 0 < c.zone_size
    → c.in_flight ≡ []
    → c.num_queued ≡ 0
    → IsReading (read_zone d c)
unfolding read_zone
read_zone-IsReading d c z e q =
    submit_reads-IsReading d (zone_starts c.zone_size) _ (subst (All IsRead) (sym e) tt)
      (omega (arith, q, ap length e)) (omega (arith, q, ap length (starts_of_zones c.zone_size z)))

-- The callback of an append, which is no longer in flight.
write_zone_complete-keeps :
    (d : Device) (a : Answer) (c : Context)
    → All IsAppend c.in_flight
    → c.num_queued ≡ length c.in_flight + 1
    → c.count ≡ length c.in_flight + 1 + c.num_fail
    → c.count ≤ 2
    → 0 < c.zone_size
    → IsWriting (write_zone_complete d a c) ⊎ IsReading (write_zone_complete d a c)
unfolding write_zone_complete
write_zone_complete-keeps d a c r q n s z = elim (Bool-cases a.is_error) [
  | inl t ↦ inl (
      subst IsWriting (sym (if_true _ _ t)) (record {
        appends = r;
        queued = omega (arith, q, n, s);
        counted = omega (arith, n, s);
        positive = omega (arith, n);
        small = s;
        two_zones = z;
      }))
  | inr t ↦ elim (Bool-cases (dec64 c.count == 0)) [
    | inl u ↦ inr (
        subst IsReading (sym (if_false _ _ t ∙ if_true _ _ u)) (
          read_zone-IsReading d good z (eq_nil_of_length c.in_flight (ground (arith, u, n, s)))
            (ground (arith, u, q, n, s))))
    | inr u ↦ inl (
        subst IsWriting (sym (if_false _ _ t ∙ if_false _ _ u)) (record {
          appends = r;
          queued = omega (arith, q, n, s);
          counted = omega (arith, n, s);
          positive = ground (arith, u, n, s);
          small = omega (arith, n, s);
          two_zones = z;
        }))
  ]
]
  where
    good : Context
    good = succeed (record c { num_completed = u64 (c.num_completed + 1); count = dec64 c.count })

abbrev IsRunning : Context → Type 0
IsRunning c = IsWriting c ⊎ IsReading c

call_back-writing :
    (d : Device) (r : Request) (a : Answer) (c : Context)
    → get_elem? c.in_flight a.place ≡ some r
    → IsAppend r
    → IsWriting c
    → IsRunning (call_back d r a (record c { in_flight = remove_at c.in_flight a.place }))
unfolding call_back
call_back-writing d (append b) a c e h w =
    let l = length-remove_at c.in_flight a.place e in
    write_zone_complete-keeps d a _ (All-remove_at IsAppend c.in_flight a.place w.appends)
      (omega (arith, l, w.queued)) (omega (arith, l, w.counted)) w.small w.two_zones
call_back-writing d (read b) a c e h w = absurd h
call_back-writing d (reset b) a c e h w = absurd h

call_back-reading :
    (d : Device) (r : Request) (a : Answer) (c : Context)
    → get_elem? c.in_flight a.place ≡ some r
    → IsRead r
    → IsReading c
    → IsRunning (call_back d r a (record c { in_flight = remove_at c.in_flight a.place }))
unfolding call_back
call_back-reading d (read b) a c e h w =
    let l = length-remove_at c.in_flight a.place e in
    inr (
      read_complete-IsReading a (record c { in_flight = remove_at c.in_flight a.place })
        (All-remove_at IsRead c.in_flight a.place w.reads) (omega (arith, l, w.over)) w.bounded)
call_back-reading d (append b) a c e h w = absurd h
call_back-reading d (reset b) a c e h w = absurd h

answer-IsRunning : (d : Device) (a : Answer) (c : Context) → IsRunning c → IsRunning (answer d a c)
unfolding answer
answer-IsRunning d a c h = elim (Option-cases (get_elem? c.in_flight a.place)) [
  | inl e ↦ subst (λ o. IsRunning (answered o)) (sym e) h
  | inr (r, e) ↦
      subst (λ o. IsRunning (answered o)) (sym e)
        (elim h [
          | inl w ↦
              call_back-writing d r a c e (All-get_elem? IsAppend c.in_flight a.place w.appends e) w
          | inr w ↦
              call_back-reading d r a c e (All-get_elem? IsRead c.in_flight a.place w.reads e) w
        ])
]
  where
    answered : Option Request → Context
    answered none = c
    answered (some r) = call_back d r a (record c { in_flight = remove_at c.in_flight a.place })

answer_each-IsRunning :
    (d : Device) (p : List Answer) (c : Context) → IsRunning c → IsRunning (answer_each d p c)
unfolding answer_each
answer_each-IsRunning d [] c h = h
answer_each-IsRunning d (a ∷ p) c h =
    answer_each-IsRunning d p (answer d a c) (answer-IsRunning d a c h)

-- How a polling loop ends: after a failure, or not with what the device reports.
abbrev pub EndsFailed : Exec Context → Type 0
EndsFailed m = ((c : Context) × (m ≡ done c) × (0 < c.num_fail)) ⊎ ((c : Context) × (m ≡ waiting c))

failed_at_rest : (c : Context) → IsRunning c → c.num_queued ≡ 0 → 0 < c.num_fail
failed_at_rest c (inl w) q = omega (arith, w.queued, w.counted, w.positive, q)
failed_at_rest c (inr w) q = absurd (omega (arith, w.over, q))

poll_queued-EndsFailed :
    (d : Device) (ps : List (List Answer)) (c : Context)
    → IsRunning c
    → EndsFailed (poll_queued d ps c)
unfolding poll_queued
poll_queued-EndsFailed d [] c h = elim (Bool-cases (c.num_queued == 0)) [
  | inl t ↦ inl (c, if_true _ _ t, failed_at_rest c h (ground (arith, t)))
  | inr t ↦ inr (c, if_false _ _ t)
]
poll_queued-EndsFailed d (p ∷ ps) c h = elim (Bool-cases (c.num_queued == 0)) [
  | inl t ↦ inl (c, if_true _ _ t, failed_at_rest c h (ground (arith, t)))
  | inr t ↦
      subst EndsFailed (sym (if_false _ _ t))
        (poll_queued-EndsFailed d ps (answer_each d p c) (answer_each-IsRunning d p c h))
]

write_each-IsWriting :
    (d : Device) (c : Context)
    → 0 < c.zone_size
    → c.in_flight ≡ []
    → c.num_queued ≡ 0
    → c.num_fail ≡ 0
    → d.accepts c.calls ≡ true
    → d.accepts (c.calls + 1) ≡ true
    → IsWriting (write_each d c)
unfolding write_each submit_each
write_each-IsWriting d c z e q f a a' =
    subst (λ bs. IsWriting (submit_each d append bs (begun c)))
      (sym (starts_of_zones c.zone_size z))
      (subst IsWriting (sym (if_true _ _ a ∙ if_true _ _ a')) (record {
        appends = subst (λ rs. All IsAppend (both rs)) (sym e) (tt, (tt, tt));
        queued = omega (arith, q, ap (λ rs. length (both rs)) e);
        counted = omega (arith, f, ap (λ rs. length (both rs)) e);
        positive = omega arith;
        small = omega arith;
        two_zones = z;
      }))
  where
    begun : Context → Context
    begun c = record c { count = 2; write_buff = filled 0x12 c.buff_size }

    both : List Request → List Request
    both rs = (rs ++ append 0 ∷ []) ++ append c.zone_size ∷ []

-- On a namespace with zones, with nothing queued, in flight or failed, and with both appends taken by the
-- device: whatever the device reports, and in whatever order, `write_zone` returns only after some command
-- has failed; in particular it does not return when everything has gone well.
pub write_zone-EndsFailed :
    (d : Device) (polls : List (List Answer)) (c : Context)
    → 0 < c.zone_size
    → c.in_flight ≡ []
    → c.num_queued ≡ 0
    → c.num_fail ≡ 0
    → d.accepts c.calls ≡ true
    → d.accepts (c.calls + 1) ≡ true
    → EndsFailed (write_zone d polls c)
unfolding write_zone
write_zone-EndsFailed d polls c z e q f a a' =
    subst EndsFailed
      (sym (
        if_false {b = c.zone_size == 0} _
          (if accepts_both d c.calls then rest else done (write_each d c)) (ground (arith, z))
        ∙ if_true {b = accepts_both d c.calls} rest (done (write_each d c)) (if_true _ _ a ∙ a')))
      (poll_queued-EndsFailed d polls (write_each d c)
        (inl (write_each-IsWriting d c z e q f a a')))
  where
    rest : Exec Context
    rest = poll_queued d polls (write_each d c)
