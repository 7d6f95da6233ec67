-- ===== src/Zones/Tests.antt =====
-- Small runs of the zone test.
use zns_emulation_bench.Prelude.{◌≡◌, refl, true, false, List, [], ◌∷◌, pos, arith}
use zns_emulation_bench.Exec.{final}
use zns_emulation_bench.Text.{same_text}
use zns_emulation_bench.Zones.{
  Device, reset, Context, Answer, read_complete, submit_each, read_zone, write_zone_complete,
  write_each, reset_zone_complete, reset_each, reset_zone, call_back, answer, answer_each,
  poll_queued, write_zone,
}
use zns_emulation_bench.Zones.Reset.{IsResetting, reset_zone-IsResetting}
use zns_emulation_bench.Zones.Ends.{EndsFailed, write_zone-EndsFailed}

abbrev device : Device
device = record { accepts = λ k. true; no_memory = λ k. false }

abbrev fresh : Context
fresh = record {
  zone_size = 8;
  buff_size = 2;
  num_queued = 0;
  num_completed = 0;
  num_success = 0;
  num_fail = 0;
  count = 0;
  write_buff = [];
  read_buff = [];
  in_flight = [];
  freed = false;
  stops = [];
  calls = 0;
}

abbrev good : Answer
good = record { place = 0; is_error = false; data_read = 0x12 ∷ 0x12 ∷ [] }

abbrev all_good : List (List Answer)
all_good = (good ∷ []) ∷ (good ∷ good ∷ []) ∷ (good ∷ []) ∷ []

abbrev written : Context
written = final (write_zone device all_good fresh)

-- All four commands have succeeded, the queue pair is freed, and one more command is waited for.
written_waits :
    (written.num_success ≡ 4
      × written.num_fail ≡ 0
      × written.num_queued ≡ 1
      × written.freed ≡ true
      × written.stops ≡ pos 0 ∷ [])
unfolding write_zone write_each submit_each poll_queued answer_each answer call_back
    write_zone_complete read_zone read_complete same_text
written_waits = (refl, refl, refl, refl, refl)

-- The zones at 8 and 16 are reset, not those at 0 and 8, and the first answer ends it.
abbrev was_reset : Context
was_reset = final (reset_zone device ((good ∷ []) ∷ []) fresh)

was_reset_waits :
    (was_reset.in_flight ≡ reset 16 ∷ []
      × was_reset.num_queued ≡ 0
      × was_reset.count ≡ 1
      × was_reset.write_buff ≡ [])
unfolding reset_zone reset_each poll_queued answer_each answer call_back reset_zone_complete
was_reset_waits = (refl, refl, refl, refl)

write_zone-EndsFailed_example : EndsFailed (write_zone device all_good fresh)
write_zone-EndsFailed_example =
    write_zone-EndsFailed device all_good fresh (omega arith) refl refl refl refl refl

reset_zone-IsResetting_example : IsResetting [] was_reset
reset_zone-IsResetting_example = reset_zone-IsResetting device ((good ∷ []) ∷ []) fresh refl
