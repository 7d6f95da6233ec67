-- ===== src/Verify/Tests.antt =====
-- Small runs of the write-and-verify loop.
use mathlib.Core.Option.{some-injective}
use zns_emulation_bench.Prelude.{
  List, All, ◌+◌, ◌*◌, ◌≡◌, refl, subst, true, false, [], ◌∷◌, take, pos, negsuc, not, arith,
  if◌then◌else◌, ◌==◌, pos_part,
}
use zns_emulation_bench.Exec.{final}
use zns_emulation_bench.Arbitration.{ArbContext, Spdk}
use zns_emulation_bench.Text.{codes, to_string, same_text}
use zns_emulation_bench.Verify.{
  data_pattern, Verifier, Reply, read_task, write_task, finish_submit, next_offset, submit_read,
  submit_write, submit_single_io, submit_writes, run_verifier, is_verified, record_reply, retire,
  replace, task_complete, complete_each,
}
use zns_emulation_bench.Verify.Steps.{AreAnswers}
use zns_emulation_bench.Verify.Sound.{Media, IsHonest, IsAnswer, no_false_alarm}
use zns_emulation_bench.Verify.Balance.{IsBalanced, run_verifier-IsBalanced}
use zns_emulation_bench.Verify.Distinct.{other_write-fails}
use zns_emulation_bench.Bench.{Round}
use zns_emulation_bench.Verify.Worker.{verify_fn}
use zns_emulation_bench.Verify.Worker.Life.{IsNew, verify_fn-IsBalanced}

-- The second command is refused.
abbrev env : Spdk
env = record {
  dma_zmalloc = λ k. true;
  accepts = λ k. not (k == 1);
  alloc_io_qpair = λ k. true;
  rand_r = λ seed. (seed * 7, seed + 1);
}

abbrev cfg : ArbContext
cfg = record {
  shm_id = negsuc 0;
  outstanding_commands = 0;
  num_namespaces = 1;
  num_workers = 1;
  rw_percentage = pos 0;
  is_random = false;
  queue_depth = pos 2;
  time_in_sec = pos 3;
  io_count = pos 100;
  latency_tracking_enable = 0;
  arbitration_mechanism = 0;
  arbitration_config = 0;
  io_size_bytes = 4096;
  max_completions = 0;
  tsc_rate = 10;
  core_mask = "0x3";
  workload_type = "write";
}

abbrev fresh : Verifier
fresh = record {
  entry = record { ctrlr = 0; ns = 1; io_size_blocks = 8; size_in_ios = 5 };
  io_completed = 0;
  current_queue_depth = 0;
  offset_in_ios = 0;
  is_draining = false;
  qpair = [];
  count = 0;
  write_completed = 0;
  read_completed = 0;
  verification_passed = 0;
  verification_failed = 0;
  pending_reads = [];
  task_pool = 2;
  seed = 0;
  calls = 0;
  failures = 0;
}

pattern_0_text : codes "zstore1:0:pattern:0" ≡ data_pattern 0
unfolding data_pattern to_string
pattern_0_text = refl

pattern_2_text : data_pattern 2 ≡ codes "zstore1:2:pattern:7471857118"
unfolding data_pattern to_string
pattern_2_text = refl

-- Block 7 holds the text of the first write.
abbrev media : Media
media b = if b == 7 then take 4095 (data_pattern 0) else []

-- The write ends in block 7, which is then read back.
abbrev written : Reply
written = record { place = 0; cdw0 = 7; data_read = [] }

abbrev read_back : Reply
read_back = record { place = 0; cdw0 = 0; data_read = media 7 }

honest_run :
    AreAnswers env cfg
      (IsAnswer media)
      (submit_writes env cfg (pos_part cfg.queue_depth) fresh)
      (written ∷ read_back ∷ [])
unfolding submit_writes submit_single_io submit_write submit_read next_offset finish_submit
    task_complete retire record_reply replace same_text data_pattern to_string is_verified
honest_run = (
  (λ t e.
      subst (λ x. IsHonest media x written) (some-injective (write_task cfg 0) t e)
        (record { stores = λ m. refl; returns = λ m. absurd (cc) })),
  (
    (λ t e.
        subst (λ x. IsHonest media x read_back) (some-injective (read_task 7 (data_pattern 0)) t e)
          (record { stores = λ m. absurd (cc); returns = λ m. refl })),
    tt,
  ),
)

abbrev ended : Verifier
ended = final (run_verifier env cfg (written ∷ read_back ∷ []) fresh)

-- One of the two writes is refused; the other is read back, and its text is as expected.
ended_counters :
    (ended.verification_passed ≡ 1
      × ended.failures ≡ 1
      × ended.write_completed ≡ 1
      × ended.task_pool ≡ 1)
unfolding run_verifier complete_each submit_writes submit_single_io submit_write submit_read
    next_offset finish_submit task_complete retire record_reply replace is_verified data_pattern
    to_string same_text
ended_counters = (refl, refl, refl, refl)

no_false_alarm_example :
    (ended.verification_failed ≡ 0 × ended.verification_passed ≡ ended.read_completed)
no_false_alarm_example =
    no_false_alarm env cfg media (written ∷ read_back ∷ []) fresh (omega arith) refl refl refl refl
      honest_run

run_verifier-IsBalanced_example : IsBalanced 2 ended
unfolding run_verifier
run_verifier-IsBalanced_example =
    run_verifier-IsBalanced env cfg 2 (written ∷ read_back ∷ []) fresh (omega arith)
      (record { tasks = refl; depth = refl; verdicts = refl; completions = refl })

abbrev wrong_read : Reply
wrong_read = record { place = 0; cdw0 = 0; data_read = codes "zstore1:1:pattern:0" }

abbrev reading : Verifier
reading = record fresh {
  qpair = read_task 7 (codes "zstore1:0:pattern:0") ∷ [];
  current_queue_depth = 1;
}

abbrev judged : Verifier
judged = retire (read_task 7 (codes "zstore1:0:pattern:0")) wrong_read reading

judged_failed : judged.verification_failed ≡ 1
unfolding retire record_reply is_verified same_text
judged_failed = refl

-- Block 7 holds the text of the write before.
other_write-fails_example : is_verified (data_pattern 12) (take 4095 (data_pattern 11)) ≡ false
other_write-fails_example =
    other_write-fails 12 11 4096 (omega arith) (omega arith) (omega arith) (omega arith)

fresh-IsNew : IsNew 2 fresh
fresh-IsNew = record {
  idle = refl;
  at_rest = refl;
  balanced = record { tasks = refl; depth = refl; verdicts = refl; completions = refl };
}

abbrev first_write : Reply
first_write = record { place = 0; cdw0 = 7; data_read = [] }

abbrev rounds : List (Round Reply)
rounds =
    record { reaped = (first_write ∷ []) ∷ []; ticks = 20 }
    ∷ record { reaped = []; ticks = 51 }
    ∷ []

verify_fn-IsBalanced_example :
    All (IsBalanced 2) (final (verify_fn env cfg 20 rounds ((first_write ∷ []) ∷ []) fresh)).1.0
verify_fn-IsBalanced_example =
    verify_fn-IsBalanced env cfg 2 (omega arith) 20 rounds ((first_write ∷ []) ∷ []) fresh
      fresh-IsNew
