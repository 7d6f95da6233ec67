-- ===== src/BdevTest/Tests.antt =====
-- A run of examples/rw_test.cc that passes, and one step of one that does not.
use zns_emulation_bench.Prelude.{
  ℕ, zero, suc, ◌≡◌, refl, subst, true, false, List, [], ◌∷◌, ◌++◌, map, ◌*◌, u32, arith,
}
use zns_emulation_bench.BdevTest.{Bdev, Context, filled, append_times, Start, test_start, run}
use zns_emulation_bench.BdevTest.Phases.{Places, succeeds}
use zns_emulation_bench.BdevTest.Passes.{reads, Passed}
use zns_emulation_bench.BdevTest.Whole.{test_start-Passed}

abbrev willing : Bdev
willing = record { accepts = λ k. true; no_memory = λ k. false }

abbrev unwilling : Bdev
unwilling = record { accepts = λ k. false; no_memory = λ k. false }

abbrev fresh : Context
fresh = record {
  zone_size = 4096;
  buff_size = 8;
  count = 0;
  write_buff = [];
  read_buff = [];
  in_flight = [];
  waits = [];
  closed = 0;
  stops = [];
  calls = 0;
}

-- The loop goes on behind a refused append, and puts the channel each time.
put_twice : (append_times unwilling 0 2 fresh).closed ≡ 2
unfolding append_times
put_twice = refl

-- The youngest command ends first.
abbrev youngest : ℕ → List ℕ
youngest zero = []
youngest (suc n) = n ∷ youngest n

youngest-Places : (n : ℕ) → Places (youngest n) n
youngest-Places zero = refl
youngest-Places (suc n) =
    (omega arith, subst (Places (youngest n)) (omega arith) (youngest-Places n))

abbrev given : Start
given = record {
  opens = true;
  has_channel = true;
  has_write_buff = true;
  has_read_buff = true;
  is_zoned = true;
  block_size = 8;
  write_unit_size = 1;
  zone_blocks = 4096;
}

test_start-Passed_example :
    Passed willing
      (λ k. refl)
      fresh
      (run willing
        (map succeeds (youngest 10)
          ++ (map succeeds (youngest 1024) ++ reads (filled 0x12 (u32 (8 * 1))) 1024))
        (test_start willing given fresh))
test_start-Passed_example =
    test_start-Passed willing (λ k. refl) given (youngest 10) (youngest 1024) fresh refl refl refl
      refl refl (omega arith) refl (youngest-Places 10) (youngest-Places 1024)
