-- ===== src/Arbitration/Tests.antt =====
-- Small runs of the arbitration benchmark.
use zns_emulation_bench.Prelude.{
  ℕ, ◌+◌, ◌*◌, ◌%◌, ◌≤◌, ◌<◌, ◌≡◌, ◌≢◌, ◌⊎◌, refl, true, false, inl, inr, List, [], ◌∷◌, pos,
  negsuc, u64, arith, not, ◌==◌,
}
use zns_emulation_bench.Exec.{done, exited}
use zns_emulation_bench.Arbitration.{
  read, Command, NsEntry, NsWorkerCtx, WorkerThread, ArbContext, Spdk,
}
use zns_emulation_bench.Arbitration.Loop
use zns_emulation_bench.Arbitration.Worker
use zns_emulation_bench.Arbitration.Loop.{Thread, read_at, submit_times, drain_io}
use zns_emulation_bench.Arbitration.Loop.Invariant.{Inv}
use zns_emulation_bench.Arbitration.Loop.Drain.{drain_io_ends}
use zns_emulation_bench.Arbitration.Loop.Submit.{submit_times-offset}
use zns_emulation_bench.Arbitration.Worker.{Work, Round, tsc_end_of, work_fn}
use zns_emulation_bench.Arbitration.Worker.Invariant.{IsEntry}
use zns_emulation_bench.Arbitration.Worker.Phases.{AllFrom}
use zns_emulation_bench.Arbitration.Worker.Total.{Drained, IsNew, work_fn_total}
use zns_emulation_bench.Arbitration.Setup.{
  App, Namespace, new_entry, new_ctx, register_ns, associate_loop, task_count,
}
use zns_emulation_bench.Arbitration.Setup.Namespaces.{Covers, register_ns_cases}
use zns_emulation_bench.Arbitration.Setup.Association.{round_robin, associate_loop-round_robin}
use zns_emulation_bench.Arbitration.Pool.{task_count_enough, one_namespace_one_worker_exits}

-- Everything is given, but the second command is refused.
abbrev pub env : Spdk
env = record {
  dma_zmalloc = λ k. true;
  accepts = λ k. not (k == 1);
  alloc_io_qpair = λ k. true;
  rand_r = λ seed. (seed * 7, seed + 1);
}

abbrev pub cfg : ArbContext
cfg = record {
  shm_id = negsuc 0;
  outstanding_commands = 0;
  num_namespaces = 1;
  num_workers = 1;
  rw_percentage = pos 100;
  is_random = false;
  queue_depth = pos 2;
  time_in_sec = pos 3;
  io_count = pos 100;
  latency_tracking_enable = 0;
  arbitration_mechanism = 0;
  arbitration_config = 0;
  io_size_bytes = 4096;
  max_completions = 0;
  tsc_rate = 10;
  core_mask = "0x3";
  workload_type = "read";
}

abbrev pub entry : NsEntry
entry = record { ctrlr = 0; ns = 1; io_size_blocks = 8; size_in_ios = 5 }

abbrev command : ℕ → Command
command lba = record { op = read; lba = lba; blocks = 8 }

abbrev busy : Thread
busy = record {
  ctx = record {
    entry = entry;
    io_completed = 7;
    current_queue_depth = 2;
    offset_in_ios = 3;
    is_draining = false;
    qpair = command 8 ∷ command 16 ∷ [];
  };
  task_pool = 1;
  seed = 0;
  calls = 4;
  failures = 1;
}

busy-Inv : Inv 4 entry (λ _. Unit) busy
busy-Inv = record {
  same = refl;
  depth = refl;
  balance = refl;
  offset = omega arith;
  commands = (tt, (tt, tt));
}

drain_io_ends_example :
    (t' : Thread) × (drain_io env cfg read_at ([] ∷ (1 ∷ []) ∷ (0 ∷ []) ∷ []) busy ≡ done t')
    × (t'.ctx.current_queue_depth ≡ 0)
    × (t'.ctx.qpair ≡ [])
    × (t'.calls ≡ 4)
    × (u64 t'.ctx.io_completed ≡ u64 9)
    × (t'.task_pool + 1 ≡ 4)
drain_io_ends_example =
    drain_io_ends env cfg read_at 4 entry (omega arith) (omega arith)
      ([] ∷ (1 ∷ []) ∷ (0 ∷ []) ∷ []) busy busy-Inv refl

submit_times-offset_example :
    (t' : Thread) × (submit_times env cfg read_at 3 (record busy { task_pool = 3 }) ≡ done t')
    × (t'.ctx.offset_in_ios ≡ (3 + 3) % 5)
submit_times-offset_example =
    submit_times-offset env cfg read_at (λ k. refl) refl 5 (omega arith) 3
      (record busy { task_pool = 3 }) refl (omega arith) (omega arith)

abbrev rounds : List Round
rounds = record { reaped = (0 ∷ []) ∷ []; ticks = 20 } ∷ record { reaped = []; ticks = 51 } ∷ []

abbrev last_polls : List (List (List ℕ))
last_polls = ((0 ∷ []) ∷ [] ∷ (0 ∷ []) ∷ []) ∷ []

abbrev work : Work
work = record { ctxs = new_ctx entry ∷ []; task_pool = 2; seed = 0; calls = 0; failures = 0 }

work_fn_total_example :
    (w' : Work) × (work_fn env cfg read_at 20 rounds last_polls work ≡ (0, done w'))
    × AllFrom Drained 0 w'.ctxs
    × (w'.task_pool + w'.failures ≡ 2)
unfolding tsc_end_of Worker.for_each Worker.init_contexts Loop.submit_io Loop.submit_task
    Worker.poll_loop Loop.check_io
work_fn_total_example =
    work_fn_total env cfg (λ k. refl) 2 (omega arith) 20 rounds last_polls work (λ k. refl) new refl
      (omega arith) (inr (inl (omega arith))) (refl, tt)
  where
    new : IsNew (new_ctx entry) × Unit {0}
    new = (
      record { entry_ok = omega arith; not_empty = omega arith; no_depth = refl; at_start = refl },
      tt,
    )

-- The second command was refused, so one task of two is lost.
abbrev app : App
app = record { arb = cfg; controllers = []; namespaces = []; workers = [] }

abbrev namespace : Namespace
namespace = record { id = 1; size = 1000000; sector_size = 512; extended_sector_size = 512 }

register_ns_cases_example :
    ((1000000 < 4096) ⊎ (4096 < 512) ⊎ (◌≢◌ {A = ℕ} (4096 % 512) 0))
      × (register_ns true 3 namespace app ≡ done app)
    ⊎ (4096 ≤ 1000000)
      × (512 ≤ 4096)
      × (◌≡◌ {A = ℕ} (4096 % 512) 0)
      × (register_ns true 3 namespace app
          ≡ done (record app {
            arb = record cfg { num_namespaces = 2 };
            namespaces = new_entry 4096 3 namespace ∷ [];
          }))
      × Covers namespace (new_entry 4096 3 namespace)
      × IsEntry (new_entry 4096 3 namespace)
register_ns_cases_example = register_ns_cases 3 namespace app (omega arith) (omega arith)

abbrev worker : ℕ → WorkerThread
worker core = record { ns_ctx = []; lcore = core; qprio = 0 }

associate_loop-round_robin_example :
    associate_loop
      (entry ∷ record entry { ns = 2 } ∷ [])
      3
      0
      0
      (λ k. true)
      (worker 0 ∷ worker 1 ∷ [])
    ≡ (0, round_robin (entry ∷ record entry { ns = 2 } ∷ []) 3 0 (worker 0 ∷ worker 1 ∷ []))
associate_loop-round_robin_example =
    associate_loop-round_robin (entry ∷ record entry { ns = 2 } ∷ []) 3 0 (λ k. true)
      (worker 0 ∷ worker 1 ∷ []) (omega arith) (omega arith) (λ k. refl)

task_count_enough_example : 2 * 2 ≤ task_count (record cfg { num_workers = 3 })
task_count_enough_example =
    task_count_enough (record cfg { num_workers = 3 }) 2 2 refl (omega arith) (omega arith)
      (omega arith) (omega arith)

one_namespace_one_worker_exits_example :
    (ctxs : List NsWorkerCtx) × (associate_loop (entry ∷ []) 2 0 0 (λ k. true) (worker 0 ∷ [])
      ≡ (0, record (worker 0) { ns_ctx = ctxs } ∷ []))
    × (w' : Work) × (work_fn env cfg read_at 20 rounds last_polls
          (record { ctxs = ctxs; task_pool = task_count cfg; seed = 0; calls = 0; failures = 0 })
        ≡ (0, exited w'))
one_namespace_one_worker_exits_example =
    one_namespace_one_worker_exits env cfg read_at entry (worker 0) 2 (λ k. true) 20 0 rounds
      last_polls (λ k. refl) (λ k. refl) refl (omega arith) (omega arith) refl refl
