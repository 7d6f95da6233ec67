-- ===== src/Arbitration/Main/Tests.antt =====
-- A run of `main` with two controllers and one core.
use zns_emulation_bench.Prelude.{
  ℕ, ◌≡◌, refl, true, false, if◌then◌else◌, ◌==◌, [], ◌∷◌, some, none, pos, negsuc,
}
use zns_emulation_bench.Exec.{done, exited}
use zns_emulation_bench.Arbitration.Features.{Admin}
use zns_emulation_bench.Arbitration.Setup.{
  App, register_ns, register_each, register_workers, associate_loop, associate_workers_with_ns,
  task_count,
}
use zns_emulation_bench.Arbitration.Main.{
  Controller, Released, Machine, track, register_each_ns, arbitrate, register_ctrlr, zns_dev_init,
  unregister_each, free_entries, free_workers, cleanup, zstore_cleanup, main_worker_of, launch,
  run_workers, when_connected, when_registered, main,
}
use zns_emulation_bench.Arbitration.Main.Ending.{
  Leaves, to_detach, after_workers, main-EndsReleased,
}

abbrev quiet : Admin
quiet = record { outstanding_commands = 0; result = 0; valid = false; in_flight = []; polls = [] }

abbrev pub controller : ℕ → Controller
controller id = record {
  id = id;
  allocated = true;
  active =
      none
      ∷ some (record { id = 1; size = 65536; sector_size = 512; extended_sector_size = 512 }, true)
      ∷ [];
  tracks_latency = false;
  has_wrr = false;
  admin = quiet;
  takes_tracking = true;
  takes_get = true;
  takes_set = true;
}

-- The main worker returns 0.
abbrev pub machine : Machine
machine = record {
  spec = record {
    qprio_urgent = 0;
    create_io_sq_qprio_mask = 3;
    cap_ams_wrr = 1;
    cc_ams_rr = 0;
    cc_ams_wrr = 1;
    cc_ams_vs = 7;
  };
  burst_unlimited = 7;
  env_init = true;
  tsc_rate = 1000;
  cores = (0, true) ∷ [];
  first = controller 5;
  second = controller 6;
  mallocs = λ k. true;
  has_pool = true;
  counts_null = false;
  main_core = 0;
  run = λ ws w size. if size == 16 then 0 else 1;
}

abbrev pub app : App
app = record {
  arb = record {
    shm_id = negsuc 0;
    outstanding_commands = 0;
    num_namespaces = 0;
    num_workers = 0;
    rw_percentage = pos 100;
    is_random = false;
    queue_depth = pos 8;
    time_in_sec = pos 3;
    io_count = pos 100;
    latency_tracking_enable = 0;
    arbitration_mechanism = 0;
    arbitration_config = 0;
    io_size_bytes = 4096;
    max_completions = 0;
    tsc_rate = 0;
    core_mask = "0x1";
    workload_type = "read";
  };
  controllers = [];
  namespaces = [];
  workers = [];
}

-- Two namespaces and one core share 16 tasks; the program returns 0 and has detached both controllers.
ended_well :
    (x : ℕ × Released) × (main machine app ≡ done x) × (x.0 ≡ 0) × (x.1.detached ≡ 5 ∷ 6 ∷ [])
unfolding main when_registered register_workers register_each zns_dev_init register_ctrlr track
    register_each_ns register_ns arbitrate when_connected associate_workers_with_ns associate_loop
    run_workers main_worker_of launch task_count zstore_cleanup unregister_each cleanup free_entries
    free_workers
ended_well = (_, refl, refl, refl)

main-EndsReleased_example :
    Leaves (to_detach machine (after_workers machine app).0) (main machine app)
main-EndsReleased_example =
    main-EndsReleased machine app refl (record { counted = refl; listed = refl })

-- Without a pool the look at it need not return.
no_pool : (x : ℕ × Released) × (main (record machine { has_pool = false }) app ≡ exited x)
unfolding main when_registered register_workers register_each zns_dev_init register_ctrlr track
    register_each_ns register_ns arbitrate when_connected associate_workers_with_ns associate_loop
    run_workers main_worker_of launch task_count zstore_cleanup unregister_each cleanup free_entries
    free_workers
no_pool = (_, refl)
