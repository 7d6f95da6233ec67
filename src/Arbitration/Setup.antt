-- ===== src/Arbitration/Setup.antt =====
-- examples/arbitration/arbitration.cc: the namespaces, the workers, and who serves what.
pub mod Namespaces
pub mod Association
use Prim.Native.Nat.{bit_and}
use zns_emulation_bench.Prelude.{
  ℕ, zero, suc, ◌+◌, ◌/◌, ◌%◌, Bool, true, false, not, ◌||◌, if◌then◌else◌, ltb, ◌==◌, Option, none,
  some, List, [], ◌∷◌, ◌++◌, length, get_elem?, set, max, u32, pos_part, ℤ, bits32, ◌*◌,
}
use zns_emulation_bench.Exec.{Exec, done, exited}
use zns_emulation_bench.Arbitration.{NsEntry, NsWorkerCtx, WorkerThread, ArbContext}

-- The constants of SPDK's headers that the program names.
pub record NvmeSpec : Type 0 where
  pub qprio_urgent : ℕ
  pub create_io_sq_qprio_mask : ℕ
  pub cap_ams_wrr : ℕ
  pub cc_ams_rr : ℕ
  pub cc_ams_wrr : ℕ
  pub cc_ams_vs : ℕ

-- What SPDK tells of a namespace.
pub record Namespace : Type 0 where
  pub id : ℕ
  pub size : ℕ
  pub sector_size : ℕ
  pub extended_sector_size : ℕ

-- The global lists and the global configuration.
pub record App : Type 0 where
  pub arb : ArbContext
  pub controllers : List ℕ
  pub namespaces : List NsEntry
  pub workers : List WorkerThread

-- The guard of `register_ns`.
abbrev pub is_unsuitable : ℕ → Namespace → Bool
is_unsuitable io_size ns =
    ltb ns.size io_size
    || (ltb io_size ns.extended_sector_size || not (io_size % ns.extended_sector_size == 0))

abbrev pub new_entry : ℕ → ℕ → Namespace → NsEntry
new_entry io_size ctrlr ns = record {
  ctrlr = ctrlr;
  ns = ns.id;
  io_size_blocks = u32 (io_size / ns.sector_size);
  size_in_ios = ns.size / io_size;
}

-- `allocated` says whether `malloc` returned the entry.
unfoldable pub register_ns : Bool → ℕ → Namespace → App → Exec App
register_ns allocated ctrlr ns app =
    if is_unsuitable arb.io_size_bytes ns
    then done app
    else if not allocated
    then exited app
    else done (record app {
      arb = record arb { num_namespaces = arb.num_namespaces + 1 };
      namespaces = app.namespaces ++ new_entry arb.io_size_bytes ctrlr ns ∷ [];
    })
  where
    open app use {arb}

-- The queue priority of the next worker: one more under weighted round robin.
abbrev pub next_qprio : NvmeSpec → ArbContext → ℕ → ℕ
next_qprio spec arb qprio =
    if arb.arbitration_mechanism == spec.cap_ams_wrr then qprio + 1 else qprio

-- The loop of `register_workers` over the cores, with whether each `calloc` succeeds.
unfoldable pub register_each : NvmeSpec → ℕ → List (ℕ × Bool) → App → Bool × App
register_each spec qprio [] app = (true, app)
register_each spec qprio ((core, allocated) ∷ cores) app =
    let go = register_each spec qprio' cores (record app {
      arb = record arb { num_workers = arb.num_workers + 1 };
      workers = app.workers ++ worker ∷ [];
    }) in
    if allocated then go else (false, app)
  where
    open app use {arb}

    qprio' : ℕ
    qprio' = next_qprio spec arb qprio

    worker : WorkerThread
    worker = record {
      ns_ctx = [];
      lcore = core;
      qprio = bit_and qprio' spec.create_io_sq_qprio_mask;
    }

-- `register_workers`: `false` stands for the return code -1.
unfoldable pub register_workers : NvmeSpec → List (ℕ × Bool) → App → Bool × App
unfolding register_each
register_workers spec cores app = register_each spec spec.qprio_urgent cores app

-- `malloc` and `memset`, and the namespace.
abbrev pub new_ctx : NsEntry → NsWorkerCtx
new_ctx entry = record {
  entry = entry;
  io_completed = 0;
  current_queue_depth = 0;
  offset_in_ios = 0;
  is_draining = false;
  qpair = [];
}

-- `TAILQ_NEXT`, and `TAILQ_FIRST` behind the last: a position in a list of `n`.
abbrev pub next_in : ℕ → ℕ → ℕ
next_in n i = if i + 1 == n then 0 else i + 1

-- `TAILQ_INSERT_TAIL(&worker->ns_ctx, ns_ctx, link)` for the worker at a position.
abbrev pub give_ctx : ℕ → NsEntry → List WorkerThread → List WorkerThread
give_ctx j entry [] = []
give_ctx zero entry (w ∷ ws) = record w { ns_ctx = w.ns_ctx ++ new_ctx entry ∷ [] } ∷ ws
give_ctx (suc j) entry (w ∷ ws) = w ∷ give_ctx j entry ws

-- The loop of `associate_workers_with_ns`: `n` rounds are left, `e` and `w` are the positions of
-- `entry` and `worker`. The second list says whether each `malloc` succeeds.
unfoldable pub associate_loop :
    List NsEntry → ℕ → ℕ → ℕ → (ℕ → Bool) → List WorkerThread → ℕ × List WorkerThread
associate_loop entries zero e w mallocs workers = (0, workers)
associate_loop entries (suc n) e w mallocs workers = elim (get_elem? entries e) [
  | none ↦ (0, workers)
  | some entry ↦
      let go =
        associate_loop entries n (next_in (length entries) e) (next_in (length workers) w) mallocs
          (give_ctx w entry workers) in
      if mallocs n then go else (1, workers)
]

-- `count` is set to 2 behind its computation; the programs of examples/multipath set it to theirs.
unfoldable pub associate_workers_with_ns : ℕ → (ℕ → Bool) → App → ℕ × App
unfolding associate_loop
associate_workers_with_ns count mallocs app =
    let (rc, workers) = associate_loop app.namespaces count 0 0 mallocs app.workers in
    (rc, record app { workers = workers })

-- The size of the task pool that `main` creates: a `uint32_t` times an `int`.
unfoldable pub task_count : ArbContext → ℕ
task_count arb = u32 (
    u32 (if ltb arb.num_workers arb.num_namespaces then arb.num_namespaces else arb.num_workers)
    * bits32 arb.queue_depth)
