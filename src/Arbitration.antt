-- ===== src/Arbitration.antt =====
-- The state of the arbitration benchmark (examples/arbitration/arbitration.cc): its structs, its
-- configuration, and what it takes from SPDK. The operations are in the child modules.
use Prim.Native.String.{String}
use zns_emulation_bench.Prelude.{ℕ, ℤ, Bool, List}
pub mod Loop
pub mod Worker
pub mod Setup
pub mod Pool
pub mod Features
pub mod Args
pub mod Main
pub mod Tests

pub data Op : Type 0 where
  read write append : Op

-- A command handed to the device: the operation, its first block and its number of blocks.
pub record Command : Type 0 where
  pub op : Op
  pub lba : ℕ
  pub blocks : ℕ

-- `struct ns_entry`; the controller and the namespace are named by their identifiers.
pub record NsEntry : Type 0 where
  pub ctrlr : ℕ
  pub ns : ℕ
  pub io_size_blocks : ℕ
  pub size_in_ios : ℕ

-- `struct ns_worker_ctx`; the queue pair is the list of the commands in flight, oldest first.
pub record NsWorkerCtx : Type 0 where
  pub entry : NsEntry
  pub io_completed : ℕ
  pub current_queue_depth : ℕ
  pub offset_in_ios : ℕ
  pub is_draining : Bool
  pub qpair : List Command

-- `struct worker_thread`.
pub record WorkerThread : Type 0 where
  pub ns_ctx : List NsWorkerCtx
  pub lcore : ℕ
  pub qprio : ℕ

-- `struct arb_context`.
pub record ArbContext : Type 0 where
  pub shm_id : ℤ
  pub outstanding_commands : ℕ
  pub num_namespaces : ℕ
  pub num_workers : ℕ
  pub rw_percentage : ℤ
  pub is_random : Bool
  pub queue_depth : ℤ
  pub time_in_sec : ℤ
  pub io_count : ℤ
  pub latency_tracking_enable : ℕ
  pub arbitration_mechanism : ℕ
  pub arbitration_config : ℕ
  pub io_size_bytes : ℕ
  pub max_completions : ℕ
  pub tsc_rate : ℕ
  pub core_mask : String
  pub workload_type : String

-- What SPDK answers on one thread: whether its n-th buffer allocation succeeds, whether its n-th
-- command is accepted, whether the n-th queue pair is given, and the thread's `rand_r`.
pub record Spdk : Type 0 where
  pub dma_zmalloc : ℕ → Bool
  pub accepts : ℕ → Bool
  pub alloc_io_qpair : ℕ → Bool
  pub rand_r : ℕ → ℕ × ℕ
