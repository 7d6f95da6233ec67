-- ===== src/Variants.antt =====
-- The programs that share the worker of Bench: what their contexts of one thread share, and the view
-- of one context that the operations of Arbitration.Loop take.
pub mod Sampling
pub mod Counting
pub mod Marking
pub mod Writing
pub mod Measuring
pub mod Targets
use zns_emulation_bench.Prelude.{ℕ}
use zns_emulation_bench.Arbitration.{NsWorkerCtx}
use zns_emulation_bench.Arbitration.Loop.{Thread}

-- The task pool, the thread's seed, and the number of submissions tried.
pub record Shared : Type 0 where
  pub task_pool : ℕ
  pub seed : ℕ
  pub calls : ℕ

abbrev pub thread_of : NsWorkerCtx → ℕ → Shared → Thread
thread_of c failures g = record {
  ctx = c;
  task_pool = g.task_pool;
  seed = g.seed;
  calls = g.calls;
  failures = failures;
}

abbrev pub shared_of : Thread → Shared
shared_of t = record { task_pool = t.task_pool; seed = t.seed; calls = t.calls }
