-- ===== src/Variants/Targets.antt =====
-- `zns_dev_init` of the programs in examples/multipath: one, two or three targets are connected to, and
-- each one's controller is registered at once.
pub mod Registered
pub mod Tests
use zns_emulation_bench.Prelude.{ℕ, List, [], ◌∷◌}
use zns_emulation_bench.Exec.{Exec, done, exited, waiting, ◌>>=◌}
use zns_emulation_bench.Arbitration.Setup.{NvmeSpec, App}
use zns_emulation_bench.Arbitration.Main.{Controller, register_ctrlr}

-- `register_ctrlr(spdk_nvme_connect(...))` for each target that could be connected to.
unfoldable pub connect_each : NvmeSpec → ℕ → List Controller → App → Exec App
unfolding register_ctrlr
connect_each spec unlimited [] app = done app
connect_each spec unlimited (c ∷ cs) app =
    register_ctrlr spec unlimited c app >>= connect_each spec unlimited cs

-- mp_one_drive_read.cc.
unfoldable pub one_target : NvmeSpec → ℕ → Controller → App → Exec App
unfolding connect_each
one_target spec unlimited c = connect_each spec unlimited (c ∷ [])

-- two_targets_read.cc.
unfoldable pub two_targets : NvmeSpec → ℕ → Controller → Controller → App → Exec App
unfolding connect_each
two_targets spec unlimited c1 c2 = connect_each spec unlimited (c1 ∷ c2 ∷ [])

-- three_target_reads.cc and three_target_writes.cc.
unfoldable pub three_targets : NvmeSpec → ℕ → Controller → Controller → Controller → App → Exec App
unfolding connect_each
three_targets spec unlimited c1 c2 c3 = connect_each spec unlimited (c1 ∷ c2 ∷ c3 ∷ [])
