-- ===== src/Arbitration/Loop/Range.antt =====
-- The blocks that examples/arbitration/arbitration.cc reads lie in the namespace, in every workload.
use zns_emulation_bench.Prelude.{ℕ, ◌+◌, ◌*◌, ◌^◌, ◌≤◌, ◌<◌, arith}
use zns_emulation_bench.Arbitration.{Command, NsEntry}
use zns_emulation_bench.Arbitration.Loop.{read_at}

-- The command touches only blocks of the namespace that whole I/Os cover.
abbrev pub InRange : NsEntry → Command → Type 0
InRange entry cmd = cmd.lba + cmd.blocks ≤ entry.size_in_ios * entry.io_size_blocks

last_io : (o size blocks : ℕ) → o < size → o * blocks + blocks ≤ size * blocks
last_io o size blocks h = grind arith

pub read_at-InRange :
    (entry : NsEntry)
    → entry.size_in_ios * entry.io_size_blocks < 2 ^ 64
    → (o : ℕ) → o < entry.size_in_ios
    → InRange entry (read_at o entry.io_size_blocks)
unfolding read_at
read_at-InRange entry whole o h = omega (arith, last_io o entry.size_in_ios entry.io_size_blocks h)
