-- ===== src/Verify.antt =====
-- The write-and-verify loop of examples/multipath/verification.cc: every append is read back and
-- compared. The rest of that program is that of examples/arbitration/arbitration.cc.
pub mod Steps
pub mod Sound
pub mod Balance
pub mod Distinct
pub mod Worker
pub mod Tests
use zns_emulation_bench.Prelude.{
  ℕ, zero, suc, ◌+◌, ◌-◌, ◌*◌, ◌%◌, Bool, true, false, not, ◌&&◌, if◌then◌else◌, ltb, ◌==◌, Option,
  none, some, List, [], ◌∷◌, ◌++◌, get_elem?, remove_at, length, take, min, pos_part, u32, u64,
  dec64, bits64,
}
use zns_emulation_bench.Exec.{Exec, done, exited, ◌>>=◌}
use zns_emulation_bench.Arbitration.{NsEntry, ArbContext, Spdk}
use zns_emulation_bench.Text.{Bytes, codes, to_string, same_text}

-- The text that the `count`-th write stores.
unfoldable pub data_pattern : ℕ → Bytes
unfolding to_string
data_pattern count =
    codes "zstore1:"
    ++ (to_string count ++ (codes ":pattern:" ++ to_string (u64 (count * 0xDEADBEEF))))

-- `struct arb_task` in flight. `stored` is what the command's buffer holds when a write is submitted.
pub record Task : Type 0 where
  pub lba : ℕ
  pub verification_mode : Bool
  pub expected_data : Bytes
  pub stored : Bytes

-- `struct ns_worker_ctx`, with the task pool, the seed, the number of submissions tried, and the
-- number of times that "starting I/O failed" was printed.
pub record Verifier : Type 0 where
  pub entry : NsEntry
  pub io_completed : ℕ
  pub current_queue_depth : ℕ
  pub offset_in_ios : ℕ
  pub is_draining : Bool
  pub qpair : List Task
  pub count : ℕ
  pub write_completed : ℕ
  pub read_completed : ℕ
  pub verification_passed : ℕ
  pub verification_failed : ℕ
  pub pending_reads : List (ℕ × Bytes)
  pub task_pool : ℕ
  pub seed : ℕ
  pub calls : ℕ
  pub failures : ℕ

-- The end of `submit_single_io`: a refused command gives its buffer and its task back.
unfoldable pub finish_submit : Spdk → Task → Verifier → Verifier
finish_submit env task v =
    if env.accepts v.calls
    then record v {
      current_queue_depth = u64 (v.current_queue_depth + 1);
      qpair = v.qpair ++ task ∷ [];
      calls = v.calls + 1;
    }
    else record v { task_pool = v.task_pool + 1; calls = v.calls + 1; failures = v.failures + 1 }

abbrev read_task : ℕ → Bytes → Task
read_task lba expected = record {
  lba = lba;
  verification_mode = true;
  expected_data = expected;
  stored = [];
}

abbrev write_task : ArbContext → ℕ → Task
write_task cfg count = record {
  lba = 0;
  verification_mode = false;
  expected_data = data_pattern count;
  stored = take (cfg.io_size_bytes - 1) (data_pattern count);
}

-- The offset of a write moves on, though an append takes no offset.
unfoldable pub next_offset : Spdk → ArbContext → Verifier → Verifier
next_offset env cfg v =
    if cfg.is_random
    then record v { seed = (env.rand_r v.seed).1 }
    else record v { offset_in_ios = if next == v.entry.size_in_ios then 0 else next }
  where
    next : ℕ
    next = u64 (v.offset_in_ios + 1)

-- `submit_single_io(ns_ctx, true, verify_lba, expected_data)` with a task and a buffer.
unfoldable pub submit_read : Spdk → ℕ → Bytes → Verifier → Verifier
unfolding finish_submit
submit_read env lba expected v =
    finish_submit env (read_task lba expected) (record v { task_pool = v.task_pool - 1 })

-- `submit_single_io(ns_ctx, false, 0, "")` with a task and a buffer.
unfoldable pub submit_write : Spdk → ArbContext → Verifier → Verifier
unfolding finish_submit next_offset
submit_write env cfg v =
    finish_submit env (write_task cfg v.count)
      (next_offset env cfg (record v { task_pool = v.task_pool - 1; count = u64 (v.count + 1) }))

-- `submit_single_io` ends in `exit(1)` without a task or without a buffer.
abbrev pub with_task : Spdk → Verifier → Verifier → Exec Verifier
with_task env v submitted =
    if v.task_pool == 0
    then exited v
    else if not (env.dma_zmalloc v.calls)
    then exited v
    else done submitted

unfoldable pub submit_single_io : Spdk → ArbContext → Option (ℕ × Bytes) → Verifier → Exec Verifier
unfolding submit_read submit_write
submit_single_io env cfg none v = with_task env v (submit_write env cfg v)
submit_single_io env cfg (some (lba, expected)) v = with_task env v (submit_read env lba expected v)

-- What the device reports of a command: its place in the queue pair, `cdw0`, and the text that a
-- read leaves in its buffer.
pub record Reply : Type 0 where
  pub place : ℕ
  pub cdw0 : ℕ
  pub data_read : Bytes

-- `std::string::substr` of both texts up to the length of the expected one, and at most 50.
unfoldable pub is_verified : Bytes → Bytes → Bool
is_verified expected got = same_text (take n got) (take n expected)
  where
    n : ℕ
    n = min (length expected) 50

-- The bookkeeping of `task_complete` for a read, and for a write, whose block is `cdw0`.
unfoldable pub record_reply : Task → Reply → Verifier → Verifier
unfolding is_verified
record_reply task reply v =
    if task.verification_mode
    then (if is_verified task.expected_data reply.data_read
        then record v {
          read_completed = u64 (v.read_completed + 1);
          verification_passed = u64 (v.verification_passed + 1);
        }
        else record v {
          read_completed = u64 (v.read_completed + 1);
          verification_failed = u64 (v.verification_failed + 1);
        })
    else record v {
      write_completed = u64 (v.write_completed + 1);
      pending_reads = v.pending_reads ++ (u32 reply.cdw0, task.expected_data) ∷ [];
    }

-- `task_complete` up to the return of the task.
unfoldable pub retire : Task → Reply → Verifier → Verifier
unfolding record_reply
retire task reply v = record_reply task reply (record v {
  current_queue_depth = dec64 v.current_queue_depth;
  io_completed = u64 (v.io_completed + 1);
  qpair = remove_at v.qpair reply.place;
  task_pool = v.task_pool + 1;
})

-- What replaces a completed command: the oldest pending read, if there is one and there is room.
unfoldable pub replace : Spdk → ArbContext → List (ℕ × Bytes) → Verifier → Exec Verifier
unfolding submit_single_io
replace env cfg [] v = submit_single_io env cfg none v
replace env cfg (p ∷ ps) v =
    if ltb v.current_queue_depth (bits64 cfg.queue_depth)
    then submit_single_io env cfg (some p) (record v { pending_reads = ps })
    else submit_single_io env cfg none v

-- `io_complete` and `task_complete`. The device replies only to commands in flight.
unfoldable pub task_complete : Spdk → ArbContext → Reply → Verifier → Exec Verifier
unfolding retire replace
task_complete env cfg reply v = elim (get_elem? v.qpair reply.place) [
  | none ↦ done v
  | some task ↦
      let r = retire task reply v in
      if r.is_draining then done r else replace env cfg r.pending_reads r
]

unfoldable pub complete_each : Spdk → ArbContext → List Reply → Verifier → Exec Verifier
unfolding task_complete
complete_each env cfg [] v = done v
complete_each env cfg (r ∷ rs) v = task_complete env cfg r v >>= complete_each env cfg rs

-- The loop of `submit_io`.
unfoldable pub submit_writes : Spdk → ArbContext → ℕ → Verifier → Exec Verifier
unfolding submit_single_io
submit_writes env cfg zero v = done v
submit_writes env cfg (suc n) v = submit_single_io env cfg none v >>= submit_writes env cfg n

-- The life of a verifier: `submit_io`, then whatever completions the device reports.
unfoldable pub run_verifier : Spdk → ArbContext → List Reply → Verifier → Exec Verifier
unfolding submit_writes complete_each
run_verifier env cfg replies v =
    submit_writes env cfg (pos_part cfg.queue_depth) v >>= complete_each env cfg replies
