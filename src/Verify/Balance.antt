-- ===== src/Verify/Balance.antt =====
-- examples/multipath/verification.cc gives every task back, also that of a refused command.
use zns_emulation_bench.Prelude.{
  ℕ, ◌+◌, ◌<◌, ◌≡◌, some, List, [], ◌∷◌, get_elem?, length, length-append, length-remove_at, u64,
  arith, ◌^◌,
}
use zns_emulation_bench.Exec.{Exec, done, exited, waiting, final}
use zns_emulation_bench.Arbitration.{ArbContext, Spdk}
use zns_emulation_bench.Verify.Steps.{AreAnswers, IsKept, run_verifier-Kept}
use zns_emulation_bench.Text.{Bytes}
use zns_emulation_bench.Verify.{
  Task, Verifier, Reply, finish_submit, next_offset, submit_read, submit_write, run_verifier,
  record_reply, retire, task_complete,
}

-- Every task is in the pool or in flight, and the queue depth and the counters agree with that.
pub record IsBalanced (total : ℕ) (v : Verifier) : Type 0 where
  pub tasks : v.task_pool + length v.qpair ≡ total
  pub depth : v.current_queue_depth ≡ length v.qpair
  pub verdicts : v.read_completed ≡ u64 (v.verification_passed + v.verification_failed)
  pub completions : v.io_completed ≡ u64 (v.write_completed + v.read_completed)

module _ (env : Spdk) (cfg : ArbContext) (total : ℕ) (small : total < 2 ^ 64) where
  -- What a submission finds, with a task taken.
  record IsTaken (v : Verifier) : Type 0 where
    tasks : v.task_pool + 1 + length v.qpair ≡ total
    depth : v.current_queue_depth ≡ length v.qpair
    verdicts : v.read_completed ≡ u64 (v.verification_passed + v.verification_failed)
    completions : v.io_completed ≡ u64 (v.write_completed + v.read_completed)

  finish_submit-IsBalanced :
      (t : Task) (v : Verifier) → IsTaken v → IsBalanced total (finish_submit env t v)
  unfolding finish_submit
  finish_submit-IsBalanced t v s =
      ground (arith, length-append v.qpair (t ∷ []), s.tasks, s.depth, s.verdicts, s.completions)

  next_offset-IsTaken : (v : Verifier) → IsTaken v → IsTaken (next_offset env cfg v)
  unfolding next_offset
  next_offset-IsTaken v s = ground (arith, s.tasks, s.depth, s.verdicts, s.completions)

  submit_write-IsBalanced :
      (v : Verifier)
      → 0 < v.task_pool
      → IsBalanced total v
      → IsBalanced total (submit_write env cfg v)
  unfolding submit_write
  submit_write-IsBalanced v n s = finish_submit-IsBalanced _ _ (
      next_offset-IsTaken _ (record {
        tasks = omega (arith, n, s.tasks);
        depth = s.depth;
        verdicts = s.verdicts;
        completions = s.completions;
      }))

  submit_read-IsBalanced :
      (p : ℕ × Bytes) (v : Verifier)
      → 0 < v.task_pool
      → IsBalanced total v
      → IsBalanced total (submit_read env p.0 p.1 v)
  unfolding submit_read
  submit_read-IsBalanced p v n s = finish_submit-IsBalanced _ _ (record {
    tasks = omega (arith, n, s.tasks);
    depth = s.depth;
    verdicts = s.verdicts;
    completions = s.completions;
  })

  retire-IsBalanced :
      (t : Task) (r : Reply) (v : Verifier)
      → get_elem? v.qpair r.place ≡ some t
      → IsBalanced total v
      → IsBalanced total (retire t r v)
  unfolding retire record_reply
  retire-IsBalanced t r v e s =
      ground
        (arith, length-remove_at v.qpair r.place e, s.tasks, s.depth, s.verdicts, s.completions)

  pub IsBalanced-IsKept : IsKept env cfg (λ v r. Unit) (IsBalanced total)
  IsBalanced-IsKept = record {
    write = λ v n s. submit_write-IsBalanced v n s;
    read = λ p ps v e n s. submit_read-IsBalanced p _ n (drop_pending ps v s);
    unread = λ p ps v e s. drop_pending ps v s;
    retires = λ t r v e h s. retire-IsBalanced t r v e s;
  }
    where
      drop_pending :
          (ps : List (ℕ × Bytes)) (v : Verifier)
          → IsBalanced total v
          → IsBalanced total (record v { pending_reads = ps })
      drop_pending ps v s = record {
        tasks = s.tasks;
        depth = s.depth;
        verdicts = s.verdicts;
        completions = s.completions;
      }

no_answer_needed :
    (env : Spdk) (cfg : ArbContext) (replies : List Reply) (m : Exec Verifier)
    → AreAnswers env cfg (λ v r. Unit) m replies
no_answer_needed env cfg [] (done v) = tt
no_answer_needed env cfg (r ∷ rs) (done v) =
    (tt, no_answer_needed env cfg rs (task_complete env cfg r v))
no_answer_needed env cfg rs (exited v) = tt
no_answer_needed env cfg rs (waiting v) = tt

-- Whatever the device accepts, gives and reports, a run keeps a balanced verifier balanced: every
-- task is in the pool or in flight, also after refused commands, the queue depth is the number of
-- commands in flight, and up to the wrap at 64 bits the reads completed are those that passed and those
-- that failed, and the I/Os completed are the writes and the reads. There are fewer than 2^64 tasks.
pub run_verifier-IsBalanced :
    (env : Spdk) (cfg : ArbContext) (total : ℕ) (replies : List Reply) (v : Verifier)
    → total < 2 ^ 64
    → IsBalanced total v
    → IsBalanced total (final (run_verifier env cfg replies v))
run_verifier-IsBalanced env cfg total replies v small s =
    run_verifier-Kept (IsBalanced-IsKept env cfg total small) replies v
      (no_answer_needed env cfg replies _) s
