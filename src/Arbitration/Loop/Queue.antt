-- ===== src/Arbitration/Loop/Queue.antt =====
-- The queue pair of one context of examples/arbitration/arbitration.cc and its variants: each submission
-- puts one command in flight or counts one failure, and the queue depth counts the commands in flight.
use zns_emulation_bench.Prelude.{
  ℕ, ◌+◌, ◌≡◌, some, [], ◌∷◌, length, length-append, length-remove_at, get_elem?, u64, arith,
}
use zns_emulation_bench.Arbitration.{Command, ArbContext, Spdk}
use zns_emulation_bench.Arbitration.Loop.{Thread, take_offset, issue, retire}

abbrev pub IsCounted : Thread → Type 0
IsCounted t = t.ctx.current_queue_depth ≡ u64 (length t.ctx.qpair)

-- The commands in flight and those refused.
abbrev pub issued : Thread → ℕ
issued t = length t.ctx.qpair + t.failures

module _ (env : Spdk) where
  pub issue-IsCounted : (cmd : Command) (t : Thread) → IsCounted t → IsCounted (issue env cmd t)
  unfolding issue
  issue-IsCounted cmd t h = ground (arith, length-append t.ctx.qpair (cmd ∷ []))

  pub issue-issued : (cmd : Command) (t : Thread) → issued (issue env cmd t) ≡ issued t + 1
  unfolding issue
  issue-issued cmd t = ground (arith, length-append t.ctx.qpair (cmd ∷ []))

  pub take_offset-issued :
      (cfg : ArbContext) (t : Thread)
      → (issued (take_offset env cfg t).1 ≡ issued t)
        × (IsCounted t → IsCounted (take_offset env cfg t).1)
  unfolding take_offset
  take_offset-issued cfg t = (ground arith, λ h. ground arith)

pub retire-IsCounted :
    (i : ℕ) (t : Thread) {cmd : Command}
    → get_elem? t.ctx.qpair i ≡ some cmd
    → IsCounted t
    → IsCounted (retire i t)
unfolding retire
retire-IsCounted i t e h = ground (arith, length-remove_at t.ctx.qpair i e)

pub retire-issued :
    (i : ℕ) (t : Thread) {cmd : Command}
    → get_elem? t.ctx.qpair i ≡ some cmd
    → issued (retire i t) + 1 ≡ issued t
unfolding retire
retire-issued i t e = ground (arith, length-remove_at t.ctx.qpair i e)
