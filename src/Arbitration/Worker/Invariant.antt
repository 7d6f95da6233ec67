-- ===== src/Arbitration/Worker/Invariant.antt =====
-- The tasks of a worker: each is in the pool, in flight in one of its contexts, or lost.
use mathlib.Core.Path.{subst}
use zns_emulation_bench.Prelude.{
  ℕ, ◌+◌, ◌*◌, ◌^◌, ◌≤◌, ◌<◌, ◌≡◌, refl, List, [], ◌∷◌, length, All, arith,
}
use zns_emulation_bench.Exec.{Exec, done, exited, waiting, final}
use zns_emulation_bench.Arbitration.{NsEntry, NsWorkerCtx}
use zns_emulation_bench.Arbitration.Loop.{Thread}
use zns_emulation_bench.Arbitration.Loop.Invariant.{Inv}
use zns_emulation_bench.Arbitration.Loop.Range.{InRange}
use zns_emulation_bench.Arbitration.Worker.{Work, focus, unfocus, put_back, for_each}

-- An entry whose blocks a `uint64_t` can count.
pub record IsEntry (entry : NsEntry) : Type 0 where
  pub fits : entry.size_in_ios < 2 ^ 64
  pub whole : entry.size_in_ios * entry.io_size_blocks < 2 ^ 64

pub record IsCtx (c : NsWorkerCtx) : Type 0 where
  pub entry_ok : IsEntry c.entry
  pub depth : c.current_queue_depth ≡ length c.qpair
  pub offset : c.offset_in_ios < c.entry.size_in_ios
  pub commands : All (InRange c.entry) c.qpair

abbrev pub in_flight : List NsWorkerCtx → ℕ
in_flight [] = 0
in_flight (c ∷ cs) = length c.qpair + in_flight cs

pub record WorkInv (total : ℕ) (w : Work) : Type 0 where
  pub contexts : All IsCtx w.ctxs
  pub balance : w.task_pool + in_flight w.ctxs + w.failures ≡ total

-- What a call must keep of one context, for `for_each` to keep it of them all.
abbrev pub Keeps : (Thread → Exec Thread) → Type 0
Keeps f =
    (n : ℕ) (entry : NsEntry) (t : Thread)
    → n < 2 ^ 64
    → IsEntry entry
    → Inv n entry (InRange entry) t
    → Inv n entry (InRange entry) (final (f t))

pub put_back-WorkInv :
    (m n : ℕ) (c : NsWorkerCtx) (r : Exec Work)
    → IsCtx c
    → WorkInv m (final r)
    → m + length c.qpair ≡ n
    → WorkInv n (final (put_back c r))
put_back-WorkInv m n c (done w) v r e = ground arith
put_back-WorkInv m n c (exited w) v r e = ground arith
put_back-WorkInv m n c (waiting w) v r e = ground arith

-- A thread's invariant, read on the thread's context.
pub thread-IsCtx :
    (n : ℕ) (entry : NsEntry) (t : Thread)
    → IsEntry entry
    → Inv n entry (InRange entry) t
    → IsCtx t.ctx
thread-IsCtx n entry t k v = record {
  entry_ok = rw v.same k;
  depth = v.depth;
  offset = rw v.same v.offset;
  commands = rw v.same v.commands;
}

-- The result of `f` on the first context, before the others get their turn.
abbrev pub then_rest : (Work → Exec Work) → List NsWorkerCtx → Exec Thread → Exec Work
then_rest rest cs r = elim r [
  | done t ↦ put_back t.ctx (rest (unfocus t cs))
  | exited t ↦ exited (unfocus t cs)
  | waiting t ↦ waiting (unfocus t cs)
]

pub then_rest-WorkInv :
    (n : ℕ) (entry : NsEntry) (cs : List NsWorkerCtx) (rest : Work → Exec Work) (r : Exec Thread)
    → IsEntry entry
    → All IsCtx cs
    → Inv n entry (InRange entry) (final r)
    → ((m : ℕ) (w : Work)
        → w.task_pool + in_flight cs + w.failures ≡ m
        → m ≤ n + in_flight cs
        → WorkInv m (final (rest w)))
    → WorkInv (n + in_flight cs) (final (then_rest rest cs r))
then_rest-WorkInv n entry cs rest (done t) k v i h =
    put_back-WorkInv (t.task_pool + in_flight cs + t.failures) _ t.ctx (rest (unfocus t cs))
      (thread-IsCtx n entry t k i) (h _ (unfocus t cs) refl (omega (arith, i.balance)))
      (omega (arith, i.balance))
then_rest-WorkInv n entry cs rest (exited t) k v i h = record {
  contexts = (thread-IsCtx n entry t k i, v);
  balance = omega (arith, i.balance);
}
then_rest-WorkInv n entry cs rest (waiting t) k v i h = record {
  contexts = (thread-IsCtx n entry t k i, v);
  balance = omega (arith, i.balance);
}

pub focus-Inv :
    (n : ℕ) (c : NsWorkerCtx) (w : Work)
    → IsCtx c
    → w.task_pool + length c.qpair + w.failures ≡ n
    → Inv n c.entry (InRange c.entry) (focus c w)
focus-Inv n c w v e = record {
  same = refl;
  depth = v.depth;
  balance = e;
  offset = v.offset;
  commands = v.commands;
}

pub for_each-WorkInv :
    (f : ℕ → Thread → Exec Thread)
    → ((i : ℕ) → Keeps (f i))
    → (i : ℕ) (cs : List NsWorkerCtx) (w : Work) (n : ℕ) → n < 2 ^ 64
    → All IsCtx cs
    → w.task_pool + in_flight cs + w.failures ≡ n
    → WorkInv n (final (for_each f i cs w))
unfolding for_each
for_each-WorkInv f keeps i [] w n h v b = record { contexts = tt; balance = b }
for_each-WorkInv f keeps i (c ∷ cs) w n h (vc, v) b =
    let m : ℕ = w.task_pool + length c.qpair + w.failures in
    let e : m + in_flight cs ≡ n = omega arith in
    subst (λ (k : ℕ). WorkInv k (final (for_each f i (c ∷ cs) w))) e
      (then_rest-WorkInv m c.entry cs (for_each f (i + 1) cs) (f i (focus c w)) vc.entry_ok v
        (keeps i m c.entry (focus c w) (omega arith) vc.entry_ok (focus-Inv m c w vc refl))
        (λ k w' b' le. for_each-WorkInv f keeps (i + 1) cs w' k (omega arith) v b'))
