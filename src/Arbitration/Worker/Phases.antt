-- ===== src/Arbitration/Worker/Phases.antt =====
-- Passes over the contexts of a worker that run to their end.
use mathlib.Core.Path.{subst}
use zns_emulation_bench.Prelude.{
  ℕ, suc, ◌+◌, ◌^◌, ◌<◌, ◌≡◌, refl, ap, ◌∙◌, List, [], ◌∷◌, length, All, arith,
}
use zns_emulation_bench.Exec.{Exec, done, final}
use zns_emulation_bench.Arbitration.{NsWorkerCtx}
use zns_emulation_bench.Arbitration.Loop.{Thread}
use zns_emulation_bench.Arbitration.Loop.Invariant.{Inv}
use zns_emulation_bench.Arbitration.Loop.Range.{InRange}
use zns_emulation_bench.Arbitration.Worker.{Work, focus, unfocus, put_back, for_each}
use zns_emulation_bench.Arbitration.Worker.Invariant.{
  IsEntry, IsCtx, in_flight, WorkInv, Keeps, then_rest, focus-Inv, for_each-WorkInv,
}

-- A predicate of the contexts by their positions, from `i` on.
abbrev pub AllFrom : (ℕ → NsWorkerCtx → Type 0) → ℕ → List NsWorkerCtx → Type 0
AllFrom P i [] = Unit
AllFrom P i (c ∷ cs) = P i c × AllFrom P (i + 1) cs

-- `f` ends on a context that meets `Pre`, and leaves `Post`; `R k` is what the pool must still hold
-- while `k` contexts are to come.
abbrev pub Ends :
    (ℕ → Thread → Exec Thread)
    → (ℕ → NsWorkerCtx → Type 0)
    → (ℕ → NsWorkerCtx → Type 0)
    → (ℕ → ℕ → Type 0)
    → Type 0
Ends f Pre Post R =
    (i k m : ℕ) (t : Thread)
    → m < 2 ^ 64
    → IsEntry t.ctx.entry
    → Inv m t.ctx.entry (InRange t.ctx.entry) t
    → Pre i t.ctx
    → R (suc k) t.task_pool
    → (t' : Thread) × (f i t ≡ done t') × Post i t'.ctx × R k t'.task_pool

module _ (f : ℕ → Thread → Exec Thread) (keeps : (i : ℕ) → Keeps (f i))
    (Pre Post : ℕ → NsWorkerCtx → Type 0) (R : ℕ → ℕ → Type 0) (ends : Ends f Pre Post R) where
  for_each_passes :
      (i : ℕ) (cs : List NsWorkerCtx) (w : Work) (n : ℕ)
      → n < 2 ^ 64
      → All IsCtx cs
      → w.task_pool + in_flight cs + w.failures ≡ n
      → AllFrom Pre i cs
      → R (length cs) w.task_pool
      → (w' : Work) × (for_each f i cs w ≡ done w')
        × AllFrom Post i w'.ctxs
        × (length w'.ctxs ≡ length cs)
  unfolding for_each
  for_each_passes i [] w n h v b p r = (record w { ctxs = [] }, refl, tt, refl)
  for_each_passes i (c ∷ cs) w n h (vc, v) b (pc, p) r =
      let m : ℕ = w.task_pool + length c.qpair + w.failures in
      let start = focus-Inv m c w vc refl in
      let (t, e, q, r') = ends i (length cs) m (focus c w) (omega arith) vc.entry_ok start pc r in
      let kept : Inv m c.entry (InRange c.entry) t =
        subst (λ x. Inv m c.entry (InRange c.entry) (final x)) e
          (keeps i m c.entry (focus c w) (omega arith) vc.entry_ok start) in
      let (w', e', qs, l) =
        for_each_passes (i + 1) cs (unfocus t cs) (t.task_pool + in_flight cs + t.failures)
          (omega (arith, kept.balance)) v refl p r' in
      (
        record w' { ctxs = t.ctx ∷ w'.ctxs },
        ap (then_rest (for_each f (i + 1) cs) cs) e ∙ ap (put_back t.ctx) e',
        (q, qs),
        ap suc l,
      )

  pub for_each_ends :
      (w : Work) (n : ℕ)
      → n < 2 ^ 64
      → WorkInv n w
      → AllFrom Pre 0 w.ctxs
      → R (length w.ctxs) w.task_pool
      → (w' : Work) × (for_each f 0 w.ctxs w ≡ done w')
        × WorkInv n w'
        × AllFrom Post 0 w'.ctxs
        × (length w'.ctxs ≡ length w.ctxs)
  for_each_ends w n h v p r =
      let (w', e, q, l) = for_each_passes 0 w.ctxs w n h v.contexts v.balance p r in
      (
        w',
        e,
        subst (λ x. WorkInv n (final x)) e
            (for_each-WorkInv f keeps 0 w.ctxs w n h v.contexts v.balance),
        q,
        l,
      )
