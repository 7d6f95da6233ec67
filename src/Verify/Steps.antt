-- ===== src/Verify/Steps.antt =====
-- An invariant of the steps of examples/multipath/verification.cc is one of the whole run.
use zns_emulation_bench.Prelude.{
  ℕ, zero, suc, ◌<◌, ◌≡◌, refl, sym, subst, false, not, ◌==◌, if◌then◌else◌, Bool-cases,
  Option-cases, inl, inr, Option, none, some, List, [], ◌∷◌, get_elem?, pos_part, arith, ltb,
  bits64,
}
use zns_emulation_bench.Exec.{Exec, done, exited, waiting, ◌>>=◌, final, final->>=}
use zns_emulation_bench.Arbitration.{ArbContext, Spdk}
use zns_emulation_bench.Text.{Bytes}
use zns_emulation_bench.Verify.{
  Task, Verifier, Reply, submit_read, submit_write, with_task, submit_single_io, submit_writes,
  run_verifier, retire, replace, task_complete, complete_each,
}

-- Each reply meets a verifier about which `Answer` holds.
abbrev pub AreAnswers :
    Spdk → ArbContext → (Verifier → Reply → Type 0) → Exec Verifier → List Reply → Type 0
AreAnswers env cfg Answer (done v) [] = Unit
AreAnswers env cfg Answer (done v) (r ∷ rs) =
    Answer v r × AreAnswers env cfg Answer (task_complete env cfg r v) rs
AreAnswers env cfg Answer (exited v) rs = Unit
AreAnswers env cfg Answer (waiting v) rs = Unit

module _ (env : Spdk) (cfg : ArbContext) (Answer : Verifier → Reply → Type 0) where
  -- What a property has to do to hold throughout a run.
  pub record IsKept (P : Verifier → Type 0) : Type 0 where
    pub write : (v : Verifier) → 0 < v.task_pool → P v → P (submit_write env cfg v)
    pub read :
        (p : ℕ × Bytes) (ps : List (ℕ × Bytes)) (v : Verifier)
        → v.pending_reads ≡ p ∷ ps
        → 0 < v.task_pool
        → P v
        → P (submit_read env p.0 p.1 (record v { pending_reads = ps }))
    pub unread :
        (p : ℕ × Bytes) (ps : List (ℕ × Bytes)) (v : Verifier)
        → v.pending_reads ≡ p ∷ ps
        → P v
        → P (record v { pending_reads = ps })
    pub retires :
        (t : Task) (r : Reply) (v : Verifier)
        → get_elem? v.qpair r.place ≡ some t
        → Answer v r
        → P v
        → P (retire t r v)

module _ {env : Spdk} {cfg : ArbContext} {Answer : Verifier → Reply → Type 0}
    {P : Verifier → Type 0} (keeps : IsKept env cfg Answer P) where
  positive : (n : ℕ) → (n == 0) ≡ false → 0 < n
  positive n e = ground arith

  with_task-Kept : (v w : Verifier) → P v → (0 < v.task_pool → P w) → P (final (with_task env v w))
  with_task-Kept v w s t = elim (Bool-cases (v.task_pool == 0)) [
    | inl e ↦ subst (λ b. P (final (if b then exited v else rest))) (sym e) s
    | inr e ↦
        subst (λ b. P (final (if b then exited v else rest))) (sym e)
          (tail (t (positive v.task_pool e)))
  ]
    where
      rest : Exec Verifier
      rest = if not (env.dma_zmalloc v.calls) then exited v else done w

      tail : P w → P (final rest)
      tail k = elim (Bool-cases (not (env.dma_zmalloc v.calls))) [
        | inl e ↦ subst (λ b. P (final (if b then exited v else done w))) (sym e) s
        | inr e ↦ subst (λ b. P (final (if b then exited v else done w))) (sym e) k
      ]

  pub write-Kept : (v : Verifier) → P v → P (final (submit_single_io env cfg none v))
  unfolding submit_single_io
  write-Kept v s = with_task-Kept v _ s (λ n. keeps.write v n s)

  replace-Kept :
      (ps : List (ℕ × Bytes)) (v : Verifier)
      → v.pending_reads ≡ ps
      → P v
      → P (final (replace env cfg ps v))
  unfolding replace submit_single_io
  replace-Kept [] v e s = write-Kept v s
  replace-Kept (p ∷ ps) v e s =
      elim (Bool-cases (ltb v.current_queue_depth (bits64 cfg.queue_depth))) [
        | inl c ↦
            subst (λ b. P (final (if b then read else write))) (sym c)
              (with_task-Kept _ _ (keeps.unread p ps v e s) (λ n. keeps.read p ps v e n s))
        | inr c ↦ subst (λ b. P (final (if b then read else write))) (sym c) (write-Kept v s)
      ]
    where
      read : Exec Verifier
      read = submit_single_io env cfg (some p) (record v { pending_reads = ps })

      write : Exec Verifier
      write = submit_single_io env cfg none v

  pub task_complete-Kept :
      (r : Reply) (v : Verifier) → Answer v r → P v → P (final (task_complete env cfg r v))
  unfolding task_complete
  task_complete-Kept r v h s = elim (Option-cases (get_elem? v.qpair r.place)) [
    | inl e ↦ subst (λ o. P (final (completed o))) (sym e) s
    | inr (t, e) ↦ subst (λ o. P (final (completed o))) (sym e) (go t (keeps.retires t r v e h s))
  ]
    where
      next : Verifier → Exec Verifier
      next w = if w.is_draining then done w else replace env cfg w.pending_reads w

      completed : Option Task → Exec Verifier
      completed none = done v
      completed (some t) = next (retire t r v)

      go : (t : Task) → P (retire t r v) → P (final (next (retire t r v)))
      go t k = elim (Bool-cases (retire t r v).is_draining) [
        | inl e ↦ subst (λ b. P (final (if b then done (retire t r v) else again))) (sym e) k
        | inr e ↦
            subst (λ b. P (final (if b then done (retire t r v) else again))) (sym e)
              (replace-Kept _ _ refl k)
      ]
        where
          again : Exec Verifier
          again = replace env cfg (retire t r v).pending_reads (retire t r v)

  submit_writes-Kept : (n : ℕ) (v : Verifier) → P v → P (final (submit_writes env cfg n v))
  unfolding submit_writes
  submit_writes-Kept zero v s = s
  submit_writes-Kept (suc n) v s =
      final->>= P (submit_single_io env cfg none v) (submit_writes env cfg n) (write-Kept v s)
        (submit_writes-Kept n)

  complete_each-Kept :
      (replies : List Reply) (m : Exec Verifier)
      → AreAnswers env cfg Answer m replies
      → P (final m)
      → P (final (m >>= complete_each env cfg replies))
  unfolding complete_each
  complete_each-Kept [] (done v) h s = s
  complete_each-Kept (r ∷ rs) (done v) h s =
      complete_each-Kept rs (task_complete env cfg r v) h.1 (task_complete-Kept r v h.0 s)
  complete_each-Kept rs (exited v) h s = s
  complete_each-Kept rs (waiting v) h s = s

  pub run_verifier-Kept :
      (replies : List Reply) (v : Verifier)
      → AreAnswers env cfg Answer (submit_writes env cfg (pos_part cfg.queue_depth) v) replies
      → P v
      → P (final (run_verifier env cfg replies v))
  unfolding run_verifier
  run_verifier-Kept replies v h s =
      complete_each-Kept replies _ h (submit_writes-Kept (pos_part cfg.queue_depth) v s)
