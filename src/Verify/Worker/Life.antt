-- ===== src/Verify/Worker/Life.antt =====
-- What the worker of examples/multipath/verification.cc keeps from its start to its end.
use zns_emulation_bench.Prelude.{
  ℕ, ◌^◌, ◌<◌, ◌≡◌, ap, ◌∙◌, inl, inr, none, Bool-cases, List, [], ◌∷◌, All, length, arith,
}
use zns_emulation_bench.Exec.{Exec, done, exited, waiting, final}
use zns_emulation_bench.Arbitration.{ArbContext, Spdk}
use zns_emulation_bench.Bench.{Round}
use zns_emulation_bench.Bench.Keeps.{Rely, Keeps, Leaves}
use zns_emulation_bench.Bench.Contexts.{work_fn-AllQ}
use zns_emulation_bench.Verify.{Verifier, Reply, submit_single_io, task_complete}
use zns_emulation_bench.Verify.Steps.{write-Kept, task_complete-Kept}
use zns_emulation_bench.Verify.Balance.{IsBalanced, IsBalanced-IsKept}
use zns_emulation_bench.Verify.Worker.{NoShared, lift, init_ns_worker_ctx, program, verify_fn}

abbrev Any : NoShared → NoShared → Type 0
Any g g' = Unit

unshared-Rely : (P : Verifier → Type 0) → Rely Any (λ v g. P v)
unshared-Rely P = record { later_refl = λ g. tt; later_trans = λ l m. tt; stable = λ l p. p }

lift-Leaves :
    (P : Verifier → Type 0) (m : Exec Verifier) (g : NoShared)
    → P (final m)
    → Leaves Any (λ v g. P v) g (final (lift m))
lift-Leaves P (done v) g p = (p, tt)
lift-Leaves P (exited v) g p = (p, tt)
lift-Leaves P (waiting v) g p = (p, tt)

-- A context that was just allocated: nothing in flight, nothing counted.
pub record IsNew (total : ℕ) (v : Verifier) : Type 0 where
  pub idle : v.qpair ≡ []
  pub at_rest : v.io_completed ≡ 0
  pub balanced : IsBalanced total v

module _ (env : Spdk) (cfg : ArbContext) (total : ℕ) (small : total < 2 ^ 64) where
  init-IsBalanced :
      (i : ℕ) (v : Verifier) (g : NoShared)
      → IsNew total v
      → Leaves Any (λ v g. IsBalanced total v) g (final (init_ns_worker_ctx env cfg i (v, g))).1
  unfolding init_ns_worker_ctx
  init-IsBalanced i v g n = elim (Bool-cases (env.alloc_io_qpair i)) [
    | inl a ↦ rw a (
      record {
        tasks = omega (arith, b.tasks, ap length n.idle);
        depth = b.depth ∙ ap length n.idle;
        verdicts = omega arith;
        completions = n.at_rest ∙ omega arith;
      },
      tt,
    )
    | inr a ↦ rw a (b, tt)
  ]
    where
      b : IsBalanced total v
      b = n.balanced

  program-Keeps :
      Keeps Any
        (λ v g. IsNew total v)
        (λ v g. IsBalanced total v)
        (λ v g. IsBalanced total v)
        (program env cfg)
  unfolding program
  program-Keeps = record {
    rely_i = unshared-Rely (IsNew total);
    rely_p = unshared-Rely (IsBalanced total);
    rely_q = unshared-Rely (IsBalanced total);
    weaken = λ v g b. b;
    fresh = λ v g n. n.balanced;
    inits = init-IsBalanced;
    submits = λ v g b.
        lift-Leaves (IsBalanced total) (submit_single_io env cfg none v) g
          (write-Kept (IsBalanced-IsKept env cfg total small) v b);
    completes = λ r v g b.
        lift-Leaves (IsBalanced total) (task_complete env cfg r v) g
          (task_complete-Kept (IsBalanced-IsKept env cfg total small) r v tt b);
    drains = λ v g b. record {
      tasks = b.tasks;
      depth = b.depth;
      verdicts = b.verdicts;
      completions = b.completions;
    };
    reports = λ v g b z. b;
  }

  -- However the worker ends, with fewer than 2^64 tasks and a context that was just allocated: every task
  -- is in the pool or in flight, the queue depth is the number in flight, each read was counted once, as
  -- passed or as failed, and each completion as a write or as a read.
  pub verify_fn-IsBalanced :
      (start : ℕ) (rounds : List (Round Reply)) (last : List (List Reply)) (v : Verifier)
      → IsNew total v
      → All (IsBalanced total) (final (verify_fn env cfg start rounds last v)).1.0
  unfolding verify_fn
  verify_fn-IsBalanced start rounds last v n =
      work_fn-AllQ (program env cfg) cfg Any (λ v g. IsNew total v) (λ v g. IsBalanced total v)
        (λ v g. IsBalanced total v) program-Keeps start rounds (last ∷ []) (v ∷ [], tt) (n, tt)
