-- ===== src/Verify/Worker.antt =====
-- The worker of examples/multipath/verification.cc, which has one context in all: start, submission,
-- polling and draining.
pub mod Life
use zns_emulation_bench.Prelude.{ℕ, true, if◌then◌else◌, none, List, [], ◌∷◌}
use zns_emulation_bench.Exec.{Exec, done, exited, waiting}
use zns_emulation_bench.Arbitration.{ArbContext, Spdk}
use zns_emulation_bench.Bench
use zns_emulation_bench.Bench.{Program, Round}
use zns_emulation_bench.Verify.{Verifier, Reply, submit_single_io, task_complete}

-- A verifier holds all that its calls read and write: there is no shared part.
abbrev pub NoShared : Type 0
NoShared = Unit

abbrev pub State : Type 0
State = Verifier × NoShared

abbrev pub lift : Exec Verifier → Exec State
lift (done v) = done (v, tt)
lift (exited v) = exited (v, tt)
lift (waiting v) = waiting (v, tt)

module _ (env : Spdk) (cfg : ArbContext) where
  unfoldable pub init_ns_worker_ctx : ℕ → State → Exec (ℕ × State)
  init_ns_worker_ctx i (v, _) =
      if env.alloc_io_qpair i then done (0, (started, tt)) else done (1, (v, tt))
    where
      started : Verifier
      started = record v {
        qpair = [];
        count = 0;
        write_completed = 0;
        read_completed = 0;
        verification_passed = 0;
        verification_failed = 0;
      }

  abbrev pub start_draining : Verifier → Verifier
  start_draining v = record v { is_draining = true }

  unfoldable pub program : Program Verifier NoShared Reply
  program = record {
    init_ns_worker_ctx = init_ns_worker_ctx;
    submit_single_io = λ (s : State). lift (submit_single_io env cfg none s.0);
    task_complete = λ (r : Reply) (s : State). lift (task_complete env cfg r s.0);
    current_queue_depth = λ (v : Verifier). v.current_queue_depth;
    start_draining = start_draining;
    report = λ (v : Verifier). v;
  }

  -- `drain_io` on the verifier.
  unfoldable pub drain_verifier : List (List Reply) → State → Exec State
  unfolding program Bench.drain_io
  drain_verifier polls s = Bench.drain_io program cfg polls s

  -- `work_fn` of the worker that has the context: its code, and the verifier at the end.
  unfoldable pub verify_fn :
      ℕ → List (Round Reply) → List (List Reply) → Verifier → Exec (ℕ × (List Verifier × NoShared))
  unfolding program Bench.work_fn
  verify_fn start rounds last v = Bench.work_fn program cfg start rounds (last ∷ []) (v ∷ [], tt)
