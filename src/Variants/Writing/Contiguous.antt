-- ===== src/Variants/Writing/Contiguous.antt =====
-- `submit_io` of examples/arbitration/arbitration_write.cc: the writes that it starts.
use zns_emulation_bench.Prelude.{
  ℕ, zero, suc, ◌+◌, ◌*◌, ◌^◌, ◌≤◌, ◌<◌, ◌≡◌, refl, ap, ◌∙◌, true, false, [], pos_part, ℤ,
}
use zns_emulation_bench.Exec.{Exec, done, exited, waiting, ◌>>=◌}
use zns_emulation_bench.Arbitration.{ArbContext, Spdk}
use zns_emulation_bench.Arbitration.Loop
use zns_emulation_bench.Arbitration.Loop.{Thread, write_behind}
use zns_emulation_bench.Arbitration.Loop.Commands.{
  contiguous, accepted-contiguous, submit_times-accepted,
}
use zns_emulation_bench.Bench
use zns_emulation_bench.Variants.Writing.{
  Report, State, thread, with_thread, lift, submit_single_io, program,
}

lift-lift : (t : Thread) (s : State) (m : Exec Thread) → lift (with_thread t s) m ≡ lift s m
lift-lift t s (done u) = refl
lift-lift t s (exited u) = refl
lift-lift t s (waiting u) = refl

lift->>= :
    (s : State) (m : Exec Thread) (f : State → Exec State) (g : Thread → Exec Thread)
    → ((t : Thread) → f (with_thread t s) ≡ lift s (g t))
    → (lift s m >>= f) ≡ lift s (m >>= g)
lift->>= s (done t) f g h = h t
lift->>= s (exited t) f g h = refl
lift->>= s (waiting t) f g h = refl

module _ (env : Spdk) (cfg : ArbContext) (zones : ℕ → Report) where
  -- A context's write pointer stays as it is.
  submit_times-lift :
      (n : ℕ) (s : State)
      → Bench.submit_times (program env cfg zones) cfg n s
        ≡ lift s (Loop.submit_times env cfg (write_behind s.0.wp) n (thread s))
  unfolding Bench.submit_times Loop.submit_times submit_single_io
  submit_times-lift zero s = refl
  submit_times-lift (suc n) s =
      lift->>= s (Loop.submit_single_io env cfg (write_behind s.0.wp) (thread s)) _ _
        (λ t. submit_times-lift n (with_thread t s) ∙ lift-lift t s _)

  -- In a sequential workload, with a buffer and a task for each I/O and a device that accepts the commands,
  -- `submit_io` on a context with nothing in flight writes one range of blocks without a gap, from the
  -- write pointer on if the offset is 0, as long as the I/Os fit in the namespace from the offset on.
  pub submit_io-contiguous :
      cfg.is_random ≡ false
      → ((k : ℕ) → env.dma_zmalloc k ≡ true)
      → ((k : ℕ) → env.accepts k ≡ true)
      → (s : State) → s.0.ns_ctx.qpair ≡ []
      → s.0.wp + s.0.ns_ctx.entry.size_in_ios * s.0.ns_ctx.entry.io_size_blocks < 2 ^ 64
      → s.0.ns_ctx.entry.size_in_ios < 2 ^ 64
      → (queue_depth : ℤ) → pos_part queue_depth ≤ s.1.task_pool
      → s.0.ns_ctx.offset_in_ios + pos_part queue_depth ≤ s.0.ns_ctx.entry.size_in_ios
      → s.0.ns_ctx.offset_in_ios < s.0.ns_ctx.entry.size_in_ios
      → (s' : State) × (Bench.submit_io (program env cfg zones) cfg queue_depth s ≡ done s')
        × (s'.0.ns_ctx.qpair
            ≡ contiguous
                (s.0.wp + s.0.ns_ctx.offset_in_ios * s.0.ns_ctx.entry.io_size_blocks)
                s.0.ns_ctx.entry.io_size_blocks
                (pos_part queue_depth))
  unfolding Bench.submit_io
  submit_io-contiguous sequential buffers accepts s idle whole fits queue_depth pool room inside =
      let (t, e, q) =
        submit_times-accepted env cfg (write_behind s.0.wp) sequential buffers s.0.ns_ctx.entry fits
          (pos_part queue_depth) (thread s) refl inside pool in
      (
        with_thread t s,
        submit_times-lift (pos_part queue_depth) s ∙ ap (lift s) e,
        q
            ∙ rw idle refl
            ∙ accepted-contiguous env accepts s.0.wp s.0.ns_ctx.entry.io_size_blocks
                s.0.ns_ctx.entry.size_in_ios whole (pos_part queue_depth) s.1.calls
                s.0.ns_ctx.offset_in_ios room,
      )
