-- ===== src/Verify/Sound.antt =====
-- examples/multipath/verification.cc raises no false alarm: with a device that reads what was written,
-- every verification passes.
use zns_emulation_bench.Prelude.{
  subst, ℕ, ◌-◌, ◌<◌, ◌≡◌, refl, sym, ap, ◌∙◌, true, false, Bool-cases, inl, inr, some, List, [],
  ◌∷◌, get_elem?, length, take, take-take, min, All, All-append, All-remove_at, All-get_elem?,
  pos_part, u32, arith,
}
use zns_emulation_bench.Exec.{final}
use zns_emulation_bench.Arbitration.{ArbContext, Spdk}
use zns_emulation_bench.Verify.Steps.{AreAnswers, IsKept, run_verifier-Kept}
use zns_emulation_bench.Text.{Bytes, same_text, same_text_refl}
use zns_emulation_bench.Verify.{
  Task, Verifier, Reply, read_task, write_task, finish_submit, next_offset, submit_read,
  submit_write, submit_writes, run_verifier, is_verified, record_reply, retire,
}

-- What the device holds at a block once it has been written.
abbrev pub Media : Type 0
Media = ℕ → Bytes

-- What a write of a text leaves on the device: `snprintf` cuts it to the size of an I/O.
abbrev pub Holds : Media → ArbContext → ℕ → Bytes → Type 0
Holds media cfg lba text = media lba ≡ take (cfg.io_size_bytes - 1) text

-- A read in flight is of a block that holds what it expects; a write carries the text to expect.
pub record IsTask (media : Media) (cfg : ArbContext) (t : Task) : Type 0 where
  pub reads : t.verification_mode ≡ true → Holds media cfg t.lba t.expected_data
  pub writes : t.verification_mode ≡ false → t.stored ≡ take (cfg.io_size_bytes - 1) t.expected_data

-- The device stores a write at the block that it reports, and returns what a block holds.
pub record IsHonest (media : Media) (t : Task) (r : Reply) : Type 0 where
  pub stores : t.verification_mode ≡ false → media (u32 r.cdw0) ≡ t.stored
  pub returns : t.verification_mode ≡ true → r.data_read ≡ media t.lba

abbrev pub IsAnswer : Media → Verifier → Reply → Type 0
IsAnswer media v r = (t : Task) → get_elem? v.qpair r.place ≡ some t → IsHonest media t r

pub record IsSound (media : Media) (cfg : ArbContext) (v : Verifier) : Type 0 where
  pub tasks : All (IsTask media cfg) v.qpair
  pub pending : All (λ p. Holds media cfg p.0 p.1) v.pending_reads
  pub none_failed : v.verification_failed ≡ 0
  pub all_passed : v.verification_passed ≡ v.read_completed

module _ (env : Spdk) (cfg : ArbContext) (media : Media) (room : 50 < cfg.io_size_bytes) where
  -- The first 50 characters survive the cut.
  pub cut_is_verified :
      (expected : Bytes) → is_verified expected (take (cfg.io_size_bytes - 1) expected) ≡ true
  unfolding is_verified
  cut_is_verified expected =
      ap (λ xs. same_text xs (take (min (length expected) 50) expected))
        (take-take (min (length expected) 50) (cfg.io_size_bytes - 1) expected (omega arith))
      ∙ same_text_refl (take (min (length expected) 50) expected)

  finish_submit-IsSound :
      (t : Task) (v : Verifier)
      → IsTask media cfg t
      → IsSound media cfg v
      → IsSound media cfg (finish_submit env t v)
  unfolding finish_submit
  finish_submit-IsSound t v k s =
      ground (arith, All-append (IsTask media cfg) v.qpair (t ∷ []) s.tasks (k, tt))

  next_offset-IsSound :
      (v : Verifier) → IsSound media cfg v → IsSound media cfg (next_offset env cfg v)
  unfolding next_offset
  next_offset-IsSound v s = ground arith

  write_task-IsTask : (count : ℕ) → IsTask media cfg (write_task cfg count)
  write_task-IsTask count = record { reads = λ e. absurd (cc); writes = λ e. refl }

  read_task-IsTask :
      (lba : ℕ) (text : Bytes) → Holds media cfg lba text → IsTask media cfg (read_task lba text)
  read_task-IsTask lba text h = record { reads = λ e. h; writes = λ e. absurd (cc) }

  submit_write-IsSound :
      (v : Verifier) → IsSound media cfg v → IsSound media cfg (submit_write env cfg v)
  unfolding submit_write
  submit_write-IsSound v s =
      finish_submit-IsSound (write_task cfg v.count) _ (write_task-IsTask v.count) (
        next_offset-IsSound _ (record {
          tasks = s.tasks;
          pending = s.pending;
          none_failed = s.none_failed;
          all_passed = s.all_passed;
        }))

  submit_read-IsSound :
      (lba : ℕ) (text : Bytes) (v : Verifier)
      → Holds media cfg lba text
      → IsSound media cfg v
      → IsSound media cfg (submit_read env lba text v)
  unfolding submit_read
  submit_read-IsSound lba text v h s =
      finish_submit-IsSound (read_task lba text) _ (read_task-IsTask lba text h) (record {
        tasks = s.tasks;
        pending = s.pending;
        none_failed = s.none_failed;
        all_passed = s.all_passed;
      })

  -- What a sound read returns passes the comparison.
  reply_is_verified :
      (t : Task) (r : Reply)
      → IsTask media cfg t
      → IsHonest media t r
      → t.verification_mode ≡ true
      → is_verified t.expected_data r.data_read ≡ true
  reply_is_verified t r k h e =
      ap (is_verified t.expected_data) (h.returns e ∙ k.reads e) ∙ cut_is_verified t.expected_data

  record_reply-IsSound :
      (t : Task) (r : Reply) (v : Verifier)
      → IsTask media cfg t
      → IsHonest media t r
      → IsSound media cfg v
      → IsSound media cfg (record_reply t r v)
  unfolding record_reply
  record_reply-IsSound t r v k h s = elim (Bool-cases t.verification_mode) [
    | inl e ↦ ground (arith, e, reply_is_verified t r k h e)
    | inr e ↦
        let appended =
          All-append (λ p. Holds media cfg p.0 p.1) v.pending_reads
            ((u32 r.cdw0, t.expected_data) ∷ []) s.pending (h.stores e ∙ k.writes e, tt) in
        ground (arith, e, appended)
  ]

  retire-IsSound :
      (t : Task) (r : Reply) (v : Verifier)
      → IsTask media cfg t
      → IsHonest media t r
      → IsSound media cfg v
      → IsSound media cfg (retire t r v)
  unfolding retire
  retire-IsSound t r v k h s = record_reply-IsSound t r _ k h (record {
    tasks = All-remove_at (IsTask media cfg) v.qpair r.place s.tasks;
    pending = s.pending;
    none_failed = s.none_failed;
    all_passed = s.all_passed;
  })

  IsSound-IsKept : IsKept env cfg (IsAnswer media) (IsSound media cfg)
  IsSound-IsKept = record {
    write = λ v n s. submit_write-IsSound v s;
    read = λ p ps v e n s.
        let h = subst (All (λ q. Holds media cfg q.0 q.1)) e s.pending in
        submit_read-IsSound p.0 p.1 _ h.0 (drop_pending p ps v e s);
    unread = λ p ps v e s. drop_pending p ps v e s;
    retires = λ t r v e h s.
        retire-IsSound t r v (All-get_elem? (IsTask media cfg) v.qpair r.place s.tasks e) (h t e) s;
  }
    where
      drop_pending :
          (p : ℕ × Bytes) (ps : List (ℕ × Bytes)) (v : Verifier)
          → v.pending_reads ≡ p ∷ ps
          → IsSound media cfg v
          → IsSound media cfg (record v { pending_reads = ps })
      drop_pending p ps v e s = record {
        tasks = s.tasks;
        pending = (subst (All (λ q. Holds media cfg q.0 q.1)) e s.pending).1;
        none_failed = s.none_failed;
        all_passed = s.all_passed;
      }

-- A verifier with nothing in flight, nothing to read back and its counters at 0, on a device that
-- reports of each write a block that holds what was written and returns of each read what the block
-- holds, never counts a failed verification, and counts every read as passed, whatever commands are
-- refused and wherever the run stops. I/Os are larger than the 50 characters that are compared.
pub no_false_alarm :
    (env : Spdk) (cfg : ArbContext) (media : Media) (replies : List Reply) (v : Verifier)
    → 50 < cfg.io_size_bytes
    → v.qpair ≡ []
    → v.pending_reads ≡ []
    → v.verification_failed ≡ 0
    → v.verification_passed ≡ v.read_completed
    → AreAnswers env cfg
        (IsAnswer media)
        (submit_writes env cfg (pos_part cfg.queue_depth) v)
        replies
    → ((final (run_verifier env cfg replies v)).verification_failed ≡ 0
        × (final (run_verifier env cfg replies v)).verification_passed
          ≡ (final (run_verifier env cfg replies v)).read_completed)
no_false_alarm env cfg media replies v room q p f a h = (sound.none_failed, sound.all_passed)
  where
    sound : IsSound media cfg (final (run_verifier env cfg replies v))
    sound = run_verifier-Kept (IsSound-IsKept env cfg media room) replies v h (record {
      tasks = subst (All (IsTask media cfg)) (sym q) tt;
      pending = subst (All (λ p. Holds media cfg p.0 p.1)) (sym p) tt;
      none_failed = f;
      all_passed = a;
    })
