-- ===== src/Arbitration/Setup/Association.antt =====
-- How examples/arbitration/arbitration.cc shares the namespaces among the workers.
use zns_emulation_bench.Prelude.{
  ℕ, zero, suc, ◌+◌, ◌%◌, ◌<◌, ◌≡◌, refl, sym, ap, ◌∙◌, Bool, true, ◌==◌, if_true, Bool-cases,
  Option-cases, inl, inr, none, some, List, [], ◌∷◌, length, get_elem?, arith,
}
use native.Mathlib.Nat.{mod-eq_of_lt, mod_self, mod-add-mod, mod-lt}
use zns_emulation_bench.Arbitration.{NsEntry, WorkerThread}
use zns_emulation_bench.Arbitration.Setup.{next_in, give_ctx, associate_loop}

-- The `i`-th context goes from namespace `i` modulo their number to worker `i` modulo theirs.
pub round_robin : List NsEntry → ℕ → ℕ → List WorkerThread → List WorkerThread
round_robin entries zero i workers = workers
round_robin entries (suc n) i workers = elim (get_elem? entries (i % length entries)) [
  | none ↦ workers
  | some entry ↦ round_robin entries n (i + 1) (give_ctx (i % length workers) entry workers)
]

next_in-mod : (n i : ℕ) → 0 < n → next_in n (i % n) ≡ (i + 1) % n
next_in-mod n i h = elim (Bool-cases (i % n + 1 == n)) [
  | inl e ↦
      let whole : i % n + 1 ≡ n = ground arith in
      rw e (sym (mod_self n) ∙ ap (λ (k : ℕ). k % n) (sym whole) ∙ mod-add-mod i n 1)
  | inr e ↦
      let below : i % n + 1 < n = ground (arith, mod-lt i h) in
      rw e (sym (mod-eq_of_lt below) ∙ mod-add-mod i n 1)
]

length-give_ctx :
    (j : ℕ) (entry : NsEntry) (ws : List WorkerThread) → length (give_ctx j entry ws) ≡ length ws
length-give_ctx j entry [] = refl
length-give_ctx zero entry (w ∷ ws) = refl
length-give_ctx (suc j) entry (w ∷ ws) = ap suc (length-give_ctx j entry ws)

-- If there are namespaces and workers and every `malloc` succeeds, walking the two rings, with each
-- list's first element behind its last, is the round robin by positions modulo their lengths.
pub associate_loop-round_robin :
    (entries : List NsEntry) (n i : ℕ) (mallocs : ℕ → Bool) (workers : List WorkerThread)
    → 0 < length entries
    → 0 < length workers
    → ((k : ℕ) → mallocs k ≡ true)
    → associate_loop entries n (i % length entries) (i % length workers) mallocs workers
      ≡ (0, round_robin entries n i workers)
unfolding associate_loop round_robin
associate_loop-round_robin entries zero i mallocs workers he hw ok = refl
associate_loop-round_robin entries (suc n) i mallocs workers he hw ok =
    elim (Option-cases (get_elem? entries (i % length entries))) [
      | inl e ↦ rw (e, associate_loop, round_robin)
      | inr (entry, e) ↦
          rw (e, associate_loop, round_robin)
            (if_true _ _ (ok n)
              ∙ walk entry (λ ws. associate_loop-round_robin entries n (i + 1) mallocs ws he))
    ]
  where
    given : NsEntry → List WorkerThread
    given entry = give_ctx (i % length workers) entry workers

    turn :
        (entry : NsEntry)
        → next_in (length workers) (i % length workers) ≡ (i + 1) % length (given entry)
    turn entry =
        next_in-mod (length workers) i hw
        ∙ ap (λ (m : ℕ). (i + 1) % m) (sym (length-give_ctx (i % length workers) entry workers))

    walk :
        (entry : NsEntry)
        → ((ws : List WorkerThread)
            → 0 < length ws
            → ((k : ℕ) → mallocs k ≡ true)
            → associate_loop entries n ((i + 1) % length entries) ((i + 1) % length ws) mallocs ws
              ≡ (0, round_robin entries n (i + 1) ws))
        → associate_loop entries n
            (next_in (length entries) (i % length entries))
            (next_in (length workers) (i % length workers))
            mallocs
            (given entry)
          ≡ (0, round_robin entries n (i + 1) (given entry))
    walk entry ih =
        ap
          (λ k.
            associate_loop entries n k (next_in (length workers) (i % length workers)) mallocs
              (given entry))
          (next_in-mod (length entries) i he)
        ∙ ap (λ k. associate_loop entries n ((i + 1) % length entries) k mallocs (given entry))
            (turn entry)
        ∙ ih (given entry) (rw (length-give_ctx (i % length workers) entry workers) hw) ok
