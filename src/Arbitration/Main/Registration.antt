-- ===== src/Arbitration/Main/Registration.antt =====
-- What `register_ctrlr` of examples/arbitration/arbitration.cc adds to the lists.
use zns_emulation_bench.Prelude.{
  ℕ, ◌≡◌, ap, Bool, true, false, not, ◌&&◌, if◌then◌else◌, ◌==◌, inl, inr, Bool-cases, Option, none,
  some, List, [], ◌∷◌, ◌++◌, length, length-append, arith, map,
}
use zns_emulation_bench.Exec.{
  Exec, done, exited, waiting, ◌>>=◌, final, final->>=, final-if, OnDone,
}
use zns_emulation_bench.Arbitration.Features.{Admin, get_arb_feature, set_arb_feature}
use zns_emulation_bench.Arbitration.Setup.{
  NvmeSpec, Namespace, App, is_unsuitable, new_entry, register_ns,
}
use zns_emulation_bench.Arbitration.Main.{
  Controller, behind, track, register_each_ns, arbitrate, register_ctrlr,
}

-- The counter counts the entries, and these controllers are listed, in this order.
pub record Registered (controllers : List ℕ) (app : App) : Type 0 where
  pub counted : app.arb.num_namespaces ≡ length app.namespaces
  pub listed : app.controllers ≡ controllers

abbrev pub ids : List Controller → List ℕ
ids cs = map (λ (c : Controller). c.id) cs

OnDone-final : (P : App → Type 0) (m : Exec App) → P (final m) → OnDone P m
OnDone-final P (done app) h = h
OnDone-final P (exited app) h = tt
OnDone-final P (waiting app) h = tt

-- The state in which a call ends satisfies `P`.
record Ends (P : App → Type 0) (m : Exec App) : Type 0 where
  at_end : P (final m)

Ends-done : (P : App → Type 0) {app : App} → P app → Ends P (done app)
Ends-done P h = record { at_end = h }

Ends-if :
    (P : App → Type 0) (b : Bool) {m n : Exec App}
    → Ends P m
    → Ends P n
    → Ends P (if b then m else n)
Ends-if P true h k = h
Ends-if P false h k = k

Ends-behind :
    (P : App → Type 0) (m : Exec Admin) {app : App} {f : Admin → Exec App}
    → P app
    → ((a : Admin) → Ends P (f a))
    → Ends P (behind m app f)
Ends-behind P (done a) h k = k a
Ends-behind P (exited a) h k = record { at_end = h }
Ends-behind P (waiting a) h k = record { at_end = h }

module _ (l : List ℕ) where
  register_ns-Registered :
      (allocated : Bool) (ctrlr : ℕ) (ns : Namespace) (app : App)
      → Registered l app
      → Registered l (final (register_ns allocated ctrlr ns app))
  unfolding register_ns
  register_ns-Registered allocated ctrlr ns app r =
      final-if (Registered l) (is_unsuitable app.arb.io_size_bytes ns) _ _ r (
        final-if (Registered l) (not allocated) _ _ r (record {
          counted = omega (
            arith,
            r.counted,
            length-append app.namespaces (new_entry app.arb.io_size_bytes ctrlr ns ∷ []),
          );
          listed = r.listed;
        }))

  register_each_ns-Registered :
      (ctrlr : ℕ) (nss : List (Option (Namespace × Bool))) (app : App)
      → Registered l app
      → Registered l (final (register_each_ns ctrlr nss app))
  unfolding register_each_ns
  register_each_ns-Registered ctrlr [] app r = r
  register_each_ns-Registered ctrlr (none ∷ nss) app r = register_each_ns-Registered ctrlr nss app r
  register_each_ns-Registered ctrlr (some (ns, allocated) ∷ nss) app r =
      final->>= (Registered l) (register_ns allocated ctrlr ns app) _
        (register_ns-Registered allocated ctrlr ns app r) (register_each_ns-Registered ctrlr nss)

  track-Registered :
      (c : Controller) (enable : Bool) (app : App)
      → Registered l app
      → Ends (Registered l) (track c enable app)
  unfolding track
  track-Registered c enable app r =
      Ends-if _ _ (Ends-behind _ _ r (λ a. Ends-done _ r)) (Ends-done _ r)

  arbitrate-Registered :
      (spec : NvmeSpec) (unlimited : ℕ) (c : Controller) (app : App)
      → Registered l app
      → Ends (Registered l) (arbitrate spec unlimited c app)
  unfolding arbitrate
  arbitrate-Registered spec unlimited c app r =
      Ends-if _ (app.arb.arbitration_mechanism == spec.cap_ams_wrr && c.has_wrr)
        (Ends-behind _ (get_arb_feature c.takes_get c.admin) r (λ a.
          Ends-if _ (app.arb.arbitration_config == 0) (Ends-done _ r) (
            Ends-behind _ (set_arb_feature unlimited c.takes_set a).1 r
              (λ b. Ends-behind _ (get_arb_feature c.takes_get b) r (λ e. Ends-done _ r)))))
        (Ends-done _ r)

  rest-Registered :
      (spec : NvmeSpec) (unlimited : ℕ) (c : Controller) (app : App)
      → Registered l app
      → Registered l (
          final
            (track c true app >>= register_each_ns c.id c.active >>= arbitrate spec unlimited c))
  rest-Registered spec unlimited c app r =
      final->>= (Registered l) (track c true app >>= register_each_ns c.id c.active)
        (arbitrate spec unlimited c)
        (final->>= (Registered l) (track c true app) (register_each_ns c.id c.active)
          (track-Registered c true app r).at_end (register_each_ns-Registered c.id c.active))
        (λ app' r'. (arbitrate-Registered spec unlimited c app' r').at_end)

pub register_ctrlr-Registered :
    (spec : NvmeSpec) (unlimited : ℕ) (c : Controller) (l : List ℕ) (app : App)
    → Registered l app
    → OnDone (Registered (l ++ c.id ∷ [])) (register_ctrlr spec unlimited c app)
unfolding register_ctrlr
register_ctrlr-Registered spec unlimited c l app r = elim (Bool-cases (not c.allocated)) [
  | inl e ↦ rw e tt
  | inr e ↦ rw e (
      OnDone-final (Registered (l ++ c.id ∷ [])) _ (
        rest-Registered (l ++ c.id ∷ []) spec unlimited c _
          (record { counted = r.counted; listed = ap (λ xs. xs ++ c.id ∷ []) r.listed })))
]

pub OnDone->>= :
    (P Q : App → Type 0) (m : Exec App) (f : App → Exec App)
    → OnDone P m
    → ((app : App) → P app → OnDone Q (f app))
    → OnDone Q (m >>= f)
OnDone->>= P Q (done app) f h k = k app h
OnDone->>= P Q (exited app) f h k = tt
OnDone->>= P Q (waiting app) f h k = tt
