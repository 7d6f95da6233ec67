-- ===== src/Variants/Targets/Registered.antt =====
-- What is registered when the targets of examples/multipath have been connected to.
use mathlib.Core.List.{append-nil, append_assoc}
use zns_emulation_bench.Prelude.{ℕ, sym, subst, ◌∙◌, List, [], ◌∷◌, ◌++◌}
use zns_emulation_bench.Exec.{OnDone}
use zns_emulation_bench.Arbitration.Setup.{NvmeSpec, App}
use zns_emulation_bench.Arbitration.Main.{Controller, register_ctrlr}
use zns_emulation_bench.Arbitration.Main.Registration.{
  ids, Registered, register_ctrlr-Registered, OnDone->>=,
}
use zns_emulation_bench.Variants.Targets.{connect_each}

-- If the number of namespaces counts their entries at first, it does so when all targets have been
-- connected to, whichever namespaces are left out and whatever the admin commands give, and the targets'
-- controllers are listed behind those before, in order.
pub connect_each-Registered :
    (spec : NvmeSpec) (unlimited : ℕ) (cs : List Controller) (l : List ℕ) (app : App)
    → Registered l app
    → OnDone (Registered (l ++ ids cs)) (connect_each spec unlimited cs app)
unfolding connect_each
connect_each-Registered spec unlimited [] l app r = record {
  counted = r.counted;
  listed = r.listed ∙ sym (append-nil l);
}
connect_each-Registered spec unlimited (c ∷ cs) l app r =
    OnDone->>= (Registered (l ++ c.id ∷ [])) (Registered (l ++ ids (c ∷ cs)))
      (register_ctrlr spec unlimited c app) (connect_each spec unlimited cs)
      (register_ctrlr-Registered spec unlimited c l app r)
      (λ app' r'.
        subst (λ (xs : List ℕ). OnDone (Registered xs) (connect_each spec unlimited cs app'))
          (append_assoc l (c.id ∷ []) (ids cs))
          (connect_each-Registered spec unlimited cs (l ++ c.id ∷ []) app' r'))
