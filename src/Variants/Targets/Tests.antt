-- ===== src/Variants/Targets/Tests.antt =====
-- A connection to three targets.
use zns_emulation_bench.Prelude.{refl, [], ◌∷◌, ◌++◌}
use zns_emulation_bench.Exec.{OnDone}
use zns_emulation_bench.Arbitration.Main.Tests.{controller, machine, app}
use zns_emulation_bench.Arbitration.Main.Registration.{ids, Registered}
use zns_emulation_bench.Variants.Targets.{connect_each}
use zns_emulation_bench.Variants.Targets.Registered.{connect_each-Registered}

connect_each-Registered_example :
    OnDone
      (Registered ([] ++ ids (controller 5 ∷ controller 6 ∷ controller 7 ∷ [])))
      (connect_each machine.spec 7 (controller 5 ∷ controller 6 ∷ controller 7 ∷ []) app)
connect_each-Registered_example =
    connect_each-Registered machine.spec 7 (controller 5 ∷ controller 6 ∷ controller 7 ∷ []) [] app
      (record { counted = refl; listed = refl })
