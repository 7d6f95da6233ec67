-- ===== src/Arbitration/Main/Ending.antt =====
-- What `main` of examples/arbitration/arbitration.cc leaves behind.
use mathlib.Core.List.{append-nil, append_assoc}
use zns_emulation_bench.Prelude.{
  ℕ, ◌≡◌, refl, sym, subst, ◌∙◌, Bool, true, false, not, ◌||◌, if◌then◌else◌, Option, none, some,
  List, [], ◌∷◌, ◌++◌, ◌==◌,
}
use zns_emulation_bench.Exec.{Exec, done, exited, waiting, OnDone}
use zns_emulation_bench.Arbitration.{NsEntry, WorkerThread}
use zns_emulation_bench.Arbitration.Setup.{
  NvmeSpec, App, register_each, register_workers, associate_workers_with_ns,
}
use zns_emulation_bench.Arbitration.Main.{
  Controller, Released, Machine, track, detach_behind, unregister_each, free_entries, free_workers,
  cleanup, with_detached, clean_behind, zstore_cleanup, zns_dev_init, has_namespaces,
  main_worker_of, return_behind, clean, controller_of, unreleased, run_workers, main, launch,
  when_connected, when_registered,
}
use zns_emulation_bench.Arbitration.Main.Registration.{
  Registered, register_ctrlr-Registered, OnDone->>=,
}

-- No list of the program has an element, and these controllers have been detached, in this order.
pub record IsReleased (detached : List ℕ) (r : Released) : Type 0 where
  pub no_controllers : r.app.controllers ≡ []
  pub no_namespaces : r.app.namespaces ≡ []
  pub no_workers : r.app.workers ≡ []
  pub all_detached : r.detached ≡ detached

abbrev IsUnregistered : List ℕ → App × List ℕ → Type 0
IsUnregistered detached x = (x.0.controllers ≡ []) × (x.1 ≡ detached)

detach_behind-done :
    (P : App × List ℕ → Type 0) (m : Exec App) (d : List ℕ) (go : Exec (App × List ℕ))
    → OnDone P go
    → OnDone P (detach_behind m d go)
detach_behind-done P (done app) d go h = h
detach_behind-done P (exited app) d go h = tt
detach_behind-done P (waiting app) d go h = tt

unregister_each-done :
    (ctrlr : ℕ → Controller) (ids : List ℕ) (app : App) (d : List ℕ)
    → app.controllers ≡ ids
    → OnDone (IsUnregistered (d ++ ids)) (unregister_each ctrlr ids app d)
unfolding unregister_each
unregister_each-done ctrlr [] app d e = (e, sym (append-nil d))
unregister_each-done ctrlr (id ∷ ids) app d e =
    detach_behind-done (IsUnregistered (d ++ id ∷ ids)) (track (ctrlr id) false removed) d _ (
      subst (λ l. OnDone (IsUnregistered l) (unregister_each ctrlr ids removed (d ++ id ∷ [])))
        (append_assoc d (id ∷ []) ids) (unregister_each-done ctrlr ids removed (d ++ id ∷ []) refl))
  where
    removed : App
    removed = record app { controllers = ids }

-- What the loops of `cleanup` leave of the lists.
pub record IsFreed (app : App) (freed : App) : Type 0 where
  pub controllers_same : freed.controllers ≡ app.controllers
  pub no_namespaces : freed.namespaces ≡ []
  pub no_workers : freed.workers ≡ []

free_workers-IsFreed :
    (workers : List WorkerThread) (app : App)
    → app.workers ≡ workers
    → app.namespaces ≡ []
    → IsFreed app (free_workers workers app)
unfolding free_workers
free_workers-IsFreed [] app e n = record {
  controllers_same = refl;
  no_namespaces = n;
  no_workers = e;
}
free_workers-IsFreed (w ∷ ws) app e n =
    let f = free_workers-IsFreed ws (record app { workers = ws }) refl n in
    record {
      controllers_same = f.controllers_same;
      no_namespaces = f.no_namespaces;
      no_workers = f.no_workers;
    }

free_entries_ends :
    (entries : List NsEntry) (app : App)
    → app.namespaces ≡ entries
    → ((free_entries entries app).namespaces ≡ [])
      × ((free_entries entries app).controllers ≡ app.controllers)
      × ((free_entries entries app).workers ≡ app.workers)
unfolding free_entries
free_entries_ends [] app e = (e, refl, refl)
free_entries_ends (n ∷ ns) app e = free_entries_ends ns (record app { namespaces = ns }) refl

cleanup-IsFreed : (counts : Bool) (app : App) → OnDone (IsFreed app) (cleanup counts app)
unfolding cleanup
cleanup-IsFreed false app = tt
cleanup-IsFreed true app =
    let (n, c, w) = free_entries_ends app.namespaces app refl in
    let f = free_workers-IsFreed app.workers (free_entries app.namespaces app) w n in
    record {
      controllers_same = f.controllers_same ∙ c;
      no_namespaces = f.no_namespaces;
      no_workers = f.no_workers;
    }

with_detached-IsReleased :
    (d : List ℕ) (app : App) (m : Exec App)
    → app.controllers ≡ []
    → OnDone (IsFreed app) m
    → OnDone (IsReleased d) (with_detached d m)
with_detached-IsReleased d app (done freed) e f = record {
  no_controllers = f.controllers_same ∙ e;
  no_namespaces = f.no_namespaces;
  no_workers = f.no_workers;
  all_detached = refl;
}
with_detached-IsReleased d app (exited freed) e f = tt
with_detached-IsReleased d app (waiting freed) e f = tt

clean_behind-done :
    (counts : Bool) (d : List ℕ) (m : Exec (App × List ℕ))
    → OnDone (IsUnregistered d) m
    → OnDone (IsReleased d) (clean_behind counts m)
clean_behind-done counts d (done (app, l)) h =
    subst (λ d'. OnDone (IsReleased d') (with_detached l (cleanup counts app))) h.1
      (with_detached-IsReleased l app (cleanup counts app) h.0 (cleanup-IsFreed counts app))
clean_behind-done counts d (exited x) h = tt
clean_behind-done counts d (waiting x) h = tt

return_behind-done :
    (P : Released → Type 0) (rc : ℕ) (m : Exec Released)
    → OnDone P m
    → OnDone (λ (x : ℕ × Released). P x.1) (return_behind rc m)
return_behind-done P rc (done r) h = h
return_behind-done P rc (exited r) h = tt
return_behind-done P rc (waiting r) h = tt

-- What `main` returns with has this left.
abbrev pub Leaves : List ℕ → Exec (ℕ × Released) → Type 0
Leaves detached m = OnDone (λ x. IsReleased detached x.1) m

clean-Leaves :
    (k : Machine) (rc : ℕ) (has_pool : Bool) (app : App)
    → Leaves app.controllers (clean k rc has_pool app)
unfolding zstore_cleanup
clean-Leaves k rc has_pool app = return_behind-done (IsReleased app.controllers) rc _ (
    clean_behind-done (has_pool || k.counts_null) app.controllers
      (unregister_each (controller_of k) app.controllers app [])
      (unregister_each-done (controller_of k) app.controllers app [] refl))

either_done :
    {A : Type 0} (P : A → Type 0) (b : Bool) (m n : Exec A)
    → OnDone P m
    → OnDone P n
    → OnDone P (if b then m else n)
either_done P true m n h k = h
either_done P false m n h k = k

launch-Leaves :
    (k : Machine) (app : App) (o : Option WorkerThread) → Leaves app.controllers (launch k app o)
unfolding launch
launch-Leaves k app none = tt
launch-Leaves k app (some w) = clean-Leaves k _ true app

run_workers-Leaves : (k : Machine) (x : ℕ × App) → Leaves x.1.controllers (run_workers k x)
unfolding run_workers
run_workers-Leaves k (rc, app) =
    either_done _ (not (rc == 0) || not k.has_pool) _ _ (clean-Leaves k 1 false app)
      (launch-Leaves k app (main_worker_of k.main_core app.workers))

associate-controllers :
    (count : ℕ) (mallocs : ℕ → Bool) (app : App)
    → (associate_workers_with_ns count mallocs app).1.controllers ≡ app.controllers
unfolding associate_workers_with_ns
associate-controllers count mallocs app = refl

when_connected-Leaves :
    (k : Machine) (l : List ℕ) (m : Exec App)
    → OnDone (Registered l) m
    → Leaves l (when_connected k m)
unfolding when_connected
when_connected-Leaves k l (done app) r =
    subst (λ l. Leaves l (when_connected k (done app))) r.listed
      (either_done _ (has_namespaces app) _ _
        (subst (λ l. Leaves l (run_workers k (associate_workers_with_ns 2 k.mallocs app)))
          (associate-controllers 2 k.mallocs app)
          (run_workers-Leaves k (associate_workers_with_ns 2 k.mallocs app)))
        (clean-Leaves k 1 false app))
when_connected-Leaves k l (exited app) r = tt
when_connected-Leaves k l (waiting app) r = tt

zns_dev_init-Registered :
    (spec : NvmeSpec) (unlimited : ℕ) (c c' : Controller) (l : List ℕ) (app : App)
    → Registered l app
    → OnDone (Registered ((l ++ c.id ∷ []) ++ c'.id ∷ [])) (zns_dev_init spec unlimited c c' app)
unfolding zns_dev_init
zns_dev_init-Registered spec unlimited c c' l app r =
    OnDone->>= (Registered (l ++ c.id ∷ [])) _ _ _
      (register_ctrlr-Registered spec unlimited c l app r)
      (register_ctrlr-Registered spec unlimited c' (l ++ c.id ∷ []))

-- The workers are registered without a change to the other lists.
register_each-Registered :
    (spec : NvmeSpec) (l : List ℕ) (cores : List (ℕ × Bool)) (qprio : ℕ) (app : App)
    → Registered l app
    → Registered l (register_each spec qprio cores app).1
unfolding register_each
register_each-Registered spec l [] qprio app r = r
register_each-Registered spec l ((core, true) ∷ cores) qprio app r =
    register_each-Registered spec l cores _ _ (record { counted = r.counted; listed = r.listed })
register_each-Registered spec l ((core, false) ∷ cores) qprio app r = r

-- What `register_workers` makes of the lists at the start.
abbrev pub after_workers : Machine → App → Bool × App
after_workers k app =
    register_workers k.spec k.cores (record app { arb = record app.arb { tsc_rate = k.tsc_rate } })

-- Both targets' controllers, in order, if the workers have been registered.
abbrev pub to_detach : Machine → Bool → List ℕ
to_detach k registered = if registered then k.first.id ∷ k.second.id ∷ [] else []

when_registered-Leaves :
    (k : Machine) (registered : Bool) (app : App)
    → Registered [] app
    → Leaves (to_detach k registered) (when_registered k (registered, app))
unfolding when_registered
when_registered-Leaves k false app r =
    subst (λ l. Leaves l (clean k 1 false app)) r.listed (clean-Leaves k 1 false app)
when_registered-Leaves k true app r =
    when_connected-Leaves k (k.first.id ∷ k.second.id ∷ [])
      (zns_dev_init k.spec k.burst_unlimited k.first k.second app)
      (zns_dev_init-Registered k.spec k.burst_unlimited k.first k.second [] app r)

-- If SPDK's environment starts, with no controller listed and as many namespaces counted as there are
-- entries, then wherever `main` fails or not: when it returns, the lists of controllers, namespaces and
-- workers are empty, and no controller has been detached if a worker could not be registered, and
-- otherwise both have, each once, in the order in which they were connected.
pub main-EndsReleased :
    (k : Machine) (app : App)
    → k.env_init ≡ true
    → Registered [] app
    → Leaves (to_detach k (after_workers k app).0) (main k app)
unfolding main register_workers
main-EndsReleased k app e r =
    subst
      (λ b.
        Leaves (to_detach k started.0)
          (if not b then done (unreleased app) else when_registered k started))
      (sym e)
      (when_registered-Leaves k started.0 started.1 (
        register_each-Registered k.spec [] k.cores k.spec.qprio_urgent _
          (record { counted = r.counted; listed = r.listed })))
  where
    started : Bool × App
    started = after_workers k app
