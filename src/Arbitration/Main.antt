-- ===== src/Arbitration/Main.antt =====
-- examples/arbitration/arbitration.cc: the controllers, the clean-up, and `main` behind its `parse_args`.
pub mod Registration
pub mod Ending
pub mod Tests
use zns_emulation_bench.Prelude.{
  ◌||◌, ℕ, zero, suc, ◌+◌, Bool, true, false, not, ◌&&◌, if◌then◌else◌, ◌==◌, Option, none, some,
  List, [], ◌∷◌, ◌++◌,
}
use zns_emulation_bench.Exec.{Exec, done, exited, waiting, ◌>>=◌}
use zns_emulation_bench.Arbitration.{NsEntry, WorkerThread, ArbContext}
use zns_emulation_bench.Arbitration.Features.{
  Admin, set_latency_tracking_feature, get_arb_feature, set_arb_feature,
}
use zns_emulation_bench.Arbitration.Setup.{
  NvmeSpec, Namespace, App, register_ns, register_workers, associate_workers_with_ns, task_count,
}

-- A connected controller: whether its entry is allocated, its active namespaces (`none` where
-- `spdk_nvme_ctrlr_get_ns` gives NULL) with whether theirs are, what it supports, which admin commands
-- it takes, and how it answers them.
pub record Controller : Type 0 where
  pub id : ℕ
  pub allocated : Bool
  pub active : List (Option (Namespace × Bool))
  pub tracks_latency : Bool
  pub has_wrr : Bool
  pub admin : Admin
  pub takes_tracking : Bool
  pub takes_get : Bool
  pub takes_set : Bool

-- Go on when the admin commands have ended.
abbrev pub behind : Exec Admin → App → (Admin → Exec App) → Exec App
behind (done a) app f = f a
behind (exited a) app f = exited app
behind (waiting a) app f = waiting app

-- `set_latency_tracking_feature` if it is wanted and supported.
unfoldable pub track : Controller → Bool → App → Exec App
unfolding set_latency_tracking_feature
track c enable app =
    if not (app.arb.latency_tracking_enable == 0) && c.tracks_latency
    then behind (set_latency_tracking_feature enable c.takes_tracking c.admin) app (λ a. done app)
    else done app

unfoldable pub register_each_ns : ℕ → List (Option (Namespace × Bool)) → App → Exec App
unfolding register_ns
register_each_ns ctrlr [] app = done app
register_each_ns ctrlr (none ∷ nss) app = register_each_ns ctrlr nss app
register_each_ns ctrlr (some (ns, allocated) ∷ nss) app =
    register_ns allocated ctrlr ns app >>= register_each_ns ctrlr nss

-- The arbitration feature: read, and if weights are wanted, set and read again.
unfoldable pub arbitrate : NvmeSpec → ℕ → Controller → App → Exec App
unfolding get_arb_feature set_arb_feature
arbitrate spec unlimited c app =
    if app.arb.arbitration_mechanism == spec.cap_ams_wrr && c.has_wrr
    then behind (get_arb_feature c.takes_get c.admin) app (λ a.
      if app.arb.arbitration_config == 0
      then done app
      else behind (set_arb_feature unlimited c.takes_set a).1 app
          (λ b. behind (get_arb_feature c.takes_get b) app (λ e. done app)))
    else done app

-- `register_ctrlr`.
unfoldable pub register_ctrlr : NvmeSpec → ℕ → Controller → App → Exec App
unfolding track register_each_ns arbitrate
register_ctrlr spec unlimited c app =
    if not c.allocated
    then exited app
    else track c true (record app { controllers = app.controllers ++ c.id ∷ [] })
      >>= register_each_ns c.id c.active
      >>= arbitrate spec unlimited c

-- `zns_dev_init`, if both targets have been connected to.
unfoldable pub zns_dev_init : NvmeSpec → ℕ → Controller → Controller → App → Exec App
unfolding register_ctrlr
zns_dev_init spec unlimited c c' app =
    register_ctrlr spec unlimited c app >>= register_ctrlr spec unlimited c'

-- Whether `register_controllers` returns 0.
abbrev pub has_namespaces : App → Bool
has_namespaces app = not (app.arb.num_namespaces == 0)

-- What is left at the end: the lists, and the controllers that have been detached, in order.
pub record Released : Type 0 where
  pub app : App
  pub detached : List ℕ

-- Go on with the next controller when the admin command has ended.
abbrev pub detach_behind : Exec App → List ℕ → Exec (App × List ℕ) → Exec (App × List ℕ)
detach_behind (done app) detached go = go
detach_behind (exited app) detached go = exited (app, detached)
detach_behind (waiting app) detached go = waiting (app, detached)

-- The loop of `unregister_controllers` over the list: each controller is removed, and detached. The polling
-- for the detachment is left out.
unfoldable pub unregister_each : (ℕ → Controller) → List ℕ → App → List ℕ → Exec (App × List ℕ)
unfolding track
unregister_each ctrlr [] app detached = done (app, detached)
unregister_each ctrlr (id ∷ ids) app detached =
    let removed : App = record app { controllers = ids } in
    detach_behind (track (ctrlr id) false removed) detached
      (unregister_each ctrlr ids removed (detached ++ id ∷ []))

-- The loop of `cleanup` over the entries of the namespaces.
unfoldable pub free_entries : List NsEntry → App → App
free_entries [] app = app
free_entries (entry ∷ entries) app = free_entries entries (record app { namespaces = entries })

-- The loop over the workers. A worker is freed with its contexts.
unfoldable pub free_workers : List WorkerThread → App → App
free_workers [] app = app
free_workers (worker ∷ workers) app = free_workers workers (record app { workers = workers })

-- `cleanup`: behind its loops it looks at the task pool, whether there is one or not.
unfoldable pub cleanup : Bool → App → Exec App
unfolding free_entries free_workers
cleanup counts app =
    let freed = free_workers app.workers (free_entries app.namespaces app) in
    if counts then done freed else exited freed

abbrev pub with_detached : List ℕ → Exec App → Exec Released
with_detached detached (done freed) = done (record { app = freed; detached = detached })
with_detached detached (exited freed) = exited (record { app = freed; detached = detached })
with_detached detached (waiting freed) = waiting (record { app = freed; detached = detached })

abbrev pub clean_behind : Bool → Exec (App × List ℕ) → Exec Released
clean_behind counts (done (app, detached)) = with_detached detached (cleanup counts app)
clean_behind counts (exited (app, detached)) = exited (record { app = app; detached = detached })
clean_behind counts (waiting (app, detached)) = waiting (record { app = app; detached = detached })

-- `zstore_cleanup`, where `counts` says whether the look at the task pool returns.
unfoldable pub zstore_cleanup : (ℕ → Controller) → Bool → App → Exec Released
unfolding unregister_each cleanup
zstore_cleanup ctrlr counts app = clean_behind counts (unregister_each ctrlr app.controllers app [])

-- The worker of a core, as the loop over `g_workers` finds it.
unfoldable pub main_worker_of : ℕ → List WorkerThread → Option WorkerThread
main_worker_of core [] = none
main_worker_of core (w ∷ ws) =
    let rest = main_worker_of core ws in if w.lcore == core then some w else rest

-- What `main` runs on: SPDK's and the system's answers, and the run of the workers, of which `work_fn`
-- is modelled elsewhere: with the workers of the other cores and the main one, and the size of the pool,
-- it gives the code that the main one returns. `counts_null` says whether `spdk_mempool_count` returns
-- when it is given no pool, which is not documented.
pub record Machine : Type 0 where
  pub spec : NvmeSpec
  pub burst_unlimited : ℕ
  pub env_init : Bool
  pub tsc_rate : ℕ
  pub cores : List (ℕ × Bool)
  pub first : Controller
  pub second : Controller
  pub mallocs : ℕ → Bool
  pub has_pool : Bool
  pub counts_null : Bool
  pub main_core : ℕ
  pub run : List WorkerThread → WorkerThread → ℕ → ℕ

abbrev pub return_behind : ℕ → Exec Released → Exec (ℕ × Released)
return_behind rc (done r) = done (rc, r)
return_behind rc (exited r) = exited (rc, r)
return_behind rc (waiting r) = waiting (rc, r)

-- The controller of an entry.
abbrev pub controller_of : Machine → ℕ → Controller
controller_of k id = if id == k.first.id then k.first else k.second

-- The end of `main`: the code that it returns, with what is left.
abbrev pub clean : Machine → ℕ → Bool → App → Exec (ℕ × Released)
clean k rc has_pool app =
    return_behind rc (zstore_cleanup (controller_of k) (has_pool || k.counts_null) app)

abbrev pub unreleased : App → ℕ × Released
unreleased app = (1, record { app = app; detached = [] })

-- The workers run, if there is one for the main core; otherwise the assertion aborts.
unfoldable pub launch : Machine → App → Option WorkerThread → Exec (ℕ × Released)
unfolding zstore_cleanup
launch k app none = exited (unreleased app)
launch k app (some w) = clean k (k.run app.workers w (task_count app.arb)) true app

-- `main` behind `associate_workers_with_ns`.
unfoldable pub run_workers : Machine → ℕ × App → Exec (ℕ × Released)
unfolding zstore_cleanup main_worker_of launch
run_workers k (rc, app) =
    if not (rc == 0) || not k.has_pool
    then clean k 1 false app
    else launch k app (main_worker_of k.main_core app.workers)

-- `main` behind `zns_dev_init`.
unfoldable pub when_connected : Machine → Exec App → Exec (ℕ × Released)
unfolding run_workers associate_workers_with_ns zstore_cleanup
when_connected k (done app) =
    if has_namespaces app
    then run_workers k (associate_workers_with_ns 2 k.mallocs app)
    else clean k 1 false app
when_connected k (exited app) = exited (unreleased app)
when_connected k (waiting app) = waiting (unreleased app)

-- `main` behind `register_workers`.
unfoldable pub when_registered : Machine → Bool × App → Exec (ℕ × Released)
unfolding zns_dev_init when_connected zstore_cleanup
when_registered k (registered, app) =
    if not registered
    then clean k 1 false app
    else when_connected k (zns_dev_init k.spec k.burst_unlimited k.first k.second app)

-- `main` behind `parse_args`.
unfoldable pub main : Machine → App → Exec (ℕ × Released)
unfolding register_workers when_registered
main k app =
    if not k.env_init
    then done (unreleased app)
    else when_registered k (
        register_workers k.spec k.cores
          (record app { arb = record app.arb { tsc_rate = k.tsc_rate } }))
