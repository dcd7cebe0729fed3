-- ===== src/Prober/Manager/Reach.antt =====
-- The states of the manager, whatever the order of its calls.
use baetyl.Base.{String, Bool, Option, none, some, [], ◌≡◌, arith, Option-cases, inl, inr, refl}
use baetyl.Base.Dict
use baetyl.Base.Dict.{Dict, NodupKeys, insert-NodupKeys, delete-NodupKeys, lookup-nil}
use baetyl.Base.Range.{Range}
use baetyl.Spec.{AppInfo}
use baetyl.Prober.Worker.{ProbeKey, Worker, new_worker, stop, starts}
use baetyl.Prober.Probe.{panics}
use baetyl.Prober.Manager.{
  probe_key_eq, App, Manager, probe_type_of, first_service, key_of, add_app, stop_key, remove_app,
  cleanup_apps, remove_worker,
}
use baetyl.Prober.Manager.Laws.{
  IsCounted, VisitsOnce, add_app-IsCounted, stop_key-IsCounted, remove_worker-IsCounted,
  cleanup_apps-IsCounted, cleanup_apps-NodupKeys,
}

-- What `NewManager` makes, and what each call makes of a state.
pub data Reached (range : Range) (kind : String) : Manager → Type 0 where
  made : Reached range kind (record { workers = []; status = [] })
  added :
      (app : Option App) (m : Manager) → Reached range kind m → Reached range kind (add_app app m).0
  removed :
      (info : Option AppInfo) (m : Manager)
      → Reached range kind m
      → Reached range kind (remove_app info m)
  cleaned :
      (apps : Dict String Bool) (m : Manager)
      → Reached range kind m
      → Reached range kind (cleanup_apps range kind apps m)
  exited :
      (key : ProbeKey) (m : Manager)
      → Reached range kind m
      → Reached range kind (remove_worker key m)

add_app-NodupKeys :
    (app : Option App) (m : Manager) → NodupKeys m.workers → NodupKeys (add_app app m).0.workers
unfolding add_app
add_app-NodupKeys none m u = u
add_app-NodupKeys (some app) m u = elim (Option-cases (probe_type_of app)) [
  | inl p ↦ ground arith
  | inr (t, p) ↦
      let a = insert-NodupKeys (key_of app t) (new_worker t (first_service app)) m.workers u in
      ground arith
]

stop_key-NodupKeys :
    (k : ProbeKey) (m : Manager) → NodupKeys m.workers → NodupKeys (stop_key k m).workers
unfolding stop_key
stop_key-NodupKeys k m u = elim (Option-cases (Dict.lookup k m.workers)) [
  | inl p ↦ ground arith
  | inr (w, p) ↦ let a = insert-NodupKeys k (stop w) m.workers u in ground arith
]

-- If ranging visits each key once, then in every state that calls of the manager reach, no key
-- has two workers and exactly the keys with a worker have a count.
pub reached-IsCounted :
    (range : Range)
    → VisitsOnce range
    → (kind : String) (m : Manager) → Reached range kind m
    → NodupKeys m.workers × IsCounted m
unfolding IsCounted remove_app remove_worker Dict.has
reached-IsCounted range once kind m made = (tt, λ key. refl)
reached-IsCounted range once kind m (added app m0 r) =
    let (u, h) = reached-IsCounted range once kind m0 r in
    (add_app-NodupKeys app m0 u, add_app-IsCounted app m0 h)
reached-IsCounted range once kind m (removed none m0 r) = reached-IsCounted range once kind m0 r
reached-IsCounted range once kind m (removed (some info) m0 r) =
    let (u, h) = reached-IsCounted range once kind m0 r in
    (
      stop_key-NodupKeys _ _ (stop_key-NodupKeys _ m0 u),
      stop_key-IsCounted _ _ (stop_key-IsCounted _ m0 h),
    )
reached-IsCounted range once kind m (cleaned apps m0 r) =
    let (u, h) = reached-IsCounted range once kind m0 r in
    (
      cleanup_apps-NodupKeys range once kind apps m0 u,
      cleanup_apps-IsCounted range once kind apps m0 u h,
    )
reached-IsCounted range once kind m (exited key m0 r) =
    let (u, h) = reached-IsCounted range once kind m0 r in
    (delete-NodupKeys key m0.workers u, remove_worker-IsCounted key m0 h)

-- If the first service of an application has no liveness probe and adding the application
-- starts a worker, that worker panics as it starts.
pub startup_worker_panics :
    (app : App) (m : Manager) (w : Worker)
    → (first_service app).liveness_probe ≡ none
    → (add_app (some app) m).1 ≡ some w
    → starts w ≡ panics
unfolding add_app starts new_worker
startup_worker_panics app m w h e = elim (Option-cases (probe_type_of app)) [
  | inl p ↦ ground arith
  | inr (t, p) ↦ ground arith
]
