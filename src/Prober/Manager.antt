-- ===== src/Prober/Manager.antt =====
-- ami/native/prober/prober_manager.go: the workers of all processes.
pub mod Laws
pub mod Reach
use mathlib.Core.Option
use mathlib.Core.Logic.{dite}
use baetyl.Base.{
  ℕ, suc, String, Bool, true, false, not, Option, none, some, List, [], ◌∷◌, ltb, leb, foldl, ◌==◌,
  Eq, string_eq, nat_eq, ◌≡◌, ap, refl, if◌then◌else◌,
}
use baetyl.Base.Dict
use baetyl.Base.Dict.{Dict}
use baetyl.Base.Range.{Range}
use baetyl.Keys.{make_key}
use baetyl.Spec.{AppInfo}
use baetyl.Prober.Worker.{ProbeType, liveness, startup, ProbeKey, Worker, Probes, new_worker, stop}

instance unfoldable pub probe_type_eq : Eq ProbeType
probe_type_eq = record { dec = go }
  where
    go : Discrete ProbeType
    go liveness liveness = yes refl
    go startup startup = yes refl
    go liveness startup = no (λ p. cc)
    go startup liveness = no (λ p. cc)

instance unfoldable pub probe_key_eq : Eq ProbeKey
probe_key_eq = record { dec = go }
  where
    go : Discrete ProbeKey
    go a b =
        dite (string_eq.dec a.name b.name)
          (λ n.
            dite (string_eq.dec a.version b.version)
              (λ v.
                dite (probe_type_eq.dec a.probe_type b.probe_type) (λ t. yes (cc))
                  (λ x. no (λ p. x (ap (λ (k : ProbeKey). k.probe_type) p))))
              (λ x. no (λ p. x (ap (λ (k : ProbeKey). k.version) p))))
          (λ x. no (λ p. x (ap (λ (k : ProbeKey). k.name) p)))

-- `v1.Application`, with what the manager reads.
pub record App : Type 0 where
  pub name : String
  pub version : String
  pub services : List Probes

pub record Manager : Type 0 where
  pub workers : Dict ProbeKey Worker
  pub status : Dict ProbeKey ℕ

abbrev pub max_probe_retries : ℕ
max_probe_retries = 3

-- The type of the probe that `AddApp` runs.
unfoldable pub probe_type_of : App → Option ProbeType
probe_type_of app = elim (app.services) [
  | [] ↦ none
  | svc ∷ _ ↦ elim (svc.liveness_probe) [
    | some _ ↦ some liveness
    | none ↦ elim (svc.startup_probe) [ some _ ↦ some startup | none ↦ none ]
  ]
]

abbrev pub first_service : App → Probes
first_service app = elim (app.services) [
  | [] ↦ record { liveness_probe = none; startup_probe = none }
  | svc ∷ _ ↦ svc
]

abbrev pub key_of : App → ProbeType → ProbeKey
key_of app t = record { name = app.name; version = app.version; probe_type = t }

-- `AddApp`, and the worker that it starts.
unfoldable pub add_app : Option App → Manager → Manager × Option Worker
unfolding probe_type_of
add_app none m = (m, none)
add_app (some app) m = elim (probe_type_of app) [
  | none ↦ (m, none)
  | some t ↦ if Dict.has (key_of app t) m.workers then (m, none) else (
    record m {
      workers = Dict.insert (key_of app t) (new_worker t (first_service app)) m.workers;
      status = Dict.insert (key_of app t) 0 m.status;
    },
    some (new_worker t (first_service app)),
  )
]

-- `if w, ok := m.workers[key]; ok { w.stop() }`
unfoldable pub stop_key : ProbeKey → Manager → Manager
stop_key key m = elim (Dict.lookup key m.workers) [
  | none ↦ m
  | some w ↦ record m { workers = Dict.insert key (stop w) m.workers }
]

unfoldable pub remove_app : Option AppInfo → Manager → Manager
unfolding stop_key
remove_app none m = m
remove_app (some info) m =
    stop_key (record { name = info.name; version = info.version; probe_type = startup })
      (stop_key (record { name = info.name; version = info.version; probe_type = liveness }) m)

-- `m.status[key]++`
abbrev pub count_of : ProbeKey → Manager → ℕ
count_of key m = elim (Dict.lookup key m.status) [ none ↦ 0 | some n ↦ n ]

-- `CleanupApps`, on one worker. `kind` is the constant `v1.KindApplication`.
unfoldable pub cleanup_one : String → Dict String Bool → Manager → ProbeKey × Worker → Manager
cleanup_one kind apps m (key, w) =
    if Dict.has (make_key kind key.name key.version) apps
    then record m { status = Dict.insert key 0 m.status }
    else record {
      status = Dict.insert key (suc (count_of key m)) m.status;
      workers =
          if leb max_probe_retries (suc (count_of key m))
          then Dict.insert key (stop w) m.workers
          else m.workers;
    }

unfoldable pub cleanup_apps : Range → String → Dict String Bool → Manager → Manager
unfolding cleanup_one
cleanup_apps range kind apps m =
    foldl (cleanup_one kind apps) m (range.order (ProbeKey × Worker) m.workers)

unfoldable pub remove_worker : ProbeKey → Manager → Manager
remove_worker key m = record {
  workers = Dict.delete key m.workers;
  status = Dict.delete key m.status;
}

-- `CheckAndStart`. `core` and `init` are the constant prefixes of the system applications; the store is
-- none where it is not set, and finds none for an error.
unfoldable pub check_and_start :
    (String → Bool)
    → Option (String → Option App)
    → String
    → AppInfo
    → Manager
    → Manager × Option Worker
unfolding add_app
check_and_start is_system none kind info m = (m, none)
check_and_start is_system (some store) kind info m =
    if is_system info.name then (m, none) else elim (store (make_key kind info.name info.version)) [
      | none ↦ (m, none)
      | some app ↦ add_app (some app) m
    ]

-- `NewManager`: no worker and no count.
unfoldable pub new_manager : Manager
new_manager = record { workers = []; status = [] }
