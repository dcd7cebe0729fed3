-- ===== src/Sync/Desire.antt =====
-- sync/desire.go: the applications that the cloud desires, with what they mount, fetched and stored.
pub mod Laws
pub mod Tables
pub mod Complete
pub mod Filtered
use mathlib.Core.Option
use baetyl.Base.{
  String, Bool, true, false, Option, none, some, List, [], ◌∷◌, foldl, map, ◌==◌, ◌&&◌, string_eq,
  if◌then◌else◌,
}
use baetyl.Base.Dict
use baetyl.Base.Dict.{Dict}
use baetyl.Base.Range.{Range}
use baetyl.Keys.{make_key}
use baetyl.Spec.{AppInfo, Application, Configuration, Secret, Volume}
use baetyl.Sync.Object.{Disk, filter_config, download_config}
use baetyl.Sync.Object

pub data Kind : Type 0 where
  application_kind configuration_kind secret_kind : Kind

pub record ResourceInfo : Type 0 where
  pub kind : Kind
  pub name : String
  pub version : String

-- `specv1.ResourceValue`: one of the three, or something that is none of them.
pub data Value : Type 0 where
  app_value : Application → Value
  config_value : Configuration → Value
  secret_value : Secret → Value
  no_value : Value

abbrev pub as_app : Value → Option Application
as_app (app_value a) = some a
as_app _ = none

abbrev pub as_config : Value → Option Configuration
as_config (config_value c) = some c
as_config _ = none

abbrev pub as_secret : Value → Option Secret
as_secret (secret_value s) = some s
as_secret _ = none

-- The store: a table for each type, and the disk beside it.
pub record Store : Type 0 where
  pub apps : Dict String Application
  pub configs : Dict String Configuration
  pub secrets : Dict String Secret
  pub disk : Disk

pub data Failure : Type 0 where
  no_link no_app no_config no_secret no_key not_downloaded not_stored : Failure

abbrev pub Outcome : Type 0
Outcome = Option Failure × Store

abbrev pub and_then : Outcome → (Store → Outcome) → Outcome
and_then (some e, s) f = (some e, s)
and_then (none, s) f = f s

-- What the first part of `SyncResource` gathers, or why it stops.
pub data Fetched : Type 0 where
  stopped : Failure → Fetched
  got : Dict String Application → Dict String Configuration → Dict String Secret → Fetched

abbrev pub or_stop : {A : Type 0} → Failure → Option A → (A → Fetched) → Fetched
or_stop e none f = stopped e
or_stop e (some a) f = f a

abbrev pub or_keep : {A : Type 0} → Option A → Outcome → (A → Outcome) → Outcome
or_keep none o f = o
or_keep (some a) o f = f a

-- What the code calls: the link to the cloud, which may fail, the store's `Get` on a key that is
-- there and its `Upsert`, which may fail too, and the names of the kinds.
pub record Lib : Type 0 where
  pub request : List ResourceInfo → Option (List Value)
  pub reads : String → Bool
  pub upserts : String → Bool
  pub kind_application : String
  pub kind_configuration : String
  pub kind_secret : String
  pub path : String
  pub object : Object.Lib

module _ (range : Range) (lib : Lib) where
  unfoldable pub gen_resource_infos : Kind → Dict String String → List ResourceInfo
  gen_resource_infos kind infos =
      map (λ (name, version). record { kind = kind; name = name; version = version })
        (range.order (String × String) infos)

  unfoldable pub sync_resource_values : List ResourceInfo → Option (List Value)
  sync_resource_values [] = some []
  sync_resource_values (c ∷ crds) = lib.request (c ∷ crds)

  unfoldable pub store_application : Application → Store → Outcome
  store_application app s =
      let key = make_key lib.kind_application app.name app.version in
      if key == ""
      then (some no_key, s)
      else if Dict.has key s.apps && lib.reads key
      then (none, s)
      else if lib.upserts key
      then (none, record s { apps = Dict.insert key app s.apps })
      else (some not_stored, s)

  unfoldable pub store_secret : Secret → Store → Outcome
  store_secret secret s =
      let key = make_key lib.kind_secret secret.name secret.version in
      if key == ""
      then (some no_key, s)
      else if Dict.has key s.secrets && lib.reads key
      then (none, s)
      else if lib.upserts key
      then (none, record s { secrets = Dict.insert key secret s.secrets })
      else (some not_stored, s)

  unfoldable pub store_configuration : Configuration → Store → Outcome
  store_configuration cfg s =
      let key = make_key lib.kind_configuration cfg.name cfg.version in
      if key == ""
      then (some no_key, s)
      else if Dict.has key s.configs && lib.reads key
      then (none, s)
      else if lib.upserts key
      then (none, record s { configs = Dict.insert key cfg s.configs })
      else (some not_stored, s)

  -- The download comes first, then the key and the table.
  unfoldable pub process_configuration : Configuration → Store → Outcome
  unfolding store_configuration
  process_configuration cfg s =
      let (failed, disk) = download_config lib.object range lib.path cfg s.disk in
      elim failed [
        | some _ ↦ (some not_downloaded, record s { disk = disk })
        | none ↦ store_configuration cfg (record s { disk = disk })
      ]

  -- The object that a volume names, among those that were fetched: a configuration, else a secret.
  unfoldable pub process_secret : Dict String Secret → Volume → Store → Outcome
  unfolding store_secret
  process_secret secrets v s =
      or_keep v.secret (none, s)
        (λ ref. or_keep (Dict.lookup ref.name secrets) (none, s) (λ x. store_secret x s))

  unfoldable pub process_volume :
      Dict String Configuration → Dict String Secret → Volume → Store → Outcome
  unfolding process_secret process_configuration
  process_volume configs secrets v s = or_keep v.config (process_secret secrets v s) (λ ref.
      or_keep (Dict.lookup ref.name configs) (process_secret secrets v s)
        (λ cfg. process_configuration cfg s))

  unfoldable pub process_volumes :
      Dict String Configuration → Dict String Secret → List Volume → Store → Outcome
  unfolding process_volume
  process_volumes configs secrets [] s = (none, s)
  process_volumes configs secrets (v ∷ vs) s =
      and_then (process_volume configs secrets v s) (λ s'. process_volumes configs secrets vs s')

  unfoldable pub store_apps :
      Dict String Configuration → Dict String Secret → List (String × Application) → Store → Outcome
  unfolding process_volumes store_application
  store_apps configs secrets [] s = (none, s)
  store_apps configs secrets ((_, app) ∷ rest) s =
      and_then (process_volumes configs secrets app.volumes s)
        (λ s1. and_then (store_application app s1) (λ s2. store_apps configs secrets rest s2))

  -- The configurations and the secrets that volumes name, with their versions.
  unfoldable pub note_volume :
      Dict String String × Dict String String → Volume → Dict String String × Dict String String
  note_volume (configs, secrets) v = elim (v.config) [
    | some c ↦ (Dict.insert c.name c.version configs, secrets)
    | none ↦ elim (v.secret) [
      | some x ↦ (configs, Dict.insert x.name x.version secrets)
      | none ↦ (configs, secrets)
    ]
  ]

  unfoldable pub collect_apps :
      List Value → Option (Dict String Application × (Dict String String × Dict String String))
  unfolding note_volume
  collect_apps values = go values ([], ([], []))
    where
      go :
          List Value
          → Dict String Application × (Dict String String × Dict String String)
          → Option (Dict String Application × (Dict String String × Dict String String))
      go [] acc = some acc
      go (r ∷ rest) (apps, infos) = elim (as_app r) [
        | none ↦ none
        | some app ↦ go rest (Dict.insert app.name app apps, foldl note_volume infos app.volumes)
      ]

  unfoldable pub collect_configs :
      List Value → Dict String Configuration → Option (Dict String Configuration)
  collect_configs [] configs = some configs
  collect_configs (r ∷ rest) configs = elim (as_config r) [
    | none ↦ none
    | some cfg ↦ collect_configs rest (Dict.insert cfg.name (filter_config lib.object cfg) configs)
  ]

  unfoldable pub collect_secrets : List Value → Dict String Secret → Option (Dict String Secret)
  collect_secrets [] secrets = some secrets
  collect_secrets (r ∷ rest) secrets = elim (as_secret r) [
    | none ↦ none
    | some secret ↦ collect_secrets rest (Dict.insert secret.name secret secrets)
  ]

  -- `SyncResource` up to its last loop, which is the first to touch the store.
  unfoldable pub fetch : AppInfo → Fetched
  unfolding gen_resource_infos sync_resource_values collect_apps collect_configs collect_secrets
  fetch info =
      or_stop no_link
        (sync_resource_values
          (gen_resource_infos application_kind ((info.name, info.version) ∷ [])))
        (λ found. or_stop no_app (collect_apps found) (λ (apps, (wanted_configs, wanted_secrets)).
          or_stop no_link
            (sync_resource_values (gen_resource_infos configuration_kind wanted_configs))
            (λ found_configs. or_stop no_config (collect_configs found_configs []) (λ configs.
              or_stop no_link (sync_resource_values (gen_resource_infos secret_kind wanted_secrets))
                (λ found_secrets.
                  or_stop no_secret (collect_secrets found_secrets [])
                    (λ secrets. got apps configs secrets))))))

  unfoldable pub store_fetched : Fetched → Store → Outcome
  unfolding store_apps
  store_fetched (stopped e) s = (some e, s)
  store_fetched (got apps configs secrets) s =
      store_apps configs secrets (range.order (String × Application) apps) s

  unfoldable pub sync_resource : AppInfo → Store → Outcome
  unfolding fetch store_fetched
  sync_resource info s = store_fetched (fetch info) s

  unfoldable pub add_app : Dict String Application → Value → Dict String Application
  add_app apps r = elim (as_app r) [ none ↦ apps | some app ↦ Dict.insert app.name app apps ]

  unfoldable pub sync_apps : List AppInfo → Option (Dict String Application)
  unfolding gen_resource_infos sync_resource_values add_app
  sync_apps infos =
      elim (sync_resource_values (
        gen_resource_infos application_kind (
          foldl (λ wanted (info : AppInfo). Dict.insert info.name info.version wanted) [] infos))) [
            | none ↦ none
            | some values ↦ some (foldl add_app [] values)
          ]
