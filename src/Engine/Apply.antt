-- ===== src/Engine/Apply.antt =====
-- engine/engine.go, `applyApps`, `applyApp` and `injectCert`: what is handed to the platform.
pub mod Blame
pub mod Certs
pub mod Handed
pub mod Laws
pub mod Objects
use mathlib.Core.Option
use baetyl.Base.{
  ℕ, suc, ◌+◌, String, ◌<>◌, Bool, true, false, not, ◌&&◌, length, Option, none, some, List, [],
  ◌∷◌, ◌++◌, ◌==◌, string_eq, if◌then◌else◌,
}
use baetyl.Base.Dict
use baetyl.Base.Dict.{Dict}
use baetyl.Base.Range.{Range}
use baetyl.Base.Text.{contains}
use baetyl.Keys.{make_key}
use baetyl.Message.{Try, done, failed}
use baetyl.Security.{CertPem, AltNames, get_ca, issue_certificate, not_found}
use baetyl.Security
use baetyl.Spec.{
  AppInfo, AppStats, Application, Configuration, ObjectReference, Secret, Service, Status, unknown,
  Volume, VolumeMount,
}
use baetyl.Sync.Desire.{Store, Failure, sync_resource}
use baetyl.Sync.Desire
use baetyl.Sync.Prepare.{prepare_app}
use baetyl.Sync.Prepare
use baetyl.Engine.Collide.{Stats}

abbrev pub Configs : Type 0
Configs = Dict String Configuration

abbrev pub Secrets : Type 0
Secrets = Dict String Secret

-- `kube.CustomInfo`
pub record CustomInfo : Type 0 where
  pub info : AppInfo
  pub namespace : String

-- What `ApplyApp` of the platform was called with.
pub record Applied : Type 0 where
  pub namespace : String
  pub app : Application
  pub configs : Configs
  pub secrets : Secrets

-- The modules that the engine calls, the names of the labels, files and namespaces, the errors of the
-- platform, and of the store for a key that is there and for the list of custom applications. No
-- security is a nil `e.sec`.
pub record Lib : Type 1 where
  pub range : Range
  pub desire : Desire.Lib
  pub failure_text : Failure → String
  pub read_error : String → String
  pub prepare : Prepare.Lib
  pub security : Option Security.Lib
  pub hex_md5 : String → String
  pub custom_label : String
  pub type_yaml : String
  pub core_name : String
  pub init_name : String
  pub edge_namespace : String
  pub system_namespace : String
  pub cert_path : String
  pub cert_crt : String
  pub cert_key : String
  pub cert_ca : String
  pub custom_error : Dict String CustomInfo → Option String
  pub apply_error : Applied → Option String

-- `serial` numbers the next key pair that is made for a certificate.
pub record State : Type 0 where
  pub store : Store
  pub custom : Option (Dict String CustomInfo)
  pub certs : Security.Store
  pub serial : ℕ
  pub applied : List Applied

abbrev pub Outcome : Type 0
Outcome = Option String × State

-- The services, the volumes and the secrets of the loop of `injectCert`.
pub record Injected : Type 0 where
  pub services : List Service
  pub volumes : List Volume
  pub secrets : Secrets

abbrev pub or_fail : {A B : Type 0} → Try A → (A → Try B) → Try B
or_fail (failed e) next = failed e
or_fail (done a) next = next a

module _ (lib : Lib) where
  -- `Get` of the store: the entry, or why not.
  unfoldable pub store_get : {A : Type 0} → String → Dict String A → Try A
  store_get k table = elim (Dict.lookup k table) [
    | none ↦ failed not_found
    | some a ↦ if lib.desire.reads k then done a else failed (lib.read_error k)
  ]

  -- The object that a volume names.
  unfoldable pub get_object :
      {A : Type 0} → String → String → ObjectReference → Dict String A → Try A
  unfolding store_get
  get_object kind word ref table =
      let about =
        "failed to get " <> word <> " name: (" <> ref.name <> ") version: (" <> ref.version
        <> ")" in
      let k = make_key kind ref.name ref.version in
      if k == "" then failed about else elim (store_get k table) [
        | failed e ↦ failed (about <> " with error: " <> e)
        | done a ↦ done a
      ]

  unfoldable pub gather_volume : Store → Volume → Configs × Secrets → Try (Configs × Secrets)
  unfolding get_object
  gather_volume s v (cfgs, secs) = elim (v.config) [
    | some ref ↦
        or_fail (get_object lib.desire.kind_configuration "config" ref s.configs)
          (λ cfg. done (Dict.insert cfg.name cfg cfgs, secs))
    | none ↦ elim (v.secret) [
      | some ref ↦
          or_fail (get_object lib.desire.kind_secret "secret" ref s.secrets)
            (λ sec. done (cfgs, Dict.insert sec.name sec secs))
      | none ↦ done (cfgs, secs)
    ]
  ]

  unfoldable pub gather : Store → List Volume → Configs × Secrets → Try (Configs × Secrets)
  unfolding gather_volume
  gather s [] acc = done acc
  gather s (v ∷ vs) acc = or_fail (gather_volume s v acc) (gather s vs)

  abbrev pub cert_volume : String
  cert_volume = "baetyl-cert-volume-"

  abbrev pub cert_secret : String
  cert_secret = "baetyl-cert-secret-"

  abbrev pub common_name : Application → Service → String
  common_name app svc = app.name <> "." <> svc.name

  abbrev pub suffix_of : Application → Service → String
  suffix_of app svc = lib.hex_md5 (common_name app svc)

  unfoldable pub alt_names : Application → Service → AltNames
  alt_names app svc =
      let ns = if app.system then lib.system_namespace else lib.edge_namespace in
      record {
        dns_names =
            (app.name <> "." <> ns)
            ∷ app.name
            ∷ (svc.name <> "." <> ns)
            ∷ svc.name
            ∷ (app.name <> "-nodeport." <> ns)
            ∷ (app.name <> "-nodeport")
            ∷ (svc.name <> "-nodeport." <> ns)
            ∷ (svc.name <> "-nodeport")
            ∷ "localhost"
            ∷ [];
        ips = "0.0.0.0" ∷ "127.0.0.1" ∷ [];
        emails = [];
        uris = [];
      }

  abbrev pub secret_of : Application → Service → String → CertPem → Secret
  secret_of app svc ca cert = record {
    name = cert_secret <> suffix_of app svc;
    version = "";
    namespace = app.namespace;
    labels = ("baetyl-app-name", app.name) ∷ ("security-type", "certificate") ∷ [];
    system = app.namespace == lib.system_namespace;
    contents = (lib.cert_crt, cert.crt) ∷ (lib.cert_key, cert.private_key) ∷ (lib.cert_ca, ca) ∷ [];
  }

  abbrev pub mount_of : Application → Service → VolumeMount
  mount_of app svc = record {
    name = cert_volume <> suffix_of app svc;
    mount_path = lib.cert_path;
    read_only = true;
    auto_clean = false;
  }

  abbrev pub volume_of : Application → Service → Volume
  volume_of app svc = record {
    name = cert_volume <> suffix_of app svc;
    host_path = none;
    config = none;
    secret = some (record { name = cert_secret <> suffix_of app svc; version = "" });
  }

  -- The body of the loop over the services: a secret of the same name is overwritten.
  unfoldable pub inject_service : Application → Service → String → CertPem → Injected → Injected
  inject_service app svc ca cert i = record {
    services =
        i.services
        ++ (record svc { volume_mounts = svc.volume_mounts ++ (mount_of app svc ∷ []) } ∷ []);
    volumes = i.volumes ++ (volume_of app svc ∷ []);
    secrets = Dict.insert (cert_secret <> suffix_of app svc) (secret_of app svc ca cert) i.secrets;
  }

  unfoldable pub inject_services :
      Security.Lib
      → Security.Store
      → ℕ
      → Application
      → String
      → List Service
      → Injected
      → Try Injected
  unfolding inject_service alt_names
  inject_services sec certs n app ca [] i = done i
  inject_services sec certs n app ca (svc ∷ svcs) i =
      or_fail (issue_certificate sec n (common_name app svc) (alt_names app svc) certs)
        (λ cert. inject_services sec certs (suc n) app ca svcs (inject_service app svc ca cert i))

  unfoldable pub inject_cert :
      Security.Lib → Security.Store → ℕ → Application → Secrets → Try (Application × Secrets)
  unfolding inject_services
  inject_cert sec certs n app secs = or_fail (get_ca sec certs) (λ ca.
      or_fail
        (inject_services sec certs n app ca app.services
          (record { services = []; volumes = app.volumes; secrets = secs }))
        (λ i. done (record app { services = i.services; volumes = i.volumes }, i.secrets)))

  -- The certificates are left out of the program's own two applications, and without a security module.
  unfoldable pub inject_if_need :
      Security.Store → ℕ → Application → Secrets → Try (Application × Secrets)
  unfolding inject_cert
  inject_if_need certs n app secs = elim (lib.security) [
    | none ↦ done (app, secs)
    | some sec ↦
        if not (contains app.name lib.core_name) && not (contains app.name lib.init_name)
        then inject_cert sec certs n app secs
        else done (app, secs)
  ]

  abbrev pub about_custom : String → Application → String → String
  about_custom word app e =
      "failed to " <> word <> " custom app info: (" <> app.name <> ") version: (" <> app.version
      <> ") with error: " <> e

  -- `storeCustomAppInfo`
  unfoldable pub store_custom : String → Application → Dict String CustomInfo → State → Outcome
  store_custom word app infos s = elim (lib.custom_error infos) [
    | some e ↦ (some (about_custom word app e), s)
    | none ↦ (none, record s { custom = some infos })
  ]

  abbrev pub and_then : Outcome → (State → Outcome) → Outcome
  and_then (some e, s) next = (some e, s)
  and_then (none, s) next = next s

  -- The list of the custom applications is made if there is none, and the application is put in it.
  unfoldable pub note_custom : AppInfo → Application → String → State → Outcome
  unfolding store_custom
  note_custom info app ns s =
      let entry : CustomInfo = record { info = info; namespace = ns } in
      elim (s.custom) [
        | some infos ↦ store_custom "store" app (Dict.insert info.name entry infos) s
        | none ↦
            and_then (store_custom "init" app [] s)
              (store_custom "store" app (Dict.insert info.name entry []))
      ]

  -- `app.Labels[specv1.CustomAppNsLabel]`, for an application of YAML.
  abbrev pub custom_namespace : Application → Option String
  custom_namespace app = elim (Dict.lookup lib.custom_label app.labels) [
    | none ↦ none
    | some ns ↦ if not (ns == "") && (app.app_type == lib.type_yaml) then some ns else none
  ]

  unfoldable pub note_if_custom : AppInfo → Application → State → Outcome
  unfolding note_custom
  note_if_custom info app s = elim (custom_namespace app) [
    | none ↦ (none, s)
    | some ns ↦ note_custom info app ns s
  ]

  -- What is handed to the platform: the volumes' objects, the paths, and the certificates.
  unfoldable pub build : String → Application → State → Try Applied
  unfolding gather inject_if_need
  build ns app s = or_fail (gather s.store app.volumes ([], [])) (λ (cfgs, secs).
      or_fail (prepare_app lib.prepare app cfgs) (λ prepared.
        or_fail (inject_if_need s.certs s.serial prepared secs) (λ (injected, secs').
          done (record { namespace = ns; app = injected; configs = cfgs; secrets = secs' }))))

  -- `e.ami.ApplyApp`
  unfoldable pub hand_over : Try Applied → State → Outcome
  hand_over (failed e) s = (some e, s)
  hand_over (done x) s = elim (lib.apply_error x) [
    | some e ↦ (some e, s)
    | none ↦ (none, record s { applied = s.applied ++ (x ∷ []) })
  ]

  -- The key pairs of an application's services are not made again for another.
  abbrev pub drawn : Application → State → State
  drawn app s = record s { serial = s.serial + length app.services }

  unfoldable pub apply_stored : String → AppInfo → State → Outcome
  unfolding note_if_custom build hand_over store_get
  apply_stored ns info s =
      elim (store_get (make_key lib.desire.kind_application info.name info.version) s.store.apps) [
        | failed e ↦ (some ("failed to get app name: () version: () with error: " <> e), s)
        | done app ↦
            and_then (note_if_custom info app s) (λ s'. hand_over (build ns app s') (drawn app s'))
      ]

  unfoldable pub apply_app : String → AppInfo → State → Outcome
  unfolding apply_stored
  apply_app ns info s =
      let (e, store') = sync_resource lib.range lib.desire info s.store in
      let s' : State = record s { store = store' } in
      elim e [ some why ↦ (some (lib.failure_text why), s') | none ↦ apply_stored ns info s' ]

  abbrev pub blank_stat : AppStats
  blank_stat = record { name = ""; version = ""; status = unknown; cause = ""; instance_stats = [] }

  -- `stat := stats[info.Name]; stat.Cause += err.Error(); stats[info.Name] = stat`
  unfoldable pub add_cause : AppInfo → String → Stats → Stats
  add_cause info e stats =
      let stat : AppStats = elim (Dict.lookup info.name stats) [ none ↦ blank_stat | some x ↦ x ] in
      Dict.insert info.name (record stat { cause = stat.cause <> e }) stats

  unfoldable pub note_error : AppInfo → Option String → Stats → Stats
  unfolding add_cause
  note_error info none stats = stats
  note_error info (some e) stats = add_cause info e stats

  -- The applications are applied one at a time, in any order.
  unfoldable pub apply_each : String → List AppInfo → Stats × State → Stats × State
  unfolding apply_app note_error
  apply_each ns [] acc = acc
  apply_each ns (info ∷ infos) (stats, s) =
      let (e, s') = apply_app ns info s in apply_each ns infos (note_error info e stats, s')

  unfoldable pub apply_apps : String → Dict String AppInfo → Stats → State → Stats × State
  unfolding apply_each
  apply_apps ns infos stats s =
      apply_each ns (lib.range.order AppInfo (Dict.values infos)) (stats, s)
