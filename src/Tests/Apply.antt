-- ===== src/Tests/Apply.antt =====
-- The engine on a platform that takes every application.
use text.Mathlib.Text.{starts_with}
use text.Mathlib.TextPositions.{starts_with_of_prefix}
use text.Mathlib.TextEquality.{starts_with_iff}
use text.Mathlib.TextLemmas.{append_assoc}
use baetyl.Base.{
  ◌<>◌, none, some, [], ◌∷◌, map, ◌≡◌, ◌⊎◌, ◌≢◌, ◌∙◌, inl, inr, refl, sym, subst, String, ap, In,
  ◌==◌, string_eq, nat_eq,
}
use baetyl.Base.Dict
use baetyl.Base.Text.{itoa}
use baetyl.Base.Dict.{Dict}
use baetyl.Base.Range.{insertion_order}
use baetyl.Security.{get_ca, get_ca_cert, issue_certificate}
use baetyl.Spec.{AppInfo, Application, Configuration, Service, Volume}
use baetyl.Sync.Prepare
use baetyl.Sync.Prepare.{
  prepare_app, prepare_volumes, prepare_volume, prepare_path, prepare_config, add_env,
}
use baetyl.Sync.Prepare.Laws.{Joins, OneSource, Ready, prepare_app-Ready}
use baetyl.Engine.Apply.{
  Lib, State, Secrets, mount_of, volume_of, secret_of, alt_names, inject_cert, inject_services,
  inject_service, apply_apps,
}
use baetyl.Engine.Apply.Certs.{AllDiffer, Certified, inject_cert-Certified}
use baetyl.Engine.Apply.Blame.{Delivered, Blamed, apply_apps-Told}
use baetyl.Tests.Fetch.{cloud, empty, app}
use baetyl.Tests.Security.{signer, with_ca, pem}

abbrev paths : Prepare.Lib
paths = record {
  key_app_name = "APP";
  key_svc_name = "SVC";
  key_app_version = "VERSION";
  key_node_name = "NODE";
  key_run_mode = "MODE";
  node_name = "node";
  run_mode = "kube";
  is_config_object = λ k. k == "_object_a";
  is_abs = λ p. starts_with p "/";
  join = λ a b. a <> "/" <> b;
  mkdir_error = λ p. none;
  host_path = "/host";
  object_path = "/object";
}

-- A relative path, and a configuration with an object.
abbrev rough : Application
rough = record app {
  volumes =
      record { name = "data"; host_path = some "run"; config = none; secret = none }
      ∷ record {
        name = "vol";
        host_path = none;
        config = some (record { name = "cfg"; version = "2" });
        secret = none;
      }
      ∷ [];
}

abbrev smooth : Application
smooth = record app {
  volumes =
      record { name = "data"; host_path = some "/host///run"; config = none; secret = none }
      ∷ record { name = "vol"; host_path = some "/object/cfg/2"; config = none; secret = none }
      ∷ [];
}

abbrev with_object : Dict String Configuration
with_object =
    (
      "cfg",
      record { name = "cfg"; version = "2"; labels = []; contents = ("_object_a", "{}") ∷ [] },
    )
    ∷ []

rough-OneSource : (v : Volume) → In v rough.volumes → OneSource paths v
rough-OneSource v (inl e) = inr (ap (λ (x : Volume). x.config) e)
rough-OneSource v (inr (inl e)) = inl (ap (λ (x : Volume). x.host_path) e)
rough-OneSource v (inr (inr m)) = absurd m

joins : Joins paths
joins base path h =
    let (rest, e) = (starts_with_iff base "/").0 h in
    starts_with_of_prefix "/" (base <> "/" <> path) (
      rest <> "/" <> path,
      sym (append_assoc "/" rest ("/" <> path)) ∙ ap (λ b. b <> "/" <> path) e,
    )

prepare_app-Ready_example :
    ((v : Volume) → In v smooth.volumes → Ready paths with_object v)
    × (map (λ (v : Volume). v.name) smooth.volumes ≡ "data" ∷ "vol" ∷ [])
unfolding prepare_app prepare_volumes prepare_volume prepare_path prepare_config Dict.lookup
    Dict.keys string_eq
prepare_app-Ready_example =
    prepare_app-Ready paths rough smooth with_object joins refl refl rough-OneSource refl

abbrev pub lib : Lib
lib = record {
  range = insertion_order;
  desire = cloud;
  failure_text = λ f. "failed";
  read_error = λ k. "broken";
  prepare = paths;
  security = some signer;
  hex_md5 = λ s. s;
  custom_label = "ns";
  type_yaml = "yaml";
  core_name = "core";
  init_name = "init";
  edge_namespace = "edge";
  system_namespace = "system";
  cert_path = "/cert";
  cert_crt = "crt";
  cert_key = "key";
  cert_ca = "ca";
  custom_error = λ d. none;
  apply_error = λ x. none;
}

abbrev web : Service
web = record { name = "web"; replica = 1; ports = []; volume_mounts = []; env = [] }

abbrev mail : Service
mail = record { name = "mail"; replica = 1; ports = []; volume_mounts = []; env = [] }

abbrev site : Application
site = record app { services = web ∷ mail ∷ []; volumes = [] }

other_name : ◌≢◌ {A = String} ("app" <> "." <> "web") ("app" <> "." <> "mail")
unfolding string_eq
other_name h = cc

differ : AllDiffer lib signer with_ca site "root" site.services
differ = (
  λ x m. elim m [
    | inl e ↦
        subst (λ (y : Service). ◌≢◌ {A = String} ("app" <> "." <> "web") ("app" <> "." <> y.name))
          (sym e) other_name
    | inr n ↦ absurd n
  ],
  (λ x m. absurd m, tt),
)

abbrev certified : Application
certified = record site {
  services =
      record web { volume_mounts = mount_of lib site web ∷ [] }
      ∷ record mail { volume_mounts = mount_of lib site mail ∷ [] }
      ∷ [];
  volumes = volume_of lib site web ∷ volume_of lib site mail ∷ [];
}

abbrev secrets : Secrets
secrets =
    ("baetyl-cert-secret-app.web", secret_of lib site web "root" (pem "root/app.web/5"))
    ∷ ("baetyl-cert-secret-app.mail", secret_of lib site mail "root" (pem "root/app.mail/6"))
    ∷ []

inject_cert-Certified_example :
    Certified lib signer with_ca site "root"
      (record { services = certified.services; volumes = certified.volumes; secrets = secrets })
      web
unfolding inject_cert inject_services inject_service alt_names get_ca get_ca_cert issue_certificate
    Dict.lookup Dict.insert string_eq itoa
inject_cert-Certified_example =
    inject_cert-Certified lib signer with_ca 5 site certified [] secrets "root" differ refl refl web
      (inl refl)

abbrev info : AppInfo
info = record { name = "app"; version = "1" }

abbrev pub start : State
start = record { store = empty; custom = none; certs = with_ca; serial = 0; applied = [] }

apply_apps-Told_example :
    let r = apply_apps lib "edge" (("app", info) ∷ []) [] start in
    Delivered lib "edge" info r.1 ⊎ Blamed lib "edge" info r.0
unfolding Dict.values
apply_apps-Told_example = apply_apps-Told lib "edge" (("app", info) ∷ []) [] start info (inl refl)
