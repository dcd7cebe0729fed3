-- ===== src/Sync/Prepare.antt =====
-- sync/app.go: the environment and the paths of an application, before it is handed to the platform.
pub mod Laws
use mathlib.Core.Option
use baetyl.Base.{
  String, Bool, true, false, Option, none, some, List, [], ◌∷◌, ◌++◌, any, map, ◌==◌, string_eq,
  if◌then◌else◌,
}
use baetyl.Base.Dict
use baetyl.Base.Dict.{Dict}
use baetyl.Message.{Try, done, failed}
use baetyl.Spec.{Application, Configuration, Environment, Service, Volume}

-- The names of the variables, the environment of the program, the paths and the disk.
pub record Lib : Type 0 where
  pub key_app_name : String
  pub key_svc_name : String
  pub key_app_version : String
  pub key_node_name : String
  pub key_run_mode : String
  pub node_name : String
  pub run_mode : String
  pub is_config_object : String → Bool
  pub is_abs : String → Bool
  pub join : String → String → String
  pub mkdir_error : String → Option String
  pub host_path : String
  pub object_path : String

module _ (lib : Lib) where
  abbrev pub variables : Application → Service → List Environment
  variables app svc =
      record { name = lib.key_app_name; value = app.name }
      ∷ record { name = lib.key_svc_name; value = svc.name }
      ∷ record { name = lib.key_app_version; value = app.version }
      ∷ record { name = lib.key_node_name; value = lib.node_name }
      ∷ record { name = lib.key_run_mode; value = lib.run_mode }
      ∷ []

  unfoldable pub add_env : Application → Service → Service
  add_env app svc = record svc { env = svc.env ++ variables app svc }

  abbrev pub has_object : Configuration → Bool
  has_object cfg = any lib.is_config_object (Dict.keys cfg.contents)

  -- A relative path is put under the one of the host, and made.
  unfoldable pub prepare_path : String → Volume → Try Volume
  prepare_path path v =
      if lib.is_abs path
      then done v
      else let full = lib.join lib.host_path (lib.join "/" path) in
        elim (lib.mkdir_error full) [
          | some e ↦ failed e
          | none ↦ done (record v { host_path = some full })
        ]

  -- A configuration with an object is mounted by the path of its files.
  unfoldable pub prepare_config : Option Configuration → Volume → Volume
  prepare_config none v = v
  prepare_config (some cfg) v =
      if has_object cfg
      then record v {
        config = none;
        host_path = some (lib.join (lib.join lib.object_path cfg.name) cfg.version);
      }
      else v

  unfoldable pub prepare_volume : Dict String Configuration → Volume → Try Volume
  unfolding prepare_path prepare_config
  prepare_volume cfgs v = elim (v.host_path) [
    | some path ↦ prepare_path path v
    | none ↦ elim (v.config) [
      | none ↦ done v
      | some ref ↦ done (prepare_config (Dict.lookup ref.name cfgs) v)
    ]
  ]

  unfoldable pub prepare_volumes : Dict String Configuration → List Volume → Try (List Volume)
  unfolding prepare_volume
  prepare_volumes cfgs [] = done []
  prepare_volumes cfgs (v ∷ vs) = elim (prepare_volume cfgs v) [
    | failed e ↦ failed e
    | done v' ↦ elim (prepare_volumes cfgs vs) [ failed e ↦ failed e | done vs' ↦ done (v' ∷ vs') ]
  ]

  -- `PrepareApp` of an application that is not nil.
  unfoldable pub prepare_app : Application → Dict String Configuration → Try Application
  unfolding add_env prepare_volumes
  prepare_app app cfgs = elim (prepare_volumes cfgs app.volumes) [
    | failed e ↦ failed e
    | done vs ↦ done (record app { services = map (add_env app) app.services; volumes = vs })
  ]
