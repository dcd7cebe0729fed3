-- ===== src/Engine/Clean/Objects.antt =====
-- engine/clean.go, `getUsedObjectCfgs` and `getDelObjectCfgs`, and `isObjectConfig` of engine/utils.go.
pub mod Laws
use baetyl.Base.{
  String, Bool, true, false, not, ◌&&◌, ◌||◌, Option, none, some, List, [], ◌∷◌, foldl, any, ◌==◌,
  string_eq, if◌then◌else◌,
}
use baetyl.Base.Dict
use baetyl.Base.Dict.{Dict}
use baetyl.Base.Range.{Range}
use baetyl.Keys.{make_key}
use baetyl.Spec.{Application, Configuration, ObjectReference, Service, Volume, VolumeMount}
use baetyl.Engine.Collide.{Apps, Names}
use baetyl.Engine.Clean.Jobs.{is_job}

-- What the code takes from spec/v1: the test of a key for an object, and the kind of the keys.
pub record Kinds : Type 0 where
  pub is_config_object : String → Bool
  pub application : String
  pub configuration : String
  pub secret : String

abbrev pub Configs : Type 0
Configs = Dict String Configuration

abbrev pub Refers : Type 0
Refers = Dict String ObjectReference

-- `for k := range cfg.Data { if specv1.IsConfigObject(k) { return true } }; return false`
unfoldable pub is_object_config : Kinds → Configuration → Bool
is_object_config kinds cfg = any kinds.is_config_object (Dict.keys cfg.contents)

-- `if v.Config != nil { refers[v.Name] = v.Config }`
unfoldable pub add_refer : Refers → Volume → Refers
add_refer refers v = elim v.config [ none ↦ refers | some c ↦ Dict.insert v.name c refers ]

unfoldable pub refers_of : Application → Refers
unfolding add_refer
refers_of app = foldl add_refer [] app.volumes

-- `used[cfg.Name] = cfg.Version` for a mount of a configuration.
unfoldable pub use_mount : Refers → Dict String String → VolumeMount → Dict String String
use_mount refers used vm = elim (Dict.lookup vm.name refers) [
  | none ↦ used
  | some cfg ↦ Dict.insert cfg.name cfg.version used
]

unfoldable pub use_service : Refers → Dict String String → Service → Dict String String
unfolding use_mount
use_service refers used svc = foldl (use_mount refers) used svc.volume_mounts

-- The body of the loop over the applications: the mounts of a finished job do not count.
unfoldable pub use_app : Names → Dict String String → Application → Dict String String
unfolding use_service refers_of
use_app finished used app =
    if is_job app && Dict.has app.name finished
    then used
    else foldl (use_service (refers_of app)) used app.services

module _ (range : Range) where
  unfoldable pub get_used_object_cfgs : Apps → Names → Dict String String
  unfolding use_app
  get_used_object_cfgs apps finished =
      foldl (use_app finished) [] (range.order Application (Dict.values apps))

module _ (kinds : Kinds) (objects : Configs) where
  -- `if cfg, ok := objectCfgs[key]; ok && key != "" { dels[key] = cfg }`
  unfoldable pub mark_key : Configs → String → Configs
  mark_key dels key = elim (Dict.lookup key objects) [
    | none ↦ dels
    | some cfg ↦ if not (key == "") then Dict.insert key cfg dels else dels
  ]

  -- `if !ok || !vm.AutoClean { continue }`
  unfoldable pub mark_mount : Refers → Configs → VolumeMount → Configs
  unfolding mark_key
  mark_mount refers dels vm = elim (Dict.lookup vm.name refers) [
    | none ↦ dels
    | some refer ↦
        if vm.auto_clean
        then mark_key dels (make_key kinds.configuration refer.name refer.version)
        else dels
  ]

  unfoldable pub mark_service : Refers → Configs → Service → Configs
  unfolding mark_mount
  mark_service refers dels svc = foldl (mark_mount refers) dels svc.volume_mounts

  unfoldable pub mark_app : Configs → Application → Configs
  unfolding mark_service refers_of
  mark_app dels app = foldl (mark_service (refers_of app)) dels app.services

  -- `if _, ok := finishedJobs[app.Name]; !ok { continue }`
  unfoldable pub mark_finished : Names → Configs → Application → Configs
  unfolding mark_app
  mark_finished finished dels app = if Dict.has app.name finished then mark_app dels app else dels

  module _ (range : Range) where
    unfoldable pub get_del_object_cfgs : Apps → Apps → Names → Configs
    unfolding mark_app mark_finished
    get_del_object_cfgs occupied obsolete finished =
        foldl (mark_finished finished)
          (foldl mark_app [] (range.order Application (Dict.values obsolete)))
          (range.order Application (Dict.values occupied))
