-- ===== src/Engine/Clean/Storage.antt =====
-- engine/clean.go, `cleanObjectStorage`. What it does to the store and the disk is the list of its effects.
pub mod Laws
pub mod Used
pub mod Visit
use Prim.Native.Nat.{ℕ}
use baetyl.Base.{
  String, Bool, true, false, not, ◌&&◌, Option, none, some, List, [], ◌∷◌, ◌++◌, foldl, ltb, length,
  ◌==◌, string_eq, if◌then◌else◌,
}
use baetyl.Base.Dict
use baetyl.Base.Dict.{Dict}
use baetyl.Base.Range.{Range}
use baetyl.Keys.{make_key}
use baetyl.Spec.{AppInfo, AppStats, Application, Configuration}
use baetyl.Engine.Collide.{Apps, Names}
use baetyl.Engine.Clean.Jobs.{get_finished_jobs}
use baetyl.Engine.Clean.Objects.{
  Kinds, Configs, is_object_config, get_used_object_cfgs, get_del_object_cfgs,
}

-- What `AppInfos` and `AppStats` give of the report and of the desire of the node.
pub record NodeView : Type 0 where
  pub report_apps : List AppInfo
  pub report_sys : List AppInfo
  pub desire_apps : List AppInfo
  pub desire_sys : List AppInfo
  pub app_stats : List AppStats

-- `if isObjectConfig(cfg) { ...; if key != "" { objectCfgs[key] = cfg } }`
unfoldable pub add_object : Kinds → Configs → Configuration → Configs
add_object kinds objects cfg =
    let key = make_key kinds.configuration cfg.name cfg.version in
    if is_object_config kinds cfg && not (key == "") then Dict.insert key cfg objects else objects

-- `occupied[info.Name] = info.Version`
unfoldable pub add_occupied : Dict String String → AppInfo → Dict String String
add_occupied occupied info = Dict.insert info.name info.version occupied

unfoldable pub occupied_versions : NodeView → Dict String String
unfolding add_occupied
occupied_versions node =
    foldl add_occupied []
      (node.report_apps ++ (node.desire_apps ++ (node.report_sys ++ node.desire_sys)))

abbrev is_occupied : Dict String String → Application → Bool
is_occupied occupied app = elim (Dict.lookup app.name occupied) [
  | none ↦ false
  | some ver ↦ ver == app.version
]

-- `!ok || app.UpdateTime.After(prev.UpdateTime)`
abbrev is_newer : Apps → Application → Bool
is_newer obsolete app = elim (Dict.lookup app.name obsolete) [
  | none ↦ true
  | some prev ↦ ltb prev.update_time app.update_time
]

-- The visit of one stored application, on `(occupiedApps, obsoleteApps)`.
unfoldable pub sort_app : Dict String String → Apps × Apps → Application → Apps × Apps
sort_app occupied (here, gone) app =
    if is_occupied occupied app
    then (Dict.insert app.name app here, gone)
    else if is_newer gone app
    then (here, Dict.insert app.name app gone)
    else (here, gone)

-- `if _, ok := objectCfgs[key]; ok && key != "" { delete(objectCfgs, key) }`
unfoldable pub drop_used : Kinds → Configs → String × String → Configs
drop_used kinds objects (name, ver) =
    let key = make_key kinds.configuration name ver in
    if Dict.has key objects && not (key == "") then Dict.delete key objects else objects

-- `(occupiedApps, obsoleteApps)` after the visit of the stored applications.
unfoldable pub sorted : NodeView → List Application → Apps × Apps
unfolding occupied_versions sort_app
sorted node apps = foldl (sort_app (occupied_versions node)) ([], []) apps

pub data Effect : Type 0 where
  delete_config : String → Effect
  remove_all : String → Effect

-- The file system: the directory of a configuration, that of a version, and what a directory lists.
pub record Disk : Type 0 where
  pub config_dir : String → String
  pub version_dir : String → String → String
  pub read_dir : String → Option (List String)

abbrev only : String → List String → Bool
only version (sub ∷ []) = sub == version
only version _ = false

-- The body of the last loop.
unfoldable pub remove_config : Disk → List Effect → String × Configuration → List Effect
remove_config disk done (key, cfg) =
    let dir = disk.config_dir cfg.name in
    elim (disk.read_dir dir) [
      | none ↦ done ++ (delete_config key ∷ [])
      | some subs ↦
          done
          ++ (delete_config key
              ∷ remove_all (disk.version_dir cfg.name cfg.version)
              ∷ (if only cfg.version subs then remove_all dir ∷ [] else []))
    ]

pub record Cleaned : Type 0 where
  pub count : ℕ
  pub effects : List Effect

module _ (range : Range) where
  abbrev pub finished_of : NodeView → List Application → Names
  finished_of node apps = get_finished_jobs range (sorted node apps).0 node.app_stats

module _ (kinds : Kinds) (range : Range) where
  unfoldable pub unused_objects : List Configuration → Apps → Names → Configs
  unfolding add_object drop_used
  unused_objects configs occupied finished =
      foldl (drop_used kinds) (foldl (add_object kinds) [] configs)
        (range.order (String × String) (get_used_object_cfgs range occupied finished))

  -- The configurations that are removed: `dels`.
  unfoldable pub to_delete : NodeView → List Configuration → List Application → Configs
  unfolding unused_objects sorted
  to_delete node configs apps =
      let (occupied, obsolete) = sorted node apps in
      let finished = finished_of range node apps in
      get_del_object_cfgs kinds (unused_objects configs occupied finished) range occupied obsolete
        finished

  -- `nod.Get` may fail, and the first visit of the store; the error of the second is not read, so
  -- `apps` are the applications that were visited.
  unfoldable pub clean_object_storage :
      Disk → Option NodeView → Option (List Configuration) → List Application → Option Cleaned
  unfolding to_delete remove_config
  clean_object_storage disk none configs apps = none
  clean_object_storage disk (some node) none apps = none
  clean_object_storage disk (some node) (some configs) apps =
      let dels = to_delete node configs apps in
      some (record {
        count = length dels;
        effects = foldl (remove_config disk) [] (range.order (String × Configuration) dels);
      })
