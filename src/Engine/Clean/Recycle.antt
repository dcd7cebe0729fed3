-- ===== src/Engine/Clean/Recycle.antt =====
-- engine/clean.go, `recycle`.
pub mod Laws
use baetyl.Base.{
  String, Bool, true, false, not, ◌&&◌, Option, none, some, List, [], ◌∷◌, ◌++◌, foldl, ◌==◌,
  string_eq, if◌then◌else◌,
}
use mathlib.Core.Option
use baetyl.Base.Dict
use baetyl.Base.Dict.{Dict}
use baetyl.Base.Range.{Range}
use baetyl.Keys.{make_key}
use baetyl.Spec.{AppInfo, Application, Configuration, ObjectReference, Volume}
use baetyl.Engine.Collide.{Names}
use baetyl.Engine.Clean.Objects.{Kinds, Configs, is_object_config}
use baetyl.Engine.Clean.Storage.{NodeView, Effect, delete_config, remove_all}

-- `usedCfg[utils.MakeKey(specv1.KindConfiguration, cfg.Name, cfg.Version)] = struct{}{}`
unfoldable pub use_volume : Kinds → Names → Volume → Names
use_volume kinds used v = elim v.config [
  | none ↦ used
  | some cfg ↦ Dict.insert (make_key kinds.configuration cfg.name cfg.version) tt used
]

-- The loop over the reported and the desired applications, which ends at the first one that the store does not give.
unfoldable pub used_by : Kinds → (String → Option Application) → Names → List AppInfo → Option Names
unfolding use_volume
used_by kinds get used [] = some used
used_by kinds get used (info ∷ infos) =
    elim (get (make_key kinds.application info.name info.version)) [
      | none ↦ none
      | some app ↦ used_by kinds get (foldl (use_volume kinds) used app.volumes) infos
    ]

unfoldable pub add_unused : Kinds → Names → Configs → Configuration → Configs
add_unused kinds used del cfg =
    let key = make_key kinds.configuration cfg.name cfg.version in
    if is_object_config kinds cfg && not (Dict.has key used) then Dict.insert key cfg del else del

abbrev pub all_infos : NodeView → List AppInfo
all_infos node = node.report_apps ++ (node.report_sys ++ (node.desire_apps ++ node.desire_sys))

-- The body of the last loop: the directory of the configuration goes, with every version in it.
unfoldable pub recycle_config :
    (String → String) → List Effect → String × Configuration → List Effect
recycle_config config_dir done (key, cfg) =
    done ++ (delete_config key ∷ remove_all (config_dir cfg.name) ∷ [])

module _ (kinds : Kinds) (range : Range) where
  -- The configurations that are removed: `del`. The applications are read from the store by `get`.
  unfoldable pub to_recycle :
      (String → Option Application) → NodeView → Option (List Configuration) → Option Configs
  unfolding used_by add_unused
  to_recycle get node configs = elim (used_by kinds get [] (all_infos node)) [
    | none ↦ none
    | some used ↦ Option.map (foldl (add_unused kinds used) []) configs
  ]

  unfoldable pub recycle :
      (String → String)
      → Option NodeView
      → (String → Option Application)
      → Option (List Configuration)
      → Option (List Effect)
  unfolding to_recycle recycle_config
  recycle config_dir none get configs = none
  recycle config_dir (some node) get configs =
      Option.map
        (λ del. foldl (recycle_config config_dir) [] (range.order (String × Configuration) del))
        (to_recycle get node configs)
