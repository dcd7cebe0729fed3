-- ===== src/Engine/Align.antt =====
-- engine/utils.go, `alignApps`: the reported applications in the order of the desired ones.
pub mod Exact
pub mod Laws
use baetyl.Base.{String, Option, none, some, List, [], ◌∷◌, ◌++◌, foldl, string_eq}
use baetyl.Base.Dict
use baetyl.Base.Dict.{Dict}
use baetyl.Base.Range.{Range}
use baetyl.Spec.{AppInfo}
use baetyl.Engine.Plan.{Infos}

-- `as[a.Name] = a`
unfoldable pub index_report : Infos → AppInfo → Infos
index_report pending a = Dict.insert a.name a pending

-- `if r, ok := as[a.Name]; ok { res = append(res, r); delete(as, a.Name) }`, on `(res, as)`
unfoldable pub take_desired : List AppInfo × Infos → AppInfo → List AppInfo × Infos
take_desired (res, pending) a = elim (Dict.lookup a.name pending) [
  | none ↦ (res, pending)
  | some r ↦ (res ++ (r ∷ []), Dict.delete a.name pending)
]

module _ (range : Range) where
  unfoldable pub align_apps : List AppInfo → List AppInfo → List AppInfo
  unfolding index_report take_desired
  align_apps [] de_apps = []
  align_apps re_apps [] = re_apps
  align_apps re_apps de_apps =
      let (res, pending) = foldl take_desired ([], foldl index_report Dict.empty re_apps) de_apps in
      res ++ range.order AppInfo (Dict.values pending)
