-- ===== src/Engine/Plan.antt =====
-- engine/engine.go, `getDeleteAndUpdate`: which applications to remove and which to apply.
pub mod Laws
pub mod Reach
use baetyl.Base.{String, Option, none, some, List, [], ◌∷◌, foldl, ◌==◌, string_eq, if◌then◌else◌}
use baetyl.Base.Dict
use baetyl.Base.Dict.{Dict}
use baetyl.Spec.{AppInfo}

abbrev pub Infos : Type 0
Infos = Dict String AppInfo

-- `for _, d := range desires { update[d.Name] = d }`
unfoldable pub put_desired : Infos → AppInfo → Infos
put_desired update d = Dict.insert d.name d update

-- `if app, ok := update[r.Name]; ok && app.Version == r.Version { delete(update, app.Name) }`
unfoldable pub drop_current : Infos → AppInfo → Option AppInfo → Infos
drop_current update r none = update
drop_current update r (some app) =
    if app.version == r.version then Dict.delete app.name update else update

-- The body of the loop over the reports, on `(del, update)`.
unfoldable pub put_reported : Infos × Infos → AppInfo → Infos × Infos
unfolding drop_current
put_reported (del, update) r =
    (Dict.insert r.name r del, drop_current update r (Dict.lookup r.name update))

-- `if _, ok := del[app.Name]; ok { delete(del, app.Name) }`
unfoldable pub keep_desired : Infos → AppInfo → Infos
keep_desired del app = if Dict.has app.name del then Dict.delete app.name del else del

unfoldable pub get_delete_and_update : List AppInfo → List AppInfo → Infos × Infos
unfolding put_desired put_reported keep_desired
get_delete_and_update desires reports =
    let (del, update) =
      foldl put_reported (Dict.empty, foldl put_desired Dict.empty desires) reports in
    (foldl keep_desired del desires, update)
