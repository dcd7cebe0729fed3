-- ===== src/Engine/Filter.antt =====
-- engine/engine.go, `filterAppLike` and `filterAppNotLike`. A nil slice of modules is `none`.
pub mod Laws
use baetyl.Base.{String, Bool, not, Option, none, some, List, [], ◌∷◌, ◌++◌, any, if◌then◌else◌}
use baetyl.Base.Text.{contains}
use baetyl.Spec.{AppInfo}

-- The inner loop: the first application whose name contains the module, where the loop breaks.
unfoldable pub first_like : String → List AppInfo → List AppInfo
first_like module_name [] = []
first_like module_name (app ∷ apps) =
    if contains app.name module_name then app ∷ [] else first_like module_name apps

likes : List AppInfo → List String → List AppInfo
likes apps [] = []
likes apps (m ∷ like) = first_like m apps ++ likes apps like

unfoldable pub filter_app_like : List AppInfo → Option (List String) → List AppInfo
unfolding likes first_like
filter_app_like apps none = apps
filter_app_like apps (some like) = likes apps like

-- The flag of the inner loop over the modules.
abbrev pub unlike : List String → AppInfo → Bool
unlike not_like app = not (any (contains app.name) not_like)

unlikes : List AppInfo → List String → List AppInfo
unlikes [] not_like = []
unlikes (app ∷ apps) not_like =
    let rest = unlikes apps not_like in if unlike not_like app then app ∷ rest else rest

unfoldable pub filter_app_not_like : List AppInfo → Option (List String) → List AppInfo
unfolding unlikes
filter_app_not_like apps none = apps
filter_app_not_like apps (some not_like) = unlikes apps not_like

-- `filterDesire`, on the system applications and the others of the desire.
unfoldable pub filter_desire :
    Option (List String)
    → Option (List String)
    → List AppInfo × List AppInfo
    → List AppInfo × List AppInfo
unfolding filter_app_like filter_app_not_like
filter_desire like not_like (sysapps, apps) = (
  filter_app_not_like (filter_app_like sysapps like) not_like,
  filter_app_not_like (filter_app_like apps like) not_like,
)
