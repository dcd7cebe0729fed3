-- ===== src/Engine/Clean/Storage/Used.antt =====
-- A configuration that a listed application mounts is not removed.
use baetyl.Base.{
  String, Bool, true, Option, none, some, List, [], ◌∷◌, ◌++◌, ◌≡◌, ◌≢◌, ◌⊎◌, inl, inr, refl, sym,
  ap, ◌∙◌, subst, foldl, any, all, any_iff, all_iff, arith, In, Bool-cases, Option-cases, ◌==◌,
  string_eq, if◌then◌else◌,
}
use baetyl.Base.Dict
use baetyl.Base.Dict.{
  Dict, NodupKeys, lookup-insert, lookup-nil, has-lookup, insert-NodupKeys, In-values, values-In,
  lookup_of_In, In_of_lookup,
}
use baetyl.Base.Range.{Range}
use baetyl.Keys.{make_key}
use baetyl.Spec.{AppInfo, AppStats, Application, Configuration, InstanceStats}
use baetyl.Engine.Plan.Laws.{last_named}
use baetyl.Engine.Plan.Reach.{version_of}
use baetyl.Engine.Collide.{Apps}
use baetyl.Engine.Clean.Jobs.{is_job, is_succeeded}
use baetyl.Engine.Clean.Jobs.Laws.{Reported, get_finished_jobs_exact}
use baetyl.Engine.Clean.Objects.{Kinds, refers_of}
use baetyl.Engine.Clean.Objects.Laws.{uses_mount, agrees_mount, uses, agrees}
use baetyl.Engine.Clean.Storage.Visit.{Visit, visit}
use baetyl.Engine.Clean.Storage.{
  NodeView, add_occupied, occupied_versions, is_occupied, sorted, finished_of, to_delete,
}
use baetyl.Engine.Clean.Storage.Laws.{to_delete_safe}

-- What the node reports and desires, in this order.
abbrev pub listed : NodeView → List AppInfo
listed node = node.report_apps ++ (node.desire_apps ++ (node.report_sys ++ node.desire_sys))

-- The application is the one that the last of the entries of its name tells, by its version.
abbrev pub IsCurrent : NodeView → Application → Type 0
IsCurrent node app =
    (info : AppInfo) × (last_named app.name none (listed node) ≡ some info)
    × (info.version ≡ app.version)

-- A job that has an instance, and whose instances have all succeeded.
abbrev pub IsDone : List AppStats → Application → Type 0
IsDone stats app =
    (is_job app ≡ true)
    × ((ins : InstanceStats) × Reported stats app.name ins)
    × ((ins : InstanceStats) → Reported stats app.name ins → is_succeeded ins.status ≡ true)

lookup-occupied :
    (n : String) (l : List AppInfo) (o : Option AppInfo) (d : Dict String String)
    → Dict.lookup n d ≡ version_of o
    → Dict.lookup n (foldl add_occupied d l) ≡ version_of (last_named n o l)
unfolding add_occupied last_named
lookup-occupied n [] o d h = h
lookup-occupied n (info ∷ l) o d h =
    lookup-occupied n l (if n == info.name then some info else o)
      (Dict.insert info.name info.version d)
      (ground (arith, lookup-insert n info.name info.version d))

occupied-Current :
    (node : NodeView) (app : Application)
    → is_occupied (occupied_versions node) app ≡ true
    → IsCurrent node app
unfolding occupied_versions
occupied-Current node app h =
    let found = lookup-occupied app.name (listed node) none [] (lookup-nil {V = String} app.name) in
    elim (Option-cases (last_named app.name none (listed node))) [
      | inl e ↦ ground arith
      | inr (info, e) ↦ (info, e, ground arith)
    ]

Current-occupied :
    (node : NodeView) (app : Application)
    → IsCurrent node app
    → is_occupied (occupied_versions node) app ≡ true
unfolding occupied_versions
Current-occupied node app (info, e, same) =
    let found = lookup-occupied app.name (listed node) none [] (lookup-nil {V = String} app.name) in
    ground arith

-- The store has one application for a name and a version.
abbrev pub OnePerVersion : List Application → Type 0
OnePerVersion apps =
    (a b : Application) → In a apps → In b apps → a.name ≡ b.name → a.version ≡ b.version → a ≡ b

-- A mount of the application is of the configuration; every such mount is of the version.
module _ (n v : String) where
  abbrev pub mounts : Application → Bool
  mounts app = any (λ svc. any (uses_mount n v (refers_of app)) svc.volume_mounts) app.services

  abbrev pub mounts_only : Application → Bool
  mounts_only app =
      all (λ svc. all (agrees_mount n v (refers_of app)) svc.volume_mounts) app.services

module _ (node : NodeView) (apps : List Application) (unique : OnePerVersion apps) where
  occupied_apps : Apps
  occupied_apps = (sorted node apps).0

  visited : Visit (occupied_versions node) apps [] occupied_apps
  unfolding sorted occupied_apps
  visited = visit (occupied_versions node) apps [] []

  at_name :
      (k : String) (a : Application)
      → Dict.lookup k occupied_apps ≡ some a
      → In a apps × (is_occupied (occupied_versions node) a ≡ true) × (a.name ≡ k)
  at_name k a h = elim (visited.origin k a h) [
    | inl e ↦ absurd (nothing (sym e ∙ lookup-nil k))
    | inr found ↦ found
  ]
    where
      nothing : some a ≡ none → ⊥
      nothing h = cc

  In-occupied :
      (a : Application)
      → In a (Dict.values occupied_apps)
      → Dict.lookup a.name occupied_apps ≡ some a
  In-occupied a m =
      let (k, i) = In-values a occupied_apps m in
      let found = lookup_of_In k a occupied_apps (visited.nodup tt) i in
      let (_, _, e) = at_name k a found in
      subst (λ j. Dict.lookup j occupied_apps ≡ some a) (sym e) found

  -- A current application is the one that is found under its name.
  current_found :
      (a : Application) → In a apps → IsCurrent node a → Dict.lookup a.name occupied_apps ≡ some a
  current_found a m (info, named, version) =
      let (b, found) = visited.found a m (Current-occupied node a (info, named, version)) in
      let (i, o, e) = at_name a.name b found in
      let (info', named', version') = occupied-Current node b o in
      let same_info : some info ≡ some info' =
        sym named ∙ ap (λ j. last_named j none (listed node)) (sym e) ∙ named' in
      let same_version : a.version ≡ b.version = cc in
      let same : b ≡ a = sym (unique a b m i (sym e) same_version) in
      found ∙ ap {B = Option Application} (λ x. some x) same

  module _ (range : Range) where
    -- A name of the finished jobs is that of an application whose job is done.
    finished-IsDone :
        (a : Application)
        → Dict.lookup a.name occupied_apps ≡ some a
        → Dict.has a.name (finished_of range node apps) ≡ true
        → IsDone node.app_stats a
    unfolding occupied_apps
    finished-IsDone a found h =
        let f = (get_finished_jobs_exact range a.name occupied_apps node.app_stats).0 h in
        let known = In-occupied f.app f.known in
        let same : some f.app ≡ some a =
          sym known ∙ ap (λ j. Dict.lookup j occupied_apps) f.app_name ∙ found in
        let job : is_job a ≡ true = cc in (job, (f.instance_of, f.has_instance), f.all_succeeded)

    done-finished :
        (a : Application)
        → Dict.lookup a.name occupied_apps ≡ some a
        → IsDone node.app_stats a
        → Dict.has a.name (finished_of range node apps) ≡ true
    unfolding occupied_apps
    done-finished a found (job, (ins, there), all_done) =
        (get_finished_jobs_exact range a.name occupied_apps node.app_stats).1 (record {
          app = a;
          known = values-In a.name a occupied_apps (In_of_lookup a.name a occupied_apps found);
          is_a_job = job;
          app_name = refl;
          instance_of = ins;
          has_instance = there;
          all_succeeded = all_done;
        })

-- If the store has one application for a name and a version and the key of the configuration is
-- not empty, then the configuration is not removed if a current application mounts it at this
-- version that is no job or whose job is not done, and every current application but those of
-- done jobs mounts it at this version alone. Current is an application whose version the last
-- entry of its name tells, of those reported, desired, reported and desired for the system; a
-- job is done when it has an instance and all its instances have succeeded.
pub to_delete_keeps_used :
    (kinds : Kinds) (range : Range) (node : NodeView) (configs : List Configuration)
    (apps : List Application) (n v : String) (user : Application)
    → OnePerVersion apps
    → make_key kinds.configuration n v ≢ ""
    → ((a : Application)
        → In a apps
        → IsCurrent node a
        → (mounts_only n v a ≡ true) ⊎ IsDone node.app_stats a)
    → In user apps
    → IsCurrent node user
    → ¬ IsDone node.app_stats user
    → mounts n v user ≡ true
    → Dict.lookup (make_key kinds.configuration n v) (to_delete kinds range node configs apps)
      ≡ none
unfolding occupied_apps
to_delete_keeps_used kinds range node configs apps n v user unique named only m current busy used =
    let done = finished_of range node apps in
    let here = occupied_apps node apps unique in
    let agreed : all (agrees n v done) (Dict.values here) ≡ true =
      (all_iff (agrees n v done) (Dict.values here)).1 λ a i.
        let found = In-occupied node apps unique a i in
        let (j, o, e) = at_name node apps unique a.name a found in
        elim (only a j (occupied-Current node a o)) [
          | inl p ↦ ground arith
          | inr d ↦
              let h = done-finished node apps unique range a found d in
              let job : is_job a ≡ true = d.0 in ground arith
        ] in
    let found = current_found node apps unique user m current in
    let counted : uses n v done user ≡ true = elim (Bool-cases (Dict.has user.name done)) [
      | inl h ↦ absurd (busy (finished-IsDone node apps unique range user found h))
      | inr h ↦ ground arith
    ] in
    let is_used : any (uses n v done) (Dict.values here) ≡ true =
      (any_iff (uses n v done) (Dict.values here)).1
        (user, values-In user.name user here (In_of_lookup user.name user here found), counted) in
    to_delete_safe kinds range node configs apps n v named agreed is_used
