-- ===== src/Engine/Collide/Service.antt =====
-- engine/utils.go, `checkService`.
use baetyl.Base.{
  String, ◌<>◌, none, some, List, [], ◌∷◌, ◌++◌, foldl, leb, length, ◌==◌, string_eq, if◌then◌else◌,
}
use baetyl.Base.Dict
use baetyl.Base.Dict.{Dict}
use baetyl.Base.Range.{Range}
use baetyl.Spec.{AppInfo, InstanceStats, Service, unknown}
use baetyl.Engine.Collide.{Apps, Stats, Verdict, Checked, pick_first, version_in, blame, drop_names}

-- The applications that have a service of a name.
abbrev pub Owners : Type 0
Owners = Dict String (List String)

abbrev pub owners_of : String → Owners → List String
owners_of name svcs = elim (Dict.lookup name svcs) [ none ↦ [] | some names ↦ names ]

-- `svcs[svc.Name] = append(svcs[svc.Name], app.Name)`
unfoldable pub add_owner : String → Owners → Service → Owners
add_owner app_name svcs svc = Dict.insert svc.name (owners_of svc.name svcs ++ (app_name ∷ [])) svcs

unfoldable pub collect_owners : Apps → Owners → AppInfo → Owners
unfolding add_owner
collect_owners apps svcs info = elim (Dict.lookup info.name apps) [
  | none ↦ svcs
  | some app ↦ foldl (add_owner app.name) svcs app.services
]

abbrev pub blank_service_of : String → String → InstanceStats
blank_service_of service app = record {
  service_name = service;
  app_name = app;
  status = unknown;
  cause = "";
}

abbrev service_collision : String → String → String → String
service_collision service name first =
    "service [" <> service <> "] in application [" <> name <> "] collide with application ["
    <> first <> "]"

unfoldable pub blame_owner : Apps → String → String → Verdict → String → Verdict
blame_owner apps service first v name =
    if name == first
    then v
    else blame name (version_in apps name) service (blank_service_of service name)
        (service_collision service name first) v

-- The body of the loop over `svcs`.
unfoldable pub resolve_service : Apps → Verdict → String × List String → Verdict
unfolding blame_owner
resolve_service apps v (service, names) =
    if leb (length names) 1
    then v
    else foldl (blame_owner apps service (pick_first (λ n. Dict.has n v.stats) names)) v names

module _ (range : Range) where
  unfoldable pub judge_services : List AppInfo → Apps → Stats → Verdict
  unfolding collect_owners resolve_service
  judge_services infos apps stats =
      let svcs = foldl (collect_owners apps) [] infos in
      foldl (resolve_service apps) (record { stats = stats; del = [] })
        (range.order (String × List String) svcs)

  unfoldable pub check_service : List AppInfo → Apps → Stats → Dict String AppInfo → Checked
  unfolding judge_services
  check_service infos apps stats update =
      let v = judge_services infos apps stats in
      record {
        apps = drop_names range v.del apps;
        stats = v.stats;
        update = drop_names range v.del update;
      }
