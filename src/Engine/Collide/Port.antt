-- ===== src/Engine/Collide/Port.antt =====
-- engine/utils.go, `checkPort`: the same test for one application with several services.
use baetyl.Base.{
  ℕ, String, ◌<>◌, Bool, false, none, some, List, [], ◌∷◌, ◌++◌, foldl, ltb, leb, length, ◌==◌,
  string_eq, nat_eq, if◌then◌else◌,
}
use baetyl.Base.Dict
use baetyl.Base.Dict.{Dict}
use baetyl.Base.Range.{Range}
use baetyl.Base.Text.{itoa}
use baetyl.Spec.{AppInfo, InstanceStats, Application, Service, ContainerPort, unknown}
use baetyl.Engine.Collide.{Apps, Stats, Verdict, Checked, pick_first, version_in, blame, drop_names}

-- `ports`, `svcs` and the verdict of the first loop.
pub record Scan : Type 0 where
  pub ports : Dict ℕ (List String)
  pub svcs : Dict String String
  pub verdict : Verdict

abbrev holders : ℕ → Dict ℕ (List String) → List String
holders p ports = elim (Dict.lookup p ports) [ none ↦ [] | some names ↦ names ]

abbrev blank_service : String → InstanceStats
blank_service service = record {
  service_name = service;
  app_name = "";
  status = unknown;
  cause = "";
}

abbrev replicated_service : String → String
replicated_service service =
    "service [" <> service <> "] with relica > 1 can not configure host port"

unfoldable pub scan_port : Application → Service → Scan → ContainerPort → Scan
scan_port app svc s p =
    if p.host_port == 0
    then s
    else if ltb 1 svc.replica
    then record s {
      verdict =
          blame app.name app.version svc.name (blank_service svc.name) (replicated_service svc.name)
            s.verdict;
    }
    else record s {
      ports = Dict.insert p.host_port (holders p.host_port s.ports ++ (svc.name ∷ [])) s.ports;
    }

unfoldable pub scan_service : Application → Scan → Service → Scan
unfolding scan_port
scan_service app s svc =
    foldl (scan_port app svc) (record s { svcs = Dict.insert svc.name app.name s.svcs }) svc.ports

unfoldable pub scan_app : Apps → Scan → AppInfo → Scan
unfolding scan_service
scan_app apps s info = elim (Dict.lookup info.name apps) [
  | none ↦ s
  | some app ↦ foldl (scan_service app) s app.services
]

-- `svcs[sName]`, the empty name on a missing key
abbrev pub app_of : Dict String String → String → String
app_of svcs service = elim (Dict.lookup service svcs) [ none ↦ "" | some name ↦ name ]

abbrev pub service_runs : Stats → Dict String String → String → Bool
service_runs stats svcs service = elim (Dict.lookup (app_of svcs service) stats) [
  | none ↦ false
  | some stat ↦ Dict.has service stat.instance_stats
]

abbrev port_collision : ℕ → String → String → String
port_collision p service first =
    "port [" <> itoa p <> "] in service [" <> service <> "] collide with service [" <> first <> "]"

unfoldable pub blame_service : Apps → Dict String String → ℕ → String → Verdict → String → Verdict
blame_service apps svcs p first v service =
    if service == first
    then v
    else let name = app_of svcs service in
      blame name (version_in apps name) service (blank_service service)
        (port_collision p service first) v

-- The body of the loop over `ports`.
unfoldable pub resolve_port : Apps → Dict String String → Verdict → ℕ × List String → Verdict
unfolding blame_service
resolve_port apps svcs v (p, names) =
    if leb (length names) 1
    then v
    else foldl (blame_service apps svcs p (pick_first (service_runs v.stats svcs) names)) v names

module _ (range : Range) where
  unfoldable pub judge_ports : List AppInfo → Apps → Stats → Verdict
  unfolding scan_app resolve_port
  judge_ports infos apps stats =
      let s =
        foldl (scan_app apps)
          (record { ports = []; svcs = []; verdict = record { stats = stats; del = [] } }) infos in
      foldl (resolve_port apps s.svcs) s.verdict (range.order (ℕ × List String) s.ports)

  unfoldable pub check_port : List AppInfo → Apps → Stats → Dict String AppInfo → Checked
  unfolding judge_ports
  check_port infos apps stats update =
      let v = judge_ports infos apps stats in
      record {
        apps = drop_names range v.del apps;
        stats = v.stats;
        update = drop_names range v.del update;
      }
