-- ===== src/Engine/Collide/MultiApp.antt =====
-- engine/utils.go, `checkMultiAppPort`.
pub mod Resolve
pub mod Safety
use baetyl.Base.{
  ℕ, String, ◌<>◌, Bool, true, false, not, ◌&&◌, Option, none, some, List, [], ◌∷◌, ◌++◌, foldl,
  any, ltb, leb, length, ◌==◌, string_eq, nat_eq, if◌then◌else◌,
}
use baetyl.Base.Dict
use baetyl.Base.Dict.{Dict}
use baetyl.Base.Range.{Range}
use baetyl.Base.Text.{itoa}
use baetyl.Spec.{AppInfo, AppStats, InstanceStats, Application, Service, ContainerPort, unknown}
use baetyl.Engine.Collide.{
  Apps, Stats, Names, Verdict, Checked, pick_first, version_in, blame, drop_names,
}

abbrev pub Ports : Type 0
Ports = Dict ℕ (List String)

-- `ports[p]`, the nil slice on a missing key
abbrev pub held : ℕ → Ports → List String
held p ports = elim (Dict.lookup p ports) [ none ↦ [] | some names ↦ names ]

-- `if p.HostPort == 0 { continue }; ports[p.HostPort] = append(ports[p.HostPort], app.Name)`
unfoldable pub add_port : String → Ports → ContainerPort → Ports
add_port name ports p =
    if p.host_port == 0
    then ports
    else Dict.insert p.host_port (held p.host_port ports ++ (name ∷ [])) ports

unfoldable pub add_service : String → Ports → Service → Ports
unfolding add_port
add_service name ports svc = foldl (add_port name) ports svc.ports

-- The two loops that clear `flag`.
abbrev pub has_host_port : Application → Bool
has_host_port app = any (λ svc. any (λ p. not (p.host_port == 0)) svc.ports) app.services

abbrev pub blank_instance : String → InstanceStats
blank_instance name = record { service_name = ""; app_name = name; status = unknown; cause = "" }

pub record Collected : Type 0 where
  pub ports : Ports
  pub verdict : Verdict

abbrev replicated : Application → String
replicated app = "application [" <> app.name <> "] with relica > 1 can not configure host port"

unfoldable pub collect_app : Application → Collected → Collected
unfolding add_service
collect_app app c =
    if not (has_host_port app)
    then c
    else if ltb 1 app.replica
    then record c {
      verdict =
          blame app.name app.version app.name (blank_instance app.name) (replicated app) c.verdict;
    }
    else record c { ports = foldl (add_service app.name) c.ports app.services }

unfoldable pub collect : Apps → Collected → AppInfo → Collected
unfolding collect_app
collect apps c info = elim (Dict.lookup info.name apps) [ none ↦ c | some app ↦ collect_app app c ]

-- `if stat, ok := stats[aName]; ok { if _, ok := stat.InstanceStats[aName]; ok`
abbrev pub runs : Stats → String → Bool
runs stats name = elim (Dict.lookup name stats) [
  | none ↦ false
  | some stat ↦ Dict.has name stat.instance_stats
]

abbrev collision : ℕ → String → String → String
collision p name first =
    "port [" <> itoa p <> "] in application [" <> name <> "] collide with service [" <> first <> "]"

unfoldable pub blame_unless_first : Apps → ℕ → String → Verdict → String → Verdict
blame_unless_first apps p first v name =
    if name == first
    then v
    else blame name (version_in apps name) name (blank_instance name) (collision p name first) v

-- The body of the loop over `ports`.
unfoldable pub resolve : Apps → Verdict → ℕ × List String → Verdict
unfolding blame_unless_first
resolve apps v (p, names) =
    if leb (length names) 1
    then v
    else foldl (blame_unless_first apps p (pick_first (runs v.stats) names)) v names

module _ (range : Range) where
  unfoldable pub judge : List AppInfo → Apps → Stats → Verdict
  unfolding collect resolve
  judge infos apps stats =
      let c =
        foldl (collect apps) (record { ports = []; verdict = record { stats = stats; del = [] } })
          infos in
      foldl (resolve apps) c.verdict (range.order (ℕ × List String) c.ports)

  unfoldable pub check_multi_app_port : List AppInfo → Apps → Stats → Dict String AppInfo → Checked
  unfolding judge
  check_multi_app_port infos apps stats update =
      let v = judge infos apps stats in
      record {
        apps = drop_names range v.del apps;
        stats = v.stats;
        update = drop_names range v.del update;
      }
