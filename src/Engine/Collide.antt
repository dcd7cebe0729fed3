-- ===== src/Engine/Collide.antt =====
-- What `checkService`, `checkPort` and `checkMultiAppPort` of engine/utils.go share: the choice of
-- the one that stays, the blame of the others, and the removal of the blamed applications.
pub mod Laws
pub mod MultiApp
pub mod Port
pub mod Service
use baetyl.Base.{
  String, ◌<>◌, Bool, Option, none, some, List, [], ◌∷◌, foldl, ◌==◌, string_eq, if◌then◌else◌,
}
use baetyl.Base.Dict
use baetyl.Base.Dict.{Dict}
use baetyl.Base.Range.{Range}
use baetyl.Spec.{AppInfo, AppStats, InstanceStats, Application, Status, unknown}

abbrev pub Apps : Type 0
Apps = Dict String Application

abbrev pub Stats : Type 0
Stats = Dict String AppStats

-- `map[string]struct{}`
abbrev pub Names : Type 0
Names = Dict String (Unit {0})

pub record Verdict : Type 0 where
  pub stats : Stats
  pub del : Names

-- The loop that sets `first`: an earlier name stays, unless a later one runs, where it breaks.
unfoldable pub pick_from : (String → Bool) → String → List String → String
pick_from running first [] = first
pick_from running first (n ∷ ns) =
    if running n then n else pick_from running (if first == "" then n else first) ns

unfoldable pub pick_first : (String → Bool) → List String → String
unfolding pick_from
pick_first running names = pick_from running "" names

-- `apps[name].Version`, the zero value on a missing key
abbrev pub version_in : Apps → String → String
version_in apps name = elim (Dict.lookup name apps) [ none ↦ "" | some app ↦ app.version ]

-- `stat, ok := stats[name]; if !ok { stat = ... }`
abbrev pub stat_of : Stats → String → String → AppStats
stat_of stats name version = elim (Dict.lookup name stats) [
  | none ↦ record {
    name = name;
    version = version;
    status = unknown;
    cause = "";
    instance_stats = [];
  }
  | some stat ↦ stat
]

abbrev pub instance_of : AppStats → String → InstanceStats → InstanceStats
instance_of stat key blank = elim (Dict.lookup key stat.instance_stats) [
  | none ↦ blank
  | some i ↦ i
]

-- `iStat.Cause += cause; stat.InstanceStats[key] = iStat; stats[name] = stat; del[name] = struct{}{}`
unfoldable pub blame : String → String → String → InstanceStats → String → Verdict → Verdict
blame name version key blank cause v =
    let stat = stat_of v.stats name version in
    let i = instance_of stat key blank in
    let i' : InstanceStats = record i { cause = i.cause <> cause } in
    let stat' : AppStats = record stat {
      instance_stats = Dict.insert key i' stat.instance_stats;
    } in
    record { stats = Dict.insert name stat' v.stats; del = Dict.insert name tt v.del }

-- `for n := range del { delete(m, n) }`
module _ (range : Range) where
  unfoldable pub drop_names {ℓ} : {V : Type ℓ} → Names → Dict String V → Dict String V
  drop_names del m = foldl (λ d n. Dict.delete n d) m (range.order String (Dict.keys del))

-- What each of the three checks leaves.
pub record Checked : Type 0 where
  pub apps : Apps
  pub stats : Stats
  pub update : Dict String AppInfo
