-- ===== src/Engine/Reconcile.antt =====
-- engine/engine.go, `reportAndApply` and what it calls: the report of what runs, and the steps to what is desired.
pub mod Laws
use mathlib.Core.Option
use baetyl.Base.{
  String, Bool, true, false, not, ◌&&◌, Option, none, some, List, [], ◌∷◌, ◌++◌, map, foldl, ◌==◌,
  string_eq, if◌then◌else◌,
}
use baetyl.Base.Dict
use baetyl.Base.Dict.{Dict}
use baetyl.Node.Defs
use baetyl.Node.Defs.{Error, Result, ok, err, Doc}
use baetyl.Message.{Try, done, failed}
use baetyl.Spec.{AppInfo, AppStats, Application}
use baetyl.Sync.Desire.{sync_apps}
use baetyl.Engine.Align.{align_apps}
use baetyl.Engine.Apply
use baetyl.Engine.Apply.{apply_apps}
use baetyl.Engine.Collide.{Stats, Checked}
use baetyl.Engine.Collide.MultiApp.{check_multi_app_port}
use baetyl.Engine.Filter.{filter_app_like, filter_app_not_like}
use baetyl.Engine.Plan.{Infos, get_delete_and_update}

-- Which of the program's services runs.
pub data Program : Type 0 where
  core init other_program : Program

-- What the code calls: the node's library, `SetAppInfos` and the like of spec/v1 on documents, and the platform.
pub record Lib : Type 1 where
  pub node : Defs.Lib
  pub apply : Apply.Lib
  pub program : Program
  pub error_text : Error → String
  pub platform : Doc node.Value
  pub stats_apps : String → Try (List AppStats)
  pub app_infos : Bool → Doc node.Value → Option (List AppInfo)
  pub app_stats : Bool → Doc node.Value → List AppStats
  pub set_app_infos : Bool → List AppInfo → Doc node.Value → Doc node.Value
  pub set_app_stats : Bool → List AppStats → Doc node.Value → Doc node.Value
  pub delete_error : String → AppInfo → Option String

module _ (lib : Lib) where
  open lib use {node}

  -- The shadow, what is handed to the platform, and what it was told to delete.
  pub record State : Type 0 where
    pub cell : Option (node.Bytes)
    pub apply : Apply.State
    pub deleted : List (String × AppInfo)

  abbrev pub Outcome : Type 0
  Outcome = Option String × State

  abbrev pub and_then : Outcome → (State → Outcome) → Outcome
  and_then (some e, s) next = (some e, s)
  and_then (none, s) next = next s

  abbrev pub stats_of : Try (List AppStats) → List AppStats
  stats_of (failed e) = []
  stats_of (done l) = l

  abbrev pub infos_of : List AppStats → List AppInfo
  infos_of l = map (λ (a : AppStats). record { name = a.name; version = a.version }) l

  abbrev pub or_nil : Option (List AppInfo) → List AppInfo
  or_nil none = []
  or_nil (some l) = l

  -- `Collect`: an error of the platform is logged, and what it should tell is left empty.
  unfoldable pub collect : String → Bool → Option (Doc (node.Value)) → Doc (node.Value)
  collect ns is_sys desire =
      let stats = stats_of (lib.stats_apps ns) in
      let apps : List AppInfo = elim desire [
        | none ↦ infos_of stats
        | some d ↦ align_apps lib.apply.range (infos_of stats) (or_nil (lib.app_infos is_sys d))
      ] in
      lib.set_app_stats is_sys stats (lib.set_app_infos is_sys apps lib.platform)

  -- `e.nod.Report(r, false)`, with the difference that it tells
  unfoldable pub report : Doc (node.Value) → (Doc (node.Value) → State → Outcome) → State → Outcome
  report r next s =
      let (out, cell') = Defs.report node r false s.cell in
      let s' : State = record s { cell = cell' } in
      elim out [ err e ↦ (some (lib.error_text e), s') | ok delta ↦ next delta s' ]

  -- `if s.Cause != "" && s.Name == "" { s.Name = k }`
  abbrev pub with_name : String × AppStats → AppStats
  with_name (k, s) = if not (s.cause == "") && (s.name == "") then record s { name = k } else s

  -- The report with these states, unless there are none: the code sets them in place.
  unfoldable pub with_stats : Bool → Doc (node.Value) → Stats → Doc (node.Value)
  with_stats is_sys r [] = r
  with_stats is_sys r (x ∷ stats) =
      lib.set_app_stats is_sys
        (map with_name (lib.apply.range.order (String × AppStats) (x ∷ stats))) r

  -- `reportAppStatsIfNeed`
  unfoldable pub report_app_stats_if_need : Bool → Doc (node.Value) → Stats → State → Outcome
  unfolding report with_stats
  report_app_stats_if_need is_sys r [] s = (none, s)
  report_app_stats_if_need is_sys r (x ∷ stats) s =
      report (with_stats is_sys r (x ∷ stats)) (λ _ s'. (none, s')) s

  -- The applications that this program sees to.
  unfoldable pub filtered : List AppInfo → List AppInfo
  filtered apps = elim (lib.program) [
    | core ↦ filter_app_not_like apps (some ("baetyl-core" ∷ []))
    | init ↦ filter_app_like apps (some ("baetyl-core" ∷ []))
    | other_program ↦ apps
  ]

  -- The loop over what is to be deleted: it ends at the first error.
  unfoldable pub delete_each : String → List AppInfo → State → Outcome
  delete_each ns [] s = (none, s)
  delete_each ns (n ∷ rest) s = elim (lib.delete_error ns n) [
    | some e ↦ (some e, s)
    | none ↦ delete_each ns rest (record s { deleted = s.deleted ++ ((ns, n) ∷ []) })
  ]

  unfoldable pub delete_apps : Bool → String → Infos → State → Outcome
  unfolding delete_each
  delete_apps true ns del s = delete_each ns (lib.apply.range.order AppInfo (Dict.values del)) s
  delete_apps false ns del s = (none, s)

  unfoldable pub apply_update : Bool → String → Doc (node.Value) → Checked → State → Outcome
  unfolding report_app_stats_if_need
  apply_update is_sys ns r c s =
      let (stats, applied) = apply_apps lib.apply ns c.update c.stats s.apply in
      report_app_stats_if_need is_sys r stats (record s { apply = applied })

  -- The steps that are planned, once the applications of the desire are known.
  unfoldable pub carry_out :
      Bool → Bool → String → Doc (node.Value) → Infos → Checked → State → Outcome
  unfolding delete_apps apply_update report_app_stats_if_need
  carry_out is_sys delete ns r del c s =
      and_then (report_app_stats_if_need is_sys r c.stats s) (λ s1.
        and_then (delete_apps delete ns del s1)
          (apply_update is_sys ns (with_stats is_sys r c.stats) c))

  abbrev pub index_stats : List AppStats → Stats
  index_stats l = foldl (λ (d : Stats) (s : AppStats). Dict.insert s.name s d) [] l

  abbrev pub namespace_of : Bool → String
  namespace_of is_sys = if is_sys then lib.apply.system_namespace else lib.apply.edge_namespace

  -- The steps once `SyncApps` has told the desired applications, or failed to.
  unfoldable pub with_apps :
      Bool
      → Bool
      → Doc (node.Value)
      → List AppInfo
      → Infos × Infos
      → Option (Dict String Application)
      → State
      → Outcome
  unfolding carry_out
  with_apps is_sys delete r dapps (del, update) none s = (some "failed to sync applications", s)
  with_apps is_sys delete r dapps (del, update) (some apps) s =
      carry_out is_sys delete (namespace_of is_sys) r del
        (check_multi_app_port lib.apply.range dapps apps (index_stats (lib.app_stats is_sys r))
          update)
        s

  -- The steps for the desired applications, with the report at hand.
  unfoldable pub reconcile : Bool → Bool → Doc (node.Value) → List AppInfo → State → Outcome
  unfolding filtered with_apps
  reconcile is_sys delete r desired s =
      let dapps = filtered desired in
      with_apps is_sys delete r dapps
        (get_delete_and_update dapps (filtered (or_nil (lib.app_infos is_sys r))))
        (sync_apps lib.apply.range lib.apply.desire dapps) s

  unfoldable pub report_and_apply : Bool → Bool → Option (Doc (node.Value)) → State → Outcome
  unfolding collect report reconcile
  report_and_apply is_sys delete desire s =
      let r = collect (namespace_of is_sys) is_sys desire in
      report r
        (λ delta s'. elim (lib.app_infos is_sys delta) [
          | none ↦ (none, s')
          | some desired ↦ reconcile is_sys delete r desired s'
        ])
        s

  -- The two halves of `reportAndDesireAsync`: the system's applications come first, and their error ends it.
  unfoldable pub report_both : Bool → Option (Doc (node.Value)) → State → Outcome
  unfolding report_and_apply
  report_both delete desire s =
      and_then (report_and_apply true delete desire s) (report_and_apply false delete desire)
