-- ===== src/Tests/Reconcile.antt =====
-- A round of the engine that deletes one application and applies another.
use baetyl.Base.{
  ℕ, String, true, false, Option, none, some, List, [], ◌∷◌, ◌++◌, ◌≡◌, refl, ap, string_eq, nat_eq,
  ◌==◌, if◌then◌else◌,
}
use baetyl.Base.Dict
use baetyl.Message.{done}
use baetyl.Node.Defs
use baetyl.Node.Defs.{Shadow, Doc, ok}
use baetyl.Engine.Align.{align_apps}
use baetyl.Engine.Plan.{get_delete_and_update}
use baetyl.Spec.{AppInfo, unknown}
use baetyl.Engine.Reconcile.{
  Lib, State, core, report_and_apply, report, collect, reconcile, with_apps, carry_out,
  report_app_stats_if_need, with_stats, delete_apps, delete_each, apply_update, filtered, or_nil,
}
use baetyl.Engine.Reconcile.Laws.{Reconciled, report_and_apply-Reconciled}
use baetyl.Tests.Apply
use baetyl.Tests.Node.{plain}

abbrev infos_at : Doc ℕ → Option (List AppInfo)
infos_at d = elim (Dict.lookup "apps" d) [
  | none ↦ none
  | some k ↦ some (
      (if k == 1
        then (record { name = "app"; version = "1" })
        else (record { name = "old"; version = "1" }))
      ∷ [])
]

abbrev lib : Lib
lib = record {
  node = plain;
  apply = Apply.lib;
  program = core;
  error_text = λ e. "failed";
  platform = [];
  stats_apps = λ ns. done (
      record { name = "old"; version = "1"; status = unknown; cause = ""; instance_stats = [] }
      ∷ []);
  app_infos = λ is_sys d. infos_at d;
  app_stats = λ is_sys d. [];
  set_app_infos = λ is_sys apps d. ("apps", 2) ∷ d;
  set_app_stats = λ is_sys stats d. d;
  delete_error = λ ns i. none;
}

abbrev desire : Doc ℕ
desire = ("apps", 1) ∷ []

abbrev start : State lib
start = record {
  cell = some (record { created = 3; desire = some desire; report = some [] });
  apply = Apply.start;
  deleted = [];
}

abbrev finish : State lib
finish = (report_and_apply lib false true (some desire) start).1

round_ends : (report_and_apply lib false true (some desire) start).0 ≡ none
unfolding report_and_apply report collect reconcile with_apps carry_out report_app_stats_if_need
    with_stats delete_apps delete_each apply_update filtered Dict.lookup string_eq nat_eq
    Defs.report Defs.report_body Defs.load Defs.new_report Defs.put_over Defs.save align_apps
    get_delete_and_update baetyl.Sync.Desire.sync_apps baetyl.Engine.Filter.filter_app_not_like
    baetyl.Base.Text.contains Dict.insert baetyl.Engine.Collide.MultiApp.check_multi_app_port
    Dict.values Dict.has baetyl.Engine.Apply.apply_apps baetyl.Engine.Collide.drop_names Dict.keys
    baetyl.Sync.Desire.sync_resource baetyl.Sync.Object.download_config
    baetyl.Sync.Object.filter_config baetyl.Keys.make_key baetyl.Sync.Prepare.prepare_app
    baetyl.Security.get_ca
round_ends = refl

report_and_apply-Reconciled_example :
    let r = collect lib "edge" false (some desire) in
    Reconciled lib false
      (filtered lib (or_nil lib (lib.app_infos false r)))
      (filtered lib (record { name = "app"; version = "1" } ∷ []))
      []
      start
      finish
unfolding Dict.lookup string_eq nat_eq Defs.report Defs.report_body Defs.load Defs.new_report
    Defs.put_over Defs.save
report_and_apply-Reconciled_example =
    report_and_apply-Reconciled lib false desire desire
      (record { name = "app"; version = "1" } ∷ []) start finish refl refl
      (ap {A = Option String} (λ e. (e, finish)) round_ends)
