-- ===== src/Engine/Clean/Jobs.antt =====
-- engine/clean.go, `getFinishedJobs`.
pub mod Laws
use baetyl.Base.{
  String, Bool, true, false, Option, none, some, List, [], ◌∷◌, foldl, ◌==◌, string_eq,
  if◌then◌else◌,
}
use baetyl.Base.Dict
use baetyl.Base.Dict.{Dict}
use baetyl.Base.Range.{Range}
use baetyl.Spec.{
  AppStats, InstanceStats, Application, Workload, Status, job, succeeded, other_workload, other,
  unknown,
}
use baetyl.Engine.Collide.{Apps, Names}

abbrev pub is_job : Application → Bool
is_job app = elim app.workload [ job ↦ true | _ ↦ false ]

abbrev pub is_succeeded : Status → Bool
is_succeeded succeeded = true
is_succeeded _ = false

unfoldable pub add_job : Names → Application → Names
add_job jobs app = if is_job app then Dict.insert app.name tt jobs else jobs

-- `!ok || status == specv1.Succeeded`
abbrev pub may_change : Option Status → Bool
may_change none = true
may_change (some s) = is_succeeded s

-- The body of the loop over the instances.
unfoldable pub note_instance : Names → Dict String Status → InstanceStats → Dict String Status
note_instance jobs status ins =
    if Dict.has ins.app_name jobs
    then (if may_change (Dict.lookup ins.app_name status)
        then Dict.insert ins.app_name ins.status status
        else status)
    else status

unfoldable pub add_finished : Names → String × Status → Names
add_finished res (name, status) = if is_succeeded status then Dict.insert name tt res else res

module _ (range : Range) where
  unfoldable pub job_names : Apps → Names
  unfolding add_job
  job_names apps = foldl add_job [] (range.order Application (Dict.values apps))

  unfoldable pub note_stats : Names → Dict String Status → AppStats → Dict String Status
  unfolding note_instance
  note_stats jobs status stat =
      foldl (note_instance jobs) status
        (range.order InstanceStats (Dict.values stat.instance_stats))

  unfoldable pub get_finished_jobs : Apps → List AppStats → Names
  unfolding job_names note_stats add_finished
  get_finished_jobs apps stats =
      let status = foldl (note_stats (job_names apps)) [] stats in
      foldl add_finished [] (range.order (String × Status) status)
