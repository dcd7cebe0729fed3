-- ===== src/Native/Stats.antt =====
-- ami/native/native.go, `StatsApps` and `getAppStatus`: what is told of the processes.
pub mod Laws
use mathlib.Core.Option
use baetyl.Base.{
  ℕ, suc, String, ◌<>◌, Bool, true, false, not, ◌&&◌, ◌||◌, Option, none, some, List, [], ◌∷◌, ◌++◌,
  foldl, ◌==◌, string_eq, nat_eq, if◌then◌else◌,
}
use baetyl.Base.Dict
use baetyl.Base.Dict.{Dict}
use baetyl.Base.Range.{Range}
use baetyl.Base.Text.{itoa}
use baetyl.Keys.{make_key}
use baetyl.Message.{Try, done, failed}
use baetyl.Prober.Manager.{Manager, App, check_and_start, cleanup_apps}
use baetyl.Spec.{AppInfo}
use baetyl.Native.{
  Services, Versions, Apps, Procs, no_procs, proc, ProcessInfo, ServiceStatus, is_running,
  is_stopped, is_unknown, Status, running, pending, unknown, State, gen_service_instance_name,
}

-- `v1.InstanceStats`
pub record InstanceStats : Type 0 where
  pub service_name : String
  pub name : String
  pub status : Status
  pub cause : String
  pub pid : ℕ
  pub ppid : ℕ
  pub usage : Dict String String

pub record AppStats : Type 0 where
  pub name : String
  pub version : String
  pub status : Status
  pub instance_stats : Dict String InstanceStats

abbrev pub Instances : Type 0
Instances = Dict String InstanceStats

-- What the system tells: of a service, of the processes, and of the use of memory and processors. The
-- two formats write the figures down.
pub record Lib : Type 0 where
  pub create_error : String → Bool
  pub status : String → ServiceStatus × Option String
  pub pid : String → Try ℕ
  pub processes : Try Procs
  pub new_process : ℕ → Option String
  pub memory : Option String
  pub memory_percent : ℕ → Try String
  pub cores : List ℕ
  pub cpu_percent : ℕ → Try String
  pub store : Option (String → Option App)
  pub is_system : String → Bool
  pub kind : String

-- `getAppStatus`: an unknown instance ends the loop.
unfoldable pub status_from : Bool → List InstanceStats → Status
status_from waits [] = if waits then pending else running
status_from waits (i ∷ is) = elim (i.status) [
  | pending ↦ status_from true is
  | unknown ↦ unknown
  | running ↦ status_from waits is
]

unfoldable pub get_app_status : Range → Instances → Status
unfolding status_from
get_app_status range infos = status_from false (range.order InstanceStats (Dict.values infos))

unfoldable pub prg_status_to_spec_status : ServiceStatus → Status
prg_status_to_spec_status is_running = running
prg_status_to_spec_status is_stopped = pending
prg_status_to_spec_status is_unknown = unknown

-- `getPPID`, and 0 where no process has the id
unfoldable pub ppid_in : ℕ → Procs → Try ℕ
ppid_in pid no_procs = done 0
ppid_in pid (proc p name ppid kids rest) = if p == pid then ppid else ppid_in pid rest

abbrev pub and_try : {A B : Type 0} → Try A → (A → Try B) → Try B
and_try (failed e) next = failed e
and_try (done a) next = next a

-- `getChild`: a child that does not tell its name or its parent ends the loop over its siblings.
unfoldable pub get_child : Procs → List ProcessInfo → List ProcessInfo
get_child no_procs childs = childs
get_child (proc pid (failed e) ppid kids rest) childs = childs
get_child (proc pid (done name) (failed e) kids rest) childs = childs
get_child (proc pid (done name) (done ppid) kids rest) childs =
    get_child rest
      (get_child kids (childs ++ (record { pid = pid; ppid = ppid; name = name } ∷ [])))

unfoldable pub children_in : ℕ → Procs → Try (List ProcessInfo)
unfolding get_child
children_in pid no_procs = failed ("failed to get process of pid " <> itoa pid)
children_in pid (proc p name ppid kids rest) =
    if p == pid then done (get_child kids []) else children_in pid rest

module _ (lib : Lib) where
  -- `getServiceInsStats`
  unfoldable pub get_service_ins_stats : ℕ → Try (Dict String String)
  get_service_ins_stats pid = elim (lib.new_process pid) [
    | some e ↦ failed e
    | none ↦ elim (lib.memory) [
      | some e ↦ failed e
      | none ↦ and_try (lib.memory_percent pid) (λ used. elim (lib.cores) [
        | [] ↦ failed "failed to get cpu info"
        | _ ∷ _ ↦ and_try (lib.cpu_percent pid) (λ cpu. done (("memory", used) ∷ ("cpu", cpu) ∷ []))
      ])
    ]
  ]

  -- The loop of `getChildInsStats`, which ends at the first process that does not tell its use.
  unfoldable pub add_children : InstanceStats → List ProcessInfo → Instances → Instances
  unfolding get_service_ins_stats
  add_children main [] infos = infos
  add_children main (c ∷ cs) infos = elim (get_service_ins_stats c.pid) [
    | failed e ↦ infos
    | done usage ↦
        let name = c.name <> "-" <> itoa c.pid in
        add_children main cs (
          Dict.insert name
            (record {
              service_name = main.service_name;
              name = name;
              status = main.status;
              cause = "";
              pid = c.pid;
              ppid = c.ppid;
              usage = usage;
            })
            infos)
  ]

  unfoldable pub get_child_ins_stats : InstanceStats → ℕ → Instances → Instances
  unfolding add_children children_in
  get_child_ins_stats main pid infos = elim (and_try lib.processes (children_in pid)) [
    | failed e ↦ infos
    | done childs ↦ add_children main childs infos
  ]

  abbrev pub blank : String → String → InstanceStats
  blank svc name = record {
    service_name = svc;
    name = name;
    status = unknown;
    cause = "";
    pid = 0;
    ppid = 0;
    usage = [];
  }

  -- `curInsStats` of a process that runs, once its id is known.
  unfoldable pub of_process : String → String → ℕ → Instances
  unfolding get_service_ins_stats get_child_ins_stats ppid_in
  of_process svc name pid =
      let known : InstanceStats = record (blank svc name) { pid = pid } in
      let lost : Instances = (name, record known { cause = "failed to get svc ppid" }) ∷ [] in
      elim (and_try lib.processes (ppid_in pid)) [
        | failed e ↦ lost
        | done ppid ↦ if ppid == 0 then lost else elim (get_service_ins_stats pid) [
          | failed e ↦ (name, record known { ppid = ppid; cause = e }) ∷ []
          | done usage ↦
              let main : InstanceStats = record known {
                ppid = ppid;
                status = running;
                usage = usage;
              } in
              get_child_ins_stats main pid ((name, main) ∷ [])
        ]
      ]

  -- `curInsStats` of a service that runs.
  unfoldable pub of_running : String → String → Instances
  unfolding of_process
  of_running svc name =
      let lost : Instances =
        (name, record (blank svc name) { cause = "failed to get svc pid" }) ∷ [] in
      elim (lib.pid name) [
        | failed e ↦ lost
        | done pid ↦ if (pid == 0) || (pid == 1) then lost else of_process svc name pid
      ]

  abbrev pub not_running : String → String → ServiceStatus → Instances
  not_running svc name status =
      (
        name,
        record (blank svc name) {
          status = prg_status_to_spec_status status;
          cause = "error : service is not running";
        },
      )
      ∷ []

  abbrev pub by_status : String → String → ServiceStatus → Option String → Instances
  by_status svc name is_running none = of_running svc name
  by_status svc name status error = not_running svc name status

  -- `curInsStats` of one instance.
  unfoldable pub of_instance : String → String → Instances
  unfolding of_running prg_status_to_spec_status
  of_instance svc name =
      if lib.create_error name
      then (name, record (blank svc name) { cause = "failed to create service" }) ∷ []
      else (let (status, error) = lib.status name in by_status svc name status error)

  -- The loop over the instances of a service: `curAppStats.InstanceStats = curInsStats` in each round.
  unfoldable pub scan_instances :
      String → String → String → String → List String → Instances → Instances
  unfolding of_instance
  scan_instances ns app version svc [] infos = infos
  scan_instances ns app version svc (i ∷ is) infos =
      scan_instances ns app version svc is
        (of_instance svc (gen_service_instance_name ns app version svc i))

  unfoldable pub scan_services : String → String → String → Services → Instances → Instances
  unfolding scan_instances
  scan_services ns app version [] infos = infos
  scan_services ns app version ((svc, is) ∷ rest) infos =
      scan_services ns app version rest (scan_instances ns app version svc is infos)

  -- A version without an instance is left out.
  unfoldable pub of_infos : Range → String → String → Instances → List AppStats
  of_infos range app version [] = []
  of_infos range app version (x ∷ xs) =
      record {
        name = app;
        version = version;
        status = get_app_status range (x ∷ xs);
        instance_stats = x ∷ xs;
      }
      ∷ []

  unfoldable pub stats_of : Range → String → String → String × Services → List AppStats
  unfolding scan_services of_infos
  stats_of range ns app (version, svcs) =
      of_infos range app version (scan_services ns app version svcs [])

  unfoldable pub stats_of_versions : Range → String → String → Versions → List AppStats
  unfolding stats_of
  stats_of_versions range ns app [] = []
  stats_of_versions range ns app (v ∷ vs) =
      stats_of range ns app v ++ stats_of_versions range ns app vs

  unfoldable pub stats_of_apps : Range → String → Apps → List AppStats
  unfolding stats_of_versions
  stats_of_apps range ns [] = []
  stats_of_apps range ns ((app, vs) ∷ rest) =
      stats_of_versions range ns app vs ++ stats_of_apps range ns rest

  -- What one instance does to the manager of the probes, and to the applications that it is told of.
  unfoldable pub note_instance :
      String → String → String → Dict String Bool × Manager → Dict String Bool × Manager
  note_instance app version name (seen, m) = if lib.create_error name then (seen, m) else (
    Dict.insert (make_key lib.kind app version) true seen,
    (check_and_start lib.is_system lib.store lib.kind (record { name = app; version = version })
        m).0,
  )

  unfoldable pub note_services :
      String → String → String → Services → Dict String Bool × Manager → Dict String Bool × Manager
  unfolding note_instance
  note_services ns app version [] acc = acc
  note_services ns app version ((svc, is) ∷ rest) acc = note_services ns app version rest (
      foldl
        (λ acc i. note_instance app version (gen_service_instance_name ns app version svc i) acc)
        acc is)

  unfoldable pub note_apps : String → Apps → Dict String Bool × Manager → Dict String Bool × Manager
  unfolding note_services
  note_apps ns [] acc = acc
  note_apps ns ((app, vs) ∷ rest) acc =
      note_apps ns rest
        (foldl (λ acc (version, svcs). note_services ns app version svcs acc) acc vs)

  -- `StatsApps`, where the directories can be read.
  unfoldable pub stats_apps : Range → String → State → List AppStats × State
  unfolding stats_of_apps note_apps
  stats_apps range ns s =
      let (seen, m) = note_apps ns s.apps ([], s.manager) in
      (stats_of_apps range ns s.apps, record s { manager = cleanup_apps range lib.kind seen m })
