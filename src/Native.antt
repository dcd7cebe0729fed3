-- ===== src/Native.antt =====
-- ami/native/native.go: the applications that run as processes of the system, on systems other than Windows.
pub mod Start
pub mod Stats
pub mod Delete
use mathlib.Core.Option
use baetyl.Base.{
  ℕ, String, ◌<>◌, Bool, true, false, Option, none, some, List, [], ◌∷◌, ◌++◌, ◌==◌, string_eq,
  nat_eq, if◌then◌else◌,
}
use baetyl.Base.Dict
use baetyl.Base.Dict.{Dict}
use baetyl.Message.{Try, done, failed}
use baetyl.Prober.Manager.{Manager}

-- The directories under that of a namespace: applications, versions, services and instances.
abbrev pub Services : Type 0
Services = Dict String (List String)

abbrev pub Versions : Type 0
Versions = Dict String Services

abbrev pub Apps : Type 0
Apps = Dict String Versions

-- Processes as gopsutil lists them: the process id, the name, the parent, the children, and the next.
pub data Procs : Type 0 where
  no_procs : Procs
  proc : ℕ → Try String → Try ℕ → Procs → Procs → Procs

-- `ami.ProcessInfo`
pub record ProcessInfo : Type 0 where
  pub pid : ℕ
  pub ppid : ℕ
  pub name : String

-- `service.Status`
pub data ServiceStatus : Type 0 where
  is_running is_stopped is_unknown : ServiceStatus

-- The values of `v1.Status` that this file sets.
pub data Status : Type 0 where
  running pending unknown : Status

-- The directories of one namespace, the services installed in the system, the ports in the mapping
-- file, and the manager of the probes.
pub record State : Type 0 where
  pub apps : Apps
  pub installed : List String
  pub ports : Dict String (List ℕ)
  pub manager : Manager

-- `genServiceInstanceName`
abbrev pub gen_service_instance_name : String → String → String → String → String → String
gen_service_instance_name ns app version svc ins =
    ns <> "." <> app <> "." <> version <> "." <> svc <> "." <> ins
