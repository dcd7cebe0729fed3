-- ===== src/Native/Delete.antt =====
-- ami/native/native.go, `DeleteApp`: the processes of an application are stopped and its directories removed.
pub mod Laws
pub mod Ports
use mathlib.Core.Option
use baetyl.Base.{
  ℕ, String, Bool, true, false, not, Option, none, some, List, [], ◌∷◌, filter, ◌==◌, string_eq,
  if◌then◌else◌,
}
use baetyl.Base.Dict
use baetyl.Base.Dict.{Dict}
use baetyl.Prober.Manager.{remove_app}
use baetyl.Spec.{AppInfo}
use baetyl.Native.{Services, Versions, Apps, State, gen_service_instance_name}

-- The errors of the system: to name a service, to stop and to uninstall it, to remove a directory, and
-- to take a service from the mapping file.
pub record Lib : Type 0 where
  pub create_error : String → Option String
  pub uninstall_error : String → Option String
  pub remove_instance_error : String → Option String
  pub remove_service_error : String → Option String
  pub remove_version_error : String → Option String
  pub remove_app_error : String → Option String
  pub ports_error : String → Option String

-- An error, what is left of the directories, and the state.
abbrev pub Left : Type 0 → Type 0
Left A = Option String × A × State

abbrev pub without : String → List String → List String
without name [] = []
without name (x ∷ xs) = if name == x then without name xs else x ∷ without name xs

module _ (lib : Lib) (ns : String) (info : AppInfo) where
  -- `svc.Stop()` and `svc.Uninstall()`, whose errors are logged, after the worker is told to end.
  unfoldable pub stop_instance : String → State → State
  stop_instance name s = record s {
    manager = remove_app (some info) s.manager;
    installed = elim (lib.uninstall_error name) [
      | none ↦ without name s.installed
      | some _ ↦ s.installed
    ];
  }

  unfoldable pub delete_instances : String → String → List String → State → Left (List String)
  unfolding stop_instance
  delete_instances version svc [] s = (none, [], s)
  delete_instances version svc (i ∷ is) s =
      let name = gen_service_instance_name ns info.name version svc i in
      elim (lib.create_error name) [
        | some e ↦ (some e, i ∷ is, s)
        | none ↦ elim (lib.remove_instance_error name) [
          | some e ↦ (some e, i ∷ is, stop_instance name s)
          | none ↦ delete_instances version svc is (stop_instance name s)
        ]
      ]

  abbrev pub drop_ports : String → State → State
  drop_ports svc s = record s { ports = Dict.delete svc s.ports }

  unfoldable pub delete_services : String → Services → State → Left Services
  unfolding delete_instances
  delete_services version [] s = (none, [], s)
  delete_services version ((svc, is) ∷ rest) s =
      let (e, left, s1) = delete_instances version svc is s in
      elim e [
        | some why ↦ (some why, (svc, left) ∷ rest, s1)
        | none ↦ elim (lib.remove_service_error svc) [
          | some why ↦ (some why, (svc, left) ∷ rest, s1)
          | none ↦ elim (lib.ports_error svc) [
            | some why ↦ (some why, rest, s1)
            | none ↦ delete_services version rest (drop_ports svc s1)
          ]
        ]
      ]

  unfoldable pub delete_versions : Versions → State → Left Versions
  unfolding delete_services
  delete_versions [] s = (none, [], s)
  delete_versions ((version, svcs) ∷ rest) s =
      let (e, left, s1) = delete_services version svcs s in
      elim e [
        | some why ↦ (some why, (version, left) ∷ rest, s1)
        | none ↦ elim (lib.remove_version_error version) [
          | some why ↦ (some why, (version, left) ∷ rest, s1)
          | none ↦ delete_versions rest s1
        ]
      ]

  -- The end of `DeleteApp`: the directory of the application, with what the loop left of it.
  unfoldable pub finish_delete : Left Versions → Option String × State
  finish_delete (some why, left, s) =
      (some why, record s { apps = Dict.insert info.name left s.apps })
  finish_delete (none, left, s) = elim (lib.remove_app_error info.name) [
    | some why ↦ (some why, record s { apps = Dict.insert info.name left s.apps })
    | none ↦ (none, record s { apps = Dict.delete info.name s.apps })
  ]

  -- `DeleteApp`: every version of the application goes, whatever version is named.
  unfoldable pub delete_app : State → Option String × State
  unfolding delete_versions finish_delete
  delete_app s = elim (Dict.lookup info.name s.apps) [
    | none ↦ (none, s)
    | some versions ↦ finish_delete (delete_versions versions s)
  ]
