-- ===== src/Native/Start.antt =====
-- ami/native/native.go, `ApplyApp`: an application is set up in directories and started as processes.
pub mod Laws
pub mod Ports
use mathlib.Core.Option
use baetyl.Base.{
  ℕ, zero, suc, ◌+◌, String, ◌<>◌, Bool, true, false, not, ◌&&◌, Option, none, some, List, [], ◌∷◌,
  ◌++◌, foldl, map, any, ◌==◌, string_eq, if◌then◌else◌,
}
use baetyl.Base.Dict
use baetyl.Base.Dict.{Dict}
use baetyl.Base.Range.{Range}
use baetyl.Base.Text.{itoa}
use baetyl.Message.{Try, done, failed}
use baetyl.Prober.Manager.{App, add_app}
use baetyl.Spec.{
  AppInfo, Application, Configuration, Environment, Secret, Service, Volume, VolumeMount,
}
use baetyl.Native.{State, Services, Versions, gen_service_instance_name}
use baetyl.Native.Delete
use baetyl.Native.Delete.{delete_app}

-- What the code calls: paths and files, YAML, the allocator of ports, and the services of the system. The
-- number counts the calls for one name, from 0.
pub record Lib : Type 1 where
  pub range : Range
  pub delete : Delete.Lib
  pub app_dir : String
  pub join : String → String → String
  pub dir : String → String
  pub clean : String → String
  pub is_abs : String → Bool
  pub mkdir_error : String → Option String
  pub symlink_error : String → String → Option String
  pub write_error : String → Option String
  pub load_entry : String → Try String
  pub conf_error : String → Option String
  pub marshal_error : String → Option String
  pub allocate : ℕ → Try ℕ
  pub create_error : String → Option String
  pub install_error : String → ℕ → Option String
  pub start_error : String → ℕ → Option String
  pub ports_error : String → List ℕ → Option String
  pub port_key : String
  pub bin_path : String
  pub entry_yaml : String
  pub type_container : String

abbrev pub and_try : {A B : Type 0} → Try A → (A → Try B) → Try B
and_try (failed e) next = failed e
and_try (done a) next = next a

-- `if err != nil { return errors.Trace(err) }`
abbrev pub unless_error : {A : Type 0} → Option String → Try A → Try A
unless_error (some e) next = failed e
unless_error none next = next

module _ (lib : Lib) where
  open lib use {join}

  -- The executable that the entry file of a program names.
  abbrev pub exec_of : String → String → String
  exec_of base entry = if lib.is_abs entry then lib.clean entry else join base (join "/" entry)

  -- One mount of a directory of the host: the executable, if this is the program's.
  unfoldable pub mount_host : String → String → VolumeMount → String → Try String
  mount_host ins_dir path vm exec =
      let mp = join ins_dir (join "/" vm.mount_path) in
      unless_error (lib.mkdir_error (lib.dir mp)) (
        unless_error (lib.symlink_error path mp) (
          if vm.mount_path == lib.bin_path
          then and_try (lib.load_entry (join mp lib.entry_yaml)) (λ entry. done (exec_of mp entry))
          else done exec))

  -- The files of a configuration; the first entry file names the executable, unless it is known.
  unfoldable pub write_config : String → List (String × String) → String → Try String
  write_config dir [] exec = done exec
  write_config dir ((name, content) ∷ rest) exec = unless_error (lib.write_error (join dir name)) (
      and_try
        (if (name == lib.entry_yaml) && (exec == "")
          then and_try (lib.load_entry (join dir name)) (λ entry. done (exec_of dir entry))
          else done exec)
        (write_config dir rest))

  unfoldable pub write_secret : String → List (String × String) → String → Try String
  write_secret dir [] exec = done exec
  write_secret dir ((name, content) ∷ rest) exec =
      unless_error (lib.write_error (join dir name)) (write_secret dir rest exec)

  abbrev pub config_entries : Dict String Configuration → String → List (String × String)
  config_entries configs name = elim (Dict.lookup name configs) [
    | none ↦ []
    | some cfg ↦ lib.range.order (String × String) cfg.contents
  ]

  abbrev pub secret_entries : Dict String Secret → String → List (String × String)
  secret_entries secrets name = elim (Dict.lookup name secrets) [
    | none ↦ []
    | some sec ↦ lib.range.order (String × String) sec.contents
  ]

  unfoldable pub mount_volume :
      Dict String Configuration
      → Dict String Secret
      → String
      → VolumeMount
      → Volume
      → String
      → Try String
  unfolding mount_host write_config write_secret
  mount_volume configs secrets ins_dir vm av exec = elim (av.host_path) [
    | some path ↦ mount_host ins_dir path vm exec
    | none ↦
        let dir = join ins_dir vm.mount_path in
        unless_error (lib.mkdir_error dir) (elim (av.config) [
          | some ref ↦ write_config dir (config_entries configs ref.name) exec
          | none ↦ elim (av.secret) [
            | some ref ↦ write_secret dir (secret_entries secrets ref.name) exec
            | none ↦ done exec
          ]
        ])
  ]

  abbrev pub volumes_of : Application → Dict String Volume
  volumes_of app =
      foldl (λ (avs : Dict String Volume) (v : Volume). Dict.insert v.name v avs) [] app.volumes

  -- The mounts of an instance, and its executable: the empty text where no mount names one.
  unfoldable pub mount_all :
      Dict String Volume
      → Dict String Configuration
      → Dict String Secret
      → String
      → List VolumeMount
      → String
      → Try String
  unfolding mount_volume
  mount_all avs configs secrets ins_dir [] exec = done exec
  mount_all avs configs secrets ins_dir (vm ∷ vms) exec = elim (Dict.lookup vm.name avs) [
    | none ↦ failed ("volume (" <> vm.name <> ") not found in app volumes")
    | some av ↦
        and_try (mount_volume configs secrets ins_dir vm av exec)
          (mount_all avs configs secrets ins_dir vms)
  ]

  -- A call that is made again once, after the other call has undone it.
  abbrev pub twice : (ℕ → Option String) → Option String
  twice f = elim (f 0) [ none ↦ none | some _ ↦ f 1 ]

  -- The service of an instance is written down and installed.
  unfoldable pub install_service : String → String → Try (Unit {0})
  install_service ins_dir name = unless_error (lib.conf_error ins_dir) (
      unless_error (lib.marshal_error name) (
        unless_error (lib.write_error (join ins_dir "service.yml")) (
          unless_error (lib.create_error name)
            (unless_error (twice (lib.install_error name)) (done tt)))))

  -- The state, with the number of the ports that were allocated.
  abbrev pub Setup : Type 0
  Setup = State × ℕ

  abbrev pub Outcome : Type 0 → Type 0
  Outcome A = Try A × Setup

  abbrev pub services_at : String → String → State → Services
  services_at app version s = elim (Dict.lookup app s.apps) [
    | none ↦ []
    | some vs ↦ elim (Dict.lookup version vs) [ none ↦ [] | some svcs ↦ svcs ]
  ]

  abbrev pub put_services : String → String → Services → State → State
  put_services app version svcs s =
      let vs : Versions = elim (Dict.lookup app s.apps) [ none ↦ [] | some vs ↦ vs ] in
      record s { apps = Dict.insert app (Dict.insert version svcs vs) s.apps }

  -- `os.MkdirAll` of the directory of an instance
  unfoldable pub make_instance : Application → String → String → State → State
  make_instance app svc ins s =
      let svcs = services_at app.name app.version s in
      let is : List String = elim (Dict.lookup svc svcs) [ none ↦ [] | some is ↦ is ] in
      put_services app.name app.version
        (Dict.insert svc (if any (λ x. x == ins) is then is else is ++ (ins ∷ [])) svcs) s

  abbrev pub info_of : Application → AppInfo
  info_of app = record { name = app.name; version = app.version }

  -- `DeleteApp` of the same application: its error is logged.
  abbrev pub clear : String → Application → State → State
  clear ns app s = (delete_app lib.delete ns (info_of app) s).1

  abbrev pub installed : String → State → State
  installed name s = record s { installed = s.installed ++ (name ∷ []) }

  -- The worker of the probes is added for a process that was started.
  abbrev pub probed : App → State → State
  probed probes s = record s { manager = (add_app (some probes) s.manager).0 }

  -- The mounts are done: the port is taken, and the process installed and started.
  unfoldable pub launch : String → App → String → Setup → Outcome ℕ
  unfolding install_service
  launch name probes ins_dir (s, n) = elim (lib.allocate n) [
    | failed e ↦ (failed e, (s, n))
    | done port ↦ elim (install_service ins_dir name) [
      | failed e ↦ (failed e, (s, suc n))
      | done _ ↦ elim (twice (lib.start_error name)) [
        | some e ↦ (failed e, (installed name s, suc n))
        | none ↦ (done port, (probed probes (installed name s), suc n))
      ]
    ]
  ]

  abbrev pub no_program : String
  no_program = "no program executable, the program config may not be mounted"

  -- The body of the loop over the replicas.
  unfoldable pub apply_instance :
      String
      → Application
      → App
      → Dict String Configuration
      → Dict String Secret
      → Service
      → String
      → Setup
      → Outcome ℕ
  unfolding mount_all make_instance launch
  apply_instance ns app probes configs secrets svc ins (s, n) =
      let ins_dir = join (join lib.app_dir svc.name) ins in
      elim (lib.mkdir_error ins_dir) [
        | some e ↦ (failed e, (s, n))
        | none ↦
            let s1 = make_instance app svc.name ins s in
            elim (mount_all (volumes_of app) configs secrets ins_dir svc.volume_mounts "") [
              | failed e ↦ (failed e, (s1, n))
              | done exec ↦
                  if exec == ""
                  then (failed no_program, (clear ns app s1, n))
                  else launch (gen_service_instance_name ns app.name app.version svc.name ins)
                      probes ins_dir (s1, n)
            ]
      ]

  -- `for i := 1; i <= s.Replica; i++`, with the ports so far
  unfoldable pub apply_instances :
      String
      → Application
      → App
      → Dict String Configuration
      → Dict String Secret
      → Service
      → ℕ
      → ℕ
      → List ℕ
      → Setup
      → Outcome (List ℕ)
  unfolding apply_instance
  apply_instances ns app probes configs secrets svc zero i ports st = (done ports, st)
  apply_instances ns app probes configs secrets svc (suc left) i ports st =
      let (r, st') = apply_instance ns app probes configs secrets svc (itoa i) st in
      elim r [
        | failed e ↦ (failed e, st')
        | done port ↦
            apply_instances ns app probes configs secrets svc left (suc i) (ports ++ (port ∷ []))
              st'
      ]

  -- The name in the mapping file: that of the service, or of an application that is not of containers.
  abbrev pub mapped_name : Application → Service → String
  mapped_name app svc = if app.app_type == lib.type_container then svc.name else app.name

  unfoldable pub set_service_ports : Application → Service → List ℕ → Setup → Outcome (Unit {0})
  set_service_ports app svc [] st = (done tt, st)
  set_service_ports app svc (p ∷ ports) (s, n) =
      elim (lib.ports_error (mapped_name app svc) (p ∷ ports)) [
        | some e ↦ (failed e, (s, n))
        | none ↦ (
          done tt,
          (record s { ports = Dict.insert (mapped_name app svc) (p ∷ ports) s.ports }, n),
        )
      ]

  unfoldable pub apply_services :
      String
      → Application
      → App
      → Dict String Configuration
      → Dict String Secret
      → List Service
      → Setup
      → Outcome (Unit {0})
  unfolding apply_instances set_service_ports
  apply_services ns app probes configs secrets [] st = (done tt, st)
  apply_services ns app probes configs secrets (svc ∷ svcs) st =
      let (r, st1) = apply_instances ns app probes configs secrets svc svc.replica 1 [] st in
      elim r [
        | failed e ↦ (failed e, st1)
        | done ports ↦
            let (m, st2) = set_service_ports app svc ports st1 in
            elim m [
              | failed e ↦ (failed e, st2)
              | done _ ↦ apply_services ns app probes configs secrets svcs st2
            ]
      ]

  -- `ApplyApp`: what ran of the application under any version is deleted first.
  unfoldable pub apply_app :
      String
      → Application
      → App
      → Dict String Configuration
      → Dict String Secret
      → Setup
      → Outcome (Unit {0})
  unfolding apply_services
  apply_app ns app probes configs secrets (s, n) =
      let s1 = clear ns app s in
      elim (lib.mkdir_error lib.app_dir) [
        | some e ↦ (failed e, (s1, n))
        | none ↦
            apply_services ns app probes configs secrets app.services
              (put_services app.name app.version (services_at app.name app.version s1) s1, n)
      ]
