-- ===== src/Tests/Start.antt =====
-- A function of the system, started as one process, and deleted.
use baetyl.Base.{
  String, ◌<>◌, true, false, none, some, List, [], ◌∷◌, ◌≡◌, refl, ap, ◌∙◌, subst, arith, In, inl,
  inr, string_eq, ne_of_test,
}
use baetyl.Base.Dict
use baetyl.Base.Range.{insertion_order}
use baetyl.Message.{done}
use baetyl.Base.Text.{itoa}
use baetyl.Prober.Manager.{App, add_app}
use baetyl.Spec.{Application, Service, other_workload}
use baetyl.Native.{Versions, Services}
use baetyl.Native.Delete.Ports.{NoService}
use baetyl.Native.Delete.{delete_app}
use baetyl.Native.Start.{Lib, Setup, apply_app, info_of}
use baetyl.Native.Start.Laws.{apply_app-runs}
use baetyl.Native.Start.Ports.{function_ports_stay}
use baetyl.Tests.Native.{system}

abbrev lib : Lib
lib = record {
  range = insertion_order;
  delete = system;
  app_dir = "/run/ns/app/1";
  join = λ a b. a <> "/" <> b;
  dir = λ p. p;
  clean = λ p. p;
  is_abs = λ p. true;
  mkdir_error = λ p. none;
  symlink_error = λ a b. none;
  write_error = λ p. none;
  load_entry = λ p. done "/bin/run";
  conf_error = λ p. none;
  marshal_error = λ n. none;
  allocate = λ n. done 50000;
  create_error = λ n. none;
  install_error = λ n i. none;
  start_error = λ n i. none;
  ports_error = λ n l. none;
  port_key = "PORT";
  bin_path = "/bin";
  entry_yaml = "program.yml";
  type_container = "container";
}

abbrev svc : Service
svc = record {
  name = "web";
  replica = 1;
  ports = [];
  volume_mounts =
      record { name = "code"; mount_path = "/bin"; read_only = true; auto_clean = false } ∷ [];
  env = [];
}

abbrev app : Application
app = record {
  name = "app";
  version = "1";
  namespace = "ns";
  labels = [];
  app_type = "function";
  system = false;
  workload = other_workload "deployment";
  replica = 1;
  update_time = 0;
  services = svc ∷ [];
  volumes = record { name = "code"; host_path = some "/code"; config = none; secret = none } ∷ [];
}

abbrev probes : App
probes = record { name = "app"; version = "1"; services = [] }

abbrev start : Setup lib
start = (
  record { apps = []; installed = []; ports = []; manager = record { workers = []; status = [] } },
  0,
)

abbrev finish : Setup lib
finish = (
  record {
    apps = ("app", ("1", ("web", "1" ∷ []) ∷ []) ∷ []) ∷ [];
    installed = "ns.app.1.web.1" ∷ [];
    ports = ("app", 50000 ∷ []) ∷ [];
    manager = record { workers = []; status = [] };
  },
  1,
)

applies : apply_app lib "ns" app probes [] [] start ≡ (done tt, finish)
unfolding apply_app Dict.lookup Dict.insert string_eq delete_app itoa add_app
applies = refl

apply_app-runs_example : In "ns.app.1.web.1" finish.0.installed
unfolding itoa
apply_app-runs_example =
    apply_app-runs lib "ns" app probes [] [] start finish applies svc 1 (inl refl) (omega arith)
      (omega arith)

abbrev versions : Versions
versions = ("1", ("web", "1" ∷ []) ∷ []) ∷ []

only_web :
    (version : String) (svcs : Services)
    → In (version, svcs) versions
    → NoService system "ns" (info_of lib app) "app" svcs
unfolding string_eq
only_web version svcs (inl p) v is m e =
    absurd (elim (subst (λ (x : String × Services). In (v, is) x.1) p m) [
      | inl q ↦ ne_of_test "app" "web" refl (e ∙ ap (λ (x : String × List String). x.0) q)
      | inr x ↦ x
    ])
only_web version svcs (inr x) v is m e = absurd x

function_ports_stay_example :
    Dict.has "app" (delete_app system "ns" (info_of lib app) finish.0).1.ports ≡ true
unfolding Dict.lookup string_eq
function_ports_stay_example =
    function_ports_stay lib "ns" app probes [] [] start finish versions svc applies
      (ne_of_test "function" "container" refl) (inl refl) (omega arith) refl only_web
