-- ===== src/Tests/Native.antt =====
-- Two processes of one service of an application of the system.
use baetyl.Base.{String, false, none, [], ◌∷◌, ◌≡◌, refl, string_eq, if◌then◌else◌, ◌==◌}
use baetyl.Base.Dict
use baetyl.Base.Range.{insertion_order}
use baetyl.Message.{done, failed}
use baetyl.Spec.{AppInfo}
use baetyl.Native.{State, Versions, no_procs, is_running, running}
use baetyl.Native.Delete
use baetyl.Native.Delete.{
  delete_app, delete_versions, delete_services, delete_instances, stop_instance, finish_delete,
}
use baetyl.Native.Delete.Laws.{Gone, OfVersions, delete_app-Gone}
use baetyl.Native.Stats
use baetyl.Native.Stats.{InstanceStats, stats_of, get_app_status}
use baetyl.Native.Stats.Laws.{stats_of_last, get_app_status_exact}
use baetyl.Prober.Manager.{remove_app, stop_key}

abbrev pub system : Delete.Lib
system = record {
  create_error = λ n. none;
  uninstall_error = λ n. none;
  remove_instance_error = λ n. none;
  remove_service_error = λ n. none;
  remove_version_error = λ n. none;
  remove_app_error = λ n. none;
  ports_error = λ n. none;
}

abbrev info : AppInfo
info = record { name = "app"; version = "2" }

abbrev versions : Versions
versions = ("1", ("web", "1" ∷ "2" ∷ []) ∷ []) ∷ []

abbrev before : State
before = record {
  apps = ("app", versions) ∷ ("other", []) ∷ [];
  installed = "ns.app.1.web.1" ∷ "ns.app.1.web.2" ∷ "ns.other.1.x.1" ∷ [];
  ports = ("web", 80 ∷ []) ∷ [];
  manager = record { workers = []; status = [] };
}

abbrev after : State
after = record {
  apps = ("other", []) ∷ [];
  installed = "ns.other.1.x.1" ∷ [];
  ports = [];
  manager = record { workers = []; status = [] };
}

delete_app-Gone_example :
    ((app : String)
      → Dict.lookup app after.apps ≡ (if app == "app" then none else Dict.lookup app before.apps))
    × ((x : String) → OfVersions system "ns" info versions x → Gone system "ns" info x after)
    × ((x : String) → Gone system "ns" info x before → Gone system "ns" info x after)
unfolding delete_app delete_versions delete_services delete_instances stop_instance finish_delete
    remove_app stop_key Dict.lookup Dict.delete string_eq baetyl.Prober.Manager.probe_key_eq
    baetyl.Prober.Manager.probe_type_eq
delete_app-Gone_example =
    delete_app-Gone system "ns" info versions before after (λ n. refl) refl refl

abbrev told : Stats.Lib
told = record {
  create_error = λ n. false;
  status = λ n. (is_running, none);
  pid = λ n. failed "no pid";
  processes = done no_procs;
  new_process = λ p. none;
  memory = none;
  memory_percent = λ p. done "1";
  cores = 1 ∷ [];
  cpu_percent = λ p. done "1";
  store = none;
  is_system = λ n. false;
  kind = "app";
}

stats_of_last_example :
    stats_of told insertion_order "ns" "app" ("1", ("web", "1" ∷ "2" ∷ []) ∷ [])
    ≡ stats_of told insertion_order "ns" "app" ("1", ("web", "2" ∷ []) ∷ [])
stats_of_last_example = stats_of_last told "ns" "app" "1" insertion_order "web" "2" ("1" ∷ []) []

abbrev web_instance : InstanceStats
web_instance = record {
  service_name = "web";
  name = "a";
  status = running;
  cause = "";
  pid = 7;
  ppid = 2;
  usage = [];
}

get_app_status_exact_example : get_app_status insertion_order (("a", web_instance) ∷ []) ≡ running
unfolding Dict.values
get_app_status_exact_example = get_app_status_exact insertion_order (("a", web_instance) ∷ [])
