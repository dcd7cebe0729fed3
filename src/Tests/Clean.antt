-- ===== src/Tests/Clean.antt =====
-- engine/clean.go on one job that mounts an object.
use mathlib.Core.Logic.{◌↔◌}
use baetyl.Base.{
  String, true, false, Option, none, some, List, [], ◌∷◌, ◌≡◌, ◌⊎◌, ◌∙◌, sym, ap, In, ne_of_test,
  inl, inr, ◌<>◌, refl, string_eq, nat_eq, ◌==◌,
}
use baetyl.Base.Dict
use baetyl.Base.Range.{insertion_order}
use baetyl.Keys.{make_key}
use baetyl.Spec.{Application, job, Configuration, AppStats, succeeded}
use baetyl.Engine.Clean.Jobs.{get_finished_jobs}
use baetyl.Engine.Clean.Jobs.Laws.{IsFinished, get_finished_jobs_exact}
use baetyl.Engine.Clean.Objects.{Kinds, Configs, get_del_object_cfgs, refers_of, add_refer}
use baetyl.Engine.Clean.Objects.Laws.{get_del_object_cfgs_exact}
use baetyl.Engine.Clean.Storage.{NodeView, to_delete}
use baetyl.Engine.Clean.Storage.Laws.{effects_of_keep_versions}
use baetyl.Engine.Plan.Laws.{last_named}
use baetyl.Engine.Clean.Storage.Used.{
  IsCurrent, IsDone, OnePerVersion, mounts_only, to_delete_keeps_used,
}

abbrev kinds : Kinds
kinds = record {
  is_config_object = λ k. k == "_object_f";
  application = "application";
  configuration = "configuration";
  secret = "secret";
}

-- A job with one mount of version "1" of the configuration, cleaned automatically.
abbrev worker : Application
worker = record {
  name = "job";
  version = "1";
  namespace = "";
  labels = [];
  app_type = "container";
  system = false;
  workload = job;
  replica = 1;
  update_time = 0;
  services =
      record {
        name = "svc";
        replica = 1;
        ports = [];
        env = [];
        volume_mounts =
            record { name = "vol"; mount_path = "/m"; read_only = false; auto_clean = true } ∷ [];
      }
      ∷ [];
  volumes =
      record {
        name = "vol";
        host_path = none;
        config = some (record { name = "cfg"; version = "1" });
        secret = none;
      }
      ∷ [];
}

abbrev cfg : Configuration
cfg = record { name = "cfg"; version = "1"; labels = []; contents = ("_object_f", "{}") ∷ [] }

abbrev done : AppStats
done = record {
  name = "job";
  version = "1";
  status = succeeded;
  cause = "";
  instance_stats =
      ("i", record { service_name = "svc"; app_name = "job"; status = succeeded; cause = "" }) ∷ [];
}

abbrev apps : Dict.Dict String Application
apps = ("job", worker) ∷ []

abbrev objects : Configs
objects = ("configuration-cfg-1", cfg) ∷ []

get_finished_jobs_exact_example :
    (Dict.has "job" (get_finished_jobs insertion_order apps (done ∷ [])) ≡ true)
    ↔ IsFinished apps (done ∷ []) "job"
get_finished_jobs_exact_example = get_finished_jobs_exact insertion_order "job" apps (done ∷ [])

get_del_object_cfgs_exact_example :
    Dict.lookup "configuration-cfg-1"
      (get_del_object_cfgs kinds objects insertion_order apps [] (("job", tt) ∷ []))
    ≡ some cfg
unfolding Dict.lookup Dict.has Dict.values make_key string_eq refers_of add_refer Dict.insert
get_del_object_cfgs_exact_example =
    get_del_object_cfgs_exact kinds "configuration-cfg-1" objects insertion_order apps []
      (("job", tt) ∷ [])

-- The node runs the job, and nothing is finished.
abbrev node : NodeView
node = record {
  report_apps = record { name = "job"; version = "1" } ∷ [];
  report_sys = [];
  desire_apps = [];
  desire_sys = [];
  app_stats = [];
}

one_worker : OnePerVersion (worker ∷ [])
one_worker a b (inl p) (inl q) h k = p ∙ sym q
one_worker a b (inl p) (inr m) h k = absurd m
one_worker a b (inr m) i h k = absurd m

only_one :
    (a : Application)
    → In a (worker ∷ [])
    → IsCurrent node a
    → (mounts_only "cfg" "1" a ≡ true) ⊎ IsDone node.app_stats a
unfolding refers_of add_refer Dict.insert Dict.lookup string_eq
only_one a (inl p) h = inl (ap (mounts_only "cfg" "1") p)
only_one a (inr m) h = absurd m

to_delete_keeps_used_example :
    Dict.lookup "configuration-cfg-1"
      (to_delete kinds insertion_order node (cfg ∷ []) (worker ∷ []))
    ≡ none
unfolding make_key string_eq last_named refers_of add_refer Dict.insert Dict.lookup
to_delete_keeps_used_example =
    to_delete_keeps_used kinds insertion_order node (cfg ∷ []) (worker ∷ []) "cfg" "1" worker
      one_worker (ne_of_test "configuration-cfg-1" "" refl) only_one (inl refl)
      (record { name = "job"; version = "1" }, refl, refl) (λ d. d.1.1.listed) refl

effects_of_keep_versions_example :
    (◌≡◌ {A = String} "/d/cfg" "/d/cfg")
    × (◌≡◌ {A = Option (List String)} (some ("1" ∷ [])) (some ("1" ∷ [])))
unfolding string_eq
effects_of_keep_versions_example =
    effects_of_keep_versions
      (record {
        config_dir = λ n. "/d/" <> n;
        version_dir = λ n v. "/v";
        read_dir = λ d. some ("1" ∷ []);
      })
      "configuration-cfg-1" cfg "cfg" (ne_of_test "/v" "/d/cfg" refl) (inr (inr (inl refl)))
