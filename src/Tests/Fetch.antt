-- ===== src/Tests/Fetch.antt =====
-- sync on a cloud that answers with one application and one configuration.
use baetyl.Base.{
  String, true, false, Option, none, some, List, [], ◌∷◌, ◌≡◌, ◌⊎◌, inl, refl, string_eq, nat_eq,
}
use baetyl.Base.Dict
use baetyl.Base.Text.{contains}
use baetyl.Base.Range.{insertion_order}
use baetyl.Keys.{make_key}
use baetyl.Spec.{AppInfo, Application, Configuration, other_workload}
use baetyl.Sync.Object
use baetyl.Sync.Object.{
  Disk, ConfigurationObject, download_object, is_present, request, store_body, unpack_object,
  filter_config, filter_entries, keeps_entry, download_config, download_entries, download_entry,
}
use baetyl.Sync.Object.Laws.{Verified, download_object-Verified}
use baetyl.Sync.Desire.{
  Store, Lib, ResourceInfo, Kind, application_kind, configuration_kind, secret_kind, Value,
  app_value, config_value, fetch, sync_resource, store_fetched, store_apps, process_volumes,
  process_volume, process_secret, process_configuration, store_configuration, store_application,
  gen_resource_infos, sync_resource_values, collect_apps, collect_configs, collect_secrets,
  note_volume,
}
use baetyl.Sync.Desire.Laws.{Keeps, news_of, sync_resource-Keeps}
use baetyl.Sync.Desire.Filtered.{FromCloud}
use baetyl.Sync.Desire.Complete.{IsStored, sync_resource-IsStored}

abbrev pub files : Object.Lib
files = record {
  join = λ a b. b;
  base = λ p. p;
  url_path = λ u. some u;
  trim_prefix = λ k. k;
  is_config_object = λ k. contains k "_object_";
  config_type = "type";
  config_helm_tar = "tar";
  platform = "linux";
  parse_object = λ v. none;
  md5 = λ content. content;
  lock = λ name. true;
  get_url = λ i url token. some (record { status_code = 200; body = "abc"; broken = false });
  open_file = λ name. true;
  mkdir_all = λ name. true;
  remove_all = λ dir disk. disk;
  unzip = λ name dir disk. some disk;
  untar = λ name dir disk. some disk;
  untgz = λ name dir disk. some disk;
  upload = none;
}

abbrev object : ConfigurationObject
object = record { url = "u"; md5 = "abc"; token = ""; unpack = "" }

download_object-Verified_example :
    (Verified files object "f" [] × (◌≡◌ {A = Disk} (("f", "abc") ∷ []) []))
    ⊎ ((before : Disk) × Verified files object "f" before
        × (unpack_object files object.unpack "f" "d" before ≡ (none, ("f", "abc") ∷ [])))
unfolding download_object is_present request store_body unpack_object Dict.lookup Dict.insert
    string_eq nat_eq
download_object-Verified_example =
    download_object-Verified files object "d" "f" [] (("f", "abc") ∷ []) refl

abbrev pub app : Application
app = record {
  name = "app";
  version = "1";
  namespace = "";
  labels = [];
  app_type = "container";
  system = false;
  workload = other_workload "deployment";
  replica = 1;
  update_time = 0;
  services = [];
  volumes =
      record {
        name = "vol";
        host_path = none;
        config = some (record { name = "cfg"; version = "2" });
        secret = none;
      }
      ∷ [];
}

abbrev pub cfg : Configuration
cfg = record {
  name = "cfg";
  version = "2";
  labels = ("baetyl-config-type", "baetyl-program") ∷ [];
  contents = ("abc", "x") ∷ [];
}

-- What the cloud has: a program, with an object for another platform.
abbrev pub raw_cfg : Configuration
raw_cfg = record {
  name = "cfg";
  version = "2";
  labels = ("baetyl-config-type", "baetyl-program") ∷ [];
  contents = ("abc", "x") ∷ ("_object_windows", "y") ∷ [];
}

abbrev pub values_of : Kind → List Value
values_of application_kind = app_value app ∷ []
values_of configuration_kind = config_value raw_cfg ∷ []
values_of secret_kind = []

abbrev pub respond : List ResourceInfo → Option (List Value)
respond [] = some []
respond (info ∷ _) = some (values_of info.kind)

abbrev pub cloud : Lib
cloud = record {
  request = respond;
  reads = λ key. true;
  upserts = λ key. true;
  kind_application = "app";
  kind_configuration = "config";
  kind_secret = "secret";
  path = "/var";
  object = files;
}

abbrev pub empty : Store
empty = record { apps = []; configs = []; secrets = []; disk = [] }

abbrev pub filled : Store
filled = record {
  apps = ("app-app-1", app) ∷ [];
  configs = ("config-cfg-2", cfg) ∷ [];
  secrets = [];
  disk = [];
}

sync_resource-IsStored_example :
    IsStored insertion_order cloud (("app", app) ∷ []) (("cfg", cfg) ∷ []) [] app empty filled
    × ((n : String) (c : Configuration)
        → Dict.lookup n (("cfg", cfg) ∷ []) ≡ some c
        → FromCloud insertion_order cloud n c)
unfolding contains fetch gen_resource_infos sync_resource_values collect_apps note_volume
    collect_configs collect_secrets filter_config sync_resource store_fetched store_apps
    process_volumes process_volume process_secret process_configuration download_config
    download_entries store_configuration store_application make_key Dict.insert Dict.lookup Dict.has
    string_eq
sync_resource-IsStored_example =
    sync_resource-IsStored insertion_order cloud (record { name = "app"; version = "1" }) empty
      filled (("app", app) ∷ []) (("cfg", cfg) ∷ []) [] "app" app refl (inl refl) refl

abbrev wanted : AppInfo
wanted = record { name = "app"; version = "1" }

sync_resource-Keeps_example :
    Keeps cloud.reads
      (news_of cloud (fetch insertion_order cloud wanted))
      filled
      (sync_resource insertion_order cloud wanted filled).1
sync_resource-Keeps_example = sync_resource-Keeps insertion_order cloud wanted filled

abbrev three_files : Configuration
three_files = record {
  name = "ddd";
  version = "1";
  labels = ("baetyl-config-type", "baetyl-program") ∷ [];
  contents =
      ("abc", "cdascd") ∷ ("_object_efg", "cdacds") ∷ ("_object_my-linux-amd64", "scdasv") ∷ [];
}

-- Of a program, the file that is no object and the object of the platform stay.
program_filtered :
    (filter_config files three_files).contents
    ≡ ("abc", "cdascd") ∷ ("_object_my-linux-amd64", "scdasv") ∷ []
unfolding filter_config filter_entries keeps_entry contains Dict.lookup string_eq
program_filtered = refl

-- Of any other configuration, all stay.
others_unfiltered :
    (filter_config files (record three_files { labels = [] })).contents ≡ three_files.contents
unfolding filter_config Dict.lookup string_eq
others_unfiltered = refl
