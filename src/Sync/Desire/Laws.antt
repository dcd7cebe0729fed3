-- ===== src/Sync/Desire/Laws.antt =====
-- What a synchronisation does to the store.
use baetyl.Base.{
  String, Bool, true, false, if◌then◌else◌, Option, none, some, List, [], ◌∷◌, ◌≡◌, inl, inr, refl,
  In, arith, string_eq, Option-cases, subst,
}
use baetyl.Base.Dict
use baetyl.Base.Dict.{Dict, lookup-insert, has-lookup}
use baetyl.Base.Range.{Range}
use baetyl.Keys.{make_key}
use baetyl.Spec.{AppInfo, Application, Configuration, Secret, Volume}
use baetyl.Sync.Object.{download_config}
use baetyl.Sync.Desire.Tables.{Grows, Grows-refl, Grows-trans, Grows-insert}
use baetyl.Sync.Desire.{
  Store, Outcome, Lib, store_application, store_secret, store_configuration, process_configuration,
  no_key, not_stored, process_volume, process_volumes, store_apps, sync_resource, or_keep, and_then,
  process_secret, Fetched, stopped, got, fetch, store_fetched,
}

-- What may be written into each table.
pub record News : Type 1 where
  pub app : String → Application → Type 0
  pub config : String → Configuration → Type 0
  pub secret : String → Secret → Type 0

-- Each table grows.
pub record Keeps (reads : String → Bool) (news : News) (s s' : Store) : Type 0 where
  pub apps : Grows reads news.app s.apps s'.apps
  pub configs : Grows reads news.config s.configs s'.configs
  pub secrets : Grows reads news.secret s.secrets s'.secrets

module _ {reads : String → Bool} {news : News} where
  pub Keeps-refl : (s : Store) → Keeps reads news s s
  Keeps-refl s = record {
    apps = Grows-refl s.apps;
    configs = Grows-refl s.configs;
    secrets = Grows-refl s.secrets;
  }

  pub Keeps-trans :
      {s1 s2 s3 : Store} → Keeps reads news s1 s2 → Keeps reads news s2 s3 → Keeps reads news s1 s3
  Keeps-trans p q = record {
    apps = Grows-trans p.apps q.apps;
    configs = Grows-trans p.configs q.configs;
    secrets = Grows-trans p.secrets q.secrets;
  }

  -- What is stored of one object, or not.
  written :
      (no_name found ok : Bool) (s s' : Store)
      → let o : Outcome =
          if no_name
          then (some no_key, s)
          else if found
          then (none, s)
          else if ok
          then (none, s')
          else (some not_stored, s) in
        (found ≡ false → Keeps reads news s s') → Keeps reads news s o.1
  written true found ok s s' k = Keeps-refl s
  written false true ok s s' k = Keeps-refl s
  written false false true s s' k = k refl
  written false false false s s' k = Keeps-refl s

module _ (range : Range) (lib : Lib) (news : News) where
  abbrev Moves : Store → Store → Type 0
  Moves = Keeps lib.reads news

  abbrev NewApp : Application → Type 0
  NewApp app = news.app (make_key lib.kind_application app.name app.version) app

  abbrev NewConfig : Configuration → Type 0
  NewConfig cfg = news.config (make_key lib.kind_configuration cfg.name cfg.version) cfg

  abbrev NewSecret : Secret → Type 0
  NewSecret x = news.secret (make_key lib.kind_secret x.name x.version) x

  pub store_application-Keeps :
      (app : Application) (s : Store) → NewApp app → Moves s (store_application range lib app s).1
  unfolding store_application
  store_application-Keeps app s new =
      let key = make_key lib.kind_application app.name app.version in
      written _ _ _ s (record s { apps = Dict.insert key app s.apps })
        (λ free. record {
          apps = Grows-insert key app s.apps new free;
          configs = Grows-refl s.configs;
          secrets = Grows-refl s.secrets;
        })

  store_secret-Keeps :
      (x : Secret) (s : Store) → NewSecret x → Moves s (store_secret range lib x s).1
  unfolding store_secret
  store_secret-Keeps x s new =
      let key = make_key lib.kind_secret x.name x.version in
      written _ _ _ s (record s { secrets = Dict.insert key x s.secrets })
        (λ free. record {
          apps = Grows-refl s.apps;
          configs = Grows-refl s.configs;
          secrets = Grows-insert key x s.secrets new free;
        })

  store_configuration-Keeps :
      (cfg : Configuration) (s : Store)
      → NewConfig cfg
      → Moves s (store_configuration range lib cfg s).1
  unfolding store_configuration
  store_configuration-Keeps cfg s new =
      let key = make_key lib.kind_configuration cfg.name cfg.version in
      written _ _ _ s (record s { configs = Dict.insert key cfg s.configs })
        (λ free. record {
          apps = Grows-refl s.apps;
          configs = Grows-insert key cfg s.configs new free;
          secrets = Grows-refl s.secrets;
        })

  -- The disk is not a table.
  new_disk : (s : Store) (disk : _) → Moves s (record s { disk = disk })
  new_disk s disk = record {
    apps = Grows-refl s.apps;
    configs = Grows-refl s.configs;
    secrets = Grows-refl s.secrets;
  }

  process_configuration-Keeps :
      (cfg : Configuration) (s : Store)
      → NewConfig cfg
      → Moves s (process_configuration range lib cfg s).1
  unfolding process_configuration
  process_configuration-Keeps cfg s new =
      let out = download_config lib.object range lib.path cfg s.disk in
      let s1 : Store = record s { disk = out.1 } in
      let k : Moves s (store_configuration range lib cfg s1).1 =
        Keeps-trans (new_disk s out.1) (store_configuration-Keeps cfg s1 new) in
      let after : Store = (process_configuration range lib cfg s).1 in
      elim (Option-cases out.0) [
        | inl p ↦
            let same : (store_configuration range lib cfg s1).1 ≡ after = ground arith in
            subst (Moves s) same k
        | inr (e, p) ↦
            let same : s1 ≡ after = ground arith in subst (Moves s) same (new_disk s out.1)
      ]

  or_keep-Keeps :
      {A : Type 0} (s : Store) (r : Option A) (o : Outcome) (f : A → Outcome)
      → Moves s o.1
      → ((a : A) → r ≡ some a → Moves s (f a).1)
      → Moves s (or_keep r o f).1
  or_keep-Keeps s none o f h k = h
  or_keep-Keeps s (some a) o f h k = k a refl

  module _ (configs : Dict String Configuration) (secrets : Dict String Secret)
      (new_config : (n : String) (cfg : Configuration)
        → Dict.lookup n configs ≡ some cfg
        → NewConfig cfg)
      (new_secret : (n : String) (x : Secret) → Dict.lookup n secrets ≡ some x → NewSecret x) where
    process_secret-Keeps :
        (v : Volume) (s : Store) → Moves s (process_secret range lib secrets v s).1
    unfolding process_secret
    process_secret-Keeps v s =
        or_keep-Keeps s v.secret (none, s)
          (λ ref.
            or_keep (Dict.lookup ref.name secrets) (none, s) (λ x. store_secret range lib x s))
          (Keeps-refl s)
          (λ ref _.
            or_keep-Keeps s (Dict.lookup ref.name secrets) (none, s)
              (λ x. store_secret range lib x s) (Keeps-refl s)
              (λ x p. store_secret-Keeps x s (new_secret ref.name x p)))

    pub process_volume-Keeps :
        (v : Volume) (s : Store) → Moves s (process_volume range lib configs secrets v s).1
    unfolding process_volume
    process_volume-Keeps v s =
        let other = process_secret range lib secrets v s in
        let kept = process_secret-Keeps v s in
        or_keep-Keeps s v.config other
          (λ ref.
            or_keep (Dict.lookup ref.name configs) other
              (λ cfg. process_configuration range lib cfg s))
          kept
          (λ ref _.
            or_keep-Keeps s (Dict.lookup ref.name configs) other
              (λ cfg. process_configuration range lib cfg s) kept
              (λ cfg p. process_configuration-Keeps cfg s (new_config ref.name cfg p)))

    and_then-Keeps :
        (s : Store) (o : Outcome) (f : Store → Outcome)
        → Moves s o.1
        → ((s' : Store) → Moves s' (f s').1)
        → Moves s (and_then o f).1
    and_then-Keeps s (some e, s') f h k = h
    and_then-Keeps s (none, s') f h k = Keeps-trans h (k s')

    pub process_volumes-Keeps :
        (vs : List Volume) (s : Store) → Moves s (process_volumes range lib configs secrets vs s).1
    unfolding process_volumes
    process_volumes-Keeps [] s = Keeps-refl s
    process_volumes-Keeps (v ∷ vs) s =
        and_then-Keeps s (process_volume range lib configs secrets v s)
          (λ s'. process_volumes range lib configs secrets vs s') (process_volume-Keeps v s)
          (λ s'. process_volumes-Keeps vs s')

    pub store_apps-Keeps :
        (apps : List (String × Application)) (s : Store)
        → ((n : String) (app : Application) → In (n, app) apps → NewApp app)
        → Moves s (store_apps range lib configs secrets apps s).1
    unfolding store_apps
    store_apps-Keeps [] s new = Keeps-refl s
    store_apps-Keeps ((n, app) ∷ rest) s new =
        and_then-Keeps s (process_volumes range lib configs secrets app.volumes s)
          (λ s1.
            and_then (store_application range lib app s1)
              (λ s2. store_apps range lib configs secrets rest s2))
          (process_volumes-Keeps app.volumes s)
          (λ s1.
            and_then-Keeps s1 (store_application range lib app s1)
              (λ s2. store_apps range lib configs secrets rest s2)
              (store_application-Keeps app s1 (new n app (inl refl)))
              (λ s2. store_apps-Keeps rest s2 (λ m a i. new m a (inr i))))

-- What a synchronisation may write: each fetched object, under the key of its name and version.
module _ (lib : Lib) where
  abbrev pub fetched_objects :
      Dict String Application → Dict String Configuration → Dict String Secret → News
  fetched_objects apps configs secrets = record {
    app = λ key app.
        ((n : String) × (In (n, app) apps)
          × (key ≡ make_key lib.kind_application app.name app.version));
    config = λ key cfg.
        ((n : String) × (Dict.lookup n configs ≡ some cfg)
          × (key ≡ make_key lib.kind_configuration cfg.name cfg.version));
    secret = λ key x.
        ((n : String) × (Dict.lookup n secrets ≡ some x)
          × (key ≡ make_key lib.kind_secret x.name x.version));
  }

  -- Nothing, when the fetching failed.
  abbrev pub news_of : Fetched → News
  news_of (stopped e) = fetched_objects [] [] []
  news_of (got apps configs secrets) = fetched_objects apps configs secrets

module _ (range : Range) (lib : Lib) where
  pub store_all-Keeps :
      (configs : Dict String Configuration) (secrets : Dict String Secret)
      (apps : Dict String Application) (l : List (String × Application)) (s : Store)
      → ((n : String) (app : Application) → In (n, app) l → In (n, app) apps)
      → Keeps lib.reads
          (fetched_objects lib apps configs secrets)
          s
          (store_apps range lib configs secrets l s).1
  store_all-Keeps configs secrets apps l s sub =
      store_apps-Keeps range lib (fetched_objects lib apps configs secrets) configs secrets
        (λ n cfg p. (n, p, refl)) (λ n x p. (n, p, refl)) l s (λ n app i. (n, sub n app i, refl))

  store_fetched-Keeps :
      (f : Fetched) (s : Store) → Keeps lib.reads (news_of lib f) s (store_fetched range lib f s).1
  unfolding store_fetched
  store_fetched-Keeps (stopped e) s = Keeps-refl s
  store_fetched-Keeps (got apps configs secrets) s =
      store_all-Keeps configs secrets apps (range.order (String × Application) apps) s
        (λ n app i. (range.in_order _ (n, app) apps).0 i)

  -- Whatever the outcome of a synchronisation, each stored application, configuration and
  -- secret whose key can be read is stored as it was, none goes, and each that is stored
  -- afterwards was stored before or is one that was fetched, under the key of its name and
  -- version.
  pub sync_resource-Keeps :
      (info : AppInfo) (s : Store)
      → Keeps lib.reads (news_of lib (fetch range lib info)) s (sync_resource range lib info s).1
  unfolding sync_resource
  sync_resource-Keeps info s = store_fetched-Keeps (fetch range lib info) s
