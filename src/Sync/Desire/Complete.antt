-- ===== src/Sync/Desire/Complete.antt =====
-- What is stored after a synchronisation that reports no error.
use baetyl.Base.{
  String, none, some, List, [], ◌∷◌, ◌≡◌, inl, inr, refl, arith, string_eq, In, Option-cases,
  Bool-cases, ◌⊎◌, ◌&&◌, sym, ap, ◌∙◌, subst,
}
use baetyl.Base.Dict
use baetyl.Base.Dict.{Dict, lookup-insert, has-lookup, has-insert}
use baetyl.Base.Range.{Range}
use baetyl.Keys.{make_key}
use baetyl.Spec.{AppInfo, Application, Configuration, Secret, Volume, ObjectReference}
use baetyl.Sync.Desire.{
  Store, Outcome, Lib, store_application, store_configuration, store_secret, process_configuration,
  process_secret, process_volume, process_volumes, store_apps, sync_resource, and_then, Fetched,
  got, fetch, store_fetched,
}
use baetyl.Sync.Desire.Filtered.{FromCloud, fetch-IsFiltered}
use baetyl.Sync.Desire.Laws.{
  Keeps, fetched_objects, store_application-Keeps, store_all-Keeps, process_volumes-Keeps,
}

-- Both steps of a sequence without an error have none.
and_then-done :
    (o : Outcome) (f : Store → Outcome) (s' : Store)
    → and_then o f ≡ (none, s')
    → (s1 : Store) × (o ≡ (none, s1)) × (f s1 ≡ (none, s'))
and_then-done (some e, s1) f s' h = cc
and_then-done (none, s1) f s' h = (s1, refl, h)

module _ (range : Range) (lib : Lib) where
  -- There is an entry for the application.
  abbrev pub HasApp : Application → Store → Type 0
  HasApp app s =
      (a : Application) × (Dict.lookup (make_key lib.kind_application app.name app.version) s.apps
        ≡ some a)

  abbrev pub HasConfig : Configuration → Store → Type 0
  HasConfig cfg s =
      (c : Configuration) × (Dict.lookup (make_key lib.kind_configuration cfg.name cfg.version)
          s.configs
        ≡ some c)

  abbrev pub HasSecret : Secret → Store → Type 0
  HasSecret x s =
      (y : Secret) × (Dict.lookup (make_key lib.kind_secret x.name x.version) s.secrets ≡ some y)

  store_application-HasApp :
      (app : Application) (s s' : Store)
      → store_application range lib app s ≡ (none, s')
      → HasApp app s'
  unfolding store_application
  store_application-HasApp app s s' h =
      let key = make_key lib.kind_application app.name app.version in
      let has = has-lookup key s.apps in
      let new = lookup-insert key key app s.apps in
      elim (Bool-cases (Dict.has key s.apps && lib.reads key)) [
        | inl p ↦ elim (Option-cases (Dict.lookup key s.apps)) [
          | inr (a, q) ↦ (a, ground arith)
          | inl q ↦ ground arith
        ]
        | inr p ↦ (app, ground arith)
      ]

  process_configuration-HasConfig :
      (cfg : Configuration) (s s' : Store)
      → process_configuration range lib cfg s ≡ (none, s')
      → HasConfig cfg s'
  unfolding process_configuration store_configuration
  process_configuration-HasConfig cfg s s' h =
      let key = make_key lib.kind_configuration cfg.name cfg.version in
      let has = has-lookup key s.configs in
      let new = lookup-insert key key cfg s.configs in
      elim (Bool-cases (Dict.has key s.configs && lib.reads key)) [
        | inl p ↦ elim (Option-cases (Dict.lookup key s.configs)) [
          | inr (c, q) ↦ (c, ground arith)
          | inl q ↦ ground arith
        ]
        | inr p ↦ (cfg, ground arith)
      ]

  store_secret-HasSecret :
      (x : Secret) (s s' : Store) → store_secret range lib x s ≡ (none, s') → HasSecret x s'
  unfolding store_secret
  store_secret-HasSecret x s s' h =
      let key = make_key lib.kind_secret x.name x.version in
      let has = has-lookup key s.secrets in
      let new = lookup-insert key key x s.secrets in
      elim (Bool-cases (Dict.has key s.secrets && lib.reads key)) [
        | inl p ↦ elim (Option-cases (Dict.lookup key s.secrets)) [
          | inr (y, q) ↦ (y, ground arith)
          | inl q ↦ ground arith
        ]
        | inr p ↦ (x, ground arith)
      ]

  -- The volume names the object, which was fetched; a secret is looked at after the configuration.
  abbrev pub NamesConfig : Dict String Configuration → Volume → Configuration → Type 0
  NamesConfig configs v cfg =
      (ref : ObjectReference) × (v.config ≡ some ref) × (Dict.lookup ref.name configs ≡ some cfg)

  abbrev pub NoConfig : Dict String Configuration → Volume → Type 0
  NoConfig configs v =
      (v.config ≡ none)
      ⊎ ((ref : ObjectReference) × (v.config ≡ some ref) × (Dict.lookup ref.name configs ≡ none))

  abbrev pub NamesSecret : Dict String Configuration → Dict String Secret → Volume → Secret → Type 0
  NamesSecret configs secrets v x =
      NoConfig configs v
      × ((ref : ObjectReference) × (v.secret ≡ some ref) × (Dict.lookup ref.name secrets ≡ some x))

  process_volume-HasConfig :
      (configs : Dict String Configuration) (secrets : Dict String Secret) (v : Volume)
      (cfg : Configuration) (s s' : Store)
      → NamesConfig configs v cfg
      → process_volume range lib configs secrets v s ≡ (none, s')
      → HasConfig cfg s'
  unfolding process_volume
  process_volume-HasConfig configs secrets v cfg s s' (ref, p, q) h =
      process_configuration-HasConfig cfg s s' (ground arith)

  process_volume-HasSecret :
      (configs : Dict String Configuration) (secrets : Dict String Secret) (v : Volume) (x : Secret)
      (s s' : Store)
      → NamesSecret configs secrets v x
      → process_volume range lib configs secrets v s ≡ (none, s')
      → HasSecret x s'
  unfolding process_volume process_secret
  process_volume-HasSecret configs secrets v x s s' (inl n, (ref, p, q)) h =
      store_secret-HasSecret x s s' (ground arith)
  process_volume-HasSecret configs secrets v x s s' (inr (other, n, none_there), (ref, p, q)) h =
      store_secret-HasSecret x s s' (ground arith)

  -- What one volume's step brings about and later writes keep, the steps of all volumes do.
  process_volumes-brings :
      (P : Store → Type 0) (configs : Dict String Configuration) (secrets : Dict String Secret)
      (vs : List Volume) (v : Volume) (s s' : Store)
      → ((s1 s2 : Store) → process_volume range lib configs secrets v s1 ≡ (none, s2) → P s2)
      → ((ws : List Volume) (s1 : Store)
          → P s1
          → P (process_volumes range lib configs secrets ws s1).1)
      → In v vs
      → process_volumes range lib configs secrets vs s ≡ (none, s')
      → P s'
  unfolding process_volumes
  process_volumes-brings P configs secrets [] v s s' step keep i h = absurd i
  process_volumes-brings P configs secrets (w ∷ vs) v s s' step keep i h =
      let (s1, a, b) =
        and_then-done (process_volume range lib configs secrets w s)
          (λ x. process_volumes range lib configs secrets vs x) s' h in
      elim i [
        | inl e ↦
            let at : process_volume range lib configs secrets v s ≡ (none, s1) =
              ap (λ x. process_volume range lib configs secrets x s) e ∙ a in
            subst (λ (y : Outcome). P y.1) b (keep vs s1 (step s s1 at))
        | inr j ↦ process_volumes-brings P configs secrets vs v s1 s' step keep j b
      ]

  -- What a synchronisation without an error leaves of one application: its entry, and one for each
  -- fetched object that it mounts.
  record Present (configs : Dict String Configuration) (secrets : Dict String Secret)
      (app : Application) (s : Store) : Type 0 where
    has_app : HasApp app s
    has_configs :
        (v : Volume) (cfg : Configuration)
        → In v app.volumes
        → NamesConfig configs v cfg
        → HasConfig cfg s
    has_secrets :
        (v : Volume) (x : Secret)
        → In v app.volumes
        → NamesSecret configs secrets v x
        → HasSecret x s

  module _ (configs : Dict String Configuration) (secrets : Dict String Secret)
      (apps : Dict String Application) where
    abbrev Moves : Store → Store → Type 0
    Moves = Keeps lib.reads (fetched_objects lib apps configs secrets)

    Present-Keeps :
        (app : Application) (s s' : Store)
        → Moves s s'
        → Present configs secrets app s
        → Present configs secrets app s'
    Present-Keeps app s s' k h = record {
      has_app = (let (a, p) = h.has_app in k.apps.stays _ a p);
      has_configs = λ v cfg i n. (let (c, r) = h.has_configs v cfg i n in k.configs.stays _ c r);
      has_secrets = λ v x i n. (let (y, r) = h.has_secrets v x i n in k.secrets.stays _ y r);
    }

    volumes_move :
        (vs : List Volume) (s : Store) → Moves s (process_volumes range lib configs secrets vs s).1
    volumes_move =
        process_volumes-Keeps range lib (fetched_objects lib apps configs secrets) configs secrets
          (λ n cfg p. (n, p, refl)) (λ n x p. (n, p, refl))

    store_apps-steps :
        (n : String) (b : Application) (rest : List (String × Application)) (s s' : Store)
        → store_apps range lib configs secrets ((n, b) ∷ rest) s ≡ (none, s')
        → (s1 : Store) × (s2 : Store) × (process_volumes range lib configs secrets b.volumes s
            ≡ (none, s1))
          × (store_application range lib b s1 ≡ (none, s2))
          × (store_apps range lib configs secrets rest s2 ≡ (none, s'))
    unfolding store_apps
    store_apps-steps n b rest s s' h =
        let (s1, p, q) =
          and_then-done (process_volumes range lib configs secrets b.volumes s)
            (λ x.
              and_then (store_application range lib b x)
                (λ y. store_apps range lib configs secrets rest y))
            s' h in
        let (s2, r, t) =
          and_then-done (store_application range lib b s1)
            (λ y. store_apps range lib configs secrets rest y) s' q in
        (s1, s2, p, r, t)

    -- After the volumes and the entry of an application, all of it is present.
    app-Present :
        (n : String) (b : Application) (s s1 s2 : Store)
        → In (n, b) apps
        → process_volumes range lib configs secrets b.volumes s ≡ (none, s1)
        → store_application range lib b s1 ≡ (none, s2)
        → Present configs secrets b s2
    app-Present n b s s1 s2 i p q =
        let k : Moves s1 s2 =
          subst (λ (o : Outcome). Moves s1 o.1) q
            (store_application-Keeps range lib (fetched_objects lib apps configs secrets) b s1
              (n, i, refl)) in
        record {
          has_app = store_application-HasApp b s1 s2 q;
          has_configs = λ v cfg m names.
              (let (c, z) =
                  process_volumes-brings (HasConfig cfg) configs secrets b.volumes v s s1
                    (λ x y r. process_volume-HasConfig configs secrets v cfg x y names r)
                    (λ ws x (c, r). (volumes_move ws x).configs.stays _ c r) m p in
                k.configs.stays _ c z);
          has_secrets = λ v x m names.
              (let (c, z) =
                  process_volumes-brings (HasSecret x) configs secrets b.volumes v s s1
                    (λ y w r. process_volume-HasSecret configs secrets v x y w names r)
                    (λ ws y (c, r). (volumes_move ws y).secrets.stays _ c r) m p in
                k.secrets.stays _ c z);
        }

    store_apps-Present :
        (l : List (String × Application)) (name : String) (app : Application) (s s' : Store)
        → ((n : String) (a : Application) → In (n, a) l → In (n, a) apps)
        → In (name, app) l
        → store_apps range lib configs secrets l s ≡ (none, s')
        → Present configs secrets app s'
    store_apps-Present [] name app s s' sub i h = absurd i
    store_apps-Present ((n, b) ∷ rest) name app s s' sub (inr i) h =
        let (s1, s2, p, q, r) = store_apps-steps n b rest s s' h in
        store_apps-Present rest name app s2 s' (λ m a j. sub m a (inr j)) i r
    store_apps-Present ((n, b) ∷ rest) name app s s' sub (inl e) h =
        let (s1, s2, p, q, r) = store_apps-steps n b rest s s' h in
        let same = ap (λ (y : String × Application). y.1) (sym e) in
        let later : Moves s2 s' =
          subst (λ (y : Outcome). Moves s2 y.1) r
            (store_all-Keeps range lib configs secrets apps rest s2 (λ m a j. sub m a (inr j))) in
        subst (λ x. Present configs secrets x s') same
          (Present-Keeps b s2 s' later (app-Present n b s s1 s2 (sub n b (inl refl)) p q))

  -- The entry under the key is the one that was there before, or an object that was fetched, under
  -- the key of its name and version.
  abbrev pub Entry :
      {A : Type 0} → (String → A → Type 0) → String → Dict String A → Dict String A → Type 0
  Entry {A = A} IsNew key old new =
      (a : A) × (Dict.lookup key new ≡ some a) × ((Dict.lookup key old ≡ some a) ⊎ IsNew key a)

  -- The entries of one application and of what it mounts, in the store before and after.
  pub record IsStored (apps : Dict String Application) (configs : Dict String Configuration)
      (secrets : Dict String Secret) (app : Application) (s s' : Store) : Type 0 where
    pub has_app :
        Entry
          (fetched_objects lib apps configs secrets).app
          (make_key lib.kind_application app.name app.version)
          s.apps
          s'.apps
    pub has_configs :
        (v : Volume) (cfg : Configuration)
        → In v app.volumes
        → NamesConfig configs v cfg
        → Entry
            (fetched_objects lib apps configs secrets).config
            (make_key lib.kind_configuration cfg.name cfg.version)
            s.configs
            s'.configs
    pub has_secrets :
        (v : Volume) (x : Secret)
        → In v app.volumes
        → NamesSecret configs secrets v x
        → Entry
            (fetched_objects lib apps configs secrets).secret
            (make_key lib.kind_secret x.name x.version)
            s.secrets
            s'.secrets

  -- If a synchronisation fetched its resources and reports no error, then for every
  -- application that it fetched, and for every fetched configuration and secret that its
  -- volumes name, the store has an entry under the key of its name and version, and the entry
  -- is the one that was there before or is, field by field, an object that was fetched and
  -- has this key. Each fetched configuration is one that the cloud answered with, in which
  -- all entries stay or, of a program, those that are no objects or whose key has the name of
  -- the platform in it.
  pub sync_resource-IsStored :
      (info : AppInfo) (s s' : Store) (apps : Dict String Application)
      (configs : Dict String Configuration) (secrets : Dict String Secret) (name : String)
      (app : Application)
      → fetch range lib info ≡ got apps configs secrets
      → In (name, app) apps
      → sync_resource range lib info s ≡ (none, s')
      → IsStored apps configs secrets app s s'
        × ((n : String) (cfg : Configuration)
            → Dict.lookup n configs ≡ some cfg
            → FromCloud range lib n cfg)
  unfolding sync_resource store_fetched
  sync_resource-IsStored info s s' apps configs secrets name app f i h =
      let l = range.order (String × Application) apps in
      let sub : (n : String) (a : Application) → In (n, a) l → In (n, a) apps =
        λ n a j. (range.in_order _ (n, a) apps).0 j in
      let ran : store_apps range lib configs secrets l s ≡ (none, s') =
        subst (λ (x : Fetched). store_fetched range lib x s ≡ (none, s')) f h in
      let moved =
        subst (λ (o : Outcome). Keeps lib.reads (fetched_objects lib apps configs secrets) s o.1)
          ran (store_all-Keeps range lib configs secrets apps l s sub) in
      let present =
        store_apps-Present configs secrets apps l name app s s' sub
          ((range.in_order _ (name, app) apps).1 i) ran in
      (
        record {
          has_app = (let (a, p) = present.has_app in (a, p, moved.apps.origin _ a p));
          has_configs = λ v cfg m n.
              (let (c, p) = present.has_configs v cfg m n in (c, p, moved.configs.origin _ c p));
          has_secrets = λ v x m n.
              (let (c, p) = present.has_secrets v x m n in (c, p, moved.secrets.origin _ c p));
        },
        λ n cfg p. fetch-IsFiltered range lib info apps configs secrets n cfg f p,
      )
