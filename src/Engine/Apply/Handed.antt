-- ===== src/Engine/Apply/Handed.antt =====
-- What is handed to the platform, against the application that the store has.
use baetyl.Base.{
  String, ◌<>◌, Bool, true, false, not, ◌&&◌, none, some, List, [], ◌∷◌, ◌++◌, map, ◌≡◌, ◌⊎◌, inl,
  inr, refl, ap, ◌∙◌, subst, arith, In, Option-cases, Bool-cases, string_eq, if◌then◌else◌,
}
use baetyl.Base.Dict
use baetyl.Base.Text.{contains}
use baetyl.Message.{done}
use baetyl.Message.Laws.{Try-cases, done-inj}
use baetyl.Security.{get_ca}
use baetyl.Security
use baetyl.Spec.{Application, Secret, Service, Volume}
use baetyl.Sync.Desire.{Store}
use baetyl.Sync.Prepare.{prepare_app, prepare_volumes, variables, add_env}
use baetyl.Engine.Apply.{
  Lib, State, Applied, Configs, Secrets, mount_of, volume_of, gather, inject_services, inject_cert,
  inject_if_need, build,
}
use baetyl.Engine.Apply.Certs.{inject_services-exact, inject_services-secrets}
use baetyl.Engine.Apply.Objects.{Gathered, gather-Gathered, through}

map-map :
    {A B C : Type 0} (f : B → C) (g : A → B) (xs : List A)
    → map f (map g xs) ≡ map (λ x. f (g x)) xs
map-map f g [] = refl
map-map f g (x ∷ xs) = ap (λ l. f (g x) ∷ l) (map-map f g xs)

module _ (lib : Lib) where
  -- With a security module, every application but the program's own two has certificates.
  abbrev pub is_certified : Application → Bool
  is_certified app = elim (lib.security) [
    | none ↦ false
    | some _ ↦ not (contains app.name lib.core_name) && not (contains app.name lib.init_name)
  ]

  -- A service with the variables of the program and, if it has one, the mount of its certificate.
  abbrev pub handed_service : Bool → Application → Service → Service
  handed_service certified app svc = record svc {
    env = svc.env ++ variables lib.prepare app svc;
    volume_mounts =
        if certified
        then svc.volume_mounts
          ++ (record {
            name = "baetyl-cert-volume-" <> lib.hex_md5 (app.name <> "." <> svc.name);
            mount_path = lib.cert_path;
            read_only = true;
            auto_clean = false;
          }
              ∷ [])
        else svc.volume_mounts;
  }

  abbrev pub cert_volume_of : Application → Service → Volume
  cert_volume_of app svc = record {
    name = "baetyl-cert-volume-" <> lib.hex_md5 (app.name <> "." <> svc.name);
    host_path = none;
    config = none;
    secret = some (record {
      name = "baetyl-cert-secret-" <> lib.hex_md5 (app.name <> "." <> svc.name);
      version = "";
    });
  }

  abbrev pub handed_app : Bool → Application → List Volume → Application
  handed_app certified app volumes = record app {
    services = map (handed_service certified app) app.services;
    volumes = if certified then volumes ++ map (cert_volume_of app) app.services else volumes;
  }

  -- The secret is that of a certificate.
  abbrev pub IsCertSecret : Application → String → Type 0
  IsCertSecret app k =
      (svc : Service) × In svc app.services
      × (k ≡ "baetyl-cert-secret-" <> lib.hex_md5 (app.name <> "." <> svc.name))

  -- The call has the application with its services in their order, each as above, its volumes with
  -- their paths prepared and those of the certificates after them, all other fields unchanged, and
  -- the objects that the volumes mount, as the store has them.
  pub record AsStored (s : Store) (app : Application) (x : Applied) : Type 0 where
    pub volumes : List Volume
    pub secrets : Secrets
    pub is_prepared : prepare_volumes lib.prepare x.configs app.volumes ≡ done volumes
    pub same : x.app ≡ handed_app (is_certified app) app volumes
    pub gathered : Gathered lib s app.volumes x.configs secrets
    pub secrets_from :
        (k : String) (y : Secret)
        → Dict.lookup k x.secrets ≡ some y
        → (Dict.lookup k secrets ≡ some y) ⊎ IsCertSecret app k
    pub secrets_here :
        (k : String) (y : Secret)
        → Dict.lookup k secrets ≡ some y
        → (z : Secret) × (Dict.lookup k x.secrets ≡ some z)

  -- Two steps of `build` after the objects are gathered.
  prepare_app-exact :
      (app app' : Application) (cfgs : Configs)
      → prepare_app lib.prepare app cfgs ≡ done app'
      → (vs : List Volume) × (prepare_volumes lib.prepare cfgs app.volumes ≡ done vs)
        × (app' ≡ handed_app false app vs)
  unfolding prepare_app add_env
  prepare_app-exact app app' cfgs h =
      elim (Try-cases (prepare_volumes lib.prepare cfgs app.volumes)) [
        | inl (e, p) ↦ ground arith
        | inr (vs, p) ↦ (vs, p, ground arith)
      ]

  -- What the injection does of an application and of its secrets.
  record WithCerts (app app' : Application) (vs : List Volume) (secs secs' : Secrets) : Type 0 where
    same : app' ≡ handed_app (is_certified app) app vs
    secrets_from :
        (k : String) (y : Secret)
        → Dict.lookup k secs' ≡ some y
        → (Dict.lookup k secs ≡ some y) ⊎ IsCertSecret app k
    secrets_here :
        (k : String) (y : Secret)
        → Dict.lookup k secs ≡ some y
        → (z : Secret) × (Dict.lookup k secs' ≡ some z)

  left_alone :
      (app : Application) (vs : List Volume) (secs : Secrets) (x : Application × Secrets)
      → false ≡ is_certified app
      → (handed_app false app vs, secs) ≡ x
      → WithCerts app x.0 vs secs x.1
  left_alone app vs secs x without e =
      subst (λ (y : Application × Secrets). WithCerts app y.0 vs secs y.1) e
        (record {
          same = ap (λ b. handed_app b app vs) without;
          secrets_from = λ k y p. inl p;
          secrets_here = λ k y p. (y, p);
        })

  injected-services :
      (app : Application) (l : List Service)
      → map
          (λ (svc : Service). record svc {
            volume_mounts = svc.volume_mounts ++ (mount_of lib app svc ∷ []);
          })
          (map (handed_service false app) l)
        ≡ map (handed_service true app) l
  injected-services app l =
      map-map
        (λ (svc : Service). record svc {
          volume_mounts = svc.volume_mounts ++ (mount_of lib app svc ∷ []);
        })
        (handed_service false app) l

  -- The service of a prepared one.
  of_prepared :
      (app : Application) (l : List Service) (svc : Service)
      → In svc (map (handed_service false app) l)
      → (x : Service) × In x l × (svc.name ≡ x.name)
  of_prepared app [] svc m = absurd m
  of_prepared app (x ∷ l) svc (inl e) = (x, inl refl, ap (λ (y : Service). y.name) e)
  of_prepared app (x ∷ l) svc (inr m) = let (y, n, e) = of_prepared app l svc m in (y, inr n, e)

  injected :
      (sec : Security.Lib) (certs : Security.Store) (n : _) (app : Application) (vs : List Volume)
      (secs : Secrets) (x : Application × Secrets)
      → true ≡ is_certified app
      → inject_cert lib sec certs n (handed_app false app vs) secs ≡ done x
      → WithCerts app x.0 vs secs x.1
  unfolding inject_cert
  injected sec certs n app vs secs x yes_it_is h =
      let prepared = handed_app false app vs in
      let (ca, got, h1) = through (get_ca sec certs) _ x h in
      let (i, ran, h2) =
        through
          (inject_services lib sec certs n prepared ca prepared.services
            (record { services = []; volumes = vs; secrets = secs }))
          _ x h1 in
      let (a, b) = inject_services-exact lib sec certs prepared ca n prepared.services _ i ran in
      let vols =
        b
        ∙ ap (λ l. vs ++ l)
            (map-map (volume_of lib prepared) (handed_service false app) app.services) in
      let secrets_at = λ (k : String).
        inject_services-secrets lib sec certs prepared ca n prepared.services _ i k ran in
      subst (λ (y : Application × Secrets). WithCerts app y.0 vs secs y.1) (done-inj h2)
        (record {
          same =
              ap (λ l. record prepared { services = l; volumes = i.volumes })
                (a ∙ injected-services app app.services)
              ∙ ap
                  (λ l. record app {
                    services = map (handed_service true app) app.services;
                    volumes = l;
                  })
                  vols
              ∙ ap (λ b. handed_app b app vs) yes_it_is;
          secrets_from = λ k y p. elim ((secrets_at k).0 y p) [
            | inl q ↦ inl q
            | inr (svc, m, e) ↦
                let (w, j, t) = of_prepared app app.services svc m in
                inr (
                  w,
                  j,
                  e ∙ ap (λ s. "baetyl-cert-secret-" <> lib.hex_md5 (app.name <> "." <> s)) t,
                )
          ];
          secrets_here = λ k y p. (secrets_at k).1 y p;
        })

  inject_if_need-WithCerts :
      (certs : Security.Store) (n : _) (app : Application) (vs : List Volume) (secs : Secrets)
      (x : Application × Secrets)
      → inject_if_need lib certs n (handed_app false app vs) secs ≡ done x
      → WithCerts app x.0 vs secs x.1
  unfolding inject_if_need
  inject_if_need-WithCerts certs n app vs secs x h = elim (Option-cases lib.security) [
    | inl p ↦ left_alone app vs secs x (ground arith) (done-inj (ground arith))
    | inr (sec, p) ↦
        elim (Bool-cases
          (not (contains app.name lib.core_name) && not (contains app.name lib.init_name))) [
            | inl q ↦ injected sec certs n app vs secs x (ground arith) (ground arith)
            | inr q ↦ left_alone app vs secs x (ground arith) (done-inj (ground arith))
          ]
  ]

  pub build-AsStored :
      (ns : String) (app : Application) (s : State) (x : Applied)
      → build lib ns app s ≡ done x
      → (x.namespace ≡ ns) × AsStored s.store app x
  unfolding build
  build-AsStored ns app s x h =
      let ((cfgs, secs), gathered, h1) = through (gather lib s.store app.volumes ([], [])) _ x h in
      let (prepared, p, h2) = through (prepare_app lib.prepare app cfgs) _ x h1 in
      let ((final, secs'), i, h3) =
        through (inject_if_need lib s.certs s.serial prepared secs) _ x h2 in
      let (vs, made, e) = prepare_app-exact app prepared cfgs p in
      let w =
        inject_if_need-WithCerts s.certs s.serial app vs secs (final, secs')
          (subst (λ a. inject_if_need lib s.certs s.serial a secs ≡ done (final, secs')) e i) in
      subst (λ (y : Applied). (y.namespace ≡ ns) × AsStored s.store app y) (done-inj h3)
        (
          refl,
          record {
            volumes = vs;
            secrets = secs;
            is_prepared = made;
            same = w.same;
            gathered = gather-Gathered lib s.store app.volumes cfgs secs gathered;
            secrets_from = w.secrets_from;
            secrets_here = w.secrets_here;
          },
        )
