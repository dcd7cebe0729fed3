-- ===== src/Engine/Apply/Certs.antt =====
-- The certificates of the services.
use text.Mathlib.TextLemmas.{append_cancel_left}
use mathlib.Core.List.{append_assoc, append-nil}
use baetyl.Base.{
  ℕ, suc, true, false, String, ◌<>◌, Option, none, some, List, [], ◌∷◌, ◌++◌, map, ◌≡◌, ◌≢◌, ◌⊎◌,
  inl, inr, refl, sym, ap, ◌∙◌, subst, arith, In, In-append, ◌==◌, string_eq, if◌then◌else◌,
}
use baetyl.Base.Dict
use baetyl.Base.Dict.{Dict, lookup-insert}
use baetyl.Message.{Try, done}
use baetyl.Message.Laws.{Try-cases, done-inj}
use baetyl.Security.{CertPem, AltNames, get_ca, issue_certificate}
use baetyl.Security
use baetyl.Spec.{Application, Secret, Service}
use baetyl.Engine.Apply.{
  Lib, Injected, Secrets, cert_secret, alt_names, mount_of, secret_of, volume_of, inject_service,
  inject_services, inject_cert,
}

other_key :
    {A : Type 0} {a : A} (b : A) (k j : String) {found : Option A}
    → found ≡ some a
    → k ≢ j
    → (if k == j then some b else found) ≡ some a
other_key b k j h differ = ground arith

module _ (lib : Lib) (sec : Security.Lib) (certs : Security.Store) (app : Application)
    (ca : String) where
  -- What the names of a service's certificate objects end in.
  abbrev pub sum_of : Service → String
  sum_of svc = lib.hex_md5 (app.name <> "." <> svc.name)

  abbrev pub issues : ℕ → Service → Try CertPem
  issues n svc = issue_certificate sec n (app.name <> "." <> svc.name) (alt_names lib app svc) certs

  -- The service has its mount, the volume of the mount, and in the secret of the volume the
  -- certificate that was issued for it, the private key of it and the certificate of the node.
  pub record Certified (i : Injected) (svc : Service) : Type 0 where
    pub serial : ℕ
    pub cert : CertPem
    pub issued : issues serial svc ≡ done cert
    pub service :
        In
          (record svc {
            volume_mounts =
                svc.volume_mounts
                ++ (record {
                  name = "baetyl-cert-volume-" <> sum_of svc;
                  mount_path = lib.cert_path;
                  read_only = true;
                  auto_clean = false;
                }
                    ∷ []);
          })
          i.services
    pub volume :
        In
          (record {
            name = "baetyl-cert-volume-" <> sum_of svc;
            host_path = none;
            config = none;
            secret = some (record { name = "baetyl-cert-secret-" <> sum_of svc; version = "" });
          })
          i.volumes
    pub secret : Secret
    pub stored : Dict.lookup ("baetyl-cert-secret-" <> sum_of svc) i.secrets ≡ some secret
    pub contents :
        secret.contents
        ≡ (lib.cert_crt, cert.crt) ∷ (lib.cert_key, cert.private_key) ∷ (lib.cert_ca, ca) ∷ []

  -- The names of the services have MD5 sums that differ.
  abbrev pub AllDiffer : List Service → Type 0
  AllDiffer [] = Unit
  AllDiffer (svc ∷ svcs) = ((x : Service) → In x svcs → sum_of svc ≢ sum_of x) × AllDiffer svcs

  service-Certified :
      (n : ℕ) (svc : Service) (cert : CertPem) (i : Injected)
      → issues n svc ≡ done cert
      → Certified (inject_service lib app svc ca cert i) svc
  unfolding inject_service
  service-Certified n svc cert i h = record {
    serial = n;
    cert = cert;
    issued = h;
    service = In-append _ i.services _ (inr (inl refl));
    volume = In-append _ i.volumes _ (inr (inl refl));
    secret = secret_of lib app svc ca cert;
    stored = ground (
      arith,
      lookup-insert ("baetyl-cert-secret-" <> sum_of svc) ("baetyl-cert-secret-" <> sum_of svc)
          (secret_of lib app svc ca cert) i.secrets,
    );
    contents = refl;
  }

  service-keeps :
      (svc x : Service) (cert : CertPem) (i : Injected)
      → sum_of x ≢ sum_of svc
      → Certified i x
      → Certified (inject_service lib app svc ca cert i) x
  unfolding inject_service
  service-keeps svc x cert i differ c = record {
    serial = c.serial;
    cert = c.cert;
    issued = c.issued;
    service = In-append _ i.services _ (inl c.service);
    volume = In-append _ i.volumes _ (inl c.volume);
    secret = c.secret;
    stored =
        lookup-insert _ _ _ i.secrets
        ∙ other_key _ ("baetyl-cert-secret-" <> sum_of x) ("baetyl-cert-secret-" <> sum_of svc)
            c.stored (λ e. differ (append_cancel_left (cert_secret lib) _ _ e));
    contents = c.contents;
  }

  -- A step for one service, and then the others.
  inject_services-step :
      (n : ℕ) (svc : Service) (svcs : List Service) (i i' : Injected)
      → inject_services lib sec certs n app ca (svc ∷ svcs) i ≡ done i'
      → (cert : CertPem) × (issues n svc ≡ done cert)
        × (inject_services lib sec certs (suc n) app ca svcs (inject_service lib app svc ca cert i)
            ≡ done i')
  unfolding inject_services
  inject_services-step n svc svcs i i' h = elim (Try-cases (issues n svc)) [
    | inl (e, p) ↦ ground arith
    | inr (cert, p) ↦ (cert, p, ground arith)
  ]

  inject_services-keeps :
      (n : ℕ) (svcs : List Service) (i i' : Injected) (x : Service)
      → ((svc : Service) → In svc svcs → sum_of x ≢ sum_of svc)
      → inject_services lib sec certs n app ca svcs i ≡ done i'
      → Certified i x
      → Certified i' x
  unfolding inject_services
  inject_services-keeps n [] i i' x differ h c = subst (λ j. Certified j x) (done-inj h) c
  inject_services-keeps n (svc ∷ svcs) i i' x differ h c =
      let (cert, p, rest) = inject_services-step n svc svcs i i' h in
      inject_services-keeps (suc n) svcs _ i' x (λ y m. differ y (inr m)) rest
        (service-keeps svc x cert i (differ svc (inl refl)) c)

  inject_services-Certified :
      (n : ℕ) (svcs : List Service) (i i' : Injected)
      → AllDiffer svcs
      → inject_services lib sec certs n app ca svcs i ≡ done i'
      → (x : Service) → In x svcs
      → Certified i' x
  inject_services-Certified n [] i i' differ h x m = absurd m
  inject_services-Certified n (svc ∷ svcs) i i' (first, others) h x (inr m) =
      let (cert, p, rest) = inject_services-step n svc svcs i i' h in
      inject_services-Certified (suc n) svcs _ i' others rest x m
  inject_services-Certified n (svc ∷ svcs) i i' (first, others) h x (inl e) =
      let (cert, p, rest) = inject_services-step n svc svcs i i' h in
      subst (Certified i') (sym e)
        (inject_services-keeps (suc n) svcs _ i' svc first rest (service-Certified n svc cert i p))

  -- The services in their order, each with one mount more, and one volume more for each.
  pub inject_services-exact :
      (n : ℕ) (svcs : List Service) (i i' : Injected)
      → inject_services lib sec certs n app ca svcs i ≡ done i'
      → (i'.services
          ≡ i.services
            ++ map
                (λ (svc : Service). record svc {
                  volume_mounts = svc.volume_mounts ++ (mount_of lib app svc ∷ []);
                })
                svcs)
        × (i'.volumes ≡ i.volumes ++ map (volume_of lib app) svcs)
  unfolding inject_services inject_service
  inject_services-exact n [] i i' h =
      let e = done-inj h in
      (
        ap (λ (j : Injected). j.services) (sym e) ∙ sym (append-nil i.services),
        ap (λ (j : Injected). j.volumes) (sym e) ∙ sym (append-nil i.volumes),
      )
  inject_services-exact n (svc ∷ svcs) i i' h =
      let (cert, p, rest) = inject_services-step n svc svcs i i' h in
      let (a, b) = inject_services-exact (suc n) svcs _ i' rest in
      (a ∙ append_assoc i.services _ _, b ∙ append_assoc i.volumes _ _)

  -- The secrets that were there are there, under the names that they had; the new ones are those of
  -- the services.
  pub inject_services-secrets :
      (n : ℕ) (svcs : List Service) (i i' : Injected) (k : String)
      → inject_services lib sec certs n app ca svcs i ≡ done i'
      → ((x : Secret)
          → Dict.lookup k i'.secrets ≡ some x
          → (Dict.lookup k i.secrets ≡ some x)
            ⊎ ((svc : Service) × In svc svcs × (k ≡ "baetyl-cert-secret-" <> sum_of svc)))
        × ((x : Secret)
            → Dict.lookup k i.secrets ≡ some x
            → (y : Secret) × (Dict.lookup k i'.secrets ≡ some y))
  unfolding inject_services inject_service
  inject_services-secrets n [] i i' k h =
      let e : i.secrets ≡ i'.secrets = ap (λ (j : Injected). j.secrets) (done-inj h) in
      (λ x p. inl (ap (Dict.lookup k) e ∙ p), λ x p. (x, sym (ap (Dict.lookup k) e) ∙ p))
  inject_services-secrets n (svc ∷ svcs) i i' k h =
      let (cert, p, rest) = inject_services-step n svc svcs i i' h in
      let (from, keeps) = inject_services-secrets (suc n) svcs _ i' k rest in
      let here =
        lookup-insert k ("baetyl-cert-secret-" <> sum_of svc) (secret_of lib app svc ca cert)
          i.secrets in
      (
        λ x q. elim (from x q) [
          | inr (y, m, e) ↦ inr (y, inr m, e)
          | inl r ↦ elim (string_eq.dec k ("baetyl-cert-secret-" <> sum_of svc)) [
            | yes e ↦ inr (svc, inl refl, e)
            | no e ↦ inl (ground arith)
          ]
        ],
        λ x q. elim (string_eq.dec k ("baetyl-cert-secret-" <> sum_of svc)) [
          | yes e ↦ keeps (secret_of lib app svc ca cert) (ground arith)
          | no e ↦ keeps x (ground arith)
        ],
      )

pub inject_cert-Certified :
    (lib : Lib) (sec : Security.Lib) (certs : Security.Store) (n : ℕ) (app app' : Application)
    (secs secs' : Secrets) (ca : String)
    → AllDiffer lib sec certs app ca app.services
    → get_ca sec certs ≡ done ca
    → inject_cert lib sec certs n app secs ≡ done (app', secs')
    → (x : Service) → In x app.services
    → Certified lib sec certs app ca
        (record { services = app'.services; volumes = app'.volumes; secrets = secs' })
        x
unfolding inject_cert
inject_cert-Certified lib sec certs n app app' secs secs' ca differ got h x m =
    elim (Try-cases (
      inject_services lib sec certs n app ca app.services
        (record { services = []; volumes = app.volumes; secrets = secs }))) [
          | inl (e, p) ↦ ground arith
          | inr (i, p) ↦
              let e : i
                  ≡ record { services = app'.services; volumes = app'.volumes; secrets = secs' } =
                ground arith in
              subst (λ j. Certified lib sec certs app ca j x) e
                (inject_services-Certified lib sec certs app ca n app.services _ i differ p x m)
        ]
