-- ===== src/Native/Start/Laws.antt =====
-- What runs once an application was applied without an error.
use baetyl.Base.{
  ℕ, zero, suc, ◌+◌, ◌≤◌, ◌<◌, String, List, [], ◌∷◌, ◌++◌, ◌≡◌, inl, inr, refl, sym, ap, ◌∙◌,
  subst, arith, In, In-append, Option-cases, Bool-cases, ◌==◌, string_eq, nat_eq,
}
use baetyl.Base.Dict.{Dict}
use baetyl.Base.Text.{itoa}
use baetyl.Message.{Try, done}
use baetyl.Message.Laws.{Try-cases}
use baetyl.Prober.Manager.{App}
use baetyl.Spec.{Application, Configuration, Secret, Service}
use baetyl.Native.{State, gen_service_instance_name}
use baetyl.Native.Start.{
  Lib, Setup, Outcome, twice, mount_all, volumes_of, install_service, launch, make_instance, clear,
  put_services, services_at, apply_instance, apply_instances, set_service_ports, apply_services,
  apply_app,
}

module _ (lib : Lib) (ns : String) (app : Application) (probes : App)
    (configs : Dict String Configuration) (secrets : Dict String Secret) where
  abbrev pub name_at : Service → ℕ → String
  name_at svc i = gen_service_instance_name ns app.name app.version svc.name (itoa i)

  launch-installs :
      (name dir : String) (st st' : Setup lib) (port : ℕ)
      → launch lib name probes dir st ≡ (done port, st')
      → st'.0.installed ≡ st.0.installed ++ (name ∷ [])
  unfolding launch
  launch-installs name dir (s, n) st' port h = elim (Try-cases (lib.allocate n)) [
    | inl (e, p) ↦ ground arith
    | inr (a, p) ↦ elim (Try-cases (install_service lib dir name)) [
      | inl (e, q) ↦ ground arith
      | inr (b, q) ↦ elim (Option-cases (twice lib (lib.start_error name))) [
        | inr (e, r) ↦ ground arith
        | inl r ↦ ground arith
      ]
    ]
  ]

  apply_instance-installs :
      (svc : Service) (i : ℕ) (st st' : Setup lib) (port : ℕ)
      → apply_instance lib ns app probes configs secrets svc (itoa i) st ≡ (done port, st')
      → st'.0.installed ≡ st.0.installed ++ (name_at svc i ∷ [])
  unfolding apply_instance make_instance
  apply_instance-installs svc i (s, n) st' port h =
      let dir = lib.join (lib.join lib.app_dir svc.name) (itoa i) in
      let s1 = make_instance lib app svc.name (itoa i) s in
      elim (Option-cases (lib.mkdir_error dir)) [
        | inr (e, p) ↦ ground arith
        | inl p ↦
            elim (Try-cases
              (mount_all lib (volumes_of lib app) configs secrets dir svc.volume_mounts "")) [
                | inl (e, q) ↦ ground arith
                | inr (exec, q) ↦ elim (Bool-cases (exec == "")) [
                  | inl r ↦ ground arith
                  | inr r ↦ launch-installs (name_at svc i) dir (s1, n) st' port (ground arith)
                ]
              ]
      ]

  -- What was installed before still is, and each of the named processes is.
  pub record Runs (named : String → Type 0) (s s' : State) : Type 0 where
    pub started : (x : String) → named x → In x s'.installed
    pub kept : (x : String) → In x s.installed → In x s'.installed

  abbrev pub OfReplicas : Service → ℕ → ℕ → String → Type 0
  OfReplicas svc i left x = (k : ℕ) × (i ≤ k) × (k < i + left) × (x ≡ name_at svc k)

  abbrev pub OfServices : List Service → String → Type 0
  OfServices svcs x = (svc : Service) × In svc svcs × OfReplicas svc 1 svc.replica x

  apply_instances-Runs :
      (svc : Service) (left i : ℕ) (ports ports' : List ℕ) (st st' : Setup lib)
      → apply_instances lib ns app probes configs secrets svc left i ports st ≡ (done ports', st')
      → Runs (OfReplicas svc i left) st.0 st'.0
  unfolding apply_instances
  apply_instances-Runs svc zero i ports ports' st st' h =
      let e : st ≡ st' = ap (λ (o : Outcome lib (List ℕ)). o.1) h in
      record {
        started = λ x (k, a, b, p). absurd (omega arith);
        kept = λ x m. subst (λ (s : Setup lib). In x s.0.installed) e m;
      }
  apply_instances-Runs svc (suc left) i ports ports' st st' h =
      let o = apply_instance lib ns app probes configs secrets svc (itoa i) st in
      elim (Try-cases o.0) [
        | inl (e, p) ↦ ground arith
        | inr (port, p) ↦
            let one =
              apply_instance-installs svc i st o.1 port (ap {A = Try ℕ} (λ r. (r, o.1)) p) in
            let rest =
              apply_instances-Runs svc left (suc i) (ports ++ (port ∷ [])) ports' o.1 st'
                (ground arith) in
            record {
              started = λ x (k, a, b, q). elim (nat_eq.dec k i) [
                | yes e ↦ rest.kept x (
                    subst (In x) (sym one)
                      (In-append x st.0.installed _ (inr (inl (q ∙ ap (name_at svc) e)))))
                | no e ↦ rest.started x (k, omega (arith, e), omega arith, q)
              ];
              kept = λ x m.
                  rest.kept x (subst (In x) (sym one) (In-append x st.0.installed _ (inl m)));
            }
      ]

  set_service_ports-installed :
      (svc : Service) (ports : List ℕ) (st : Setup lib)
      → (set_service_ports lib app svc ports st).1.0.installed ≡ st.0.installed
  unfolding set_service_ports
  set_service_ports-installed svc [] st = refl
  set_service_ports-installed svc (p ∷ ports) (s, n) = ground arith

  apply_services-Runs :
      (svcs : List Service) (st st' : Setup lib)
      → apply_services lib ns app probes configs secrets svcs st ≡ (done tt, st')
      → Runs (OfServices svcs) st.0 st'.0
  unfolding apply_services
  apply_services-Runs [] st st' h =
      let e : st ≡ st' = ap (λ (o : Outcome lib (Unit {0})). o.1) h in
      record {
        started = λ x (svc, m, r). absurd m;
        kept = λ x m. subst (λ (s : Setup lib). In x s.0.installed) e m;
      }
  apply_services-Runs (svc ∷ svcs) st st' h =
      let o = apply_instances lib ns app probes configs secrets svc svc.replica 1 [] st in
      elim (Try-cases o.0) [
        | inl (e, p) ↦ ground arith
        | inr (ports, p) ↦
            let q = set_service_ports lib app svc ports o.1 in
            let first =
              apply_instances-Runs svc svc.replica 1 [] ports st o.1
                (ap {A = Try (List ℕ)} (λ r. (r, o.1)) p) in
            elim (Try-cases q.0) [
              | inl (e, r) ↦ ground arith
              | inr (u, r) ↦
                  let rest = apply_services-Runs svcs q.1 st' (ground arith) in
                  let carry : (x : String) → In x o.1.0.installed → In x st'.0.installed = λ x m.
                    rest.kept x
                      (subst (In x) (sym (set_service_ports-installed svc ports o.1)) m) in
                  record {
                    started = λ x (v, m, k). elim m [
                      | inl same ↦
                          carry x (first.started x (subst (λ y. OfReplicas y 1 y.replica x) same k))
                      | inr n ↦ rest.started x (v, n, k)
                    ];
                    kept = λ x m. carry x (first.kept x m);
                  }
            ]
      ]

  -- After an application is applied without an error as processes of the system, a process is
  -- installed for each replica of each of its services.
  pub apply_app-runs :
      (st st' : Setup lib)
      → apply_app lib ns app probes configs secrets st ≡ (done tt, st')
      → (svc : Service) (i : ℕ) → In svc app.services
      → 1 ≤ i
      → i ≤ svc.replica
      → In (name_at svc i) st'.0.installed
  unfolding apply_app
  apply_app-runs (s, n) st' h svc i m low high = elim (Option-cases (lib.mkdir_error lib.app_dir)) [
    | inr (e, p) ↦ ground arith
    | inl p ↦
        let s1 = clear lib ns app s in
        let set_up : Setup lib =
          (put_services lib app.name app.version (services_at lib app.name app.version s1) s1, n) in
        let r = apply_services-Runs app.services set_up st' (ground arith) in
        r.started (name_at svc i) (svc, m, (i, low, omega (arith, high), refl))
  ]
