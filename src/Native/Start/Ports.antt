-- ===== src/Native/Start/Ports.antt =====
-- The ports of an application in the mapping file, from its start to its deletion.
use baetyl.Base.{
  ℕ, zero, suc, ◌≤◌, String, true, some, List, [], ◌∷◌, ◌++◌, ◌≡◌, ◌≢◌, ◌⊎◌, inl, inr, refl, sym,
  ap, ◌∙◌, subst, arith, In, Option-cases, Bool-cases, ◌==◌, string_eq,
}
use baetyl.Base.Dict
use baetyl.Base.Dict.{Dict, has-insert, has-lookup}
use baetyl.Base.Text.{itoa}
use baetyl.Message.{Try, done}
use baetyl.Message.Laws.{Try-cases}
use baetyl.Prober.Manager.{App}
use baetyl.Spec.{Application, Configuration, Secret, Service}
use baetyl.Native.{Versions, Services, gen_service_instance_name}
use baetyl.Native.Delete.{delete_app}
use baetyl.Native.Delete.Ports.{NoService, delete_app-keeps_ports}
use baetyl.Native.Start.{
  Lib, Setup, Outcome, mount_all, volumes_of, launch, make_instance, clear, put_services,
  services_at, apply_instance, apply_instances, mapped_name, set_service_ports, apply_services,
  apply_app, info_of,
}

module _ (lib : Lib) (ns : String) (app : Application) (probes : App)
    (configs : Dict String Configuration) (secrets : Dict String Secret) where
  launch-ports :
      (name dir : String) (st : Setup lib) → (launch lib name probes dir st).1.0.ports ≡ st.0.ports
  unfolding launch
  launch-ports name dir (s, n) = ground arith

  apply_instance-ports :
      (svc : Service) (ins : String) (st st' : Setup lib) (port : ℕ)
      → apply_instance lib ns app probes configs secrets svc ins st ≡ (done port, st')
      → st'.0.ports ≡ st.0.ports
  unfolding apply_instance make_instance
  apply_instance-ports svc ins (s, n) st' port h =
      let dir = lib.join (lib.join lib.app_dir svc.name) ins in
      let s1 = make_instance lib app svc.name ins s in
      let name = gen_service_instance_name ns app.name app.version svc.name ins in
      elim (Option-cases (lib.mkdir_error dir)) [
        | inr (e, p) ↦ ground arith
        | inl p ↦
            elim (Try-cases
              (mount_all lib (volumes_of lib app) configs secrets dir svc.volume_mounts "")) [
                | inl (e, q) ↦ ground arith
                | inr (exec, q) ↦ elim (Bool-cases (exec == "")) [
                  | inl r ↦ ground arith
                  | inr r ↦
                      let ran : launch lib name probes dir (s1, n) ≡ (done port, st') =
                        ground arith in
                      sym (ap (λ (o : Outcome lib ℕ). o.1.0.ports) ran)
                      ∙ launch-ports name dir (s1, n)
                ]
              ]
      ]

  abbrev Filled : List ℕ → Type 0
  Filled l = (p : ℕ) × (ps : List ℕ) × (l ≡ p ∷ ps)

  append-Filled : (l : List ℕ) (p : ℕ) → Filled (l ++ (p ∷ []))
  append-Filled [] p = (p, [], refl)
  append-Filled (q ∷ l) p = (q, l ++ (p ∷ []), refl)

  apply_instances-ports :
      (svc : Service) (left i : ℕ) (ports ports' : List ℕ) (st st' : Setup lib)
      → apply_instances lib ns app probes configs secrets svc left i ports st ≡ (done ports', st')
      → (st'.0.ports ≡ st.0.ports) × (Filled ports ⊎ (1 ≤ left) → Filled ports')
  unfolding apply_instances
  apply_instances-ports svc zero i ports ports' st st' h =
      let same : ports ≡ ports' = ground arith in
      (
        ap (λ (o : Outcome lib (List ℕ)). o.1.0.ports) (sym h),
        λ f. elim f [ inl g ↦ subst Filled same g | inr b ↦ absurd (omega (arith, b)) ],
      )
  apply_instances-ports svc (suc left) i ports ports' st st' h =
      let o = apply_instance lib ns app probes configs secrets svc (itoa i) st in
      elim (Try-cases o.0) [
        | inl (e, p) ↦ ground arith
        | inr (port, p) ↦
            let one =
              apply_instance-ports svc (itoa i) st o.1 port (ap {A = Try ℕ} (λ r. (r, o.1)) p) in
            let rest =
              apply_instances-ports svc left (suc i) (ports ++ (port ∷ [])) ports' o.1 st'
                (ground arith) in
            (rest.0 ∙ one, λ f. rest.1 (inl (append-Filled ports port)))
      ]

  set_service_ports-has :
      (svc : Service) (ports : List ℕ) (st st' : Setup lib)
      → set_service_ports lib app svc ports st ≡ (done tt, st')
      → ((k : String) → Dict.has k st.0.ports ≡ true → Dict.has k st'.0.ports ≡ true)
        × (Filled ports → Dict.has (mapped_name lib app svc) st'.0.ports ≡ true)
  unfolding set_service_ports
  set_service_ports-has svc [] st st' h = (
    λ k m.
        subst (λ (x : Setup lib). Dict.has k x.0.ports ≡ true)
          (ap (λ (o : Outcome lib (Unit {0})). o.1) h) m,
    λ (p, ps, e). ground arith,
  )
  set_service_ports-has svc (p ∷ ports) (s, n) st' h =
      elim (Option-cases (lib.ports_error (mapped_name lib app svc) (p ∷ ports))) [
        | inr (e, q) ↦ ground arith
        | inl q ↦
            let now : Dict.insert (mapped_name lib app svc) (p ∷ ports) s.ports ≡ st'.0.ports =
              ground arith in
            (
              λ k m.
                  subst (λ d. Dict.has k d ≡ true) now
                    (ground (arith, has-insert k (mapped_name lib app svc) (p ∷ ports) s.ports)),
              λ f.
                  subst (λ d. Dict.has (mapped_name lib app svc) d ≡ true) now
                    (ground (
                      arith,
                      has-insert (mapped_name lib app svc) (mapped_name lib app svc) (p ∷ ports)
                          s.ports,
                    )),
            )
      ]

  apply_services-has :
      (svcs : List Service) (st st' : Setup lib)
      → apply_services lib ns app probes configs secrets svcs st ≡ (done tt, st')
      → ((k : String) → Dict.has k st.0.ports ≡ true → Dict.has k st'.0.ports ≡ true)
        × ((svc : Service)
            → In svc svcs
            → 1 ≤ svc.replica
            → Dict.has (mapped_name lib app svc) st'.0.ports ≡ true)
  unfolding apply_services
  apply_services-has [] st st' h = (
    λ k m.
        subst (λ (x : Setup lib). Dict.has k x.0.ports ≡ true)
          (ap (λ (o : Outcome lib (Unit {0})). o.1) h) m,
    λ svc m. absurd m,
  )
  apply_services-has (svc ∷ svcs) st st' h =
      let o = apply_instances lib ns app probes configs secrets svc svc.replica 1 [] st in
      elim (Try-cases o.0) [
        | inl (e, p) ↦ ground arith
        | inr (ports, p) ↦
            let q = set_service_ports lib app svc ports o.1 in
            let first =
              apply_instances-ports svc svc.replica 1 [] ports st o.1
                (ap {A = Try (List ℕ)} (λ r. (r, o.1)) p) in
            elim (Try-cases q.0) [
              | inl (e, r) ↦ ground arith
              | inr (u, r) ↦
                  let set =
                    set_service_ports-has svc ports o.1 q.1
                      (ap {A = Try (Unit {0})} (λ r. (r, q.1)) r) in
                  let rest = apply_services-has svcs q.1 st' (ground arith) in
                  (
                    λ k m. rest.0 k (set.0 k (subst (λ d. Dict.has k d ≡ true) (sym first.0) m)),
                    λ v m b. elim m [
                      | inl same ↦
                          subst (λ y. Dict.has (mapped_name lib app y) st'.0.ports ≡ true)
                            (sym same)
                            (rest.0 _ (set.1 (first.1 (inr (subst (λ y. 1 ≤ y.replica) same b)))))
                      | inr n ↦ rest.1 v n b
                    ],
                  )
            ]
      ]

  -- The ports of an application that is not of containers outlive it: once it was applied
  -- without an error, with a replica of some service, and if no service directory has its
  -- name, the mapping file still has ports under its name when it was deleted.
  pub function_ports_stay :
      (st st' : Setup lib) (versions : Versions) (svc : Service)
      → apply_app lib ns app probes configs secrets st ≡ (done tt, st')
      → app.app_type ≢ lib.type_container
      → In svc app.services
      → 1 ≤ svc.replica
      → Dict.lookup app.name st'.0.apps ≡ some versions
      → ((version : String) (svcs : Services)
          → In (version, svcs) versions
          → NoService lib.delete ns (info_of lib app) app.name svcs)
      → Dict.has app.name (delete_app lib.delete ns (info_of lib app) st'.0).1.ports ≡ true
  unfolding apply_app
  function_ports_stay (s, n) st' versions svc h other m low found free =
      elim (Option-cases (lib.mkdir_error lib.app_dir)) [
        | inr (e, p) ↦ ground arith
        | inl p ↦
            let s1 = clear lib ns app s in
            let set_up : Setup lib = (
              put_services lib app.name app.version (services_at lib app.name app.version s1) s1,
              n,
            ) in
            let r = (apply_services-has app.services set_up st' (ground arith)).1 svc m low in
            let stays =
              delete_app-keeps_ports lib.delete ns (info_of lib app) app.name versions st'.0 found
                free in
            ground (
              arith,
              has-lookup app.name st'.0.ports,
              has-lookup app.name (delete_app lib.delete ns (info_of lib app) st'.0).1.ports,
            )
      ]
