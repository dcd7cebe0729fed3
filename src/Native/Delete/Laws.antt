-- ===== src/Native/Delete/Laws.antt =====
-- What is left when an application was deleted without an error.
use baetyl.Base.{
  String, Option, none, some, List, [], ◌∷◌, ◌≡◌, inl, inr, refl, sym, ap, ◌∙◌, subst, arith, In,
  Option-cases, ◌==◌, string_eq, if◌then◌else◌,
}
use baetyl.Base.Dict
use baetyl.Base.Dict.{Dict, lookup-delete}
use baetyl.Spec.{AppInfo}
use baetyl.Native.{Services, Versions, Apps, State, gen_service_instance_name}
use baetyl.Native.Delete.{
  Lib, Left, without, stop_instance, delete_instances, drop_ports, delete_services, delete_versions,
  finish_delete, delete_app,
}

without-In : (name x : String) (xs : List String) → In x (without name xs) → In x xs
without-In name x [] h = h
without-In name x (y ∷ xs) h = ground (arith, without-In name x xs)

without-gone : (name : String) (xs : List String) → ¬ (In name (without name xs))
without-gone name [] h = h
without-gone name (y ∷ xs) h = ground (arith, without-gone name xs)

module _ (lib : Lib) (ns : String) (info : AppInfo) where
  -- The service is not installed in the state.
  abbrev pub Gone : String → State → Type 0
  Gone name s = ¬ (In name s.installed)

  -- Every service that can be uninstalled is.
  abbrev pub Uninstalls : Type 0
  Uninstalls = (name : String) → lib.uninstall_error name ≡ none

  stop_instance-gone :
      (name : String) (s : State) → Uninstalls → Gone name (stop_instance lib ns info name s)
  unfolding stop_instance
  stop_instance-gone name s u h = ground (arith, u name, without-gone name s.installed)

  stop_instance-keeps :
      (name x : String) (s : State) → Gone x s → Gone x (stop_instance lib ns info name s)
  unfolding stop_instance
  stop_instance-keeps name x s g h = ground (arith, without-In name x s.installed)

  -- What a loop that ended without an error did: the services named are gone, those that were gone still
  -- are, and the other applications are as before.
  pub record Stopped (named : String → Type 0) (s s' : State) : Type 0 where
    pub gone : (x : String) → named x → Gone x s'
    pub kept : (x : String) → Gone x s → Gone x s'
    pub same : s'.apps ≡ s.apps

  abbrev pub OfInstances : String → String → List String → String → Type 0
  OfInstances version svc is x =
      (i : String) × In i is × (x ≡ gen_service_instance_name ns info.name version svc i)

  abbrev pub OfServices : String → Services → String → Type 0
  OfServices version svcs x =
      (svc : String) × (is : List String) × In (svc, is) svcs × OfInstances version svc is x

  abbrev pub OfVersions : Versions → String → Type 0
  OfVersions versions x =
      (version : String) × (svcs : Services) × In (version, svcs) versions
      × OfServices version svcs x

  delete_instances-Stopped :
      (version svc : String) (is left : List String) (s s' : State)
      → Uninstalls
      → delete_instances lib ns info version svc is s ≡ (none, left, s')
      → Stopped (OfInstances version svc is) s s'
  unfolding delete_instances
  delete_instances-Stopped version svc [] left s s' u h =
      let e : s ≡ s' = ap (λ (o : Left (List String)). o.2) h in
      record {
        gone = λ x (i, m, p). absurd m;
        kept = λ x g. subst (Gone x) e g;
        same = ap (λ (z : State). z.apps) (sym e);
      }
  delete_instances-Stopped version svc (i ∷ is) left s s' u h =
      let name = gen_service_instance_name ns info.name version svc i in
      let s1 = stop_instance lib ns info name s in
      elim (Option-cases (lib.create_error name)) [
        | inr (e, p) ↦ ground arith
        | inl p ↦ elim (Option-cases (lib.remove_instance_error name)) [
          | inr (e, q) ↦ ground arith
          | inl q ↦
              let rest = delete_instances-Stopped version svc is left s1 s' u (ground arith) in
              record {
                gone = λ x (j, m, r). elim m [
                  | inl same ↦ rest.kept x (
                      subst (λ y. Gone y s1)
                        (sym (r ∙ ap (gen_service_instance_name ns info.name version svc) same))
                        (stop_instance-gone name s u))
                  | inr n ↦ rest.gone x (j, n, r)
                ];
                kept = λ x g. rest.kept x (stop_instance-keeps name x s g);
                same = rest.same;
              }
        ]
      ]

  delete_services-Stopped :
      (version : String) (svcs left : Services) (s s' : State)
      → Uninstalls
      → delete_services lib ns info version svcs s ≡ (none, left, s')
      → Stopped (OfServices version svcs) s s'
  unfolding delete_services
  delete_services-Stopped version [] left s s' u h =
      let e : s ≡ s' = ap (λ (o : Left Services). o.2) h in
      record {
        gone = λ x (svc, is, m, p). absurd m;
        kept = λ x g. subst (Gone x) e g;
        same = ap (λ (z : State). z.apps) (sym e);
      }
  delete_services-Stopped version ((svc, is) ∷ svcs) left s s' u h =
      let o = delete_instances lib ns info version svc is s in
      elim (Option-cases o.0) [
        | inr (e, p) ↦ ground arith
        | inl p ↦ elim (Option-cases (lib.remove_service_error svc)) [
          | inr (e, q) ↦ ground arith
          | inl q ↦ elim (Option-cases (lib.ports_error svc)) [
            | inr (e, r) ↦ ground arith
            | inl r ↦
                let first =
                  delete_instances-Stopped version svc is o.1 s o.2 u
                    (ap {A = Option String} (λ e. (e, o.1, o.2)) p) in
                let rest =
                  delete_services-Stopped version svcs left (drop_ports lib ns info svc o.2) s' u
                    (ground arith) in
                record {
                  gone = λ x (v, js, m, j). elim m [
                    | inl same ↦ rest.kept x (
                        first.gone x (
                          subst (λ (y : String × List String). OfInstances version y.0 y.1 x) same
                            j))
                    | inr n ↦ rest.gone x (v, js, n, j)
                  ];
                  kept = λ x g. rest.kept x (first.kept x g);
                  same = rest.same ∙ first.same;
                }
          ]
        ]
      ]

  delete_versions-Stopped :
      (versions left : Versions) (s s' : State)
      → Uninstalls
      → delete_versions lib ns info versions s ≡ (none, left, s')
      → Stopped (OfVersions versions) s s'
  unfolding delete_versions
  delete_versions-Stopped [] left s s' u h =
      let e : s ≡ s' = ap (λ (o : Left Versions). o.2) h in
      record {
        gone = λ x (v, svcs, m, p). absurd m;
        kept = λ x g. subst (Gone x) e g;
        same = ap (λ (z : State). z.apps) (sym e);
      }
  delete_versions-Stopped ((version, svcs) ∷ versions) left s s' u h =
      let o = delete_services lib ns info version svcs s in
      elim (Option-cases o.0) [
        | inr (e, p) ↦ ground arith
        | inl p ↦ elim (Option-cases (lib.remove_version_error version)) [
          | inr (e, q) ↦ ground arith
          | inl q ↦
              let first =
                delete_services-Stopped version svcs o.1 s o.2 u
                  (ap {A = Option String} (λ e. (e, o.1, o.2)) p) in
              let rest = delete_versions-Stopped versions left o.2 s' u (ground arith) in
              record {
                gone = λ x (v, js, m, j). elim m [
                  | inl same ↦ rest.kept x (
                      first.gone x (subst (λ (y : String × Services). OfServices y.0 y.1 x) same j))
                  | inr n ↦ rest.gone x (v, js, n, j)
                ];
                kept = λ x g. rest.kept x (first.kept x g);
                same = rest.same ∙ first.same;
              }
        ]
      ]

  finish_delete-apps :
      (o : Left Versions) (s' : State)
      → finish_delete lib ns info o ≡ (none, s')
      → (o.0 ≡ none) × (s'.apps ≡ Dict.delete info.name o.2.apps) × (s'.installed ≡ o.2.installed)
  unfolding finish_delete
  finish_delete-apps (some why, left, s) s' h = ground arith
  finish_delete-apps (none, left, s) s' h = elim (Option-cases (lib.remove_app_error info.name)) [
    | inr (e, p) ↦ ground arith
    | inl p ↦ (refl, ground arith, ground arith)
  ]

  -- If services can be uninstalled, after an application of the system is deleted without an
  -- error its directory is not there and those of the others are as before, none of its
  -- instances of any version is installed, and no service is installed that was not.
  pub delete_app-Gone :
      (versions : Versions) (s s' : State)
      → Uninstalls
      → Dict.lookup info.name s.apps ≡ some versions
      → delete_app lib ns info s ≡ (none, s')
      → ((app : String)
          → Dict.lookup app s'.apps ≡ (if app == info.name then none else Dict.lookup app s.apps))
        × ((x : String) → OfVersions versions x → Gone x s')
        × ((x : String) → Gone x s → Gone x s')
  unfolding delete_app
  delete_app-Gone versions s s' u found h =
      let o = delete_versions lib ns info versions s in
      let ended : finish_delete lib ns info o ≡ (none, s') = ground arith in
      let (went, apps, installed) = finish_delete-apps o s' ended in
      let r =
        delete_versions-Stopped versions o.1 s o.2 u
          (ap {A = Option String} (λ e. (e, o.1, o.2)) went) in
      (
        λ app.
            ap (Dict.lookup app) apps
            ∙ lookup-delete app info.name o.2.apps
            ∙ ap (λ (d : Apps). if app == info.name then none else Dict.lookup app d) r.same,
        λ x n m. r.gone x n (subst (In x) installed m),
        λ x g m. r.kept x g (subst (In x) installed m),
      )
