-- ===== src/Native/Delete/Ports.antt =====
-- The ports that the mapping file still has when an application was deleted.
use baetyl.Base.{
  ℕ, String, none, some, List, [], ◌∷◌, ◌≡◌, ◌≢◌, inl, inr, refl, ap, arith, In, Option-cases,
  string_eq,
}
use baetyl.Base.Dict
use baetyl.Base.Dict.{Dict, lookup-delete}
use baetyl.Spec.{AppInfo}
use baetyl.Native.{Services, Versions, State, gen_service_instance_name}
use baetyl.Native.Delete.{
  Lib, Left, stop_instance, delete_instances, drop_ports, delete_services, delete_versions,
  finish_delete, delete_app,
}

module _ (lib : Lib) (ns : String) (info : AppInfo) where
  delete_instances-ports :
      (version svc : String) (is : List String) (s : State)
      → (delete_instances lib ns info version svc is s).2.ports ≡ s.ports
  unfolding delete_instances stop_instance
  delete_instances-ports version svc [] s = refl
  delete_instances-ports version svc (i ∷ is) s =
      let name = gen_service_instance_name ns info.name version svc i in
      ground (arith, delete_instances-ports version svc is (stop_instance lib ns info name s))

  abbrev pub NoService : String → Services → Type 0
  NoService p svcs = (svc : String) (is : List String) → In (svc, is) svcs → p ≢ svc

  delete_services-ports :
      (p version : String) (svcs : Services) (s : State)
      → NoService p svcs
      → Dict.lookup p (delete_services lib ns info version svcs s).2.ports ≡ Dict.lookup p s.ports
  unfolding delete_services
  delete_services-ports p version [] s h = refl
  delete_services-ports p version ((svc, is) ∷ rest) s h =
      let o = delete_instances lib ns info version svc is s in
      let first =
        ap (λ (d : Dict String (List ℕ)). Dict.lookup p d)
          (delete_instances-ports version svc is s) in
      let ne = h svc is (inl refl) in
      let later =
        delete_services-ports p version rest (drop_ports lib ns info svc o.2)
          (λ v js m. h v js (inr m)) in
      elim (Option-cases o.0) [
        | inr (e, q) ↦ ground arith
        | inl q ↦ elim (Option-cases (lib.remove_service_error svc)) [
          | inr (e, r) ↦ ground arith
          | inl r ↦ elim (Option-cases (lib.ports_error svc)) [
            | inr (e, t) ↦ ground arith
            | inl t ↦ ground (arith, lookup-delete p svc o.2.ports)
          ]
        ]
      ]

  delete_versions-ports :
      (p : String) (versions : Versions) (s : State)
      → ((version : String) (svcs : Services) → In (version, svcs) versions → NoService p svcs)
      → Dict.lookup p (delete_versions lib ns info versions s).2.ports ≡ Dict.lookup p s.ports
  unfolding delete_versions
  delete_versions-ports p [] s h = refl
  delete_versions-ports p ((version, svcs) ∷ rest) s h =
      let o = delete_services lib ns info version svcs s in
      let first = delete_services-ports p version svcs s (h version svcs (inl refl)) in
      let later = delete_versions-ports p rest o.2 (λ v x m. h v x (inr m)) in
      elim (Option-cases o.0) [
        | inr (e, q) ↦ ground arith
        | inl q ↦ elim (Option-cases (lib.remove_version_error version)) [
          | inr (e, r) ↦ ground arith
          | inl r ↦ ground arith
        ]
      ]

  finish_delete-ports : (o : Left Versions) → (finish_delete lib ns info o).1.ports ≡ o.2.ports
  unfolding finish_delete
  finish_delete-ports (some why, left, s) = refl
  finish_delete-ports (none, left, s) = ground arith

  -- Deleting an application leaves the ports of every name that is not one of its services.
  pub delete_app-keeps_ports :
      (p : String) (versions : Versions) (s : State)
      → Dict.lookup info.name s.apps ≡ some versions
      → ((version : String) (svcs : Services) → In (version, svcs) versions → NoService p svcs)
      → Dict.lookup p (delete_app lib ns info s).1.ports ≡ Dict.lookup p s.ports
  unfolding delete_app
  delete_app-keeps_ports p versions s found h =
      let o = delete_versions lib ns info versions s in
      let a = ap (λ (d : Dict String (List ℕ)). Dict.lookup p d) (finish_delete-ports o) in
      let b = delete_versions-ports p versions s h in ground arith
