-- ===== src/Engine/Collide/MultiApp/Safety.antt =====
-- No two applications that stay share a host port.
use baetyl.Base.{
  ℕ, String, Bool, true, not, none, some, List, [], ◌∷◌, ◌++◌, ◌≡◌, ◌≢◌, ◌⊎◌, inl, inr, subst,
  foldl, foldl-keeps, foldl-reaches, any, arith, In, In-append, Bool-cases, Option-cases, ◌==◌,
  string_eq, nat_eq,
}
use baetyl.Base.Dict
use baetyl.Base.Dict.{Dict, lookup-insert, In_of_lookup}
use baetyl.Base.Range.{Range}
use baetyl.Spec.{AppInfo, Application, Service, ContainerPort}
use baetyl.Engine.Collide.{Apps, Stats}
use baetyl.Engine.Collide.Laws.{has-blame, lookup-drop_names}
use baetyl.Engine.Collide.MultiApp.Resolve.{keep_resolves, resolves_mark}
use baetyl.Engine.Collide.MultiApp.{
  Ports, held, add_port, add_service, Collected, collect, resolve, judge, check_multi_app_port,
  blank_instance, replicated,
}

abbrev pub has_port : ℕ → Service → Bool
has_port p svc = any (λ c. c.host_port == p) svc.ports

-- Some service of the application has the host port.
abbrev pub exposes : ℕ → Application → Bool
exposes p app = any (has_port p) app.services

module _ (x name : String) (p : ℕ) where
  keep_port :
      (ports : Ports) (c : ContainerPort)
      → In x (held p ports)
      → In x (held p (add_port name ports c))
  unfolding add_port
  keep_port ports c h = ground (
    arith,
    lookup-insert p c.host_port (held c.host_port ports ++ (name ∷ [])) ports,
    In-append x (held c.host_port ports) (name ∷ []),
  )

  keep_service :
      (ports : Ports) (svc : Service)
      → In x (held p ports)
      → In x (held p (add_service name ports svc))
  unfolding add_service
  keep_service ports svc h =
      foldl-keeps (λ (q : Ports). In x (held p q)) (add_port name) keep_port svc.ports ports h

  keep_services :
      (l : List Service) (ports : Ports)
      → In x (held p ports)
      → In x (held p (foldl (add_service name) ports l))
  keep_services l ports h =
      foldl-keeps (λ (q : Ports). In x (held p q)) (add_service name) keep_service l ports h

module _ (name : String) (p : ℕ) (used : p ≢ 0) where
  set_port :
      (ports : Ports) (c : ContainerPort)
      → c.host_port ≡ p
      → In name (held p (add_port name ports c))
  unfolding add_port
  set_port ports c h = ground (
    arith,
    lookup-insert p c.host_port (held c.host_port ports ++ (name ∷ [])) ports,
    In-append name (held c.host_port ports) (name ∷ []),
  )

  set_ports :
      (l : List ContainerPort) (ports : Ports)
      → any (λ c. c.host_port == p) l ≡ true
      → In name (held p (foldl (add_port name) ports l))
  set_ports [] ports h = absurd (ground arith)
  set_ports (c ∷ l) ports h = elim (Bool-cases (c.host_port == p)) [
    | inl e ↦
        foldl-keeps (λ (q : Ports). In name (held p q)) (add_port name) (keep_port name name p) l _
          (set_port ports c (ground arith))
    | inr e ↦ set_ports l _ (ground arith)
  ]

  set_services :
      (l : List Service) (ports : Ports)
      → any (has_port p) l ≡ true
      → In name (held p (foldl (add_service name) ports l))
  unfolding add_service
  set_services [] ports h = absurd (ground arith)
  set_services (svc ∷ l) ports h = elim (Bool-cases (has_port p svc)) [
    | inl e ↦ keep_services name name p l _ (set_ports svc.ports ports e)
    | inr e ↦ set_services l _ (ground arith)
  ]

  has_host_port_of_ports :
      (l : List ContainerPort)
      → any (λ c. c.host_port == p) l ≡ true
      → any (λ c. not (c.host_port == 0)) l ≡ true
  has_host_port_of_ports [] h = h
  has_host_port_of_ports (c ∷ l) h = ground (arith, has_host_port_of_ports l)

  has_host_port_of_services :
      (l : List Service)
      → any (has_port p) l ≡ true
      → any (λ svc. any (λ c. not (c.host_port == 0)) svc.ports) l ≡ true
  has_host_port_of_services [] h = h
  has_host_port_of_services (svc ∷ l) h =
      ground (arith, has_host_port_of_services l, has_host_port_of_ports svc.ports)

-- After the first loop: the name holds the port, or is marked.
abbrev Good : String → ℕ → Collected → Type 0
Good x p c = In x (held p c.ports) ⊎ (Dict.has x c.verdict.del ≡ true)

keep_collect :
    (x : String) (p : ℕ) (apps : Apps) (c : Collected) (info : AppInfo)
    → Good x p c
    → Good x p (collect apps c info)
unfolding collect
keep_collect x p apps c info h = elim (Option-cases (Dict.lookup info.name apps)) [
  | inl e ↦ rw (e, collect) h
  | inr (app, e) ↦
      rw (e, collect)
        (ground (
          arith,
          has-blame x app.name app.version app.name (blank_instance app.name) (replicated app)
              c.verdict,
          keep_services x app.name p app.services c.ports,
        ))
]

set_collect :
    (p : ℕ) (apps : Apps) (app : Application) (info : AppInfo)
    → p ≢ 0
    → Dict.lookup info.name apps ≡ some app
    → exposes p app ≡ true
    → (c : Collected) → Good app.name p (collect apps c info)
unfolding collect
set_collect p apps app info used e exposed c =
    rw (e, collect)
      (ground (
        arith,
        has-blame app.name app.name app.version app.name (blank_instance app.name) (replicated app)
            c.verdict,
        set_services app.name p used app.services c.ports exposed,
        has_host_port_of_services app.name p used app.services exposed,
      ))

-- The listed application of a name, kept under its own name, has the host port.
pub record Claims (infos : List AppInfo) (apps : Apps) (p : ℕ) (name : String) : Type 0 where
  pub info : AppInfo
  pub app : Application
  pub listed : In info infos
  pub info_name : info.name ≡ name
  pub app_name : app.name ≡ name
  pub found : Dict.lookup name apps ≡ some app
  pub exposed : exposes p app ≡ true

collected :
    (infos : List AppInfo) (apps : Apps) (p : ℕ) (name : String) (start : Collected)
    → p ≢ 0
    → Claims infos apps p name
    → Good name p (foldl (collect apps) start infos)
collected infos apps p name start used k =
    foldl-reaches (Good name p) (collect apps) k.info
      (λ c.
        subst (λ n. Good n p (collect apps c k.info)) k.app_name
          (set_collect p apps k.app k.info used (rw k.info_name k.found) k.exposed c))
      (keep_collect name p apps) infos start k.listed

held-lookup :
    (p : ℕ) (ports : Ports) (a : String)
    → In a (held p ports)
    → (names : List String) × (Dict.lookup p ports ≡ some names) × (held p ports ≡ names)
held-lookup p ports a h = elim (Option-cases (Dict.lookup p ports)) [
  | inl e ↦ absurd (rw (e, In) at h)
  | inr (names, e) ↦ (names, e, ground arith)
]

-- Both hold the port after the first loop: one is marked by the second.
contended :
    (range : Range) (apps : Apps) (c : Collected) (p : ℕ) (a b : String)
    → a ≢ b
    → In a (held p c.ports)
    → In b (held p c.ports)
    → let v = foldl (resolve apps) c.verdict (range.order (ℕ × List String) c.ports) in
      (Dict.has a v.del ≡ true) ⊎ (Dict.has b v.del ≡ true)
contended range apps c p a b differ ma mb =
    let (names, e, q) = held-lookup p c.ports a ma in
    resolves_mark apps a b p names differ (subst (In a) q ma) (subst (In b) q mb) _ c.verdict
      ((range.in_order _ _ _).1 (In_of_lookup p names c.ports e))

-- Of two different claimants of a port, one is marked after both loops.
judged :
    (range : Range) (infos : List AppInfo) (apps : Apps) (stats : Stats) (p : ℕ) (a b : String)
    → p ≢ 0
    → a ≢ b
    → Claims infos apps p a
    → Claims infos apps p b
    → (Dict.has a (judge range infos apps stats).del ≡ true)
      ⊎ (Dict.has b (judge range infos apps stats).del ≡ true)
unfolding judge
judged range infos apps stats p a b used differ ka kb =
    decide (collected infos apps p a start used ka) (collected infos apps p b start used kb)
  where
    start : Collected
    start = record { ports = []; verdict = record { stats = stats; del = [] } }

    c : Collected
    c = foldl (collect apps) start infos

    order : List (ℕ × List String)
    order = range.order (ℕ × List String) c.ports

    Marks : String → Type 0
    Marks k = Dict.has k (foldl (resolve apps) c.verdict order).del ≡ true

    decide : Good a p c → Good b p c → Marks a ⊎ Marks b
    decide (inr h) _ = inl (keep_resolves apps a order c.verdict h)
    decide (inl ma) (inr h) = inr (keep_resolves apps b order c.verdict h)
    decide (inl ma) (inl mb) = contended range apps c p a b differ ma mb

-- Two applications of different names that are listed with a host port in common, other than 0,
-- do not both stay: one of them is taken from the applications and from the update.
pub check_multi_app_port_safe :
    (range : Range) (infos : List AppInfo) (apps : Apps) (stats : Stats)
    (update : Dict String AppInfo) (p : ℕ) (a b : String)
    → p ≢ 0
    → a ≢ b
    → Claims infos apps p a
    → Claims infos apps p b
    → let c = check_multi_app_port range infos apps stats update in
      ((Dict.lookup a c.apps ≡ none) × (Dict.lookup a c.update ≡ none))
      ⊎ ((Dict.lookup b c.apps ≡ none) × (Dict.lookup b c.update ≡ none))
unfolding check_multi_app_port
check_multi_app_port_safe range infos apps stats update p a b used differ ka kb =
    let del = (judge range infos apps stats).del in
    ground (
      arith,
      judged range infos apps stats p a b used differ ka kb,
      lookup-drop_names range a del apps,
      lookup-drop_names range b del apps,
      lookup-drop_names range a del update,
      lookup-drop_names range b del update,
    )
