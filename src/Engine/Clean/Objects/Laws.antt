-- ===== src/Engine/Clean/Objects/Laws.antt =====
-- Which keys are marked for removal, and which versions are recorded as used.
use baetyl.Base.{
  String, Bool, true, false, not, ◌&&◌, ◌||◌, Option, none, some, List, [], ◌∷◌, ◌≡◌, ◌∙◌, refl,
  foldl, any, all, arith, Option-cases, inl, inr, ◌==◌, string_eq, if◌then◌else◌,
}
use baetyl.Base.Dict
use baetyl.Base.Dict.{Dict, lookup-insert, lookup-nil}
use baetyl.Base.Range.{Range, any_order, all_order}
use baetyl.Keys.{make_key}
use baetyl.Spec.{Application, Configuration, VolumeMount}
use baetyl.Engine.Collide.{Apps, Names}
use baetyl.Engine.Clean.Jobs.{is_job}
use baetyl.Engine.Clean.Objects.{
  Kinds, Configs, Refers, refers_of, use_mount, use_service, use_app, get_used_object_cfgs,
  mark_key, mark_mount, mark_service, mark_app, mark_finished, get_del_object_cfgs,
}

abbrev pick : {A : Type 0} → Option A → Option A → Option A
pick none o = o
pick (some c) o = some c

-- A loop whose steps each set a key to a found value or leave it.
foldl-pick :
    {A V : Type 0} (k : String) (found : Option V) (m : A → Bool)
    (step : Dict String V → A → Dict String V)
    → ((d : Dict String V) (x : A)
        → Dict.lookup k (step d x)
          ≡ (if m x then pick found (Dict.lookup k d) else Dict.lookup k d))
    → (l : List A) (d : Dict String V)
    → Dict.lookup k (foldl step d l)
      ≡ (if any m l then pick found (Dict.lookup k d) else Dict.lookup k d)
foldl-pick k found m step h [] d = refl
foldl-pick k found m step h (x ∷ l) d =
    foldl-pick k found m step h l (step d x) ∙ ground (arith, h d x)

module _ (kinds : Kinds) (k : String) where
  -- The mount is cleaned automatically, and its configuration has the key.
  abbrev pub mentions_mount : Refers → VolumeMount → Bool
  mentions_mount refers vm = elim (Dict.lookup vm.name refers) [
    | none ↦ false
    | some r ↦
        vm.auto_clean
        && (k == make_key kinds.configuration r.name r.version
            && not (make_key kinds.configuration r.name r.version == ""))
  ]

  abbrev pub mentions : Application → Bool
  mentions app = any (λ svc. any (mentions_mount (refers_of app)) svc.volume_mounts) app.services

  module _ (objects : Configs) where
    lookup-mark_key :
        (dels : Configs) (key : String)
        → Dict.lookup k (mark_key kinds objects dels key) ≡ (
            if k == key && not (key == "")
            then pick (Dict.lookup k objects) (Dict.lookup k dels)
            else Dict.lookup k dels)
    unfolding mark_key
    lookup-mark_key dels key = elim (Option-cases (Dict.lookup key objects)) [
      | inl e ↦ ground arith
      | inr (cfg, e) ↦ ground (arith, lookup-insert k key cfg dels)
    ]

    lookup-mark_mount :
        (refers : Refers) (dels : Configs) (vm : VolumeMount)
        → Dict.lookup k (mark_mount kinds objects refers dels vm) ≡ (
            if mentions_mount refers vm
            then pick (Dict.lookup k objects) (Dict.lookup k dels)
            else Dict.lookup k dels)
    unfolding mark_mount
    lookup-mark_mount refers dels vm = elim (Option-cases (Dict.lookup vm.name refers)) [
      | inl e ↦ ground arith
      | inr (r, e) ↦
          ground (arith, lookup-mark_key dels (make_key kinds.configuration r.name r.version))
    ]

    lookup-mark_app :
        (dels : Configs) (app : Application)
        → Dict.lookup k (mark_app kinds objects dels app) ≡ (
            if mentions app
            then pick (Dict.lookup k objects) (Dict.lookup k dels)
            else Dict.lookup k dels)
    unfolding mark_app
    lookup-mark_app dels app =
        foldl-pick k (Dict.lookup k objects) _ (mark_service kinds objects (refers_of app))
          (λ d svc.
            foldl-pick k (Dict.lookup k objects) _ (mark_mount kinds objects (refers_of app))
              (lookup-mark_mount (refers_of app)) svc.volume_mounts d)
          app.services dels

    lookup-mark_finished :
        (finished : Names) (dels : Configs) (app : Application)
        → Dict.lookup k (mark_finished kinds objects finished dels app) ≡ (
            if Dict.has app.name finished && mentions app
            then pick (Dict.lookup k objects) (Dict.lookup k dels)
            else Dict.lookup k dels)
    unfolding mark_finished
    lookup-mark_finished finished dels app = ground (arith, lookup-mark_app dels app)

    -- Whatever the order of ranging, an object is marked for removal exactly if a mount
    -- that is cleaned automatically, of an obsolete application or of a finished job, has
    -- its key.
    pub get_del_object_cfgs_exact :
        (range : Range) (occupied obsolete : Apps) (finished : Names)
        → Dict.lookup k (get_del_object_cfgs kinds objects range occupied obsolete finished) ≡ (
            if any mentions (Dict.values obsolete)
              || any (λ app. Dict.has app.name finished && mentions app) (Dict.values occupied)
            then Dict.lookup k objects
            else none)
    unfolding get_del_object_cfgs
    get_del_object_cfgs_exact range occupied obsolete finished =
        let old = range.order Application (Dict.values obsolete) in
        let jobs = range.order Application (Dict.values occupied) in
        foldl-pick k (Dict.lookup k objects) _ (mark_finished kinds objects finished)
          (lookup-mark_finished finished) jobs (foldl (mark_app kinds objects) [] old)
        ∙ ground (
          arith,
          foldl-pick k (Dict.lookup k objects) mentions (mark_app kinds objects) lookup-mark_app old
              [],
          any_order range mentions (Dict.values obsolete),
          any_order range (λ app. Dict.has app.name finished && mentions app)
              (Dict.values occupied),
          lookup-nil {V = Configuration} k,
        )

-- A loop whose steps, where they agree on a name, set it to the version or leave it.
foldl_agree :
    {A : Type 0} (n v : String) (uses agrees : A → Bool)
    (step : Dict String String → A → Dict String String)
    → ((d : Dict String String) (x : A)
        → agrees x ≡ true
        → Dict.lookup n (step d x) ≡ (if uses x then some v else Dict.lookup n d))
    → (l : List A) (d : Dict String String) → all agrees l ≡ true
    → Dict.lookup n (foldl step d l) ≡ (if any uses l then some v else Dict.lookup n d)
foldl_agree n v uses agrees step h [] d a = refl
foldl_agree n v uses agrees step h (x ∷ l) d a =
    foldl_agree n v uses agrees step h l (step d x) (ground arith) ∙ ground (arith, h d x)

module _ (n v : String) where
  -- The mount is of the configuration of the name.
  abbrev pub uses_mount : Refers → VolumeMount → Bool
  uses_mount refers vm = elim (Dict.lookup vm.name refers) [ none ↦ false | some r ↦ n == r.name ]

  -- If the mount is of the configuration of the name, it is of the version.
  abbrev pub agrees_mount : Refers → VolumeMount → Bool
  agrees_mount refers vm = elim (Dict.lookup vm.name refers) [
    | none ↦ true
    | some r ↦ not (n == r.name) || r.version == v
  ]

  -- A finished job does not count.
  abbrev pub counts : Names → Application → Bool
  counts finished app = not (is_job app && Dict.has app.name finished)

  abbrev pub uses : Names → Application → Bool
  uses finished app =
      counts finished app
      && any (λ svc. any (uses_mount (refers_of app)) svc.volume_mounts) app.services

  abbrev pub agrees : Names → Application → Bool
  agrees finished app =
      not (counts finished app)
      || all (λ svc. all (agrees_mount (refers_of app)) svc.volume_mounts) app.services

  lookup-use_mount :
      (refers : Refers) (d : Dict String String) (vm : VolumeMount)
      → agrees_mount refers vm ≡ true
      → Dict.lookup n (use_mount refers d vm)
        ≡ (if uses_mount refers vm then some v else Dict.lookup n d)
  unfolding use_mount
  lookup-use_mount refers d vm a = elim (Option-cases (Dict.lookup vm.name refers)) [
    | inl e ↦ ground arith
    | inr (r, e) ↦ ground (arith, lookup-insert n r.name r.version d)
  ]

  lookup-use_app :
      (finished : Names) (d : Dict String String) (app : Application)
      → agrees finished app ≡ true
      → Dict.lookup n (use_app finished d app)
        ≡ (if uses finished app then some v else Dict.lookup n d)
  unfolding use_app
  lookup-use_app finished d app a = ground (
    arith,
    foldl_agree n v _ _ (use_service (refers_of app))
        (λ d svc b.
          foldl_agree n v _ _ (use_mount (refers_of app)) (lookup-use_mount (refers_of app))
            svc.volume_mounts d b)
        app.services d,
  )

  -- If all counted mounts of a configuration are of one version, that version is recorded exactly if one of them is there.
  pub get_used_object_cfgs_exact :
      (range : Range) (apps : Apps) (finished : Names)
      → all (agrees finished) (Dict.values apps) ≡ true
      → Dict.lookup n (get_used_object_cfgs range apps finished)
        ≡ (if any (uses finished) (Dict.values apps) then some v else none)
  unfolding get_used_object_cfgs
  get_used_object_cfgs_exact range apps finished a =
      let l = range.order Application (Dict.values apps) in
      foldl_agree n v (uses finished) (agrees finished) (use_app finished) (lookup-use_app finished)
        l [] (all_order range (agrees finished) (Dict.values apps) ∙ a)
      ∙ ground
          (arith, any_order range (uses finished) (Dict.values apps), lookup-nil {V = String} n)
