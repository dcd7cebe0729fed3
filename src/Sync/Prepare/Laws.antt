-- ===== src/Sync/Prepare/Laws.antt =====
-- A prepared application has absolute paths, and no volume that mounts a fetched object as a configuration.
use baetyl.Base.{
  String, true, false, none, some, List, [], ◌∷◌, map, ◌≡◌, inl, inr, refl, ◌⊎◌, sym, ap, ◌∙◌,
  subst, arith, In, Option-cases, Bool-cases, string_eq,
}
use baetyl.Base.Dict
use baetyl.Base.Dict.{Dict}
use baetyl.Message.{done}
use baetyl.Message.Laws.{Try-cases, done-inj}
use baetyl.Spec.{Application, Configuration, ObjectReference, Volume}
use baetyl.Sync.Prepare.{
  Lib, has_object, prepare_path, prepare_config, prepare_volume, prepare_volumes, prepare_app,
}

module _ (lib : Lib) where
  -- What the platform relies on: a path of the host is absolute, and no volume mounts a configuration
  -- with objects that was fetched.
  pub record Ready (cfgs : Dict String Configuration) (v : Volume) : Type 0 where
    pub absolute : (path : String) → v.host_path ≡ some path → lib.is_abs path ≡ true
    pub no_object :
        (ref : ObjectReference) (cfg : Configuration)
        → v.config ≡ some ref
        → Dict.lookup ref.name cfgs ≡ some cfg
        → has_object lib cfg ≡ false

  -- A volume has a path of the host or a configuration, not both.
  abbrev pub OneSource : Volume → Type 0
  OneSource v = (v.host_path ≡ none) ⊎ (v.config ≡ none)

  -- A path joined to an absolute one is absolute.
  abbrev pub Joins : Type 0
  Joins = (base path : String) → lib.is_abs base ≡ true → lib.is_abs (lib.join base path) ≡ true

  of_config :
      (cfgs : Dict String Configuration) (v : Volume) (ref : ObjectReference)
      → v.host_path ≡ none
      → v.config ≡ some ref
      → prepare_volume lib cfgs v ≡ done (prepare_config lib (Dict.lookup ref.name cfgs) v)
  unfolding prepare_volume
  of_config cfgs v ref p q = ground arith

  mounted :
      (cfg : Configuration) (v : Volume)
      → has_object lib cfg ≡ true
      → prepare_config lib (some cfg) v ≡ record v {
        config = none;
        host_path = some (lib.join (lib.join lib.object_path cfg.name) cfg.version);
      }
  unfolding prepare_config
  mounted cfg v b = ground arith

  left_alone :
      (cfg : Configuration) (v : Volume)
      → has_object lib cfg ≡ false
      → prepare_config lib (some cfg) v ≡ v
  unfolding prepare_config
  left_alone cfg v b = ground arith

  prepare_config-Ready :
      (cfgs : Dict String Configuration) (ref : ObjectReference) (cfg : Configuration) (v : Volume)
      → Joins
      → lib.is_abs lib.object_path ≡ true
      → v.host_path ≡ none
      → v.config ≡ some ref
      → Dict.lookup ref.name cfgs ≡ some cfg
      → let w = prepare_config lib (some cfg) v in Ready cfgs w × (w.name ≡ v.name)
  unfolding prepare_config
  prepare_config-Ready cfgs ref cfg v joins object p q r = elim (Bool-cases (has_object lib cfg)) [
    | inl b ↦
        let j =
          joins (lib.join lib.object_path cfg.name) cfg.version
            (joins lib.object_path cfg.name object) in
        subst (λ w. Ready cfgs w × (w.name ≡ v.name)) (sym (mounted cfg v b))
          (
            record { absolute = λ path e. ground arith; no_object = λ ref cfg f g. ground arith },
            refl,
          )
    | inr b ↦
        subst (λ w. Ready cfgs w × (w.name ≡ v.name)) (sym (left_alone cfg v b))
          (
            record { absolute = λ path e. ground arith; no_object = λ ref' cfg' f g. ground arith },
            refl,
          )
  ]

  prepare_volume-Ready :
      (cfgs : Dict String Configuration) (v v' : Volume)
      → Joins
      → lib.is_abs lib.host_path ≡ true
      → lib.is_abs lib.object_path ≡ true
      → OneSource v
      → prepare_volume lib cfgs v ≡ done v'
      → Ready cfgs v' × (v'.name ≡ v.name)
  unfolding prepare_volume prepare_path prepare_config
  prepare_volume-Ready cfgs v v' joins host object one h = elim (Option-cases v.host_path) [
    | inr (path, p) ↦
        let j = joins lib.host_path (lib.join "/" path) host in
        (
          record { absolute = λ x e. ground arith; no_object = λ ref cfg f g. ground arith },
          ground arith,
        )
    | inl p ↦ elim (Option-cases v.config) [
      | inl q ↦ (
        record { absolute = λ x e. ground arith; no_object = λ ref cfg f g. ground arith },
        ground arith,
      )
      | inr (ref, q) ↦
          let same : prepare_config lib (Dict.lookup ref.name cfgs) v ≡ v' =
            done-inj (sym (of_config cfgs v ref p q) ∙ h) in
          elim (Option-cases (Dict.lookup ref.name cfgs)) [
            | inl r ↦
                let e : v ≡ v' = sym (ap (λ c. prepare_config lib c v) r) ∙ same in
                subst (λ w. Ready cfgs w × (w.name ≡ v.name)) e
                  (
                    record {
                      absolute = λ x e. ground arith;
                      no_object = λ ref cfg f g. ground arith;
                    },
                    refl,
                  )
            | inr (cfg, r) ↦
                let e = sym (ap (λ c. prepare_config lib c v) r) ∙ same in
                subst (λ w. Ready cfgs w × (w.name ≡ v.name)) e
                  (prepare_config-Ready cfgs ref cfg v joins object p q r)
          ]
    ]
  ]

  prepare_volumes-Ready :
      (cfgs : Dict String Configuration) (vs vs' : List Volume)
      → Joins
      → lib.is_abs lib.host_path ≡ true
      → lib.is_abs lib.object_path ≡ true
      → ((v : Volume) → In v vs → OneSource v)
      → prepare_volumes lib cfgs vs ≡ done vs'
      → ((v : Volume) → In v vs' → Ready cfgs v)
        × (map (λ (v : Volume). v.name) vs' ≡ map (λ (v : Volume). v.name) vs)
  unfolding prepare_volumes
  prepare_volumes-Ready cfgs [] vs' joins host object one h =
      let e : vs' ≡ [] = ground arith in
      subst (λ l. ((v : Volume) → In v l → Ready cfgs v) × (map (λ (v : Volume). v.name) l ≡ []))
        (sym e) (λ v i. absurd i, refl)
  prepare_volumes-Ready cfgs (v ∷ vs) vs' joins host object one h =
      elim (Try-cases (prepare_volume lib cfgs v)) [
        | inl (e, p) ↦ ground arith
        | inr (w, p) ↦ elim (Try-cases (prepare_volumes lib cfgs vs)) [
          | inl (e, q) ↦ ground arith
          | inr (ws, q) ↦
              let e : w ∷ ws ≡ vs' = ground arith in
              let (ready, name) =
                prepare_volume-Ready cfgs v w joins host object (one v (inl refl)) p in
              let (all_ready, names) =
                prepare_volumes-Ready cfgs vs ws joins host object (λ x i. one x (inr i)) q in
              subst
                (λ l.
                  ((x : Volume) → In x l → Ready cfgs x)
                  × (map (λ (x : Volume). x.name) l ≡ map (λ (x : Volume). x.name) (v ∷ vs)))
                e
                (
                  λ x i. elim i [
                    | inl s ↦ subst (Ready cfgs) (sym s) ready
                    | inr j ↦ all_ready x j
                  ],
                  rw (name, names) refl,
                )
        ]
      ]

  -- If joining to an absolute path gives an absolute path, the two paths of the configuration
  -- are absolute and no volume of the application has both a path of the host and a
  -- configuration, then each volume of the prepared application has an absolute path of the
  -- host or none, and none mounts a fetched configuration with objects; the names of the
  -- volumes are the same, in the same order.
  pub prepare_app-Ready :
      (app app' : Application) (cfgs : Dict String Configuration)
      → Joins
      → lib.is_abs lib.host_path ≡ true
      → lib.is_abs lib.object_path ≡ true
      → ((v : Volume) → In v app.volumes → OneSource v)
      → prepare_app lib app cfgs ≡ done app'
      → ((v : Volume) → In v app'.volumes → Ready cfgs v)
        × (map (λ (v : Volume). v.name) app'.volumes ≡ map (λ (v : Volume). v.name) app.volumes)
  unfolding prepare_app
  prepare_app-Ready app app' cfgs joins host object one h =
      elim (Try-cases (prepare_volumes lib cfgs app.volumes)) [
        | inl (e, p) ↦ ground arith
        | inr (vs, p) ↦
            let e : vs ≡ app'.volumes = ground arith in
            subst
              (λ l.
                ((v : Volume) → In v l → Ready cfgs v)
                × (map (λ (v : Volume). v.name) l ≡ map (λ (v : Volume). v.name) app.volumes))
              e (prepare_volumes-Ready cfgs app.volumes vs joins host object one p)
      ]
