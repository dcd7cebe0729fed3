-- ===== src/Engine/Clean/Recycle/Laws.antt =====
-- What recycling removes.
use mathlib.Core.Option.{some-injective}
use baetyl.Base.{
  String, Bool, true, false, not, ◌&&◌, ◌||◌, Option, none, some, List, [], ◌∷◌, ◌≡◌, ◌↔◌, ◌⊎◌, ◌∙◌,
  inl, inr, refl, sym, ap, subst, foldl, any, all, arith, In, In-collected, Bool-cases,
  Option-cases, ◌==◌, string_eq,
}
use baetyl.Base.Dict
use baetyl.Base.Dict.{Dict, lookup-insert, has-lookup, In_of_lookup, has_of_In, lookup-nil}
use baetyl.Base.Range.{Range}
use baetyl.Keys.{make_key}
use baetyl.Spec.{AppInfo, Application, Configuration, Volume}
use baetyl.Engine.Collide.{Names}
use baetyl.Engine.Clean.Objects.{Kinds, Configs, is_object_config}
use baetyl.Engine.Clean.Storage.{NodeView, Effect, delete_config, remove_all}
use baetyl.Engine.Clean.Recycle.{
  use_volume, used_by, add_unused, all_infos, recycle_config, recycle,
}

module _ (kinds : Kinds) where
  -- The volume is of the configuration that has the key.
  abbrev pub takes : String → Volume → Bool
  takes k v = elim v.config [
    | none ↦ false
    | some c ↦ k == make_key kinds.configuration c.name c.version
  ]

  has-use_volumes :
      (k : String) (l : List Volume) (used : Names)
      → Dict.has k (foldl (use_volume kinds) used l) ≡ (any (takes k) l || Dict.has k used)
  unfolding use_volume
  has-use_volumes k [] used = refl
  has-use_volumes k (v ∷ l) used = elim (Option-cases v.config) [
    | inl e ↦ has-use_volumes k l (use_volume kinds used v) ∙ ground arith
    | inr (c, e) ↦
        let key = make_key kinds.configuration c.name c.version in
        has-use_volumes k l (use_volume kinds used v)
        ∙ ground (
          arith,
          has-lookup k (Dict.insert key tt used),
          has-lookup k used,
          lookup-insert k key tt used,
        )
  ]

  -- The application that the store gives for a listed one has a volume with the key.
  abbrev pub takes_app : (String → Option Application) → String → AppInfo → Bool
  takes_app get k info = elim (get (make_key kinds.application info.name info.version)) [
    | none ↦ false
    | some app ↦ any (takes k) app.volumes
  ]

  abbrev pub is_stored : (String → Option Application) → AppInfo → Bool
  is_stored get info = elim (get (make_key kinds.application info.name info.version)) [
    | none ↦ false
    | some _ ↦ true
  ]

  has-used_by :
      (get : String → Option Application) (k : String) (l : List AppInfo) (used result : Names)
      → used_by kinds get used l ≡ some result
      → Dict.has k result ≡ (any (takes_app get k) l || Dict.has k used)
  unfolding used_by
  has-used_by get k [] used result h = ground arith
  has-used_by get k (info ∷ l) used result h =
      elim (Option-cases (get (make_key kinds.application info.name info.version))) [
        | inl e ↦ ground arith
        | inr (app, e) ↦
            has-used_by get k l (foldl (use_volume kinds) used app.volumes) result (ground arith)
            ∙ ground (arith, has-use_volumes k app.volumes used)
      ]

  -- The last object configuration of a key, unless the key is used.
  has-add_unused :
      (k : String) (used : Names) (l : List Configuration) (del : Configs)
      → Dict.has k (foldl (add_unused kinds used) del l) ≡ (
          any
            (λ c.
              is_object_config kinds c
              && (k == make_key kinds.configuration c.name c.version && not (Dict.has k used)))
            l
          || Dict.has k del)
  unfolding add_unused
  has-add_unused k used [] del = refl
  has-add_unused k used (c ∷ l) del =
      let key = make_key kinds.configuration c.name c.version in
      has-add_unused k used l (add_unused kinds used del c)
      ∙ ground
          (arith, has-lookup k (Dict.insert key c del), has-lookup k del, lookup-insert k key c del)

  used_by_total :
      (get : String → Option Application) (l : List AppInfo) (used : Names)
      → all (is_stored get) l ≡ true
      → (result : Names) × (used_by kinds get used l ≡ some result)
  unfolding used_by
  used_by_total get [] used h = (used, refl)
  used_by_total get (info ∷ l) used h =
      elim (Option-cases (get (make_key kinds.application info.name info.version))) [
        | inl e ↦ absurd (ground arith)
        | inr (app, e) ↦
            rw (e, used_by)
              (used_by_total get l (foldl (use_volume kinds) used app.volumes) (ground arith))
      ]

  used_by_fails :
      (get : String → Option Application) (l : List AppInfo) (used : Names)
      → all (is_stored get) l ≡ false
      → used_by kinds get used l ≡ none
  unfolding used_by
  used_by_fails get [] used h = cc
  used_by_fails get (info ∷ l) used h =
      elim (Option-cases (get (make_key kinds.application info.name info.version))) [
        | inl e ↦ ground arith
        | inr (app, e) ↦
            ground (arith, used_by_fails get l (foldl (use_volume kinds) used app.volumes))
      ]

  -- What stands in `del` under a key.
  record Unused (used : Names) (configs : List Configuration) (k : String) (c : Configuration)
      : Type 0 where
    pub listed : In c configs
    pub has_object : is_object_config kinds c ≡ true
    pub at_key : k ≡ make_key kinds.configuration c.name c.version

  add_unused_sound :
      (used : Names) (k : String) (c : Configuration) (l : List Configuration) (del : Configs)
      → Dict.lookup k (foldl (add_unused kinds used) del l) ≡ some c
      → Unused used l k c ⊎ (Dict.lookup k del ≡ some c)
  unfolding add_unused
  add_unused_sound used k c [] del h = inr h
  add_unused_sound used k c (x ∷ l) del h =
      elim (add_unused_sound used k c l (add_unused kinds used del x) h) [
        | inl o ↦
            inl (record { listed = inr o.listed; has_object = o.has_object; at_key = o.at_key })
        | inr e ↦
            elim (Bool-cases (is_object_config kinds x && (not (Dict.has key used) && k == key))) [
              | inl t ↦
                  let same : c ≡ x = ground (arith, lookup-insert k key x del) in
                  inl (record {
                    listed = inl same;
                    has_object = rw same (ground arith);
                    at_key = rw same (ground arith);
                  })
              | inr t ↦ inr (ground (arith, lookup-insert k key x del))
            ]
      ]
    where
      key : String
      key = make_key kinds.configuration x.name x.version

abbrev effects_of : (String → String) → String × Configuration → List Effect
effects_of config_dir (key, cfg) = delete_config key ∷ remove_all (config_dir cfg.name) ∷ []

In-effects :
    (config_dir : String → String) (range : Range) (e : Effect) (del : Configs)
    → In e (foldl (recycle_config config_dir) [] (range.order (String × Configuration) del))
      ↔ ((x : String × Configuration) × In x del × In e (effects_of config_dir x))
unfolding recycle_config
In-effects config_dir range e del =
    let all_of =
      In-collected (effects_of config_dir) (recycle_config config_dir) (λ done x. refl) e
        (range.order (String × Configuration) del) [] in
    (
      λ h. elim (all_of.0 h) [
        | inl m ↦ absurd m
        | inr (x, m, p) ↦ (x, (range.in_order _ x del).0 m, p)
      ],
      λ (x, m, p). all_of.1 (inr (x, (range.in_order _ x del).1 m, p)),
    )

has_of_effect :
    (config_dir : String → String) (k : String) (del : Configs) (x : String × Configuration)
    → In x del
    → In (delete_config k) (effects_of config_dir x)
    → Dict.has k del ≡ true
has_of_effect config_dir k del (key, cfg) m p =
    ground (arith, has_of_In key cfg del m, has-lookup key del)

In-delete_config :
    (config_dir : String → String) (range : Range) (k : String) (del : Configs)
    → In
        (delete_config k)
        (foldl (recycle_config config_dir) [] (range.order (String × Configuration) del))
      ↔ (Dict.has k del ≡ true)
In-delete_config config_dir range k del = (
  λ h.
      let (x, m, p) = (In-effects config_dir range (delete_config k) del).0 h in
      has_of_effect config_dir k del x m p,
  λ h. elim (Option-cases (Dict.lookup k del)) [
    | inl e ↦ absurd (ground (arith, has-lookup k del))
    | inr (c, e) ↦
        (In-effects config_dir range (delete_config k) del).1
          ((k, c), In_of_lookup k c del e, inl refl)
  ],
)

module _ (kinds : Kinds) (range : Range) (config_dir : String → String)
    (get : String → Option Application) (node : NodeView) (configs : List Configuration) where
  -- Some stored object has the key, and no listed application takes it.
  abbrev pub is_unused : String → Bool
  is_unused k =
      any (λ c. is_object_config kinds c && k == make_key kinds.configuration c.name c.version)
        configs
      && not (any (takes_app kinds get k) (all_infos node))

  abbrev run : Option (List Effect)
  run = recycle kinds range config_dir (some node) get (some configs)

  unused_test :
      (used : Names) (k : String) (l : List Configuration)
      → any
          (λ c.
            is_object_config kinds c
            && (k == make_key kinds.configuration c.name c.version && not (Dict.has k used)))
          l
        ≡ (any
              (λ c. is_object_config kinds c && k == make_key kinds.configuration c.name c.version)
              l
            && not (Dict.has k used))
  unused_test used k [] = ground arith
  unused_test used k (c ∷ l) = ground (arith, unused_test used k l)

  recycled :
      (used : Names)
      → used_by kinds get [] (all_infos node) ≡ some used
      → let del = foldl (add_unused kinds used) [] configs in
        (run
          ≡ some (foldl (recycle_config config_dir) [] (range.order (String × Configuration) del)))
        × ((k : String) → Dict.has k del ≡ is_unused k)
  unfolding recycle Dict.has
  recycled used e = (
    ground arith,
    λ k. ground (
      arith,
      has-add_unused kinds k used configs [],
      unused_test used k configs,
      has-used_by kinds get k (all_infos node) [] used e,
    ),
  )

  -- Recycling fails exactly if the store lacks an application that the node lists. Else a key is
  -- removed exactly if a stored object has it and no listed application takes it.
  pub recycle_exact :
      (all (is_stored kinds get) (all_infos node) ≡ false → run ≡ none)
      × (all (is_stored kinds get) (all_infos node) ≡ true
          → (effects : List Effect) × (run ≡ some effects)
            × ((k : String) → In (delete_config k) effects ↔ (is_unused k ≡ true)))
  unfolding recycle
  recycle_exact = (
    λ missing. ground (arith, used_by_fails kinds get (all_infos node) [] missing),
    λ present.
        let (used, e) = used_by_total kinds get (all_infos node) [] present in
        let (ran, test) = recycled used e in
        let del = foldl (add_unused kinds used) [] configs in
        let done =
          foldl (recycle_config config_dir) [] (range.order (String × Configuration) del) in
        (
          done,
          ran,
          λ k.
              subst (λ b. In (delete_config k) done ↔ (b ≡ true)) (test k)
                (In-delete_config config_dir range k del),
        ),
  )

  removed_dir :
      (used : Names) (k : String) (c : Configuration)
      → let del = foldl (add_unused kinds used) [] configs in
        Dict.has k del ≡ true
        → ((d : Configuration)
            → In d configs
            → k ≡ make_key kinds.configuration d.name d.version
            → d.name ≡ c.name)
        → In
            (remove_all (config_dir c.name))
            (foldl (recycle_config config_dir) [] (range.order (String × Configuration) del))
  removed_dir used k c there same =
      let del = foldl (add_unused kinds used) [] configs in
      elim (Option-cases (Dict.lookup k del)) [
        | inl e ↦ absurd (ground (arith, has-lookup k del))
        | inr (d, e) ↦ elim (add_unused_sound kinds used k d configs [] e) [
          | inl o ↦ (In-effects config_dir range (remove_all (config_dir c.name)) del).1 (
            (k, d),
            In_of_lookup k d del e,
            inr (inl (ap (λ n. remove_all (config_dir n)) (sym (same d o.listed o.at_key)))),
          )
          | inr f ↦ absurd (ground (arith, lookup-nil {V = Configuration} k))
        ]
      ]

  -- If an unused object is recycled, and all objects of its key have its name, then the directory
  -- of its name is removed as a whole, also where a version of that name is used and kept.
  pub recycle_shared_dir :
      (c : Configuration) (effects : List Effect)
      → run ≡ some effects
      → is_unused (make_key kinds.configuration c.name c.version) ≡ true
      → ((d : Configuration)
          → In d configs
          → make_key kinds.configuration c.name c.version
            ≡ make_key kinds.configuration d.name d.version
          → d.name ≡ c.name)
      → In (remove_all (config_dir c.name)) effects
  unfolding recycle
  recycle_shared_dir c effects ran unused same =
      elim (Bool-cases (all (is_stored kinds get) (all_infos node))) [
        | inl present ↦
            let (used, e) = used_by_total kinds get (all_infos node) [] present in
            let (ran', test) = recycled used e in
            let k = make_key kinds.configuration c.name c.version in
            let found = removed_dir used k c (test k ∙ unused) same in
            subst (In (remove_all (config_dir c.name))) (some-injective _ _ (sym ran' ∙ ran)) found
        | inr missing ↦ absurd (ground (arith, recycle_exact.0 missing))
      ]
