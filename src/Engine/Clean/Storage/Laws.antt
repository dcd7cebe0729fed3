-- ===== src/Engine/Clean/Storage/Laws.antt =====
-- What the cleaning removes, and what it leaves alone.
use baetyl.Base.{
  String, Bool, true, not, ◌&&◌, ◌||◌, none, some, List, [], ◌∷◌, ◌++◌, ◌≡◌, ◌≢◌, ◌↔◌, ◌⊎◌, inl,
  inr, refl, foldl, foldl-reaches, any, all, arith, In, In-collected, Bool-cases, Option-cases,
  length, ◌==◌, string_eq, if◌then◌else◌,
}
use baetyl.Base.Dict
use baetyl.Base.Dict.{Dict, lookup-insert, lookup-delete, has-lookup, lookup-nil, In_of_lookup}
use baetyl.Base.Range.{Range}
use baetyl.Keys.{make_key}
use baetyl.Spec.{Application, Configuration}
use baetyl.Engine.Collide.{Apps, Names}
use baetyl.Engine.Clean.Objects.{
  Kinds, Configs, is_object_config, get_used_object_cfgs, get_del_object_cfgs,
}
use baetyl.Engine.Clean.Objects.Laws.{
  mentions, uses, agrees, get_used_object_cfgs_exact, get_del_object_cfgs_exact,
}
use baetyl.Engine.Clean.Storage.{
  NodeView, add_object, sorted, finished_of, drop_used, Effect, delete_config, remove_all, Disk,
  only, remove_config, Cleaned, unused_objects, to_delete, clean_object_storage,
}

module _ (kinds : Kinds) where
  -- A configuration with an object, stored under a key of its own.
  pub record IsObject (configs : List Configuration) (k : String) (c : Configuration) : Type 0 where
    pub listed : In c configs
    pub has_object : is_object_config kinds c ≡ true
    pub at_key : k ≡ make_key kinds.configuration c.name c.version
    pub named : k ≢ ""

  lookup-add_object :
      (k : String) (objects : Configs) (cfg : Configuration)
      → let key = make_key kinds.configuration cfg.name cfg.version in
        Dict.lookup k (add_object kinds objects cfg) ≡ (
          if is_object_config kinds cfg && (not (key == "") && k == key)
          then some cfg
          else Dict.lookup k objects)
  unfolding add_object
  lookup-add_object k objects cfg =
      ground
        (arith, lookup-insert k (make_key kinds.configuration cfg.name cfg.version) cfg objects)

  added :
      (k : String) (c x : Configuration) (l : List Configuration) (d : Configs)
      → Dict.lookup k (add_object kinds d x) ≡ some c
      → IsObject (x ∷ l) k c ⊎ (Dict.lookup k d ≡ some c)
  added k c x l d h =
      elim (Bool-cases (is_object_config kinds x && (not (key == "") && k == key))) [
        | inl e ↦
            let same : c ≡ x = ground (arith, lookup-add_object k d x) in
            inl (record {
              listed = inl same;
              has_object = rw same (ground arith);
              at_key = rw same (ground arith);
              named = ground arith;
            })
        | inr e ↦ inr (ground (arith, lookup-add_object k d x))
      ]
    where
      key : String
      key = make_key kinds.configuration x.name x.version

  objects_sound :
      (k : String) (c : Configuration) (l : List Configuration) (d : Configs)
      → Dict.lookup k (foldl (add_object kinds) d l) ≡ some c
      → IsObject l k c ⊎ (Dict.lookup k d ≡ some c)
  objects_sound k c [] d h = inr h
  objects_sound k c (x ∷ l) d h = elim (objects_sound k c l (add_object kinds d x) h) [
    | inl o ↦ inl (record {
      listed = inr o.listed;
      has_object = o.has_object;
      at_key = o.at_key;
      named = o.named;
    })
    | inr e ↦ added k c x l d e
  ]

  -- The loop over the used versions only removes, and removes what is used.
  drop_used_less :
      (k : String) (c : Configuration) (l : List (String × String)) (d : Configs)
      → Dict.lookup k (foldl (drop_used kinds) d l) ≡ some c
      → Dict.lookup k d ≡ some c
  unfolding drop_used
  drop_used_less k c [] d h = h
  drop_used_less k c ((n, v) ∷ l) d h = ground (
    arith,
    drop_used_less k c l (drop_used kinds d (n, v)) h,
    lookup-delete k (make_key kinds.configuration n v) d,
  )

  drop_used_gone :
      (n v : String) (l : List (String × String)) (d : Configs)
      → make_key kinds.configuration n v ≢ ""
      → In (n, v) l
      → Dict.lookup (make_key kinds.configuration n v) (foldl (drop_used kinds) d l) ≡ none
  unfolding drop_used
  drop_used_gone n v l d named m =
      let key = make_key kinds.configuration n v in
      foldl-reaches (λ (q : Configs). Dict.lookup key q ≡ none) (drop_used kinds) (n, v)
        (λ q. ground (arith, named, has-lookup key q, lookup-delete key key q))
        (λ q (n', v') h.
          ground (arith, h, lookup-delete key (make_key kinds.configuration n' v') q))
        l d m

  module _ (range : Range) where
    abbrev removed : List Configuration → Apps → Apps → Names → Configs
    removed configs occupied obsolete finished =
        get_del_object_cfgs kinds (unused_objects kinds range configs occupied finished) range
          occupied obsolete finished

    removed_safe :
        (n v : String) (configs : List Configuration) (occupied obsolete : Apps) (finished : Names)
        → make_key kinds.configuration n v ≢ ""
        → all (agrees n v finished) (Dict.values occupied) ≡ true
        → any (uses n v finished) (Dict.values occupied) ≡ true
        → Dict.lookup
            (make_key kinds.configuration n v)
            (removed configs occupied obsolete finished)
          ≡ none
    unfolding unused_objects
    removed_safe n v configs occupied obsolete finished named agreed used =
        let key = make_key kinds.configuration n v in
        let recorded = get_used_object_cfgs range occupied finished in
        let known : Dict.lookup n recorded ≡ some v =
          ground (arith, get_used_object_cfgs_exact n v range occupied finished agreed) in
        let gone =
          drop_used_gone n v (range.order (String × String) recorded)
            (foldl (add_object kinds) [] configs) named
            ((range.in_order _ _ _).1 (In_of_lookup n v recorded known)) in
        ground (
          arith,
          gone,
          get_del_object_cfgs_exact kinds key (unused_objects kinds range configs occupied finished)
              range occupied obsolete finished,
        )

    stored :
        (k : String) (c : Configuration) (configs : List Configuration) (occupied : Apps)
        (finished : Names)
        → Dict.lookup k (unused_objects kinds range configs occupied finished) ≡ some c
        → IsObject configs k c
    unfolding unused_objects
    stored k c configs occupied finished h =
        elim (objects_sound k c configs [] (
          drop_used_less k c
            (range.order (String × String) (get_used_object_cfgs range occupied finished))
            (foldl (add_object kinds) [] configs) h)) [
              | inl o ↦ o
              | inr e ↦ absurd (ground (arith, lookup-nil {V = Configuration} k))
            ]

    abbrev pub marked : String → Apps → Apps → Names → Bool
    marked k occupied obsolete finished =
        any (mentions kinds k) (Dict.values obsolete)
        || any (λ app. Dict.has app.name finished && mentions kinds k app) (Dict.values occupied)

    removed_only :
        (k : String) (c : Configuration) (configs : List Configuration) (occupied obsolete : Apps)
        (finished : Names)
        → Dict.lookup k (removed configs occupied obsolete finished) ≡ some c
        → IsObject configs k c × (marked k occupied obsolete finished ≡ true)
    removed_only k c configs occupied obsolete finished h =
        let exact =
          get_del_object_cfgs_exact kinds k (unused_objects kinds range configs occupied finished)
            range occupied obsolete finished in
        elim (Bool-cases (marked k occupied obsolete finished)) [
          | inl e ↦ (stored k c configs occupied finished (ground (arith, exact)), e)
          | inr e ↦ absurd (ground (arith, exact))
        ]

    -- A configuration whose key is not empty is not removed if a mount that counts takes
    -- its version, and every mount that counts and takes the configuration takes this
    -- version. The mounts of the stored applications that the node lists count, except
    -- those of finished jobs.
    pub to_delete_safe :
        (node : NodeView) (configs : List Configuration) (apps : List Application) (n v : String)
        → make_key kinds.configuration n v ≢ ""
        → all (agrees n v (finished_of range node apps)) (Dict.values (sorted node apps).0) ≡ true
        → any (uses n v (finished_of range node apps)) (Dict.values (sorted node apps).0) ≡ true
        → Dict.lookup (make_key kinds.configuration n v) (to_delete kinds range node configs apps)
          ≡ none
    unfolding to_delete
    to_delete_safe node configs apps n v named agreed used =
        removed_safe n v configs (sorted node apps).0 (sorted node apps).1
          (finished_of range node apps) named agreed used

    -- Whatever the report, the desire and the store are: a configuration that is removed is a
    -- stored one with an object, under its key, and a mount that is cleaned automatically, of an
    -- obsolete application or of a finished job, refers to it.
    pub to_delete_only :
        (node : NodeView) (configs : List Configuration) (apps : List Application) (k : String)
        (c : Configuration)
        → Dict.lookup k (to_delete kinds range node configs apps) ≡ some c
        → IsObject configs k c
          × (marked k (sorted node apps).0 (sorted node apps).1 (finished_of range node apps)
              ≡ true)
    unfolding to_delete
    to_delete_only node configs apps k c h =
        removed_only k c configs (sorted node apps).0 (sorted node apps).1
          (finished_of range node apps) h

-- The effects of the removal of one configuration.
abbrev pub effects_of : Disk → String × Configuration → List Effect
effects_of disk (key, cfg) = elim (disk.read_dir (disk.config_dir cfg.name)) [
  | none ↦ delete_config key ∷ []
  | some subs ↦
      delete_config key
      ∷ remove_all (disk.version_dir cfg.name cfg.version)
      ∷ (if only cfg.version subs then remove_all (disk.config_dir cfg.name) ∷ [] else [])
]

remove_config_lem :
    (disk : Disk) (done : List Effect) (x : String × Configuration)
    → remove_config disk done x ≡ done ++ effects_of disk x
unfolding remove_config
remove_config_lem disk done (key, cfg) = ground arith

-- Whatever the order of ranging: if the node and the configurations can be read, the cleaning
-- succeeds, it counts the removed configurations, and its effects are those of each of them.
pub clean_object_storage_effects :
    (kinds : Kinds) (range : Range) (disk : Disk) (node : NodeView) (configs : List Configuration)
    (apps : List Application)
    → let dels = to_delete kinds range node configs apps in
      (done : Cleaned) × (clean_object_storage kinds range disk (some node) (some configs) apps
        ≡ some done)
      × (done.count ≡ length dels)
      × ((e : Effect)
          → In e done.effects
            ↔ ((x : String × Configuration) × In x dels × In e (effects_of disk x)))
unfolding clean_object_storage
clean_object_storage_effects kinds range disk node configs apps =
    let dels = to_delete kinds range node configs apps in
    let ranged = range.order (String × Configuration) dels in
    let all_of = λ (e : Effect).
      In-collected (effects_of disk) (remove_config disk) (remove_config_lem disk) e ranged [] in
    (
      record { count = length dels; effects = foldl (remove_config disk) [] ranged },
      refl,
      refl,
      λ e. (
        λ h. elim ((all_of e).0 h) [
          | inl m ↦ absurd m
          | inr (x, m, p) ↦ (x, (range.in_order _ x dels).0 m, p)
        ],
        λ (x, m, p). (all_of e).1 (inr (x, (range.in_order _ x dels).1 m, p)),
      ),
    )

only-eq : (version : String) (subs : List String) → only version subs ≡ true → subs ≡ version ∷ []
only-eq version [] h = cc
only-eq version (sub ∷ []) h = ground arith
only-eq version (sub ∷ other ∷ subs) h = cc

-- The cleaning removes the whole directory of a configuration only where it holds the one version
-- that is removed, if version directories are no directories of configurations.
pub effects_of_keep_versions :
    (disk : Disk) (key : String) (cfg : Configuration) (n : String)
    → disk.version_dir cfg.name cfg.version ≢ disk.config_dir n
    → In (remove_all (disk.config_dir n)) (effects_of disk (key, cfg))
    → (disk.config_dir n ≡ disk.config_dir cfg.name)
      × (disk.read_dir (disk.config_dir n) ≡ some (cfg.version ∷ []))
effects_of_keep_versions disk key cfg n apart h =
    elim (Option-cases (disk.read_dir (disk.config_dir cfg.name))) [
      | inl e ↦ absurd (ground arith)
      | inr (subs, e) ↦ ground (arith, apart, only-eq cfg.version subs)
    ]
