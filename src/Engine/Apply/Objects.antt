-- ===== src/Engine/Apply/Objects.antt =====
-- The objects that are gathered from the store for the volumes of an application.
use baetyl.Base.{
  String, none, some, List, [], ◌∷◌, ◌≡◌, ◌⊎◌, inl, inr, refl, sym, ap, ◌∙◌, subst, arith, In,
  string_eq, Option-cases,
}
use baetyl.Base.Dict
use baetyl.Base.Dict.{Dict, lookup-insert, lookup-nil}
use baetyl.Keys.{make_key}
use baetyl.Message.{Try, done, failed}
use baetyl.Message.Laws.{done-inj}
use baetyl.Spec.{Configuration, ObjectReference, Secret, Volume}
use baetyl.Sync.Desire.{Store}
use baetyl.Engine.Apply.{
  Lib, Configs, Secrets, or_fail, store_get, get_object, gather_volume, gather,
}

pub through :
    {A B : Type 0} (first : Try A) (next : A → Try B) (b : B)
    → or_fail first next ≡ done b
    → (a : A) × (first ≡ done a) × (next a ≡ done b)
through (failed e) next b h = ground arith
through (done a) next b h = (a, refl, h)

-- A write keeps what has an entry, and adds one entry.
insert-has :
    {A : Type 0} (k j : String) (a b : A) (d : Dict String A)
    → Dict.lookup k d ≡ some b
    → (c : A) × (Dict.lookup k (Dict.insert j a d) ≡ some c)
insert-has k j a b d h = elim (string_eq.dec k j) [
  | yes e ↦ (a, ground (arith, lookup-insert k j a d))
  | no e ↦ (b, ground (arith, lookup-insert k j a d))
]

insert-from :
    {A : Type 0} (k j : String) (a b : A) (d : Dict String A)
    → Dict.lookup k (Dict.insert j a d) ≡ some b
    → (Dict.lookup k d ≡ some b) ⊎ ((k ≡ j) × (a ≡ b))
insert-from k j a b d h = elim (string_eq.dec k j) [
  | yes e ↦ inr (e, ground (arith, lookup-insert k j a d))
  | no e ↦ inl (ground (arith, lookup-insert k j a d))
]

insert-here :
    {A : Type 0} (k : String) (a : A) (d : Dict String A)
    → Dict.lookup k (Dict.insert k a d) ≡ some a
insert-here k a d = ground (arith, lookup-insert k k a d)

present_not_absent : {A : Type 0} {a : A} → some a ≡ none → ⊥
present_not_absent h = cc

module _ (lib : Lib) where
  get_object-found :
      {A : Type 0} (kind word : String) (ref : ObjectReference) (table : Dict String A) (a : A)
      → get_object lib kind word ref table ≡ done a
      → Dict.lookup (make_key kind ref.name ref.version) table ≡ some a
  unfolding get_object store_get
  get_object-found kind word ref table a h =
      elim (Option-cases (Dict.lookup (make_key kind ref.name ref.version) table)) [
        | inl p ↦ ground arith
        | inr (b, p) ↦ ground arith
      ]

  -- The volume mounts the configuration of the store, or the secret.
  abbrev pub MountsConfig : Store → Volume → Configuration → Type 0
  MountsConfig s v cfg =
      (ref : ObjectReference) × (v.config ≡ some ref)
      × (Dict.lookup (make_key lib.desire.kind_configuration ref.name ref.version) s.configs
          ≡ some cfg)

  abbrev pub MountsSecret : Store → Volume → Secret → Type 0
  MountsSecret s v x =
      (v.config ≡ none)
      × ((ref : ObjectReference) × (v.secret ≡ some ref)
          × (Dict.lookup (make_key lib.desire.kind_secret ref.name ref.version) s.secrets ≡ some x))

  -- What one volume adds.
  data Step (s : Store) (v : Volume) (acc acc' : Configs × Secrets) : Type 0 where
    adds_config :
        (cfg : Configuration)
        → MountsConfig s v cfg
        → acc' ≡ (Dict.insert cfg.name cfg acc.0, acc.1)
        → Step s v acc acc'
    adds_secret :
        (x : Secret)
        → MountsSecret s v x
        → acc' ≡ (acc.0, Dict.insert x.name x acc.1)
        → Step s v acc acc'
    adds_none : v.config ≡ none → v.secret ≡ none → acc' ≡ acc → Step s v acc acc'

  gather_volume-Step :
      (s : Store) (v : Volume) (acc acc' : Configs × Secrets)
      → gather_volume lib s v acc ≡ done acc'
      → Step s v acc acc'
  unfolding gather_volume
  gather_volume-Step s v acc acc' h = elim (Option-cases v.config) [
    | inr (ref, p) ↦
        let next : Configuration → Try (Configs × Secrets) =
          λ cfg. done (Dict.insert cfg.name cfg acc.0, acc.1) in
        let first = get_object lib lib.desire.kind_configuration "config" ref s.configs in
        let (cfg, q, r) = through first next acc' (ground arith) in
        adds_config cfg (ref, p, get_object-found _ _ ref s.configs cfg q) (sym (done-inj r))
    | inl p ↦ elim (Option-cases v.secret) [
      | inr (ref, q) ↦
          let next : Secret → Try (Configs × Secrets) =
            λ x. done (acc.0, Dict.insert x.name x acc.1) in
          let first = get_object lib lib.desire.kind_secret "secret" ref s.secrets in
          let (x, t, r) = through first next acc' (ground arith) in
          adds_secret x (p, (ref, q, get_object-found _ _ ref s.secrets x t)) (sym (done-inj r))
      | inl q ↦ adds_none p q (done-inj (ground arith))
    ]
  ]

  abbrev HasKey : {A : Type 0} → String → Dict String A → Type 0
  HasKey {A = A} k d = (a : A) × (Dict.lookup k d ≡ some a)

  config_of-same :
      (s : Store) (v : Volume) (a b : Configuration)
      → MountsConfig s v a
      → MountsConfig s v b
      → a ≡ b
  config_of-same s v a b (r, p, q) (r', p', q') = cc

  secret_of-same :
      (s : Store) (v : Volume) (a b : Secret) → MountsSecret s v a → MountsSecret s v b → a ≡ b
  secret_of-same s v a b (n, (r, p, q)) (n', (r', p', q')) = cc

  -- One step, seen from a key of the configurations, and of the secrets.
  record StepKeys (s : Store) (v : Volume) (acc acc' : Configs × Secrets) : Type 0 where
    config_stays : (k : String) → HasKey k acc.0 → HasKey k acc'.0
    secret_stays : (k : String) → HasKey k acc.1 → HasKey k acc'.1
    config_from :
        (k : String) (c : Configuration)
        → Dict.lookup k acc'.0 ≡ some c
        → (Dict.lookup k acc.0 ≡ some c) ⊎ (MountsConfig s v c × (k ≡ c.name))
    secret_from :
        (k : String) (x : Secret)
        → Dict.lookup k acc'.1 ≡ some x
        → (Dict.lookup k acc.1 ≡ some x) ⊎ (MountsSecret s v x × (k ≡ x.name))
    config_here : (c : Configuration) → MountsConfig s v c → HasKey c.name acc'.0
    secret_here : (x : Secret) → MountsSecret s v x → HasKey x.name acc'.1

  Step-keys :
      (s : Store) (v : Volume) (acc acc' : Configs × Secrets)
      → Step s v acc acc'
      → StepKeys s v acc acc'
  Step-keys s v acc acc' (adds_config cfg m e) = subst (StepKeys s v acc) (sym e) (record {
    config_stays = λ k (a, p). insert-has k cfg.name cfg a acc.0 p;
    secret_stays = λ k h. h;
    config_from = λ k c p. elim (insert-from k cfg.name cfg c acc.0 p) [
      | inl q ↦ inl q
      | inr (q, r) ↦ inr (subst (MountsConfig s v) r m, q ∙ ap (λ (x : Configuration). x.name) r)
    ];
    secret_from = λ k x p. inl p;
    config_here = λ c n. (
      cfg,
      subst (λ (y : Configuration). Dict.lookup y.name (Dict.insert cfg.name cfg acc.0) ≡ some cfg)
          (config_of-same s v cfg c m n) (insert-here cfg.name cfg acc.0),
    );
    secret_here = λ x (none_there, n).
        (let (ref, p, q) = m in absurd (present_not_absent (sym p ∙ none_there)));
  })
  Step-keys s v acc acc' (adds_secret x (no_config, m) e) =
      subst (StepKeys s v acc) (sym e) (record {
        config_stays = λ k h. h;
        secret_stays = λ k (a, p). insert-has k x.name x a acc.1 p;
        config_from = λ k c p. inl p;
        secret_from = λ k y p. elim (insert-from k x.name x y acc.1 p) [
          | inl q ↦ inl q
          | inr (q, r) ↦
              inr (subst (MountsSecret s v) r (no_config, m), q ∙ ap (λ (z : Secret). z.name) r)
        ];
        config_here = λ c (ref, p, q). absurd (present_not_absent (sym p ∙ no_config));
        secret_here = λ y n. (
          x,
          subst (λ (z : Secret). Dict.lookup z.name (Dict.insert x.name x acc.1) ≡ some x)
              (secret_of-same s v x y (no_config, m) n) (insert-here x.name x acc.1),
        );
      })
  Step-keys s v acc acc' (adds_none p q e) = subst (StepKeys s v acc) (sym e) (record {
    config_stays = λ k h. h;
    secret_stays = λ k h. h;
    config_from = λ k c h. inl h;
    secret_from = λ k x h. inl h;
    config_here = λ c (ref, r, t). absurd (present_not_absent (sym r ∙ p));
    secret_here = λ x (n, (ref, r, t)). absurd (present_not_absent (sym r ∙ q));
  })

  -- The same of all volumes, where an entry that was there before is one of `acc`.
  record GatherKeys (s : Store) (vs : List Volume) (acc acc' : Configs × Secrets) : Type 0 where
    config_stays : (k : String) → HasKey k acc.0 → HasKey k acc'.0
    secret_stays : (k : String) → HasKey k acc.1 → HasKey k acc'.1
    config_from :
        (k : String) (c : Configuration)
        → Dict.lookup k acc'.0 ≡ some c
        → (Dict.lookup k acc.0 ≡ some c)
          ⊎ ((v : Volume) × In v vs × MountsConfig s v c × (k ≡ c.name))
    secret_from :
        (k : String) (x : Secret)
        → Dict.lookup k acc'.1 ≡ some x
        → (Dict.lookup k acc.1 ≡ some x)
          ⊎ ((v : Volume) × In v vs × MountsSecret s v x × (k ≡ x.name))
    config_here :
        (v : Volume) (c : Configuration) → In v vs → MountsConfig s v c → HasKey c.name acc'.0
    secret_here : (v : Volume) (x : Secret) → In v vs → MountsSecret s v x → HasKey x.name acc'.1

  gather-keys :
      (s : Store) (vs : List Volume) (acc acc' : Configs × Secrets)
      → gather lib s vs acc ≡ done acc'
      → GatherKeys s vs acc acc'
  unfolding gather
  gather-keys s [] acc acc' h = subst (GatherKeys s [] acc) (done-inj h) (record {
    config_stays = λ k p. p;
    secret_stays = λ k p. p;
    config_from = λ k c p. inl p;
    secret_from = λ k x p. inl p;
    config_here = λ v c m n. absurd m;
    secret_here = λ v x m n. absurd m;
  })
  gather-keys s (v ∷ vs) acc acc' h =
      let (mid, p, q) = through (gather_volume lib s v acc) (gather lib s vs) acc' h in
      let one = Step-keys s v acc mid (gather_volume-Step s v acc mid p) in
      let rest = gather-keys s vs mid acc' q in
      record {
        config_stays = λ k h. rest.config_stays k (one.config_stays k h);
        secret_stays = λ k h. rest.secret_stays k (one.secret_stays k h);
        config_from = λ k c h. elim (rest.config_from k c h) [
          | inr (w, m, n, e) ↦ inr (w, inr m, n, e)
          | inl r ↦ elim (one.config_from k c r) [
            | inl t ↦ inl t
            | inr (n, e) ↦ inr (v, inl refl, n, e)
          ]
        ];
        secret_from = λ k x h. elim (rest.secret_from k x h) [
          | inr (w, m, n, e) ↦ inr (w, inr m, n, e)
          | inl r ↦ elim (one.secret_from k x r) [
            | inl t ↦ inl t
            | inr (n, e) ↦ inr (v, inl refl, n, e)
          ]
        ];
        config_here = λ w c m n. elim m [
          | inl e ↦
              rest.config_stays c.name (one.config_here c (subst (λ y. MountsConfig s y c) e n))
          | inr i ↦ rest.config_here w c i n
        ];
        secret_here = λ w x m n. elim m [
          | inl e ↦
              rest.secret_stays x.name (one.secret_here x (subst (λ y. MountsSecret s y x) e n))
          | inr i ↦ rest.secret_here w x i n
        ];
      }

  -- What is gathered is what the volumes mount, as the store has it, and all of it has an entry.
  pub record Gathered (s : Store) (vs : List Volume) (cfgs : Configs) (secs : Secrets)
      : Type 0 where
    pub config_from :
        (k : String) (c : Configuration)
        → Dict.lookup k cfgs ≡ some c
        → (v : Volume) × In v vs × MountsConfig s v c × (k ≡ c.name)
    pub secret_from :
        (k : String) (x : Secret)
        → Dict.lookup k secs ≡ some x
        → (v : Volume) × In v vs × MountsSecret s v x × (k ≡ x.name)
    pub config_here :
        (v : Volume) (c : Configuration)
        → In v vs
        → MountsConfig s v c
        → (d : Configuration) × (Dict.lookup c.name cfgs ≡ some d)
    pub secret_here :
        (v : Volume) (x : Secret)
        → In v vs
        → MountsSecret s v x
        → (y : Secret) × (Dict.lookup x.name secs ≡ some y)

  pub gather-Gathered :
      (s : Store) (vs : List Volume) (cfgs : Configs) (secs : Secrets)
      → gather lib s vs ([], []) ≡ done (cfgs, secs)
      → Gathered s vs cfgs secs
  gather-Gathered s vs cfgs secs h =
      let g = gather-keys s vs ([], []) (cfgs, secs) h in
      record {
        config_from = λ k c p. elim (g.config_from k c p) [
          | inl q ↦ absurd (present_not_absent (sym q ∙ lookup-nil k))
          | inr found ↦ found
        ];
        secret_from = λ k x p. elim (g.secret_from k x p) [
          | inl q ↦ absurd (present_not_absent (sym q ∙ lookup-nil k))
          | inr found ↦ found
        ];
        config_here = g.config_here;
        secret_here = g.secret_here;
      }
