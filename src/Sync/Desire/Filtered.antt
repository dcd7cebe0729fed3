-- ===== src/Sync/Desire/Filtered.antt =====
-- The configurations that are fetched are those of the cloud, less the objects of other platforms.
use mathlib.Core.Logic.{◌↔◌}
use baetyl.Base.{
  String, Option, none, some, List, [], ◌∷◌, ◌≡◌, ◌⊎◌, inl, inr, refl, sym, ap, ◌∙◌, subst, arith,
  In, Bool-cases, string_eq,
}
use baetyl.Base.Dict
use baetyl.Base.Dict.{Dict, lookup-insert, lookup-nil}
use baetyl.Base.Range.{Range}
use baetyl.Spec.{AppInfo, Application, Configuration, Secret}
use baetyl.Sync.Object.{is_program, filter_config}
use baetyl.Sync.Object.Laws.{StaysIn, filter_config_exact}
use baetyl.Sync.Desire.{
  Lib, Failure, no_link, no_app, no_config, no_secret, Fetched, got, or_stop, Value, config_value,
  app_value, secret_value, no_value, ResourceInfo, configuration_kind, application_kind,
  secret_kind, gen_resource_infos, sync_resource_values, collect_apps, collect_configs,
  collect_secrets, fetch,
}

-- What was not stopped went through.
went_on :
    {A : Type 0} (e : Failure) (o : Option A) (f : A → Fetched) (apps : Dict String Application)
    (configs : Dict String Configuration) (secrets : Dict String Secret)
    → or_stop e o f ≡ got apps configs secrets
    → (a : A) × (o ≡ some a) × (f a ≡ got apps configs secrets)
went_on e none f apps configs secrets h = cc
went_on e (some a) f apps configs secrets h = (a, refl, h)

module _ (range : Range) (lib : Lib) where
  -- The configuration as the cloud has it, and as it is kept.
  pub record IsFiltered (raw cfg : Configuration) : Type 0 where
    pub same : cfg ≡ record raw { contents = cfg.contents }
    pub entries :
        (k w : String)
        → In (k, w) cfg.contents ↔ (In (k, w) raw.contents × StaysIn lib.object raw k)

  filter_config-IsFiltered : (raw : Configuration) → IsFiltered raw (filter_config lib.object raw)
  unfolding filter_config
  filter_config-IsFiltered raw = record {
    same = elim (Bool-cases (is_program raw)) [ inl p ↦ ground arith | inr p ↦ ground arith ];
    entries = filter_config_exact lib.object raw;
  }

  collect_configs-from :
      (values : List Value) (before configs : Dict String Configuration) (n : String)
      (cfg : Configuration)
      → collect_configs range lib values before ≡ some configs
      → Dict.lookup n configs ≡ some cfg
      → (Dict.lookup n before ≡ some cfg)
        ⊎ ((raw : Configuration) × In (config_value raw) values
            × (n ≡ raw.name)
            × IsFiltered raw cfg)
  unfolding collect_configs
  collect_configs-from [] before configs n cfg h p = inl (ground arith)
  collect_configs-from (app_value a ∷ rest) before configs n cfg h p = cc
  collect_configs-from (secret_value x ∷ rest) before configs n cfg h p = cc
  collect_configs-from (no_value ∷ rest) before configs n cfg h p = cc
  collect_configs-from (config_value raw ∷ rest) before configs n cfg h p =
      let kept = filter_config lib.object raw in
      elim (collect_configs-from rest (Dict.insert raw.name kept before) configs n cfg h p) [
        | inr (x, m, e, f) ↦ inr (x, inr m, e, f)
        | inl q ↦ elim (string_eq.dec n raw.name) [
          | no e ↦ inl (ground (arith, lookup-insert n raw.name kept before))
          | yes e ↦
              let same : kept ≡ cfg = ground (arith, lookup-insert n raw.name kept before) in
              inr (raw, inl refl, e, subst (IsFiltered raw) same (filter_config-IsFiltered raw))
        ]
      ]

  -- The link answered with the configuration, of which the kept one is the filtered form.
  abbrev pub FromCloud : String → Configuration → Type 0
  FromCloud n cfg =
      (wanted : List ResourceInfo) × (values : List Value) × (raw : Configuration)
      × (sync_resource_values range lib wanted ≡ some values)
      × In (config_value raw) values
      × (n ≡ raw.name)
      × IsFiltered raw cfg

  pub fetch-IsFiltered :
      (info : AppInfo) (apps : Dict String Application) (configs : Dict String Configuration)
      (secrets : Dict String Secret) (n : String) (cfg : Configuration)
      → fetch range lib info ≡ got apps configs secrets
      → Dict.lookup n configs ≡ some cfg
      → FromCloud n cfg
  unfolding fetch
  fetch-IsFiltered info apps configs secrets n cfg h p =
      let asked =
        sync_resource_values range lib
          (gen_resource_infos range lib application_kind ((info.name, info.version) ∷ [])) in
      let (found, e1, h1) = went_on no_link asked _ apps configs secrets h in
      let ((apps', (wc, ws)), e2, h2) =
        went_on {A = Dict String Application × (Dict String String × Dict String String)} no_app
          (collect_apps range lib found) _ apps configs secrets h1 in
      let answer =
        sync_resource_values range lib (gen_resource_infos range lib configuration_kind wc) in
      let (values, e3, h3) = went_on no_link answer _ apps configs secrets h2 in
      let (configs', e4, h4) =
        went_on no_config (collect_configs range lib values []) _ apps configs secrets h3 in
      let asked' = sync_resource_values range lib (gen_resource_infos range lib secret_kind ws) in
      let (found', e5, h5) = went_on no_link asked' _ apps configs secrets h4 in
      let (secrets', e6, h6) =
        went_on no_secret (collect_secrets range lib found' []) _ apps configs secrets h5 in
      let same : configs' ≡ configs = cc in
      let wanted = gen_resource_infos range lib configuration_kind wc in
      elim (collect_configs-from values [] configs n cfg
        (e4 ∙ ap {B = Option (Dict String Configuration)} (λ c. some c) same) p) [
          | inl q ↦ absurd (nothing (sym q ∙ lookup-nil n))
          | inr (raw, m, e, f) ↦ (wanted, values, raw, e3, m, e, f)
        ]
    where
      nothing : some cfg ≡ none → ⊥
      nothing h = cc
