-- ===== src/Engine/Clean/Storage/Visit.antt =====
-- The visit of the stored applications: those that it finds occupied.
use baetyl.Base.{
  String, Bool, true, false, some, List, [], ◌∷◌, ◌≡◌, ◌⊎◌, inl, inr, sym, ap, ◌∙◌, subst, foldl,
  arith, In, Bool-cases, string_eq,
}
use baetyl.Base.Dict
use baetyl.Base.Dict.{Dict, NodupKeys, lookup-insert, insert-NodupKeys}
use baetyl.Spec.{Application}
use baetyl.Engine.Collide.{Apps}
use baetyl.Engine.Clean.Storage.{is_occupied, sort_app}

-- The visit, from what was found before it on.
pub record Visit (occupied : Dict String String) (l : List Application) (here here' : Apps)
    : Type 0 where
  pub nodup : NodupKeys here → NodupKeys here'
  pub origin :
      (k : String) (a : Application)
      → Dict.lookup k here' ≡ some a
      → (Dict.lookup k here ≡ some a) ⊎ (In a l × (is_occupied occupied a ≡ true) × (a.name ≡ k))
  pub stays :
      (k : String) (a : Application)
      → Dict.lookup k here ≡ some a
      → (b : Application) × (Dict.lookup k here' ≡ some b)
  pub found :
      (a : Application)
      → In a l
      → is_occupied occupied a ≡ true
      → (b : Application) × (Dict.lookup a.name here' ≡ some b)

after_skipped :
    (occupied : Dict String String) (a : Application) (l : List Application) (here here' : Apps)
    → is_occupied occupied a ≡ false
    → Visit occupied l here here'
    → Visit occupied (a ∷ l) here here'
after_skipped occupied a l here here' skip v = record {
  nodup = v.nodup;
  origin = λ k b h. elim (v.origin k b h) [ inl p ↦ inl p | inr (m, o, e) ↦ inr (inr m, o, e) ];
  stays = v.stays;
  found = λ b m o. elim m [
    | inl e ↦ absurd (no_true (sym skip ∙ ap (is_occupied occupied) (sym e) ∙ o))
    | inr n ↦ v.found b n o
  ];
}
  where
    no_true : ◌≡◌ {A = Bool} false true → ⊥
    no_true h = cc

after_taken :
    (occupied : Dict String String) (a : Application) (l : List Application) (here here' : Apps)
    → is_occupied occupied a ≡ true
    → Visit occupied l (Dict.insert a.name a here) here'
    → Visit occupied (a ∷ l) here here'
after_taken occupied a l here here' taken v = record {
  nodup = λ h. v.nodup (insert-NodupKeys a.name a here h);
  origin = λ k b h. elim (v.origin k b h) [
    | inr (m, o, e) ↦ inr (inr m, o, e)
    | inl p ↦ elim (string_eq.dec k a.name) [
      | no e ↦ inl (ground (arith, lookup-insert k a.name a here))
      | yes e ↦
          let same : some a ≡ some b = ground (arith, lookup-insert k a.name a here) in
          let eq : b ≡ a = ground arith in
          inr (inl eq, ap (is_occupied occupied) eq ∙ taken, ground arith)
    ]
  ];
  stays = λ k b h. elim (string_eq.dec k a.name) [
    | yes e ↦ v.stays k a (ground (arith, lookup-insert k a.name a here))
    | no e ↦ v.stays k b (ground (arith, lookup-insert k a.name a here))
  ];
  found = λ b m o. elim m [
    | inl e ↦ v.stays b.name a (ground (arith, lookup-insert b.name a.name a here))
    | inr n ↦ v.found b n o
  ];
}

pub visit :
    (occupied : Dict String String) (l : List Application) (here gone : Apps)
    → Visit occupied l here (foldl (sort_app occupied) (here, gone) l).0
unfolding sort_app
visit occupied [] here gone = record {
  nodup = λ h. h;
  origin = λ k a h. inl h;
  stays = λ k a h. (a, h);
  found = λ a m o. absurd m;
}
visit occupied (a ∷ l) here gone =
    let final : Apps × Apps → Apps = λ s. (foldl (sort_app occupied) s l).0 in
    let next = sort_app occupied (here, gone) a in
    elim (Bool-cases (is_occupied occupied a)) [
      | inl e ↦
          let step : (Dict.insert a.name a here, gone) ≡ next = ground arith in
          after_taken occupied a l here (final next) e (
            subst (λ s. Visit occupied l (Dict.insert a.name a here) (final s)) step
              (visit occupied l (Dict.insert a.name a here) gone))
      | inr e ↦
          let rest = visit occupied l here next.1 in
          let step : (here, next.1) ≡ next = ground arith in
          after_skipped occupied a l here (final next) e
            (subst (λ s. Visit occupied l here (final s)) step rest)
    ]
