-- ===== src/Engine/Align/Exact.antt =====
-- The aligned list, entry by entry: how often, and in which order.
use baetyl.Base.{
  ℕ, ◌+◌, String, Bool, true, false, not, ◌&&◌, none, some, List, [], ◌∷◌, ◌++◌, ◌≡◌, ◌↔◌, ◌∙◌, inl,
  inr, refl, sym, ap, map, foldl, any, arith, In, Option-cases, Bool-cases, ◌==◌, string_eq,
  if◌then◌else◌,
}
use mathlib.Core.List.{append-nil, append_assoc, map-append}
use baetyl.Base.Dict
use baetyl.Base.Dict.{Dict, lookup-nil, lookup-delete, has-lookup}
use baetyl.Base.Range.{Range, count}
use baetyl.Spec.{AppInfo}
use baetyl.Engine.Plan.{Infos}
use baetyl.Engine.Plan.Laws.{last_named, is_named}
use baetyl.Engine.Plan.Reach.{last_named_absent, last_named_present}
use baetyl.Engine.Align.{index_report, take_desired, align_apps}
use baetyl.Engine.Align.Laws.{
  IsIndex, empty-IsIndex, reports-IsIndex, take_desired-IsIndex, delete-IsIndex, loop-Holds,
  lookup-index_report, In-values_of_index, align_apps_same,
}

-- The names that pass the test, each at its first place.
abbrev pub first_named : (String → Bool) → List AppInfo → List String
first_named p [] = []
first_named p (a ∷ l) =
    let rest = first_named (λ n. p n && not (n == a.name)) l in
    let others = first_named p l in if p a.name then a.name ∷ rest else others

count-append :
    {A : Type 0} (p : A → Bool) (xs ys : List A) → count p (xs ++ ys) ≡ count p xs + count p ys
unfolding count
count-append p [] ys = omega arith
count-append p (x ∷ xs) ys = ground (arith, count-append p xs ys)

abbrev one_if : Bool → ℕ
one_if b = if b then 1 else 0

-- What the state holds of a name.
abbrev tally : String → List AppInfo × Infos → ℕ
tally n (res, pending) = count (is_named n) res + one_if (Dict.has n pending)

take_desired-tally :
    (n : String) (a : AppInfo) (s : List AppInfo × Infos)
    → IsIndex s.1
    → tally n (take_desired s a) ≡ tally n s
unfolding take_desired count
take_desired-tally n a (res, pending) h = elim (Option-cases (Dict.lookup a.name pending)) [
  | inl e ↦ rw (e, take_desired) refl
  | inr (r, e) ↦
      rw (e, take_desired)
        (ground (
          arith,
          count-append (is_named n) res (r ∷ []),
          h.keyed a.name r e,
          has-lookup n pending,
          has-lookup n (Dict.delete a.name pending),
          lookup-delete n a.name pending,
        ))
]

loop-tally :
    (n : String) (l : List AppInfo) (s : List AppInfo × Infos)
    → IsIndex s.1
    → tally n (foldl take_desired s l) ≡ tally n s
loop-tally n [] s h = refl
loop-tally n (a ∷ l) s h =
    loop-tally n l (take_desired s a) (take_desired-IsIndex a s h) ∙ take_desired-tally n a s h

-- The pass takes the desired names that are indexed, each at its first place.
pass_names :
    (p : String → Bool) (l res : List AppInfo) (pending : Infos)
    → IsIndex pending
    → ((n : String) → p n ≡ Dict.has n pending)
    → map (λ (a : AppInfo). a.name) (foldl take_desired (res, pending) l).0
      ≡ map (λ (a : AppInfo). a.name) res ++ first_named p l
unfolding take_desired
pass_names p [] res pending h same = sym (append-nil _)
pass_names p (a ∷ l) res pending h same =
    let after : List AppInfo × Infos → List String =
      λ s. map (λ (a : AppInfo). a.name) (foldl take_desired s l).0 in
    elim (Option-cases (Dict.lookup a.name pending)) [
      | inl e ↦
          let no_name : p a.name ≡ false = ground (arith, same a.name, has-lookup a.name pending) in
          let step : take_desired (res, pending) a ≡ (res, pending) = ground arith in
          let first : first_named p (a ∷ l) ≡ first_named p l = ground arith in
          ap after step
          ∙ pass_names p l res pending h same
          ∙ ap (λ x. map (λ (a : AppInfo). a.name) res ++ x) (sym first)
      | inr (r, e) ↦
          let named : p a.name ≡ true = ground (arith, same a.name, has-lookup a.name pending) in
          let rest =
            pass_names (λ n. p n && not (n == a.name)) l (res ++ (r ∷ []))
              (Dict.delete a.name pending) (delete-IsIndex a.name pending h)
              (λ n. ground (
                arith,
                same n,
                has-lookup n pending,
                has-lookup n (Dict.delete a.name pending),
                lookup-delete n a.name pending,
              )) in
          let others = first_named (λ n. p n && not (n == a.name)) l in
          let step : take_desired (res, pending) a ≡ (res ++ (r ∷ []), Dict.delete a.name pending) =
            ground arith in
          let first : first_named p (a ∷ l) ≡ a.name ∷ others = ground arith in
          let joined : map (λ (a : AppInfo). a.name) (res ++ (r ∷ [])) ++ others
              ≡ map (λ (a : AppInfo). a.name) res ++ (a.name ∷ others) =
            rw (map-append, h.keyed a.name r e, append_assoc) refl in
          ap after step
          ∙ rest
          ∙ joined
          ∙ ap (λ x. map (λ (a : AppInfo). a.name) res ++ x) (sym first)
    ]

-- A desired name is indexed no more after the pass.
pass_clears :
    (n : String) (l : List AppInfo) (s : List AppInfo × Infos)
    → ((any (is_named n) l ≡ true) → Dict.lookup n (foldl take_desired s l).1 ≡ none)
      × ((Dict.lookup n s.1 ≡ none) → Dict.lookup n (foldl take_desired s l).1 ≡ none)
unfolding take_desired
pass_clears n [] s = (λ h. cc, λ h. h)
pass_clears n (a ∷ l) (res, pending) =
    let (there, gone) = pass_clears n l (take_desired (res, pending) a) in
    let after : (n ≡ a.name) → Dict.lookup n (take_desired (res, pending) a).1 ≡ none =
      λ e. ground (arith, lookup-delete n a.name pending) in
    let still : (Dict.lookup n pending ≡ none)
        → Dict.lookup n (take_desired (res, pending) a).1 ≡ none =
      λ e. ground (arith, lookup-delete n a.name pending) in
    (
      λ h. elim (string_eq.dec n a.name) [ yes e ↦ gone (after e) | no e ↦ there (ground arith) ],
      λ h. gone (still h),
    )

-- An index has a name once or not at all.
tail-IsIndex :
    (k : String) (a : AppInfo) (m : Infos) → IsIndex ((k, a) ∷ m) → (a.name ≡ k) × IsIndex m
unfolding Dict.lookup
tail-IsIndex k a m h = (
  h.keyed k a (ground arith),
  record {
    nodup = h.nodup.1;
    keyed = λ n b e. let fresh = h.nodup.0 in h.keyed n b (ground arith);
  },
)

values-once :
    (n : String) (m : Infos)
    → IsIndex m
    → count (is_named n) (Dict.values m) ≡ one_if (Dict.has n m)
unfolding Dict.values Dict.has count
values-once n [] h = refl
values-once n ((k, a) ∷ m) h =
    let (named, rest) = tail-IsIndex k a m h in
    let fresh = h.nodup.0 in
    let counted = values-once n m rest in let absent = has-lookup k m in ground arith

-- The list in two parts: what is desired, in the order of the desired list, and the rest; each
-- reported name stands in it once, with its last entry.
pub record Aligned (reports desires result : List AppInfo) : Type 0 where
  pub entries : (x : AppInfo) → In x result ↔ (last_named x.name none reports ≡ some x)
  pub each_once : (n : String) → count (is_named n) result ≡ one_if (any (is_named n) reports)
  pub front : List AppInfo
  pub back : List AppInfo
  pub split : result ≡ front ++ back
  pub in_order :
      map (λ (a : AppInfo). a.name) front ≡ first_named (λ n. any (is_named n) reports) desires
  pub others : (x : AppInfo) → In x back → any (is_named x.name) desires ≡ false

first_named-none :
    (p : String → Bool) (l : List AppInfo) → ((n : String) → p n ≡ false) → first_named p l ≡ []
first_named-none p [] h = refl
first_named-none p (a ∷ l) h = ground (arith, h a.name, first_named-none p l h)

-- The index has the names that are reported.
indexed-reports :
    (reports : List AppInfo) (n : String)
    → Dict.has n (foldl index_report Dict.empty reports) ≡ any (is_named n) reports
indexed-reports reports n =
    let index = foldl index_report Dict.empty reports in
    let known : Dict.lookup n index ≡ last_named n none reports =
      lookup-index_report n reports Dict.empty ∙ ap (λ o. last_named n o reports) (lookup-nil n) in
    elim (Bool-cases (any (is_named n) reports)) [
      | inl e ↦ let (b, p) = last_named_present n reports e in ground (arith, has-lookup n index)
      | inr e ↦ ground (arith, last_named_absent n none reports, has-lookup n index)
    ]

-- Whatever the order of ranging, if some application is desired, the aligned list has each
-- reported name once, with the last entry of the name, and no other; it starts with the desired
-- names that are reported, each at its first place in the desired list, and no desired name is
-- in the rest.
pub align_apps_exact :
    (range : Range) (d : AppInfo) (re_apps de_apps : List AppInfo)
    → Aligned re_apps (d ∷ de_apps) (align_apps range re_apps (d ∷ de_apps))
unfolding align_apps count last_named
align_apps_exact range d [] de_apps = record {
  entries = λ x. align_apps_same range x d [] de_apps;
  each_once = λ n. refl;
  front = [];
  back = [];
  split = refl;
  in_order = sym (first_named-none (λ n. false) de_apps (λ n. refl));
  others = λ x m. absurd m;
}
align_apps_exact range d (r ∷ re_apps) de_apps =
    let reports = r ∷ re_apps in
    let desires = d ∷ de_apps in
    let index = foldl index_report Dict.empty reports in
    let fine = reports-IsIndex reports Dict.empty empty-IsIndex in
    let final = foldl take_desired ([], index) desires in
    let (kept, same) = loop-Holds d desires ([], index) fine in
    let reported : (n : String) → Dict.has n index ≡ any (is_named n) reports =
      indexed-reports reports in
    record {
      entries = λ x. align_apps_same range x d reports de_apps;
      each_once = λ n.
          count-append (is_named n) final.0 (range.order AppInfo (Dict.values final.1))
          ∙ ap (λ k. count (is_named n) final.0 + k)
              (range.each_once AppInfo (is_named n) (Dict.values final.1)
                ∙ values-once n final.1 kept)
          ∙ loop-tally n desires ([], index) fine
          ∙ ap (λ b. 0 + one_if b) (reported n)
          ∙ plain (one_if (any (is_named n) reports));
      front = final.0;
      back = range.order AppInfo (Dict.values final.1);
      split = refl;
      in_order =
          pass_names (λ n. any (is_named n) reports) desires [] index fine (λ n. sym (reported n));
      others = λ x m.
          (let found =
              (In-values_of_index x final.1 kept).0
                ((range.in_order AppInfo x (Dict.values final.1)).0 m) in
            let clears = (pass_clears x.name desires ([], index)).0 in
            elim (Bool-cases (any (is_named x.name) desires)) [
              | inl e ↦ absurd (let gone = clears e in cc)
              | inr e ↦ e
            ]);
    }
  where
    plain : (k : ℕ) → 0 + k ≡ k
    plain k = omega arith
