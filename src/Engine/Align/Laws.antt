-- ===== src/Engine/Align/Laws.antt =====
-- What the aligned list holds, and in which order.
use baetyl.Base.{
  String, true, false, none, some, List, [], ◌∷◌, ◌++◌, ◌≡◌, ◌≢◌, ◌↔◌, ◌⊎◌, ◌∙◌, inl, inr, refl,
  sym, subst, ap, map, foldl, any, arith, In, In-append, In-append_cases, Option-cases, string_eq,
  if◌then◌else◌,
}
use mathlib.Core.List.{append-nil, append_assoc, map-append}
use baetyl.Base.Dict
use baetyl.Base.Dict.{
  Dict, NodupKeys, lookup-nil, lookup-insert, lookup-delete, insert-NodupKeys, delete-NodupKeys,
  In-values, values-In, lookup_of_In, In_of_lookup,
}
use baetyl.Base.Range.{Range}
use baetyl.Spec.{AppInfo}
use baetyl.Engine.Plan.{Infos}
use baetyl.Engine.Plan.Laws.{IsKeyed, insert-IsKeyed, delete-IsKeyed, last_named, is_named}
use baetyl.Engine.Plan.Reach.{last_named_absent, last_named_present}
use baetyl.Engine.Align.{index_report, take_desired, align_apps}

-- The maps of the routine: one entry for a key, under the name of its value.
pub record IsIndex (m : Infos) : Type 0 where
  pub nodup : NodupKeys m
  pub keyed : IsKeyed m

pub empty-IsIndex : IsIndex Dict.empty
empty-IsIndex = record { nodup = tt; keyed = λ n a e. ground (arith, lookup-nil {V = AppInfo} n) }

insert-IsIndex : (a : AppInfo) (m : Infos) → IsIndex m → IsIndex (Dict.insert a.name a m)
insert-IsIndex a m h = record {
  nodup = insert-NodupKeys a.name a m h.nodup;
  keyed = insert-IsKeyed a m h.keyed;
}

pub delete-IsIndex : (k : String) (m : Infos) → IsIndex m → IsIndex (Dict.delete k m)
delete-IsIndex k m h = record {
  nodup = delete-NodupKeys k m h.nodup;
  keyed = delete-IsKeyed k m h.keyed;
}

pub In-values_of_index :
    (x : AppInfo) (m : Infos) → IsIndex m → In x (Dict.values m) ↔ (Dict.lookup x.name m ≡ some x)
In-values_of_index x m h = (
  λ p.
      let (k, q) = In-values x m p in
      let found = lookup_of_In k x m h.nodup q in
      subst (λ n. Dict.lookup n m ≡ some x) (sym (h.keyed k x found)) found,
  λ e. values-In x.name x m (In_of_lookup x.name x m e),
)

pub reports-IsIndex : (l : List AppInfo) (m : Infos) → IsIndex m → IsIndex (foldl index_report m l)
unfolding index_report
reports-IsIndex [] m h = h
reports-IsIndex (a ∷ l) m h = reports-IsIndex l _ (insert-IsIndex a m h)

pub lookup-index_report :
    (n : String) (l : List AppInfo) (m : Infos)
    → Dict.lookup n (foldl index_report m l) ≡ last_named n (Dict.lookup n m) l
unfolding index_report last_named
lookup-index_report n [] m = refl
lookup-index_report n (a ∷ l) m =
    lookup-index_report n l _ ∙ ap (λ o. last_named n o l) (lookup-insert n a.name a m)

abbrev pub State : Type 0
State = List AppInfo × Infos

abbrev pub Holds : AppInfo → State → Type 0
Holds x (res, pending) = In x res ⊎ (Dict.lookup x.name pending ≡ some x)

pub take_desired-IsIndex : (a : AppInfo) (s : State) → IsIndex s.1 → IsIndex (take_desired s a).1
unfolding take_desired
take_desired-IsIndex a (res, pending) h = elim (Option-cases (Dict.lookup a.name pending)) [
  | inl e ↦ rw (e, take_desired) h
  | inr (r, e) ↦ rw (e, take_desired) (delete-IsIndex a.name pending h)
]

take_desired-Holds :
    (x a : AppInfo) (s : State) → IsIndex s.1 → Holds x (take_desired s a) ↔ Holds x s
unfolding take_desired
take_desired-Holds x a (res, pending) h = elim (Option-cases (Dict.lookup a.name pending)) [
  | inl e ↦ rw (e, take_desired) (λ p. p, λ p. p)
  | inr (r, e) ↦
      rw (e, take_desired)
        (
          λ p. ground (
            arith,
            h.keyed a.name r e,
            lookup-delete x.name a.name pending,
            In-append_cases x res (r ∷ []),
          ),
          λ p. ground (
            arith,
            h.keyed a.name r e,
            lookup-delete x.name a.name pending,
            In-append x res (r ∷ []),
          ),
        )
]

pub loop-Holds :
    (x : AppInfo) (l : List AppInfo) (s : State)
    → IsIndex s.1
    → (IsIndex (foldl take_desired s l).1) × (Holds x (foldl take_desired s l) ↔ Holds x s)
loop-Holds x [] s h = (h, (λ p. p, λ p. p))
loop-Holds x (a ∷ l) s h =
    let rest = loop-Holds x l (take_desired s a) (take_desired-IsIndex a s h) in
    let here = take_desired-Holds x a s h in
    (rest.0, (λ p. here.0 (rest.1.0 p), λ p. rest.1.1 (here.1 p)))

-- Whatever the order of ranging, the aligned list holds exactly the last entry of each reported
-- name, if some application is desired.
pub align_apps_same :
    (range : Range) (x d : AppInfo) (re_apps de_apps : List AppInfo)
    → In x (align_apps range re_apps (d ∷ de_apps)) ↔ (last_named x.name none re_apps ≡ some x)
unfolding align_apps last_named
align_apps_same range x d [] de_apps = (λ h. absurd h, λ e. cc)
align_apps_same range x d (r ∷ re_apps) de_apps =
    let reports = r ∷ re_apps in
    let index = foldl index_report Dict.empty reports in
    let known : Dict.lookup x.name index ≡ last_named x.name none reports =
      lookup-index_report x.name reports Dict.empty
      ∙ ap (λ o. last_named x.name o reports) (lookup-nil x.name) in
    let (fine, same) =
      loop-Holds x (d ∷ de_apps) ([], index) (reports-IsIndex reports Dict.empty empty-IsIndex) in
    let res = (foldl take_desired ([], index) (d ∷ de_apps)).0 in
    let rest = (foldl take_desired ([], index) (d ∷ de_apps)).1 in
    let left = In-values_of_index x rest fine in
    let ranged = range.in_order AppInfo x (Dict.values rest) in
    (
      λ h.
          sym known
          ∙ start index (
              same.0 (elim (In-append_cases x res _ h) [
                | inl p ↦ inl p
                | inr p ↦ inr (left.0 (ranged.0 p))
              ])),
      λ e.
          In-append x res _
            (elim (same.1 (inr (known ∙ e))) [ inl p ↦ inl p | inr p ↦ inr (ranged.1 (left.1 p)) ]),
    )
  where
    start : (m : Infos) → Holds x ([], m) → Dict.lookup x.name m ≡ some x
    start m (inl p) = absurd p
    start m (inr p) = p

abbrev names : List AppInfo → List String
names = map (λ a. a.name)

-- No name is listed twice.
abbrev pub UniqueNames : List AppInfo → Type 0
UniqueNames [] = Unit
UniqueNames (a ∷ l) = (any (is_named a.name) l ≡ false) × UniqueNames l

eq_nil_of_lookup : (m : Infos) → ((n : String) → Dict.lookup n m ≡ none) → m ≡ []
unfolding Dict.lookup
eq_nil_of_lookup [] h = refl
eq_nil_of_lookup ((n, a) ∷ m) h = ground (arith, h n)

eq_nil_of_In : {A : Type 0} (l : List A) → ((a : A) → ¬ In a l) → l ≡ []
eq_nil_of_In [] h = refl
eq_nil_of_In (a ∷ l) h = absurd (h a (inl refl))

-- What a pass over the desired list does when each of its names is indexed.
record Passes (l : List AppInfo) (res : List AppInfo) (pending : Infos) : Type 0 where
  in_order : names (foldl take_desired (res, pending) l).0 ≡ names res ++ names l
  left :
      (n : String)
      → Dict.lookup n (foldl take_desired (res, pending) l).1
        ≡ (if any (is_named n) l then none else Dict.lookup n pending)

take_desired_known :
    (a r : AppInfo) (res : List AppInfo) (pending : Infos)
    → Dict.lookup a.name pending ≡ some r
    → take_desired (res, pending) a ≡ (res ++ (r ∷ []), Dict.delete a.name pending)
unfolding take_desired
take_desired_known a r res pending e = rw (e, take_desired)

still_known :
    (n : String) (a : AppInfo) (l : List AppInfo) (pending : Infos)
    → any (is_named a.name) l ≡ false
    → Dict.lookup n pending ≢ none
    → any (is_named n) l ≡ true
    → Dict.lookup n (Dict.delete a.name pending) ≢ none
still_known n a l pending fresh known m e = ground (arith, lookup-delete n a.name pending, known)

pass_desired :
    (l res : List AppInfo) (pending : Infos)
    → IsIndex pending
    → UniqueNames l
    → ((n : String) → any (is_named n) l ≡ true → Dict.lookup n pending ≢ none)
    → Passes l res pending
pass_desired [] res pending h u known = record { in_order = rw append-nil; left = λ n. refl }
pass_desired (a ∷ l) res pending h (fresh, u) known =
    elim (Option-cases (Dict.lookup a.name pending)) [
      | inl e ↦ absurd (known a.name (ground arith) e)
      | inr (r, e) ↦
          let step = take_desired_known a r res pending e in
          let rest =
            pass_desired l (res ++ (r ∷ [])) (Dict.delete a.name pending)
              (delete-IsIndex a.name pending h) u
              (λ n m. still_known n a l pending fresh (known n (ground arith)) m) in
          record {
            in_order =
                ap (λ s. names (foldl take_desired s l).0) step
                ∙ rest.in_order
                ∙ rw (map-append, h.keyed a.name r e, append_assoc);
            left = λ n.
                ap (λ s. Dict.lookup n (foldl take_desired s l).1) step
                ∙ rest.left n
                ∙ ground (arith, lookup-delete n a.name pending);
          }
    ]

named_once :
    (a : AppInfo) (l : List AppInfo) → any (is_named a.name) [] ≢ any (is_named a.name) (a ∷ l)
named_once a l e = ground arith

-- The pass over an index of exactly the desired names leaves nothing to range over.
pass_index :
    (re_apps de_apps : List AppInfo)
    → UniqueNames de_apps
    → ((n : String) → any (is_named n) re_apps ≡ any (is_named n) de_apps)
    → let index = foldl index_report Dict.empty re_apps in
      Passes de_apps [] index
      × ((range : Range)
          → range.order AppInfo (Dict.values (foldl take_desired ([], index) de_apps).1) ≡ [])
unfolding Dict.values
pass_index re_apps de_apps u same =
    (passes, λ range. eq_nil_of_In _ (λ a m. rw nothing_left at ((range.in_order AppInfo a _).0 m)))
  where
    index : Infos
    index = foldl index_report Dict.empty re_apps

    indexed : (n : String) → Dict.lookup n index ≡ last_named n none re_apps
    indexed n =
        lookup-index_report n re_apps Dict.empty ∙ ap (λ o. last_named n o re_apps) (lookup-nil n)

    passes : Passes de_apps [] index
    passes =
        pass_desired de_apps [] index (reports-IsIndex re_apps Dict.empty empty-IsIndex) u λ n m e.
          let (b, q) = last_named_present n re_apps (same n ∙ m) in ground (arith, indexed n)

    nothing_left : (foldl take_desired ([], index) de_apps).1 ≡ []
    nothing_left =
        eq_nil_of_lookup _
          λ n. ground (arith, passes.left n, indexed n, same n, last_named_absent n none re_apps)

-- If the desired names are different and are the names that are reported, the aligned list has
-- the desired names in their order.
pub align_apps_ordered :
    (range : Range) (re_apps de_apps : List AppInfo)
    → UniqueNames de_apps
    → ((n : String) → any (is_named n) re_apps ≡ any (is_named n) de_apps)
    → names (align_apps range re_apps de_apps) ≡ names de_apps
unfolding align_apps
align_apps_ordered range [] [] u same = refl
align_apps_ordered range [] (d ∷ de_apps) u same = absurd (named_once d de_apps (same d.name))
align_apps_ordered range (r ∷ re_apps) [] u same = absurd (named_once r re_apps (sym (same r.name)))
align_apps_ordered range (r ∷ re_apps) (d ∷ de_apps) u same =
    let p = pass_index (r ∷ re_apps) (d ∷ de_apps) u same in
    rw (map-append, p.1, append-nil) p.0.in_order
