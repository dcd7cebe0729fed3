-- ===== src/Engine/Plan/Laws.antt =====
-- The plan against its specification: for every name, what the two lists say of it.
use baetyl.Base.{
  String, Bool, Option, none, some, List, [], ◌∷◌, ◌≡◌, refl, ◌∙◌, ap, inl, inr, Option-cases,
  foldl, arith, any, ◌&&◌, ◌==◌, string_eq, if◌then◌else◌,
}
use baetyl.Base.Dict
use baetyl.Base.Dict.{Dict, lookup-insert, lookup-delete, has-lookup, lookup-nil}
use baetyl.Spec.{AppInfo}
use baetyl.Engine.Plan.{
  Infos, put_desired, drop_current, put_reported, keep_desired, get_delete_and_update,
}

-- The last entry of a name in a list, or what was known before the list.
unfoldable pub last_named : String → Option AppInfo → List AppInfo → Option AppInfo
last_named n before [] = before
last_named n before (a ∷ l) = last_named n (if n == a.name then some a else before) l

abbrev pub is_named : String → AppInfo → Bool
is_named n a = n == a.name

abbrev pub is_at : String → String → AppInfo → Bool
is_at n v a = n == a.name && v == a.version

lookup-put_desired :
    (n : String) (l : List AppInfo) (m : Infos)
    → Dict.lookup n (foldl put_desired m l) ≡ last_named n (Dict.lookup n m) l
unfolding put_desired last_named
lookup-put_desired n [] m = refl
lookup-put_desired n (a ∷ l) m =
    lookup-put_desired n l (Dict.insert a.name a m)
    ∙ ap (λ o. last_named n o l) (lookup-insert n a.name a m)

lookup-put_reported_del :
    (n : String) (l : List AppInfo) (del update : Infos)
    → Dict.lookup n (foldl put_reported (del, update) l).0 ≡ last_named n (Dict.lookup n del) l
unfolding put_reported last_named
lookup-put_reported_del n [] del update = refl
lookup-put_reported_del n (a ∷ l) del update =
    lookup-put_reported_del n l _ _ ∙ ap (λ o. last_named n o l) (lookup-insert n a.name a del)

-- Each entry stands under its own name.
abbrev pub IsKeyed : Infos → Type 0
IsKeyed m = (n : String) (a : AppInfo) → Dict.lookup n m ≡ some a → a.name ≡ n

abbrev pub kept : String → Option AppInfo → List AppInfo → Option AppInfo
kept n none l = none
kept n (some a) l = if any (is_at n a.version) l then none else some a

pub insert-IsKeyed : (a : AppInfo) (m : Infos) → IsKeyed m → IsKeyed (Dict.insert a.name a m)
insert-IsKeyed a m h n b e = ground (arith, lookup-insert n a.name a m, h n b)

pub delete-IsKeyed : (k : String) (m : Infos) → IsKeyed m → IsKeyed (Dict.delete k m)
delete-IsKeyed k m h n b e = ground (arith, lookup-delete n k m, h n b)

put_desired-IsKeyed : (l : List AppInfo) (m : Infos) → IsKeyed m → IsKeyed (foldl put_desired m l)
unfolding put_desired
put_desired-IsKeyed [] m h = h
put_desired-IsKeyed (a ∷ l) m h = put_desired-IsKeyed l _ (insert-IsKeyed a m h)

drop_current-IsKeyed :
    (r : AppInfo) (m : Infos) (o : Option AppInfo) → IsKeyed m → IsKeyed (drop_current m r o)
unfolding drop_current
drop_current-IsKeyed r m none h n b e = h n b e
drop_current-IsKeyed r m (some a) h n b e = ground (arith, h n b, delete-IsKeyed a.name m h n b)

lookup-drop_current :
    (n : String) (r : AppInfo) (m : Infos)
    → IsKeyed m
    → Dict.lookup n (drop_current m r (Dict.lookup r.name m)) ≡ kept n (Dict.lookup n m) (r ∷ [])
unfolding drop_current
lookup-drop_current n r m h = elim (Option-cases (Dict.lookup r.name m)) [
  | inl e ↦ ground (arith)
  | inr (a, e) ↦ ground (arith, h r.name a e, lookup-delete n a.name m)
]

kept-cons :
    (n : String) (o : Option AppInfo) (r : AppInfo) (l : List AppInfo)
    → kept n (kept n o (r ∷ [])) l ≡ kept n o (r ∷ l)
kept-cons n none r l = refl
kept-cons n (some a) r l = ground arith

lookup-put_reported :
    (n : String) (l : List AppInfo) (del update : Infos)
    → IsKeyed update
    → Dict.lookup n (foldl put_reported (del, update) l).1 ≡ kept n (Dict.lookup n update) l
unfolding put_reported
lookup-put_reported n [] del update h = ground arith
lookup-put_reported n (r ∷ l) del update h =
    lookup-put_reported n l _ _ (drop_current-IsKeyed r update (Dict.lookup r.name update) h)
    ∙ ap (λ o. kept n o l) (lookup-drop_current n r update h)
    ∙ kept-cons n (Dict.lookup n update) r l

lookup-keep_desired :
    (n : String) (l : List AppInfo) (m : Infos)
    → Dict.lookup n (foldl keep_desired m l)
      ≡ (if any (is_named n) l then none else Dict.lookup n m)
unfolding keep_desired
lookup-keep_desired n [] m = refl
lookup-keep_desired n (a ∷ l) m =
    lookup-keep_desired n l _ ∙ ground (arith, has-lookup a.name m, lookup-delete n a.name m)

-- A name is to be applied exactly if it is desired and no report has it at the version of its last
-- desired entry; it is applied at that entry.
pub update_exact :
    (desires reports : List AppInfo) (n : String)
    → Dict.lookup n (get_delete_and_update desires reports).1
      ≡ kept n (last_named n none desires) reports
unfolding get_delete_and_update
update_exact desires reports n =
    lookup-put_reported n reports _ _
      (put_desired-IsKeyed desires _ (λ k a e. ground (arith, lookup-nil {V = AppInfo} k)))
    ∙ ap (λ o. kept n o reports)
        (lookup-put_desired n desires _ ∙ ap (λ o. last_named n o desires) (lookup-nil n))

-- A name is to be removed exactly if it is reported and not desired.
pub delete_exact :
    (desires reports : List AppInfo) (n : String)
    → Dict.lookup n (get_delete_and_update desires reports).0
      ≡ (if any (is_named n) desires then none else last_named n none reports)
unfolding get_delete_and_update
delete_exact desires reports n =
    lookup-keep_desired n desires _
    ∙ ground (
      arith,
      lookup-put_reported_del n reports Dict.empty (foldl put_desired Dict.empty desires),
      lookup-nil {V = AppInfo} n,
    )
