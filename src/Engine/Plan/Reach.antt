-- ===== src/Engine/Plan/Reach.antt =====
-- Carrying the plan out brings every application to its desired version.
use baetyl.Base.{
  String, true, false, Option, none, some, List, [], ◌∷◌, ◌≡◌, inl, inr, refl, arith, any, In,
  Bool-cases, ◌&&◌, ◌==◌, string_eq, if◌then◌else◌,
}
use baetyl.Base.Dict
use baetyl.Spec.{AppInfo}
use baetyl.Engine.Plan.{get_delete_and_update}
use baetyl.Engine.Plan.Laws.{last_named, is_named, is_at, kept, update_exact, delete_exact}

abbrev pub version_of : Option AppInfo → Option String
version_of none = none
version_of (some a) = some a.version

-- What runs under a name once the removals and the updates of a plan are done.
abbrev pub carried_out : Option AppInfo → Option AppInfo → Option String → Option String
carried_out del (some a) running = some a.version
carried_out (some a) none running = none
carried_out none none running = running

-- The reports tell what runs under the name: its version in every entry, and nothing without one.
pub record Tells (reports : List AppInfo) (n : String) (running : Option String) : Type 0 where
  pub present : (r : AppInfo) → In r reports → r.name ≡ n → running ≡ some r.version
  pub missing : any (is_named n) reports ≡ false → running ≡ none

pub last_named_absent :
    (n : String) (o : Option AppInfo) (l : List AppInfo)
    → any (is_named n) l ≡ false
    → last_named n o l ≡ o
unfolding last_named
last_named_absent n o [] h = refl
last_named_absent n o (a ∷ l) h = ground (arith, last_named_absent n o l)

last_named_known :
    (n : String) (a : AppInfo) (l : List AppInfo)
    → (b : AppInfo) × (last_named n (some a) l ≡ some b)
unfolding last_named
last_named_known n a [] = (a, refl)
last_named_known n a (b ∷ l) = elim (Bool-cases (n == b.name)) [
  | inl e ↦ rw e (last_named_known n b l)
  | inr e ↦ rw e (last_named_known n a l)
]

pub last_named_present :
    (n : String) (l : List AppInfo)
    → any (is_named n) l ≡ true
    → (b : AppInfo) × (last_named n none l ≡ some b)
unfolding last_named
last_named_present n [] h = cc
last_named_present n (a ∷ l) h = elim (Bool-cases (n == a.name)) [
  | inl e ↦ rw e (last_named_known n a l)
  | inr e ↦ rw e (last_named_present n l (ground arith))
]

runs_at :
    (n v : String) (l : List AppInfo) (running : Option String)
    → any (is_at n v) l ≡ true
    → ((r : AppInfo) → In r l → r.name ≡ n → running ≡ some r.version)
    → running ≡ some v
runs_at n v [] running h p = cc
runs_at n v (a ∷ l) running h p = elim (Bool-cases (n == a.name && v == a.version)) [
  | inl e ↦ ground (arith, p a (inl refl))
  | inr e ↦ runs_at n v l running (ground arith) (λ r m. p r (inr m))
]

settled :
    (desires reports : List AppInfo) (n : String) (running : Option String)
    → Tells reports n running
    → carried_out
        (if any (is_named n) desires then none else last_named n none reports)
        (kept n (last_named n none desires) reports)
        running
      ≡ version_of (last_named n none desires)
settled desires reports n running t = elim (Bool-cases (any (is_named n) desires)) [
  | inl wanted ↦
      let (d, e) = last_named_present n desires wanted in
      elim (Bool-cases (any (is_at n d.version) reports)) [
        | inl current ↦
            rw (wanted, e, current) (runs_at n d.version reports running current t.present)
        | inr stale ↦ rw (wanted, e, stale)
      ]
  | inr unwanted ↦ elim (Bool-cases (any (is_named n) reports)) [
    | inl here ↦
        let (r, e) = last_named_present n reports here in
        rw (unwanted, last_named_absent n none desires unwanted, e)
    | inr gone ↦
        rw
          (
            unwanted,
            last_named_absent n none desires unwanted,
            last_named_absent n none reports gone,
          )
          (t.missing gone)
  ]
]

-- If the reports tell what runs under a name, then after the removals and updates of the plan
-- the name runs at the version of its last desired entry, and does not run if it is not
-- desired.
pub plan_reaches_desired :
    (desires reports : List AppInfo) (n : String) (running : Option String)
    → Tells reports n running
    → let (del, update) = get_delete_and_update desires reports in
      carried_out (Dict.lookup n del) (Dict.lookup n update) running
      ≡ version_of (last_named n none desires)
plan_reaches_desired desires reports n running t =
    simp (update_exact desires reports n, delete_exact desires reports n)
      (settled desires reports n running t)
