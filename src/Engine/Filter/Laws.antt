-- ===== src/Engine/Filter/Laws.antt =====
-- What the two filters keep, and how they divide the applications between core and init.
use baetyl.Base.{
  String, true, false, List, [], ◌∷◌, ◌≡◌, refl, ◌↔◌, ◌⊎◌, inl, inr, some, any, arith, In,
  In-append_cases, Bool-cases, ◌≤◌, length, length-append,
}
use baetyl.Base.Text.{contains}
use baetyl.Spec.{AppInfo}
use baetyl.Engine.Filter.{first_like, likes, unlike, unlikes, filter_app_like, filter_app_not_like}

unlikes_sound :
    (a : AppInfo) (m : List String) (apps : List AppInfo)
    → In a (unlikes apps m)
    → In a apps × (unlike m a ≡ true)
unfolding unlikes
unlikes_sound a m [] h = absurd h
unlikes_sound a m (b ∷ apps) h = ground (arith, unlikes_sound a m apps)

unlikes_complete :
    (a : AppInfo) (m : List String) (apps : List AppInfo)
    → In a apps
    → unlike m a ≡ true
    → In a (unlikes apps m)
unfolding unlikes
unlikes_complete a m [] h e = h
unlikes_complete a m (b ∷ apps) h e = ground (arith, unlikes_complete a m apps)

-- The second filter keeps exactly the applications whose name contains none of the modules.
pub filter_app_not_like_exact :
    (a : AppInfo) (modules : List String) (apps : List AppInfo)
    → In a (filter_app_not_like apps (some modules))
      ↔ (In a apps × (any (contains a.name) modules ≡ false))
unfolding filter_app_not_like
filter_app_not_like_exact a modules apps = (
  λ h. ground (arith, unlikes_sound a modules apps h),
  λ h. unlikes_complete a modules apps h.0 (ground arith),
)

first_like_sound :
    (a : AppInfo) (m : String) (apps : List AppInfo)
    → In a (first_like m apps)
    → In a apps × (contains a.name m ≡ true)
unfolding first_like
first_like_sound a m [] h = absurd h
first_like_sound a m (b ∷ apps) h = ground (arith, first_like_sound a m apps)

length-first_like : (m : String) (apps : List AppInfo) → length (first_like m apps) ≤ 1
unfolding first_like
length-first_like m [] = omega arith
length-first_like m (b ∷ apps) = ground (arith, length-first_like m apps)

first_like_found :
    (a : AppInfo) (m : String) (apps : List AppInfo)
    → In a apps
    → contains a.name m ≡ true
    → (b : AppInfo) × (first_like m apps ≡ b ∷ [])
unfolding first_like
first_like_found a m [] h e = absurd h
first_like_found a m (b ∷ apps) h e = elim (Bool-cases (contains b.name m)) [
  | inl q ↦ (b, rw q)
  | inr q ↦ rw q (first_like_found a m apps (ground arith) e)
]

-- The first filter keeps applications of the list whose name contains one of the modules, and at most one for each module.
pub filter_app_like_sound :
    (modules : List String) (apps : List AppInfo)
    → ((a : AppInfo)
        → In a (filter_app_like apps (some modules))
        → In a apps × (any (contains a.name) modules ≡ true))
      × (length (filter_app_like apps (some modules)) ≤ length modules)
unfolding filter_app_like
filter_app_like_sound [] apps = (λ a h. absurd h, omega arith)
filter_app_like_sound (m ∷ modules) apps = (
  λ a h. elim (In-append_cases a (first_like m apps) (likes apps modules) h) [
    | inl p ↦ ground (arith, first_like_sound a m apps p)
    | inr p ↦ ground (arith, (filter_app_like_sound modules apps).0 a p)
  ],
  omega (
    arith,
    length-append (first_like m apps) (likes apps modules),
    length-first_like m apps,
    (filter_app_like_sound modules apps).1,
  ),
)

-- With one module, an application that matches it makes the first filter keep exactly one.
filter_app_like_one :
    (a : AppInfo) (m : String) (apps : List AppInfo)
    → In a apps
    → contains a.name m ≡ true
    → (b : AppInfo) × (filter_app_like apps (some (m ∷ [])) ≡ b ∷ []) × (contains b.name m ≡ true)
unfolding filter_app_like
filter_app_like_one a m apps h e =
    let (b, q) = first_like_found a m apps h e in
    (b, rw q, (first_like_sound b m apps (rw q (inl refl))).1)

-- No application is kept by both filters of one module. Each application is kept by the filter
-- of core, or else the filter of init keeps exactly one application, and its name contains the
-- module.
pub core_init_split :
    (a : AppInfo) (core : String) (apps : List AppInfo)
    → In a apps
    → (¬ (
        In a (filter_app_not_like apps (some (core ∷ [])))
        × In a (filter_app_like apps (some (core ∷ [])))))
      × (In a (filter_app_not_like apps (some (core ∷ [])))
          ⊎ ((b : AppInfo) × (filter_app_like apps (some (core ∷ [])) ≡ b ∷ [])
              × (contains b.name core ≡ true)))
core_init_split a core apps h = (
  λ p. ground (
    arith,
    (filter_app_not_like_exact a (core ∷ []) apps).0 p.0,
    (filter_app_like_sound (core ∷ []) apps).0 a p.1,
  ),
  elim (Bool-cases (contains a.name core)) [
    | inl e ↦ inr (filter_app_like_one a core apps h e)
    | inr e ↦ inl ((filter_app_not_like_exact a (core ∷ []) apps).1 (h, ground arith))
  ],
)
