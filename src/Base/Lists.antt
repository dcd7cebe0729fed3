-- ===== src/Base/Lists.antt =====
-- Slices: length, membership, search, and folds.
use Prim.Native.Nat.{ℕ, suc, ◌+◌}
use mathlib.Core.Path.{◌≡◌, refl, sym, subst}
use mathlib.Core.Logic.{◌⊎◌, ◌↔◌, inl, inr}
use mathlib.Core.Bool.{Bool, true, false, ◌||◌, ◌&&◌}
use mathlib.Core.List.{List, [], ◌∷◌, ◌++◌, foldl}
use native.Mathlib.Omega.{arith}
use baetyl.Base.Equality.{Bool-cases}

module _ {ℓ} {A : Type ℓ} where
  abbrev pub length : List A → ℕ
  length [] = 0
  length (x ∷ xs) = suc (length xs)

  pub length-append : (xs ys : List A) → length (xs ++ ys) ≡ length xs + length ys
  length-append [] ys = omega arith
  length-append (x ∷ xs) ys = omega (arith, length-append xs ys)

  abbrev pub any : (A → Bool) → List A → Bool
  any p [] = false
  any p (x ∷ xs) = p x || any p xs

-- `a` stands in the list.
abbrev pub In : {A : Type 0} → A → List A → Type 0
In a [] = ⊥
In a (x ∷ xs) = (a ≡ x) ⊎ In a xs

module _ {A : Type 0} where
  pub In-append : (a : A) (xs ys : List A) → In a xs ⊎ In a ys → In a (xs ++ ys)
  In-append a [] ys (inl h) = absurd h
  In-append a [] ys (inr h) = h
  In-append a (x ∷ xs) ys (inl (inl e)) = inl e
  In-append a (x ∷ xs) ys (inl (inr h)) = inr (In-append a xs ys (inl h))
  In-append a (x ∷ xs) ys (inr h) = inr (In-append a xs ys (inr h))

  pub In-append_cases : (a : A) (xs ys : List A) → In a (xs ++ ys) → In a xs ⊎ In a ys
  In-append_cases a [] ys h = inr h
  In-append_cases a (x ∷ xs) ys (inl e) = inl (inl e)
  In-append_cases a (x ∷ xs) ys (inr h) = ground (arith, In-append_cases a xs ys h)

-- What every step of a loop keeps holds after the loop.
pub foldl-keeps {ℓ κ μ} :
    {S : Type ℓ} {A : Type κ} (P : S → Type μ) (f : S → A → S)
    → ((s : S) (a : A) → P s → P (f s a))
    → (xs : List A) (s : S) → P s
    → P (foldl f s xs)
foldl-keeps P f keep [] s h = h
foldl-keeps P f keep (x ∷ xs) s h = foldl-keeps P f keep xs (f s x) (keep s x h)

-- What the step of one element establishes, and every step keeps, holds after the loop.
pub foldl-reaches :
    {S A : Type 0} (P : S → Type 0) (f : S → A → S) (a : A)
    → ((s : S) → P (f s a))
    → ((s : S) (b : A) → P s → P (f s b))
    → (xs : List A) (s : S) → In a xs
    → P (foldl f s xs)
foldl-reaches P f a set keep [] s h = absurd h
foldl-reaches P f a set keep (x ∷ xs) s (inl e) =
    foldl-keeps P f keep xs (f s x) (subst (λ y. P (f s y)) e (set s))
foldl-reaches P f a set keep (x ∷ xs) s (inr h) = foldl-reaches P f a set keep xs (f s x) h

abbrev pub all {ℓ} : {A : Type ℓ} → (A → Bool) → List A → Bool
all p [] = true
all p (x ∷ xs) = p x && all p xs

module _ {A : Type 0} where
  pub any_iff : (p : A → Bool) (l : List A) → (any p l ≡ true) ↔ ((a : A) × In a l × (p a ≡ true))
  any_iff p [] = (λ h. cc, λ (a, m, h). absurd m)
  any_iff p (x ∷ l) = (
    λ h. elim (Bool-cases (p x)) [
      | inl e ↦ (x, inl refl, e)
      | inr e ↦ let (a, m, q) = (any_iff p l).0 (ground arith) in (a, inr m, q)
    ],
    λ (a, m, h). elim m [
      | inl e ↦ ground arith
      | inr n ↦ ground (arith, (any_iff p l).1 (a, n, h))
    ],
  )

  pub all_iff : (p : A → Bool) (l : List A) → (all p l ≡ true) ↔ ((a : A) → In a l → p a ≡ true)
  all_iff p [] = (λ h a m. absurd m, λ h. refl)
  all_iff p (x ∷ l) = (
    λ h a m. elim m [ inl e ↦ ground arith | inr n ↦ (all_iff p l).0 (ground arith) a n ],
    λ h. ground (arith, h x (inl refl), (all_iff p l).1 (λ a m. h a (inr m))),
  )

pub eq_of_iff : (a b : Bool) → (a ≡ true → b ≡ true) → (b ≡ true → a ≡ true) → a ≡ b
eq_of_iff true b f g = sym (f refl)
eq_of_iff false true f g = g refl
eq_of_iff false false f g = refl

-- What a loop collects that appends some elements for each element that it visits.
pub In-collected :
    {A B : Type 0} (f : A → List B) (step : List B → A → List B)
    → ((done : List B) (x : A) → step done x ≡ done ++ f x)
    → (e : B) (l : List A) (done : List B)
    → In e (foldl step done l) ↔ (In e done ⊎ ((x : A) × In x l × In e (f x)))
In-collected f step h e [] done = (λ m. inl m, λ m. elim m [ inl p ↦ p | inr (x, n, _) ↦ absurd n ])
In-collected f step h e (x ∷ l) done =
    let rest = In-collected f step h e l (step done x) in
    (
      λ m. elim (rest.0 m) [
        | inl p ↦ elim (In-append_cases e done (f x) (subst (In e) (h done x) p)) [
          | inl q ↦ inl q
          | inr q ↦ inr (x, inl refl, q)
        ]
        | inr (y, n, q) ↦ inr (y, inr n, q)
      ],
      λ m. rest.1 (elim m [
        | inl p ↦ inl (subst (In e) (sym (h done x)) (In-append e done (f x) (inl p)))
        | inr (y, n, q) ↦ elim n [
          | inl same ↦ inl (
              subst (In e) (sym (h done x))
                (In-append e done (f x) (inr (subst (λ z. In e (f z)) same q))))
          | inr later ↦ inr (y, later, q)
        ]
      ]),
    )
