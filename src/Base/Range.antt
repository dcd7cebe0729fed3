-- ===== src/Base/Range.antt =====
-- `for k, v := range m` visits the entries of a map in an order that the language leaves open.
-- The order is a parameter: a function that lists the same entries, each as often.
use mathlib.Core.Logic.{◌↔◌}
use Prim.Native.Nat.{ℕ, ◌+◌}
use mathlib.Core.List.{List, [], ◌∷◌}
use mathlib.Core.Path.{◌≡◌, refl}
use mathlib.Core.Bool.{Bool}
use baetyl.Base.Equality.{if◌then◌else◌}
use baetyl.Base.Lists.{In, any, all, any_iff, all_iff, eq_of_iff}

-- How many entries of the list pass the test.
unfoldable pub count {ℓ} : {A : Type ℓ} → (A → Bool) → List A → ℕ
count p [] = 0
count p (x ∷ xs) = (if p x then 1 else 0) + count p xs

pub record Range : Type 1 where
  pub order : (A : Type 0) → List A → List A
  pub in_order : (A : Type 0) (a : A) (xs : List A) → In a (order A xs) ↔ In a xs
  pub each_once : (A : Type 0) (p : A → Bool) (xs : List A) → count p (order A xs) ≡ count p xs

-- One such order: that of insertion.
abbrev pub insertion_order : Range
insertion_order = record {
  order = λ A xs. xs;
  in_order = λ A a xs. (λ h. h, λ h. h);
  each_once = λ A p xs. refl;
}

-- A test of some or of all entries does not see the order.
module _ (range : Range) {A : Type 0} (p : A → Bool) (l : List A) where
  pub any_order : any p (range.order A l) ≡ any p l
  any_order =
      eq_of_iff _ _
        (λ h.
          let (a, m, q) = (any_iff p (range.order A l)).0 h in
          (any_iff p l).1 (a, (range.in_order A a l).0 m, q))
        (λ h.
          let (a, m, q) = (any_iff p l).0 h in
          (any_iff p (range.order A l)).1 (a, (range.in_order A a l).1 m, q))

  pub all_order : all p (range.order A l) ≡ all p l
  all_order =
      eq_of_iff _ _
        (λ h.
          (all_iff p l).1 (λ a m. (all_iff p (range.order A l)).0 h a ((range.in_order A a l).1 m)))
        (λ h.
          (all_iff p (range.order A l)).1 (λ a m. (all_iff p l).0 h a ((range.in_order A a l).0 m)))
