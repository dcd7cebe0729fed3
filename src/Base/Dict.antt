-- ===== src/Base/Dict.antt =====
-- Go's maps as association lists with one entry for a key, in the order of the first insertion.
-- Proofs go by the laws; only tests unfold the operations.
use mathlib.Core.List
use mathlib.Core.Path.{◌≡◌, refl, ap}
use mathlib.Core.Logic.{inl, inr, ◌≢◌}
use mathlib.Core.Bool.{Bool, true, false}
use mathlib.Core.Option.{Option, none, some}
use mathlib.Core.List.{List, [], ◌∷◌}
use native.Mathlib.Omega.{arith}
use baetyl.Base.Equality.{Eq, ◌==◌, if◌then◌else◌}
use baetyl.Base.Lists.{In}

abbrev pub Dict {ℓ κ} : Type ℓ → Type κ → Type (ℓ ⊔ κ)
Dict K V = List (K × V)

abbrev pub empty {ℓ κ} : {K : Type ℓ} {V : Type κ} → Dict K V
empty = []

unfoldable pub keys {ℓ κ} : {K : Type ℓ} {V : Type κ} → Dict K V → List K
keys = List.map (λ (k, _). k)

unfoldable pub values {ℓ κ} : {K : Type ℓ} {V : Type κ} → Dict K V → List V
values = List.map (λ (_, v). v)

module _ {ℓ κ} {K : Type ℓ} {V : Type κ} ⦃e : Eq K⦄ where
  -- `v, ok := m[k]`
  unfoldable pub lookup : K → Dict K V → Option V
  lookup k [] = none
  lookup k ((j, v) ∷ d) = if k == j then some v else lookup k d

  -- `_, ok := m[k]`
  unfoldable pub has : K → Dict K V → Bool
  has k [] = false
  has k ((j, _) ∷ d) = if k == j then true else has k d

  -- `m[k] = v`
  unfoldable pub insert : K → V → Dict K V → Dict K V
  insert k v [] = (k, v) ∷ []
  insert k v ((j, w) ∷ d) = if k == j then (k, v) ∷ d else (j, w) ∷ insert k v d

  -- `delete(m, k)`
  unfoldable pub delete : K → Dict K V → Dict K V
  delete k [] = []
  delete k ((j, w) ∷ d) = let rest = delete k d in if k == j then rest else (j, w) ∷ rest

  pub lookup-nil : (k : K) → lookup k [] ≡ none
  unfolding lookup
  lookup-nil k = refl

  pub lookup-insert :
      (j k : K) (v : V) (d : Dict K V)
      → lookup j (insert k v d) ≡ (if j == k then some v else lookup j d)
  unfolding insert lookup
  lookup-insert j k v [] = refl
  lookup-insert j k v (_ ∷ d) = ground (arith, lookup-insert j k v d)

  pub lookup-delete :
      (j k : K) (d : Dict K V) → lookup j (delete k d) ≡ (if j == k then none else lookup j d)
  unfolding delete lookup
  lookup-delete j k [] = ground arith
  lookup-delete j k (_ ∷ d) = ground (arith, lookup-delete j k d)

  pub has-lookup :
      (k : K) (d : Dict K V) → has k d ≡ (elim (lookup k d) [ none ↦ false | some _ ↦ true ])
  unfolding has lookup
  has-lookup k [] = refl
  has-lookup k (_ ∷ d) = ground (arith, has-lookup k d)

pub ruleset dict_laws = (lookup-nil, lookup-insert, lookup-delete, has-lookup)

-- What is found stands among the entries.
module _ {K V : Type 0} ⦃e : Eq K⦄ where
  pub In_of_lookup : (k : K) (v : V) (d : Dict K V) → lookup k d ≡ some v → In (k, v) d
  unfolding lookup
  In_of_lookup k v [] h = ground arith
  In_of_lookup k v ((j, w) ∷ d) h = ground (arith, In_of_lookup k v d)

-- No key has two entries.
module _ {ℓ κ} {K : Type ℓ} {V : Type κ} ⦃e : Eq K⦄ where
  abbrev pub NodupKeys : Dict K V → Type κ
  NodupKeys [] = Unit
  NodupKeys ((k, _) ∷ d) = (lookup k d ≡ none) × NodupKeys d

  pub insert-NodupKeys : (k : K) (v : V) (d : Dict K V) → NodupKeys d → NodupKeys (insert k v d)
  unfolding insert
  insert-NodupKeys k v [] _ = (lookup-nil k, tt)
  insert-NodupKeys k v ((j, _) ∷ d) (fresh, u) =
      ground (arith, insert-NodupKeys k v d u, lookup-insert j k v d)

  pub delete-NodupKeys : (k : K) (d : Dict K V) → NodupKeys d → NodupKeys (delete k d)
  unfolding delete
  delete-NodupKeys k [] _ = tt
  delete-NodupKeys k ((j, _) ∷ d) (fresh, u) =
      ground (arith, delete-NodupKeys k d u, lookup-delete j k d)

module _ {K V : Type 0} ⦃e : Eq K⦄ where
  pub has_of_In : (k : K) (v : V) (d : Dict K V) → In (k, v) d → lookup k d ≢ none
  unfolding lookup
  has_of_In k v [] h _ = h
  has_of_In k v ((j, w) ∷ d) (inl p) e = ground arith
  has_of_In k v ((j, w) ∷ d) (inr h) e = ground (arith, has_of_In k v d h)

  pub lookup_of_In :
      (k : K) (v : V) (d : Dict K V) → NodupKeys d → In (k, v) d → lookup k d ≡ some v
  unfolding lookup
  lookup_of_In k v [] _ h = absurd h
  lookup_of_In k v ((j, w) ∷ d) _ (inl p) = ground arith
  lookup_of_In k v ((j, w) ∷ d) (fresh, u) (inr h) =
      ground (arith, lookup_of_In k v d u h, has_of_In k v d h)

  pub In-values : (v : V) (d : Dict K V) → In v (values d) → (k : K) × In (k, v) d
  unfolding values
  In-values v [] h = absurd h
  In-values v ((j, w) ∷ d) (inl p) = (j, inl (ap (λ y. (j, y)) p))
  In-values v ((j, w) ∷ d) (inr h) = let (k, m) = In-values v d h in (k, inr m)

  pub values-In : (k : K) (v : V) (d : Dict K V) → In (k, v) d → In v (values d)
  unfolding values
  values-In k v [] h = h
  values-In k v ((j, w) ∷ d) (inl p) = inl (ap (λ (y : K × V). y.1) p)
  values-In k v ((j, w) ∷ d) (inr h) = inr (values-In k v d h)

module _ {ℓ κ} {K : Type ℓ} {V : Type κ} ⦃e : Eq K⦄ where
  pub has-insert :
      (j k : K) (v : V) (d : Dict K V) → has j (insert k v d) ≡ (if j == k then true else has j d)
  has-insert j k v d =
      ground (arith, lookup-insert j k v d, has-lookup j d, has-lookup j (insert k v d))

  pub has-delete :
      (j k : K) (d : Dict K V) → has j (delete k d) ≡ (if j == k then false else has j d)
  has-delete j k d = ground (arith, lookup-delete j k d, has-lookup j d, has-lookup j (delete k d))
