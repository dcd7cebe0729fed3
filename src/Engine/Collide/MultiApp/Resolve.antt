-- ===== src/Engine/Collide/MultiApp/Resolve.antt =====
-- The loop over the ports: of two holders of a port at most one stays unmarked.
use baetyl.Base.{
  ℕ, String, true, List, ◌≡◌, ◌≢◌, ◌⊎◌, inl, inr, foldl-keeps, foldl-reaches, foldl, arith, In,
  Bool-cases, ◌==◌, string_eq, if◌then◌else◌,
}
use baetyl.Base.Dict
use baetyl.Engine.Collide.{Apps, Verdict, pick_first, version_in}
use baetyl.Engine.Collide.Laws.{has-blame, many}
use baetyl.Engine.Collide.MultiApp.{runs, blame_unless_first, resolve, blank_instance, collision}

module _ (apps : Apps) where
  has-blame_unless_first :
      (k : String) (p : ℕ) (first : String) (v : Verdict) (name : String)
      → Dict.has k (blame_unless_first apps p first v name).del
        ≡ (if name == first then Dict.has k v.del else if k == name then true else Dict.has k v.del)
  unfolding blame_unless_first
  has-blame_unless_first k p first v name = ground (
    arith,
    has-blame k name (version_in apps name) name (blank_instance name) (collision p name first) v,
  )

  keep_blame :
      (k : String) (p : ℕ) (first : String) (v : Verdict) (name : String)
      → Dict.has k v.del ≡ true
      → Dict.has k (blame_unless_first apps p first v name).del ≡ true
  keep_blame k p first v name h = ground (arith, has-blame_unless_first k p first v name)

  keep_blames :
      (k : String) (p : ℕ) (first : String) (l : List String) (v : Verdict)
      → Dict.has k v.del ≡ true
      → Dict.has k (foldl (blame_unless_first apps p first) v l).del ≡ true
  keep_blames k p first l v h =
      foldl-keeps (λ (w : Verdict). Dict.has k w.del ≡ true) (blame_unless_first apps p first)
        (keep_blame k p first) l v h

  -- Every name of the list but the first is marked.
  blamed :
      (k : String) (p : ℕ) (first : String) (l : List String) (v : Verdict)
      → In k l
      → k ≢ first
      → Dict.has k (foldl (blame_unless_first apps p first) v l).del ≡ true
  blamed k p first l v h other =
      foldl-reaches (λ (w : Verdict). Dict.has k w.del ≡ true) (blame_unless_first apps p first) k
        (λ w. ground (arith, has-blame_unless_first k p first w k)) (keep_blame k p first) l v h

  pub keep_resolve :
      (k : String) (v : Verdict) (e : ℕ × List String)
      → Dict.has k v.del ≡ true
      → Dict.has k (resolve apps v e).del ≡ true
  unfolding resolve
  keep_resolve k v (p, names) h =
      ground (arith, keep_blames k p (pick_first (runs v.stats) names) names v h)

  -- Of two different holders of a port one is marked.
  pub one_marked :
      (a b : String) (p : ℕ) (names : List String)
      → a ≢ b
      → In a names
      → In b names
      → (v : Verdict)
      → (Dict.has a (resolve apps v (p, names)).del ≡ true)
        ⊎ (Dict.has b (resolve apps v (p, names)).del ≡ true)
  unfolding resolve
  one_marked a b p names differ ma mb v =
      let first = pick_first (runs v.stats) names in
      rw (many a b names ma mb differ, resolve)
        (elim (Bool-cases (a == first)) [
          | inl e ↦ inr (blamed b p first names v mb (λ q. differ (ground arith)))
          | inr e ↦ inl (blamed a p first names v ma (λ q. ground arith))
        ])

  pub keep_resolves :
      (k : String) (l : List (ℕ × List String)) (v : Verdict)
      → Dict.has k v.del ≡ true
      → Dict.has k (foldl (resolve apps) v l).del ≡ true
  keep_resolves k l v h =
      foldl-keeps (λ (w : Verdict). Dict.has k w.del ≡ true) (resolve apps) (keep_resolve k) l v h

  abbrev OneOf : String → String → Verdict → Type 0
  OneOf a b v = (Dict.has a v.del ≡ true) ⊎ (Dict.has b v.del ≡ true)

  keep_one :
      (a b : String) (v : Verdict) (e : ℕ × List String)
      → OneOf a b v
      → OneOf a b (resolve apps v e)
  keep_one a b v e (inl h) = inl (keep_resolve a v e h)
  keep_one a b v e (inr h) = inr (keep_resolve b v e h)

  -- If the port is ranged over, one of its two holders is marked.
  pub resolves_mark :
      (a b : String) (p : ℕ) (names : List String)
      → a ≢ b
      → In a names
      → In b names
      → (l : List (ℕ × List String)) (v : Verdict) → In (p, names) l
      → OneOf a b (foldl (resolve apps) v l)
  resolves_mark a b p names differ ma mb l v m =
      foldl-reaches (OneOf a b) (resolve apps) (p, names) (one_marked a b p names differ ma mb)
        (keep_one a b) l v m
