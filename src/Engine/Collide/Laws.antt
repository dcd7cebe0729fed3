-- ===== src/Engine/Collide/Laws.antt =====
-- The choice of `first`, and the effect of blame and removal on one name.
use baetyl.Base.{
  String, Bool, true, false, none, List, [], ◌∷◌, ◌≡◌, ◌≢◌, ◌↔◌, ◌⊎◌, ◌∙◌, inl, inr, refl, sym, ap,
  foldl, any, arith, In, leb, length, ◌==◌, string_eq, if◌then◌else◌,
}
use baetyl.Base.Dict
use baetyl.Base.Dict.{Dict, lookup-insert, lookup-delete, has-lookup, lookup-nil}
use baetyl.Base.Range.{Range}
use baetyl.Spec.{InstanceStats}
use baetyl.Engine.Collide.{Names, Verdict, pick_from, pick_first, blame, drop_names}

pick_from_running :
    (running : String → Bool) (first x : String) (names : List String)
    → any running names ≡ true
    → pick_from running first names ≡ x
    → In x names × (running x ≡ true)
unfolding pick_from
pick_from_running running first x [] h e = absurd (ground arith)
pick_from_running running first x (n ∷ ns) h e =
    ground (arith, pick_from_running running (if first == "" then n else first) x ns)

pick_from_idle :
    (running : String → Bool) (first : String) (names : List String)
    → first ≢ ""
    → any running names ≡ false
    → pick_from running first names ≡ first
unfolding pick_from
pick_from_idle running first [] f h = refl
pick_from_idle running first (n ∷ ns) f h = ground (arith, pick_from_idle running first ns f)

-- Of the names that collide one that runs is chosen, if any runs, and else the first, provided it is not empty.
pub pick_first_exact :
    (running : String → Bool) (n : String) (names : List String)
    → (any running (n ∷ names) ≡ true
        → In (pick_first running (n ∷ names)) (n ∷ names)
          × (running (pick_first running (n ∷ names)) ≡ true))
      × (any running (n ∷ names) ≡ false → n ≢ "" → pick_first running (n ∷ names) ≡ n)
unfolding pick_first
pick_first_exact running n names = (
  λ h. pick_from_running running "" _ (n ∷ names) h refl,
  λ h f. ground (arith, pick_from_idle running n names f),
)

-- A name that is blamed is marked, and stays marked.
pub has-blame :
    (k name version key : String) (blank : InstanceStats) (cause : String) (v : Verdict)
    → Dict.has k (blame name version key blank cause v).del
      ≡ (if k == name then true else Dict.has k v.del)
unfolding blame
has-blame k name version key blank cause v = ground (
  arith,
  has-lookup k (Dict.insert name tt v.del),
  has-lookup k v.del,
  lookup-insert k name tt v.del,
)

-- The first name is in the list, or the list is empty.
pick_from_In :
    (running : String → Bool) (first x : String) (names : List String)
    → pick_from running first names ≡ x
    → (x ≡ first) ⊎ In x names
unfolding pick_from
pick_from_In running first x [] e = inl (sym e)
pick_from_In running first x (n ∷ ns) e =
    ground (arith, pick_from_In running (if first == "" then n else first) x ns)

pub pick_first-In :
    (running : String → Bool) (n : String) (names : List String)
    → In (pick_first running (n ∷ names)) (n ∷ names)
unfolding pick_first
pick_first-In running n names =
    ground (arith, pick_from_In running n (pick_from running n names) names)

abbrev among : String → List String → Bool
among n = any (λ k. n == k)

among_iff : (n : String) (l : List String) → (among n l ≡ true) ↔ In n l
among_iff n [] = (λ h. cc, λ h. absurd h)
among_iff n (k ∷ l) = ground (arith, among_iff n l)

has-keys : {V : Type 0} (n : String) (m : Dict String V) → Dict.has n m ≡ among n (Dict.keys m)
unfolding Dict.has Dict.keys
has-keys n [] = refl
has-keys n (_ ∷ m) = ground (arith, has-keys n m)

eq_of_iff : (a b : Bool) → (a ≡ true → b ≡ true) → (b ≡ true → a ≡ true) → a ≡ b
eq_of_iff true b f g = sym (f refl)
eq_of_iff false true f g = g refl
eq_of_iff false false f g = refl

among_order :
    (range : Range) (n : String) (l : List String) → among n (range.order String l) ≡ among n l
among_order range n l =
    let ranged = range.in_order String n l in
    let here = among_iff n l in
    let there = among_iff n (range.order String l) in
    eq_of_iff _ _ (λ h. here.1 (ranged.0 (there.0 h))) (λ h. there.1 (ranged.1 (here.0 h)))

lookup-drop_list :
    {V : Type 0} (n : String) (l : List String) (m : Dict String V)
    → Dict.lookup n (foldl (λ d k. Dict.delete k d) m l)
      ≡ (if among n l then none else Dict.lookup n m)
lookup-drop_list n [] m = refl
lookup-drop_list n (k ∷ l) m =
    lookup-drop_list n l (Dict.delete k m) ∙ ground (arith, lookup-delete n k m)

-- The removal takes exactly the marked names.
pub lookup-drop_names :
    (range : Range) {V : Type 0} (n : String) (del : Names) (m : Dict String V)
    → Dict.lookup n (drop_names range del m) ≡ (if Dict.has n del then none else Dict.lookup n m)
unfolding drop_names
lookup-drop_names range n del m =
    lookup-drop_list n (range.order String (Dict.keys del)) m
    ∙ ap (λ b. if b then none else Dict.lookup n m)
        (among_order range n (Dict.keys del) ∙ sym (has-keys n del))

-- Two different names in a list make its length more than one.
pub many : (a b : String) (l : List String) → In a l → In b l → a ≢ b → leb (length l) 1 ≡ false
many a b (x ∷ []) (inl p) (inl q) h = ground arith
many a b (x ∷ []) (inr p) q h = absurd p
many a b (x ∷ []) (inl p) (inr q) h = absurd q
many a b (x ∷ y ∷ l) p q h = ground arith
many a b [] p q h = absurd p
