-- ===== src/Prober/Manager/Laws.antt =====
-- The manager keeps a count for each worker, and stops the one that is missing three times in a row.
use baetyl.Base.{
  ℕ, suc, String, Bool, true, not, Option, none, some, [], ◌∷◌, leb, foldl, foldl-keeps, ◌==◌,
  string_eq, nat_eq, ◌≡◌, refl, sym, ◌∙◌, if◌then◌else◌, ◌&&◌, arith, Option-cases, inl, inr,
}
use baetyl.Base.Dict
use baetyl.Base.Dict.{
  Dict, NodupKeys, dict_laws, has-insert, has-delete, lookup-insert, lookup-delete, has-lookup,
  lookup_of_In, In_of_lookup, has_of_In, insert-NodupKeys,
}
use baetyl.Base.Range.{Range}
use baetyl.Keys.{make_key}
use baetyl.Prober.Worker.{ProbeKey, Worker, new_worker, stop}
use baetyl.Prober.Manager.{
  probe_key_eq, App, Manager, probe_type_of, first_service, key_of, add_app, stop_key, count_of,
  cleanup_one, cleanup_apps, remove_worker,
}

-- The application of the key is not among the running ones.
unfoldable pub is_missing : String → Dict String Bool → ProbeKey → Bool
is_missing kind apps key = not (Dict.has (make_key kind key.name key.version) apps)

-- Exactly the workers have a count.
unfoldable pub IsCounted : Manager → Type 0
IsCounted m = (key : ProbeKey) → Dict.has key m.workers ≡ Dict.has key m.status

pub add_app-IsCounted : (app : Option App) (m : Manager) → IsCounted m → IsCounted (add_app app m).0
unfolding IsCounted add_app
add_app-IsCounted none m h key = h key
add_app-IsCounted (some app) m h key = elim (Option-cases (probe_type_of app)) [
  | inl p ↦ let q = h key in ground arith
  | inr (t, p) ↦
      let q = h key in
      ground (
        arith,
        has-insert key (key_of app t) (new_worker t (first_service app)) m.workers,
        has-insert key (key_of app t) 0 m.status,
      )
]

pub stop_key-IsCounted : (k : ProbeKey) (m : Manager) → IsCounted m → IsCounted (stop_key k m)
unfolding IsCounted stop_key
stop_key-IsCounted k m h key = elim (Option-cases (Dict.lookup k m.workers)) [
  | inl p ↦ let q = h key in ground arith
  | inr (w, p) ↦
      let q = h key in ground (arith, has-insert key k (stop w) m.workers, has-lookup k m.workers)
]

pub remove_worker-IsCounted :
    (k : ProbeKey) (m : Manager) → IsCounted m → IsCounted (remove_worker k m)
unfolding IsCounted remove_worker
remove_worker-IsCounted k m h key =
    let q = h key in ground (arith, has-delete key k m.workers, has-delete key k m.status)

-- What one round of cleaning makes of the count and of the worker of a key.
abbrev pub next_count : String → Dict String Bool → ProbeKey → Manager → ℕ
next_count kind apps key m = if is_missing kind apps key then suc (count_of key m) else 0

abbrev pub next_worker : String → Dict String Bool → ProbeKey → Manager → Worker → Option Worker
next_worker kind apps key m w =
    if is_missing kind apps key && leb 3 (suc (count_of key m))
    then some (stop w)
    else Dict.lookup key m.workers

module _ (kind : String) (apps : Dict String Bool) where
  one-status :
      (key k : ProbeKey) (w : Worker) (m : Manager)
      → Dict.lookup key (cleanup_one kind apps m (k, w)).status
        ≡ (if key == k then some (next_count kind apps key m) else Dict.lookup key m.status)
  unfolding cleanup_one is_missing
  one-status key k w m =
      ground
        (arith, lookup-insert key k 0 m.status, lookup-insert key k (suc (count_of k m)) m.status)

  one-workers :
      (key k : ProbeKey) (w : Worker) (m : Manager)
      → Dict.lookup key (cleanup_one kind apps m (k, w)).workers
        ≡ (if key == k then next_worker kind apps key m w else Dict.lookup key m.workers)
  unfolding cleanup_one is_missing
  one-workers key k w m = ground (arith, lookup-insert key k (stop w) m.workers)

  fold-status :
      (key : ProbeKey) (d : Dict ProbeKey Worker) (m : Manager)
      → NodupKeys d
      → Dict.lookup key (foldl (cleanup_one kind apps) m d).status ≡ (elim (Dict.lookup key d) [
        | none ↦ Dict.lookup key m.status
        | some _ ↦ some (next_count kind apps key m)
      ])
  unfolding Dict.lookup
  fold-status key [] m _ = refl
  fold-status key ((k, w) ∷ d) m (fresh, u) =
      let ih = fold-status key d (cleanup_one kind apps m (k, w)) u in
      let a = one-status key k w m in ground arith

  fold-workers :
      (key : ProbeKey) (d : Dict ProbeKey Worker) (m : Manager)
      → NodupKeys d
      → Dict.lookup key (foldl (cleanup_one kind apps) m d).workers ≡ (elim (Dict.lookup key d) [
        | none ↦ Dict.lookup key m.workers
        | some w ↦ next_worker kind apps key m w
      ])
  unfolding Dict.lookup
  fold-workers key [] m _ = refl
  fold-workers key ((k, w) ∷ d) m (fresh, u) =
      let ih = fold-workers key d (cleanup_one kind apps m (k, w)) u in
      let a = one-workers key k w m in let b = one-status key k w m in ground arith

-- Go visits each key once.
abbrev pub VisitsOnce : Range → Type 0
VisitsOnce range =
    (d : Dict ProbeKey Worker) → NodupKeys d → NodupKeys (range.order (ProbeKey × Worker) d)

lookup-order :
    (range : Range)
    → VisitsOnce range
    → (key : ProbeKey) (d : Dict ProbeKey Worker) → NodupKeys d
    → Dict.lookup key (range.order (ProbeKey × Worker) d) ≡ Dict.lookup key d
lookup-order range once key d u = elim (Option-cases (Dict.lookup key d)) [
  | inr (w, p) ↦
      lookup_of_In key w _ (once d u) ((range.in_order _ (key, w) d).1 (In_of_lookup key w d p))
      ∙ sym p
  | inl p ↦ elim (Option-cases (Dict.lookup key (range.order (ProbeKey × Worker) d))) [
    | inl q ↦ q ∙ sym p
    | inr (w, q) ↦
        absurd (has_of_In key w d ((range.in_order _ (key, w) d).0 (In_of_lookup key w _ q)) p)
  ]
]

module _ (range : Range) (once : VisitsOnce range) (kind : String) where
  -- A key with a worker gets the next count, and its worker is stopped at the third miss.
  pub cleanup_apps-exact :
      (apps : Dict String Bool) (m : Manager) (key : ProbeKey) (w : Worker)
      → NodupKeys m.workers
      → Dict.lookup key m.workers ≡ some w
      → (Dict.lookup key (cleanup_apps range kind apps m).status
          ≡ some (next_count kind apps key m))
        × (Dict.lookup key (cleanup_apps range kind apps m).workers ≡ (
            if is_missing kind apps key && leb 3 (suc (count_of key m))
            then some (stop w)
            else some w))
  unfolding cleanup_apps
  cleanup_apps-exact apps m key w u h =
      let same = lookup-order range once key m.workers u in
      let a = fold-status kind apps key (range.order _ m.workers) m (once m.workers u) in
      let b = fold-workers kind apps key (range.order _ m.workers) m (once m.workers u) in
      ground arith

  cleanup_apps-other :
      (apps : Dict String Bool) (m : Manager) (key : ProbeKey)
      → NodupKeys m.workers
      → Dict.lookup key m.workers ≡ none
      → (Dict.lookup key (cleanup_apps range kind apps m).status ≡ Dict.lookup key m.status)
        × (Dict.lookup key (cleanup_apps range kind apps m).workers ≡ none)
  unfolding cleanup_apps
  cleanup_apps-other apps m key u h =
      let same = lookup-order range once key m.workers u in
      let a = fold-status kind apps key (range.order _ m.workers) m (once m.workers u) in
      let b = fold-workers kind apps key (range.order _ m.workers) m (once m.workers u) in
      ground arith

  cleanup_one-NodupKeys :
      (apps : Dict String Bool) (m : Manager) (e : ProbeKey × Worker)
      → NodupKeys m.workers
      → NodupKeys (cleanup_one kind apps m e).workers
  unfolding cleanup_one
  cleanup_one-NodupKeys apps m (k, w) u =
      let a = insert-NodupKeys k (stop w) m.workers u in ground arith

  pub cleanup_apps-NodupKeys :
      (apps : Dict String Bool) (m : Manager)
      → NodupKeys m.workers
      → NodupKeys (cleanup_apps range kind apps m).workers
  unfolding cleanup_apps
  cleanup_apps-NodupKeys apps m u =
      foldl-keeps (λ (m' : Manager). NodupKeys m'.workers) (cleanup_one kind apps)
        (λ m' e. cleanup_one-NodupKeys apps m' e) (range.order _ m.workers) m u

  pub cleanup_apps-IsCounted :
      (apps : Dict String Bool) (m : Manager)
      → NodupKeys m.workers
      → IsCounted m
      → IsCounted (cleanup_apps range kind apps m)
  unfolding IsCounted
  cleanup_apps-IsCounted apps m u h key =
      let m' = cleanup_apps range kind apps m in
      let p = h key in
      let q = has-lookup key m.workers in
      let r = has-lookup key m.status in
      let s = has-lookup key m'.workers in
      let t = has-lookup key m'.status in
      elim (Option-cases (Dict.lookup key m.workers)) [
        | inl e ↦ let (a, b) = cleanup_apps-other apps m key u e in ground arith
        | inr (w, e) ↦ let (a, b) = cleanup_apps-exact apps m key w u e in ground arith
      ]

  -- If ranging visits each key once, three rounds of cleaning that miss an application with
  -- count 0 leave its worker untouched twice and stop it the third time.
  pub third_miss_stops :
      (apps1 apps2 apps3 : Dict String Bool) (m : Manager) (key : ProbeKey) (w : Worker)
      → NodupKeys m.workers
      → Dict.lookup key m.workers ≡ some w
      → Dict.lookup key m.status ≡ some 0
      → is_missing kind apps1 key ≡ true
      → is_missing kind apps2 key ≡ true
      → is_missing kind apps3 key ≡ true
      → let m1 = cleanup_apps range kind apps1 m in
        let m2 = cleanup_apps range kind apps2 m1 in
        (Dict.lookup key m1.workers ≡ some w)
        × (Dict.lookup key m2.workers ≡ some w)
        × (Dict.lookup key (cleanup_apps range kind apps3 m2).workers ≡ some (stop w))
  third_miss_stops apps1 apps2 apps3 m key w u h z h1 h2 h3 =
      let m1 = cleanup_apps range kind apps1 m in
      let m2 = cleanup_apps range kind apps2 m1 in
      let u1 = cleanup_apps-NodupKeys apps1 m u in
      let u2 = cleanup_apps-NodupKeys apps2 m1 u1 in
      let (a1, b1) = cleanup_apps-exact apps1 m key w u h in
      let c1 : Dict.lookup key m1.workers ≡ some w = ground arith in
      let (a2, b2) = cleanup_apps-exact apps2 m1 key w u1 c1 in
      let c2 : Dict.lookup key m2.workers ≡ some w = ground arith in
      let (a3, b3) = cleanup_apps-exact apps3 m2 key w u2 c2 in (c1, c2, ground arith)
