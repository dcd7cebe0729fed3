-- ===== src/Node/Laws.antt =====
-- Each call either leaves the document alone and fails, or writes exactly what it says.
use baetyl.Base.{
  Bool, Option, none, some, ◌≡◌, ◌⊎◌, ◌∙◌, inl, inr, refl, sym, ap, subst, nat_eq, string_eq,
}
use baetyl.Node.Defs.{
  Error, Result, ok, err, ◌>>=◌, or_fail, encode, put_failed, diff_failed, Doc, Shadow, Lib,
  IsTransactional, Cell, load, save, new_desire, desire_body, desire, new_report, report_body,
  report,
}

pub Result-cases :
    {A : Type 0} (r : Result A) → ((e : Error) × (r ≡ err e)) ⊎ ((a : A) × (r ≡ ok a))
Result-cases (ok a) = inr (a, refl)
Result-cases (err e) = inl (e, refl)

-- A step that succeeds had a first part that did.
through :
    {A B : Type 0} {y : B} (first : Result A) (next : A → Result B)
    → first >>= next ≡ ok y
    → (x : A) × (first ≡ ok x) × (next x ≡ ok y)
through (err e) next done = cc
through (ok x) next done = (x, refl, done)

found : {A : Type 0} {x : A} (why : Error) (got : Option A) → or_fail why got ≡ ok x → got ≡ some x
found why (some x) done = cc
found why none done = cc

ok_pair-inj :
    {A B : Type 0} {a a' : A} {b b' : B}
    → ◌≡◌ {A = Result (A × B)} (ok (a, b)) (ok (a', b'))
    → (a ≡ a') × (b ≡ b')
ok_pair-inj h = (cc, cc)

-- A transaction fails and changes nothing, or does what its body does.
module _ (lib : Lib) (t : IsTransactional lib) where
  transaction :
      {A : Type 0} (f : Cell lib → Result (A × Cell lib)) (c : Cell lib)
      → ((e : Error) × (lib.update A f c ≡ (err e, c)))
        ⊎ ((a : A) × (c' : Cell lib) × (f c ≡ ok (a, c')) × (lib.update A f c ≡ (ok a, c')))
  transaction {A} f c = elim (Result-cases (f c)) [
    | inl (e, h) ↦ inl (e, t.update_fails A f c e h)
    | inr ((a, c'), h) ↦ elim (t.update_runs A f c c' a h) [
      | inl ran ↦ inr (a, c', h, ran)
      | inr (e, failed) ↦ inl (e, failed)
    ]
  ]

  -- The document `m` is in the cell, and the difference is that of its two parts.
  pub record Saved (m : Shadow lib.Value) (delta : Doc lib.Value) (c : Cell lib) : Type 0 where
    pub bytes : lib.Bytes
    pub encoded : lib.marshal m ≡ some bytes
    pub written : c ≡ some bytes
    pub difference : lib.diff_with_nil m.desire m.report ≡ some delta

  save-Saved :
      (m : Shadow lib.Value) (c c' : Cell lib) (delta : Doc lib.Value)
      → save lib m c ≡ ok (delta, c')
      → Saved m delta c'
  unfolding save
  save-Saved m c c' delta h =
      let (b, p, h1) = through (or_fail encode (lib.marshal m)) _ h in
      let (w, q, h2) = through (or_fail put_failed (lib.put b c)) _ h1 in
      let (d, r, h3) = through (or_fail diff_failed (lib.diff_with_nil m.desire m.report)) _ h2 in
      let (same_delta, same_cell) = ok_pair-inj h3 in
      record {
        bytes = b;
        encoded = found _ _ p;
        written = sym same_cell ∙ t.put_reads b c w (found _ _ q);
        difference = found _ _ r ∙ ap (λ x. some x) same_delta;
      }

  -- `Desire` fails and leaves the cell, or the cell has the document it had with the new desire.
  pub record Desired (desired : Doc lib.Value) (override : Bool) (c c' : Cell lib)
      (delta : Doc lib.Value) : Type 0 where
    pub before : Shadow lib.Value
    pub loaded : load lib c ≡ ok before
    pub next : Doc lib.Value
    pub computed : new_desire lib before.desire desired override ≡ ok next
    pub saved : Saved (record before { desire = some next }) delta c'

  desire_body-Desired :
      (desired : Doc lib.Value) (override : Bool) (c c' : Cell lib) (delta : Doc lib.Value)
      → desire_body lib desired override c ≡ ok (delta, c')
      → Desired desired override c c' delta
  unfolding desire_body
  desire_body-Desired desired override c c' delta h =
      let (m, p, h1) = through (load lib c) _ h in
      let (d, q, h2) = through (new_desire lib m.desire desired override) _ h1 in
      record {
        before = m;
        loaded = p;
        next = d;
        computed = q;
        saved = save-Saved (record m { desire = some d }) c c' delta h2;
      }

  -- If bolt is transactional, a desire fails and leaves the cell as it was, or the cell has
  -- the document with the new desire and the difference returned is that of its two parts.
  pub desire_atomic :
      (desired : Doc lib.Value) (override : Bool) (c : Cell lib)
      → ((e : Error) × (desire lib desired override c ≡ (err e, c)))
        ⊎ ((delta : Doc lib.Value) × (c' : Cell lib) × (desire lib desired override c
              ≡ (ok delta, c'))
            × Desired desired override c c' delta)
  unfolding desire
  desire_atomic desired override c = elim (transaction (desire_body lib desired override) c) [
    | inl failed ↦ inl failed
    | inr (delta, c', h, ran) ↦
        inr (delta, c', ran, desire_body-Desired desired override c c' delta h)
  ]

  pub record Reported (reported : Doc lib.Value) (override : Bool) (c c' : Cell lib)
      (delta : Doc lib.Value) : Type 0 where
    pub before : Shadow lib.Value
    pub loaded : load lib c ≡ ok before
    pub next : Doc lib.Value
    pub computed : new_report lib before.report reported override ≡ ok next
    pub saved : Saved (record before { report = some next }) delta c'

  report_body-Reported :
      (reported : Doc lib.Value) (override : Bool) (c c' : Cell lib) (delta : Doc lib.Value)
      → report_body lib reported override c ≡ ok (delta, c')
      → Reported reported override c c' delta
  unfolding report_body
  report_body-Reported reported override c c' delta h =
      let (m, p, h1) = through (load lib c) _ h in
      let (d, q, h2) = through (new_report lib m.report reported override) _ h1 in
      record {
        before = m;
        loaded = p;
        next = d;
        computed = q;
        saved = save-Saved (record m { report = some d }) c c' delta h2;
      }

  pub report_atomic :
      (reported : Doc lib.Value) (override : Bool) (c : Cell lib)
      → ((e : Error) × (report lib reported override c ≡ (err e, c)))
        ⊎ ((delta : Doc lib.Value) × (c' : Cell lib) × (report lib reported override c
              ≡ (ok delta, c'))
            × Reported reported override c c' delta)
  unfolding report
  report_atomic reported override c = elim (transaction (report_body lib reported override) c) [
    | inl failed ↦ inl failed
    | inr (delta, c', h, ran) ↦
        inr (delta, c', ran, report_body-Reported reported override c c' delta h)
  ]

  pub ran_pair-inj :
      {A : Type 0} {a a' : A} {c c' : Cell lib}
      → ◌≡◌ {A = Result A × Cell lib} (ok a, c) (ok a', c')
      → (a ≡ a') × (c ≡ c')
  ran_pair-inj h = (cc, cc)

  pub desire-Desired :
      (desired : Doc lib.Value) (override : Bool) (c c' : Cell lib) (delta : Doc lib.Value)
      → desire lib desired override c ≡ (ok delta, c')
      → Desired desired override c c' delta
  desire-Desired desired override c c' delta h = elim (desire_atomic desired override c) [
    | inl (e, failed) ↦ cc
    | inr (d, c1, ran, did) ↦
        let (p, q) = ran_pair-inj (sym ran ∙ h) in
        subst (λ x. Desired desired override c c' x) p
          (subst (λ x. Desired desired override c x d) q did)
  ]

  pub report-Reported :
      (reported : Doc lib.Value) (override : Bool) (c c' : Cell lib) (delta : Doc lib.Value)
      → report lib reported override c ≡ (ok delta, c')
      → Reported reported override c c' delta
  report-Reported reported override c c' delta h = elim (report_atomic reported override c) [
    | inl (e, failed) ↦ cc
    | inr (d, c1, ran, did) ↦
        let (p, q) = ran_pair-inj (sym ran ∙ h) in
        subst (λ x. Reported reported override c c' x) p
          (subst (λ x. Reported reported override c x d) q did)
  ]
