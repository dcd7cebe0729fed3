-- ===== src/Node/Props.antt =====
-- What is read back after a call of node/node.go, and what its two-step calls do.
use baetyl.Base.{
  [], subst, ℕ, Bool, true, false, Option, none, some, ◌≡◌, ◌∙◌, inl, inr, sym, ap, arith, ◌==◌,
  nat_eq, string_eq, Bool-cases,
}
use baetyl.Node.Defs.{
  Result, ok, err, key_exists, Doc, Shadow, Lib, IsTransactional, Cell, load, get, new_desire,
  desire, new_report, report, insert_body, insert, new_node, write_props,
}
use baetyl.Node.Laws.{Saved, desire-Desired, report-Reported, report_atomic, ran_pair-inj}

-- What encoding/json promises of the document: an encoded text is not empty and can be decoded, and
-- the parts of the struct are encoded each by itself. What is read back of a map is its normal form: an
-- empty one is omitted, structs are maps, and numbers floating.
pub record IsDecoded (lib : Lib) : Type 0 where
  pub normal : Option (Doc lib.Value) → Option (Doc lib.Value)
  pub reads_back :
      (m : Shadow lib.Value) (b : lib.Bytes)
      → lib.marshal m ≡ some b
      → lib.unmarshal b ≡ some (record m { desire = normal m.desire; report = normal m.report })
  pub not_empty :
      (m : Shadow lib.Value) (b : lib.Bytes) → lib.marshal m ≡ some b → (lib.len b == 0) ≡ false

ok-inj : {A : Type 0} {a a' : A} → ◌≡◌ {A = Result A} (ok a) (ok a') → a ≡ a'
ok-inj h = cc

module _ (lib : Lib) (t : IsTransactional lib) (j : IsDecoded lib) where
  abbrev reads : Shadow lib.Value → Result (Shadow lib.Value)
  reads m = ok (record m { desire = j.normal m.desire; report = j.normal m.report })

  load-Saved :
      (m : Shadow lib.Value) (delta : Doc lib.Value) (c : Cell lib)
      → Saved lib t m delta c
      → load lib c ≡ reads m
  unfolding load
  load-Saved m delta c s =
      let e = j.not_empty m s.bytes s.encoded in
      let r = j.reads_back m s.bytes s.encoded in let w = s.written in ground arith

  -- If bolt is transactional and what is encoded as JSON can be decoded, part by part in a
  -- normal form, then after a desire without an error the document read back is the former
  -- one with the new desire, each of its two parts in normal form, and the delta returned is
  -- that of the two parts.
  pub get-desire :
      (desired : Doc lib.Value) (override : Bool) (c c' : Cell lib) (delta : Doc lib.Value)
      → desire lib desired override c ≡ (ok delta, c')
      → (m : Shadow lib.Value) × (d : Doc lib.Value) × (get lib c ≡ ok m)
        × (new_desire lib m.desire desired override ≡ ok d)
        × (get lib c' ≡ ok (record m { desire = j.normal (some d); report = j.normal m.report }))
        × (lib.diff_with_nil (some d) m.report ≡ some delta)
  unfolding get
  get-desire desired override c c' delta h =
      let s = desire-Desired lib t desired override c c' delta h in
      (s.before, s.next, s.loaded, s.computed, load-Saved _ delta c' s.saved, s.saved.difference)

  -- If bolt is transactional and what is encoded as JSON can be decoded, part by part in a
  -- normal form, then after a report without an error the document read back is the former
  -- one with the new report, each of its two parts in normal form, and the delta returned is
  -- that of the two parts.
  pub get-report :
      (reported : Doc lib.Value) (override : Bool) (c c' : Cell lib) (delta : Doc lib.Value)
      → report lib reported override c ≡ (ok delta, c')
      → (m : Shadow lib.Value) × (r : Doc lib.Value) × (get lib c ≡ ok m)
        × (new_report lib m.report reported override ≡ ok r)
        × (get lib c' ≡ ok (record m { desire = j.normal m.desire; report = j.normal (some r) }))
        × (lib.diff_with_nil m.desire (some r) ≡ some delta)
  unfolding get
  get-report reported override c c' delta h =
      let s = report-Reported lib t reported override c c' delta h in
      (s.before, s.next, s.loaded, s.computed, load-Saved _ delta c' s.saved, s.saved.difference)

  insert_kept :
      (new m : Shadow lib.Value) (c : Cell lib)
      → load lib c ≡ ok m
      → insert lib new c ≡ (err key_exists, c)
  unfolding insert insert_body load
  insert_kept new m none h = cc
  insert_kept new m (some b) h =
      t.update_fails Unit (insert_body lib new) (some b) key_exists
        (elim (Bool-cases (lib.len b == 0)) [ inl e ↦ ground arith | inr e ↦ ground arith ])

  -- If bolt is transactional and what is encoded as JSON can be decoded, part by part in a
  -- normal form, and the cell has a document, then a start without an error keeps it, with
  -- the core info reported into it, each of its two parts in normal form.
  pub new_node_keeps :
      (now : ℕ) (core : Doc lib.Value) (m : Shadow lib.Value) (c c' : Cell lib)
      → get lib c ≡ ok m
      → new_node lib now core c ≡ (ok tt, c')
      → (r : Doc lib.Value) × (new_report lib m.report core false ≡ ok r)
        × (get lib c' ≡ ok (record m { desire = j.normal m.desire; report = j.normal (some r) }))
  unfolding get new_node
  new_node_keeps now core m c c' h ran =
      let kept =
        insert_kept (record { created = now; desire = some []; report = some core }) m c h in
      elim (report_atomic lib t core false c) [
        | inl (e, p) ↦ let bad = rw (kept, p) at ran in cc
        | inr (d, c1, p, s) ↦
            let same = rw (kept, p) at ran in
            let (m', r, before, computed, after, delta) = get-report core false c c1 d p in
            let same_doc = ok-inj (sym before ∙ h) in
            let (u, same_cell) = ran_pair-inj lib t same in
            (
              r,
              subst (λ x. new_report lib x.report core false ≡ ok r) same_doc computed,
              ap (get lib) (sym same_cell)
                  ∙ after
                  ∙ ap {A = Shadow lib.Value} (λ x. reads (record x { report = some r })) same_doc,
            )
      ]

  write_props-report :
      (whole new : Doc lib.Value) (c c' : Cell lib) (n : Doc lib.Value)
      → write_props lib (whole, new) c ≡ (ok n, c')
      → (d : Doc lib.Value) × (report lib whole true c ≡ (ok d, c')) × (new ≡ n)
  unfolding write_props
  write_props-report whole new c c' n h = elim (report_atomic lib t whole true c) [
    | inl (e, p) ↦ let bad = rw (p, write_props) at h in cc
    | inr (d, k, p, s) ↦ let q = rw (p, write_props) at h in (d, cc, cc)
  ]

  -- If bolt is transactional and what is encoded as JSON can be decoded, part by part in a
  -- normal form, then the last step of a property update leaves the same document whether or
  -- not the report was changed after the first step.
  pub write_props_overwrites :
      (w : Doc lib.Value × Doc lib.Value) (x : Option (Doc lib.Value)) (m : Shadow lib.Value)
      (c1 c2 c1' c2' : Cell lib) (n1 n2 : Doc lib.Value)
      → get lib c1 ≡ ok m
      → get lib c2 ≡ ok (record m { report = x })
      → write_props lib w c1 ≡ (ok n1, c1')
      → write_props lib w c2 ≡ (ok n2, c2')
      → get lib c1' ≡ get lib c2'
  unfolding new_report
  write_props_overwrites (whole, new) x m c1 c2 c1' c2' n1 n2 h1 h2 r1 r2 =
      let (d1, p1, s1) = write_props-report whole new c1 c1' n1 r1 in
      let (d2, p2, s2) = write_props-report whole new c2 c2' n2 r2 in
      let (m1, w1, l1, k1, g1, f1) = get-report whole true c1 c1' d1 p1 in
      let (m2, w2, l2, k2, g2, f2) = get-report whole true c2 c2' d2 p2 in
      let e1 = ok-inj (sym l1 ∙ h1) in
      let e2 = ok-inj (sym l2 ∙ h2) in
      let v1 = ok-inj k1 in
      let v2 = ok-inj k2 in
      g1
      ∙ ap {A = Shadow lib.Value} (λ y. reads (record y { report = some w1 })) e1
      ∙ ap {A = Doc lib.Value} (λ y. reads (record m { report = some y })) (sym v1 ∙ v2)
      ∙ ap {A = Shadow lib.Value} (λ y. reads (record y { report = some w2 })) (sym e2)
      ∙ sym g2
