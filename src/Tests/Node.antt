-- ===== src/Tests/Node.antt =====
-- node/node.go on a document that is its own text, with properties that are numbers.
use baetyl.Base.{
  ℕ, true, false, Option, none, some, [], ◌∷◌, ◌≡◌, ◌⊎◌, inl, refl, string_eq, nat_eq,
}
use baetyl.Base.Dict
use baetyl.Node.Defs.{
  Error, Result, ok, err, Doc, Shadow, Lib, IsTransactional, Cell, load, get, new_desire,
  desire_body, desire, new_report, report_body, report, save, insert_body, insert, new_node,
  write_props,
}
use baetyl.Node.Laws.{Desired, Reported, desire_atomic, report_atomic}
use baetyl.Node.Props.{IsDecoded, get-desire, get-report, new_node_keeps, write_props_overwrites}

abbrev pub commit :
    (A : Type 0) → Result (A × Option (Shadow ℕ)) → Option (Shadow ℕ) → Result A × Option (Shadow ℕ)
commit A (ok (a, c')) c = (ok a, c')
commit A (err e) c = (err e, c)

abbrev pub merged : Doc ℕ → Doc ℕ → Doc ℕ
merged old [] = old
merged old ((k, v) ∷ new) = (k, v) ∷ merged old new

-- Empty maps are omitted.
abbrev pub omitted : Option (Doc ℕ) → Option (Doc ℕ)
omitted none = none
omitted (some []) = none
omitted (some (e ∷ d)) = some (e ∷ d)

abbrev pub plain : Lib
plain = record {
  Value = ℕ;
  Bytes = Shadow ℕ;
  len = λ b. 1;
  marshal = λ m. some m;
  unmarshal = λ b. some (record b { desire = omitted b.desire; report = omitted b.report });
  merge = λ old new. some (merged old new);
  diff_with_nil = λ a b. a;
  patch = λ old new. some (merged old new);
  as_map = λ v. none;
  of_map = λ d. 0;
  is_nil = λ v. false;
  is_string = λ v. true;
  put = λ b c. some (some b);
  update = λ A f c. commit A (f c) c;
}

plain_transactional : IsTransactional plain
plain_transactional = record {
  put_reads = λ b c c' h. cc;
  update_fails = λ A f c e h. rw h refl;
  update_runs = λ A f c c' a h. inl (rw h refl);
}

plain_decoded : IsDecoded plain
unfolding nat_eq
plain_decoded = record { normal = omitted; reads_back = λ m b h. cc; not_empty = λ m b h. refl }

abbrev old_doc : Shadow ℕ
old_doc = record { created = 3; desire = some (("a", 1) ∷ []); report = some (("a", 2) ∷ []) }

abbrev wanted : Doc ℕ
wanted = ("b", 7) ∷ []

get-desire_example :
    (m : Shadow ℕ) × (d : Doc ℕ) × (get plain (some old_doc) ≡ ok m)
    × (new_desire plain m.desire wanted true ≡ ok d)
    × (get plain (some (record old_doc { desire = some wanted }))
        ≡ ok (record m { desire = omitted (some d); report = omitted m.report }))
    × (some d ≡ some wanted)
unfolding plain_decoded get load desire desire_body new_desire save nat_eq
get-desire_example =
    get-desire plain plain_transactional plain_decoded wanted true (some old_doc)
      (some (record old_doc { desire = some wanted })) wanted refl

get-report_example :
    (m : Shadow ℕ) × (r : Doc ℕ) × (get plain (some old_doc) ≡ ok m)
    × (new_report plain m.report wanted true ≡ ok r)
    × (get plain (some (record old_doc { report = some wanted }))
        ≡ ok (record m { desire = omitted m.desire; report = omitted (some r) }))
    × (m.desire ≡ some (("a", 1) ∷ []))
unfolding plain_decoded get load report report_body new_report save nat_eq
get-report_example =
    get-report plain plain_transactional plain_decoded wanted true (some old_doc)
      (some (record old_doc { report = some wanted })) (("a", 1) ∷ []) refl

desire_atomic_example :
    ((e : Error) × (desire plain wanted false (some old_doc) ≡ (err e, some old_doc)))
    ⊎ ((delta : Doc ℕ) × (c' : Cell plain) × (desire plain wanted false (some old_doc)
          ≡ (ok delta, c'))
        × Desired plain plain_transactional wanted false (some old_doc) c' delta)
desire_atomic_example = desire_atomic plain plain_transactional wanted false (some old_doc)

report_atomic_example :
    ((e : Error) × (report plain wanted false (some old_doc) ≡ (err e, some old_doc)))
    ⊎ ((delta : Doc ℕ) × (c' : Cell plain) × (report plain wanted false (some old_doc)
          ≡ (ok delta, c'))
        × Reported plain plain_transactional wanted false (some old_doc) c' delta)
report_atomic_example = report_atomic plain plain_transactional wanted false (some old_doc)

abbrev grown : Shadow ℕ
grown = record old_doc { report = some (("b", 7) ∷ ("a", 2) ∷ []) }

new_node_keeps_example :
    (r : Doc ℕ) × (new_report plain old_doc.report wanted false ≡ ok r)
    × (get plain (some grown) ≡ ok (record old_doc { report = omitted (some r) }))
unfolding plain_decoded get load new_node insert insert_body report report_body new_report save
    nat_eq string_eq baetyl.Node.Defs.put_over Dict.lookup
new_node_keeps_example =
    new_node_keeps plain plain_transactional plain_decoded 9 wanted old_doc (some old_doc)
      (some grown) refl refl

write_props_overwrites_example :
    get plain (some (record old_doc { report = some wanted }))
    ≡ get plain (some (record old_doc { report = some wanted }))
unfolding get load report report_body new_report save nat_eq write_props
write_props_overwrites_example =
    write_props_overwrites plain plain_transactional plain_decoded (wanted, wanted)
      (some (("c", 5) ∷ [])) old_doc (some old_doc)
      (some (record old_doc { report = some (("c", 5) ∷ []) }))
      (some (record old_doc { report = some wanted }))
      (some (record old_doc { report = some wanted })) wanted wanted refl refl refl refl
