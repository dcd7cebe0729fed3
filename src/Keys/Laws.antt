-- ===== src/Keys/Laws.antt =====
-- When two resources have one key.
use Prim.Native.String.{count}
use text.Mathlib.TextLemmas.{
  append_inj, append_cancel_left, append_assoc, append-eq-nil_iff, length-append,
}
use baetyl.Base.{String, ◌<>◌, ◌≡◌, ◌≢◌, ◌↔◌, ◌⊎◌, ◌∙◌, sym, ap, arith, string_eq}
use baetyl.Keys.{make_key}

abbrev joined : String → String → String → String
joined kind name ver = kind <> "-" <> name <> "-" <> ver

make_key_named :
    (kind name ver : String) → name ≢ "" → ver ≢ "" → make_key kind name ver ≡ joined kind name ver
unfolding make_key
make_key_named kind name ver n v = ground arith

joined_ne : (kind name ver : String) → ver ≢ "" → joined kind name ver ≢ ""
joined_ne kind name ver v e =
    v
      (append-eq-nil_iff.0
        (append-eq-nil_iff.0 (append-eq-nil_iff.0 (append-eq-nil_iff.0 e).1).1).1).1

-- A key is empty exactly if the name or the version is.
pub make_key_empty_iff :
    (kind name ver : String) → (make_key kind name ver ≡ "") ↔ ((name ≡ "") ⊎ (ver ≡ ""))
unfolding make_key
make_key_empty_iff kind name ver = (λ h. ground (arith, joined_ne kind name ver), λ h. ground arith)

-- Equal keys of one kind, of names and versions that are not empty and of versions of one
-- length, have equal names and versions.
pub make_key_inj :
    (kind n n' v v' : String)
    → n ≢ ""
    → n' ≢ ""
    → v ≢ ""
    → v' ≢ ""
    → count v ≡ count v'
    → make_key kind n v ≡ make_key kind n' v'
    → (n ≡ n') × (v ≡ v')
make_key_inj kind n n' v v' hn hn' hv hv' len e =
    let joint : joined kind n v ≡ joined kind n' v' =
      sym (make_key_named kind n v hn hv) ∙ e ∙ make_key_named kind n' v' hn' hv' in
    let rests = append_cancel_left "-" _ _ (append_cancel_left kind _ _ joint) in
    let (names, tails) = append_inj rests (
      omega (
        arith,
        ap count rests,
        length-append n ("-" <> v),
        length-append n' ("-" <> v'),
        length-append "-" v,
        length-append "-" v',
        len,
      )) in
    (names, append_cancel_left "-" v v' tails)

-- Two resources of one kind have one key if a dash is moved between the name and the version,
-- which are otherwise not empty.
pub make_key_collides :
    (kind a b c : String)
    → a ≢ ""
    → c ≢ ""
    → make_key kind (a <> "-" <> b) c ≡ make_key kind a (b <> "-" <> c)
make_key_collides kind a b c ha hc =
    make_key_named kind (a <> "-" <> b) c (λ e. ha (append-eq-nil_iff.0 e).0) hc
    ∙ ap (λ t. kind <> "-" <> t)
        (append_assoc a ("-" <> b) ("-" <> c) ∙ ap (λ t. a <> t) (append_assoc "-" b ("-" <> c)))
    ∙ sym (
        make_key_named kind a (b <> "-" <> c) ha
          (λ e. hc (append-eq-nil_iff.0 (append-eq-nil_iff.0 e).1).1))
