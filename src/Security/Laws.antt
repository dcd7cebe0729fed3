-- ===== src/Security/Laws.antt =====
-- What the store of certificates has after any calls.
use text.Mathlib.TextLemmas.{append_cancel_left}
use baetyl.Base.{
  ℕ, String, true, false, none, some, List, [], ◌∷◌, ◌≡◌, ◌≢◌, ◌⊎◌, inl, inr, sym, ap, ◌∙◌, arith,
  Option-cases, Bool-cases, string_eq,
}
use baetyl.Base.Dict
use baetyl.Base.Dict.{Dict, lookup-insert, lookup-delete, has-lookup, has-insert, has-delete}
use baetyl.Message.{failed}
use baetyl.Message.Laws.{Try-cases}
use baetyl.Security.{
  Lib, Store, not_found, CertPem, AltNames, ca_names, node_cn, gen_sto_key, get_ca_cert,
  issue_certificate, put_cert, gen_self_signed, new_pki, revoke_certificate, rotate_certificate,
}

pub data Call : Type 0 where
  start : ℕ → Call
  issue : String → AltNames → Call
  revoke : String → Call
  rotate : ℕ → String → Call

-- The name whose certificate a call takes from the store.
abbrev pub Spares : String → Call → Type 0
Spares cn (revoke cn') = cn' ≢ cn
Spares cn (rotate n cn') = cn' ≢ cn
Spares cn _ = Unit

abbrev pub Spared : String → List Call → Type 0
Spared cn [] = Unit
Spared cn (c ∷ cs) = Spares cn c × Spared cn cs

gen_sto_key_inj : (a b : String) → gen_sto_key a ≡ gen_sto_key b → a ≡ b
gen_sto_key_inj a b h = append_cancel_left "-" _ _ (append_cancel_left "baetyl-cert" _ _ h)

module _ (lib : Lib) where
  unfoldable pub call : Call → Store → Store
  unfolding new_pki revoke_certificate rotate_certificate
  call (start n) s = (new_pki lib n s).1
  call (issue cn alt) s = s
  call (revoke cn) s = (revoke_certificate lib cn s).1
  call (rotate n cn) s = (rotate_certificate lib n cn s).1

  unfoldable pub calls : List Call → Store → Store
  unfolding call
  calls [] s = s
  calls (c ∷ cs) s = calls cs (call c s)

  abbrev node_key : String
  node_key = gen_sto_key (node_cn lib)

  revoke-lookup :
      (cn k : String) (s : Store)
      → k ≢ gen_sto_key cn
      → Dict.lookup k (revoke_certificate lib cn s).1 ≡ Dict.lookup k s
  unfolding revoke_certificate
  revoke-lookup cn k s h = ground (arith, lookup-delete k (gen_sto_key cn) s)

  rotate-store :
      (n : ℕ) (cn : String) (s : Store)
      → ((rotate_certificate lib n cn s).1 ≡ s)
        ⊎ ((rotate_certificate lib n cn s).1 ≡ (revoke_certificate lib cn s).1)
  unfolding rotate_certificate
  rotate-store n cn s = ground arith

  put_cert-lookup :
      (k : String) (cert : CertPem) (j : String) (c : CertPem) (s : Store)
      → Dict.lookup j s ≡ some c
      → Dict.lookup j (put_cert lib k cert s).1 ≡ some c
  unfolding put_cert
  put_cert-lookup k cert j c s h = ground (arith, has-lookup k s, lookup-insert j k cert s)

  put_cert-origin :
      (k : String) (cert : CertPem) (j : String) (s : Store)
      → Dict.has j (put_cert lib k cert s).1 ≡ true
      → (Dict.has j s ≡ true) ⊎ (j ≡ k)
  unfolding put_cert
  put_cert-origin k cert j s h = ground (arith, has-insert j k cert s)

  -- A start leaves the store, or puts one certificate under the key of the node.
  start-cases :
      (n : ℕ) (s : Store)
      → ((new_pki lib n s).1 ≡ s)
        ⊎ ((cert : CertPem) × ((new_pki lib n s).1 ≡ (put_cert lib node_key cert s).1))
  unfolding new_pki gen_self_signed
  start-cases n s = elim (Option-cases lib.client_error) [
    | inr (e, p) ↦ inl (ground arith)
    | inl p ↦ elim (Try-cases (lib.self_signed n (node_cn lib) ca_names)) [
      | inl (e, q) ↦ inl (ground arith)
      | inr (cert, q) ↦ inr (cert, ground arith)
    ]
  ]

  start-lookup :
      (n : ℕ) (j : String) (c : CertPem) (s : Store)
      → Dict.lookup j s ≡ some c
      → Dict.lookup j (new_pki lib n s).1 ≡ some c
  start-lookup n j c s h = elim (start-cases n s) [
    | inl p ↦ ap (Dict.lookup j) p ∙ h
    | inr (cert, p) ↦ ap (Dict.lookup j) p ∙ put_cert-lookup node_key cert j c s h
  ]

  -- A key that is there after a start was there before, or is that of the node.
  start-origin :
      (n : ℕ) (j : String) (s : Store)
      → Dict.has j (new_pki lib n s).1 ≡ true
      → (Dict.has j s ≡ true) ⊎ (j ≡ node_key)
  start-origin n j s h = elim (start-cases n s) [
    | inl p ↦ inl (sym (ap (Dict.has j) p) ∙ h)
    | inr (cert, p) ↦ put_cert-origin node_key cert j s (sym (ap (Dict.has j) p) ∙ h)
  ]

  call-keeps :
      (c : Call) (s : Store) (ca : CertPem)
      → Spares (node_cn lib) c
      → Dict.lookup node_key s ≡ some ca
      → Dict.lookup node_key (call c s) ≡ some ca
  unfolding call
  call-keeps (start n) s ca h e = start-lookup n node_key ca s e
  call-keeps (issue cn alt) s ca h e = e
  call-keeps (revoke cn) s ca h e =
      revoke-lookup cn node_key s (λ p. h (sym (gen_sto_key_inj _ _ p))) ∙ e
  call-keeps (rotate n cn) s ca h e = elim (rotate-store n cn s) [
    | inl p ↦ ap (Dict.lookup node_key) p ∙ e
    | inr p ↦
        ap (Dict.lookup node_key) p
        ∙ revoke-lookup cn node_key s (λ p. h (sym (gen_sto_key_inj _ _ p)))
        ∙ e
  ]

  abbrev pub NodeOnly : Store → Type 0
  NodeOnly s = (k : String) → Dict.has k s ≡ true → k ≡ node_key

  nothing-NodeOnly : NodeOnly []
  unfolding Dict.has
  nothing-NodeOnly k h = ground arith

  revoke-has :
      (cn k : String) (s : Store)
      → Dict.has k (revoke_certificate lib cn s).1 ≡ true
      → Dict.has k s ≡ true
  unfolding revoke_certificate
  revoke-has cn k s h = ground (arith, has-delete k (gen_sto_key cn) s)

  call-NodeOnly : (c : Call) (s : Store) → NodeOnly s → NodeOnly (call c s)
  unfolding call
  call-NodeOnly (start n) s h k p = elim (start-origin n k s p) [ inl q ↦ h k q | inr q ↦ q ]
  call-NodeOnly (issue cn alt) s h k p = h k p
  call-NodeOnly (revoke cn) s h k p = h k (revoke-has cn k s p)
  call-NodeOnly (rotate n cn) s h k p = elim (rotate-store n cn s) [
    | inl q ↦ h k (sym (ap (Dict.has k) q) ∙ p)
    | inr q ↦ h k (revoke-has cn k s (sym (ap (Dict.has k) q) ∙ p))
  ]

  calls-NodeOnly : (cs : List Call) (s : Store) → NodeOnly s → NodeOnly (calls cs s)
  unfolding calls
  calls-NodeOnly [] s h = h
  calls-NodeOnly (c ∷ cs) s h = calls-NodeOnly cs (call c s) (call-NodeOnly c s h)

  calls-keeps :
      (cs : List Call) (s : Store) (ca : CertPem)
      → Spared (node_cn lib) cs
      → Dict.lookup node_key s ≡ some ca
      → Dict.lookup node_key (calls cs s) ≡ some ca
  unfolding calls
  calls-keeps [] s ca h e = e
  calls-keeps (c ∷ cs) s ca (h, hs) e = calls-keeps cs (call c s) ca hs (call-keeps c s ca h e)

  -- If the store holds the certificate of the node and reading it does not fail, then after
  -- any calls that neither revoke nor rotate it, starts among them, each certificate is
  -- signed by the one that the store had at first.
  pub issued_by_first :
      (cs : List Call) (s : Store) (ca : CertPem) (n : ℕ) (cn : String) (alt : AltNames)
      → Spared (node_cn lib) cs
      → Dict.lookup node_key s ≡ some ca
      → lib.get_error node_key ≡ none
      → issue_certificate lib n cn alt (calls cs s) ≡ lib.sub_cert n cn alt ca
  unfolding issue_certificate get_ca_cert
  issued_by_first cs s ca n cn alt h e ok = ground (arith, calls-keeps cs s ca h e)

  calls-absent :
      (cs : List Call) (cn : String)
      → cn ≢ node_cn lib
      → Dict.has (gen_sto_key cn) (calls cs []) ≡ false
  calls-absent cs cn h = elim (Bool-cases (Dict.has (gen_sto_key cn) (calls cs []))) [
    | inl p ↦
        absurd (h (gen_sto_key_inj _ _ (calls-NodeOnly cs [] nothing-NodeOnly (gen_sto_key cn) p)))
    | inr p ↦ p
  ]

  -- From the empty store, whatever the calls before and the certificates that they issued, if
  -- the store itself does not fail, the certificate of a service can be neither revoked nor
  -- rotated: both fail, and change nothing.
  pub issued_never_rotates :
      (cs : List Call) (n : ℕ) (cn : String)
      → cn ≢ node_cn lib
      → lib.get_error (gen_sto_key cn) ≡ none
      → lib.delete_error (gen_sto_key cn) ≡ none
      → let s = calls cs [] in
        (rotate_certificate lib n cn s ≡ (failed not_found, s))
        × (revoke_certificate lib cn s ≡ (some not_found, s))
  unfolding rotate_certificate revoke_certificate
  issued_never_rotates cs n cn h get_ok del_ok =
      let absent = calls-absent cs cn h in
      let missing = has-lookup (gen_sto_key cn) (calls cs []) in (ground arith, ground arith)
