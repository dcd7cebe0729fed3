-- ===== src/Tests/Security.antt =====
-- The certificates of a node, signed by name.
use baetyl.Base.{String, ◌<>◌, none, some, List, [], ◌∷◌, ◌≡◌, refl, string_eq, ne_of_test}
use baetyl.Base.Dict
use baetyl.Base.Text.{itoa}
use baetyl.Message.{done, failed}
use baetyl.Security.{
  Lib, Store, CertPem, ca_names, issue_certificate, revoke_certificate, rotate_certificate,
  not_found,
}
use baetyl.Security.Laws.{Call, start, issue, rotate, calls, issued_by_first, issued_never_rotates}

abbrev pub pem : String → CertPem
pem s = record { crt = s; private_key = s }

abbrev pub signer : Lib
signer = record {
  client_error = none;
  node_namespace = "ns";
  node_name = "node";
  self_signed = λ n cn alt. done (pem cn);
  sub_cert = λ n cn alt ca. done (pem (ca.crt <> "/" <> cn <> "/" <> itoa n));
  parse = λ crt. done [];
  insert_error = λ k. none;
  get_error = λ k. none;
  delete_error = λ k. none;
}

abbrev pub with_ca : Store
with_ca = ("baetyl-cert-ns.node", pem "root") ∷ []

abbrev before : List Call
before = start 0 ∷ issue "a.b" ca_names ∷ rotate 1 "a.b" ∷ []

issued_by_first_example :
    issue_certificate signer 2 "c.d" ca_names (calls signer before with_ca)
    ≡ done (pem "root/c.d/2")
unfolding Dict.lookup string_eq itoa
issued_by_first_example =
    issued_by_first signer before with_ca (pem "root") 2 "c.d" ca_names
      (tt, (tt, (ne_of_test "a.b" "ns.node" refl, tt))) refl refl

issued_never_rotates_example :
    let s = calls signer before [] in
    (rotate_certificate signer 2 "a.b" s ≡ (failed not_found, s))
    × (revoke_certificate signer "a.b" s ≡ (some not_found, s))
unfolding string_eq
issued_never_rotates_example =
    issued_never_rotates signer before 2 "a.b" (ne_of_test "a.b" "ns.node" refl) refl refl
