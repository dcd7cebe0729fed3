-- ===== src/Security.antt =====
-- security/pki.go: the certificate of the node that signs those of the services.
pub mod Laws
use mathlib.Core.Option
use baetyl.Base.{ℕ, String, ◌<>◌, Option, none, some, List, [], ◌∷◌, ◌==◌, string_eq, if◌then◌else◌}
use baetyl.Base.Dict
use baetyl.Base.Dict.{Dict}
use baetyl.Message.{Try, done, failed}

-- `pki.CertPem`
pub record CertPem : Type 0 where
  pub crt : String
  pub private_key : String

pub record AltNames : Type 0 where
  pub dns_names : List String
  pub ips : List String
  pub emails : List String
  pub uris : List String

-- The names of the certificate of the node.
abbrev pub ca_names : AltNames
ca_names = record {
  dns_names = [];
  ips = "0.0.0.0" ∷ "127.0.0.1" ∷ [];
  emails = [];
  uris = "https://localhost" ∷ [];
}

-- The fields of `x509.Certificate` that are read: the common name of the subject, and the other names.
pub record CertInfo : Type 0 where
  pub common_name : String
  pub alt : AltNames

-- The client of baetyl-go's pki, the environment, and the errors of the store other than those about
-- its keys. Each certificate has a fresh key pair: the number says which.
pub record Lib : Type 0 where
  pub client_error : Option String
  pub node_namespace : String
  pub node_name : String
  pub self_signed : ℕ → String → AltNames → Try CertPem
  pub sub_cert : ℕ → String → AltNames → CertPem → Try CertPem
  pub parse : String → Try (List CertInfo)
  pub insert_error : String → Option String
  pub get_error : String → Option String
  pub delete_error : String → Option String

-- The table of the certificates in the store.
abbrev pub Store : Type 0
Store = Dict String CertPem

abbrev pub Outcome : Type 0
Outcome = Option String × Store

abbrev pub not_found : String
not_found = "No data found for this key"

abbrev pub gen_sto_key : String → String
gen_sto_key cn = "baetyl-cert" <> "-" <> cn

module _ (lib : Lib) where
  abbrev pub node_cn : String
  node_cn = lib.node_namespace <> "." <> lib.node_name

  abbrev pub sto_get : String → Store → Try CertPem
  sto_get k s = elim (lib.get_error k) [
    | some e ↦ failed e
    | none ↦ elim (Dict.lookup k s) [ none ↦ failed not_found | some c ↦ done c ]
  ]

  unfoldable pub get_ca_cert : Store → Try CertPem
  get_ca_cert s = sto_get (gen_sto_key node_cn) s

  unfoldable pub get_ca : Store → Try String
  unfolding get_ca_cert
  get_ca s = elim (get_ca_cert s) [ failed e ↦ failed e | done cert ↦ done cert.crt ]

  -- The store is not written.
  unfoldable pub issue_certificate : ℕ → String → AltNames → Store → Try CertPem
  unfolding get_ca_cert
  issue_certificate n cn alt s = elim (get_ca_cert s) [
    | failed e ↦ failed e
    | done ca ↦ lib.sub_cert n cn alt ca
  ]

  -- `p.sto.Insert`: a key that is there is kept, and this error is only logged.
  unfoldable pub put_cert : String → CertPem → Store → Outcome
  put_cert k cert s = elim (lib.insert_error k) [
    | some e ↦ (some e, s)
    | none ↦ if Dict.has k s then (none, s) else (none, Dict.insert k cert s)
  ]

  unfoldable pub gen_self_signed : ℕ → Store → Outcome
  unfolding put_cert
  gen_self_signed n s = elim (lib.self_signed n node_cn ca_names) [
    | failed e ↦ (some e, s)
    | done cert ↦ put_cert (gen_sto_key node_cn) cert s
  ]

  unfoldable pub new_pki : ℕ → Store → Outcome
  unfolding gen_self_signed
  new_pki n s = elim (lib.client_error) [ some e ↦ (some e, s) | none ↦ gen_self_signed n s ]

  -- `p.sto.Delete`: a key that is not there is an error.
  unfoldable pub revoke_certificate : String → Store → Outcome
  revoke_certificate cn s = elim (lib.delete_error (gen_sto_key cn)) [
    | some e ↦ (some e, s)
    | none ↦
        if Dict.has (gen_sto_key cn) s
        then (none, Dict.delete (gen_sto_key cn) s)
        else (some not_found, s)
  ]

  -- The end of `RotateCertificate`, on what the old certificate tells.
  unfoldable pub reissue : ℕ → Try (List CertInfo) → Store → Try CertPem
  unfolding issue_certificate
  reissue n (failed e) s = failed e
  reissue n (done []) s = failed "rotate certificate error"
  reissue n (done (info ∷ [])) s = issue_certificate n info.common_name info.alt s
  reissue n (done (info ∷ _ ∷ _)) s = failed "rotate certificate error"

  unfoldable pub rotate_certificate : ℕ → String → Store → Try CertPem × Store
  unfolding revoke_certificate reissue
  rotate_certificate n cn s = elim (sto_get (gen_sto_key cn) s) [
    | failed e ↦ (failed e, s)
    | done cert ↦
        let (err, s') = revoke_certificate cn s in
        elim err [ some e ↦ (failed e, s') | none ↦ (reissue n (lib.parse cert.crt) s', s') ]
  ]
