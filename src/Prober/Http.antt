-- ===== src/Prober/Http.antt =====
-- ami/native/prober/http_probe.go and tcp_probe.go: one request, and what its answer says of the process.
use baetyl.Base.{
  ℕ, String, ◌<>◌, not, ◌&&◌, Option, none, some, List, [], ◌∷◌, ltb, leb, ◌==◌, string_eq, nat_eq,
  if◌then◌else◌,
}
use baetyl.Base.Text.{itoa}
use baetyl.Base.Dict
use baetyl.Base.Dict.{Dict}
use baetyl.Prober.Probe.{success, warning, failure, Answer, Url}

-- What reading a body gives: the text, with whether the limit was reached, or another error.
pub data Body : Type 0 where
  whole truncated : String → Body
  broken : String → Body

pub record Response : Type 0 where
  pub status_code : ℕ
  pub body : Body

pub data Reply : Type 0 where
  replied : Response → Reply
  refused : String → Reply

-- Go's HTTP client and Kubernetes' version: `new_request` gives its error where the URL is bad.
pub record HttpLib : Type 0 where
  pub new_request : Url → Option String
  pub do_request : Url → Dict String (List String) → String → Reply
  pub user_agent : String

-- `headers.Get(key)` on a name in its canonical form.
abbrev pub first_value : String → Dict String (List String) → String
first_value key headers = elim (Dict.lookup key headers) [
  | none ↦ ""
  | some values ↦ elim values [ [] ↦ "" | v ∷ _ ↦ v ]
]

abbrev pub with_user_agent : HttpLib → Dict String (List String) → Dict String (List String)
with_user_agent lib headers =
    if Dict.has "User-Agent" headers
    then headers
    else Dict.insert "User-Agent" (lib.user_agent ∷ []) headers

unfoldable pub request_headers : HttpLib → Dict String (List String) → Dict String (List String)
request_headers lib headers =
    let h = with_user_agent lib headers in
    if not (Dict.has "Accept" h)
    then Dict.insert "Accept" ("*/*" ∷ []) h
    else if first_value "Accept" h == ""
    then Dict.delete "Accept" h
    else h

abbrev failed : String → Answer
failed output = record { result = failure; output = output; error = none }

-- `res.StatusCode >= http.StatusOK && res.StatusCode < http.StatusBadRequest`, and the redirects.
unfoldable pub classify : ℕ → String → Answer
classify code body =
    if leb 200 code && ltb code 400
    then (if leb 300 code
        then record { result = warning; output = body; error = none }
        else record { result = success; output = body; error = none })
    else failed ("HTTP probe failed with statuscode: " <> itoa code)

unfoldable pub do_http_probe : HttpLib → Url → Dict String (List String) → Answer
unfolding request_headers classify
do_http_probe lib url headers = elim (lib.new_request url) [
  | some e ↦ failed e
  | none ↦
      elim (lib.do_request url (request_headers lib headers)
        (first_value "Host" (request_headers lib headers))) [
          | refused e ↦ failed e
          | replied res ↦ elim (res.body) [
            | broken e ↦ record { result = failure; output = ""; error = some e }
            | whole text ↦ classify res.status_code text
            | truncated text ↦ classify res.status_code text
          ]
        ]
]

-- `DoTCPProbe`, on the error of the dial.
unfoldable pub do_tcp_probe : Option String → Answer
do_tcp_probe none = record { result = success; output = ""; error = none }
do_tcp_probe (some e) = failed e
