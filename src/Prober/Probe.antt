-- ===== src/Prober/Probe.antt =====
-- ami/native/prober/prober.go: one probe, with its retries.
pub mod Laws
use mathlib.Core.Option
use baetyl.Base.{
  ℕ, zero, suc, String, Bool, true, false, Option, none, some, List, [], ◌∷◌, ◌++◌, foldl, ltb, ◌+◌,
  ◌==◌, string_eq, nat_eq, if◌then◌else◌,
}
use baetyl.Base.Dict
use baetyl.Base.Dict.{Dict}

-- `ProbeResult`; `unset` is the empty text of a worker that has not probed.
pub data ProbeResult : Type 0 where
  success warning failure unknown unset : ProbeResult

-- `intstr.IntOrString`, as its `String()` and its `IntValue()`.
pub record Port : Type 0 where
  pub text : String
  pub number : ℕ

pub record HttpGet : Type 0 where
  pub scheme : String
  pub host : String
  pub port : Port
  pub path : String
  pub headers : List (String × String)

pub record TcpSocket : Type 0 where
  pub host : String
  pub port : Port

-- `v1.Probe` of Kubernetes, with the fields that are read.
pub record ProbeSpec : Type 0 where
  pub http_get : Option HttpGet
  pub tcp_socket : Option TcpSocket
  pub timeout_seconds : ℕ
  pub initial_delay_seconds : ℕ
  pub period_seconds : ℕ
  pub failure_threshold : ℕ
  pub success_threshold : ℕ

pub record Url : Type 0 where
  pub scheme : String
  pub host : String
  pub path : String

-- `(result, output, err)`
pub record Answer : Type 0 where
  pub result : ProbeResult
  pub output : String
  pub error : Option String

-- What the code calls: Go's strings and URLs, and the network, which may answer each attempt otherwise.
pub record Lib : Type 0 where
  pub to_lower : String → String
  pub join_host_port : String → ℕ → String
  pub parse_url : String → Option Url
  pub http_probe : ℕ → Url → Dict String (List String) → ℕ → Answer
  pub tcp_probe : ℕ → String → ℕ → ℕ → Answer

abbrev max_probe_retries : ℕ
max_probe_retries = 3

abbrev pub localhost : String
localhost = "127.0.0.1"

abbrev pub or_localhost : String → String
or_localhost host = if host == "" then localhost else host

abbrev pub no_port : Answer
no_port = record { result = unknown; output = ""; error = some "No port selected" }

abbrev pub no_handler : Answer
no_handler = record { result = unknown; output = ""; error = some "missing probe handler" }

unfoldable pub build_header : List (String × String) → Dict String (List String)
build_header =
    foldl
      (λ headers (name, value).
        Dict.insert name
          (elim (Dict.lookup name headers) [ none ↦ [] | some old ↦ old ] ++ (value ∷ [])) headers)
      []

-- What a call gives: its value, or a panic.
pub data Run (A : Type 0) : Type 0 where
  returns : A → Run A
  panics : Run A

abbrev pub is_good : ProbeResult → Bool
is_good success = true
is_good warning = true
is_good _ = false

-- `(result, err)`
abbrev pub judge : Answer → ProbeResult × Option String
judge a = elim (a.error) [
  | some e ↦ (failure, some e)
  | none ↦ if is_good a.result then (success, none) else (failure, none)
]

module _ (lib : Lib) where
  -- `u, err := url.Parse(path)`, and the path as it is where it does not parse.
  abbrev pub parsed : String → Url
  parsed path = elim (lib.parse_url path) [
    | none ↦ record { scheme = ""; host = ""; path = path }
    | some u ↦ u
  ]

  unfoldable pub format_url : String → String → ℕ → String → Url
  format_url scheme host port path = record (parsed path) {
    scheme = scheme;
    host = lib.join_host_port host port;
  }

  -- `port := p.HTTPGet.Port`, also under `p.TCPSocket != nil`, where `p.HTTPGet` is nil.
  unfoldable pub run_probe : ℕ → ProbeSpec → Run Answer
  unfolding format_url build_header
  run_probe attempt p = elim (p.http_get) [
    | some get ↦
        if get.port.text == ""
        then returns no_port
        else returns (
            lib.http_probe attempt
              (format_url (lib.to_lower get.scheme) (or_localhost get.host) get.port.number
                get.path)
              (build_header get.headers) p.timeout_seconds)
    | none ↦ elim (p.tcp_socket) [ some socket ↦ panics | none ↦ returns no_handler ]
  ]

  -- `for i := 0; i < maxProbeRetries; i++`, from attempt `i` on, with what is in the variables.
  unfoldable pub retry : ℕ → ℕ → ProbeSpec → Answer → Run Answer
  unfolding run_probe
  retry zero i p last = returns last
  retry (suc left) i p last = elim (run_probe i p) [
    | panics ↦ panics
    | returns a ↦
        let rest = retry left (suc i) p a in elim (a.error) [ none ↦ returns a | some _ ↦ rest ]
  ]

  unfoldable pub probe : ProbeSpec → Run (ProbeResult × Option String)
  unfolding retry
  probe p =
      elim (retry max_probe_retries 0 p (record { result = unknown; output = ""; error = none })) [
        | panics ↦ panics
        | returns a ↦ returns (judge a)
      ]
