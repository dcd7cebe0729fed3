-- ===== src/Engine/Logs.antt =====
-- engine/engine.go, `GetServiceLog` and `validParam`: a request for the log of a service.
pub mod Laws
use mathlib.Core.Option
use Prim.Native.String as Text
use Prim.Native.Char.{code}
use baetyl.Base.{
  ℕ, String, Bool, true, false, Option, none, some, ◌==◌, string_eq, nat_eq, if◌then◌else◌,
}
use baetyl.Base.Number.{ℤ, pos, negsuc, parse_int}
use baetyl.Message.{Try, done, failed}

-- Why a parameter is refused.
pub data Refused : Type 0 where
  not_a_number : String → Refused
  tail_lines_invalid since_seconds_invalid : Refused

pub data Checked : Type 0 where
  refused : Refused → Checked
  accepted : ℤ → ℤ → Checked

-- A number that was read, which must not be negative.
abbrev pub not_negative : String → Refused → (ℤ → Checked) → Option ℤ → Checked
not_negative text why next none = refused (not_a_number text)
not_negative text why next (some (negsuc n)) = refused why
not_negative text why next (some (pos n)) = next (pos n)

-- One parameter: the empty text leaves it 0.
unfoldable pub read_param : String → Refused → (ℤ → Checked) → Checked
read_param text why next =
    if text == "" then next (pos 0) else not_negative text why next (parse_int text)

unfoldable pub valid_param : String → String → Checked
unfolding read_param
valid_param tail_lines since_seconds =
    read_param tail_lines tail_lines_invalid
      (λ tail. read_param since_seconds since_seconds_invalid (λ since. accepted tail since))

-- `strings.HasPrefix`
unfoldable pub has_prefix : String → String → Bool
has_prefix s Text.[] = true
has_prefix Text.[] (Text.◌∷◌ c p) = false
has_prefix (Text.◌∷◌ d s) (Text.◌∷◌ c p) =
    let rest = has_prefix s p in if code c == code d then rest else false

pub record Lib : Type 0 where
  pub edge_namespace : String
  pub system_namespace : String
  pub refused_text : Refused → String
  pub fetch_log : String → String → String → ℤ → ℤ → Try String

-- The status of the answer, and its body.
abbrev pub Response : Type 0
Response = ℕ × String

abbrev pub respond : Try String → Response
respond (failed e) = (500, e)
respond (done bytes) = (200, bytes)

module _ (lib : Lib) where
  abbrev pub namespace_of : String → String
  namespace_of service =
      if has_prefix service "baetyl-" then lib.system_namespace else lib.edge_namespace

  abbrev pub answer : String → String → Checked → Response
  answer service container (refused why) = (400, lib.refused_text why)
  answer service container (accepted tail since) =
      respond (lib.fetch_log (namespace_of service) service container tail since)

  -- The container is the empty text where the request names none.
  unfoldable pub get_service_log : String → Option String → String → String → Response
  unfolding valid_param
  get_service_log service container tail_lines since_seconds =
      answer service (elim container [ none ↦ "" | some c ↦ c ])
        (valid_param tail_lines since_seconds)
