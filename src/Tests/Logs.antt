-- ===== src/Tests/Logs.antt =====
-- The parameters of a request for a log.
use baetyl.Base.{ℕ, none, some, ◌≡◌, refl, string_eq, nat_eq}
use baetyl.Base.Number.{pos, negsuc, parse_int, parse_unsigned, digits}
use baetyl.Engine.Logs.{valid_param, read_param}
use baetyl.Engine.Logs.Laws.{ReadAs, valid_param-ReadAs}

parses_negative : parse_int "-12" ≡ some (negsuc 11)
unfolding parse_int parse_unsigned digits nat_eq
parses_negative = refl

overflows : parse_int "9223372036854775808" ≡ none
unfolding parse_int parse_unsigned digits nat_eq
overflows = refl

valid_param-ReadAs_example :
    (m : ℕ) × (n : ℕ) × (◌≡◌ {A = _} (pos 120) (pos m))
    × (◌≡◌ {A = _} (pos 0) (pos n))
    × ReadAs "120" m
    × ReadAs "" n
unfolding valid_param read_param parse_int parse_unsigned digits string_eq nat_eq
valid_param-ReadAs_example = valid_param-ReadAs "120" "" (pos 120) (pos 0) refl
