-- ===== src/Engine/Logs/Laws.antt =====
-- The range of the parameters of a log.
use Prim.Native.String as Text
use Prim.Native.Char.{code}
use baetyl.Base.{
  ℕ, zero, suc, String, Bool, true, false, Option, none, some, ◌<◌, ◌≡◌, ◌≢◌, ◌⊎◌, inl, inr, refl,
  arith, Bool-cases, ◌==◌, string_eq, nat_eq,
}
use baetyl.Base.Number.{ℤ, pos, negsuc, int_bound, in_range, parse_unsigned, parse_int}
use baetyl.Engine.Logs.{
  Refused, Checked, accepted, tail_lines_invalid, since_seconds_invalid, read_param, valid_param,
}

in_range-bound :
    (negative : Bool) (o : Option ℕ) (n : ℕ) → in_range negative o ≡ some (pos n) → n < int_bound
in_range-bound true none n h = cc
in_range-bound false none n h = cc
in_range-bound false (some m) n h = ground arith
in_range-bound true (some zero) n h = ground arith
in_range-bound true (some (suc m)) n h = ground arith

parse_int-bound : (text : String) (n : ℕ) → parse_int text ≡ some (pos n) → n < int_bound
unfolding parse_int
parse_int-bound Text.[] n h = cc
parse_int-bound (Text.◌∷◌ c s) n h = elim (Bool-cases (code c == 45)) [
  | inl p ↦ in_range-bound true (parse_unsigned s) n (ground arith)
  | inr p ↦ elim (Bool-cases (code c == 43)) [
    | inl q ↦ in_range-bound false (parse_unsigned s) n (ground arith)
    | inr q ↦ in_range-bound false (parse_unsigned (Text.◌∷◌ c s)) n (ground arith)
  ]
]

-- The number that a parameter is taken for: 0 without a text, and else what the text reads as.
pub record ReadAs (text : String) (n : ℕ) : Type 0 where
  pub bound : n < int_bound
  pub empty : text ≡ "" → n ≡ 0
  pub parsed : text ≢ "" → parse_int text ≡ some (pos n)

parse-cases :
    (o : Option ℤ) → (o ≡ none) ⊎ ((n : ℕ) × (o ≡ some (pos n))) ⊎ ((n : ℕ) × (o ≡ some (negsuc n)))
parse-cases none = inl refl
parse-cases (some (pos n)) = inr (inl (n, refl))
parse-cases (some (negsuc n)) = inr (inr (n, refl))

read_param-ReadAs :
    (text : String) (why : Refused) (next : ℤ → Checked) (x y : ℤ)
    → read_param text why next ≡ accepted x y
    → (n : ℕ) × ReadAs text n × (next (pos n) ≡ accepted x y)
unfolding read_param
read_param-ReadAs text why next x y h = elim (string_eq.dec text "") [
  | yes p ↦ (
    0,
    record { bound = omega arith; empty = λ q. refl; parsed = λ q. absurd (q p) },
    ground arith,
  )
  | no p ↦ elim (parse-cases (parse_int text)) [
    | inl q ↦ ground arith
    | inr (inl (n, q)) ↦ (
      n,
      record { bound = parse_int-bound text n q; empty = λ r. absurd (p r); parsed = λ r. q },
      ground arith,
    )
    | inr (inr (n, q)) ↦ ground arith
  ]
]

-- Parameters of a log that are accepted are numbers from 0 to 2 ^ 63 - 1: 0 for an empty text,
-- and else what the text reads as.
pub valid_param-ReadAs :
    (tail_lines since_seconds : String) (x y : ℤ)
    → valid_param tail_lines since_seconds ≡ accepted x y
    → (m : ℕ) × (n : ℕ) × (x ≡ pos m) × (y ≡ pos n) × ReadAs tail_lines m × ReadAs since_seconds n
unfolding valid_param
valid_param-ReadAs tail_lines since_seconds x y h =
    let (m, a, h1) =
      read_param-ReadAs tail_lines tail_lines_invalid
        (λ tail. read_param since_seconds since_seconds_invalid (λ since. accepted tail since)) x y
        h in
    let (n, b, h2) =
      read_param-ReadAs since_seconds since_seconds_invalid (λ since. accepted (pos m) since) x y
        h1 in
    (m, n, ground arith, ground arith, a, b)
