-- ===== src/Base/Number.antt =====
-- What the program uses of `strconv.ParseInt(text, 10, 64)`.
use Prim.Native.Char.{code}
use Prim.Native.Nat.{ℕ, zero, suc, ◌+◌, ◌-◌, ◌*◌, ◌^◌}
use Prim.Native.String.{String, []}
use Prim.Native.String as Text
use mathlib.Core.Bool.{Bool, true, false, ◌||◌}
use mathlib.Core.Option.{Option, none, some}
use baetyl.Base.Equality.{ltb, leb, nat_eq, ◌==◌, if◌then◌else◌}

pub data ℤ : Type 0 where
  pos negsuc : ℕ → ℤ

abbrev pub neg : ℕ → ℤ
neg zero = pos 0
neg (suc n) = negsuc n

-- The bound of `int64`: 2 ^ 63 itself is out of it.
abbrev pub int_bound : ℕ
int_bound = 2 ^ 63

-- The value of decimal digits after those that make `n`.
unfoldable pub digits : String → ℕ → Option ℕ
digits [] n = some n
digits (Text.◌∷◌ c s) n =
    let rest = digits s (n * 10 + (code c - 48)) in
    if ltb (code c) 48 || ltb 57 (code c) then none else rest

unfoldable pub parse_unsigned : String → Option ℕ
unfolding digits
parse_unsigned [] = none
parse_unsigned (Text.◌∷◌ c s) = digits (Text.◌∷◌ c s) 0

abbrev pub in_range : Bool → Option ℕ → Option ℤ
in_range negative none = none
in_range true (some n) = if leb n int_bound then some (neg n) else none
in_range false (some n) = if ltb n int_bound then some (pos n) else none

unfoldable pub parse_int : String → Option ℤ
unfolding parse_unsigned
parse_int [] = none
parse_int (Text.◌∷◌ c s) =
    if code c == 45
    then in_range true (parse_unsigned s)
    else if code c == 43
    then in_range false (parse_unsigned s)
    else in_range false (parse_unsigned (Text.◌∷◌ c s))
