-- ===== src/Base/Text.antt =====
-- What the program uses of Go's `strings`, `strconv` and `fmt`.
use Prim.Native.Nat.{ℕ, zero, suc, ◌/◌, ◌%◌}
use Prim.Native.String.{String, ◌++◌}
use mathlib.Core.Bool.{Bool, true, false}
use mathlib.Core.Option.{none, some}
use text.Mathlib.Text.{find?}
use baetyl.Base.Equality.{ltb, nat_eq, if◌then◌else◌}

-- `strings.Contains`
unfoldable pub contains : String → String → Bool
contains s part = elim (find? s part) [ none ↦ false | some _ ↦ true ]

digit : ℕ → String
digit zero = "0"
digit (suc zero) = "1"
digit (suc (suc zero)) = "2"
digit (suc (suc (suc zero))) = "3"
digit (suc (suc (suc (suc zero)))) = "4"
digit (suc (suc (suc (suc (suc zero))))) = "5"
digit (suc (suc (suc (suc (suc (suc zero)))))) = "6"
digit (suc (suc (suc (suc (suc (suc (suc zero))))))) = "7"
digit (suc (suc (suc (suc (suc (suc (suc (suc zero)))))))) = "8"
digit _ = "9"

-- The first number bounds the digits: no number has more digits than its value and one.
decimal : ℕ → ℕ → String
decimal zero n = ""
decimal (suc fuel) n =
    let longer = decimal fuel (n / 10) ++ digit (n % 10) in if ltb n 10 then digit n else longer

-- `%d` of a number that is not negative
unfoldable pub itoa : ℕ → String
unfolding decimal digit
itoa n = decimal (suc n) n
