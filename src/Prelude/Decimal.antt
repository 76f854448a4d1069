-- ===== src/Prelude/Decimal.antt =====
-- `std::to_string` of an integer.
use Prim.Native.Nat.{ℕ, zero, suc, ◌/◌, ◌%◌, ◌<◌}
use Prim.Native.String.{String, ◌++◌}
use mathlib.Core.Path.{◌≡◌, refl}
use native.Mathlib.Omega.{arith}
use kalshi_market_maker.Prelude.Tests.{ltb, ◌==◌, if◌then◌else◌}
use kalshi_market_maker.Prelude.Int.{ℤ, pos, negsuc}

digit : ℕ → String
digit n =
    if n == 0
    then "0"
    else if n == 1
    then "1"
    else if n == 2
    then "2"
    else if n == 3
    then "3"
    else if n == 4
    then "4"
    else if n == 5
    then "5"
    else if n == 6
    then "6"
    else if n == 7
    then "7"
    else if n == 8
    then "8"
    else "9"

decimal : ℕ → ℕ → String
unfolding digit
decimal zero n = ""
decimal (suc f) n =
    let rest = decimal f (n / 10) ++ digit (n % 10) in if ltb n 10 then digit n else rest

-- More fuel than the number changes nothing.
decimal_fuel : (f g n : ℕ) → n < f → n < g → decimal f n ≡ decimal g n
unfolding decimal
decimal_fuel zero g n h k = elim h [ ]
decimal_fuel (suc f) zero n h k = elim k [ ]
decimal_fuel (suc f) (suc g) n h k = ground (arith, decimal_fuel f g (n / 10))

unfoldable pub to_string : ℤ → String
unfolding decimal
to_string (pos n) = decimal (suc n) n
to_string (negsuc n) = "-" ++ decimal (suc (suc n)) (suc n)

to_string_examples : to_string (negsuc 1233) ≡ "-1234"
unfolding to_string
to_string_examples = refl
