-- ===== src/Decimal.antt =====
-- `%d` of Go's `fmt`: an integer in decimal digits.
use Prim.Native.String.{◌++◌ as join}
use ecommerce_commons.Prelude.{
  ℕ, zero, suc, ◌+◌, ◌/◌, ◌%◌, String, ltb, ℤ, pos, negsuc, if◌then◌else◌,
}

abbrev digit : ℕ → String
digit zero = "0"
digit (suc zero) = "1"
digit (suc (suc zero)) = "2"
digit (suc (suc (suc zero))) = "3"
digit (suc (suc (suc (suc zero)))) = "4"
digit (suc (suc (suc (suc (suc zero))))) = "5"
digit (suc (suc (suc (suc (suc (suc zero)))))) = "6"
digit (suc (suc (suc (suc (suc (suc (suc zero))))))) = "7"
digit (suc (suc (suc (suc (suc (suc (suc (suc zero)))))))) = "8"
digit _ = "9"

-- A number has fewer digits than its successor's value, so that much fuel is enough.
decimal_on : ℕ → ℕ → String
decimal_on zero n = ""
decimal_on (suc fuel) n =
    let front = decimal_on fuel (n / 10) in
    if ltb n 10 then digit n else join front (digit (n % 10))

unfoldable pub decimal : ℤ → String
unfolding decimal_on
decimal (pos n) = decimal_on (suc n) n
decimal (negsuc n) = join "-" (decimal_on (suc (suc n)) (n + 1))
