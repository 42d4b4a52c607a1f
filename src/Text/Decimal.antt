-- ===== src/Text/Decimal.antt =====
-- A number in a template string.
use Prim.Native.String
use adscope_identity.Prelude.{ℕ, zero, suc, String, if◌then◌else◌, ltb, ◌≡◌, refl}
use Prim.Native.Nat.{◌/◌, ◌%◌}

abbrev digit : ℕ → String
digit zero = "0"
digit (suc zero) = "1"
digit (suc (suc zero)) = "2"
digit (suc (suc (suc zero))) = "3"
digit (suc (suc (suc (suc zero)))) = "4"
digit (suc (suc (suc (suc (suc zero))))) = "5"
digit (suc (suc (suc (suc (suc (suc zero)))))) = "6"
digit (suc (suc (suc (suc (suc (suc (suc zero))))))) = "7"
digit (suc (suc (suc (suc (suc (suc (suc (suc zero)))))))) = "8"
digit _ = "9"

-- A round for each digit; the number itself is more than enough rounds.
decimal_from : ℕ → ℕ → String
decimal_from zero n = digit n
decimal_from (suc fuel) n =
    let front = decimal_from fuel (n / 10) in
    if ltb n 10 then digit n else String.◌++◌ front (digit (n % 10))

unfoldable pub decimal : ℕ → String
unfolding decimal_from
decimal n = decimal_from n n

decimal_status : decimal 503 ≡ "503"
unfolding decimal
decimal_status = refl
