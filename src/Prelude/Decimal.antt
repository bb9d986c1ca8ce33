-- ===== src/Prelude/Decimal.antt =====
-- `std::ostream << unsigned` and `std::to_string`: the decimal digits of a number.
use Prim.Native.Nat.{ℕ, zero, suc, ◌+◌, ◌/◌, ◌%◌}
use mathlib.Core.List.{[], ◌∷◌}
use aegis_desk.Prelude.Tests.{ltb, if◌then◌else◌}
use aegis_desk.Prelude.Int.{ℤ, pos, negsuc}
use aegis_desk.Prelude.Text.{Str}

-- The digits in front of `shown`; a number is below its fuel, so the fuel lasts.
unfoldable pub digits_before : ℕ → ℕ → Str → Str
digits_before zero n shown = shown
digits_before (suc fuel) n shown =
    let longer = (b'0' + n % 10) ∷ shown in
    let rest = digits_before fuel (n / 10) longer in if ltb n 10 then longer else rest

unfoldable pub decimal : ℕ → Str
unfolding digits_before
decimal n = digits_before (suc n) n []

-- Of a signed number.
unfoldable pub decimal_ℤ : ℤ → Str
decimal_ℤ (pos n) = decimal n
decimal_ℤ (negsuc n) = b'-' ∷ decimal (suc n)
