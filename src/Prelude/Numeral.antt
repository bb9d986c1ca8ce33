-- ===== src/Prelude/Numeral.antt =====
-- `std::from_chars` for unsigned integers in base 10, the inverse of `decimal`.
use Prim.Native.Nat.{ℕ, zero, suc, ◌+◌, ◌-◌, ◌*◌, ◌/◌, ◌%◌, ◌^◌, ◌<◌}
use mathlib.Core.Path.{◌≡◌, refl}
use mathlib.Core.Logic.{inl, inr}
use mathlib.Core.Bool.{Bool, true, false, ◌&&◌}
use mathlib.Core.List.{[], ◌∷◌}
use mathlib.Core.Option.{Option, none, some}
use native.Mathlib.Omega.{arith}
use aegis_desk.Prelude.Tests.{ltb, leb, if◌then◌else◌, Bool-cases, lt→ltb}
use aegis_desk.Prelude.Lists.{is_empty}
use aegis_desk.Prelude.Text.{Str}
use aegis_desk.Prelude.Decimal.{decimal, digits_before}

abbrev pub is_digit : ℕ → Bool
is_digit c = leb b'0' c && leb c b'9'

-- The value of the leading digits behind those read, and what follows them.
unfoldable pub digits_from : ℕ → Str → ℕ × Str
digits_from value [] = (value, [])
digits_from value (c ∷ s) =
    let longer = digits_from (value * 10 + (c - b'0')) s in
    if is_digit c then longer else (value, c ∷ s)

unfoldable pub starts_with_digit : Str → Bool
starts_with_digit [] = false
starts_with_digit (c ∷ s) = is_digit c

-- The value and the end pointer, or an error: no digit, or a value out of range.
unfoldable pub from_chars : ℕ → Str → Option (ℕ × Str)
unfolding digits_from starts_with_digit
from_chars bits s =
    let read = digits_from 0 s in
    if starts_with_digit s then (if ltb read.0 (2 ^ bits) then some read else none) else none

-- A result whose end pointer is the end of the text.
unfoldable pub whole : Option (ℕ × Str) → Option ℕ
whole none = none
whole (some (n, [])) = some n
whole (some (n, c ∷ s)) = none

starts_with_digit-digits_before :
    (fuel n : ℕ) (shown : Str)
    → starts_with_digit shown ≡ true
    → starts_with_digit (digits_before fuel n shown) ≡ true
unfolding starts_with_digit digits_before
starts_with_digit-digits_before zero n shown h = h
starts_with_digit-digits_before (suc fuel) n shown h =
    let next =
      starts_with_digit-digits_before fuel (n / 10) ((b'0' + n % 10) ∷ shown) (ground arith) in
    ground arith

starts_with_digit-decimal : (n : ℕ) → starts_with_digit (decimal n) ≡ true
unfolding decimal digits_before starts_with_digit
starts_with_digit-decimal n =
    let first : is_digit (b'0' + n % 10) ≡ true = ground arith in
    let rest = starts_with_digit-digits_before n (n / 10) ((b'0' + n % 10) ∷ []) first in
    ground (arith, first, rest)

digits_from-digit :
    (v n : ℕ) (s : Str) → digits_from v ((b'0' + n % 10) ∷ s) ≡ digits_from (v * 10 + n % 10) s
unfolding digits_from
digits_from-digit v n s =
    let digit : is_digit (b'0' + n % 10) ≡ true = ground arith in
    let e : v * 10 + (b'0' + n % 10 - b'0') ≡ v * 10 + n % 10 = omega arith in
    rw (digits_from, digit, e) refl

digits_from-digits_before :
    (fuel n : ℕ) (shown : Str)
    → n < fuel
    → digits_from 0 (digits_before fuel n shown) ≡ digits_from n shown
unfolding digits_before
digits_from-digits_before zero n shown h = absurd (omega arith)
digits_from-digits_before (suc fuel) n shown h = elim (Bool-cases (ltb n 10)) [
  | inl last ↦
      let e : 0 * 10 + n % 10 ≡ n = ground arith in
      rw (digits_before, last, digits_from-digit 0 n shown, e) refl
  | inr more ↦
      let below : n / 10 < fuel = ground arith in
      let e : n / 10 * 10 + n % 10 ≡ n = omega arith in
      rw
        (
          digits_before,
          more,
          digits_from-digits_before fuel (n / 10) ((b'0' + n % 10) ∷ shown) below,
          digits_from-digit (n / 10) n shown,
          e,
        )
        refl
]

pub from_chars-decimal : (bits n : ℕ) → n < 2 ^ bits → whole (from_chars bits (decimal n)) ≡ some n
unfolding from_chars whole decimal
from_chars-decimal bits n h =
    let read : digits_from 0 (decimal n) ≡ (n, []) =
      digits_from-digits_before (suc n) n [] (omega arith) in
    let digit : starts_with_digit (decimal n) ≡ true = starts_with_digit-decimal n in
    let fits : ltb n (2 ^ bits) ≡ true = lt→ltb n (2 ^ bits) h in
    rw (from_chars, digit, read, fits) refl

-- What is read is in range.
pub whole-from_chars-lt :
    (bits : ℕ) (s : Str) (n : ℕ) → whole (from_chars bits s) ≡ some n → n < 2 ^ bits
unfolding from_chars whole
whole-from_chars-lt bits s n h = ground arith

-- A number that is too large is refused.
pub from_chars-decimal_large :
    (bits n : ℕ) → ltb n (2 ^ bits) ≡ false → whole (from_chars bits (decimal n)) ≡ none
unfolding from_chars whole decimal
from_chars-decimal_large bits n h =
    let read : digits_from 0 (decimal n) ≡ (n, []) =
      digits_from-digits_before (suc n) n [] (omega arith) in
    let digit : starts_with_digit (decimal n) ≡ true = starts_with_digit-decimal n in
    rw (from_chars, digit, read, h) refl

-- A text of digits.
unfoldable pub are_digits : Str → Bool
are_digits [] = true
are_digits (c ∷ s) = is_digit c && are_digits s

digits_from-are_digits :
    (value : ℕ) (s : Str) → are_digits s ≡ false → is_empty (digits_from value s).1 ≡ false
unfolding digits_from are_digits
digits_from-are_digits value [] h = cc
digits_from-are_digits value (c ∷ s) h =
    ground (arith, digits_from-are_digits (value * 10 + (c - b'0')) s)

-- A text with another character among it is refused.
pub whole-from_chars-none :
    (bits : ℕ) (s : Str) → are_digits s ≡ false → whole (from_chars bits s) ≡ none
unfolding from_chars whole
whole-from_chars-none bits s h = ground (arith, digits_from-are_digits 0 s h)
