-- ===== src/Api/Json/RoundTrip.antt =====
-- A JSON reader gets back what `JsonEscape` (http_json.cpp) was given.
use aegis_desk.Prelude.{
  ℕ, zero, suc, ◌+◌, ◌-◌, ◌*◌, ◌/◌, ◌%◌, ◌≡◌, ◌<◌, refl, Bool, true, false, Option, none, some, [],
  ◌∷◌, ◌++◌, ◌&&◌, ◌||◌, ◌∙◌, ap, ltb→lt, if◌then◌else◌, ltb, leb, ◌==◌, arith, inl, inr,
  Bool-cases,
}
use mathlib.Core.List.{append_assoc}
use aegis_desk.Prelude.Text.{Str, text}
use aegis_desk.Api.Json.{escaped, json_escape, hex_digit}

-- A reader of JSON strings (RFC 8259), for code points below 256: what it has read of an escape.
pub data Mode : Type 0 where
  plain after_backslash : Mode
  hex : ℕ → ℕ → Mode

abbrev pub hex_value : ℕ → Option ℕ
hex_value c =
    if leb b'0' c && leb c b'9'
    then some (c - b'0')
    else if leb b'a' c && leb c b'f'
    then some (c - b'a' + 10)
    else none

abbrev pub short_escape : ℕ → Option ℕ
short_escape c =
    if c == b'"'
    then some b'"'
    else if c == b'\\'
    then some b'\\'
    else if c == b'/'
    then some b'/'
    else if c == b'b'
    then some 8
    else if c == b'f'
    then some 12
    else if c == b'n'
    then some b'\n'
    else if c == b'r'
    then some b'\r'
    else if c == b't'
    then some b'\t'
    else none

abbrev pub push : ℕ → Option (Str × Str) → Option (Str × Str)
push c none = none
push c (some (s, rest)) = some (c ∷ s, rest)

-- The string up to the closing quote, and what follows the quote.
unfoldable pub read_string : Mode → Str → Option (Str × Str)
read_string mode [] = none
read_string plain (c ∷ s) =
    let next = push c (read_string plain s) in
    let escape = read_string after_backslash s in
    if c == b'"'
    then some ([], s)
    else if c == b'\\'
    then escape
    else if ltb c 32
    then none
    else next
read_string after_backslash (c ∷ s) =
    let after = read_string plain s in
    let digits = read_string (hex 4 0) s in
    if c == b'u' then digits else elim (short_escape c) [ none ↦ none | some x ↦ push x after ]
read_string (hex zero value) (c ∷ s) = none
read_string (hex (suc left) value) (c ∷ s) = elim (hex_value c) [
  | none ↦ none
  | some h ↦
      let more = read_string (hex left (value * 16 + h)) s in
      let after = push (value * 16 + h) (read_string plain s) in if left == 0 then after else more
]

hex_value-hex_digit : (n : ℕ) → n < 16 → hex_value (hex_digit n) ≡ some n
hex_value-hex_digit n h = ground arith

read_hex_digit :
    (left value n : ℕ) (s : Str)
    → n < 16
    → read_string (hex (suc left) value) (hex_digit n ∷ s) ≡ (
        if left == 0
        then push (value * 16 + n) (read_string plain s)
        else read_string (hex left (value * 16 + n)) s)
unfolding read_string
read_hex_digit left value n s h = rw (read_string, hex_value-hex_digit n h) refl

abbrev is_short : ℕ → Bool
is_short c = c == b'"' || c == b'\\' || c == 8 || c == 12 || c == b'\n' || c == b'\r' || c == b'\t'

read_string-short :
    (c : ℕ) (s : Str)
    → is_short c ≡ true
    → read_string plain (escaped c ++ s) ≡ push c (read_string plain s)
unfolding escaped read_string text
read_string-short c s h = ground arith

read_string-printed :
    (c : ℕ) (s : Str)
    → is_short c ≡ false
    → ltb c 32 ≡ false
    → read_string plain (escaped c ++ s) ≡ push c (read_string plain s)
unfolding escaped read_string
read_string-printed c s h k = ground arith

escaped-control :
    (c : ℕ)
    → is_short c ≡ false
    → ltb c 32 ≡ true
    → escaped c ≡ text "\\u00" ++ (hex_digit (c / 16) ∷ hex_digit (c % 16) ∷ [])
unfolding escaped
escaped-control c h k = ground arith

read_string-u00 : (s : Str) → read_string plain (text "\\u00" ++ s) ≡ read_string (hex 2 0) s
unfolding read_string text
read_string-u00 s = refl

read_string-control :
    (c : ℕ) (s : Str)
    → c < 32
    → read_string plain (text "\\u00" ++ (hex_digit (c / 16) ∷ hex_digit (c % 16) ∷ s))
      ≡ push c (read_string plain s)
read_string-control c s h =
    let high = read_hex_digit 1 0 (c / 16) (hex_digit (c % 16) ∷ s) (omega arith) in
    let low = read_hex_digit 0 (0 * 16 + c / 16) (c % 16) s (omega arith) in
    let e : (0 * 16 + c / 16) * 16 + c % 16 ≡ c = omega arith in
    read_string-u00 (hex_digit (c / 16) ∷ hex_digit (c % 16) ∷ s)
    ∙ high
    ∙ low
    ∙ ap (λ x. push x (read_string plain s)) e

-- The characters that have an escape of their own, and those that have none.
read_string-escaped :
    (c : ℕ) (s : Str) → read_string plain (escaped c ++ s) ≡ push c (read_string plain s)
unfolding text
read_string-escaped c s = elim (Bool-cases (is_short c)) [
  | inl short ↦ read_string-short c s short
  | inr long ↦ elim (Bool-cases (ltb c 32)) [
    | inl control ↦
        rw (escaped-control c long control) (read_string-control c s (ltb→lt c 32 control))
    | inr printed ↦ read_string-printed c s long printed
  ]
]

-- Between quotes, an escaped text is read back as the text, and the reading ends at the closing
-- quote, whatever the text contains and whatever follows.
pub read_string-json_escape :
    (value rest : Str) → read_string plain (json_escape value ++ (b'"' ∷ rest)) ≡ some (value, rest)
unfolding json_escape read_string
read_string-json_escape [] rest = refl
read_string-json_escape (c ∷ value) rest =
    rw
      (
        append_assoc (escaped c) (json_escape value) (b'"' ∷ rest),
        read_string-escaped c (json_escape value ++ (b'"' ∷ rest)),
        read_string-json_escape value rest,
      )
      refl
