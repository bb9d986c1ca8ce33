-- ===== src/Metrics/Linux/Tokens.antt =====
-- Trim, SplitWhitespace and ParseUnsigned of apps/agent/src/metrics/linux_metrics_reader.cpp.
use aegis_desk.Prelude.{
  ℕ, zero, suc, Bool, Option, none, List, [], ◌∷◌, ◌||◌, ◌&&◌, ◌==◌, if◌then◌else◌, is_empty,
  length,
}
use aegis_desk.Prelude.Text.{Str}
use aegis_desk.Prelude.Numeral.{from_chars, whole}

abbrev pub is_blank : ℕ → Bool
is_blank c = c == b' ' || c == b'\t'

abbrev pub is_space : ℕ → Bool
is_space c = c == b' ' || c == b'\t' || c == b'\r' || c == b'\n'

-- The two loops of `Trim`.
unfoldable pub trim_front : Str → Str
trim_front [] = []
trim_front (c ∷ s) = let rest = trim_front s in if is_space c then rest else c ∷ s

unfoldable pub trim_back : Str → Str
trim_back [] = []
trim_back (c ∷ s) = let rest = trim_back s in if is_empty rest && is_space c then [] else c ∷ rest

unfoldable pub trim : Str → Str
unfolding trim_front trim_back
trim value = trim_back (trim_front value)

-- The inner loops of `SplitWhitespace`: over blanks, and over a token with what follows it.
unfoldable pub skip_blanks : Str → Str
skip_blanks [] = []
skip_blanks (c ∷ s) = let rest = skip_blanks s in if is_blank c then rest else c ∷ s

unfoldable pub token_of : Str → Str
token_of [] = []
token_of (c ∷ s) = let rest = token_of s in if is_blank c then [] else c ∷ rest

unfoldable pub after_token : Str → Str
after_token [] = []
after_token (c ∷ s) = let rest = after_token s in if is_blank c then c ∷ s else rest

-- The outer loop; a round takes a character at least, so the length of the text is enough fuel.
unfoldable pub split_from : ℕ → Str → List Str
unfolding skip_blanks token_of after_token
split_from zero value = []
split_from (suc fuel) value =
    let remaining = skip_blanks value in
    let rest = split_from fuel (after_token remaining) in
    if is_empty remaining then [] else token_of remaining ∷ rest

unfoldable pub split_whitespace : Str → List Str
unfolding split_from
split_whitespace value = split_from (length value) value

unfoldable pub parse_unsigned : ℕ → Str → Option ℕ
unfolding from_chars whole
parse_unsigned bits value = if is_empty value then none else whole (from_chars bits value)
