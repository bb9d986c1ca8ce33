-- ===== src/Metrics/Linux/Words.antt =====
-- What SplitWhitespace and Trim (linux_metrics_reader.cpp) make of a text.
use aegis_desk.Prelude.{
  ℕ, zero, suc, ◌≡◌, ◌<◌, ◌≤◌, ◌∙◌, refl, ap, Bool, true, false, List, [], ◌∷◌, ◌++◌, ◌&&◌, not,
  is_empty, length, keep, All, arith, inl, inr, Bool-cases,
}
use aegis_desk.Prelude.Text.{Str}
use aegis_desk.Service.Id.{all_chars}
use aegis_desk.Metrics.Linux.Tokens.{
  is_blank, skip_blanks, token_of, after_token, split_from, split_whitespace,
}

length-after_token : (s : Str) → length (after_token s) ≤ length s
unfolding after_token
length-after_token [] = omega arith
length-after_token (c ∷ s) = ground (arith, length-after_token s)

-- A round of the outer loop takes a character at least.
round-shortens :
    (s : Str) → is_empty (skip_blanks s) ≡ false → length (after_token (skip_blanks s)) < length s
unfolding skip_blanks after_token
round-shortens [] h = cc
round-shortens (c ∷ s) h = ground (arith, round-shortens s, length-after_token s)

split_from-fuel :
    (fuel fuel' : ℕ) (s : Str)
    → length s ≤ fuel
    → length s ≤ fuel'
    → split_from fuel s ≡ split_from fuel' s
unfolding split_from skip_blanks
split_from-fuel zero zero s h h' = refl
split_from-fuel zero (suc fuel') [] h h' = refl
split_from-fuel zero (suc fuel') (c ∷ s) h h' = absurd (omega arith)
split_from-fuel (suc fuel) zero [] h h' = refl
split_from-fuel (suc fuel) zero (c ∷ s) h h' = absurd (omega arith)
split_from-fuel (suc fuel) (suc fuel') s h h' = elim (Bool-cases (is_empty (skip_blanks s))) [
  | inl ends ↦ rw ends refl
  | inr goes_on ↦
      let shorter = round-shortens s goes_on in
      rw
        (
          split_from,
          goes_on,
          split_from-fuel fuel fuel' (after_token (skip_blanks s)) (omega (arith, shorter))
              (omega (arith, shorter)),
        )
        refl
]

-- The loop over the tokens ends within as many rounds as the text has characters: more fuel than
-- that changes nothing.
pub split_from-ends :
    (fuel : ℕ) (s : Str) → length s ≤ fuel → split_from fuel s ≡ split_whitespace s
unfolding split_whitespace
split_from-ends fuel s h = split_from-fuel fuel (length s) s h (omega arith)

-- A token: not empty, and without a blank.
abbrev pub is_token : Str → Bool
is_token s = not (is_empty s) && all_chars (λ c. not (is_blank c)) s

all_chars-token_of : (s : Str) → all_chars (λ c. not (is_blank c)) (token_of s) ≡ true
unfolding all_chars token_of
all_chars-token_of [] = refl
all_chars-token_of (c ∷ s) = ground (arith, all_chars-token_of s)

is_empty-token_of : (s : Str) → is_empty (token_of (skip_blanks s)) ≡ is_empty (skip_blanks s)
unfolding skip_blanks token_of
is_empty-token_of [] = refl
is_empty-token_of (c ∷ s) = ground (arith, is_empty-token_of s)

-- The characters of a text but the blanks.
abbrev pub without_blanks : Str → Str
without_blanks = keep (λ c. not (is_blank c))

abbrev pub concat : List Str → Str
concat [] = []
concat (s ∷ ss) = s ++ concat ss

without_blanks-token_of :
    (s : Str) → token_of s ++ without_blanks (after_token s) ≡ without_blanks s
unfolding token_of after_token
without_blanks-token_of [] = refl
without_blanks-token_of (c ∷ s) = ground (arith, without_blanks-token_of s)

without_blanks-skip_blanks : (s : Str) → without_blanks (skip_blanks s) ≡ without_blanks s
unfolding skip_blanks
without_blanks-skip_blanks [] = refl
without_blanks-skip_blanks (c ∷ s) = ground (arith, without_blanks-skip_blanks s)

nothing_left : (s : Str) → is_empty (skip_blanks s) ≡ true → [] ≡ without_blanks s
unfolding skip_blanks
nothing_left [] h = refl
nothing_left (c ∷ s) h = ground (arith, nothing_left s)

split_from-tokens :
    (fuel : ℕ) (s : Str)
    → length s ≤ fuel
    → All (λ t. is_token t ≡ true) (split_from fuel s)
      × (concat (split_from fuel s) ≡ without_blanks s)
unfolding split_from
split_from-tokens zero [] h = (tt, refl)
split_from-tokens zero (c ∷ s) h = absurd (omega arith)
split_from-tokens (suc fuel) s h = elim (Bool-cases (is_empty (skip_blanks s))) [
  | inl ends ↦ rw (split_from, ends) (tt, nothing_left s ends)
  | inr goes_on ↦
      let shorter = round-shortens s goes_on in
      let (tokens, text) =
        split_from-tokens fuel (after_token (skip_blanks s)) (omega (arith, shorter)) in
      rw (split_from, goes_on)
        (
          (ground (arith, all_chars-token_of (skip_blanks s), is_empty-token_of s), tokens),
          ap (λ t. token_of (skip_blanks s) ++ t) text
              ∙ without_blanks-token_of (skip_blanks s)
              ∙ without_blanks-skip_blanks s,
        )
]

-- Splitting gives tokens that are not empty and have no blank, and together they are the text
-- without its blanks.
pub split_whitespace-tokens :
    (s : Str)
    → All (λ t. is_token t ≡ true) (split_whitespace s)
      × (concat (split_whitespace s) ≡ without_blanks s)
unfolding split_whitespace
split_whitespace-tokens s = split_from-tokens (length s) s (omega arith)
