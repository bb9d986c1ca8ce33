-- ===== src/Service/Distinct.antt =====
-- Lists of identifiers without repetition.
use aegis_desk.Prelude.{◌≡◌, refl, Bool, true, false, List, [], ◌∷◌, ◌++◌, ◌&&◌, ◌||◌, not, arith}
use mathlib.Core.List.{reverse, reverse-cons}
use aegis_desk.Prelude.Text.{Str, str_eq_iff}
use aegis_desk.Service.Definition.{contains}

-- No identifier twice.
unfoldable pub are_distinct : List Str → Bool
are_distinct [] = true
are_distinct (id ∷ ids) = not (contains id ids) && are_distinct ids

pub contains-append :
    (k : Str) (xs ys : List Str) → contains k (xs ++ ys) ≡ (contains k xs || contains k ys)
unfolding contains
contains-append k [] ys = refl
contains-append k (x ∷ xs) ys = ground (arith, contains-append k xs ys)

pub distinct-append_one :
    (xs : List Str) (id : Str)
    → contains id xs ≡ false
    → are_distinct xs ≡ true
    → are_distinct (xs ++ (id ∷ [])) ≡ true
unfolding are_distinct contains
distinct-append_one [] id h k = refl
distinct-append_one (x ∷ xs) id h k = ground (
  arith,
  distinct-append_one xs id,
  contains-append x xs (id ∷ []),
  str_eq_iff id x,
  str_eq_iff x id,
)

pub contains-reverse : (k : Str) (ids : List Str) → contains k (reverse ids) ≡ contains k ids
unfolding contains
contains-reverse k [] = refl
contains-reverse k (id ∷ ids) =
    ground (
      arith,
      reverse-cons id ids,
      contains-append k (reverse ids) (id ∷ []),
      contains-reverse k ids,
    )

pub distinct-reverse :
    (ids : List Str) → are_distinct ids ≡ true → are_distinct (reverse ids) ≡ true
unfolding are_distinct
distinct-reverse [] h = refl
distinct-reverse (id ∷ ids) h = ground (
  arith,
  reverse-cons id ids,
  distinct-append_one (reverse ids) id,
  contains-reverse id ids,
  distinct-reverse ids,
)
