-- ===== src/Api/Query/Pairs.antt =====
-- What the query parameters of a target (agent_api.cpp) are.
use aegis_desk.Prelude.{
  ℕ, zero, suc, ◌^◌, ◌||◌, leb, ltb, inl, inr, Bool-cases, ◌≡◌, ◌≤◌, refl, Bool, true, false,
  Option, none, some, [], ◌∷◌, ◌++◌, ◌&&◌, not, ◌==◌, if◌then◌else◌, is_empty, length, arith,
  length-append,
}
use mathlib.Core.List.{append_assoc}
use aegis_desk.Prelude.Text.{Str, text, str_eq}
use aegis_desk.Prelude.Dict.{Dict, find}
use aegis_desk.Prelude.Decimal.{decimal}
use aegis_desk.Prelude.Numeral.{
  from_chars, whole, are_digits, from_chars-decimal, from_chars-decimal_large,
  whole-from_chars-none,
}
use aegis_desk.Service.Id.{all_chars}
use aegis_desk.Api.Query.{
  before, after, find_value, value_of_pair, query_value, bounded_of,
  parse_bounded_positive_query_parameter, parse_tail_limit, parse_history_limit,
  parse_alert_resolved_limit, parse_recovery_event_limit,
}

pub all_chars-append :
    (p : ℕ → Bool) (s t : Str)
    → all_chars p s ≡ true
    → all_chars p t ≡ true
    → all_chars p (s ++ t) ≡ true
unfolding all_chars
all_chars-append p [] t h k = k
all_chars-append p (c ∷ s) t h k = ground (arith, all_chars-append p s t)

pub before-none : (c : ℕ) (s : Str) → all_chars (λ x. not (x == c)) s ≡ true → before c s ≡ s
unfolding before all_chars
before-none c [] h = refl
before-none c (x ∷ s) h = ground (arith, before-none c s)

pub before-first :
    (c : ℕ) (s t : Str)
    → all_chars (λ x. not (x == c)) s ≡ true
    → (before c (s ++ (c ∷ t)) ≡ s) × (after c (s ++ (c ∷ t)) ≡ some t)
unfolding before after all_chars
before-first c [] t h = ground arith
before-first c (x ∷ s) t h = ground (arith, before-first c s t)

after-none : (c : ℕ) (s : Str) → all_chars (λ x. not (x == c)) s ≡ true → after c s ≡ none
unfolding after all_chars
after-none c [] h = refl
after-none c (x ∷ s) h = ground (arith, after-none c s)

-- A query: keys and values with an equals sign between, pairs with an ampersand between.
abbrev pub pair_text : Str → Str → Str
pair_text k v = k ++ (b'=' ∷ v)

abbrev pub render : Dict Str → Str
render [] = []
render ((k, v) ∷ []) = pair_text k v
render ((k, v) ∷ p ∷ pairs) = pair_text k v ++ (b'&' ∷ render (p ∷ pairs))

-- Keys without the two signs, values without an ampersand.
unfoldable pub are_plain : Dict Str → Bool
are_plain [] = true
are_plain ((k, v) ∷ pairs) =
    all_chars (λ c. not (c == b'=')) k
    && all_chars (λ c. not (c == b'&')) k
    && all_chars (λ c. not (c == b'&')) v
    && are_plain pairs

pair_text-plain :
    (k v : Str)
    → all_chars (λ c. not (c == b'&')) k ≡ true
    → all_chars (λ c. not (c == b'&')) v ≡ true
    → all_chars (λ c. not (c == b'&')) (pair_text k v) ≡ true
unfolding all_chars
pair_text-plain k v h h' = all_chars-append (λ c. not (c == b'&')) k (b'=' ∷ v) h h'

value_of_pair-pair_text :
    (key k v : Str)
    → all_chars (λ c. not (c == b'=')) k ≡ true
    → value_of_pair key (pair_text k v) ≡ (if str_eq k key then some v else none)
unfolding value_of_pair
value_of_pair-pair_text key k v h =
    let (name, value) = before-first b'=' k v h in rw (value_of_pair, value, name) refl

is_empty-pair : (k s : Str) → is_empty (k ++ (b'=' ∷ s)) ≡ false
is_empty-pair [] s = refl
is_empty-pair (c ∷ k) s = refl

nonempty : (k v : Str) (pairs : Dict Str) → length (render ((k, v) ∷ pairs)) ≤ 0 → ⊥
nonempty [] v [] h = omega arith
nonempty (c ∷ k) v [] h = omega arith
nonempty [] v (p ∷ pairs) h = omega arith
nonempty (c ∷ k) v (p ∷ pairs) h = omega arith

bounded_of-bounded :
    (default_value maximum : ℕ) (o : Option Str)
    → 1 ≤ default_value
    → default_value ≤ maximum
    → (1 ≤ bounded_of default_value maximum o) × (bounded_of default_value maximum o ≤ maximum)
unfolding bounded_of
bounded_of-bounded default_value maximum none h k = (h, k)
bounded_of-bounded default_value maximum (some value) h k = ground arith

find_value-render :
    (pairs : Dict Str) (fuel : ℕ) (key : Str)
    → length (render pairs) ≤ fuel
    → are_plain pairs ≡ true
    → find_value fuel key (render pairs) ≡ find key pairs
unfolding find_value find are_plain
find_value-render [] zero key h k = refl
find_value-render [] (suc fuel) key h k = refl
find_value-render ((k, v) ∷ pairs) zero key h p = absurd (nonempty k v pairs h)
find_value-render ((k, v) ∷ []) (suc fuel) key h p =
    let plain = pair_text-plain k v (ground arith) (ground arith) in
    let pair = value_of_pair-pair_text key k v (ground arith) in
    ground (
      arith,
      before-none b'&' (pair_text k v) plain,
      after-none b'&' (pair_text k v) plain,
      pair,
      is_empty-pair k v,
    )
find_value-render ((k, v) ∷ (k', v') ∷ pairs) (suc fuel) key h p =
    let plain = pair_text-plain k v (ground arith) (ground arith) in
    let rest = render ((k', v') ∷ pairs) in
    let (first, others) = before-first b'&' (pair_text k v) rest plain in
    let pair = value_of_pair-pair_text key k v (ground arith) in
    let next =
      find_value-render ((k', v') ∷ pairs) fuel key
        (omega (arith, h, length-append (pair_text k v) (b'&' ∷ rest))) (ground arith) in
    let goes_on : is_empty (pair_text k v ++ (b'&' ∷ rest)) ≡ false =
      rw (append_assoc k (b'=' ∷ v) (b'&' ∷ rest)) (is_empty-pair k (v ++ (b'&' ∷ rest))) in
    ground (arith, first, others, pair, next, goes_on)

-- What the query says of a key: nothing, a number in plain decimals, or another text.
pub data Asked : Type 0 where
  nothing : Asked
  number : ℕ → Asked
  another : Str → Asked

abbrev pub text_of : Asked → Option Str
text_of nothing = none
text_of (number n) = some (decimal n)
text_of (another s) = some s

-- Another text is empty or holds a character that is no digit.
abbrev pub is_proper : Asked → Bool
is_proper nothing = true
is_proper (number n) = true
is_proper (another s) = is_empty s || not (are_digits s)

-- The limit that is meant: the number held between 1 and the maximum, or the default.
unfoldable pub limit_for : ℕ → ℕ → Asked → ℕ
limit_for default_value maximum nothing = default_value
limit_for default_value maximum (another s) = default_value
limit_for default_value maximum (number n) =
    if leb (2 ^ 64) n
    then default_value
    else if n == 0
    then 1
    else if leb n maximum
    then n
    else maximum

no_digits : whole (from_chars 64 []) ≡ none
unfolding from_chars whole
no_digits = refl

bounded_of-limit_for :
    (default_value maximum : ℕ) (asked : Asked)
    → is_proper asked ≡ true
    → bounded_of default_value maximum (text_of asked) ≡ limit_for default_value maximum asked
unfolding bounded_of limit_for
bounded_of-limit_for default_value maximum nothing h = refl
bounded_of-limit_for default_value maximum (number n) h = elim (Bool-cases (ltb n (2 ^ 64))) [
  | inl fits ↦ rw (bounded_of, from_chars-decimal 64 n (ground arith)) (ground arith)
  | inr large ↦ rw (bounded_of, from_chars-decimal_large 64 n large) (ground arith)
]
bounded_of-limit_for default_value maximum (another []) h = rw (bounded_of, no_digits) refl
bounded_of-limit_for default_value maximum (another (c ∷ s)) h =
    rw (bounded_of, whole-from_chars-none 64 (c ∷ s) (ground arith)) refl

-- The parameters of a target are looked up in the pairs of its query, the first of a name counting.
-- The limit is the number that is given for the key in plain decimals, held between 1 and the
-- maximum; it is the default where there is no such key, where the number is 2 ^ 64 or more, and
-- where its text is empty or has a character that is no digit.
pub parse_limit-render :
    (path key : Str) (pairs : Dict Str) (asked : Asked) (default_value maximum : ℕ)
    → all_chars (λ c. not (c == b'?')) path ≡ true
    → are_plain pairs ≡ true
    → find key pairs ≡ text_of asked
    → is_proper asked ≡ true
    → parse_bounded_positive_query_parameter
        (path ++ (b'?' ∷ render pairs))
        key
        default_value
        maximum
      ≡ limit_for default_value maximum asked
unfolding parse_bounded_positive_query_parameter query_value
parse_limit-render path key pairs asked default_value maximum h k given proper =
    let (_, query) = before-first b'?' path (render pairs) h in
    rw
      (
        parse_bounded_positive_query_parameter,
        query_value,
        query,
        find_value-render pairs (length (render pairs)) key (omega arith) k,
        given,
      )
      (bounded_of-limit_for default_value maximum asked proper)

-- Every limit that a request can ask for lies between 1 and the maximum of its route.
pub limits-AreBounded :
    (target : Str)
    → ((1 ≤ parse_tail_limit target) × (parse_tail_limit target ≤ 500))
      × ((1 ≤ parse_history_limit target) × (parse_history_limit target ≤ 300))
      × ((1 ≤ parse_alert_resolved_limit target) × (parse_alert_resolved_limit target ≤ 500))
      × ((1 ≤ parse_recovery_event_limit target) × (parse_recovery_event_limit target ≤ 500))
unfolding parse_tail_limit parse_history_limit parse_alert_resolved_limit parse_recovery_event_limit
    parse_bounded_positive_query_parameter
limits-AreBounded target = (
  bounded_of-bounded 100 500 (query_value target (text "tail")) (omega arith) (omega arith),
  bounded_of-bounded 300 300 (query_value target (text "limit")) (omega arith) (omega arith),
  bounded_of-bounded 100 500 (query_value target (text "limit")) (omega arith) (omega arith),
  bounded_of-bounded 100 500 (query_value target (text "limit")) (omega arith) (omega arith),
)
