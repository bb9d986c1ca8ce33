-- ===== src/Metrics/Linux/Format.antt =====
-- The Linux reader (linux_metrics_reader.cpp) on lines of the form that the kernel writes.
use aegis_desk.Prelude.{
  ℕ, zero, suc, ◌+◌, ◌≡◌, ◌≤◌, ◌∙◌, refl, sym, ap, Bool, true, false, none, some, List, [], ◌∷◌,
  ◌++◌, ◌&&◌, not, ◌==◌, is_empty, length, arith, length-append,
}
use aegis_desk.Prelude.Text.{Str}
use aegis_desk.Prelude.Decimal.{decimal}
use aegis_desk.Prelude.Deque.{get_elem?}
use aegis_desk.Prelude.Numeral.{from_chars-decimal}
use aegis_desk.Prelude.Result.{ok}
use aegis_desk.Service.Id.{all_chars}
use aegis_desk.Metrics.Linux.Tokens.{
  is_space, trim, trim_front, trim_back, skip_blanks, token_of, after_token, split_from,
  split_whitespace, parse_unsigned,
}
use aegis_desk.Metrics.Linux.Words.{split_from-ends}
use aegis_desk.Metrics.Linux.Numbers.{uint64_max, add_without_overflow}
use aegis_desk.Metrics.Linux.Proc.{after_last_parenthesis, parse_field, parse_stat_line}

-- A field of a line: not empty, without white space or a closing parenthesis.
abbrev pub is_field_char : ℕ → Bool
is_field_char c = not (is_space c) && not (c == b')')

abbrev pub is_field : Str → Bool
is_field s = not (is_empty s) && all_chars is_field_char s

-- Fields, each behind a blank.
abbrev pub led : List Str → Str
led [] = []
led (w ∷ ws) = b' ' ∷ w ++ led ws

unfoldable pub all_fields : List Str → Bool
all_fields [] = true
all_fields (w ∷ ws) = is_field w && all_fields ws

token_of-led :
    (w : Str) (ws : List Str)
    → all_chars is_field_char w ≡ true
    → (token_of (w ++ led ws) ≡ w) × (after_token (w ++ led ws) ≡ led ws)
unfolding token_of after_token all_chars
token_of-led [] [] h = (refl, refl)
token_of-led [] (w ∷ ws) h = (refl, refl)
token_of-led (c ∷ w) ws h = ground (arith, token_of-led w ws)

skip_blanks-field : (w s : Str) → is_field w ≡ true → skip_blanks (w ++ s) ≡ w ++ s
unfolding skip_blanks all_chars
skip_blanks-field [] s h = cc
skip_blanks-field (c ∷ w) s h = ground arith

is_empty-field : (w s : Str) → is_field w ≡ true → is_empty (w ++ s) ≡ false
is_empty-field [] s h = cc
is_empty-field (c ∷ w) s h = refl

split_from-led :
    (ws : List Str) (fuel : ℕ)
    → length (led ws) ≤ fuel
    → all_fields ws ≡ true
    → split_from fuel (led ws) ≡ ws
unfolding split_from all_fields skip_blanks
split_from-led [] zero h k = refl
split_from-led [] (suc fuel) h k = refl
split_from-led (w ∷ ws) zero h k = absurd (omega arith)
split_from-led (w ∷ ws) (suc fuel) h k =
    let field : is_field w ≡ true = ground arith in
    let (token, after) = token_of-led w ws (ground arith) in
    rw
      (
        split_from,
        skip_blanks-field w (led ws) field,
        is_empty-field w (led ws) field,
        token,
        after,
        split_from-led ws fuel (omega (arith, h, length-append w (led ws))) (ground arith),
      )
      refl

split_from-word :
    (w : Str) (ws : List Str) (fuel : ℕ)
    → is_field w ≡ true
    → all_fields ws ≡ true
    → length (led ws) ≤ fuel
    → split_from (suc fuel) (w ++ led ws) ≡ w ∷ ws
unfolding split_from
split_from-word w ws fuel field h k =
    let (token, after) = token_of-led w ws (ground arith) in
    rw
      (
        split_from,
        skip_blanks-field w (led ws) field,
        is_empty-field w (led ws) field,
        token,
        after,
        split_from-led ws fuel k h,
      )
      refl

is_empty-led : (ws : List Str) → 20 ≤ length ws → is_empty (led ws) ≡ false
is_empty-led [] h = absurd (omega arith)
is_empty-led (w ∷ ws) h = refl

trim_back-field :
    (w s : Str) → all_chars is_field_char w ≡ true → trim_back s ≡ s → trim_back (w ++ s) ≡ w ++ s
unfolding trim_back all_chars
trim_back-field [] s h e = e
trim_back-field (c ∷ w) s h e = ground (arith, trim_back-field w s)

trim_back-led : (ws : List Str) → all_fields ws ≡ true → trim_back (led ws) ≡ led ws
unfolding all_fields trim_back
trim_back-led [] h = refl
trim_back-led (w ∷ ws) h =
    let rest = trim_back-field w (led ws) (ground arith) (trim_back-led ws (ground arith)) in
    let nonempty = is_empty-field w (led ws) (ground arith) in rw (trim_back, rest, nonempty) refl

trim_front-field : (w s : Str) → is_field w ≡ true → trim_front (b' ' ∷ w ++ s) ≡ w ++ s
unfolding trim_front all_chars
trim_front-field [] s h = cc
trim_front-field (c ∷ w) s h = ground arith

-- Trimming and splitting give the fields back.
split_whitespace-led :
    (ws : List Str) → all_fields ws ≡ true → split_whitespace (trim (led ws)) ≡ ws
unfolding trim all_fields split_whitespace split_from
split_whitespace-led [] h = refl
split_whitespace-led (w ∷ ws) h =
    let field : is_field w ≡ true = ground arith in
    let trimmed : trim (led (w ∷ ws)) ≡ w ++ led ws =
      ap trim_back (trim_front-field w (led ws) field)
      ∙ trim_back-field w (led ws) (ground arith) (trim_back-led ws (ground arith)) in
    let fuel = length (led ws) in
    rw trimmed (
      sym (split_from-ends (suc (length (w ++ led ws))) (w ++ led ws) (omega arith))
      ∙ split_from-word w ws (length (w ++ led ws)) field (ground arith)
          (omega (arith, length-append w (led ws))))

after_last_parenthesis-none :
    (w s : Str)
    → all_chars is_field_char w ≡ true
    → after_last_parenthesis s ≡ none
    → after_last_parenthesis (w ++ s) ≡ none
unfolding after_last_parenthesis all_chars
after_last_parenthesis-none [] s h e = e
after_last_parenthesis-none (c ∷ w) s h e = ground (arith, after_last_parenthesis-none w s)

after_last_parenthesis-led :
    (ws : List Str) → all_fields ws ≡ true → after_last_parenthesis (led ws) ≡ none
unfolding after_last_parenthesis all_fields
after_last_parenthesis-led [] h = refl
after_last_parenthesis-led (w ∷ ws) h =
    let rest =
      after_last_parenthesis-none w (led ws) (ground arith)
        (after_last_parenthesis-led ws (ground arith)) in
    rw (after_last_parenthesis, rest) refl

-- Whatever stands before the last parenthesis.
after_last_parenthesis-last :
    (head s : Str)
    → after_last_parenthesis s ≡ none
    → after_last_parenthesis (head ++ (b')' ∷ s)) ≡ some s
unfolding after_last_parenthesis
after_last_parenthesis-last [] s h = rw (after_last_parenthesis, h) refl
after_last_parenthesis-last (c ∷ head) s h =
    rw (after_last_parenthesis, after_last_parenthesis-last head s h) refl

parse_field-decimal :
    (fields : List Str) (i n : ℕ)
    → get_elem? fields i ≡ some (decimal n)
    → n ≤ uint64_max
    → parse_field fields i ≡ some n
unfolding parse_field parse_unsigned
parse_field-decimal fields i n e h =
    let read = from_chars-decimal 64 n (omega arith) in ground (arith, read, e)

-- A line of /proc/<pid>/stat, whatever the name of the process is (it may have blanks and
-- parenthesis): a head, a closing parenthesis and the fields, each behind a blank. The reader gives
-- the sum of the two processor times and the start time that stand in fields 11, 12 and 19, where
-- they are in the range of std::uint64_t.
pub parse_stat_line-format :
    (path head : Str) (fields : List Str) (utime stime start_time : ℕ)
    → all_fields fields ≡ true
    → 20 ≤ length fields
    → get_elem? fields 11 ≡ some (decimal utime)
    → get_elem? fields 12 ≡ some (decimal stime)
    → get_elem? fields 19 ≡ some (decimal start_time)
    → utime + stime ≤ uint64_max
    → start_time ≤ uint64_max
    → parse_stat_line path (head ++ (b')' ∷ led fields))
      ≡ ok (record { process_cpu_ticks = utime + stime; start_time_ticks = start_time })
unfolding parse_stat_line add_without_overflow
parse_stat_line-format path head fields utime stime start_time h k e11 e12 e19 sum start =
    let found =
      after_last_parenthesis-last head (led fields) (after_last_parenthesis-led fields h) in
    let split = split_whitespace-led fields h in
    let u = parse_field-decimal fields 11 utime e11 (omega arith) in
    let s = parse_field-decimal fields 12 stime e12 (omega arith) in
    let t = parse_field-decimal fields 19 start_time e19 start in
    ground (arith, found, split, u, s, t, is_empty-led fields k)
