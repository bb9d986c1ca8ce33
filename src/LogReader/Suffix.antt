-- ===== src/LogReader/Suffix.antt =====
-- Reading windows from the end of a file against the lines of the whole file (log_reader.cpp).
use Prim.Native.Nat.{min}
use aegis_desk.Prelude.{
  ℕ, zero, suc, ◌+◌, ◌*◌, ◌-◌, ◌≤◌, ◌<◌, ◌≡◌, refl, sym, ap, ◌∙◌, some, List, [], ◌∷◌, ◌++◌, ◌==◌,
  length, take, drop, length-append, length-drop, inl, inr, Bool-cases, Option-cases, arith,
}
use aegis_desk.Prelude.Text.{Str}
use aegis_desk.LogReader.{
  readable, get_lines, pop_carriage_return, keep_line, keep_from, keep_last_lines, after_newline,
  read_window, read_content, read_last_lines, initial_read_window_bytes,
}

abbrev pub last {ℓ} : {A : Type ℓ} → ℕ → List A → List A
last n xs = drop (length xs - n) xs

abbrev pub without_returns : List Str → List Str
without_returns [] = []
without_returns (line ∷ lines) = pop_carriage_return line ∷ without_returns lines

-- The lines of a whole text.
abbrev pub all_lines : Str → List Str
all_lines content = without_returns (get_lines [] content)

module _ {ℓ} {A : Type ℓ} where
  append-nil : (xs : List A) → xs ++ [] ≡ xs
  append-nil [] = refl
  append-nil (x ∷ xs) = ap (λ l. x ∷ l) (append-nil xs)

  append-snoc : (xs : List A) (y : A) (zs : List A) → (xs ++ (y ∷ [])) ++ zs ≡ xs ++ (y ∷ zs)
  append-snoc [] y zs = refl
  append-snoc (x ∷ xs) y zs = ap (λ l. x ∷ l) (append-snoc xs y zs)

  take-drop : (n : ℕ) (xs : List A) → take n xs ++ drop n xs ≡ xs
  take-drop zero xs = refl
  take-drop (suc n) [] = refl
  take-drop (suc n) (x ∷ xs) = ap (λ l. x ∷ l) (take-drop n xs)

  drop-all : (xs : List A) → drop (length xs) xs ≡ []
  drop-all [] = refl
  drop-all (x ∷ xs) = drop-all xs

  append-assoc_lem : (xs ys zs : List A) → (xs ++ ys) ++ zs ≡ xs ++ (ys ++ zs)
  append-assoc_lem [] ys zs = refl
  append-assoc_lem (x ∷ xs) ys zs = ap (λ l. x ∷ l) (append-assoc_lem xs ys zs)

  drop-length : (xs : List A) → last 0 xs ≡ []
  drop-length xs = let e : length xs - 0 ≡ length xs = omega arith in rw e (drop-all xs)

  last-all : (n : ℕ) (xs : List A) → length xs ≤ n → last n xs ≡ xs
  last-all n xs h = let e : length xs - n ≡ 0 = omega arith in rw e

  last-cons : (n : ℕ) (x : A) (xs : List A) → n ≤ length xs → last n (x ∷ xs) ≡ last n xs
  last-cons n x xs h = let e : suc (length xs) - n ≡ suc (length xs - n) = omega arith in rw e

  last-append : (n : ℕ) (xs ys : List A) → n ≤ length ys → last n (xs ++ ys) ≡ last n ys
  last-append n [] ys h = refl
  last-append n (x ∷ xs) ys h =
      last-cons n x (xs ++ ys) (omega (arith, length-append xs ys)) ∙ last-append n xs ys h

without_returns-append :
    (xs ys : List Str) → without_returns (xs ++ ys) ≡ without_returns xs ++ without_returns ys
without_returns-append [] ys = refl
without_returns-append (x ∷ xs) ys =
    ap (λ l. pop_carriage_return x ∷ l) (without_returns-append xs ys)

-- One line more in the bounded deque.
keep_line-last :
    (n : ℕ) (q : List Str) (line : Str) (rest : List Str)
    → 1 ≤ n
    → length q ≤ n
    → (length (keep_line n q line) ≤ n)
      × (last n (keep_line n q line ++ rest) ≡ last n (q ++ (pop_carriage_return line ∷ rest)))
unfolding keep_line
keep_line-last n [] line rest h b = (ground arith, ground arith)
keep_line-last n (x ∷ q) line rest h b = elim (Bool-cases (length (x ∷ q) == n)) [
  | inl full ↦ rw full (
    omega (arith, length-append q (pop_carriage_return line ∷ []), b),
    ap (last n) (append-snoc q (pop_carriage_return line) rest)
        ∙ sym (
            last-cons n x (q ++ (pop_carriage_return line ∷ rest))
              (ground (arith, length-append q (pop_carriage_return line ∷ rest)))),
  )
  | inr room ↦ rw room (
    ground (arith, length-append q (pop_carriage_return line ∷ [])),
    ap (last n) (append-snoc (x ∷ q) (pop_carriage_return line) rest),
  )
]

keep_from-last :
    (n : ℕ) (q lines : List Str)
    → 1 ≤ n
    → length q ≤ n
    → keep_from n q lines ≡ last n (q ++ without_returns lines)
unfolding keep_from
keep_from-last n q [] h b = sym (ap (last n) (append-nil q) ∙ last-all n q b)
keep_from-last n q (line ∷ lines) h b =
    let (fits, same) = keep_line-last n q line (without_returns lines) h b in
    keep_from-last n (keep_line n q line) lines h fits ∙ same

keep_last_lines-last :
    (content : Str) (n : ℕ) → 1 ≤ n → keep_last_lines content n ≡ last n (all_lines content)
unfolding keep_last_lines
keep_last_lines-last content n h = keep_from-last n [] (get_lines [] content) h (omega arith)

-- Lines behind a newline do not depend on what is in front of it.
get_lines-append :
    (line a b : Str)
    → get_lines line (a ++ (b'\n' ∷ b)) ≡ get_lines line (a ++ (b'\n' ∷ [])) ++ get_lines [] b
unfolding get_lines
get_lines-append line [] b = refl
get_lines-append line (c ∷ a) b = elim (Bool-cases (c == b'\n')) [
  | inl newline ↦ rw newline (ap (λ l. line ∷ l) (get_lines-append [] a b))
  | inr other ↦ rw other (get_lines-append (line ++ (c ∷ [])) a b)
]

after_newline-split :
    (s rest : Str) → after_newline s ≡ some rest → (a : Str) × (s ≡ a ++ (b'\n' ∷ rest))
unfolding after_newline
after_newline-split [] rest h = cc
after_newline-split (c ∷ s) rest h = elim (Bool-cases (c == b'\n')) [
  | inl newline ↦ ([], ground arith)
  | inr other ↦ let (a, e) = after_newline-split s rest (ground arith) in (c ∷ a, ap (λ l. c ∷ l) e)
]

-- A window that holds enough whole lines gives the last lines of the whole text.
window-last :
    (content : Str) (start n : ℕ) (rest : Str)
    → 1 ≤ n
    → after_newline (drop start content) ≡ some rest
    → n ≤ length (keep_last_lines rest n)
    → keep_last_lines rest n ≡ last n (all_lines content)
window-last content start n rest h found enough =
    let (a, split) = after_newline-split (drop start content) rest found in
    let kept = keep_last_lines-last rest n h in
    let front = get_lines [] ((take start content ++ a) ++ (b'\n' ∷ [])) in
    let whole : all_lines content ≡ without_returns front ++ all_lines rest =
      ap all_lines (
        sym (take-drop start content)
        ∙ ap (λ s. take start content ++ s) split
        ∙ sym (append-assoc_lem (take start content) a (b'\n' ∷ rest)))
      ∙ ap without_returns (get_lines-append [] (take start content ++ a) rest)
      ∙ without_returns-append front (get_lines [] rest) in
    let long : n ≤ length (all_lines rest) =
      omega
        (arith, rw kept at enough, length-drop (length (all_lines rest) - n) (all_lines rest)) in
    kept
    ∙ sym (last-append n (without_returns front) (all_lines rest) long)
    ∙ sym (ap (last n) whole)

-- A window that starts inside the text can grow, until it is the whole text.
read_window-last :
    (fuel : ℕ) (content : Str) (n window : ℕ)
    → 1 ≤ n
    → 1 ≤ window
    → window ≤ length content
    → length content < window + fuel
    → read_window fuel content n window ≡ some (last n (all_lines content))
unfolding read_window
read_window-last zero content n window h w b f = ground arith
read_window-last (suc fuel) content n window h w b f =
    elim (Bool-cases (length content - window == 0)) [
      | inl whole ↦
          let none_cut : length content - window ≡ 0 = ground arith in
          rw (whole, none_cut) (ap some (keep_last_lines-last content n h))
      | inr cut ↦
          let inside : window < length content = ground arith in
          let wider =
            read_window-last fuel content n (min (length content) (window * 2)) h (omega arith)
              (omega arith) (omega arith) in
          elim (Option-cases (after_newline (drop (length content - window) content))) [
            | inl missing ↦ ground arith
            | inr (rest, found) ↦
                ground (arith, window-last content (length content - window) n rest h found)
          ]
    ]

-- Reading the last n lines of a readable file ends without an error, and gives the last n of the
-- lines of its whole content, however the content is cut into windows.
pub read_last_lines-last :
    (content : Str) (n : ℕ)
    → read_last_lines (readable content) n ≡ (some (last n (all_lines content)), [])
unfolding read_last_lines read_content get_lines
read_last_lines-last content zero = ap (λ l. (some l, [])) (sym (drop-length (all_lines content)))
read_last_lines-last [] (suc n) = ground arith
read_last_lines-last (c ∷ s) (suc n) = ground (
  arith,
  read_window-last (suc (length (c ∷ s))) (c ∷ s) (suc n)
      (min (length (c ∷ s)) initial_read_window_bytes) (omega arith) (omega arith) (omega arith)
      (omega arith),
)
