-- ===== src/Prelude/Deque/Recent.antt =====
-- The loops that read a history from its back give its newest entries first.
use Prim.Native.Nat.{ℕ, zero, suc, ◌+◌, ◌-◌, ◌≤◌, ◌<◌, min}
use mathlib.Core.Path.{◌≡◌, refl, ap, sym, ◌∙◌}
use mathlib.Core.Logic.{inl, inr}
use mathlib.Core.Bool.{Bool, false}
use mathlib.Core.List.{List, [], ◌∷◌, ◌++◌, reverse, reverse-cons}
use mathlib.Core.Option.{some}
use native.Mathlib.Omega.{arith}
use native.Mathlib.Numerals.{add-one}
use aegis_desk.Prelude.Tests.{ltb, ◌==◌, Bool-cases}
use aegis_desk.Prelude.Lists.{length, take, drop, keep, length-append}
use aegis_desk.Prelude.Deque.{get_elem?, from_back, recent, matching_from_back, recent_matching}

suc-ne-zero : (n : ℕ) → (suc n == 0) ≡ false
suc-ne-zero n = ground arith

module _ {ℓ} {A : Type ℓ} where
  length-reverse : (xs : List A) → length (reverse xs) ≡ length xs
  length-reverse [] = refl
  length-reverse (x ∷ xs) =
      omega (
        arith,
        ap length (reverse-cons x xs),
        length-append (reverse xs) (x ∷ []),
        length-reverse xs,
      )

  get_elem?-append_left :
      (xs ys : List A) (i : ℕ) → i < length xs → get_elem? (xs ++ ys) i ≡ get_elem? xs i
  unfolding get_elem?
  get_elem?-append_left [] ys i h = elim h [ ]
  get_elem?-append_left (x ∷ xs) ys zero h = refl
  get_elem?-append_left (x ∷ xs) ys (suc i) h = get_elem?-append_left xs ys i (omega arith)

  get_elem?-append_last : (xs : List A) (x : A) → get_elem? (xs ++ (x ∷ [])) (length xs) ≡ some x
  unfolding get_elem?
  get_elem?-append_last [] x = refl
  get_elem?-append_last (y ∷ xs) x = get_elem?-append_last xs x

  get_elem?-suc_sub :
      (x : A) (xs : List A) (i : ℕ)
      → i < length xs
      → get_elem? (x ∷ xs) (length xs - i) ≡ get_elem? xs (length xs - 1 - i)
  unfolding get_elem?
  get_elem?-suc_sub x xs i h = let e : length xs - i ≡ suc (length xs - 1 - i) = omega arith in rw e

  get_elem?-reverse :
      (xs : List A) (i : ℕ)
      → i < length xs
      → get_elem? xs (length xs - 1 - i) ≡ get_elem? (reverse xs) i
  get_elem?-reverse [] i h = elim h [ ]
  get_elem?-reverse (x ∷ xs) i h = elim (Bool-cases (ltb i (length xs))) [
    | inl inner ↦
        let below : i < length xs = ground arith in
        let below' : i < length (reverse xs) = omega (arith, length-reverse xs) in
        let e : length (x ∷ xs) - 1 - i ≡ length xs - i = omega arith in
        rw (e, get_elem?-suc_sub x xs i below, reverse-cons x xs)
          (get_elem?-reverse xs i below
            ∙ sym (get_elem?-append_left (reverse xs) (x ∷ []) i below'))
    | inr last ↦
        let e : i ≡ length (reverse xs) = ground (arith, length-reverse xs) in
        let z : length (x ∷ xs) - 1 - i ≡ 0 = ground arith in
        rw (z, reverse-cons x xs, e)
          (unfold get_elem? in sym (get_elem?-append_last (reverse xs) x))
  ]

  drop-cons :
      (xs : List A) (i : ℕ)
      → i < length xs
      → (x : A) × (get_elem? xs i ≡ some x) × (drop i xs ≡ x ∷ drop (suc i) xs)
  unfolding get_elem?
  drop-cons [] i h = elim h [ ]
  drop-cons (x ∷ xs) zero h = (x, refl, refl)
  drop-cons (x ∷ xs) (suc i) h = drop-cons xs i (omega arith)

  -- What the loop reads at an index that is in range.
  read_back :
      (xs : List A) (i : ℕ)
      → i < length xs
      → (x : A) × (get_elem? xs (length xs - 1 - i) ≡ some x)
        × (drop i (reverse xs) ≡ x ∷ drop (i + 1) (reverse xs))
  read_back xs i h =
      let (x, e, d) = drop-cons (reverse xs) i (omega (arith, length-reverse xs)) in
      (x, get_elem?-reverse xs i h ∙ e, rw (add-one i) d)

  from_back-take :
      (xs : List A) (rounds i : ℕ)
      → rounds + i ≤ length xs
      → from_back xs rounds i ≡ take rounds (drop i (reverse xs))
  unfolding from_back
  from_back-take xs zero i h = refl
  from_back-take xs (suc rounds) i h =
      let (x, e, d) = read_back xs i (omega arith) in
      let ih = from_back-take xs rounds (i + 1) (omega arith) in rw (e, from_back, d, ih)

  take-min : (limit : ℕ) (xs : List A) → take (min limit (length xs)) xs ≡ take limit xs
  take-min zero xs = let e : min 0 (length xs) ≡ 0 = omega arith in rw e
  take-min (suc n) [] = let e : min (suc n) 0 ≡ 0 = omega arith in rw e
  take-min (suc n) (x ∷ xs) =
      let e : min (suc n) (suc (length xs)) ≡ suc (min n (length xs)) = omega arith in
      rw (e, take-min n xs)

  take-length : (xs : List A) → take (length xs) xs ≡ xs
  take-length [] = refl
  take-length (x ∷ xs) = rw (take-length xs)

  -- The most recent entries, the newest first.
  pub recent-take : (xs : List A) (limit : ℕ) → recent xs limit ≡ take limit (reverse xs)
  unfolding recent
  recent-take [] zero = refl
  recent-take [] (suc n) = rw (suc-ne-zero n)
  recent-take (x ∷ xs) zero = refl
  recent-take (x ∷ xs) (suc n) =
      let bound : min (suc n) (length (x ∷ xs)) + 0 ≤ length (x ∷ xs) = omega arith in
      let same : length (x ∷ xs) ≡ length (reverse (x ∷ xs)) = sym (length-reverse (x ∷ xs)) in
      rw (suc-ne-zero n) (
        from_back-take (x ∷ xs) (min (suc n) (length (x ∷ xs))) 0 bound
        ∙ rw same (take-min (suc n) (reverse (x ∷ xs))))

  matching_from_back-take :
      (p : A → Bool) (xs : List A) (limit rounds i : ℕ)
      → rounds + i ≤ length xs
      → matching_from_back p xs limit rounds i
        ≡ take limit (keep p (take rounds (drop i (reverse xs))))
  unfolding matching_from_back
  matching_from_back-take p xs zero zero i h = refl
  matching_from_back-take p xs (suc limit) zero i h = refl
  matching_from_back-take p xs zero (suc rounds) i h = refl
  matching_from_back-take p xs (suc limit) (suc rounds) i h =
      let (x, e, d) = read_back xs i (omega arith) in
      let skipped = matching_from_back-take p xs (suc limit) rounds (i + 1) (omega arith) in
      let counted = matching_from_back-take p xs limit rounds (i + 1) (omega arith) in
      let pred : suc limit - 1 ≡ limit = omega arith in
      elim (Bool-cases (p x)) [
        | inl hit ↦ rw (suc-ne-zero limit, e, matching_from_back, d, hit, pred, counted)
        | inr miss ↦ rw (suc-ne-zero limit, e, matching_from_back, d, miss, skipped)
      ]

  -- The most recent entries that pass a test, the newest first.
  pub recent_matching-take :
      (p : A → Bool) (xs : List A) (limit : ℕ)
      → recent_matching p xs limit ≡ take limit (keep p (reverse xs))
  unfolding recent_matching
  recent_matching-take p xs zero = refl
  recent_matching-take p xs (suc limit) =
      let whole : take (length xs) (reverse xs) ≡ reverse xs =
        rw (sym (length-reverse xs)) (take-length (reverse xs)) in
      rw (suc-ne-zero limit)
        (matching_from_back-take p xs (suc limit) (length xs) 0 (omega arith) ∙ rw whole)
