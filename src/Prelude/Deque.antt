-- ===== src/Prelude/Deque.antt =====
-- A `std::deque` as the list of its entries, oldest first: a bounded history, and the loops that
-- read it from the back.
pub mod Recent
use Prim.Native.Nat.{ℕ, zero, suc, ◌+◌, ◌-◌, ◌≤◌, ◌<◌, min}
use mathlib.Core.Path.{◌≡◌, refl, ap, sym, ◌∙◌}
use mathlib.Core.Logic.{inl, inr}
use mathlib.Core.Bool.{Bool, true, false, ◌||◌}
use mathlib.Core.List.{List, [], ◌∷◌, ◌++◌, reverse, reverse-cons}
use mathlib.Core.Option.{Option, none, some}
use native.Mathlib.Omega.{arith}
use aegis_desk.Prelude.Tests.{ltb, ◌==◌, if◌then◌else◌, Bool-cases}
use aegis_desk.Prelude.Lists.{length, is_empty, take, drop, keep, All, length-append, All-append}

module _ {ℓ} {A : Type ℓ} where
  -- `while (q.size() > capacity) q.pop_front();`
  unfoldable pub trim : ℕ → List A → List A
  trim capacity [] = []
  trim capacity (x ∷ xs) =
      let rest = trim capacity xs in if ltb capacity (length (x ∷ xs)) then rest else x ∷ xs

  -- `q.push_back(x)` and the loop above.
  unfoldable pub push_bounded : ℕ → A → List A → List A
  unfolding trim
  push_bounded capacity x xs = trim capacity (xs ++ (x ∷ []))

  unfoldable pub get_elem? : List A → ℕ → Option A
  get_elem? [] i = none
  get_elem? (x ∷ xs) zero = some x
  get_elem? (x ∷ xs) (suc i) = get_elem? xs i

  -- `for (; index < index + rounds; ++index) result.push_back(q[q.size() - 1 - index]);`
  unfoldable pub from_back : List A → ℕ → ℕ → List A
  unfolding get_elem?
  from_back xs zero index = []
  from_back xs (suc rounds) index =
      let rest = from_back xs rounds (index + 1) in
      elim (get_elem? xs (length xs - 1 - index)) [ none ↦ [] | some x ↦ x ∷ rest ]

  -- The body of the methods that return the most recent entries.
  unfoldable pub recent : List A → ℕ → List A
  unfolding from_back
  recent xs limit = if limit == 0 || is_empty xs then [] else from_back xs (min limit (length xs)) 0

  -- The same with a test on each entry and the size of the result in the loop's condition.
  unfoldable pub matching_from_back : (A → Bool) → List A → ℕ → ℕ → ℕ → List A
  unfolding get_elem?
  matching_from_back p xs limit zero index = []
  matching_from_back p xs limit (suc rounds) index =
      let skipped = matching_from_back p xs limit rounds (index + 1) in
      let counted = matching_from_back p xs (limit - 1) rounds (index + 1) in
      if limit == 0 then [] else elim (get_elem? xs (length xs - 1 - index)) [
        | none ↦ []
        | some x ↦ if p x then x ∷ counted else skipped
      ]

  unfoldable pub recent_matching : (A → Bool) → List A → ℕ → List A
  unfolding matching_from_back
  recent_matching p xs limit =
      if limit == 0 then [] else matching_from_back p xs limit (length xs) 0

  pub trim-drop : (capacity : ℕ) (xs : List A) → trim capacity xs ≡ drop (length xs - capacity) xs
  unfolding trim
  trim-drop capacity [] = ground arith
  trim-drop capacity (x ∷ xs) = elim (Bool-cases (ltb capacity (length (x ∷ xs)))) [
    | inl above ↦
        let e : length (x ∷ xs) - capacity ≡ suc (length xs - capacity) = ground arith in
        rw (above, e) (trim-drop capacity xs)
    | inr fits ↦ let e : length (x ∷ xs) - capacity ≡ 0 = ground arith in rw (fits, e)
  ]

  -- A bounded history never exceeds its capacity.
  pub length-push_bounded :
      (capacity : ℕ) (x : A) (xs : List A) → length (push_bounded capacity x xs) ≤ capacity
  unfolding push_bounded
  length-push_bounded capacity x xs = length-trim (xs ++ (x ∷ []))
    where
      length-trim : (ys : List A) → length (trim capacity ys) ≤ capacity
      length-trim [] = omega arith
      length-trim (y ∷ ys) = ground (arith, length-trim ys)

module _ {ℓ κ} {A : Type ℓ} (P : A → Type κ) where
  All-trim : (capacity : ℕ) (xs : List A) → All P xs → All P (trim capacity xs)
  unfolding trim
  All-trim capacity [] h = h
  All-trim capacity (x ∷ xs) h = ground (arith, All-trim capacity xs h.1)

  pub All-push_bounded :
      (capacity : ℕ) (x : A) (xs : List A) → P x → All P xs → All P (push_bounded capacity x xs)
  unfolding push_bounded
  All-push_bounded capacity x xs p h =
      All-trim capacity (xs ++ (x ∷ [])) (All-append P xs (x ∷ []) h (p, tt))
