-- ===== src/Prelude/Dict.antt =====
-- `std::unordered_map<std::string, V>` as an association list, with the laws its clients use.
use mathlib.Core.Path.{◌≡◌, refl, sym, subst, subst₂}
use mathlib.Core.Logic.{inl, inr}
use mathlib.Core.Bool.{Bool}
use mathlib.Core.Option.{Option, none, some}
use mathlib.Core.List.{List, [], ◌∷◌}
use native.Mathlib.Omega.{arith}
use aegis_desk.Prelude.Tests.{if◌then◌else◌, Bool-cases, Option-cases}
use aegis_desk.Prelude.Text.{Str, str_eq, str_eq_refl, str_eq_iff}

abbrev pub Dict {ℓ} : Type ℓ → Type ℓ
Dict V = List (Str × V)

module _ {ℓ} {V : Type ℓ} where
  -- `find`, with `none` for `end()`.
  unfoldable pub find : Str → Dict V → Option V
  find k [] = none
  find k ((j, v) ∷ m) = let rest = find k m in if str_eq j k then some v else rest

  -- `m[k] = v`: an entry keeps its place, a new one goes to the end.
  unfoldable pub insert : Str → V → Dict V → Dict V
  insert k v [] = (k, v) ∷ []
  insert k v ((j, w) ∷ m) =
      let rest = insert k v m in if str_eq j k then (j, v) ∷ m else (j, w) ∷ rest

  -- `emplace` keeps a value that is there.
  unfoldable pub emplace : Str → V → Dict V → Dict V
  unfolding find insert
  emplace k v m = elim (find k m) [ some _ ↦ m | none ↦ insert k v m ]

  unfoldable pub erase : Str → Dict V → Dict V
  erase k [] = []
  erase k ((j, w) ∷ m) = let rest = erase k m in if str_eq j k then rest else (j, w) ∷ rest

  -- The loop that erases each entry that meets a test.
  unfoldable pub erase_if : (Str → V → Bool) → Dict V → Dict V
  erase_if p [] = []
  erase_if p ((j, w) ∷ m) = let rest = erase_if p m in if p j w then rest else (j, w) ∷ rest

  pub find-insert :
      (k j : Str) (v : V) (m : Dict V)
      → find j (insert k v m) ≡ (if str_eq k j then some v else find j m)
  unfolding find insert
  find-insert k j v [] = refl
  find-insert k j v ((i, w) ∷ m) =
      ground (arith, str_eq_iff k j, str_eq_iff i k, str_eq_iff i j, find-insert k j v m)

  pub find-erase :
      (k j : Str) (m : Dict V) → find j (erase k m) ≡ (if str_eq k j then none else find j m)
  unfolding find erase
  find-erase k j [] = ground arith
  find-erase k j ((i, w) ∷ m) =
      ground (arith, str_eq_iff k j, str_eq_iff i k, str_eq_iff i j, find-erase k j m)

  pub find-insert_self : (k : Str) (v : V) (m : Dict V) → find k (insert k v m) ≡ some v
  find-insert_self k v m = rw (find-insert k k v m, str_eq_refl k)

  pub find-erase_self : (k : Str) (m : Dict V) → find k (erase k m) ≡ none
  find-erase_self k m = rw (find-erase k k m, str_eq_refl k)

  pub find-erase_if :
      (p : Str → Bool) (j : Str) (m : Dict V)
      → find j (erase_if (λ k _. p k) m) ≡ (if p j then none else find j m)
  unfolding find erase_if
  find-erase_if p j [] = ground arith
  find-erase_if p j ((i, w) ∷ m) = ground (arith, str_eq_iff i j, find-erase_if p j m)

  abbrev pub keys : Dict V → List Str
  keys [] = []
  keys ((k, v) ∷ m) = k ∷ keys m

module _ {ℓ κ} {V : Type ℓ} (P : Str → V → Type κ) where
  -- A property of every entry, key and value.
  abbrev pub Each : Dict V → Type κ
  Each [] = Unit
  Each ((k, v) ∷ m) = P k v × Each m

  pub Each-find : (k : Str) (m : Dict V) {v : V} → Each m → find k m ≡ some v → P k v
  unfolding find
  Each-find k [] h e = cc
  Each-find k ((j, w) ∷ m) {v} h e = elim (Bool-cases (str_eq j k)) [
    | inl hit ↦ let same : w ≡ v = ground arith in subst₂ P ((str_eq_iff j k).0 hit) same h.0
    | inr miss ↦ Each-find k m h.1 (ground arith)
  ]

  pub Each-insert : (k : Str) (v : V) (m : Dict V) → Each m → P k v → Each (insert k v m)
  unfolding insert
  Each-insert k v [] h p = (p, tt)
  Each-insert k v ((j, w) ∷ m) h p = elim (Bool-cases (str_eq j k)) [
    | inl hit ↦ rw hit (subst (λ x. P x v) (sym ((str_eq_iff j k).0 hit)) p, h.1)
    | inr miss ↦ rw miss (h.0, Each-insert k v m h.1 p)
  ]

  pub Each-erase : (k : Str) (m : Dict V) → Each m → Each (erase k m)
  unfolding erase
  Each-erase k [] h = tt
  Each-erase k ((j, w) ∷ m) h = ground (arith, Each-erase k m h.1)

  pub Each-erase_if : (p : Str → V → Bool) (m : Dict V) → Each m → Each (erase_if p m)
  unfolding erase_if
  Each-erase_if p [] h = tt
  Each-erase_if p ((j, w) ∷ m) h = ground (arith, Each-erase_if p m h.1)

  pub Each-emplace : (k : Str) (v : V) (m : Dict V) → Each m → P k v → Each (emplace k v m)
  unfolding emplace
  Each-emplace k v m h p = elim (Option-cases (find k m)) [
    | inl e ↦ rw (emplace, e) (Each-insert k v m h p)
    | inr (w, e) ↦ rw (emplace, e) h
  ]
