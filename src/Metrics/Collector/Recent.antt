-- ===== src/Metrics/Collector/Recent.antt =====
-- What `GetHistory` (metrics_collector.cpp) returns.
use aegis_desk.Prelude.{
  ℕ, zero, suc, ◌≡◌, ◌<◌, ◌≤◌, ◌+◌, ◌-◌, refl, Option, none, some, List, [], ◌∷◌, length, drop, ltb,
  ◌==◌, ◌||◌, is_empty, if◌then◌else◌, arith, inl, inr, Bool-cases, Option-cases,
}
use aegis_desk.Prelude.Text.{Str}
use aegis_desk.Prelude.Dict.{find}
use aegis_desk.Prelude.Deque.{get_elem?}
use aegis_desk.Metrics.Value.{ServiceMetrics}
use aegis_desk.Metrics.Collector.{MetricsCollector, get_history, last_entries, copy_from}

module _ {D : Type 0} where
  drop-step :
      (h : List (ServiceMetrics D)) (i : ℕ)
      → i < length h
      → (x : ServiceMetrics D) × (get_elem? h i ≡ some x) × (drop i h ≡ x ∷ drop (suc i) h)
  unfolding get_elem?
  drop-step [] i below = absurd (omega arith)
  drop-step (x ∷ h) zero below = (x, refl, refl)
  drop-step (x ∷ h) (suc i) below = drop-step h i (omega arith)

  drop-all : (h : List (ServiceMetrics D)) (i : ℕ) → length h ≤ i → drop i h ≡ []
  drop-all [] zero above = refl
  drop-all [] (suc i) above = refl
  drop-all (x ∷ h) zero above = absurd (omega arith)
  drop-all (x ∷ h) (suc i) above = drop-all h i (omega arith)

  copy_from-drop :
      (rounds i : ℕ) (h : List (ServiceMetrics D))
      → i + rounds ≡ length h
      → copy_from h rounds i ≡ drop i h
  unfolding copy_from
  copy_from-drop zero i h e = rw (drop-all h i (omega arith)) refl
  copy_from-drop (suc rounds) i h e =
      let (x, got, rest) = drop-step h i (omega arith) in
      rw (copy_from, got, rest, copy_from-drop rounds (suc i) h (omega arith)) refl

  last_entries-drop :
      (limit : ℕ) (h : List (ServiceMetrics D)) → last_entries limit h ≡ drop (length h - limit) h
  unfolding last_entries
  last_entries-drop limit h = elim (Bool-cases (limit == 0 || is_empty h)) [
    | inl stops ↦ rw (stops, drop-all h (length h - limit) (ground arith)) refl
    | inr reads ↦
        let start = if ltb limit (length h) then length h - limit else 0 in
        let e : start ≡ length h - limit = ground arith in
        rw
          (
            reads,
            e,
            copy_from-drop (length h - (length h - limit)) (length h - limit) h (omega arith),
          )
          refl
  ]

  -- The last entries of a history, in order.
  unfoldable pub last_of : ℕ → Option (List (ServiceMetrics D)) → Option (List (ServiceMetrics D))
  last_of limit none = none
  last_of limit (some h) = some (drop (length h - limit) h)

  -- A history that is asked for with a limit is the last entries of what was recorded, oldest first,
  -- as many as the limit and the history allow; of a service without a history there is none.
  pub get_history-last :
      (m : MetricsCollector D) (id : Str) (limit : ℕ)
      → get_history m id limit ≡ last_of limit (find id m.metrics_history)
  unfolding get_history last_of
  get_history-last m id limit = elim (Option-cases (find id m.metrics_history)) [
    | inl e ↦ rw (get_history, e) refl
    | inr (h, e) ↦ rw (get_history, e, last_entries-drop limit h) refl
  ]
