-- ===== src/Recovery/Manager/Cooldown.antt =====
-- How often a recovery that is held back is reported (recovery_manager.cpp).
use aegis_desk.Prelude.{
  ℕ, ◌≡◌, refl, Bool, true, false, Option, none, some, List, [], ◌∷◌, ◌++◌, ◌⊎◌, inl, inr,
  if◌then◌else◌, arith,
}
use aegis_desk.Prelude.Int.{ℤ, ◌≤ℤ◌, +ℤ_parts}
use aegis_desk.Recovery.Policy.{RecoveryEvent, RecoveryEventType, restart_suppressed}
use aegis_desk.Recovery.State.{
  seconds_to_milliseconds, record_restart_attempt, should_emit_suppressed_event, cooled_down,
}
use aegis_desk.Recovery.Supervision.{Supervision}
use aegis_desk.Recovery.Manager.{RecoveryManager, emit, evaluate_and_recover}
use aegis_desk.Recovery.Manager.Decision.{Round, recover, noted, next_state}
use aegis_desk.Recovery.Manager.History.{
  Between, after, logged, facing, state_after, definition-round, state_after-step,
}
use aegis_desk.Recovery.Manager.Spacing.{IsSpaced}

abbrev is_suppressed : RecoveryEventType → Bool
is_suppressed restart_suppressed = true
is_suppressed _ = false

-- The times of the suppressed recoveries among some events.
unfoldable pub suppressed_in : List RecoveryEvent → List ℤ
suppressed_in [] = []
suppressed_in (e ∷ es) =
    let rest = suppressed_in es in
    if is_suppressed e.type then e.occurred_at_unix_ms ∷ rest else rest

abbrev cooldown_of : RecoveryManager → ℤ
cooldown_of m = seconds_to_milliseconds m.suppress_event_cooldown_seconds

module _ {D S : Type 0} (v : Supervision D S) where
  -- What a call reports as suppressed, and the time that it keeps of a report.
  suppressed_in-recover :
      (m : RecoveryManager) (s : S) (r : Round)
      → let was = (noted v m s r).last_suppressed_event_at_unix_ms in
        let last = (next_state v m s r).last_suppressed_event_at_unix_ms in
        let reported = suppressed_in (recover v m s r).events in
        ((reported ≡ []) × (last ≡ was))
        ⊎ (((reported ≡ []) ⊎ (reported ≡ r.at ∷ []))
            × (last ≡ some r.at)
            × (cooled_down was (cooldown_of m) r.at ≡ true))
  unfolding evaluate_and_recover next_state emit should_emit_suppressed_event record_restart_attempt
      suppressed_in
  suppressed_in-recover m s r = ground arith

  cooldown-recover :
      (m : RecoveryManager) (s : S) (r : Round)
      → (recover v m s r).manager.suppress_event_cooldown_seconds
        ≡ m.suppress_event_cooldown_seconds
  unfolding evaluate_and_recover emit should_emit_suppressed_event
  cooldown-recover m s r = ground arith

-- The newest of some times is no later than a time that is kept.
abbrev Covers : Option ℤ → List ℤ → Type 0
Covers last [] = Unit
Covers none (t ∷ ts) = ⊥
Covers (some last) (t ∷ ts) = t ≤ℤ last

Covers-cooled :
    (n : ℕ) (was : Option ℤ) (now : ℤ) (ts : List ℤ)
    → cooled_down was (seconds_to_milliseconds n) now ≡ true
    → Covers was ts
    → IsSpaced (seconds_to_milliseconds n) ts
    → Covers (some now) ts × IsSpaced (seconds_to_milliseconds n) (now ∷ ts)
Covers-cooled n was now [] h c s = (tt, tt)
Covers-cooled n none now (t ∷ ts) h c s = absurd c
Covers-cooled n (some last) now (t ∷ ts) h c s =
    let to = +ℤ_parts last (seconds_to_milliseconds n) in
    let from = +ℤ_parts t (seconds_to_milliseconds n) in
    (ground (arith, to), (ground (arith, to, from), s))

module _ {D S : Type 0} (v : Supervision D S) (m₀ : RecoveryManager) (s₀ : S) (b : Between v) where
  -- The times of the suppressed recoveries that the rounds report, the newest first.
  unfoldable pub reports : List Round → List ℤ
  reports [] = []
  reports (r ∷ older) =
      suppressed_in
        (recover (logged v) (after v m₀ s₀ b older).0 (facing v b r (after v m₀ s₀ b older).1)
          r).events
      ++ reports older

  abbrev pub cooldown : ℤ
  cooldown = cooldown_of m₀

  cooldown-after :
      (rounds : List Round)
      → (after v m₀ s₀ b rounds).0.suppress_event_cooldown_seconds
        ≡ m₀.suppress_event_cooldown_seconds
  unfolding after
  cooldown-after [] = refl
  cooldown-after (r ∷ older) = ground (
    arith,
    cooldown-recover (logged v) (after v m₀ s₀ b older).0 (facing v b r (after v m₀ s₀ b older).1)
        r,
    cooldown-after older,
  )

  noted-last :
      (r : Round) (older : List Round)
      → (noted
          (logged v)
          (after v m₀ s₀ b older).0
          (facing v b r (after v m₀ s₀ b older).1)
          r).last_suppressed_event_at_unix_ms
        ≡ (state_after v m₀ s₀ b older).last_suppressed_event_at_unix_ms
  noted-last r older = ground (arith, definition-round v m₀ s₀ b r older)

  -- What a round adds to the reports, and the time that is kept of them.
  reports-round :
      (r : Round) (older : List Round)
      → let was = (state_after v m₀ s₀ b older).last_suppressed_event_at_unix_ms in
        let last = (state_after v m₀ s₀ b (r ∷ older)).last_suppressed_event_at_unix_ms in
        ((reports (r ∷ older) ≡ reports older) × (last ≡ was))
        ⊎ (((reports (r ∷ older) ≡ reports older) ⊎ (reports (r ∷ older) ≡ r.at ∷ reports older))
            × (last ≡ some r.at)
            × (cooled_down was cooldown r.at ≡ true))
  unfolding reports
  reports-round r older = ground (
    arith,
    suppressed_in-recover (logged v) (after v m₀ s₀ b older).0
        (facing v b r (after v m₀ s₀ b older).1) r,
    cooldown-after older,
    noted-last r older,
    state_after-step v m₀ s₀ b r older,
  )

  reports-Covers :
      (rounds : List Round)
      → Covers (state_after v m₀ s₀ b rounds).last_suppressed_event_at_unix_ms (reports rounds)
        × IsSpaced cooldown (reports rounds)
  unfolding reports
  reports-Covers [] = (tt, tt)
  reports-Covers (r ∷ older) =
      let ih = reports-Covers older in
      let was = (state_after v m₀ s₀ b older).last_suppressed_event_at_unix_ms in
      let n = m₀.suppress_event_cooldown_seconds in
      elim (reports-round r older) [
        | inl (same, last) ↦ rw (same, last) ih
        | inr (inl same, last, cool) ↦
            rw (same, last) ((Covers-cooled n was r.at (reports older) cool ih.0 ih.1).0, ih.1)
        | inr (inr one, last, cool) ↦
            rw (one, last)
              (omega arith, (Covers-cooled n was r.at (reports older) cool ih.0 ih.1).1)
      ]

  -- From any manager on, whatever the clock does and whatever happens to the supervisor between the
  -- rounds, a call that reports a suppressed recovery comes no earlier than
  -- suppress_event_cooldown_seconds after the call that reported one before it.
  pub reports-IsSpaced : (rounds : List Round) → IsSpaced cooldown (reports rounds)
  reports-IsSpaced rounds = (reports-Covers rounds).1
