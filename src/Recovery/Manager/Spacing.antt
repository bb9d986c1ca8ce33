-- ===== src/Recovery/Manager/Spacing.antt =====
-- Backoff and startup grace: how far apart restarts are.
use aegis_desk.Prelude.{
  ◌≡◌, false, Option, none, some, List, [], ◌∷◌, ◌⊎◌, inl, inr, arith, Bool-cases,
}
use aegis_desk.Prelude.Int.{ℤ, ◌+ℤ◌, ◌≤ℤ◌}
use aegis_desk.Prelude.Dict.{find}
use aegis_desk.Recovery.State.{seconds_to_milliseconds, record_restart_attempt, is_before}
use aegis_desk.Recovery.Supervision.{Supervision}
use aegis_desk.Recovery.Manager.{RecoveryManager}
use aegis_desk.Recovery.Manager.Decision.{
  Round, id_of, next_state_restart, next_state_otherwise, will_restart-allowed,
}
use aegis_desk.Recovery.Manager.History.{
  Between, after, restarts, restarts-round, decision, logged, facing, policy, state_after,
  definition-round, state_after-step, noted-state,
}

-- Every time is at least `gap` later than the one before it, the newest first.
abbrev pub IsSpaced : ℤ → List ℤ → Type 0
IsSpaced gap [] = Unit
IsSpaced gap (t ∷ []) = Unit
IsSpaced gap (t ∷ u ∷ ts) = (u +ℤ gap ≤ℤ t) × IsSpaced gap (u ∷ ts)

-- When the newest of some times is a gap ago.
abbrev deadline : ℤ → List ℤ → Option ℤ
deadline gap [] = none
deadline gap (t ∷ ts) = some (t +ℤ gap)

IsSpaced-cons :
    (gap now : ℤ) (ts : List ℤ)
    → is_before now (deadline gap ts) ≡ false
    → IsSpaced gap ts
    → IsSpaced gap (now ∷ ts)
IsSpaced-cons gap now [] b h = tt
IsSpaced-cons gap now (t ∷ ts) b h = (ground arith, h)

module _ {D S : Type 0} (v : Supervision D S) (m₀ : RecoveryManager) (s₀ : S) (b : Between v)
    (starts_new : find (id_of v s₀) m₀.states ≡ none) where
  abbrev backoff : ℤ
  backoff = seconds_to_milliseconds (policy v m₀ s₀ b).backoff_seconds

  abbrev grace : ℤ
  grace = seconds_to_milliseconds (policy v m₀ s₀ b).startup_grace_seconds

  -- The two times that the manager keeps, and what a restart respects.
  times-step :
      (r : Round) (older : List Round)
      → let st = state_after v m₀ s₀ b older in
        let next = state_after v m₀ s₀ b (r ∷ older) in
        ((restarts v m₀ s₀ b (r ∷ older) ≡ r.at ∷ restarts v m₀ s₀ b older)
          × (next.next_allowed_restart_at_unix_ms ≡ some (r.at +ℤ backoff))
          × (next.startup_grace_until_unix_ms ≡ some (r.at +ℤ grace))
          × (is_before r.at st.next_allowed_restart_at_unix_ms ≡ false)
          × (is_before r.at st.startup_grace_until_unix_ms ≡ false))
        ⊎ ((restarts v m₀ s₀ b (r ∷ older) ≡ restarts v m₀ s₀ b older)
            × (next.next_allowed_restart_at_unix_ms ≡ st.next_allowed_restart_at_unix_ms)
            × (next.startup_grace_until_unix_ms ≡ st.startup_grace_until_unix_ms))
  unfolding record_restart_attempt
  times-step r older = elim (Bool-cases (decision v m₀ s₀ b r older)) [
    | inl yes_ ↦ ground (
      arith,
      restarts-round v m₀ s₀ b r older,
      state_after-step v m₀ s₀ b r older,
      noted-state v m₀ s₀ b r older,
      definition-round v m₀ s₀ b r older,
      next_state_restart (logged v) (after v m₀ s₀ b older).0
          (facing v b r (after v m₀ s₀ b older).1) r yes_,
      will_restart-allowed (logged v) (after v m₀ s₀ b older).0
          (facing v b r (after v m₀ s₀ b older).1) r yes_,
    )
    | inr no_ ↦ ground (
      arith,
      restarts-round v m₀ s₀ b r older,
      state_after-step v m₀ s₀ b r older,
      noted-state v m₀ s₀ b r older,
      definition-round v m₀ s₀ b r older,
      next_state_otherwise (logged v) (after v m₀ s₀ b older).0
          (facing v b r (after v m₀ s₀ b older).1) r no_,
    )
  ]

  times-after :
      (rounds : List Round)
      → ((state_after v m₀ s₀ b rounds).next_allowed_restart_at_unix_ms
          ≡ deadline backoff (restarts v m₀ s₀ b rounds))
        × ((state_after v m₀ s₀ b rounds).startup_grace_until_unix_ms
            ≡ deadline grace (restarts v m₀ s₀ b rounds))
  unfolding after
  times-after [] = ground arith
  times-after (r ∷ older) = ground (arith, times-step r older, times-after older)

  -- From a manager that has no state of the service yet, whatever the clock does and whatever
  -- happens to the supervisor between the rounds, a call of Start or Restart that it receives from
  -- the manager comes no earlier than the backoff and the startup grace after the call before it.
  pub restarts-IsSpaced :
      (rounds : List Round)
      → IsSpaced backoff (restarts v m₀ s₀ b rounds) × IsSpaced grace (restarts v m₀ s₀ b rounds)
  unfolding after
  restarts-IsSpaced [] = (tt, tt)
  restarts-IsSpaced (r ∷ older) = elim (times-step r older) [
    | inl (log, _, _, allowed, settled) ↦
        let ih = restarts-IsSpaced older in
        let times = times-after older in
        rw log (
          IsSpaced-cons backoff r.at (restarts v m₀ s₀ b older) (rw times.0 at allowed) ih.0,
          IsSpaced-cons grace r.at (restarts v m₀ s₀ b older) (rw times.1 at settled) ih.1,
        )
    | inr (log, _, _) ↦ rw log (restarts-IsSpaced older)
  ]
