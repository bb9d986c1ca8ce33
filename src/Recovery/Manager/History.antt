-- ===== src/Recovery/Manager/History.antt =====
-- The restarts of one service over any number of rounds: budget and spacing.
use aegis_desk.Prelude.{
  Bool, ◌<◌, ◌≡◌, refl, List, [], ◌∷◌, ◌++◌, ◌⊎◌, inl, inr, if◌then◌else◌, arith, length,
  Bool-cases,
}
use aegis_desk.Prelude.Int.{ℤ, pos}
use aegis_desk.Prelude.Text.{str_eq_refl}
use aegis_desk.Recovery.Policy.{RecoveryPolicy}
use aegis_desk.Recovery.State.{
  ServiceRecoveryState, seconds_to_milliseconds, pop_expired, record_restart_attempt,
}
use aegis_desk.Recovery.Supervision.{Supervision, Outcome}
use aegis_desk.Recovery.Manager.{RecoveryManager, state_of}
use aegis_desk.Recovery.Manager.Decision.{
  Round, id_of, recover, noted, will_restart, supervisor-recover, next_state, find-recover,
  next_state_restart, next_state_otherwise, will_restart-allowed,
}

-- A supervisor with the times of the calls of Start and Restart that it has received, the newest
-- first, by a clock that shows the time of the round.
pub record Logged (S : Type 0) : Type 0 where
  pub supervisor : S
  pub clock : ℤ
  pub calls : List ℤ

module _ {D S : Type 0} (v : Supervision D S) where
  abbrev received : Logged S → Outcome S → Outcome (Logged S)
  received l o = record {
    supervisor = record l { supervisor = o.supervisor; calls = l.clock ∷ l.calls };
    succeeded = o.succeeded;
    error = o.error;
  }

  -- The supervision `v`, with every call of Start and Restart written down.
  abbrev pub logged : Supervision D (Logged S)
  logged = record {
    definition = λ l. v.definition l.supervisor;
    get_status = λ l. v.get_status l.supervisor;
    start = λ l. received l (v.start l.supervisor);
    restart = λ l. received l (v.restart l.supervisor);
    definition-start = λ l. v.definition-start l.supervisor;
    definition-restart = λ l. v.definition-restart l.supervisor;
  }

-- What happens to the supervisor before a round: a process may exit, an operator may act. The
-- definition stays.
pub record Between {D S : Type 0} (v : Supervision D S) : Type 0 where
  pub change : Round → S → S
  pub definition-change : (r : Round) (s : S) → v.definition (change r s) ≡ v.definition s

abbrev pub facing : {D S : Type 0} (v : Supervision D S) → Between v → Round → Logged S → Logged S
facing v b r l = record l { supervisor = b.change r l.supervisor; clock = r.at }

module _ {D S : Type 0} (v : Supervision D S) (m₀ : RecoveryManager) (s₀ : S) (b : Between v) where
  -- The manager and the supervisor after some rounds, the newest first.
  unfoldable pub after : List Round → RecoveryManager × Logged S
  after [] = (m₀, record { supervisor = s₀; clock = pos 0; calls = [] })
  after (r ∷ older) =
      let (m, l) = after older in
      let o = recover (logged v) m (facing v b r l) r in (o.manager, o.supervisor)

  -- The times at which the supervisor was started or restarted, the newest first.
  abbrev pub restarts : List Round → List ℤ
  restarts rounds = (after rounds).1.calls

  -- The call of a round.
  abbrev pub decision : Round → List Round → Bool
  decision r older = will_restart (logged v) (after older).0 (facing v b r (after older).1) r

  -- A round writes down a call exactly when the decision is for a restart.
  pub restarts-round :
      (r : Round) (older : List Round)
      → restarts (r ∷ older) ≡ (if decision r older then r.at ∷ restarts older else restarts older)
  unfolding after
  restarts-round r older =
      ground (arith, supervisor-recover (logged v) (after older).0 (facing v b r (after older).1) r)

  -- Rounds never change the definition.
  pub definition-after :
      (rounds : List Round) → v.definition (after rounds).1.supervisor ≡ v.definition s₀
  unfolding after
  definition-after [] = refl
  definition-after (r ∷ older) = ground (
    arith,
    supervisor-recover (logged v) (after older).0 (facing v b r (after older).1) r,
    v.definition-start (b.change r (after older).1.supervisor),
    v.definition-restart (b.change r (after older).1.supervisor),
    b.definition-change r (after older).1.supervisor,
    definition-after older,
  )

  -- Nor does what happens before the next one.
  pub definition-round :
      (r : Round) (older : List Round)
      → v.definition (b.change r (after older).1.supervisor) ≡ v.definition s₀
  definition-round r older =
      ground (arith, b.definition-change r (after older).1.supervisor, definition-after older)

  abbrev pub policy : RecoveryPolicy
  policy = (v.definition s₀).recovery_policy

  abbrev pub window : ℤ
  window = seconds_to_milliseconds policy.window_seconds

  abbrev pub state_after : List Round → ServiceRecoveryState
  state_after rounds = state_of (after rounds).0 (id_of v s₀)

  pub state_after-step :
      (r : Round) (older : List Round)
      → state_after (r ∷ older)
        ≡ next_state (logged v) (after older).0 (facing v b r (after older).1) r
  unfolding after
  state_after-step r older = ground (
    arith,
    find-recover (logged v) (after older).0 (facing v b r (after older).1) r (id_of v s₀),
    definition-round r older,
    str_eq_refl (id_of v s₀),
  )

  -- What is remembered across a round: the attempts, and the two times.
  pub noted-state :
      (r : Round) (older : List Round)
      → let st = noted (logged v) (after older).0 (facing v b r (after older).1) r in
        (st.restart_attempts ≡ (state_after older).restart_attempts)
        × (st.next_allowed_restart_at_unix_ms ≡ (state_after older).next_allowed_restart_at_unix_ms)
        × (st.startup_grace_until_unix_ms ≡ (state_after older).startup_grace_until_unix_ms)
  noted-state r older = ground (arith, definition-round r older)

  pub restarts-step :
      (r : Round) (older : List Round)
      → let live = pop_expired window r.at (state_after older).restart_attempts in
        let next = (state_after (r ∷ older)).restart_attempts in
        ((next ≡ live ++ (r.at ∷ []))
          × (restarts (r ∷ older) ≡ r.at ∷ restarts older)
          × (length live < policy.max_restarts))
        ⊎ (((next ≡ live) ⊎ (next ≡ (state_after older).restart_attempts))
            × (restarts (r ∷ older) ≡ restarts older))
  unfolding record_restart_attempt
  restarts-step r older = elim (Bool-cases (decision r older)) [
    | inl yes_ ↦ ground (
      arith,
      restarts-round r older,
      state_after-step r older,
      noted-state r older,
      definition-round r older,
      next_state_restart (logged v) (after older).0 (facing v b r (after older).1) r yes_,
      will_restart-allowed (logged v) (after older).0 (facing v b r (after older).1) r yes_,
    )
    | inr no_ ↦ ground (
      arith,
      restarts-round r older,
      state_after-step r older,
      noted-state r older,
      definition-round r older,
      next_state_otherwise (logged v) (after older).0 (facing v b r (after older).1) r no_,
    )
  ]
