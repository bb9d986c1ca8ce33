-- ===== src/Recovery/Manager/Decision.antt =====
-- When the manager restarts a service, and what one call does to its state.
use aegis_desk.Prelude.{
  ◌<◌, ◌≡◌, Bool, true, false, some, List, ◌&&◌, ◌||◌, ◌⊎◌, not, if◌then◌else◌, arith, ltb, length,
}
use aegis_desk.Prelude.Int.{ℤ}
use aegis_desk.Prelude.Text.{Str, str_eq}
use aegis_desk.Prelude.Dict.{find, insert, find-insert}
use aegis_desk.Service.State.{is_desired_stopped}
use aegis_desk.Health.Status.{HealthStatus}
use aegis_desk.Alerts.Event.{AlertEvent}
use aegis_desk.Recovery.Policy.{RecoveryEvent, policy_is_structurally_valid}
use aegis_desk.Recovery.State.{
  ServiceRecoveryState, is_in_startup_grace, is_in_backoff, with_live_attempts,
  record_restart_attempt, should_emit_suppressed_event,
}
use aegis_desk.Recovery.Supervision.{Supervision}
use aegis_desk.Recovery.Manager.{
  RecoveryManager, Recovered, is_unhealthy, state_of, note_healthy, emit, find_trigger, bring_up,
  evaluate_and_recover,
}

pub emit-states :
    (m : RecoveryManager) (events : List RecoveryEvent) (e : RecoveryEvent)
    → ((emit (m, events) e).0.states ≡ m.states)
      × ((emit (m, events) e).0.recent_event_capacity ≡ m.recent_event_capacity)
unfolding emit
emit-states m events e = ground arith

-- One call of `EvaluateAndRecover`: what the monitor saw, and when.
pub record Round : Type 0 where
  pub health : HealthStatus
  pub alerts : List AlertEvent
  pub at : ℤ

module _ {D S : Type 0} (v : Supervision D S) where
  abbrev pub id_of : S → Str
  id_of s = (v.definition s).id

  abbrev pub recover : RecoveryManager → S → Round → Recovered S
  recover m s r = evaluate_and_recover v m s r.health r.alerts r.at

  -- The state that the call reads, the health it is told included.
  abbrev pub noted : RecoveryManager → S → Round → ServiceRecoveryState
  noted m s r = note_healthy r.health.state (state_of m (id_of s))

  -- The decision, as one condition.
  unfoldable pub will_restart : RecoveryManager → S → Round → Bool
  will_restart m s r =
      let p = (v.definition s).recovery_policy in
      let st = noted m s r in
      p.enabled
      && policy_is_structurally_valid p
      && (find_trigger (v.definition s) r.health r.alerts).triggered
      && not (is_desired_stopped (v.get_status s).desired_state)
      && not (
          is_unhealthy r.health.state && not st.has_seen_healthy && not (v.definition s).auto_start)
      && not (is_in_startup_grace st r.at)
      && not (is_in_backoff st r.at)
      && ltb (length (with_live_attempts st p r.at).restart_attempts) p.max_restarts

  pub supervisor-recover :
      (m : RecoveryManager) (s : S) (r : Round)
      → (recover m s r).supervisor ≡ (if will_restart m s r then (bring_up v s).supervisor else s)
  unfolding evaluate_and_recover will_restart
  supervisor-recover m s r = ground arith

  -- The state after the call.
  unfoldable pub next_state : RecoveryManager → S → Round → ServiceRecoveryState
  next_state m s r =
      let p = (v.definition s).recovery_policy in
      let st = noted m s r in
      let live = with_live_attempts st p r.at in
      let suppressed = λ (t : ServiceRecoveryState).
        (should_emit_suppressed_event t m.suppress_event_cooldown_seconds r.at).0 in
      if p.enabled
        && policy_is_structurally_valid p
        && (find_trigger (v.definition s) r.health r.alerts).triggered
        && not (is_desired_stopped (v.get_status s).desired_state)
      then (if (is_unhealthy r.health.state
              && not st.has_seen_healthy
              && not (v.definition s).auto_start)
            || is_in_startup_grace st r.at
            || is_in_backoff st r.at
          then suppressed st
          else if ltb (length live.restart_attempts) p.max_restarts
          then record_restart_attempt live p r.at
          else suppressed live)
      else st

  -- A call sets the state of its own service and leaves the states of all others.
  states-recover :
      (m : RecoveryManager) (s : S) (r : Round)
      → (recover m s r).manager.states ≡ insert (id_of s) (next_state m s r) m.states
  unfolding evaluate_and_recover next_state emit
  states-recover m s r = ground arith

  -- A call gives its own service the state that `next_state` says, and leaves the states of all
  -- other services alone.
  pub find-recover :
      (m : RecoveryManager) (s : S) (r : Round) (id : Str)
      → find id (recover m s r).manager.states
        ≡ (if str_eq (id_of s) id then some (next_state m s r) else find id m.states)
  find-recover m s r id =
      rw (states-recover m s r, find-insert (id_of s) id (next_state m s r) m.states)

  -- What a restart records of itself.
  pub next_state_restart :
      (m : RecoveryManager) (s : S) (r : Round)
      → will_restart m s r ≡ true
      → next_state m s r
        ≡ record_restart_attempt
            (with_live_attempts (noted m s r) (v.definition s).recovery_policy r.at)
            (v.definition s).recovery_policy
            r.at
  unfolding next_state will_restart
  next_state_restart m s r h = ground arith

  -- Any other call leaves the times alone, and forgets at most attempts that have expired.
  pub next_state_otherwise :
      (m : RecoveryManager) (s : S) (r : Round)
      → will_restart m s r ≡ false
      → let next = next_state m s r in
        let st = noted m s r in
        (next.next_allowed_restart_at_unix_ms ≡ st.next_allowed_restart_at_unix_ms)
        × (next.startup_grace_until_unix_ms ≡ st.startup_grace_until_unix_ms)
        × ((next.restart_attempts ≡ st.restart_attempts)
            ⊎ (next.restart_attempts
                ≡ (with_live_attempts st (v.definition s).recovery_policy r.at).restart_attempts))
  unfolding next_state will_restart should_emit_suppressed_event
  next_state_otherwise m s r h = ground arith

  -- A restart is within the budget, and outside backoff and grace.
  pub will_restart-allowed :
      (m : RecoveryManager) (s : S) (r : Round)
      → will_restart m s r ≡ true
      → let p = (v.definition s).recovery_policy in
        (length (with_live_attempts (noted m s r) p r.at).restart_attempts < p.max_restarts)
        × (is_in_startup_grace (noted m s r) r.at ≡ false)
        × (is_in_backoff (noted m s r) r.at ≡ false)
  unfolding will_restart
  will_restart-allowed m s r h = ground arith
