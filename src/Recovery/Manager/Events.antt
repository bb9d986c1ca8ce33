-- ===== src/Recovery/Manager/Events.antt =====
-- The events that a call emits and that the manager keeps.
use aegis_desk.Prelude.{
  ℕ, ◌≤◌, ◌≡◌, Bool, true, false, List, [], ◌∷◌, ◌&&◌, not, if◌then◌else◌, arith, length, is_empty,
  All, take, keep,
}
use mathlib.Core.List.{reverse}
use aegis_desk.Prelude.Deque.Recent.{recent_matching-take}
use aegis_desk.Prelude.Int.{is_negative}
use aegis_desk.Prelude.Text.{Str, text, str_eq}
use aegis_desk.Prelude.Deque.{push_bounded, length-push_bounded, All-push_bounded}
use aegis_desk.Service.Id.{is_valid_service_id}
use aegis_desk.Service.State.{is_desired_stopped}
use aegis_desk.Service.Definition.{ServiceDefinition}
use aegis_desk.Health.Status.{HealthStatus}
use aegis_desk.Alerts.Event.{AlertEvent}
use aegis_desk.Recovery.Policy.{
  RecoveryEvent, RecoveryEventType, restart_started, restart_succeeded, restart_failed,
  restart_suppressed, policy_is_structurally_valid, recovery_event_is_structurally_valid,
}
use aegis_desk.Recovery.State.{seconds_to_milliseconds, cooled_down, should_emit_suppressed_event}
use aegis_desk.Recovery.Supervision.{Supervision}
use aegis_desk.Recovery.Manager.{
  RecoveryManager, new_manager, emit, find_critical, find_trigger, bring_up, evaluate_and_recover,
  get_events_for_service,
}
use aegis_desk.Recovery.Manager.Decision.{Round, id_of, recover, noted, will_restart}

critical-reason :
    (id : Str) (alerts : List AlertEvent)
    → (find_critical id alerts).triggered ≡ true
    → is_empty (find_critical id alerts).reason ≡ false
unfolding find_critical text
critical-reason id [] h = cc
critical-reason id (a ∷ alerts) h = ground (arith, critical-reason id alerts)

trigger-reason :
    {D : Type 0} (s : ServiceDefinition D) (health : HealthStatus) (alerts : List AlertEvent)
    → (find_trigger s health alerts).triggered ≡ true
    → is_empty (find_trigger s health alerts).reason ≡ false
unfolding find_trigger text
trigger-reason s health alerts h = ground (arith, critical-reason s.id alerts)

abbrev pub types : List RecoveryEvent → List RecoveryEventType
types [] = []
types (e ∷ es) = e.type ∷ types es

module _ {D S : Type 0} (v : Supervision D S) where
  -- Recovery is called for, the operator wants the service to run, and no suppressed recovery was
  -- reported lately.
  pub may_report : RecoveryManager → S → Round → Bool
  may_report m s r =
      let p = (v.definition s).recovery_policy in
      p.enabled
      && policy_is_structurally_valid p
      && (find_trigger (v.definition s) r.health r.alerts).triggered
      && not (is_desired_stopped (v.get_status s).desired_state)
      && cooled_down (noted v m s r).last_suppressed_event_at_unix_ms
          (seconds_to_milliseconds m.suppress_event_cooldown_seconds) r.at

  -- For a service with a valid identifier, at a time that is not negative: a restart is reported by
  -- its start and its end; a recovery that is held back is reported as suppressed where the
  -- cooldown since the recorded time of the last report is over; every other call reports nothing.
  pub types-recover :
      (m : RecoveryManager) (s : S) (r : Round)
      → is_valid_service_id (id_of v s) ≡ true
      → is_negative r.at ≡ false
      → types (recover v m s r).events ≡ (
          if will_restart v m s r
          then restart_started
            ∷ ((if (bring_up v s).succeeded then restart_succeeded else restart_failed) ∷ [])
          else if may_report m s r
          then restart_suppressed ∷ []
          else [])
  unfolding evaluate_and_recover will_restart may_report emit recovery_event_is_structurally_valid
      should_emit_suppressed_event text
  types-recover m s r hs hn = ground (arith, trigger-reason (v.definition s) r.health r.alerts)

pub record IsValid (m : RecoveryManager) : Type 0 where
  pub has_capacity : 1 ≤ m.recent_event_capacity
  pub bounded : length m.recent_events ≤ m.recent_event_capacity
  pub well_formed : All (λ e. recovery_event_is_structurally_valid e ≡ true) m.recent_events

-- A new manager is valid, also with the capacity 0 in its options.
pub new_manager-IsValid : (capacity cooldown : ℕ) → IsValid (new_manager capacity cooldown)
unfolding new_manager
new_manager-IsValid capacity cooldown = record {
  has_capacity = ground arith;
  bounded = ground arith;
  well_formed = tt;
}

-- The events of a service come newest first, as many as the limit allows, and none is left out.
pub get_events_for_service-take :
    (m : RecoveryManager) (id : Str) (limit : ℕ)
    → get_events_for_service m id limit
      ≡ take limit (keep (λ e. str_eq e.service_id id) (reverse m.recent_events))
unfolding get_events_for_service
get_events_for_service-take m id limit =
    recent_matching-take (λ e. str_eq e.service_id id) m.recent_events limit

-- A history after some events are pushed, the first event first.
abbrev pub push_all : ℕ → List RecoveryEvent → List RecoveryEvent → List RecoveryEvent
push_all capacity history [] = history
push_all capacity history (e ∷ es) = push_all capacity (push_bounded capacity e history) es

abbrev IsProper : RecoveryEvent → Type 0
IsProper e = recovery_event_is_structurally_valid e ≡ true

module _ {D S : Type 0} (v : Supervision D S) where
  -- A call adds to the history the events that it returns, which are well formed.
  pub recent_events-recover :
      (m : RecoveryManager) (s : S) (r : Round)
      → let o = recover v m s r in
        (o.manager.recent_events ≡ push_all m.recent_event_capacity m.recent_events o.events)
        × (o.manager.recent_event_capacity ≡ m.recent_event_capacity)
        × All IsProper o.events
  unfolding evaluate_and_recover emit
  recent_events-recover m s r = (ground arith, ground arith, ground arith)

push_all-IsValid :
    (capacity : ℕ) (history events : List RecoveryEvent)
    → length history ≤ capacity
    → All IsProper history
    → All IsProper events
    → (length (push_all capacity history events) ≤ capacity)
      × All IsProper (push_all capacity history events)
push_all-IsValid capacity history [] b w p = (b, w)
push_all-IsValid capacity history (e ∷ es) b w p =
    push_all-IsValid capacity (push_bounded capacity e history) es
      (length-push_bounded capacity e history) (All-push_bounded IsProper capacity e history p.0 w)
      p.1

-- Every call on a valid manager keeps the history within its capacity and its events well formed.
pub recover-IsValid :
    {D S : Type 0} (v : Supervision D S) (m : RecoveryManager) (s : S) (r : Round)
    → IsValid m
    → IsValid (recover v m s r).manager
recover-IsValid v m s r h =
    let (history, capacity, proper) = recent_events-recover v m s r in
    let (b, w) =
      push_all-IsValid m.recent_event_capacity m.recent_events (recover v m s r).events h.bounded
        h.well_formed proper in
    record {
      has_capacity = rw capacity h.has_capacity;
      bounded = rw (history, capacity) b;
      well_formed = rw history w;
    }
