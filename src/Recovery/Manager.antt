-- ===== src/Recovery/Manager.antt =====
-- apps/agent/src/recovery/recovery_manager.cpp. A method returns the new manager and its result;
-- the mutex makes each call one step.
pub mod Decision
pub mod History
pub mod Budget
pub mod Spacing
pub mod Events
pub mod Cooldown
use aegis_desk.Prelude.{
  ℕ, ◌+◌, ◌%◌, ◌^◌, Bool, true, false, Option, none, some, List, [], ◌∷◌, ◌++◌, ◌&&◌, ◌||◌, not,
  if◌then◌else◌, ltb, ◌==◌, keep, length, is_empty,
}
use aegis_desk.Prelude.Int.{ℤ, pos}
use aegis_desk.Prelude.Text.{Str, text, str_eq}
use aegis_desk.Prelude.Dict.{Dict, find, insert, erase}
use aegis_desk.Prelude.Deque.{push_bounded, recent, recent_matching}
use aegis_desk.Service.State.{is_desired_stopped}
use aegis_desk.Service.Status.{ServiceStatus, has_running_process}
use aegis_desk.Service.Definition.{ServiceDefinition}
use aegis_desk.Health.Status.{HealthState, healthy, unhealthy, unknown, HealthStatus}
use aegis_desk.Alerts.Rule.{AlertSeverity, critical}
use aegis_desk.Alerts.Event.{AlertEvent, AlertEventState, active, resolved}
use aegis_desk.Recovery.Policy.{
  RecoveryPolicy, RecoveryEvent, RecoveryEventType, restart_started, restart_succeeded,
  restart_failed, restart_suppressed, policy_is_structurally_valid,
  recovery_event_is_structurally_valid,
}
use aegis_desk.Recovery.State.{
  ServiceRecoveryState, new_state, is_in_startup_grace, is_in_backoff, has_restart_budget,
  record_restart_attempt, should_emit_suppressed_event,
}
use aegis_desk.Recovery.Supervision.{Supervision, Outcome}

pub record RecoveryManager : Type 0 where
  pub recent_event_capacity : ℕ
  pub suppress_event_cooldown_seconds : ℕ
  pub states : Dict ServiceRecoveryState
  pub recent_events : List RecoveryEvent

-- The constructor: options of 0 become 1.
unfoldable pub new_manager : ℕ → ℕ → RecoveryManager
new_manager capacity cooldown = record {
  recent_event_capacity = if capacity == 0 then 1 else capacity;
  suppress_event_cooldown_seconds = if cooldown == 0 then 1 else cooldown;
  states = [];
  recent_events = [];
}

pub record RecoveryTrigger : Type 0 where
  pub triggered : Bool
  pub reason : Str
  pub alert_event_id : Option Str

abbrev pub is_unhealthy : HealthState → Bool
is_unhealthy unhealthy = true
is_unhealthy _ = false

abbrev pub is_critical : AlertSeverity → Bool
is_critical critical = true
is_critical _ = false

abbrev pub is_active : AlertEventState → Bool
is_active active = true
is_active resolved = false

abbrev pub is_critical_for : Str → AlertEvent → Bool
is_critical_for id a = str_eq a.service_id id && is_active a.state && is_critical a.severity

abbrev no_trigger : RecoveryTrigger
no_trigger = record { triggered = false; reason = []; alert_event_id = none }

-- The loop over the active alerts.
unfoldable pub find_critical : Str → List AlertEvent → RecoveryTrigger
find_critical id [] = no_trigger
find_critical id (a ∷ alerts) =
    let rest = find_critical id alerts in
    if is_critical_for id a
    then record {
      triggered = true;
      reason = text "critical alert is active: " ++ a.id;
      alert_event_id = some a.id;
    }
    else rest

-- What a service's state is read as where the map has none: `states_[id]` creates it.
abbrev pub state_or_new : Option ServiceRecoveryState → ServiceRecoveryState
state_or_new none = new_state
state_or_new (some st) = st

abbrev pub state_of : RecoveryManager → Str → ServiceRecoveryState
state_of m id = state_or_new (find id m.states)

abbrev put_state : RecoveryManager → Str → ServiceRecoveryState → RecoveryManager
put_state m id st = record m { states = insert id st m.states }

abbrev pub note_healthy : HealthState → ServiceRecoveryState → ServiceRecoveryState
note_healthy healthy st = record st { has_seen_healthy = true }
note_healthy _ st = st

-- `if (event.IsStructurallyValid()) { PushRecentEventLocked(event); update.events.push_back(event); }`
unfoldable pub emit :
    RecoveryManager × List RecoveryEvent → RecoveryEvent → RecoveryManager × List RecoveryEvent
emit (m, events) event =
    if recovery_event_is_structurally_valid event
    then (
      record m { recent_events = push_bounded m.recent_event_capacity event m.recent_events },
      events ++ (event ∷ []),
    )
    else (m, events)

make_event : Str → RecoveryEventType → ℤ → Str → Option Str → ServiceRecoveryState → RecoveryEvent
make_event id type now reason alert_event_id st = record {
  service_id = id;
  type = type;
  occurred_at_unix_ms = now;
  reason = reason;
  alert_event_id = alert_event_id;
  restart_count_in_window = length st.restart_attempts % 2 ^ 32;
}

unfoldable pub get_recent_events : RecoveryManager → ℕ → List RecoveryEvent
get_recent_events m limit = recent m.recent_events limit

unfoldable pub get_events_for_service : RecoveryManager → Str → ℕ → List RecoveryEvent
get_events_for_service m service_id limit =
    recent_matching (λ e. str_eq e.service_id service_id) m.recent_events limit

unfoldable pub forget_service : RecoveryManager → Str → RecoveryManager
forget_service m service_id = record m {
  states = erase service_id m.states;
  recent_events = keep (λ e. not (str_eq e.service_id service_id)) m.recent_events;
}

unfoldable pub clear : RecoveryManager → RecoveryManager
clear m = record m { states = []; recent_events = [] }

-- What `EvaluateAndRecover` returns: the manager, the supervisor, and `update.events`.
pub record Recovered (S : Type 0) : Type 0 where
  pub manager : RecoveryManager
  pub supervisor : S
  pub events : List RecoveryEvent

unfoldable pub find_trigger :
    {D : Type 0} → ServiceDefinition D → HealthStatus → List AlertEvent → RecoveryTrigger
unfolding find_critical
find_trigger s health alerts =
    if s.recovery_policy.restart_on_unhealthy && is_unhealthy health.state
    then record {
      triggered = true;
      reason = text "service health state is unhealthy: " ++ health.reason;
      alert_event_id = none;
    }
    else if s.recovery_policy.restart_on_critical_alert
    then find_critical s.id alerts
    else no_trigger

-- A suppressed recovery: an event, unless one was emitted lately.
suppress :
    RecoveryManager
    → Str
    → ServiceRecoveryState
    → RecoveryTrigger
    → ℤ
    → Str
    → RecoveryManager × List RecoveryEvent
unfolding should_emit_suppressed_event
suppress m id st trigger now reason =
    let (st', due) = should_emit_suppressed_event st m.suppress_event_cooldown_seconds now in
    let m' = put_state m id st' in
    if due
    then emit (m', []) (make_event id restart_suppressed now reason trigger.alert_event_id st')
    else (m', [])

failure_reason : Str → Str
failure_reason error = if is_empty error then text "restart operation failed" else error

module _ {D S : Type 0} (v : Supervision D S) where
  -- `supervisor.Restart` of a running service, `supervisor.Start` of any other.
  abbrev pub bring_up : S → Outcome S
  bring_up s = if has_running_process (v.get_status s) then v.restart s else v.start s

  -- The restart: its two events and the record of the attempt.
  attempt : RecoveryManager → S → ServiceRecoveryState → RecoveryTrigger → ℤ → Recovered S
  unfolding make_event record_restart_attempt failure_reason
  attempt m s st trigger now =
      let id = (v.definition s).id in
      let started =
        emit (m, []) (make_event id restart_started now trigger.reason trigger.alert_event_id st) in
      let outcome = bring_up s in
      let st' = record_restart_attempt st (v.definition s).recovery_policy now in
      let finished = emit started (
        if outcome.succeeded
        then make_event id restart_succeeded now trigger.reason trigger.alert_event_id st'
        else make_event id restart_failed now (failure_reason outcome.error) trigger.alert_event_id
            st') in
      record {
        manager = put_state finished.0 id st';
        supervisor = outcome.supervisor;
        events = finished.1;
      }

  abbrev kept : S → RecoveryManager × List RecoveryEvent → Recovered S
  kept s r = record { manager = r.0; supervisor = s; events = r.1 }

  -- From the check of the desired state on.
  react :
      RecoveryManager → S → ServiceRecoveryState → HealthState → RecoveryTrigger → ℤ → Recovered S
  unfolding suppress attempt
  react m s st health trigger now =
      let id = (v.definition s).id in
      if is_desired_stopped (v.get_status s).desired_state
      then kept s (put_state m id st, [])
      else if is_unhealthy health && not st.has_seen_healthy && not (v.definition s).auto_start
      then kept s (
          suppress m id st trigger now
            (text "auto recovery suppressed because service has not been observed healthy yet"))
      else if is_in_startup_grace st now
      then kept s (
          suppress m id st trigger now
            (text "auto recovery suppressed during startup grace period"))
      else if is_in_backoff st now
      then kept s (suppress m id st trigger now (text "auto recovery suppressed by backoff window"))
      else (let (st', budget) = has_restart_budget st (v.definition s).recovery_policy now in
          if not budget
          then kept s (
              suppress m id st' trigger now
                (text "auto recovery suppressed because restart limit was reached"))
          else attempt m s st' trigger now)

  unfoldable pub evaluate_and_recover :
      RecoveryManager → S → HealthStatus → List AlertEvent → ℤ → Recovered S
  unfolding react find_trigger
  evaluate_and_recover m s health alerts now =
      let id = (v.definition s).id in
      let policy = (v.definition s).recovery_policy in
      let st = note_healthy health.state (state_of m id) in
      let trigger = find_trigger (v.definition s) health alerts in
      if not policy.enabled || not (policy_is_structurally_valid policy)
      then kept s (put_state m id st, [])
      else if not trigger.triggered
      then kept s (put_state m id st, [])
      else react m s st health.state trigger now
