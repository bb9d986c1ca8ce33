-- ===== src/Alerts/Manager.antt =====
-- apps/agent/src/alerts/alert_manager.cpp. A method returns the new manager and its result; the
-- mutex makes each call one step.
pub mod Lifecycle
pub mod Valid
pub mod Acknowledge
use aegis_desk.Prelude.{
  ℕ, suc, ◌+◌, Bool, true, false, Option, none, some, List, [], ◌∷◌, ◌++◌, ◌&&◌, not, if◌then◌else◌,
  ltb, ◌==◌, keep,
}
use aegis_desk.Prelude.Int.{ℤ, ltb_ℤ, eqb_ℤ}
use aegis_desk.Prelude.Text.{Str, str_eq, str_lt}
use aegis_desk.Prelude.Dict.{Dict, find, insert, erase, erase_if}
use aegis_desk.Prelude.Deque.{push_bounded, recent}
use aegis_desk.Alerts.Rule.{AlertSeverity, info, warning, critical}
use aegis_desk.Alerts.Event.{
  AlertEvent, AlertEventState, active, resolved, is_valid_alert_event_id,
  alert_event_is_structurally_valid,
}
use aegis_desk.Alerts.Evaluation.{AlertEvaluation, evaluation_is_structurally_valid}
use aegis_desk.Alerts.Key.{make_rule_key}

pub record AlertManager : Type 0 where
  pub recent_resolved_capacity : ℕ
  pub active_alerts : Dict AlertEvent
  pub recent_resolved_alerts : List AlertEvent

pub record AlertManagerUpdate : Type 0 where
  pub created : List AlertEvent
  pub updated : List AlertEvent
  pub resolved_events : List AlertEvent
  pub ignored_invalid_evaluations : ℕ

abbrev pub uint32_max : ℕ
uint32_max = 4294967295

abbrev pub no_update : AlertManagerUpdate
no_update = record {
  created = [];
  updated = [];
  resolved_events = [];
  ignored_invalid_evaluations = 0;
}

-- The constructor: a capacity of 0 becomes 1.
unfoldable pub new_manager : ℕ → AlertManager
new_manager capacity = record {
  recent_resolved_capacity = if capacity == 0 then 1 else capacity;
  active_alerts = [];
  recent_resolved_alerts = [];
}

abbrev ignored : AlertManagerUpdate → AlertManagerUpdate
ignored u = record u { ignored_invalid_evaluations = u.ignored_invalid_evaluations + 1 }

-- `MakeAlertEventId` is the function of `MakeRuleKey`.
abbrev pub make_alert_event_id : Str → Str → Str
make_alert_event_id = make_rule_key

unfoldable pub new_event : AlertEvaluation → AlertEvent
new_event e = record {
  id = make_alert_event_id e.service_id e.rule_id;
  service_id = e.service_id;
  rule_id = e.rule_id;
  severity = e.severity;
  state = active;
  message = e.message;
  first_triggered_at_unix_ms = e.evaluated_at_unix_ms;
  last_triggered_at_unix_ms = e.evaluated_at_unix_ms;
  resolved_at_unix_ms = none;
  trigger_count = 1;
  acknowledged = false;
}

-- The event that fires again.
unfoldable pub refreshed : AlertEvent → AlertEvaluation → AlertEvent
refreshed a e = record a {
  severity = e.severity;
  message = e.message;
  last_triggered_at_unix_ms = e.evaluated_at_unix_ms;
  trigger_count = if ltb a.trigger_count uint32_max then a.trigger_count + 1 else a.trigger_count;
  state = active;
  resolved_at_unix_ms = none;
}

unfoldable pub resolved_event : AlertEvent → AlertEvaluation → AlertEvent
resolved_event a e = record a {
  state = resolved;
  message = e.message;
  resolved_at_unix_ms = some e.evaluated_at_unix_ms;
}

create : AlertManager → AlertManagerUpdate → AlertEvaluation → AlertManager × AlertManagerUpdate
create m u e =
    let event = new_event e in
    if not (alert_event_is_structurally_valid event) then (m, ignored u) else (
      record m { active_alerts = insert event.id event m.active_alerts },
      record u { created = u.created ++ (event ∷ []) },
    )

refresh :
    AlertManager
    → AlertManagerUpdate
    → AlertEvaluation
    → Str
    → AlertEvent
    → AlertManager × AlertManagerUpdate
refresh m u e id found =
    let event = refreshed found e in
    if not (alert_event_is_structurally_valid event)
    then (record m { active_alerts = erase id m.active_alerts }, ignored u)
    else (
      record m { active_alerts = insert id event m.active_alerts },
      record u { updated = u.updated ++ (event ∷ []) },
    )

-- `PushResolvedLocked` included.
resolve :
    AlertManager
    → AlertManagerUpdate
    → AlertEvaluation
    → Str
    → AlertEvent
    → AlertManager × AlertManagerUpdate
resolve m u e id found =
    let event = resolved_event found e in
    if not (alert_event_is_structurally_valid event)
    then (record m { active_alerts = erase id m.active_alerts }, ignored u)
    else (
      record m {
        active_alerts = erase id m.active_alerts;
        recent_resolved_alerts =
            push_bounded m.recent_resolved_capacity event m.recent_resolved_alerts;
      },
      record u { resolved_events = u.resolved_events ++ (event ∷ []) },
    )

by_activity :
    AlertManager
    → AlertManagerUpdate
    → AlertEvaluation
    → Str
    → Bool
    → Option AlertEvent
    → AlertManager × AlertManagerUpdate
unfolding create refresh resolve
by_activity m u e id true none = create m u e
by_activity m u e id true (some found) = refresh m u e id found
by_activity m u e id false none = (m, u)
by_activity m u e id false (some found) = resolve m u e id found

-- One round of the loop of `ApplyEvaluations`.
unfoldable pub apply_evaluation :
    AlertManager → AlertManagerUpdate → AlertEvaluation → AlertManager × AlertManagerUpdate
unfolding by_activity
apply_evaluation m u e =
    let id = make_alert_event_id e.service_id e.rule_id in
    if not (evaluation_is_structurally_valid e)
    then (m, ignored u)
    else if not (is_valid_alert_event_id id)
    then (m, ignored u)
    else by_activity m u e id e.firing (find id m.active_alerts)

unfoldable pub apply_from :
    AlertManager → AlertManagerUpdate → List AlertEvaluation → AlertManager × AlertManagerUpdate
apply_from m u [] = (m, u)
apply_from m u (e ∷ es) = let (m', u') = apply_evaluation m u e in apply_from m' u' es

unfoldable pub apply_evaluations :
    AlertManager → List AlertEvaluation → AlertManager × AlertManagerUpdate
unfolding apply_from
apply_evaluations m es = apply_from m no_update es

unfoldable pub get_recent_resolved_alerts : AlertManager → ℕ → List AlertEvent
get_recent_resolved_alerts m limit = recent m.recent_resolved_alerts limit

-- The first event of a list with an identifier.
unfoldable pub find_event : Str → List AlertEvent → Option AlertEvent
find_event id [] = none
find_event id (a ∷ as_) = let rest = find_event id as_ in if str_eq a.id id then some a else rest

unfoldable pub get_alert : AlertManager → Str → Option AlertEvent
unfolding find_event
get_alert m id = elim (find id m.active_alerts) [
  | some a ↦ some a
  | none ↦ find_event id m.recent_resolved_alerts
]

abbrev pub is_present {ℓ} : {A : Type ℓ} → Option A → Bool
is_present none = false
is_present (some a) = true

unfoldable pub has_active_alert : AlertManager → Str → Str → Bool
has_active_alert m service_id rule_id =
    is_present (find (make_alert_event_id service_id rule_id) m.active_alerts)

abbrev pub acknowledged : AlertEvent → AlertEvent
acknowledged a = record a { acknowledged = true }

-- The loop that acknowledges the first resolved event with an identifier.
unfoldable pub acknowledge_first : Str → List AlertEvent → List AlertEvent
acknowledge_first id [] = []
acknowledge_first id (a ∷ as_) =
    let rest = acknowledge_first id as_ in if str_eq a.id id then acknowledged a ∷ as_ else a ∷ rest

unfoldable pub acknowledge_and_get : AlertManager → Str → AlertManager × Option AlertEvent
unfolding find_event acknowledge_first
acknowledge_and_get m id = elim (find id m.active_alerts) [
  | some a ↦ (
    record m { active_alerts = insert id (acknowledged a) m.active_alerts },
    some (acknowledged a),
  )
  | none ↦ elim (find_event id m.recent_resolved_alerts) [
    | some a ↦ (
      record m { recent_resolved_alerts = acknowledge_first id m.recent_resolved_alerts },
      some (acknowledged a),
    )
    | none ↦ (m, none)
  ]
]

unfoldable pub acknowledge : AlertManager → Str → AlertManager × Bool
unfolding acknowledge_and_get
acknowledge m id = let (m', a) = acknowledge_and_get m id in (m', is_present a)

unfoldable pub forget_service : AlertManager → Str → AlertManager
forget_service m service_id = record m {
  active_alerts = erase_if (λ _ a. str_eq a.service_id service_id) m.active_alerts;
  recent_resolved_alerts =
      keep (λ a. not (str_eq a.service_id service_id)) m.recent_resolved_alerts;
}

unfoldable pub clear : AlertManager → AlertManager
clear m = record m { active_alerts = []; recent_resolved_alerts = [] }
