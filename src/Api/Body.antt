-- ===== src/Api/Body.antt =====
-- The JSON texts that apps/agent/src/api/agent_api.cpp appends to a body.
use aegis_desk.Prelude.{ℕ, Bool, true, false, Option, none, some, List, [], ◌∷◌, ◌++◌}
use aegis_desk.Prelude.Int.{ℤ}
use aegis_desk.Prelude.Text.{Str, text}
use aegis_desk.Prelude.Decimal.{decimal, decimal_ℤ}
use aegis_desk.Double.{Doubles}
use aegis_desk.Service.State.{service_state_to_string, desired_state_to_string}
use aegis_desk.Service.Exit.{exit_kind_to_string}
use aegis_desk.Service.Status.{ServiceStatus, ServiceSummary}
use aegis_desk.Metrics.Value.{ServiceMetrics}
use aegis_desk.Health.Status.{HealthStatus, health_state_to_string}
use aegis_desk.Alerts.Rule.{alert_severity_to_string}
use aegis_desk.Alerts.Event.{AlertEvent, alert_event_state_to_string}
use aegis_desk.Recovery.Policy.{RecoveryEvent, recovery_event_type_to_string}
use aegis_desk.Api.Json.{json_escape}

abbrev pub boolean : Bool → Str
boolean true = text "true"
boolean false = text "false"

optional_ℤ : Option ℤ → Str
optional_ℤ none = text "null"
optional_ℤ (some n) = decimal_ℤ n

append_optional_double : {D : Type 0} → ⦃d : Doubles D⦄ → Option D → Str
append_optional_double none = text "null"
append_optional_double ⦃d⦄ (some value) = d.format value

append_optional_uint64 : Option ℕ → Str
append_optional_uint64 none = text "null"
append_optional_uint64 (some value) = decimal value

append_optional_string : Option Str → Str
append_optional_string none = text "null"
append_optional_string (some value) = text "\"" ++ json_escape value ++ text "\""

unfoldable pub append_status_fields : ServiceStatus → Str
unfolding optional_ℤ
append_status_fields s =
    text "\"state\":\""
    ++ service_state_to_string s.state
    ++ text "\",\"desired_state\":\""
    ++ desired_state_to_string s.desired_state
    ++ text "\",\"pid\":"
    ++ decimal_ℤ s.pid
    ++ text ",\"uptime_seconds\":"
    ++ decimal_ℤ s.uptime
    ++ text ",\"last_exit_code\":"
    ++ optional_ℤ s.exit_code
    ++ text ",\"process_group_id\":"
    ++ decimal_ℤ s.process_group_id
    ++ text ",\"last_exit_kind\":\""
    ++ exit_kind_to_string s.last_exit_kind
    ++ text "\",\"last_exit_signal\":"
    ++ optional_ℤ s.last_exit_signal
    ++ text ",\"last_error\":\""
    ++ json_escape s.last_error
    ++ text "\",\"last_transition_at_unix_ms\":"
    ++ decimal_ℤ s.last_transition_at_unix_ms

unfoldable pub append_health_status_json : HealthStatus → Str
append_health_status_json s =
    text "{\"service_id\":\""
    ++ json_escape s.service_id
    ++ text "\",\"state\":\""
    ++ health_state_to_string s.state
    ++ text "\",\"reason\":\""
    ++ json_escape s.reason
    ++ text "\",\"consecutive_failures\":"
    ++ decimal s.consecutive_failures
    ++ text ",\"checked_at_unix_ms\":"
    ++ decimal_ℤ s.checked_at_unix_ms
    ++ text "}"

unfoldable pub append_alert_event_json : AlertEvent → Str
unfolding optional_ℤ
append_alert_event_json e =
    text "{\"id\":\""
    ++ json_escape e.id
    ++ text "\",\"service_id\":\""
    ++ json_escape e.service_id
    ++ text "\",\"rule_id\":\""
    ++ json_escape e.rule_id
    ++ text "\",\"severity\":\""
    ++ alert_severity_to_string e.severity
    ++ text "\",\"state\":\""
    ++ alert_event_state_to_string e.state
    ++ text "\",\"message\":\""
    ++ json_escape e.message
    ++ text "\",\"first_triggered_at_unix_ms\":"
    ++ decimal_ℤ e.first_triggered_at_unix_ms
    ++ text ",\"last_triggered_at_unix_ms\":"
    ++ decimal_ℤ e.last_triggered_at_unix_ms
    ++ text ",\"resolved_at_unix_ms\":"
    ++ optional_ℤ e.resolved_at_unix_ms
    ++ text ",\"trigger_count\":"
    ++ decimal e.trigger_count
    ++ text ",\"acknowledged\":"
    ++ boolean e.acknowledged
    ++ text "}"

unfoldable pub append_recovery_event_json : RecoveryEvent → Str
unfolding append_optional_string
append_recovery_event_json e =
    text "{\"service_id\":\""
    ++ json_escape e.service_id
    ++ text "\",\"type\":\""
    ++ recovery_event_type_to_string e.type
    ++ text "\",\"occurred_at_unix_ms\":"
    ++ decimal_ℤ e.occurred_at_unix_ms
    ++ text ",\"reason\":\""
    ++ json_escape e.reason
    ++ text "\",\"alert_event_id\":"
    ++ append_optional_string e.alert_event_id
    ++ text ",\"restart_count_in_window\":"
    ++ decimal e.restart_count_in_window
    ++ text "}"

-- The loops that put a comma before each item but the first.
unfoldable pub join_commas : List Str → Str
join_commas [] = []
join_commas (item ∷ items) = item ++ after_commas items
  where
    after_commas : List Str → Str
    after_commas [] = []
    after_commas (item ∷ items) = text "," ++ item ++ after_commas items

alert_texts : List AlertEvent → List Str
alert_texts [] = []
alert_texts (e ∷ alerts) = append_alert_event_json e ∷ alert_texts alerts

recovery_texts : List RecoveryEvent → List Str
recovery_texts [] = []
recovery_texts (e ∷ events) = append_recovery_event_json e ∷ recovery_texts events

unfoldable pub append_alert_array_json : List AlertEvent → Str
unfolding alert_texts join_commas
append_alert_array_json alerts = text "[" ++ join_commas (alert_texts alerts) ++ text "]"

unfoldable pub append_recovery_event_array_json : List RecoveryEvent → Str
unfolding recovery_texts join_commas
append_recovery_event_array_json events =
    text "[" ++ join_commas (recovery_texts events) ++ text "]"

-- The fields of a sample from `available` on, with the closing brace.
unfoldable pub metrics_fields : {D : Type 0} → ⦃d : Doubles D⦄ → ServiceMetrics D → Str
unfolding append_optional_double append_optional_uint64
metrics_fields m =
    text "\"available\":"
    ++ boolean m.available
    ++ text ",\"pid\":"
    ++ decimal_ℤ m.pid
    ++ text ",\"collected_at_unix_ms\":"
    ++ decimal_ℤ m.collected_at_unix_ms
    ++ text ",\"cpu_percent\":"
    ++ append_optional_double m.cpu_percent
    ++ text ",\"rss_bytes\":"
    ++ append_optional_uint64 m.rss_bytes
    ++ text ",\"thread_count\":"
    ++ append_optional_uint64 m.thread_count
    ++ text ",\"fd_count\":"
    ++ append_optional_uint64 m.fd_count
    ++ text "}"

-- One service of the list.
unfoldable pub summary_json : ServiceSummary → Str
unfolding append_status_fields
summary_json s =
    text "{\"id\":\""
    ++ json_escape s.id
    ++ text "\",\"display_name\":\""
    ++ json_escape s.display_name
    ++ text "\",\"auto_start\":"
    ++ boolean s.auto_start
    ++ text ","
    ++ append_status_fields s.status
    ++ text "}"
