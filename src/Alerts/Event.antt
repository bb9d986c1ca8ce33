-- ===== src/Alerts/Event.antt =====
-- apps/agent/include/agent/alerts/alert_event.h.
use aegis_desk.Prelude.{
  ℕ, Bool, false, Option, none, some, ◌||◌, not, if◌then◌else◌, ltb, ◌==◌, is_empty, length,
}
use aegis_desk.Prelude.Int.{ℤ, is_negative, ltb_ℤ, leb_ℤ}
use aegis_desk.Prelude.Text.{Str, text}
use aegis_desk.Service.Id.{is_letter_or_digit, all_chars, is_valid_service_id}
use aegis_desk.Alerts.Rule.{AlertSeverity, is_valid_alert_rule_id, is_some}

pub data AlertEventState : Type 0 where
  active resolved : AlertEventState

unfoldable pub alert_event_state_to_string : AlertEventState → Str
alert_event_state_to_string active = text "active"
alert_event_state_to_string resolved = text "resolved"

unfoldable pub is_valid_alert_event_id : Str → Bool
unfolding all_chars
is_valid_alert_event_id id =
    if is_empty id || ltb 160 (length id)
    then false
    else all_chars
        (λ ch. is_letter_or_digit ch || ch == b'_' || ch == b'-' || ch == b'.' || ch == b':') id

pub record AlertEvent : Type 0 where
  pub id : Str
  pub service_id : Str
  pub rule_id : Str
  pub severity : AlertSeverity
  pub state : AlertEventState
  pub message : Str
  pub first_triggered_at_unix_ms : ℤ
  pub last_triggered_at_unix_ms : ℤ
  pub resolved_at_unix_ms : Option ℤ
  pub trigger_count : ℕ
  pub acknowledged : Bool

-- The two returns at the end of `IsStructurallyValid`.
state_is_consistent : AlertEventState → Option ℤ → ℤ → Bool
state_is_consistent active at last = not (is_some at)
state_is_consistent resolved none last = false
state_is_consistent resolved (some at) last = leb_ℤ last at

unfoldable pub alert_event_is_structurally_valid : AlertEvent → Bool
unfolding state_is_consistent
alert_event_is_structurally_valid e =
    if not (is_valid_alert_event_id e.id)
    then false
    else if not (is_valid_service_id e.service_id)
    then false
    else if not (is_valid_alert_rule_id e.rule_id)
    then false
    else if is_empty e.message
    then false
    else if is_negative e.first_triggered_at_unix_ms || is_negative e.last_triggered_at_unix_ms
    then false
    else if ltb_ℤ e.last_triggered_at_unix_ms e.first_triggered_at_unix_ms
    then false
    else if e.trigger_count == 0
    then false
    else state_is_consistent e.state e.resolved_at_unix_ms e.last_triggered_at_unix_ms
