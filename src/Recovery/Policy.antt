-- ===== src/Recovery/Policy.antt =====
-- apps/agent/include/agent/recovery/recovery_policy.h.
use aegis_desk.Prelude.{
  ℕ, Bool, true, false, Option, ◌&&◌, ◌||◌, not, if◌then◌else◌, ltb, ◌==◌, is_empty,
}
use aegis_desk.Prelude.Int.{ℤ, is_negative}
use aegis_desk.Prelude.Text.{Str, text}
use aegis_desk.Service.Id.{is_valid_service_id}

pub data RecoveryEventType : Type 0 where
  restart_started restart_succeeded restart_failed restart_suppressed : RecoveryEventType

unfoldable pub recovery_event_type_to_string : RecoveryEventType → Str
recovery_event_type_to_string restart_started = text "restart_started"
recovery_event_type_to_string restart_succeeded = text "restart_succeeded"
recovery_event_type_to_string restart_failed = text "restart_failed"
recovery_event_type_to_string restart_suppressed = text "restart_suppressed"

pub record RecoveryPolicy : Type 0 where
  pub enabled : Bool
  pub restart_on_unhealthy : Bool
  pub restart_on_critical_alert : Bool
  pub max_restarts : ℕ
  pub window_seconds : ℕ
  pub backoff_seconds : ℕ
  pub startup_grace_seconds : ℕ

unfoldable pub policy_is_structurally_valid : RecoveryPolicy → Bool
policy_is_structurally_valid p =
    if not p.enabled
    then true
    else if not p.restart_on_unhealthy && not p.restart_on_critical_alert
    then false
    else if p.max_restarts == 0 || ltb 100 p.max_restarts
    then false
    else if p.window_seconds == 0 || ltb 86400 p.window_seconds
    then false
    else if ltb 3600 p.backoff_seconds
    then false
    else if ltb 3600 p.startup_grace_seconds
    then false
    else true

pub record RecoveryEvent : Type 0 where
  pub service_id : Str
  pub type : RecoveryEventType
  pub occurred_at_unix_ms : ℤ
  pub reason : Str
  pub alert_event_id : Option Str
  pub restart_count_in_window : ℕ

unfoldable pub recovery_event_is_structurally_valid : RecoveryEvent → Bool
recovery_event_is_structurally_valid e =
    if not (is_valid_service_id e.service_id)
    then false
    else if is_negative e.occurred_at_unix_ms
    then false
    else not (is_empty e.reason)
