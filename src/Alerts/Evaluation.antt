-- ===== src/Alerts/Evaluation.antt =====
-- `AlertEvaluation` of apps/agent/include/agent/alerts/alert_evaluator.h.
use aegis_desk.Prelude.{Bool, false, Option, none, some, ◌&&◌, not, if◌then◌else◌, is_empty}
use aegis_desk.Prelude.Int.{ℤ, is_negative}
use aegis_desk.Prelude.Text.{Str}
use aegis_desk.Service.Id.{is_valid_service_id}
use aegis_desk.Alerts.Rule.{AlertSeverity, is_valid_alert_rule_id}

pub record AlertEvaluation : Type 0 where
  pub service_id : Str
  pub rule_id : Str
  pub severity : AlertSeverity
  pub rule_enabled : Bool
  pub condition_met : Bool
  pub firing : Bool
  pub evaluated_at_unix_ms : ℤ
  pub condition_started_at_unix_ms : Option ℤ
  pub message : Str

abbrev pub starts_negative : Option ℤ → Bool
starts_negative none = false
starts_negative (some t) = is_negative t

unfoldable pub evaluation_is_structurally_valid : AlertEvaluation → Bool
evaluation_is_structurally_valid e =
    if not (is_valid_service_id e.service_id)
    then false
    else if not (is_valid_alert_rule_id e.rule_id)
    then false
    else if is_negative e.evaluated_at_unix_ms
    then false
    else if starts_negative e.condition_started_at_unix_ms
    then false
    else if e.firing && not e.condition_met
    then false
    else not (is_empty e.message)
