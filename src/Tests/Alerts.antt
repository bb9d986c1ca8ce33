-- ===== src/Tests/Alerts.antt =====
-- One rule over a busy and an idle time, and the alert that it raises.
use aegis_desk.Prelude.{ℕ, ◌≡◌, refl, true, some, List, [], ◌∷◌}
use mathlib.Core.Option
use aegis_desk.Prelude.Int.{pos, ◌-ℤ◌}
use aegis_desk.Prelude.Text.{Str, text, str_eq}
use aegis_desk.Prelude.Dict.{find}
use aegis_desk.Service.Id.{is_valid_service_id}
use aegis_desk.Health.Status.{healthy}
use aegis_desk.Alerts.Rule.{is_valid_alert_rule_id, critical}
use aegis_desk.Alerts.Evaluation.{AlertEvaluation, evaluation_is_structurally_valid}
use aegis_desk.Alerts.Key.{make_rule_key}
use aegis_desk.Alerts.Evaluator.{evaluate_rule}
use aegis_desk.Alerts.Evaluator.Condition.{evaluate_condition}
use aegis_desk.Alerts.Evaluator.Firing.{Sample, holds, evaluator_after, firing-evaluator_after}
use aegis_desk.Alerts.Manager
use aegis_desk.Alerts.Manager.{
  AlertManager, new_manager, new_event, apply_evaluations, acknowledge_and_get, get_alert,
}
use aegis_desk.Alerts.Manager.Valid
use aegis_desk.Alerts.Manager.Valid.{
  new_manager-IsValid, apply_evaluations-IsValid, find-apply_evaluations,
}
use aegis_desk.Alerts.Manager.Acknowledge.{get_alert-acknowledge_and_get}
use aegis_desk.Tests.Data
use aegis_desk.Tests.Data.{doubles_ℕ}

web_is_valid : is_valid_service_id Data.web ≡ true
unfolding is_valid_service_id text
web_is_valid = refl

busy_is_valid : is_valid_alert_rule_id (text "busy") ≡ true
unfolding is_valid_alert_rule_id text
busy_is_valid = refl

abbrev sample : ℕ → ℕ → Sample ℕ
sample cpu t = record {
  rule = Data.busy;
  metrics = some (Data.metrics_at cpu);
  health = Data.health_of healthy;
  at = pos t;
}

abbrev key : Str
key = make_rule_key Data.web (text "busy")

-- Busy from 5 s on, idle before.
abbrev busy_since_5 : List (Sample ℕ)
busy_since_5 = sample 95 10000 ∷ sample 95 5000 ∷ sample 10 0 ∷ []

firing-evaluator_after_example :
    (evaluate_rule
      (evaluator_after busy_since_5)
      Data.busy
      (some (Data.metrics_at 95))
      (Data.health_of healthy)
      (pos 15000)).1.firing
    ≡ true
unfolding holds str_eq make_rule_key text aegis_desk.Alerts.Rule.rule_is_structurally_valid
    is_valid_alert_rule_id is_valid_service_id evaluate_condition ◌-ℤ◌
firing-evaluator_after_example = firing-evaluator_after (sample 95 15000) busy_since_5

abbrev evaluation : AlertEvaluation
evaluation = record {
  service_id = Data.web;
  rule_id = text "busy";
  severity = critical;
  rule_enabled = true;
  condition_met = true;
  firing = true;
  evaluated_at_unix_ms = pos 15000;
  condition_started_at_unix_ms = some (pos 5000);
  message = text "cpu_percent > 80 for 10s";
}

abbrev manager : AlertManager
manager = (apply_evaluations (new_manager 10) (evaluation ∷ [])).0

manager-IsValid : Valid.IsValid manager
manager-IsValid =
    apply_evaluations-IsValid (new_manager 10) (evaluation ∷ []) (new_manager-IsValid 10)

apply_evaluations-IsValid_example : Valid.IsValid manager
apply_evaluations-IsValid_example =
    apply_evaluations-IsValid (new_manager 10) (evaluation ∷ []) (new_manager-IsValid 10)

find-apply_evaluations_example : find key manager.active_alerts ≡ some (new_event evaluation)
unfolding find new_manager evaluation_is_structurally_valid is_valid_service_id text
    is_valid_alert_rule_id str_eq make_rule_key
find-apply_evaluations_example =
    find-apply_evaluations (new_manager 10) (evaluation ∷ []) key (new_manager-IsValid 10)

get_alert-acknowledge_and_get_example :
    ((acknowledge_and_get manager key).1 ≡ Option.map Manager.acknowledged (get_alert manager key))
    × (get_alert (acknowledge_and_get manager key).0 key ≡ (acknowledge_and_get manager key).1)
get_alert-acknowledge_and_get_example = get_alert-acknowledge_and_get manager key
