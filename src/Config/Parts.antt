-- ===== src/Config/Parts.antt =====
-- The parts of a service: ParseHealthCheckDefinition, ParseAlertRule, ParseAlertRules and
-- ParseRecoveryPolicy of apps/agent/src/service/service_registry.cpp.
use aegis_desk.Prelude.{
  ◌%◌, ◌^◌, true, false, Option, none, some, List, [], ◌∷◌, ◌++◌, not, leb, if◌then◌else◌,
}
use aegis_desk.Prelude.Text.{Str, text}
use aegis_desk.Prelude.Result.{Result, ok, ◌>>=◌, ◌>>◌, guard, require}
use aegis_desk.Double.{Doubles}
use aegis_desk.Health.Status.{
  HealthCheckDefinition, HealthState, process, parse_health_check_type, parse_health_state,
  health_check_is_structurally_valid,
}
use aegis_desk.Alerts.Rule.{
  AlertRule, parse_alert_metric, parse_alert_operator, parse_alert_severity, is_health_state,
  rule_is_structurally_valid,
}
use aegis_desk.Recovery.Policy.{RecoveryPolicy, policy_is_structurally_valid}
use aegis_desk.Service.Definition.{contains}
use aegis_desk.Config.{PropertyTree}
use aegis_desk.Config.Fields.{value_or}

-- `HealthCheckDefinition definition;` and `RecoveryPolicy policy;`.
abbrev pub default_health_check : HealthCheckDefinition
default_health_check = record {
  enabled = true;
  type = process;
  interval_seconds = 5;
  timeout_milliseconds = 1000;
  failure_threshold = 3;
  endpoint = [];
  host = [];
  port = 0;
  command_line = [];
}

abbrev pub default_policy : RecoveryPolicy
default_policy = record {
  enabled = false;
  restart_on_unhealthy = false;
  restart_on_critical_alert = false;
  max_restarts = 3;
  window_seconds = 300;
  backoff_seconds = 10;
  startup_grace_seconds = 10;
}

module _ {D T : Type 0} (t : PropertyTree D T) where
  unfoldable pub health_check_of : Str → Option T → Result HealthCheckDefinition
  health_check_of service_id none = ok default_health_check
  health_check_of service_id (some node) = do
    let type_text = value_or (text "process") (t.get_string node (text "type"))
    type ←
        require (parse_health_check_type type_text)
          (text "invalid health_check.type for service " ++ service_id ++ text ": " ++ type_text)
    let port = value_or 0 (t.get_unsigned node (text "port"))
    guard (leb port 65535) (text "health_check.port out of range for service " ++ service_id)
    let definition : HealthCheckDefinition = record {
      enabled = value_or true (t.get_bool node (text "enabled"));
      type = type;
      interval_seconds = value_or 5 (t.get_unsigned node (text "interval_seconds"));
      timeout_milliseconds = value_or 1000 (t.get_unsigned node (text "timeout_milliseconds"));
      failure_threshold = value_or 3 (t.get_unsigned node (text "failure_threshold"));
      endpoint = value_or [] (t.get_string node (text "endpoint"));
      host = value_or [] (t.get_string node (text "host"));
      port = port % 2 ^ 16;
      command_line = value_or [] (t.get_string node (text "command"));
    }
    guard (health_check_is_structurally_valid definition)
        (text "invalid health_check definition for service " ++ service_id)
    ok definition

  unfoldable pub parse_health_check_definition : T → Str → Result HealthCheckDefinition
  unfolding health_check_of
  parse_health_check_definition service_node service_id =
      health_check_of service_id (t.get_child service_node (text "health_check"))

  unfoldable pub policy_of : Str → Option T → Result RecoveryPolicy
  policy_of service_id none = ok default_policy
  policy_of service_id (some node) = do
    let policy : RecoveryPolicy = record {
      enabled = value_or false (t.get_bool node (text "enabled"));
      restart_on_unhealthy = value_or false (t.get_bool node (text "restart_on_unhealthy"));
      restart_on_critical_alert =
          value_or false (t.get_bool node (text "restart_on_critical_alert"));
      max_restarts = value_or 3 (t.get_unsigned node (text "max_restarts"));
      window_seconds = value_or 300 (t.get_unsigned node (text "window_seconds"));
      backoff_seconds = value_or 10 (t.get_unsigned node (text "backoff_seconds"));
      startup_grace_seconds = value_or 10 (t.get_unsigned node (text "startup_grace_seconds"));
    }
    guard (policy_is_structurally_valid policy)
        (text "invalid recovery_policy definition for service " ++ service_id)
    ok policy

  unfoldable pub parse_recovery_policy : T → Str → Result RecoveryPolicy
  unfolding policy_of
  parse_recovery_policy service_node service_id =
      policy_of service_id (t.get_child service_node (text "recovery_policy"))

-- A rule's two thresholds.
pub record Thresholds (D : Type 0) : Type 0 where
  pub numeric : Option D
  pub health_state : Option HealthState

module _ {D T : Type 0} ⦃d : Doubles D⦄ (t : PropertyTree D T) where
  unfoldable pub health_threshold : T → Str → Str → Result (Thresholds D)
  health_threshold node id service_id = do
    threshold ← require (t.get_string node (text "threshold")) (
        text "health_state alert rule "
        ++ id
        ++ text " missing threshold for service "
        ++ service_id)
    state ← require (parse_health_state threshold) (
        text "invalid health_state threshold for service "
        ++ service_id
        ++ text ", rule "
        ++ id
        ++ text ": "
        ++ threshold)
    ok (record { numeric = none; health_state = some state })

  unfoldable pub numeric_threshold : T → Str → Str → Result (Thresholds D)
  numeric_threshold node id service_id = do
    threshold ← require (t.get_double node (text "threshold")) (
        text "numeric alert rule "
        ++ id
        ++ text " missing numeric threshold for service "
        ++ service_id)
    ok (record { numeric = some threshold; health_state = none })

  unfoldable pub parse_alert_rule : T → Str → Result (AlertRule D)
  unfolding health_threshold numeric_threshold
  parse_alert_rule node service_id = do
    id ←
        require (t.get_string node (text "id"))
          (text "alert rule missing id for service " ++ service_id)
    let of_service = text " for service " ++ service_id
    let of_rule = service_id ++ text ", rule " ++ id
    metric_text ←
        require (t.get_string node (text "metric"))
          (text "alert rule " ++ id ++ text " missing metric" ++ of_service)
    metric ←
        require (parse_alert_metric metric_text)
          (text "invalid alert metric for service " ++ of_rule ++ text ": " ++ metric_text)
    operator_text ←
        require (t.get_string node (text "operator"))
          (text "alert rule " ++ id ++ text " missing operator" ++ of_service)
    op ←
        require (parse_alert_operator operator_text)
          (text "invalid alert operator for service " ++ of_rule ++ text ": " ++ operator_text)
    let severity_text = value_or (text "warning") (t.get_string node (text "severity"))
    severity ←
        require (parse_alert_severity severity_text)
          (text "invalid alert severity for service " ++ of_rule ++ text ": " ++ severity_text)
    thresholds ←
        if is_health_state metric
        then health_threshold node id service_id
        else numeric_threshold node id service_id
    let rule : AlertRule D = record {
      id = id;
      service_id = service_id;
      metric = metric;
      op = op;
      numeric_threshold = thresholds.numeric;
      health_state_threshold = thresholds.health_state;
      duration_seconds = value_or 0 (t.get_unsigned node (text "duration_seconds"));
      severity = severity;
      enabled = value_or true (t.get_bool node (text "enabled"));
      description = value_or [] (t.get_string node (text "description"));
    }
    guard (rule_is_structurally_valid rule)
        (text "invalid alert rule definition for service " ++ of_rule)
    ok rule

  -- The loop; `rule_ids` are the identifiers so far, `rules` the rules so far.
  unfoldable pub parse_rules :
      Str → List Str → List (AlertRule D) → List (Str × T) → Result (List (AlertRule D))
  unfolding parse_alert_rule
  parse_rules service_id rule_ids rules [] = ok rules
  parse_rules service_id rule_ids rules ((_, node) ∷ items) = do
    rule ← parse_alert_rule node service_id
    guard (not (contains rule.id rule_ids))
        (text "duplicate alert rule id for service " ++ service_id ++ text ": " ++ rule.id)
    parse_rules service_id (rule.id ∷ rule_ids) (rules ++ (rule ∷ [])) items

  unfoldable pub rules_of : Str → Option T → Result (List (AlertRule D))
  unfolding parse_rules
  rules_of service_id none = ok []
  rules_of service_id (some node) = parse_rules service_id [] [] (t.children node)

  unfoldable pub parse_alert_rules : T → Str → Result (List (AlertRule D))
  unfolding rules_of
  parse_alert_rules service_node service_id =
      rules_of service_id (t.get_child service_node (text "alert_rules"))
