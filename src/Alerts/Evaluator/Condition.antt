-- ===== src/Alerts/Evaluator/Condition.antt =====
-- alert_evaluator.cpp: whether the condition of a rule holds of the current metrics and health.
use aegis_desk.Prelude.{ℕ, Bool, true, false, Option, none, some, [], ◌++◌, not, if◌then◌else◌, ltb}
use aegis_desk.Prelude.Text.{Str, text}
use aegis_desk.Prelude.Decimal.{decimal}
use aegis_desk.Double.{Doubles}
use aegis_desk.Metrics.Value.{ServiceMetrics}
use aegis_desk.Health.Status.{
  HealthState, healthy, unhealthy, unknown, HealthStatus, health_state_to_string,
}
use aegis_desk.Alerts.Rule.{
  AlertMetric, cpu_percent, rss_bytes, thread_count, fd_count, health_state, AlertOperator,
  greater_than, greater_than_or_equal, less_than, less_than_or_equal, equal, not_equal, AlertRule,
  alert_metric_to_string, alert_operator_to_string,
}

pub record ConditionResult : Type 0 where
  pub available : Bool
  pub condition_met : Bool
  pub observed_value : Str
  pub expression : Str
  pub message : Str

abbrev no_result : ConditionResult
no_result = record {
  available = false;
  condition_met = false;
  observed_value = [];
  expression = [];
  message = [];
}

unfoldable pub format_evaluation_message : Str → Str → Bool → Bool → Str
format_evaluation_message expression observed_value condition_met firing =
    expression
    ++ (text ", observed="
        ++ (observed_value
            ++ (if firing
                then text ", firing"
                else if condition_met
                then text ", condition met but duration not reached"
                else text ", condition not met")))

unfoldable pub same_state : HealthState → HealthState → Bool
same_state healthy healthy = true
same_state unhealthy unhealthy = true
same_state unknown unknown = true
same_state _ _ = false

unfoldable pub compare_health_state : HealthState → AlertOperator → HealthState → Bool
unfolding same_state
compare_health_state observed equal threshold = same_state observed threshold
compare_health_state observed not_equal threshold = not (same_state observed threshold)
compare_health_state observed _ threshold = false

unfoldable pub format_rule_expression : {D : Type 0} → AlertRule D → Str → Str
format_rule_expression rule threshold_text =
    alert_metric_to_string rule.metric
    ++ (text " "
        ++ (alert_operator_to_string rule.op
            ++ (text " "
                ++ (threshold_text
                    ++ (if ltb 0 rule.duration_seconds
                        then text " for " ++ (decimal rule.duration_seconds ++ text "s")
                        else [])))))

module _ {D : Type 0} ⦃d : Doubles D⦄ where
  counted : Option ℕ → Option D
  counted none = none
  counted (some n) = some (d.of_ℕ n)

  metric_value : AlertMetric → ServiceMetrics D → Option D
  unfolding counted
  metric_value cpu_percent m = m.cpu_percent
  metric_value rss_bytes m = counted m.rss_bytes
  metric_value thread_count m = counted m.thread_count
  metric_value fd_count m = counted m.fd_count
  metric_value health_state m = none

  unfoldable pub get_numeric_metric_value : AlertRule D → Option (ServiceMetrics D) → Option D
  unfolding metric_value
  get_numeric_metric_value rule none = none
  get_numeric_metric_value rule (some m) =
      if not m.available then none else metric_value rule.metric m

  unfoldable pub compare_double : D → AlertOperator → D → Bool
  compare_double observed greater_than threshold = d.lt threshold observed
  compare_double observed greater_than_or_equal threshold = d.le threshold observed
  compare_double observed less_than threshold = d.lt observed threshold
  compare_double observed less_than_or_equal threshold = d.le observed threshold
  compare_double observed equal threshold = d.eq observed threshold
  compare_double observed not_equal threshold = not (d.eq observed threshold)

  -- `EvaluateNumericCondition` once the threshold is there.
  numeric_result : AlertRule D → D → Option D → ConditionResult
  unfolding compare_double
  numeric_result rule threshold none =
      let expression = format_rule_expression rule (d.format threshold) in
      record no_result {
        expression = expression;
        message = expression ++ text ", metric value is unavailable";
      }
  numeric_result rule threshold (some observed) =
      let expression = format_rule_expression rule (d.format threshold) in
      if not (d.is_finite observed)
      then record no_result {
        expression = expression;
        message = expression ++ text ", metric value is not finite";
      }
      else record no_result {
        available = true;
        expression = expression;
        observed_value = d.format observed;
        condition_met = compare_double observed rule.op threshold;
      }

  unfoldable pub evaluate_numeric_condition : AlertRule D → Option D → ConditionResult
  unfolding numeric_result
  evaluate_numeric_condition rule observed = elim rule.numeric_threshold [
    | none ↦ record no_result { message = text "numeric alert rule is missing threshold" }
    | some threshold ↦ numeric_result rule threshold observed
  ]

  unfoldable pub evaluate_health_condition : AlertRule D → HealthState → ConditionResult
  unfolding compare_health_state
  evaluate_health_condition rule observed = elim rule.health_state_threshold [
    | none ↦ record no_result { message = text "health_state alert rule is missing threshold" }
    | some threshold ↦ record no_result {
      available = true;
      expression = format_rule_expression rule (health_state_to_string threshold);
      observed_value = health_state_to_string observed;
      condition_met = compare_health_state observed rule.op threshold;
    }
  ]

  -- `EvaluateCondition`, by the kind of the metric.
  condition_by_metric :
      AlertMetric → AlertRule D → Option (ServiceMetrics D) → HealthStatus → ConditionResult
  unfolding evaluate_health_condition evaluate_numeric_condition get_numeric_metric_value
  condition_by_metric health_state rule metrics health = evaluate_health_condition rule health.state
  condition_by_metric _ rule metrics health =
      evaluate_numeric_condition rule (get_numeric_metric_value rule metrics)

  unfoldable pub evaluate_condition :
      AlertRule D → Option (ServiceMetrics D) → HealthStatus → ConditionResult
  unfolding condition_by_metric
  evaluate_condition rule metrics health = condition_by_metric rule.metric rule metrics health
