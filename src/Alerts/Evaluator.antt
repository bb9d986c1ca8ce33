-- ===== src/Alerts/Evaluator.antt =====
-- apps/agent/src/alerts/alert_evaluator.cpp. A call returns the new rule states and its result.
pub mod Condition
pub mod Firing
pub mod Validity
pub mod Forget
use Condition.{ConditionResult, format_evaluation_message, evaluate_condition}
use aegis_desk.Prelude.{
  ℕ, ◌*◌, Bool, true, false, Option, none, some, List, [], ◌∷◌, ◌++◌, not, if◌then◌else◌,
}
use aegis_desk.Prelude.Int.{ℤ, pos, ◌-ℤ◌, is_negative, ltb_ℤ, leb_ℤ}
use aegis_desk.Prelude.Text.{Str, text, starts_with}
use aegis_desk.Prelude.Dict.{Dict, find, insert, erase, erase_if}
use aegis_desk.Double.{Doubles}
use aegis_desk.Service.Definition.{ServiceDefinition}
use aegis_desk.Metrics.Value.{ServiceMetrics}
use aegis_desk.Health.Status.{HealthStatus}
use aegis_desk.Alerts.Rule.{AlertRule, rule_is_structurally_valid}
use aegis_desk.Alerts.Evaluation.{AlertEvaluation}
use aegis_desk.Alerts.Key.{make_rule_key}

pub record RuleRuntimeState : Type 0 where
  pub condition_started_at_unix_ms : Option ℤ

pub record AlertEvaluator : Type 0 where
  pub rule_states : Dict RuleRuntimeState

-- `static_cast<UnixTimeMilliseconds>(rule.duration_seconds) * kMillisecondsPerSecond`.
abbrev pub required_duration_ms : ℕ → ℤ
required_duration_ms seconds = pos (seconds * 1000)

-- `!started.has_value() || *started > now` resets the start to now.
abbrev pub start_or_now : Option ℤ → ℤ → ℤ
start_or_now none now = now
start_or_now (some started) now = if ltb_ℤ now started then now else started

-- `rule_states_[key]` creates a state without a start.
abbrev pub started_of : Option RuleRuntimeState → Option ℤ
started_of none = none
started_of (some r) = r.condition_started_at_unix_ms

unfoldable pub forget_service : AlertEvaluator → Str → AlertEvaluator
forget_service e service_id = record {
  rule_states = erase_if (λ key _. starts_with key (service_id ++ text ":")) e.rule_states;
}

unfoldable pub clear : AlertEvaluator → AlertEvaluator
clear e = record { rule_states = [] }

module _ {D : Type 0} where
  blank : AlertRule D → ℤ → AlertEvaluation
  blank r now = record {
    service_id = r.service_id;
    rule_id = r.id;
    severity = r.severity;
    rule_enabled = r.enabled;
    condition_met = false;
    firing = false;
    evaluated_at_unix_ms = now;
    condition_started_at_unix_ms = none;
    message = [];
  }

  -- The early returns, which forget the rule's state.
  give_up : AlertEvaluator → AlertRule D → ℤ → Str → AlertEvaluator × AlertEvaluation
  unfolding blank
  give_up e r now message = (
    record { rule_states = erase (make_rule_key r.service_id r.id) e.rule_states },
    record (blank r now) { message = message },
  )

  -- From `rule_states_[rule_key]` on: the condition holds, since `started`.
  measure :
      AlertEvaluator → AlertRule D → ConditionResult → ℤ → ℤ → AlertEvaluator × AlertEvaluation
  unfolding blank
  measure e r c now started =
      let firing = leb_ℤ (required_duration_ms r.duration_seconds) (now -ℤ started) in
      (
        record {
          rule_states =
              insert (make_rule_key r.service_id r.id)
                (record { condition_started_at_unix_ms = some started }) e.rule_states;
        },
        record (blank r now) {
          condition_met = true;
          condition_started_at_unix_ms = some started;
          firing = firing;
          message = format_evaluation_message c.expression c.observed_value true firing;
        },
      )

  -- The body of `EvaluateRule` behind `EvaluateCondition`.
  judge : AlertEvaluator → AlertRule D → ConditionResult → ℤ → AlertEvaluator × AlertEvaluation
  unfolding give_up measure
  judge e r c now =
      if not c.available
      then give_up e r now c.message
      else if not c.condition_met
      then give_up e r now (format_evaluation_message c.expression c.observed_value false false)
      else measure e r c now
          (start_or_now (started_of (find (make_rule_key r.service_id r.id) e.rule_states)) now)

module _ {D : Type 0} ⦃d : Doubles D⦄ where
  unfoldable pub evaluate_rule :
      AlertEvaluator
      → AlertRule D
      → Option (ServiceMetrics D)
      → HealthStatus
      → ℤ
      → AlertEvaluator × AlertEvaluation
  unfolding give_up judge
  evaluate_rule e r metrics health now =
      if not r.enabled
      then give_up e r now (text "alert rule is disabled")
      else if not (rule_is_structurally_valid r)
      then give_up e r now (text "alert rule is structurally invalid")
      else if is_negative now
      then give_up e r now (text "evaluation time is invalid")
      else judge e r (evaluate_condition r metrics health) now

  -- The loop of `Evaluate` over the rules of a definition.
  unfoldable pub evaluate_rules :
      AlertEvaluator
      → List (AlertRule D)
      → Option (ServiceMetrics D)
      → HealthStatus
      → ℤ
      → AlertEvaluator × List AlertEvaluation
  evaluate_rules e [] metrics health now = (e, [])
  evaluate_rules e (r ∷ rules) metrics health now =
      let (e', evaluation) = evaluate_rule e r metrics health now in
      let (e'', evaluations) = evaluate_rules e' rules metrics health now in
      (e'', evaluation ∷ evaluations)

  unfoldable pub evaluate :
      AlertEvaluator
      → ServiceDefinition D
      → Option (ServiceMetrics D)
      → HealthStatus
      → ℤ
      → AlertEvaluator × List AlertEvaluation
  unfolding evaluate_rules
  evaluate e s metrics health now = evaluate_rules e s.alert_rules metrics health now
