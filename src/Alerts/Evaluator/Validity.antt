-- ===== src/Alerts/Evaluator/Validity.antt =====
-- What the evaluator hands to the alert manager is well formed.
use aegis_desk.Prelude.{
  ◌≡◌, refl, Bool, true, false, Option, none, some, List, [], ◌∷◌, arith, All, ◌⊎◌, inl, inr,
  Option-cases, is_empty, is_empty-append,
}
use aegis_desk.Prelude.Int.{ℤ, is_negative}
use aegis_desk.Prelude.Text.{Str, text}
use aegis_desk.Prelude.Dict.{find, insert, erase, Each, Each-find, Each-insert, Each-erase}
use aegis_desk.Double.{Doubles}
use aegis_desk.Metrics.Value.{ServiceMetrics}
use aegis_desk.Health.Status.{HealthStatus, HealthState}
use aegis_desk.Service.Id.{is_valid_service_id}
use aegis_desk.Alerts.Rule.{AlertRule, is_valid_alert_rule_id}
use aegis_desk.Alerts.Evaluation.{starts_negative, evaluation_is_structurally_valid}
use aegis_desk.Alerts.Key.{make_rule_key}
use aegis_desk.Alerts.Evaluator.Condition.{
  format_evaluation_message, format_rule_expression, evaluate_condition, evaluate_numeric_condition,
  evaluate_health_condition, get_numeric_metric_value,
}
use aegis_desk.Alerts.Evaluator.{
  AlertEvaluator, start_or_now, started_of, evaluate_rule, evaluate_rules,
}

-- No stored start is negative.
abbrev pub HasNaturalStarts : AlertEvaluator → Type 0
HasNaturalStarts e =
    Each (λ _ st. starts_negative st.condition_started_at_unix_ms ≡ false) e.rule_states

message-not_empty :
    (expression observed : Str) (met firing : Bool)
    → is_empty (format_evaluation_message expression observed met firing) ≡ false
unfolding format_evaluation_message text
message-not_empty [] observed met firing = refl
message-not_empty (c ∷ expression) observed met firing = refl

start-natural :
    (e : AlertEvaluator) (key : Str) (now : ℤ)
    → HasNaturalStarts e
    → is_negative now ≡ false
    → is_negative (start_or_now (started_of (find key e.rule_states)) now) ≡ false
start-natural e key now h n = elim (Option-cases (find key e.rule_states)) [
  | inl missing ↦ rw missing n
  | inr (st, found) ↦
      rw found (from_start st.condition_started_at_unix_ms (Each-find _ key _ h found))
]
  where
    from_start :
        (started : Option ℤ)
        → starts_negative started ≡ false
        → is_negative (start_or_now started now) ≡ false
    from_start none _ = n
    from_start (some t) p = ground arith

module _ {D : Type 0} ⦃d : Doubles D⦄ where
  numeric-message :
      (r : AlertRule D) (observed : Option D)
      → (evaluate_numeric_condition r observed).available ≡ false
      → is_empty (evaluate_numeric_condition r observed).message ≡ false
  unfolding evaluate_numeric_condition text
  numeric-message r none h = elim (Option-cases r.numeric_threshold) [
    | inl missing ↦ ground arith
    | inr (t, found) ↦ ground (
      arith,
      is_empty-append (format_rule_expression r (d.format t))
          (text ", metric value is unavailable"),
    )
  ]
  numeric-message r (some o) h = elim (Option-cases r.numeric_threshold) [
    | inl missing ↦ ground arith
    | inr (t, found) ↦ ground (
      arith,
      is_empty-append (format_rule_expression r (d.format t)) (text ", metric value is not finite"),
    )
  ]

  health-message :
      (r : AlertRule D) (observed : HealthState)
      → (evaluate_health_condition r observed).available ≡ false
      → is_empty (evaluate_health_condition r observed).message ≡ false
  unfolding evaluate_health_condition text
  health-message r observed h = ground arith

  -- A condition that cannot be evaluated comes with a message.
  unavailable-message :
      (r : AlertRule D) (metrics : Option (ServiceMetrics D)) (health : HealthStatus)
      → (evaluate_condition r metrics health).available ≡ false
      → is_empty (evaluate_condition r metrics health).message ≡ false
  unfolding evaluate_condition
  unavailable-message r metrics health h =
      ground (
        arith,
        numeric-message r (get_numeric_metric_value r metrics),
        health-message r health.state,
      )

  -- An evaluation drops the start of its key, or stores one.
  rule_states-evaluate_rule :
      (e : AlertEvaluator) (r : AlertRule D) (metrics : Option (ServiceMetrics D))
      (health : HealthStatus) (now : ℤ)
      → let key = make_rule_key r.service_id r.id in
        let next = (evaluate_rule e r metrics health now).0 in
        (next ≡ record { rule_states = erase key e.rule_states })
        ⊎ ((is_negative now ≡ false)
            × (next ≡ record {
              rule_states =
                  insert key
                    (record {
                      condition_started_at_unix_ms =
                          some (start_or_now (started_of (find key e.rule_states)) now);
                    })
                    e.rule_states;
            }))
  unfolding evaluate_rule
  rule_states-evaluate_rule e r metrics health now = ground arith

  pub evaluate_rule-HasNaturalStarts :
      (e : AlertEvaluator) (r : AlertRule D) (metrics : Option (ServiceMetrics D))
      (health : HealthStatus) (now : ℤ)
      → HasNaturalStarts e
      → HasNaturalStarts (evaluate_rule e r metrics health now).0
  evaluate_rule-HasNaturalStarts e r metrics health now h =
      let key = make_rule_key r.service_id r.id in
      elim (rule_states-evaluate_rule e r metrics health now) [
        | inl dropped ↦ rw dropped (Each-erase _ key e.rule_states h)
        | inr (hn, stored) ↦
            rw stored (Each-insert _ key _ e.rule_states h (start-natural e key now h hn))
      ]

  -- A rule with proper identifiers, evaluated at a proper time, gives a well-formed evaluation.
  pub evaluate_rule-valid :
      (e : AlertEvaluator) (r : AlertRule D) (metrics : Option (ServiceMetrics D))
      (health : HealthStatus) (now : ℤ)
      → HasNaturalStarts e
      → is_valid_service_id r.service_id ≡ true
      → is_valid_alert_rule_id r.id ≡ true
      → is_negative now ≡ false
      → evaluation_is_structurally_valid (evaluate_rule e r metrics health now).1 ≡ true
  unfolding evaluate_rule evaluation_is_structurally_valid text
  evaluate_rule-valid e r metrics health now h hs hr hn = ground (
    arith,
    unavailable-message r metrics health,
    start-natural e (make_rule_key r.service_id r.id) now h hn,
    message-not_empty (evaluate_condition r metrics health).expression
        (evaluate_condition r metrics health).observed_value true true,
    message-not_empty (evaluate_condition r metrics health).expression
        (evaluate_condition r metrics health).observed_value true false,
    message-not_empty (evaluate_condition r metrics health).expression
        (evaluate_condition r metrics health).observed_value false false,
  )

  -- The rules of a definition are those of its service, with proper identifiers.
  abbrev pub HasProperIds : AlertRule D → Type 0
  HasProperIds r = (is_valid_service_id r.service_id ≡ true) × (is_valid_alert_rule_id r.id ≡ true)

  -- With no negative start stored, at a time that is not negative, evaluating rules with valid
  -- identifiers gives well-formed evaluations, and still stores no negative start.
  pub evaluate_rules-valid :
      (e : AlertEvaluator) (rules : List (AlertRule D)) (metrics : Option (ServiceMetrics D))
      (health : HealthStatus) (now : ℤ)
      → HasNaturalStarts e
      → All HasProperIds rules
      → is_negative now ≡ false
      → HasNaturalStarts (evaluate_rules e rules metrics health now).0
        × All
            (λ v. evaluation_is_structurally_valid v ≡ true)
            (evaluate_rules e rules metrics health now).1
  unfolding evaluate_rules
  evaluate_rules-valid e [] metrics health now h hr hn = (h, tt)
  evaluate_rules-valid e (r ∷ rules) metrics health now h hr hn =
      let kept = evaluate_rule-HasNaturalStarts e r metrics health now h in
      let rest =
        evaluate_rules-valid (evaluate_rule e r metrics health now).0 rules metrics health now kept
          hr.1 hn in
      (rest.0, (evaluate_rule-valid e r metrics health now h hr.0.0 hr.0.1 hn, rest.1))
