-- ===== src/Alerts/Evaluator/Firing.antt =====
-- When a rule fires, said of the history of its evaluations.
use aegis_desk.Prelude.{
  ◌≡◌, refl, Bool, true, false, Option, none, some, List, [], ◌∷◌, ◌&&◌, not, if◌then◌else◌, arith,
}
use aegis_desk.Prelude.Int.{ℤ, ◌-ℤ◌, is_negative, leb_ℤ}
use aegis_desk.Prelude.Text.{Str, str_eq, str_eq_iff, str_eq_refl}
use aegis_desk.Prelude.Dict.{find, find-insert, find-erase}
use aegis_desk.Double.{Doubles}
use aegis_desk.Metrics.Value.{ServiceMetrics}
use aegis_desk.Health.Status.{HealthStatus}
use aegis_desk.Alerts.Rule.{AlertRule, rule_is_structurally_valid}
use aegis_desk.Alerts.Key.{make_rule_key}
use aegis_desk.Alerts.Evaluator.Condition.{evaluate_condition}
use aegis_desk.Alerts.Evaluator.{
  AlertEvaluator, required_duration_ms, start_or_now, started_of, evaluate_rule,
}

-- One evaluation: the rule, what the agent knew, and when.
pub record Sample (D : Type 0) : Type 0 where
  pub rule : AlertRule D
  pub metrics : Option (ServiceMetrics D)
  pub health : HealthStatus
  pub at : ℤ

abbrev pub key_of : {D : Type 0} → AlertRule D → Str
key_of r = make_rule_key r.service_id r.id

-- Whether a run that began at an optional start goes on, or begins, now.
abbrev pub extend_run : Bool → Option ℤ → ℤ → Option ℤ
extend_run true started now = some (start_or_now started now)
extend_run false started now = none

abbrev pub lasts : Option ℤ → ℤ → ℤ → Bool
lasts none now duration = false
lasts (some started) now duration = leb_ℤ duration (now -ℤ started)

abbrev pub start_in : AlertEvaluator → Str → Option ℤ
start_in e key = started_of (find key e.rule_states)

module _ {D : Type 0} ⦃d : Doubles D⦄ where
  -- The rule of a sample is in force and its condition holds.
  unfoldable pub holds : Sample D → Bool
  holds s =
      s.rule.enabled
      && rule_is_structurally_valid s.rule
      && not (is_negative s.at)
      && (evaluate_condition s.rule s.metrics s.health).available
      && (evaluate_condition s.rule s.metrics s.health).condition_met

  -- The evaluator after a history of evaluations, the newest first.
  unfoldable pub evaluator_after : List (Sample D) → AlertEvaluator
  evaluator_after [] = record { rule_states = [] }
  evaluator_after (s ∷ older) =
      (evaluate_rule (evaluator_after older) s.rule s.metrics s.health s.at).0

  -- Among the samples of a key, the least time in the unbroken run of `holds` up to the newest.
  abbrev pub run_start : Str → List (Sample D) → Option ℤ
  run_start key [] = none
  run_start key (s ∷ older) =
      let before = run_start key older in
      if str_eq (key_of s.rule) key then extend_run (holds s) before s.at else before

  -- One evaluation moves the start of its own key, and no other.
  start_in-evaluate_rule :
      (e : AlertEvaluator) (s : Sample D) (key : Str)
      → start_in (evaluate_rule e s.rule s.metrics s.health s.at).0 key ≡ (
          if str_eq (key_of s.rule) key
          then extend_run (holds s) (start_in e (key_of s.rule)) s.at
          else start_in e key)
  unfolding evaluate_rule holds
  start_in-evaluate_rule e s key = ground (
    arith,
    find-erase (key_of s.rule) key e.rule_states,
    find-insert (key_of s.rule) key
        (record {
          condition_started_at_unix_ms = some (start_or_now (start_in e (key_of s.rule)) s.at);
        })
        e.rule_states,
  )

  firing-evaluate_rule :
      (e : AlertEvaluator) (s : Sample D)
      → (evaluate_rule e s.rule s.metrics s.health s.at).1.firing
        ≡ lasts
            (extend_run (holds s) (start_in e (key_of s.rule)) s.at)
            s.at
            (required_duration_ms s.rule.duration_seconds)
  unfolding evaluate_rule holds
  firing-evaluate_rule e s = ground arith

  -- After any evaluations of any rules, the start that the evaluator keeps for a key is the start of
  -- the key's run.
  pub start_in-evaluator_after :
      (key : Str) (samples : List (Sample D))
      → start_in (evaluator_after samples) key ≡ run_start key samples
  unfolding evaluator_after find
  start_in-evaluator_after key [] = refl
  start_in-evaluator_after key (s ∷ older) = ground (
    arith,
    start_in-evaluate_rule (evaluator_after older) s key,
    start_in-evaluator_after key older,
    str_eq_iff (key_of s.rule) key,
  )

  -- Whatever was evaluated before, an evaluation fires exactly when the run of its key has lasted
  -- for the rule's duration.
  pub firing-evaluator_after :
      (s : Sample D) (older : List (Sample D))
      → (evaluate_rule (evaluator_after older) s.rule s.metrics s.health s.at).1.firing
        ≡ lasts
            (run_start (key_of s.rule) (s ∷ older))
            s.at
            (required_duration_ms s.rule.duration_seconds)
  firing-evaluator_after s older = ground (
    arith,
    firing-evaluate_rule (evaluator_after older) s,
    start_in-evaluator_after (key_of s.rule) older,
    str_eq_refl (key_of s.rule),
  )
