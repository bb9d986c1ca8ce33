-- ===== src/Monitor/Valid.antt =====
-- What a round of checks preserves, and whose health it publishes (health_monitor.cpp).
use aegis_desk.Prelude.{
  ◌≡◌, Bool, true, Option, none, some, List, [], ◌∷◌, not, arith, All-keep, ◌≤◌, length, keep, inl,
  inr, Bool-cases,
}
use aegis_desk.Prelude.Int.{ℤ}
use aegis_desk.Prelude.Text.{Str, str_eq}
use aegis_desk.Prelude.Dict.{Dict, find, Each-erase_if}
use aegis_desk.Double.{Doubles}
use aegis_desk.Service.Status.{ServiceSummary}
use aegis_desk.Service.Definition.{contains}
use aegis_desk.Metrics.Value.{ServiceMetrics}
use aegis_desk.Health.Status.{HealthStatus}
use aegis_desk.Health.Checker.{check}
use aegis_desk.Alerts.Rule.{AlertRule}
use aegis_desk.Alerts.Event.{AlertEvent}
use aegis_desk.Alerts.Evaluator.{
  AlertEvaluator, evaluate, evaluate_rule, evaluate_rules, forget_service as forget_rules,
}
use aegis_desk.Alerts.Evaluator.Validity.{HasNaturalStarts, evaluate_rule-HasNaturalStarts}
use aegis_desk.Alerts.Manager.{AlertManager, apply_evaluations}
use aegis_desk.Alerts.Listing.{active_alerts_of}
use aegis_desk.Alerts.Manager.Valid.{IsValid as IsAlertsValid, apply_evaluations-IsValid}
use aegis_desk.Alerts.Manager.Acknowledge.{forget_service-IsValid}
use aegis_desk.Recovery.Manager.{RecoveryManager, forget_service as forget_recovery}
use aegis_desk.Recovery.Manager.Events.{IsValid as IsRecoveryValid, recover-IsValid}
use aegis_desk.Recovery.Supervision.{Supervision}
use aegis_desk.Recovery.Policy.{recovery_event_is_structurally_valid}
use aegis_desk.Monitor.{
  HealthMonitor, Registry, Checked, forget_unseen, ids_of, check_all, recover_all, check_once,
  check_found, recover_found,
}

-- The three parts with an invariant are valid.
pub record IsValid (m : HealthMonitor) : Type 0 where
  pub starts : HasNaturalStarts m.alert_evaluator
  pub alerts : IsAlertsValid m.alert_manager
  pub recovery : IsRecoveryValid m.recovery_manager

length-keep_le : {A : Type 0} (p : A → Bool) (xs : List A) → length (keep p xs) ≤ length xs
length-keep_le p [] = omega arith
length-keep_le p (x ∷ xs) = ground (arith, length-keep_le p xs)

forget_rules-HasNaturalStarts :
    (e : AlertEvaluator) (id : Str) → HasNaturalStarts e → HasNaturalStarts (forget_rules e id)
unfolding forget_rules
forget_rules-HasNaturalStarts e id h = Each-erase_if _ _ e.rule_states h

forget_recovery-IsValid :
    (m : RecoveryManager) (id : Str) → IsRecoveryValid m → IsRecoveryValid (forget_recovery m id)
unfolding forget_recovery
forget_recovery-IsValid m id h = record {
  has_capacity = h.has_capacity;
  bounded =
      omega (arith, length-keep_le (λ e. not (str_eq e.service_id id)) m.recent_events, h.bounded);
  well_formed =
      All-keep (λ e. recovery_event_is_structurally_valid e ≡ true)
        (λ e. not (str_eq e.service_id id)) m.recent_events h.well_formed;
}

forget_unseen-IsValid :
    (seen : List Str) (latest : Dict HealthStatus) (m : HealthMonitor)
    → IsValid m
    → IsValid (forget_unseen seen latest m)
unfolding forget_unseen
forget_unseen-IsValid seen [] m h = h
forget_unseen-IsValid seen ((id, _) ∷ latest) m h = elim (Bool-cases (contains id seen)) [
  | inl listed ↦ rw listed (forget_unseen-IsValid seen latest m h)
  | inr gone ↦ rw gone (
      forget_unseen-IsValid seen latest _ (record {
        starts = forget_rules-HasNaturalStarts m.alert_evaluator id h.starts;
        alerts = forget_service-IsValid m.alert_manager id h.alerts;
        recovery = forget_recovery-IsValid m.recovery_manager id h.recovery;
      }))
]

module _ {D : Type 0} ⦃d : Doubles D⦄ where
  evaluate_rules-HasNaturalStarts :
      (e : AlertEvaluator) (rules : List (AlertRule D)) (metrics : Option (ServiceMetrics D))
      (health : HealthStatus) (now : ℤ)
      → HasNaturalStarts e
      → HasNaturalStarts (evaluate_rules e rules metrics health now).0
  unfolding evaluate_rules
  evaluate_rules-HasNaturalStarts e [] metrics health now h = h
  evaluate_rules-HasNaturalStarts e (r ∷ rules) metrics health now h =
      evaluate_rules-HasNaturalStarts (evaluate_rule e r metrics health now).0 rules metrics health
        now (evaluate_rule-HasNaturalStarts e r metrics health now h)

module _ {D S R : Type 0} ⦃d : Doubles D⦄ (v : Supervision D S) (g : Registry S R)
    (get_latest : Str → Option (ServiceMetrics D)) (sort : List AlertEvent → List AlertEvent) where
  check_found-HasNaturalStarts :
      (c : Checked) (s : ServiceSummary) (now : ℤ) (supervisor : Option S)
      → HasNaturalStarts c.evaluator
      → HasNaturalStarts (check_found v g get_latest sort c s now supervisor).evaluator
  unfolding check_found evaluate
  check_found-HasNaturalStarts c s now none h = h
  check_found-HasNaturalStarts c s now (some supervisor) h =
      let definition = v.definition supervisor in
      evaluate_rules-HasNaturalStarts c.evaluator definition.alert_rules (get_latest definition.id)
        (check c.checker definition s.status now).1 now h

  check_all-HasNaturalStarts :
      (services : List ServiceSummary) (r : R) (now : ℤ) (c : Checked)
      → HasNaturalStarts c.evaluator
      → HasNaturalStarts (check_all v g get_latest sort r now c services).evaluator
  unfolding check_all
  check_all-HasNaturalStarts [] r now c h = h
  check_all-HasNaturalStarts (s ∷ services) r now c h =
      check_all-HasNaturalStarts services r now
        (check_found v g get_latest sort c s now (g.find_supervisor r s.id))
        (check_found-HasNaturalStarts c s now (g.find_supervisor r s.id) h)

  recover_found-IsValid :
      (alerts : AlertManager) (next_health : Dict HealthStatus) (now : ℤ) (id : Str) (r : R)
      (m : RecoveryManager) (supervisor : Option S) (health : Option HealthStatus)
      → IsRecoveryValid m
      → IsRecoveryValid
          (recover_found v g get_latest sort alerts next_health now id (r, m) supervisor health).1
  unfolding recover_found
  recover_found-IsValid alerts next_health now id r m none health h = h
  recover_found-IsValid alerts next_health now id r m (some supervisor) none h = h
  recover_found-IsValid alerts next_health now id r m (some supervisor) (some health) h =
      recover-IsValid v m supervisor
        (record {
          health = health;
          alerts = sort (active_alerts_of id alerts.active_alerts);
          at = now;
        })
        h

  recover_all-IsValid :
      (services : List ServiceSummary) (alerts : AlertManager) (next_health : Dict HealthStatus)
      (now : ℤ) (rm : R × RecoveryManager)
      → IsRecoveryValid rm.1
      → IsRecoveryValid (recover_all v g get_latest sort alerts next_health now rm services).1
  unfolding recover_all
  recover_all-IsValid [] alerts next_health now (r, m) h = h
  recover_all-IsValid (s ∷ services) alerts next_health now (r, m) h =
      recover_all-IsValid services alerts next_health now
        (recover_found v g get_latest sort alerts next_health now s.id (r, m)
          (g.find_supervisor r s.id) (find s.id next_health))
        (recover_found-IsValid alerts next_health now s.id r m (g.find_supervisor r s.id)
          (find s.id next_health) h)

  -- A round of checks keeps a valid monitor valid, whatever the services, the metrics and the
  -- outcomes of restarts are.
  pub check_once-IsValid :
      (r : R) (m : HealthMonitor) (now : ℤ)
      → IsValid m
      → IsValid (check_once v g get_latest sort r m now).1
  unfolding check_once
  check_once-IsValid r m now h =
      let services = g.list_services r in
      let c =
        check_all v g get_latest sort r now
          (record {
            checker = m.health_checker;
            evaluator = m.alert_evaluator;
            next_health = [];
            evaluations = [];
          })
          services in
      let kept = forget_unseen-IsValid (ids_of services) m.latest_health _ (record {
        starts = check_all-HasNaturalStarts services r now _ h.starts;
        alerts = apply_evaluations-IsValid m.alert_manager c.evaluations h.alerts;
        recovery =
            recover_all-IsValid services (apply_evaluations m.alert_manager c.evaluations).0
              c.next_health now (r, m.recovery_manager) h.recovery;
      }) in
      record { starts = kept.starts; alerts = kept.alerts; recovery = kept.recovery }
