-- ===== src/Monitor.antt =====
-- apps/agent/src/health/health_monitor.cpp: one round of checks over all services.
pub mod Valid
pub mod Published
pub mod Worker
use aegis_desk.Prelude.{
  ℕ, Bool, true, false, Option, none, some, List, [], ◌∷◌, ◌++◌, not, if◌then◌else◌,
}
use aegis_desk.Prelude.Int.{ℤ, pos}
use aegis_desk.Prelude.Text.{Str, text, str_eq}
use aegis_desk.Prelude.Dict.{Dict, find, insert, emplace}
use aegis_desk.Double.{Doubles}
use aegis_desk.Service.Status.{ServiceStatus, ServiceSummary}
use aegis_desk.Service.Definition.{contains}
use aegis_desk.Metrics.Value.{ServiceMetrics}
use aegis_desk.Health.Status.{HealthStatus, HealthState, unknown}
use aegis_desk.Health.Checker.{forget_service as forget_health}
use aegis_desk.Health.Checker.{HealthChecker, check}
use aegis_desk.Alerts.Event.{AlertEvent}
use aegis_desk.Alerts.Evaluation.{AlertEvaluation}
use aegis_desk.Alerts.Evaluator.{forget_service as forget_rules}
use aegis_desk.Alerts.Evaluator.{AlertEvaluator, evaluate}
use aegis_desk.Alerts.Manager.{forget_service as forget_alerts}
use aegis_desk.Alerts.Manager.{AlertManager, apply_evaluations}
use aegis_desk.Alerts.Listing.{active_alerts_of}
use aegis_desk.Recovery.Supervision.{Supervision}
use aegis_desk.Recovery.Manager.{forget_service as forget_recovery}
use aegis_desk.Recovery.Manager.{RecoveryManager, evaluate_and_recover}

-- What the monitor uses of the registry: the identifiers and statuses of its services, a
-- supervisor by its identifier, and the registry with a supervisor that has acted.
pub record Registry (S R : Type 0) : Type 0 where
  pub list_services : R → List ServiceSummary
  pub find_supervisor : R → Str → Option S
  pub put_supervisor : R → Str → S → R

pub record HealthMonitor : Type 0 where
  pub health_checker : HealthChecker
  pub alert_evaluator : AlertEvaluator
  pub alert_manager : AlertManager
  pub recovery_manager : RecoveryManager
  pub latest_health : Dict HealthStatus

missing_supervisor : Str → ℤ → HealthStatus
missing_supervisor id now = record {
  service_id = id;
  state = unknown;
  reason = text "service supervisor was not found";
  consecutive_failures = 0;
  checked_at_unix_ms = now;
}

-- `ForgetService` of the four parts, for the identifiers that are no longer listed.
unfoldable pub forget_unseen : List Str → Dict HealthStatus → HealthMonitor → HealthMonitor
forget_unseen seen [] m = m
forget_unseen seen ((id, _) ∷ latest) m =
    let rest = forget_unseen seen latest in
    if contains id seen
    then rest m
    else rest (record m {
      health_checker = forget_health m.health_checker id;
      alert_evaluator = forget_rules m.alert_evaluator id;
      alert_manager = forget_alerts m.alert_manager id;
      recovery_manager = forget_recovery m.recovery_manager id;
    })

abbrev pub ids_of : List ServiceSummary → List Str
ids_of [] = []
ids_of (s ∷ services) = s.id ∷ ids_of services

-- What the first loop has gathered: the checker, the evaluator, `next_health`, `all_evaluations`.
pub record Checked : Type 0 where
  pub checker : HealthChecker
  pub evaluator : AlertEvaluator
  pub next_health : Dict HealthStatus
  pub evaluations : List AlertEvaluation

module _ {D S R : Type 0} ⦃d : Doubles D⦄ (v : Supervision D S) (g : Registry S R)
    (get_latest : Str → Option (ServiceMetrics D)) (sort : List AlertEvent → List AlertEvent) where
  check_one : Checked → ServiceSummary → ℤ → S → Checked
  unfolding emplace
  check_one c s now supervisor =
      let definition = v.definition supervisor in
      let (checker, health) = check c.checker definition s.status now in
      let (evaluator, evaluations) =
        evaluate c.evaluator definition (get_latest definition.id) health now in
      record {
        checker = checker;
        evaluator = evaluator;
        next_health = emplace definition.id health c.next_health;
        evaluations = c.evaluations ++ evaluations;
      }

  check_found : Checked → ServiceSummary → ℤ → Option S → Checked
  unfolding check_one emplace missing_supervisor
  check_found c s now none = record c {
    next_health = emplace s.id (missing_supervisor s.id now) c.next_health;
  }
  check_found c s now (some supervisor) = check_one c s now supervisor

  -- The first loop.
  unfoldable pub check_all : R → ℤ → Checked → List ServiceSummary → Checked
  unfolding check_found
  check_all r now c [] = c
  check_all r now c (s ∷ services) =
      check_all r now (check_found c s now (g.find_supervisor r s.id)) services

  recover_found :
      AlertManager
      → Dict HealthStatus
      → ℤ
      → Str
      → R × RecoveryManager
      → Option S
      → Option HealthStatus
      → R × RecoveryManager
  unfolding active_alerts_of
  recover_found alerts next_health now id (r, m) none health = (r, m)
  recover_found alerts next_health now id (r, m) (some supervisor) none = (r, m)
  recover_found alerts next_health now id (r, m) (some supervisor) (some health) =
      let o =
        evaluate_and_recover v m supervisor health (sort (active_alerts_of id alerts.active_alerts))
          now in
      (g.put_supervisor r id o.supervisor, o.manager)

  -- The second loop.
  unfoldable pub recover_all :
      AlertManager
      → Dict HealthStatus
      → ℤ
      → R × RecoveryManager
      → List ServiceSummary
      → R × RecoveryManager
  unfolding recover_found
  recover_all alerts next_health now (r, m) [] = (r, m)
  recover_all alerts next_health now (r, m) (s ∷ services) =
      recover_all alerts next_health now
        (recover_found alerts next_health now s.id (r, m) (g.find_supervisor r s.id)
          (find s.id next_health))
        services

  -- `CheckOnce`, at a time of `NowUnixTimeMilliseconds`.
  unfoldable pub check_once : R → HealthMonitor → ℤ → R × HealthMonitor
  unfolding check_all recover_all forget_unseen
  check_once r m now =
      let services = g.list_services r in
      let c =
        check_all r now
          (record {
            checker = m.health_checker;
            evaluator = m.alert_evaluator;
            next_health = [];
            evaluations = [];
          })
          services in
      let alerts = (apply_evaluations m.alert_manager c.evaluations).0 in
      let (r', recovery) = recover_all alerts c.next_health now (r, m.recovery_manager) services in
      let checked : HealthMonitor = record {
        health_checker = c.checker;
        alert_evaluator = c.evaluator;
        alert_manager = alerts;
        recovery_manager = recovery;
        latest_health = m.latest_health;
      } in
      (
        r',
        record (forget_unseen (ids_of services) m.latest_health checked) {
          latest_health = c.next_health;
        },
      )
