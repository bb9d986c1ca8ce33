-- ===== src/Tests/Monitor.antt =====
-- A registry of one service, which is found down.
use aegis_desk.Prelude.{◌≡◌, refl, true, false, none, some, [], ◌∷◌, if◌then◌else◌, arith}
use aegis_desk.Prelude.Int.{pos}
use aegis_desk.Prelude.Text.{Str, text, str_eq, str_eq_iff}
use aegis_desk.Service.Status.{ServiceStatus}
use aegis_desk.Alerts.Manager.{new_manager as new_alert_manager}
use aegis_desk.Alerts.Manager.Valid.{new_manager-IsValid as alerts_are_valid}
use aegis_desk.Recovery.Manager.{new_manager as new_recovery_manager}
use aegis_desk.Recovery.Manager.Events.{new_manager-IsValid as recovery_is_valid}
use aegis_desk.Monitor.{HealthMonitor, Registry, check_once}
use aegis_desk.Monitor.Worker.{
  MonitorWorker, new_worker, start, stop, Step, Reach, here, next, is_running, is_running-in_run,
}
use aegis_desk.Prelude.Result.{ok}
use aegis_desk.Monitor.Valid.{IsValid, check_once-IsValid}
use aegis_desk.Tests.Data
use aegis_desk.Tests.Data.{doubles_ℕ}
use aegis_desk.Tests.Recovery.{supervision}

abbrev registry : Registry ServiceStatus ServiceStatus
registry = record {
  list_services =
      λ r. record { id = Data.web; display_name = text "Web"; auto_start = true; status = r } ∷ [];
  find_supervisor = λ r id. if str_eq Data.web id then some r else none;
  put_supervisor = λ _ _ s. s;
}

web_is_named :
    (id : Str) (s : ServiceStatus)
    → registry.find_supervisor Data.down id ≡ some s
    → (supervision.definition s).id ≡ id
web_is_named id s h = ground (arith, str_eq_iff Data.web id)

abbrev pub monitor : HealthMonitor
monitor = record {
  health_checker = record { consecutive_failures = [] };
  alert_evaluator = record { rule_states = [] };
  alert_manager = new_alert_manager 10;
  recovery_manager = new_recovery_manager 10 30;
  latest_health = [];
}

monitor-IsValid : IsValid monitor
monitor-IsValid = record {
  starts = tt;
  alerts = alerts_are_valid 10;
  recovery = recovery_is_valid 10 30;
}

check_once-IsValid_example :
    IsValid
      (check_once supervision registry
        (λ _. some (Data.metrics_at 95))
        (λ alerts. alerts)
        Data.down
        monitor
        (pos 1000)).1
check_once-IsValid_example =
    check_once-IsValid supervision registry (λ _. some (Data.metrics_at 95)) (λ alerts. alerts)
      Data.down monitor (pos 1000) monitor-IsValid

-- Started, stopped and started again while the first thread is still in Run.
abbrev restarted : MonitorWorker
restarted = (start (stop false (start (new_worker (pos 2000)) (ok tt)).0) (ok tt)).0

restarted-Reach : Reach (new_worker (pos 2000)) restarted
restarted-Reach =
    next (next (next here (Step.starts (ok tt))) (Step.stops false)) (Step.starts (ok tt))

is_running-in_run_example :
    (restarted.worker_in_run ≡ true)
    × (restarted.worker_token ≡ false)
    × (restarted.moved_without_token ≡ 0)
unfolding is_running start stop
is_running-in_run_example = is_running-in_run restarted-Reach refl
