-- ===== src/Health/Checker.antt =====
-- apps/agent/src/health/health_checker.cpp. `Check` returns the new counters and the status.
pub mod History
use Prim.Native.Nat.{max}
use aegis_desk.Prelude.{
  ℕ, ◌+◌, ◌≡◌, refl, ◌≢◌, Bool, true, false, Option, none, some, not, if◌then◌else◌, arith, ltb, [],
}
use aegis_desk.Prelude.Int.{ℤ}
use aegis_desk.Prelude.Text.{Str, text, str_eq, str_eq_iff}
use aegis_desk.Prelude.Dict.{Dict, find, insert, erase, find-insert, find-erase}
use aegis_desk.Service.Status.{ServiceStatus, has_running_process}
use aegis_desk.Service.Definition.{ServiceDefinition}
use aegis_desk.Health.Status.{
  HealthCheckType, process, http, tcp, command, HealthState, healthy, unhealthy, unknown,
  HealthStatus, health_check_is_structurally_valid,
}

pub record HealthChecker : Type 0 where
  pub consecutive_failures : Dict ℕ

-- std::numeric_limits<std::uint32_t>::max().
abbrev pub uint32_max : ℕ
uint32_max = 4294967295

-- `consecutive_failures_[id]` creates the counter 0.
abbrev pub count_or_zero : Option ℕ → ℕ
count_or_zero none = 0
count_or_zero (some n) = n

abbrev pub saturating_increment : ℕ → ℕ
saturating_increment n = if ltb n uint32_max then n + 1 else n

unfoldable pub forget_service : HealthChecker → Str → HealthChecker
forget_service c id = record { consecutive_failures = erase id c.consecutive_failures }

unfoldable pub clear : HealthChecker → HealthChecker
clear c = record { consecutive_failures = [] }

module _ {D : Type 0} where
  -- The replies that drop the counter.
  without_failures :
      HealthChecker → ServiceDefinition D → HealthState → Str → ℤ → HealthChecker × HealthStatus
  unfolding forget_service
  without_failures c s state reason now = (
    forget_service c s.id,
    record {
      service_id = s.id;
      state = state;
      reason = reason;
      consecutive_failures = 0;
      checked_at_unix_ms = now;
    },
  )

  make_unknown : HealthChecker → ServiceDefinition D → Str → ℤ → HealthChecker × HealthStatus
  unfolding without_failures
  make_unknown c s reason now = without_failures c s unknown reason now

  with_failures : HealthChecker → ServiceDefinition D → ℕ → ℤ → HealthChecker × HealthStatus
  with_failures c s failure_count now = (
    record { consecutive_failures = insert s.id failure_count c.consecutive_failures },
    (if ltb failure_count (max 1 s.health_check.failure_threshold)
        then record {
          service_id = s.id;
          state = unknown;
          reason = text "process is not running, waiting for failure threshold";
          consecutive_failures = failure_count;
          checked_at_unix_ms = now;
        }
        else record {
          service_id = s.id;
          state = unhealthy;
          reason = text "process is not running";
          consecutive_failures = failure_count;
          checked_at_unix_ms = now;
        }),
  )

  unfoldable pub check_process :
      HealthChecker → ServiceDefinition D → ServiceStatus → ℤ → HealthChecker × HealthStatus
  unfolding without_failures with_failures
  check_process c s status now =
      if has_running_process status
      then without_failures c s healthy (text "process is running") now
      else with_failures c s
          (saturating_increment (count_or_zero (find s.id c.consecutive_failures))) now

  -- The `switch` over the type.
  dispatch :
      HealthCheckType
      → HealthChecker
      → ServiceDefinition D
      → ServiceStatus
      → ℤ
      → HealthChecker × HealthStatus
  unfolding check_process make_unknown
  dispatch process c s status now = check_process c s status now
  dispatch http c s status now =
      make_unknown c s (text "http health check is not implemented yet") now
  dispatch tcp c s status now =
      make_unknown c s (text "tcp health check is not implemented yet") now
  dispatch command c s status now =
      make_unknown c s (text "command health check is not implemented yet") now

  unfoldable pub check :
      HealthChecker → ServiceDefinition D → ServiceStatus → ℤ → HealthChecker × HealthStatus
  unfolding dispatch
  check c s status now =
      if not s.health_check.enabled
      then without_failures c s unknown (text "health check is disabled") now
      else if not (health_check_is_structurally_valid s.health_check)
      then without_failures c s unknown (text "health check definition is invalid") now
      else dispatch s.health_check.type c s status now
