-- ===== src/Tests/Data.antt =====
-- A service with one rule, its metrics and its health; natural numbers stand for doubles.
use aegis_desk.Prelude.{ℕ, true, none, some, [], ◌∷◌, ltb, leb, ◌==◌}
use aegis_desk.Prelude.Int.{ℤ, pos, negsuc}
use aegis_desk.Prelude.Text.{Str, text}
use aegis_desk.Prelude.Decimal.{decimal}
use aegis_desk.Double.{Doubles}
use aegis_desk.Service.State.{DesiredState, ServiceState}
use aegis_desk.Service.Exit.{ProcessExitKind}
use aegis_desk.Service.Status.{ServiceStatus}
use aegis_desk.Service.Definition.{ServiceDefinition}
use aegis_desk.Metrics.Value.{ServiceMetrics}
use aegis_desk.Health.Status.{HealthCheckDefinition, HealthStatus, HealthState, process}
use aegis_desk.Alerts.Rule.{AlertRule, cpu_percent, greater_than, critical}
use aegis_desk.Recovery.Policy.{RecoveryPolicy}

instance abbrev pub doubles_ℕ : Doubles ℕ
doubles_ℕ = record {
  is_finite = λ _. true;
  lt = ltb;
  le = leb;
  eq = λ a b. a == b;
  of_ℕ = λ n. n;
  format = decimal;
}

abbrev pub web : Str
web = text "web"

abbrev pub process_check : HealthCheckDefinition
process_check = record {
  enabled = true;
  type = process;
  interval_seconds = 5;
  timeout_milliseconds = 1000;
  failure_threshold = 2;
  endpoint = [];
  host = [];
  port = 0;
  command_line = [];
}

-- The processor is busy for ten seconds.
abbrev pub busy : AlertRule ℕ
busy = record {
  id = text "busy";
  service_id = web;
  metric = cpu_percent;
  op = greater_than;
  numeric_threshold = some 80;
  health_state_threshold = none;
  duration_seconds = 10;
  severity = critical;
  enabled = true;
  description = [];
}

abbrev pub policy : RecoveryPolicy
policy = record {
  enabled = true;
  restart_on_unhealthy = true;
  restart_on_critical_alert = true;
  max_restarts = 2;
  window_seconds = 60;
  backoff_seconds = 1;
  startup_grace_seconds = 2;
}

abbrev pub service : ServiceDefinition ℕ
service = record {
  id = web;
  display_name = text "Web";
  executable = text "/bin/web";
  work_dir = text "/";
  args = [];
  log_path = text "/web.log";
  auto_start = true;
  health_check = process_check;
  alert_rules = busy ∷ [];
  recovery_policy = policy;
}

abbrev pub status_of : ServiceState → ℤ → ServiceStatus
status_of state pid = record {
  state = state;
  desired_state = DesiredState.running;
  pid = pid;
  process_group_id = pid;
  exit_code = none;
  uptime = pos 0;
  last_exit_kind = ProcessExitKind.none;
  last_exit_signal = none;
  last_error = [];
  last_transition_at_unix_ms = pos 0;
}

abbrev pub up : ServiceStatus
up = status_of ServiceState.running (pos 7)

abbrev pub down : ServiceStatus
down = status_of ServiceState.exited (negsuc 0)

abbrev pub metrics_at : ℕ → ServiceMetrics ℕ
metrics_at cpu = record {
  service_id = web;
  available = true;
  pid = pos 7;
  collected_at_unix_ms = pos 0;
  cpu_percent = some cpu;
  rss_bytes = some 1000;
  thread_count = some 4;
  fd_count = some 9;
}

abbrev pub health_of : HealthState → HealthStatus
health_of state = record {
  service_id = web;
  state = state;
  reason = text "process is not running";
  consecutive_failures = 2;
  checked_at_unix_ms = pos 0;
}
