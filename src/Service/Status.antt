-- ===== src/Service/Status.antt =====
-- `ServiceStatus` of apps/agent/include/agent/service/process_supervisor.h, and `ServiceSummary` of
-- service_registry.h.
use aegis_desk.Prelude.{Option, Bool, ◌&&◌}
use aegis_desk.Prelude.Int.{ℤ, pos, ltb_ℤ}
use aegis_desk.Prelude.Text.{Str}
use aegis_desk.Service.State.{DesiredState, ServiceState, is_running}
use aegis_desk.Service.Exit.{ProcessExitKind}

pub record ServiceStatus : Type 0 where
  pub state : ServiceState
  pub desired_state : DesiredState
  pub pid : ℤ
  pub process_group_id : ℤ
  pub exit_code : Option ℤ
  pub uptime : ℤ
  pub last_exit_kind : ProcessExitKind
  pub last_exit_signal : Option ℤ
  pub last_error : Str
  pub last_transition_at_unix_ms : ℤ

pub record ServiceSummary : Type 0 where
  pub id : Str
  pub display_name : Str
  pub auto_start : Bool
  pub status : ServiceStatus

-- `status.state == ServiceState::kRunning && status.pid > 0`.
abbrev pub has_running_process : ServiceStatus → Bool
has_running_process s = is_running s.state && ltb_ℤ (pos 0) s.pid
