-- ===== src/Supervisor/State.antt =====
-- The fields of `ProcessSupervisor`, and the helpers that write them under the state mutex. The
-- clocks are arguments; `pid_t` and `int` are unbounded integers.
use aegis_desk.Prelude.{Option, none, some, [], ◌||◌, if◌then◌else◌}
use aegis_desk.Prelude.Int.{ℤ, pos, negsuc, ◌-ℤ◌, ◌+ℤ◌, is_negative}
use aegis_desk.Prelude.Text.{Str}
use aegis_desk.Service.State.{DesiredState, ServiceState, is_desired_stopped, is_stopping}
use aegis_desk.Double.{Doubles}
use aegis_desk.Service.Exit.{ProcessExitKind}
use aegis_desk.Service.Status.{ServiceStatus}
use aegis_desk.Service.Definition.{ServiceDefinition, with_absolute_paths}

pub record Supervisor (D : Type 0) : Type 0 where
  pub definition : ServiceDefinition D
  pub desired_state : DesiredState
  pub state : ServiceState
  pub pid : ℤ
  pub process_group_id : ℤ
  pub last_exit_code : Option ℤ
  pub last_exit_kind : ProcessExitKind
  pub last_exit_signal : Option ℤ
  pub last_error : Str
  pub last_transition_at_unix_ms : ℤ
  pub start_time : Option ℤ

-- The value -1 of a `pid_t` that names no process.
abbrev pub no_pid : ℤ
no_pid = negsuc 0

-- What `waitpid` stores: WIFEXITED with its code, WIFSIGNALED with its signal, or neither.
pub data WaitStatus : Type 0 where
  exited signaled : ℤ → WaitStatus
  other : WaitStatus

-- How the loop around `waitpid` ends: the child was reaped, ECHILD, or another errno.
pub data WaitResult : Type 0 where
  reaped : WaitStatus → WaitResult
  no_child : WaitResult
  wait_failed : Str → WaitResult

-- `NowUnixTimeMilliseconds`, from the milliseconds since the epoch.
abbrev pub now_unix_time_milliseconds : ℤ → ℤ
now_unix_time_milliseconds milliseconds = if is_negative milliseconds then pos 0 else milliseconds

-- `duration_cast<seconds>` of a steady clock that is in milliseconds here, and never runs back.
unfoldable pub uptime_of : (ℤ → ℤ) → Option ℤ → ℤ → ℤ
uptime_of to_seconds none now = pos 0
uptime_of to_seconds (some started) now = to_seconds (now -ℤ started)

module _ {D : Type 0} where
  -- The constructor; `absolute` is std::filesystem::absolute.
  unfoldable pub new_supervisor :
      ⦃d : Doubles D⦄ → (Str → Str) → ServiceDefinition D → ℤ → Supervisor D
  unfolding with_absolute_paths
  new_supervisor absolute definition now = record {
    definition = with_absolute_paths absolute definition;
    desired_state = if definition.auto_start then DesiredState.running else DesiredState.stopped;
    state = ServiceState.stopped;
    pid = no_pid;
    process_group_id = no_pid;
    last_exit_code = none;
    last_exit_kind = ProcessExitKind.none;
    last_exit_signal = none;
    last_error = [];
    last_transition_at_unix_ms = now_unix_time_milliseconds now;
    start_time = none;
  }

  abbrev pub transition_state : Supervisor D → ServiceState → Str → ℤ → Supervisor D
  transition_state s state error now = record s {
    state = state;
    last_error = error;
    last_transition_at_unix_ms = now_unix_time_milliseconds now;
  }

  unfoldable pub save_exit_status : Supervisor D → WaitStatus → Supervisor D
  save_exit_status s (exited code) = record s {
    last_exit_code = some code;
    last_exit_kind = ProcessExitKind.exited;
    last_exit_signal = none;
  }
  save_exit_status s (signaled signal) = record s {
    last_exit_code = some (pos 128 +ℤ signal);
    last_exit_kind = ProcessExitKind.signaled;
    last_exit_signal = some signal;
  }
  save_exit_status s other = record s {
    last_exit_code = none;
    last_exit_kind = ProcessExitKind.unknown;
    last_exit_signal = none;
  }

  unfoldable pub mark_child_exited : Supervisor D → ℤ → Supervisor D
  mark_child_exited s now =
      let explicitly_stopped = is_desired_stopped s.desired_state || is_stopping s.state in
      transition_state (record s { pid = no_pid; start_time = none })
        (if explicitly_stopped then ServiceState.stopped else ServiceState.exited) [] now

  unfoldable pub get_status : (ℤ → ℤ) → Supervisor D → ℤ → ServiceStatus
  unfolding uptime_of
  get_status to_seconds s now = record {
    state = s.state;
    desired_state = s.desired_state;
    pid = s.pid;
    process_group_id = s.process_group_id;
    exit_code = s.last_exit_code;
    uptime = uptime_of to_seconds s.start_time now;
    last_exit_kind = s.last_exit_kind;
    last_exit_signal = s.last_exit_signal;
    last_error = s.last_error;
    last_transition_at_unix_ms = s.last_transition_at_unix_ms;
  }
