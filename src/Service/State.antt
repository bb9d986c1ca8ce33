-- ===== src/Service/State.antt =====
-- apps/agent/include/agent/service/desired_state.h, and the enumerations of process_supervisor.h.
use aegis_desk.Prelude.{◌≡◌, ◌↔◌, Bool, true, false, Option, none, some, if◌then◌else◌, arith}
use aegis_desk.Prelude.Text.{Str, text, str_eq, str_eq_iff}

pub data DesiredState : Type 0 where
  stopped running : DesiredState

unfoldable pub desired_state_to_string : DesiredState → Str
desired_state_to_string DesiredState.stopped = text "stopped"
desired_state_to_string DesiredState.running = text "running"

unfoldable pub parse_desired_state : Str → Option DesiredState
parse_desired_state t =
    if str_eq t (text "stopped")
    then some DesiredState.stopped
    else if str_eq t (text "running")
    then some DesiredState.running
    else none

abbrev pub is_desired_running : DesiredState → Bool
is_desired_running DesiredState.running = true
is_desired_running DesiredState.stopped = false

abbrev pub is_desired_stopped : DesiredState → Bool
is_desired_stopped DesiredState.stopped = true
is_desired_stopped DesiredState.running = false

pub data ServiceState : Type 0 where
  stopped starting running stopping exited failed : ServiceState

unfoldable pub service_state_to_string : ServiceState → Str
service_state_to_string ServiceState.stopped = text "Stopped"
service_state_to_string ServiceState.starting = text "Starting"
service_state_to_string ServiceState.running = text "Running"
service_state_to_string ServiceState.stopping = text "Stopping"
service_state_to_string ServiceState.exited = text "Exited"
service_state_to_string ServiceState.failed = text "Failed"

-- `state == ServiceState::k…`.
abbrev pub is_running : ServiceState → Bool
is_running ServiceState.running = true
is_running _ = false

abbrev pub is_starting : ServiceState → Bool
is_starting ServiceState.starting = true
is_starting _ = false

abbrev pub is_stopping : ServiceState → Bool
is_stopping ServiceState.stopping = true
is_stopping _ = false

abbrev pub is_stopped : ServiceState → Bool
is_stopped ServiceState.stopped = true
is_stopped _ = false

-- `ParseDesiredState` inverts `ToString`, and accepts nothing else.
pub parse_desired_state_iff :
    (t : Str) (d : DesiredState)
    → (parse_desired_state t ≡ some d) ↔ (t ≡ desired_state_to_string d)
unfolding parse_desired_state desired_state_to_string text
parse_desired_state_iff t DesiredState.stopped =
    ground (arith, str_eq_iff t (text "stopped"), str_eq_iff t (text "running"))
parse_desired_state_iff t DesiredState.running =
    ground (arith, str_eq_iff t (text "stopped"), str_eq_iff t (text "running"))
