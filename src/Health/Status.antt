-- ===== src/Health/Status.antt =====
-- apps/agent/include/agent/health/health_status.h, with the parsers of
-- apps/agent/src/service/service_registry.cpp for its enumerations.
use aegis_desk.Prelude.{
  ℕ, ◌≡◌, ◌↔◌, Bool, true, false, Option, none, some, ◌&&◌, ◌||◌, not, if◌then◌else◌, arith, ltb,
  ◌==◌, is_empty,
}
use aegis_desk.Prelude.Int.{ℤ, is_negative}
use aegis_desk.Prelude.Text.{Str, text, str_eq, str_eq_iff}
use aegis_desk.Service.Id.{is_valid_service_id}

pub data HealthCheckType : Type 0 where
  process http tcp command : HealthCheckType

pub data HealthState : Type 0 where
  healthy unhealthy unknown : HealthState

unfoldable pub health_check_type_to_string : HealthCheckType → Str
health_check_type_to_string process = text "process"
health_check_type_to_string http = text "http"
health_check_type_to_string tcp = text "tcp"
health_check_type_to_string command = text "command"

unfoldable pub health_state_to_string : HealthState → Str
health_state_to_string healthy = text "healthy"
health_state_to_string unhealthy = text "unhealthy"
health_state_to_string unknown = text "unknown"

unfoldable pub parse_health_check_type : Str → Option HealthCheckType
parse_health_check_type value =
    if str_eq value (text "process")
    then some process
    else if str_eq value (text "http")
    then some http
    else if str_eq value (text "tcp")
    then some tcp
    else if str_eq value (text "command")
    then some command
    else none

unfoldable pub parse_health_state : Str → Option HealthState
parse_health_state value =
    if str_eq value (text "healthy")
    then some healthy
    else if str_eq value (text "unhealthy")
    then some unhealthy
    else if str_eq value (text "unknown")
    then some unknown
    else none

pub record HealthCheckDefinition : Type 0 where
  pub enabled : Bool
  pub type : HealthCheckType
  pub interval_seconds : ℕ
  pub timeout_milliseconds : ℕ
  pub failure_threshold : ℕ
  pub endpoint : Str
  pub host : Str
  pub port : ℕ
  pub command_line : Str

has_target : HealthCheckType → HealthCheckDefinition → Bool
has_target process c = true
has_target http c = not (is_empty c.endpoint)
has_target tcp c = not (is_empty c.host) && ltb 0 c.port
has_target command c = not (is_empty c.command_line)

unfoldable pub health_check_is_structurally_valid : HealthCheckDefinition → Bool
unfolding has_target
health_check_is_structurally_valid c =
    if not c.enabled
    then true
    else if c.interval_seconds == 0 || ltb 3600 c.interval_seconds
    then false
    else if c.timeout_milliseconds == 0 || ltb 60000 c.timeout_milliseconds
    then false
    else if c.failure_threshold == 0 || ltb 100 c.failure_threshold
    then false
    else has_target c.type c

pub record HealthStatus : Type 0 where
  pub service_id : Str
  pub state : HealthState
  pub reason : Str
  pub consecutive_failures : ℕ
  pub checked_at_unix_ms : ℤ

explains : HealthState → Str → Bool
explains healthy reason = true
explains unhealthy reason = not (is_empty reason)
explains unknown reason = true

unfoldable pub health_status_is_structurally_valid : HealthStatus → Bool
unfolding explains
health_status_is_structurally_valid s =
    if not (is_valid_service_id s.service_id)
    then false
    else if is_negative s.checked_at_unix_ms
    then false
    else explains s.state s.reason

-- The parser accepts exactly what `ToString` prints.
pub parse_health_state_iff :
    (t : Str) (s : HealthState) → (parse_health_state t ≡ some s) ↔ (t ≡ health_state_to_string s)
unfolding parse_health_state health_state_to_string text
parse_health_state_iff t healthy = ground (
  arith,
  str_eq_iff t (text "healthy"),
  str_eq_iff t (text "unhealthy"),
  str_eq_iff t (text "unknown"),
)
parse_health_state_iff t unhealthy = ground (
  arith,
  str_eq_iff t (text "healthy"),
  str_eq_iff t (text "unhealthy"),
  str_eq_iff t (text "unknown"),
)
parse_health_state_iff t unknown = ground (
  arith,
  str_eq_iff t (text "healthy"),
  str_eq_iff t (text "unhealthy"),
  str_eq_iff t (text "unknown"),
)
