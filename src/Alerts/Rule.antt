-- ===== src/Alerts/Rule.antt =====
-- apps/agent/include/agent/alerts/alert_rule.h, with the parsers of
-- apps/agent/src/service/service_registry.cpp for its enumerations.
use aegis_desk.Prelude.{
  ℕ, Bool, true, false, Option, none, some, ◌&&◌, ◌||◌, not, if◌then◌else◌, ltb, ◌==◌, is_empty,
  length,
}
use aegis_desk.Prelude.Text.{Str, text, str_eq}
use aegis_desk.Double.{Doubles}
use aegis_desk.Health.Status.{HealthState}
use aegis_desk.Service.Id.{is_letter_or_digit, all_chars, is_valid_service_id}

pub data AlertMetric : Type 0 where
  cpu_percent rss_bytes thread_count fd_count health_state : AlertMetric

pub data AlertOperator : Type 0 where
  greater_than greater_than_or_equal less_than less_than_or_equal equal not_equal : AlertOperator

pub data AlertSeverity : Type 0 where
  info warning critical : AlertSeverity

unfoldable pub alert_metric_to_string : AlertMetric → Str
alert_metric_to_string cpu_percent = text "cpu_percent"
alert_metric_to_string rss_bytes = text "rss_bytes"
alert_metric_to_string thread_count = text "thread_count"
alert_metric_to_string fd_count = text "fd_count"
alert_metric_to_string health_state = text "health_state"

unfoldable pub alert_operator_to_string : AlertOperator → Str
alert_operator_to_string greater_than = text ">"
alert_operator_to_string greater_than_or_equal = text ">="
alert_operator_to_string less_than = text "<"
alert_operator_to_string less_than_or_equal = text "<="
alert_operator_to_string equal = text "=="
alert_operator_to_string not_equal = text "!="

unfoldable pub alert_severity_to_string : AlertSeverity → Str
alert_severity_to_string info = text "info"
alert_severity_to_string warning = text "warning"
alert_severity_to_string critical = text "critical"

unfoldable pub parse_alert_metric : Str → Option AlertMetric
parse_alert_metric value =
    if str_eq value (text "cpu_percent")
    then some cpu_percent
    else if str_eq value (text "rss_bytes")
    then some rss_bytes
    else if str_eq value (text "thread_count")
    then some thread_count
    else if str_eq value (text "fd_count")
    then some fd_count
    else if str_eq value (text "health_state")
    then some health_state
    else none

unfoldable pub parse_alert_operator : Str → Option AlertOperator
parse_alert_operator value =
    if str_eq value (text ">")
    then some greater_than
    else if str_eq value (text ">=")
    then some greater_than_or_equal
    else if str_eq value (text "<")
    then some less_than
    else if str_eq value (text "<=")
    then some less_than_or_equal
    else if str_eq value (text "==") || str_eq value (text "=")
    then some equal
    else if str_eq value (text "!=")
    then some not_equal
    else none

unfoldable pub parse_alert_severity : Str → Option AlertSeverity
parse_alert_severity value =
    if str_eq value (text "info")
    then some info
    else if str_eq value (text "warning")
    then some warning
    else if str_eq value (text "critical")
    then some critical
    else none

unfoldable pub is_valid_alert_rule_id : Str → Bool
unfolding all_chars
is_valid_alert_rule_id id =
    if is_empty id || ltb 64 (length id)
    then false
    else all_chars (λ ch. is_letter_or_digit ch || ch == b'_' || ch == b'-' || ch == b'.') id

pub record AlertRule (D : Type 0) : Type 0 where
  pub id : Str
  pub service_id : Str
  pub metric : AlertMetric
  pub op : AlertOperator
  pub numeric_threshold : Option D
  pub health_state_threshold : Option HealthState
  pub duration_seconds : ℕ
  pub severity : AlertSeverity
  pub enabled : Bool
  pub description : Str

abbrev pub is_health_state : AlertMetric → Bool
is_health_state health_state = true
is_health_state _ = false

abbrev pub is_cpu_percent : AlertMetric → Bool
is_cpu_percent cpu_percent = true
is_cpu_percent _ = false

abbrev pub is_equality : AlertOperator → Bool
is_equality equal = true
is_equality not_equal = true
is_equality _ = false

abbrev pub is_some {ℓ} : {A : Type ℓ} → Option A → Bool
is_some none = false
is_some (some a) = true

module _ {D : Type 0} ⦃d : Doubles D⦄ where
  in_range : AlertMetric → D → Bool
  in_range metric t =
      if not (d.is_finite t)
      then false
      else if is_cpu_percent metric
      then d.le (d.of_ℕ 0) t && d.le t (d.of_ℕ 100)
      else d.le (d.of_ℕ 0) t

  unfoldable pub rule_is_structurally_valid : AlertRule D → Bool
  unfolding in_range
  rule_is_structurally_valid r =
      if not (is_valid_alert_rule_id r.id)
      then false
      else if not (is_valid_service_id r.service_id)
      then false
      else if ltb 86400 r.duration_seconds
      then false
      else if is_health_state r.metric
      then (if not (is_some r.health_state_threshold)
          then false
          else if is_some r.numeric_threshold
          then false
          else is_equality r.op)
      else elim r.numeric_threshold [
        | none ↦ false
        | some t ↦ if is_some r.health_state_threshold then false else in_range r.metric t
      ]
