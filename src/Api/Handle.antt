-- ===== src/Api/Handle.antt =====
-- `AgentApi::Handle` of apps/agent/src/api/agent_api.cpp.
pub mod Safety
pub mod Actions
use aegis_desk.Prelude.{
  ℕ, Bool, true, false, Option, none, some, List, [], ◌∷◌, ◌++◌, ◌||◌, ◌&&◌, not, if◌then◌else◌,
}
use aegis_desk.Prelude.Text.{Str, text, str_eq, starts_with}
use aegis_desk.Prelude.Dict.{find}
use aegis_desk.Double.{Doubles}
use aegis_desk.Service.Id.{is_valid_service_id}
use aegis_desk.LogReader.{LogFile}
use aegis_desk.Alerts.Listing.{Sort}
use aegis_desk.Registry.{Supervisors}
use aegis_desk.Api.Json.{HttpResponse, make_error_response, not_found, bad_request}
use aegis_desk.Api.Query.{
  path_only, ServiceRoute, parse_service_route, parse_tail_limit, parse_history_limit,
  parse_include_resolved, parse_alert_resolved_limit, parse_recovery_event_limit, ends_with,
  alert_path_prefix, acknowledged_alert_id,
}
use aegis_desk.Api.Responses.{
  Agent, make_method_not_allowed, make_service_list_response, make_status_response,
  make_logs_response, make_metrics_response, make_metrics_history_response, make_health_response,
  make_service_alerts_response, make_service_recovery_events_response, make_all_alerts_response,
  make_active_alerts_response, make_all_recovery_events_response, make_acknowledge_alert_response,
  make_action_response,
}

pub data Method : Type 0 where
  get post other : Method

pub record HttpRequest : Type 0 where
  pub method : Method
  pub target : Str

abbrev pub is_get : Method → Bool
is_get get = true
is_get post = false
is_get other = false

abbrev pub is_post : Method → Bool
is_post get = false
is_post post = true
is_post other = false

-- A route that is read with GET.
abbrev pub only_get : {D S : Type 0} → Agent D S → Method → HttpResponse → Agent D S × HttpResponse
only_get a method response =
    (a, if not (is_get method) then make_method_not_allowed (text "GET") else response)

module _ {D S : Type 0} ⦃d : Doubles D⦄ (v : Supervisors D S) (sort : Sort)
    (files : Str → LogFile) where
  -- The routes of a service that exists.
  unfoldable pub handle_service : Agent D S → HttpRequest → Str → S → Str → Agent D S × HttpResponse
  handle_service a request id s action =
      let w = v.supervision in
      let target = request.target in
      if str_eq action (text "status")
      then only_get a request.method (make_status_response w s)
      else if str_eq action (text "logs")
      then only_get a request.method (make_logs_response w files s (parse_tail_limit target))
      else if str_eq action (text "metrics/history")
      then only_get a request.method
          (make_metrics_history_response w a s (parse_history_limit target))
      else if str_eq action (text "metrics")
      then only_get a request.method (make_metrics_response w a s)
      else if str_eq action (text "health")
      then only_get a request.method (make_health_response w a s)
      else if str_eq action (text "alerts")
      then only_get a request.method
          (make_service_alerts_response w sort a s (parse_include_resolved target))
      else if str_eq action (text "recovery-events")
      then only_get a request.method
          (make_service_recovery_events_response w a s (parse_recovery_event_limit target))
      else if str_eq action (text "start")
          || str_eq action (text "stop")
          || str_eq action (text "restart")
      then (if not (is_post request.method)
          then (a, make_method_not_allowed (text "POST"))
          else make_action_response v a id s action)
      else (a, make_error_response not_found (text "not_found") (text "service action not found"))

  unfoldable pub find_and_handle :
      Agent D S → HttpRequest → Str → Option S → Str → Agent D S × HttpResponse
  unfolding handle_service
  find_and_handle a request id none action = (
    a,
    make_error_response not_found (text "service_not_found")
        (text "service does not exist: " ++ id),
  )
  find_and_handle a request id (some s) action = handle_service a request id s action

  unfoldable pub handle_route :
      Agent D S → HttpRequest → Option ServiceRoute → Agent D S × HttpResponse
  unfolding find_and_handle
  handle_route a request none =
      (a, make_error_response not_found (text "not_found") (text "route not found"))
  handle_route a request (some route) =
      if not (is_valid_service_id route.service_id)
      then (
        a,
        make_error_response bad_request (text "invalid_service_id")
            (text "service_id may contain only letters, digits, '_' and '-'"),
      )
      else find_and_handle a request route.service_id (find route.service_id a.registry.supervisors)
          route.action

  unfoldable pub handle : Agent D S → HttpRequest → Agent D S × HttpResponse
  unfolding handle_route
  handle a request =
      let path = path_only request.target in
      if str_eq path (text "/api/v1/alerts")
      then only_get a request.method (
          make_all_alerts_response sort a (parse_include_resolved request.target)
            (parse_alert_resolved_limit request.target))
      else if str_eq path (text "/api/v1/alerts/active")
      then only_get a request.method (make_active_alerts_response sort a)
      else if starts_with path alert_path_prefix && ends_with path (text "/ack")
      then (if not (is_post request.method)
          then (a, make_method_not_allowed (text "POST"))
          else make_acknowledge_alert_response a (acknowledged_alert_id path))
      else if str_eq path (text "/api/v1/recovery-events")
      then only_get a request.method
          (make_all_recovery_events_response a (parse_recovery_event_limit request.target))
      else if str_eq path (text "/api/v1/services")
      then only_get a request.method (make_service_list_response v.supervision a)
      else handle_route a request (parse_service_route path)
