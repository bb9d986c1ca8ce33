-- ===== src/Api/Responses.antt =====
-- The responses that apps/agent/src/api/agent_api.cpp makes of the agent's state.
use aegis_desk.Prelude.{
  ℕ, Bool, Option, none, some, List, [], ◌∷◌, ◌++◌, ◌||◌, not, if◌then◌else◌, is_empty,
}
use aegis_desk.Prelude.Text.{Str, text, str_eq}
use aegis_desk.Prelude.Dict.{find, insert}
use aegis_desk.Double.{Doubles}
use aegis_desk.Service.Status.{ServiceSummary}
use aegis_desk.Service.Definition.{ServiceDefinition}
use aegis_desk.LogReader.{LogFile, read_last_lines}
use aegis_desk.Metrics.Value.{ServiceMetrics, metrics_is_structurally_valid}
use aegis_desk.Metrics.Collector.{MetricsCollector, get_latest, get_history}
use aegis_desk.Health.Status.{HealthStatus, health_status_is_structurally_valid}
use aegis_desk.Alerts.Event.{AlertEvent, is_valid_alert_event_id}
use aegis_desk.Alerts.Manager.{acknowledge_and_get, get_recent_resolved_alerts}
use aegis_desk.Alerts.Listing.{Sort, get_active_alerts, get_alerts_for_service}
use aegis_desk.Recovery.Manager.{get_recent_events, get_events_for_service}
use aegis_desk.Recovery.Supervision.{Supervision, Outcome}
use aegis_desk.Monitor.{HealthMonitor}
use aegis_desk.Registry.{Supervisors, ServiceRegistry, list_services}
use aegis_desk.Api.Json.{
  Status, HttpResponse, make_json_response, make_error_response, json_escape, bad_request,
  not_found, method_not_allowed, conflict, internal_server_error, service_unavailable,
}
use aegis_desk.Api.Json
use aegis_desk.Api.Body.{
  boolean, append_status_fields, append_health_status_json, append_alert_event_json,
  append_alert_array_json, append_recovery_event_array_json, metrics_fields, summary_json,
  join_commas,
}

-- What the interface refers to.
pub record Agent (D S : Type 0) : Type 0 where
  pub registry : ServiceRegistry S
  pub collector : MetricsCollector D
  pub monitor : HealthMonitor

unfoldable pub make_method_not_allowed : Str → HttpResponse
make_method_not_allowed allow =
    record (make_error_response method_not_allowed (text "method_not_allowed")
      (text "request method is not allowed for this route")) { allow = some allow }

abbrev pub ok_response : Str → HttpResponse
ok_response body = make_json_response Json.ok body

-- `{"<name>":"<id>",` and so on.
named : Str → Str → Str
named name id = text "{\"" ++ name ++ text "\":\"" ++ json_escape id ++ text "\","

summary_texts : List ServiceSummary → List Str
summary_texts [] = []
summary_texts (s ∷ services) = summary_json s ∷ summary_texts services

quoted_lines : List Str → List Str
quoted_lines [] = []
quoted_lines (line ∷ lines) = (text "\"" ++ json_escape line ++ text "\"") ∷ quoted_lines lines

module _ {D S : Type 0} ⦃d : Doubles D⦄ (v : Supervision D S) where
  unfoldable pub make_service_list_response : Agent D S → HttpResponse
  unfolding summary_texts
  make_service_list_response a = ok_response (
      text "{\"services\":["
      ++ join_commas (summary_texts (list_services v a.registry))
      ++ text "]}")

  unfoldable pub make_status_response : S → HttpResponse
  unfolding named
  make_status_response s =
      let definition = v.definition s in
      ok_response (
        named (text "id") definition.id
        ++ text "\"name\":\""
        ++ json_escape definition.id
        ++ text "\",\"display_name\":\""
        ++ json_escape definition.display_name
        ++ text "\",\"auto_start\":"
        ++ boolean definition.auto_start
        ++ text ","
        ++ append_status_fields (v.get_status s)
        ++ text "}")

  log_response : ServiceDefinition D → Option (List Str) × Str → HttpResponse
  unfolding named quoted_lines
  log_response definition (lines, error) =
      if not (is_empty error)
      then make_error_response internal_server_error (text "log_read_failed") error
      else ok_response (
          named (text "id") definition.id
          ++ text "\"name\":\""
          ++ json_escape definition.id
          ++ text "\",\"lines\":["
          ++ join_commas (quoted_lines (elim lines [ none ↦ [] | some ls ↦ ls ]))
          ++ text "]}")

  -- The content of the file at a path is a parameter.
  unfoldable pub make_logs_response : (Str → LogFile) → S → ℕ → HttpResponse
  unfolding log_response
  make_logs_response files s tail =
      let definition = v.definition s in
      log_response definition (read_last_lines (files definition.log_path) tail)

  unfoldable pub is_foreign : Str → ServiceMetrics D → Bool
  is_foreign id m = not (str_eq m.service_id id) || not (metrics_is_structurally_valid m)

  unfoldable pub latest_response : Str → Option (ServiceMetrics D) → HttpResponse
  unfolding is_foreign named
  latest_response id none =
      make_error_response service_unavailable (text "metrics_not_ready")
        (text "metrics collector has not produced a snapshot yet")
  latest_response id (some m) =
      if is_foreign id m
      then make_error_response internal_server_error (text "invalid_metrics_cache")
          (text "metrics collector returned an invalid cached snapshot")
      else ok_response (named (text "service_id") m.service_id ++ metrics_fields m)

  unfoldable pub make_metrics_response : Agent D S → S → HttpResponse
  unfolding latest_response
  make_metrics_response a s =
      let id = (v.definition s).id in latest_response id (get_latest a.collector id)

  -- The texts of the points, none where one of them is not a valid one of the service.
  unfoldable pub point_texts : Str → List (ServiceMetrics D) → Option (List Str)
  unfolding is_foreign
  point_texts id [] = some []
  point_texts id (m ∷ history) =
      let rest = point_texts id history in
      if is_foreign id m
      then none
      else elim rest [ none ↦ none | some texts ↦ some ((text "{" ++ metrics_fields m) ∷ texts) ]

  unfoldable pub points_response : Str → Option (List Str) → HttpResponse
  unfolding named
  points_response id none =
      make_error_response internal_server_error (text "invalid_metrics_cache")
        (text "metrics collector returned an invalid history point")
  points_response id (some texts) =
      ok_response
        (named (text "service_id") id ++ text "\"points\":[" ++ join_commas texts ++ text "]}")

  unfoldable pub history_response : Str → Option (List (ServiceMetrics D)) → HttpResponse
  unfolding points_response point_texts
  history_response id none =
      make_error_response service_unavailable (text "metrics_not_ready")
        (text "metrics collector has not produced a history snapshot yet")
  history_response id (some history) = points_response id (point_texts id history)

  unfoldable pub make_metrics_history_response : Agent D S → S → ℕ → HttpResponse
  unfolding history_response
  make_metrics_history_response a s limit =
      let id = (v.definition s).id in history_response id (get_history a.collector id limit)

  health_response : Str → Option HealthStatus → HttpResponse
  health_response id none =
      make_error_response service_unavailable (text "health_not_ready")
        (text "health monitor has not produced a status snapshot yet")
  health_response id (some h) =
      if not (health_status_is_structurally_valid h) || not (str_eq h.service_id id)
      then make_error_response internal_server_error (text "invalid_health_cache")
          (text "health monitor returned an invalid cached status")
      else ok_response (append_health_status_json h)

  unfoldable pub make_health_response : Agent D S → S → HttpResponse
  unfolding health_response
  make_health_response a s =
      let id = (v.definition s).id in health_response id (find id a.monitor.latest_health)

  unfoldable pub make_service_alerts_response : Sort → Agent D S → S → Bool → HttpResponse
  unfolding named
  make_service_alerts_response sort a s include_resolved =
      let id = (v.definition s).id in
      ok_response (
        named (text "service_id") id
        ++ text "\"include_resolved\":"
        ++ boolean include_resolved
        ++ text ",\"alerts\":"
        ++ append_alert_array_json
            (get_alerts_for_service sort a.monitor.alert_manager id include_resolved)
        ++ text "}")

  unfoldable pub make_service_recovery_events_response : Agent D S → S → ℕ → HttpResponse
  unfolding named
  make_service_recovery_events_response a s limit =
      let id = (v.definition s).id in
      ok_response (
        named (text "service_id") id
        ++ text "\"events\":"
        ++ append_recovery_event_array_json
            (get_events_for_service a.monitor.recovery_manager id limit)
        ++ text "}")

acknowledge_response : Str → Option AlertEvent → HttpResponse
acknowledge_response alert_id none =
    make_error_response not_found (text "alert_not_found")
      (text "alert does not exist: " ++ alert_id)
acknowledge_response alert_id (some alert) =
    ok_response
      (text "{\"acknowledged\":true,\"alert\":" ++ append_alert_event_json alert ++ text "}")

module _ {D S : Type 0} where
  unfoldable pub make_all_alerts_response : Sort → Agent D S → Bool → ℕ → HttpResponse
  make_all_alerts_response sort a include_resolved resolved_limit =
      let manager = a.monitor.alert_manager in
      let resolved =
        if include_resolved then get_recent_resolved_alerts manager resolved_limit else [] in
      ok_response (
        text "{\"include_resolved\":"
        ++ boolean include_resolved
        ++ text ",\"alerts\":"
        ++ append_alert_array_json (get_active_alerts sort manager ++ resolved)
        ++ text "}")

  unfoldable pub make_active_alerts_response : Sort → Agent D S → HttpResponse
  make_active_alerts_response sort a = ok_response (
      text "{\"alerts\":"
      ++ append_alert_array_json (get_active_alerts sort a.monitor.alert_manager)
      ++ text "}")

  unfoldable pub make_all_recovery_events_response : Agent D S → ℕ → HttpResponse
  make_all_recovery_events_response a limit = ok_response (
      text "{\"events\":"
      ++ append_recovery_event_array_json (get_recent_events a.monitor.recovery_manager limit)
      ++ text "}")

  unfoldable pub make_acknowledge_alert_response : Agent D S → Str → Agent D S × HttpResponse
  unfolding acknowledge_response
  make_acknowledge_alert_response a alert_id =
      let (manager, alert) = acknowledge_and_get a.monitor.alert_manager alert_id in
      if not (is_valid_alert_event_id alert_id)
      then (
        a,
        make_error_response bad_request (text "invalid_alert_id")
            (text "alert_id has an invalid format"),
      )
      else (
        record a { monitor = record a.monitor { alert_manager = manager } },
        acknowledge_response alert_id alert,
      )

module _ {D S : Type 0} ⦃d : Doubles D⦄ (v : Supervisors D S) where
  -- `Start`, `Stop` or `Restart`.
  unfoldable pub call_for : Str → S → Option (Outcome S)
  call_for action s =
      if str_eq action (text "start")
      then some (v.supervision.start s)
      else if str_eq action (text "stop")
      then some (v.stop s)
      else if str_eq action (text "restart")
      then some (v.supervision.restart s)
      else none

  -- On the supervisor that the registry has under the identifier.
  unfoldable pub make_action_response : Agent D S → Str → S → Str → Agent D S × HttpResponse
  unfolding call_for
  make_action_response a id s action = elim (call_for action s) [
    | none ↦ (
      a,
      make_error_response internal_server_error (text "unknown_action")
          (text "unsupported internal action"),
    )
    | some o ↦ (
      record a {
        registry = record a.registry {
          supervisors = insert id o.supervisor a.registry.supervisors;
        };
      },
      if o.succeeded
          then make_status_response v.supervision o.supervisor
          else make_error_response conflict (text "service_action_failed") o.error,
    )
  ]
