-- ===== src/Api/Handle/Safety.antt =====
-- What requests to the interface (agent_api.cpp) cannot do.
use aegis_desk.Prelude.{
  ℕ, ◌≡◌, refl, Bool, true, false, some, List, [], ◌∷◌, ◌++◌, arith, inl, inr, Option-cases, All,
  drop, length, ◌-◌, All-drop,
}
use aegis_desk.Prelude.Text.{Str, text, str_eq_iff}
use aegis_desk.Prelude.Dict.{find, Each-find}
use aegis_desk.Double.{Doubles}
use aegis_desk.LogReader.{LogFile}
use aegis_desk.Alerts.Listing.{Sort}
use aegis_desk.Metrics.Value.{ServiceMetrics}
use aegis_desk.Metrics.Collector.{MetricsCollector, get_latest, get_history}
use aegis_desk.Metrics.Collector.Valid.{IsValid, IsFiled, IsHistory}
use aegis_desk.Metrics.Collector.Recent.{get_history-last, last_of}
use aegis_desk.Recovery.Supervision.{Supervision}
use aegis_desk.Registry.{Supervisors}
use aegis_desk.Api.Json.{Status, internal_server_error, make_json_response, make_error_response}
use aegis_desk.Api.Body.{metrics_fields}
use aegis_desk.Api.Responses.{
  Agent, make_metrics_response, make_metrics_history_response, latest_response, history_response,
  points_response, point_texts, is_foreign,
}
use aegis_desk.Api.Handle.{
  HttpRequest, is_post, handle, handle_route, find_and_handle, handle_service,
}

module _ {D S : Type 0} ⦃d : Doubles D⦄ (v : Supervisors D S) (sort : Sort)
    (files : Str → LogFile) where
  -- A request that is not a POST changes nothing: no supervisor, no alert, no metrics.
  pub handle-unchanged :
      (a : Agent D S) (request : HttpRequest)
      → is_post request.method ≡ false
      → (handle v sort files a request).0 ≡ a
  unfolding handle handle_route find_and_handle handle_service
  handle-unchanged a request h = ground arith

abbrev pub is_internal_error : Status → Bool
is_internal_error internal_server_error = true
is_internal_error _ = false

module _ {D S : Type 0} ⦃d : Doubles D⦄ (v : Supervision D S) where
  own_is_not_foreign : (id : Str) (m : ServiceMetrics D) → IsFiled id m → is_foreign v id m ≡ false
  unfolding is_foreign
  own_is_not_foreign id m h = ground (arith, str_eq_iff m.service_id id)

  point_texts-present :
      (history : List (ServiceMetrics D)) (id : Str)
      → All (IsFiled id) history
      → (texts : List Str) × (point_texts v id history ≡ some texts)
  unfolding point_texts
  point_texts-present [] id h = ([], refl)
  point_texts-present (m ∷ history) id h =
      let (texts, e) = point_texts-present history id h.1 in
      let own = own_is_not_foreign id m h.0 in
      ((text "{" ++ metrics_fields m) ∷ texts, rw (point_texts, own, e) refl)

  latest_response-served :
      (c : MetricsCollector D) (id : Str)
      → IsValid c
      → is_internal_error (latest_response v id (get_latest c id)).status ≡ false
  unfolding get_latest latest_response make_json_response make_error_response
  latest_response-served c id h = elim (Option-cases (find id c.latest_metrics)) [
    | inl e ↦ rw (get_latest, e) refl
    | inr (m, e) ↦
        let own = own_is_not_foreign id m (Each-find IsFiled id c.latest_metrics h.latest e) in
        rw (get_latest, e, own) refl
  ]

  history_response-served :
      (c : MetricsCollector D) (id : Str) (limit : ℕ)
      → IsValid c
      → is_internal_error (history_response v id (get_history c id limit)).status ≡ false
  unfolding history_response points_response make_json_response make_error_response last_of
  history_response-served c id limit h = elim (Option-cases (find id c.metrics_history)) [
    | inl e ↦ rw (get_history-last c id limit, e) refl
    | inr (history, e) ↦
        let (_, filed) =
          Each-find (IsHistory c.options.history_capacity) id c.metrics_history h.histories e in
        let last = drop (length history - limit) history in
        let (texts, found) =
          point_texts-present last id
            (All-drop (IsFiled id) (length history - limit) history filed) in
        rw (get_history-last c id limit, e, found) refl
  ]

  -- With a valid collector the metrics and the history of a service are never answered with an
  -- internal error: what is cached is well formed and the service's own.
  pub metrics_responses-AreServed :
      (a : Agent D S) (s : S) (limit : ℕ)
      → IsValid a.collector
      → (is_internal_error (make_metrics_response v a s).status ≡ false)
        × (is_internal_error (make_metrics_history_response v a s limit).status ≡ false)
  unfolding make_metrics_response make_metrics_history_response
  metrics_responses-AreServed a s limit h = (
    latest_response-served a.collector (v.definition s).id h,
    history_response-served a.collector (v.definition s).id limit h,
  )
