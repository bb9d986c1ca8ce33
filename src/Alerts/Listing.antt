-- ===== src/Alerts/Listing.antt =====
-- The listings of apps/agent/src/alerts/alert_manager.cpp that are sorted for display.
-- `std::ranges::sort` is a parameter.
pub mod Order
use aegis_desk.Prelude.{
  ℕ, Bool, true, false, List, [], ◌∷◌, ◌++◌, not, if◌then◌else◌, ltb, ◌==◌, keep,
}
use aegis_desk.Prelude.Int.{eqb_ℤ, ltb_ℤ}
use aegis_desk.Prelude.Text.{Str, str_eq, str_lt}
use aegis_desk.Prelude.Dict.{Dict}
use aegis_desk.Alerts.Rule.{AlertSeverity, info, warning, critical}
use aegis_desk.Alerts.Event.{AlertEvent, AlertEventState, active, resolved}
use aegis_desk.Alerts.Manager.{AlertManager}

unfoldable pub severity_rank : AlertSeverity → ℕ
severity_rank info = 1
severity_rank warning = 2
severity_rank critical = 3

abbrev pub is_active : AlertEventState → Bool
is_active active = true
is_active resolved = false

abbrev pub same_state : AlertEventState → AlertEventState → Bool
same_state active s = is_active s
same_state resolved s = not (is_active s)

-- The comparison of `SortAlertsForDisplay`.
unfoldable pub is_displayed_before : AlertEvent → AlertEvent → Bool
unfolding severity_rank
is_displayed_before left right =
    if not (severity_rank left.severity == severity_rank right.severity)
    then ltb (severity_rank right.severity) (severity_rank left.severity)
    else if not (same_state left.state right.state)
    then is_active left.state
    else if not (eqb_ℤ left.last_triggered_at_unix_ms right.last_triggered_at_unix_ms)
    then ltb_ℤ right.last_triggered_at_unix_ms left.last_triggered_at_unix_ms
    else if not (str_eq left.service_id right.service_id)
    then str_lt left.service_id right.service_id
    else str_lt left.rule_id right.rule_id

-- The active alerts, and those of a service, in the order of the map.
unfoldable pub active_alerts_in : Dict AlertEvent → List AlertEvent
active_alerts_in [] = []
active_alerts_in ((_, a) ∷ m) = a ∷ active_alerts_in m

unfoldable pub active_alerts_of : Str → Dict AlertEvent → List AlertEvent
active_alerts_of id [] = []
active_alerts_of id ((_, a) ∷ m) =
    let rest = active_alerts_of id m in if str_eq a.service_id id then a ∷ rest else rest

abbrev pub Sort : Type 0
Sort = (AlertEvent → AlertEvent → Bool) → List AlertEvent → List AlertEvent

module _ (sort : Sort) where
  unfoldable pub sort_alerts_for_display : List AlertEvent → List AlertEvent
  unfolding is_displayed_before
  sort_alerts_for_display alerts = sort is_displayed_before alerts

  unfoldable pub get_active_alerts : AlertManager → List AlertEvent
  unfolding sort_alerts_for_display active_alerts_in
  get_active_alerts m = sort_alerts_for_display (active_alerts_in m.active_alerts)

  unfoldable pub get_alerts_for_service : AlertManager → Str → Bool → List AlertEvent
  unfolding sort_alerts_for_display active_alerts_of
  get_alerts_for_service m id include_resolved =
      let resolved_ones = keep (λ e. str_eq e.service_id id) m.recent_resolved_alerts in
      sort_alerts_for_display
        (active_alerts_of id m.active_alerts ++ (if include_resolved then resolved_ones else []))
