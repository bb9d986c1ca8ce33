-- ===== src/Alerts/Manager/Lifecycle.antt =====
-- What one evaluation does to one alert, without the validity tests of the code: on events that the
-- manager holds those tests come down to comparisons of times.
use aegis_desk.Prelude.{
  ◌≡◌, refl, true, Option, none, some, List, [], ◌∷◌, ◌&&◌, if◌then◌else◌, inl, inr, Option-cases,
  arith,
}
use aegis_desk.Prelude.Int.{leb_ℤ}
use aegis_desk.Prelude.Text.{Str, str_eq, str_eq_iff}
use aegis_desk.Prelude.Dict.{find, Each, Each-find, find-insert, find-erase}
use aegis_desk.Alerts.Event.{
  AlertEvent, active, alert_event_is_structurally_valid, is_valid_alert_event_id,
}
use aegis_desk.Alerts.Evaluation.{AlertEvaluation, evaluation_is_structurally_valid}
use aegis_desk.Alerts.Key.{make_rule_key-is_valid_alert_event_id}
use aegis_desk.Alerts.Manager.{
  AlertManager, AlertManagerUpdate, make_alert_event_id, new_event, refreshed, resolved_event,
  apply_evaluation,
}

-- An alert in the map of active alerts: well formed, active, under its own identifier.
pub record IsActiveEntry (key : Str) (a : AlertEvent) : Type 0 where
  pub is_valid : alert_event_is_structurally_valid a ≡ true
  pub is_active : a.state ≡ active
  pub has_key : a.id ≡ key
  pub id_of_rule : a.id ≡ make_alert_event_id a.service_id a.rule_id

evaluation_ids :
    (e : AlertEvaluation)
    → evaluation_is_structurally_valid e ≡ true
    → is_valid_alert_event_id (make_alert_event_id e.service_id e.rule_id) ≡ true
unfolding evaluation_is_structurally_valid
evaluation_ids e h =
    make_rule_key-is_valid_alert_event_id e.service_id e.rule_id (ground arith) (ground arith)

new_event-valid :
    (e : AlertEvaluation)
    → evaluation_is_structurally_valid e ≡ true
    → alert_event_is_structurally_valid (new_event e) ≡ true
unfolding alert_event_is_structurally_valid evaluation_is_structurally_valid new_event
new_event-valid e h = ground (arith, evaluation_ids e h)

refreshed-valid :
    (key : Str) (a : AlertEvent) (e : AlertEvaluation)
    → IsActiveEntry key a
    → evaluation_is_structurally_valid e ≡ true
    → alert_event_is_structurally_valid (refreshed a e)
      ≡ leb_ℤ a.first_triggered_at_unix_ms e.evaluated_at_unix_ms
unfolding alert_event_is_structurally_valid evaluation_is_structurally_valid refreshed
refreshed-valid key a e v h = ground arith

resolved_event-valid :
    (key : Str) (a : AlertEvent) (e : AlertEvaluation)
    → IsActiveEntry key a
    → evaluation_is_structurally_valid e ≡ true
    → alert_event_is_structurally_valid (resolved_event a e)
      ≡ leb_ℤ a.last_triggered_at_unix_ms e.evaluated_at_unix_ms
unfolding alert_event_is_structurally_valid evaluation_is_structurally_valid resolved_event
resolved_event-valid key a e v h = ground arith

-- The specification of an alert's life, for one well-formed evaluation of its rule.
abbrev pub next_alert : Option AlertEvent → AlertEvaluation → Option AlertEvent
next_alert none e = if e.firing then some (new_event e) else none
next_alert (some a) e =
    if e.firing && leb_ℤ a.first_triggered_at_unix_ms e.evaluated_at_unix_ms
    then some (refreshed a e)
    else none

abbrev pub key_of : AlertEvaluation → Str
key_of e = make_alert_event_id e.service_id e.rule_id

pub new_event-id : (e : AlertEvaluation) → (new_event e).id ≡ key_of e
unfolding new_event
new_event-id e = refl

-- An evaluation moves the alert of its own rule as specified and leaves every other alert alone; a
-- malformed evaluation moves none.
pub find-apply_evaluation :
    (m : AlertManager) (u : AlertManagerUpdate) (e : AlertEvaluation) (id : Str)
    → Each IsActiveEntry m.active_alerts
    → find id (apply_evaluation m u e).0.active_alerts ≡ (
        if evaluation_is_structurally_valid e && str_eq (key_of e) id
        then next_alert (find id m.active_alerts) e
        else find id m.active_alerts)
unfolding apply_evaluation
find-apply_evaluation m u e id h = elim (Option-cases (find (key_of e) m.active_alerts)) [
  | inl missing ↦ ground (
    arith,
    evaluation_ids e,
    str_eq_iff (key_of e) id,
    new_event-valid e,
    new_event-id e,
    find-insert (key_of e) id (new_event e) m.active_alerts,
  )
  | inr (a, found) ↦
      let entry = Each-find IsActiveEntry (key_of e) m.active_alerts h found in
      ground (
        arith,
        evaluation_ids e,
        str_eq_iff (key_of e) id,
        refreshed-valid (key_of e) a e entry,
        resolved_event-valid (key_of e) a e entry,
        find-insert (key_of e) id (refreshed a e) m.active_alerts,
        find-erase (key_of e) id m.active_alerts,
      )
]

-- The life of one alert over a sequence of evaluations, oldest first.
abbrev pub follow : Str → Option AlertEvent → List AlertEvaluation → Option AlertEvent
follow id a [] = a
follow id a (e ∷ es) =
    follow id
      (if evaluation_is_structurally_valid e && str_eq (key_of e) id then next_alert a e else a) es
