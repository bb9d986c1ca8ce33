-- ===== src/Alerts/Manager/Acknowledge.antt =====
-- The other methods of the alert manager: acknowledging, looking up and forgetting alerts.
use aegis_desk.Prelude.{
  ◌≤◌, ◌≡◌, refl, sym, ◌∙◌, Bool, true, none, List, [], ◌∷◌, ◌++◌, not, if◌then◌else◌, inl, inr,
  Option-cases, Bool-cases, arith, All, length, All-keep, keep,
}
use mathlib.Core.Option
use aegis_desk.Prelude.Text.{Str, str_eq, str_eq_iff, starts_with}
use aegis_desk.Prelude.Dict.{
  Dict, find, erase_if, Each, Each-find, Each-insert, Each-erase_if, find-insert_self,
}
use aegis_desk.Service.Id.{is_valid_service_id}
use aegis_desk.Alerts.Event.{AlertEvent, alert_event_is_structurally_valid}
use aegis_desk.Alerts.Key.{starts_with-make_rule_key}
use aegis_desk.Alerts.Manager.{
  AlertManager, acknowledged, make_alert_event_id, acknowledge_and_get, acknowledge_first,
  find_event, get_alert, forget_service, clear,
}
use aegis_desk.Alerts.Manager.Lifecycle.{IsActiveEntry}
use aegis_desk.Alerts.Manager.Valid.{IsResolvedEntry, IsValid}

acknowledged-valid :
    (a : AlertEvent)
    → alert_event_is_structurally_valid (acknowledged a) ≡ alert_event_is_structurally_valid a
unfolding alert_event_is_structurally_valid
acknowledged-valid a = refl

acknowledged-entry :
    {k : Str} (a : AlertEvent) → IsActiveEntry k a → IsActiveEntry k (acknowledged a)
acknowledged-entry a h = record {
  is_valid = rw (acknowledged-valid a) h.is_valid;
  is_active = h.is_active;
  has_key = h.has_key;
  id_of_rule = h.id_of_rule;
}

acknowledged-resolved : (a : AlertEvent) → IsResolvedEntry a → IsResolvedEntry (acknowledged a)
acknowledged-resolved a h = record {
  is_valid = rw (acknowledged-valid a) h.is_valid;
  is_resolved = h.is_resolved;
  id_of_rule = h.id_of_rule;
}

All-acknowledge_first :
    (id : Str) (xs : List AlertEvent)
    → All IsResolvedEntry xs
    → All IsResolvedEntry (acknowledge_first id xs)
unfolding acknowledge_first
All-acknowledge_first id [] h = tt
All-acknowledge_first id (a ∷ xs) h = elim (Bool-cases (str_eq a.id id)) [
  | inl hit ↦ rw hit (acknowledged-resolved a h.0, h.1)
  | inr miss ↦ rw miss (h.0, All-acknowledge_first id xs h.1)
]

length-acknowledge_first :
    (id : Str) (xs : List AlertEvent) → length (acknowledge_first id xs) ≡ length xs
unfolding acknowledge_first
length-acknowledge_first id [] = refl
length-acknowledge_first id (a ∷ xs) = ground (arith, length-acknowledge_first id xs)

-- Acknowledging keeps the manager valid.
pub acknowledge_and_get-IsValid :
    (m : AlertManager) (id : Str) → IsValid m → IsValid (acknowledge_and_get m id).0
unfolding acknowledge_and_get
acknowledge_and_get-IsValid m id v = elim (Option-cases (find id m.active_alerts)) [
  | inr (a, found) ↦
      rw (found, acknowledge_and_get)
        (record {
          has_capacity = v.has_capacity;
          actives =
              Each-insert IsActiveEntry id (acknowledged a) m.active_alerts v.actives
                (acknowledged-entry a (Each-find IsActiveEntry id m.active_alerts v.actives found));
          resolveds = v.resolveds;
          bounded = v.bounded;
        })
  | inl missing ↦ elim (Option-cases (find_event id m.recent_resolved_alerts)) [
    | inl absent ↦ rw (missing, acknowledge_and_get, absent) v
    | inr (a, found) ↦
        rw (missing, acknowledge_and_get, found)
          (record {
            has_capacity = v.has_capacity;
            actives = v.actives;
            resolveds = All-acknowledge_first id m.recent_resolved_alerts v.resolveds;
            bounded = rw (length-acknowledge_first id m.recent_resolved_alerts) v.bounded;
          })
  ]
]

find_event-acknowledge_first :
    (id : Str) (xs : List AlertEvent)
    → find_event id (acknowledge_first id xs) ≡ Option.map acknowledged (find_event id xs)
unfolding acknowledge_first find_event
find_event-acknowledge_first id [] = refl
find_event-acknowledge_first id (a ∷ xs) = ground (arith, find_event-acknowledge_first id xs)

-- Acknowledging returns the alert that `GetAlert` found, now acknowledged, and afterwards
-- `GetAlert` finds just that; of an unknown identifier both return nothing.
pub get_alert-acknowledge_and_get :
    (m : AlertManager) (id : Str)
    → ((acknowledge_and_get m id).1 ≡ Option.map acknowledged (get_alert m id))
      × (get_alert (acknowledge_and_get m id).0 id ≡ (acknowledge_and_get m id).1)
unfolding acknowledge_and_get get_alert
get_alert-acknowledge_and_get m id = elim (Option-cases (find id m.active_alerts)) [
  | inr (a, found) ↦
      rw (found, acknowledge_and_get, get_alert)
        (refl, rw (find-insert_self id (acknowledged a) m.active_alerts, get_alert))
  | inl missing ↦ elim (Option-cases (find_event id m.recent_resolved_alerts)) [
    | inl absent ↦ (ground arith, ground arith)
    | inr (a, found) ↦
        (ground arith, ground (arith, find_event-acknowledge_first id m.recent_resolved_alerts))
  ]
]

service_of :
    (k : Str) (a : AlertEvent) (service_id : Str)
    → is_valid_service_id service_id ≡ true
    → IsActiveEntry k a
    → str_eq a.service_id service_id ≡ starts_with k (service_id ++ (b':' ∷ []))
unfolding alert_event_is_structurally_valid
service_of k a service_id hs entry =
    let named : k ≡ make_alert_event_id a.service_id a.rule_id =
      sym entry.has_key ∙ entry.id_of_rule in
    let proper : is_valid_service_id a.service_id ≡ true = ground arith in
    rw named (sym (starts_with-make_rule_key a.service_id service_id a.rule_id proper hs))

find-erase_if :
    (p : AlertEvent → Bool) (q : Str → Bool) (k : Str) (m : Dict AlertEvent)
    → Each (λ j a. p a ≡ q j) m
    → find k (erase_if (λ _ a. p a) m) ≡ (if q k then none else find k m)
unfolding find erase_if
find-erase_if p q k [] h = ground arith
find-erase_if p q k ((j, a) ∷ m) h = ground (arith, str_eq_iff j k, find-erase_if p q k m h.1)

Each-service_of :
    (service_id : Str) (m : Dict AlertEvent)
    → is_valid_service_id service_id ≡ true
    → Each IsActiveEntry m
    → Each (λ k a. str_eq a.service_id service_id ≡ starts_with k (service_id ++ (b':' ∷ []))) m
Each-service_of service_id [] hs h = tt
Each-service_of service_id ((k, a) ∷ m) hs h =
    (service_of k a service_id hs h.0, Each-service_of service_id m hs h.1)

-- On a valid manager, with valid service identifiers, forgetting a service removes the active alerts
-- of all its rules and of no other service.
pub active_alerts-forget_service :
    (m : AlertManager) (forgotten service rule : Str)
    → IsValid m
    → is_valid_service_id forgotten ≡ true
    → is_valid_service_id service ≡ true
    → find (make_alert_event_id service rule) (forget_service m forgotten).active_alerts ≡ (
        if str_eq service forgotten
        then none
        else find (make_alert_event_id service rule) m.active_alerts)
unfolding forget_service
active_alerts-forget_service m forgotten service rule v hf hs =
    rw (← starts_with-make_rule_key service forgotten rule hs hf) (
      find-erase_if (λ a. str_eq a.service_id forgotten)
        (λ k. starts_with k (forgotten ++ (b':' ∷ []))) (make_alert_event_id service rule)
        m.active_alerts (Each-service_of forgotten m.active_alerts hf v.actives))

length-keep : (p : AlertEvent → Bool) (xs : List AlertEvent) → length (keep p xs) ≤ length xs
length-keep p [] = omega arith
length-keep p (x ∷ xs) = ground (arith, length-keep p xs)

-- Forgetting a service and clearing keep the manager valid.
pub forget_service-IsValid :
    (m : AlertManager) (id : Str) → IsValid m → IsValid (forget_service m id)
unfolding forget_service
forget_service-IsValid m id v = record {
  has_capacity = v.has_capacity;
  actives = Each-erase_if IsActiveEntry (λ _ a. str_eq a.service_id id) m.active_alerts v.actives;
  resolveds =
      All-keep IsResolvedEntry (λ a. not (str_eq a.service_id id)) m.recent_resolved_alerts
        v.resolveds;
  bounded =
      omega (
        arith,
        length-keep (λ a. not (str_eq a.service_id id)) m.recent_resolved_alerts,
        v.bounded,
      );
}

pub clear-IsValid : (m : AlertManager) → IsValid m → IsValid (clear m)
unfolding clear
clear-IsValid m v = record {
  has_capacity = v.has_capacity;
  actives = tt;
  resolveds = tt;
  bounded = omega arith;
}
