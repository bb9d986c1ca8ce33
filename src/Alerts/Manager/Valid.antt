-- ===== src/Alerts/Manager/Valid.antt =====
-- The invariant of the alert manager, and the life of an alert over whole batches.
use aegis_desk.Prelude.{
  ℕ, ◌≤◌, ◌≡◌, refl, true, none, some, List, [], ◌∷◌, ◌⊎◌, inl, inr, Option-cases, arith, All,
  length,
}
use aegis_desk.Prelude.Text.{Str}
use aegis_desk.Prelude.Dict.{find, insert, erase, Each, Each-find, Each-insert, Each-erase}
use aegis_desk.Prelude.Deque.{push_bounded, length-push_bounded, All-push_bounded}
use aegis_desk.Alerts.Event.{AlertEvent, resolved, alert_event_is_structurally_valid}
use aegis_desk.Alerts.Evaluation.{AlertEvaluation}
use aegis_desk.Alerts.Manager.{
  AlertManager, AlertManagerUpdate, no_update, make_alert_event_id, new_manager, new_event,
  refreshed, resolved_event, apply_evaluation, apply_from, apply_evaluations,
}
use aegis_desk.Alerts.Manager.Lifecycle.{
  IsActiveEntry, key_of, new_event-id, find-apply_evaluation, follow,
}

pub record IsResolvedEntry (a : AlertEvent) : Type 0 where
  pub is_valid : alert_event_is_structurally_valid a ≡ true
  pub is_resolved : a.state ≡ resolved
  pub id_of_rule : a.id ≡ make_alert_event_id a.service_id a.rule_id

pub record IsValid (m : AlertManager) : Type 0 where
  pub has_capacity : 1 ≤ m.recent_resolved_capacity
  pub actives : Each IsActiveEntry m.active_alerts
  pub resolveds : All IsResolvedEntry m.recent_resolved_alerts
  pub bounded : length m.recent_resolved_alerts ≤ m.recent_resolved_capacity

-- A new manager is valid, also with the capacity 0 in its options.
pub new_manager-IsValid : (capacity : ℕ) → IsValid (new_manager capacity)
unfolding new_manager
new_manager-IsValid capacity = record {
  has_capacity = ground arith;
  actives = tt;
  resolveds = tt;
  bounded = ground arith;
}

-- What a round of the loop can do to the manager.
data Change (m : AlertManager) (e : AlertEvaluation) (m' : AlertManager) : Type 0 where
  same : m' ≡ m → Change m e m'
  stored :
      (a : AlertEvent)
      → m' ≡ record m { active_alerts = insert (key_of e) a m.active_alerts }
      → IsActiveEntry (key_of e) a
      → Change m e m'
  dropped : m' ≡ record m { active_alerts = erase (key_of e) m.active_alerts } → Change m e m'
  moved :
      (a : AlertEvent)
      → m' ≡ record m {
        active_alerts = erase (key_of e) m.active_alerts;
        recent_resolved_alerts = push_bounded m.recent_resolved_capacity a m.recent_resolved_alerts;
      }
      → IsResolvedEntry a
      → Change m e m'

Change-IsValid :
    {m m' : AlertManager} {e : AlertEvaluation} → Change m e m' → IsValid m → IsValid m'
Change-IsValid (same q) v = rw q v
Change-IsValid {m} {m'} {e} (stored a q entry) v = rw q (record {
  has_capacity = v.has_capacity;
  actives = Each-insert IsActiveEntry (key_of e) a m.active_alerts v.actives entry;
  resolveds = v.resolveds;
  bounded = v.bounded;
})
Change-IsValid {m} {m'} {e} (dropped q) v = rw q (record {
  has_capacity = v.has_capacity;
  actives = Each-erase IsActiveEntry (key_of e) m.active_alerts v.actives;
  resolveds = v.resolveds;
  bounded = v.bounded;
})
Change-IsValid {m} {m'} {e} (moved a q entry) v = rw q (record {
  has_capacity = v.has_capacity;
  actives = Each-erase IsActiveEntry (key_of e) m.active_alerts v.actives;
  resolveds =
      All-push_bounded IsResolvedEntry m.recent_resolved_capacity a m.recent_resolved_alerts entry
        v.resolveds;
  bounded = length-push_bounded m.recent_resolved_capacity a m.recent_resolved_alerts;
})

new_event-entry :
    (e : AlertEvaluation)
    → alert_event_is_structurally_valid (new_event e) ≡ true
    → IsActiveEntry (key_of e) (new_event e)
unfolding new_event
new_event-entry e h = record { is_valid = h; is_active = refl; has_key = refl; id_of_rule = refl }

refreshed-entry :
    (key : Str) (a : AlertEvent) (e : AlertEvaluation)
    → IsActiveEntry key a
    → alert_event_is_structurally_valid (refreshed a e) ≡ true
    → IsActiveEntry key (refreshed a e)
unfolding refreshed
refreshed-entry key a e entry h = record {
  is_valid = h;
  is_active = refl;
  has_key = entry.has_key;
  id_of_rule = entry.id_of_rule;
}

resolved_event-entry :
    (key : Str) (a : AlertEvent) (e : AlertEvaluation)
    → IsActiveEntry key a
    → alert_event_is_structurally_valid (resolved_event a e) ≡ true
    → IsResolvedEntry (resolved_event a e)
unfolding resolved_event
resolved_event-entry key a e entry h = record {
  is_valid = h;
  is_resolved = refl;
  id_of_rule = entry.id_of_rule;
}

-- The branches of a round, for a rule without and with an active alert.
missing_cases :
    (m : AlertManager) (u : AlertManagerUpdate) (e : AlertEvaluation)
    → find (key_of e) m.active_alerts ≡ none
    → let m' = (apply_evaluation m u e).0 in
      (m' ≡ m)
      ⊎ ((alert_event_is_structurally_valid (new_event e) ≡ true)
          × (m'
              ≡ record m { active_alerts = insert (new_event e).id (new_event e) m.active_alerts }))
unfolding apply_evaluation
missing_cases m u e missing = ground arith

found_cases :
    (m : AlertManager) (u : AlertManagerUpdate) (e : AlertEvaluation) (a : AlertEvent)
    → find (key_of e) m.active_alerts ≡ some a
    → let m' = (apply_evaluation m u e).0 in
      (m' ≡ m)
      ⊎ ((alert_event_is_structurally_valid (refreshed a e) ≡ true)
          × (m' ≡ record m { active_alerts = insert (key_of e) (refreshed a e) m.active_alerts }))
      ⊎ (m' ≡ record m { active_alerts = erase (key_of e) m.active_alerts })
      ⊎ ((alert_event_is_structurally_valid (resolved_event a e) ≡ true)
          × (m' ≡ record m {
            active_alerts = erase (key_of e) m.active_alerts;
            recent_resolved_alerts =
                push_bounded m.recent_resolved_capacity
                  (resolved_event a e)
                  m.recent_resolved_alerts;
          }))
unfolding apply_evaluation
found_cases m u e a found = ground arith

apply_evaluation-Change :
    (m : AlertManager) (u : AlertManagerUpdate) (e : AlertEvaluation)
    → IsValid m
    → Change m e (apply_evaluation m u e).0
apply_evaluation-Change m u e v = elim (Option-cases (find (key_of e) m.active_alerts)) [
  | inl missing ↦ elim (missing_cases m u e missing) [
    | inl q ↦ same q
    | inr (h, q) ↦ stored (new_event e) (rw (← new_event-id e) q) (new_event-entry e h)
  ]
  | inr (a, found) ↦
      let entry = Each-find IsActiveEntry (key_of e) m.active_alerts v.actives found in
      elim (found_cases m u e a found) [
        | inl q ↦ same q
        | inr (inl (h, q)) ↦ stored (refreshed a e) q (refreshed-entry (key_of e) a e entry h)
        | inr (inr (inl q)) ↦ dropped q
        | inr (inr (inr (h, q))) ↦
            moved (resolved_event a e) q (resolved_event-entry (key_of e) a e entry h)
      ]
]

apply_from-IsValid :
    (m : AlertManager) (u : AlertManagerUpdate) (es : List AlertEvaluation)
    → IsValid m
    → IsValid (apply_from m u es).0
unfolding apply_from
apply_from-IsValid m u [] v = v
apply_from-IsValid m u (e ∷ es) v =
    apply_from-IsValid (apply_evaluation m u e).0 (apply_evaluation m u e).1 es
      (Change-IsValid (apply_evaluation-Change m u e v) v)

-- Every batch of evaluations, well formed or not, keeps the manager valid: active alerts are well
-- formed, active and stored under the identifier of their rule, resolved ones are well formed and
-- resolved, and their number stays within the capacity.
pub apply_evaluations-IsValid :
    (m : AlertManager) (es : List AlertEvaluation) → IsValid m → IsValid (apply_evaluations m es).0
unfolding apply_evaluations
apply_evaluations-IsValid m es v = apply_from-IsValid m no_update es v

follow-apply_from :
    (m : AlertManager) (u : AlertManagerUpdate) (es : List AlertEvaluation) (id : Str)
    → IsValid m
    → find id (apply_from m u es).0.active_alerts ≡ follow id (find id m.active_alerts) es
unfolding apply_from
follow-apply_from m u [] id v = refl
follow-apply_from m u (e ∷ es) id v = rw (← find-apply_evaluation m u e id v.actives) (
    follow-apply_from (apply_evaluation m u e).0 (apply_evaluation m u e).1 es id
      (Change-IsValid (apply_evaluation-Change m u e v) v))

-- On a valid manager, after a batch the active alert of each rule is what its life over the batch's
-- evaluations of that rule says, whatever the batch does to other rules.
pub find-apply_evaluations :
    (m : AlertManager) (es : List AlertEvaluation) (id : Str)
    → IsValid m
    → find id (apply_evaluations m es).0.active_alerts ≡ follow id (find id m.active_alerts) es
unfolding apply_evaluations
find-apply_evaluations m es id v = follow-apply_from m no_update es id v
