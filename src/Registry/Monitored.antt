-- ===== src/Registry/Monitored.antt =====
-- The registry (service_registry.cpp) under the monitor (health_monitor.cpp).
use aegis_desk.Prelude.{
  ◌≡◌, refl, ap, ◌∙◌, true, Option, List, [], ◌∷◌, arith, inl, inr, Option-cases,
}
use aegis_desk.Prelude.Int.{ℤ}
use aegis_desk.Prelude.Text.{Str, str_eq_refl, str_eq_iff}
use aegis_desk.Prelude.Dict.{Dict, find, Each, Each-find}
use aegis_desk.Double.{Doubles}
use aegis_desk.Service.Definition.{contains}
use aegis_desk.Metrics.Value.{ServiceMetrics}
use aegis_desk.Alerts.Event.{AlertEvent}
use aegis_desk.Alerts.Manager.{is_present}
use aegis_desk.Recovery.Supervision.{Supervision}
use aegis_desk.Monitor.{HealthMonitor, ids_of, check_once}
use aegis_desk.Monitor.Published.{check_once-publishes}
use aegis_desk.Registry.{ServiceRegistry, list_from, list_services, summary_of, monitored}
use aegis_desk.Registry.Loaded.{IsValid, IsEntry}

module _ {D S : Type 0} ⦃d : Doubles D⦄ (v : Supervision D S) where
  ids_of-list_from :
      (order : List Str) (m : Dict S)
      → Each (IsEntry v) m
      → ((id : Str) → contains id order ≡ true → is_present (find id m) ≡ true)
      → ids_of (list_from v m order) ≡ order
  unfolding list_from contains summary_of
  ids_of-list_from [] m h k = refl
  ids_of-list_from (id ∷ order) m h k =
      let rest = ids_of-list_from order m h (λ j found. k j (ground (arith, str_eq_iff id j))) in
      elim (Option-cases (find id m)) [
        | inl e ↦ absurd (ground (arith, k id, str_eq_refl id))
        | inr (s, e) ↦ let entry = Each-find (IsEntry v) id m h e in ground (arith, rest, entry)
      ]

  -- A valid registry lists its services in the order of the configuration, none left out.
  pub ids_of-list_services :
      (r : ServiceRegistry S) → IsValid v r → ids_of (list_services v r) ≡ r.service_order
  unfolding list_services
  ids_of-list_services r h =
      ids_of-list_from r.service_order r.supervisors h.entries
        (λ id found. ground (arith, h.listed id))

  -- A round of checks over a valid registry publishes the health of exactly the services of the
  -- configuration.
  pub check_once-covers :
      (get_latest : Str → Option (ServiceMetrics D)) (sort : List AlertEvent → List AlertEvent)
      (r : ServiceRegistry S) (m : HealthMonitor) (now : ℤ) (id : Str)
      → IsValid v r
      → is_present (find id (check_once v (monitored v) get_latest sort r m now).1.latest_health)
        ≡ contains id r.service_order
  check_once-covers get_latest sort r m now id h =
      check_once-publishes v (monitored v) get_latest sort r
        (λ j s found. (Each-find (IsEntry v) j r.supervisors h.entries found).0) m now id
      ∙ ap (contains id) (ids_of-list_services r h)
