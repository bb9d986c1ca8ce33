-- ===== src/Monitor/Published.antt =====
-- Whose health a round of checks publishes (health_monitor.cpp).
use aegis_desk.Prelude.{◌≡◌, refl, Option, none, some, List, [], ◌∷◌, ◌||◌, arith}
use aegis_desk.Prelude.Int.{ℤ}
use aegis_desk.Prelude.Text.{Str, str_eq, str_eq_iff}
use aegis_desk.Prelude.Dict.{Dict, find, find-insert, emplace}
use aegis_desk.Double.{Doubles}
use aegis_desk.Service.Status.{ServiceSummary}
use aegis_desk.Service.Definition.{contains}
use aegis_desk.Metrics.Value.{ServiceMetrics}
use aegis_desk.Health.Status.{HealthStatus}
use aegis_desk.Alerts.Event.{AlertEvent}
use aegis_desk.Alerts.Manager.{is_present}
use aegis_desk.Recovery.Supervision.{Supervision}
use aegis_desk.Monitor.{
  HealthMonitor, Registry, Checked, ids_of, check_all, check_once, check_found,
}

present-emplace :
    (id j : Str) (status : HealthStatus) (m : Dict HealthStatus)
    → is_present (find j (emplace id status m)) ≡ (str_eq id j || is_present (find j m))
unfolding emplace
present-emplace id j status m = ground (arith, str_eq_iff id j, find-insert id j status m)

module _ {D S R : Type 0} ⦃d : Doubles D⦄ (v : Supervision D S) (g : Registry S R)
    (get_latest : Str → Option (ServiceMetrics D)) (sort : List AlertEvent → List AlertEvent)
    -- The registry finds a supervisor under the identifier of its definition.
    (r : R)
    (named : (id : Str) (s : S) → g.find_supervisor r id ≡ some s → (v.definition s).id ≡ id) where
  present-check_found :
      (j : Str) (c : Checked) (s : ServiceSummary) (now : ℤ) (supervisor : Option S)
      → ((t : S) → supervisor ≡ some t → (v.definition t).id ≡ s.id)
      → is_present (find j (check_found v g get_latest sort c s now supervisor).next_health)
        ≡ (str_eq s.id j || is_present (find j c.next_health))
  unfolding check_found
  present-check_found j c s now none h = present-emplace s.id j _ c.next_health
  present-check_found j c s now (some t) h =
      rw (← h t refl) (present-emplace (v.definition t).id j _ c.next_health)

  present-check_all :
      (services : List ServiceSummary) (j : Str) (now : ℤ) (c : Checked)
      → is_present (find j (check_all v g get_latest sort r now c services).next_health)
        ≡ (is_present (find j c.next_health) || contains j (ids_of services))
  unfolding check_all contains
  present-check_all [] j now c = ground arith
  present-check_all (s ∷ services) j now c = ground (
    arith,
    present-check_all services j now
        (check_found v g get_latest sort c s now (g.find_supervisor r s.id)),
    present-check_found j c s now (g.find_supervisor r s.id) (named s.id),
  )

  -- Where the registry finds a supervisor only under its own identifier: after a round of checks
  -- exactly the services that the registry listed have a published health status.
  pub check_once-publishes :
      (m : HealthMonitor) (now : ℤ) (j : Str)
      → is_present (find j (check_once v g get_latest sort r m now).1.latest_health)
        ≡ contains j (ids_of (g.list_services r))
  unfolding check_once find
  check_once-publishes m now j = present-check_all (g.list_services r) j now (record {
    checker = m.health_checker;
    evaluator = m.alert_evaluator;
    next_health = [];
    evaluations = [];
  })
