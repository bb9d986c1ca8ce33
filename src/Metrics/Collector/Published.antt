-- ===== src/Metrics/Collector/Published.antt =====
-- What a round of collection (metrics_collector.cpp) publishes and records.
use aegis_desk.Prelude.{
  ℕ, ◌≡◌, refl, true, Option, none, some, List, [], ◌∷◌, ◌||◌, not, if◌then◌else◌, arith,
}
use aegis_desk.Prelude.Int.{ℤ, negsuc}
use aegis_desk.Prelude.Text.{Str, str_eq, str_eq_iff}
use aegis_desk.Prelude.Dict.{Dict, find, insert, emplace, find-insert, find-erase_if, keys}
use aegis_desk.Prelude.Deque.{push_bounded}
use aegis_desk.Prelude.Result.{ok, err}
use aegis_desk.Alerts.Manager.{is_present}
use aegis_desk.Service.Status.{ServiceSummary, has_running_process}
use aegis_desk.Service.Definition.{contains}
use aegis_desk.Service.Distinct.{are_distinct}
use aegis_desk.Metrics.Value.{ServiceMetrics}
use aegis_desk.Metrics.Sampler.{SystemCapacitySnapshot, LongDoubles, MetricsSampler, sample}
use aegis_desk.Metrics.Collector.{
  MetricsCollector, Reader, Gathered, unavailable, sampled, collect_service, collect_services,
  record_all, collect_once, history_or_new, read_and_sample, collect_running,
  make_unavailable_metrics, has_running_service,
}
use aegis_desk.Monitor.{ids_of}

module _ {V : Type 0} where
  present-emplace :
      (id j : Str) (x : V) (m : Dict V)
      → is_present (find j (emplace id x m)) ≡ (str_eq id j || is_present (find j m))
  unfolding emplace
  present-emplace id j x m = ground (arith, str_eq_iff id j, find-insert id j x m)

  contains-keys : (j : Str) (m : Dict V) → contains j (keys m) ≡ is_present (find j m)
  unfolding contains find
  contains-keys j [] = refl
  contains-keys j ((k, x) ∷ m) = ground (arith, contains-keys j m)

  distinct-insert :
      (id : Str) (x : V) (m : Dict V)
      → are_distinct (keys m) ≡ true
      → are_distinct (keys (insert id x m)) ≡ true
  unfolding insert are_distinct contains
  distinct-insert id x [] h = refl
  distinct-insert id x ((k, y) ∷ m) h = ground (
    arith,
    distinct-insert id x m,
    contains-keys k m,
    contains-keys k (insert id x m),
    find-insert id k x m,
    str_eq_iff k id,
    str_eq_iff id k,
  )

  distinct-emplace :
      (id : Str) (x : V) (m : Dict V)
      → are_distinct (keys m) ≡ true
      → are_distinct (keys (emplace id x m)) ≡ true
  unfolding emplace
  distinct-emplace id x m h = ground (arith, distinct-insert id x m h)

module _ {D L : Type 0} (f : LongDoubles D L) where
  -- What a round of the loop measures for a service.
  unfoldable pub measured :
      Reader
      → Option SystemCapacitySnapshot
      → ℤ
      → MetricsSampler
      → ServiceSummary
      → ServiceMetrics D
  measured reader capacity now sampler s =
      let missing = make_unavailable_metrics s.id s.status.pid now in
      if not (has_running_process s.status)
      then make_unavailable_metrics s.id (negsuc 0) now
      else elim capacity [
        | none ↦ missing
        | some c ↦ elim (reader.read_process_raw_stats s.status.pid) [
          | none ↦ missing
          | some stats ↦ elim (sample f sampler s.id s.status.pid stats c now).1 [
            | err e ↦ missing
            | ok metrics ↦ metrics
          ]
        ]
      ]

  pub collect_service-measured :
      (reader : Reader) (capacity : Option SystemCapacitySnapshot) (now : ℤ) (c : Gathered D)
      (s : ServiceSummary)
      → (collect_service f reader capacity now c s).next_metrics
        ≡ emplace s.id (measured reader capacity now c.sampler s) c.next_metrics
  unfolding collect_service collect_running read_and_sample unavailable sampled measured
  collect_service-measured reader capacity now c s = ground arith

  collect_services-present :
      (services : List ServiceSummary) (reader : Reader) (capacity : Option SystemCapacitySnapshot)
      (now : ℤ) (c : Gathered D) (j : Str)
      → is_present (find j (collect_services f reader capacity now c services).next_metrics)
        ≡ (is_present (find j c.next_metrics) || contains j (ids_of services))
  unfolding collect_services contains
  collect_services-present [] reader capacity now c j = ground arith
  collect_services-present (s ∷ services) reader capacity now c j = ground (
    arith,
    collect_services-present services reader capacity now
        (collect_service f reader capacity now c s) j,
    collect_service-measured reader capacity now c s,
    present-emplace s.id j (measured reader capacity now c.sampler s) c.next_metrics,
  )

  collect_services-distinct :
      (services : List ServiceSummary) (reader : Reader) (capacity : Option SystemCapacitySnapshot)
      (now : ℤ) (c : Gathered D)
      → are_distinct (keys c.next_metrics) ≡ true
      → are_distinct (keys (collect_services f reader capacity now c services).next_metrics) ≡ true
  unfolding collect_services
  collect_services-distinct [] reader capacity now c h = h
  collect_services-distinct (s ∷ services) reader capacity now c h =
      collect_services-distinct services reader capacity now
        (collect_service f reader capacity now c s)
        (rw (collect_service-measured reader capacity now c s)
          (distinct-emplace s.id (measured reader capacity now c.sampler s) c.next_metrics h))

module _ {D : Type 0} where
  -- The history of a service that has new metrics.
  unfoldable pub recorded :
      ℕ
      → Option (ServiceMetrics D)
      → Option (List (ServiceMetrics D))
      → Option (List (ServiceMetrics D))
  recorded history_capacity none h = h
  recorded history_capacity (some x) h = some (push_bounded history_capacity x (history_or_new h))

  find-record_all :
      (next : Dict (ServiceMetrics D)) (history_capacity : ℕ) (h : Dict (List (ServiceMetrics D)))
      (j : Str)
      → are_distinct (keys next) ≡ true
      → find j (record_all history_capacity next h)
        ≡ recorded history_capacity (find j next) (find j h)
  unfolding record_all find recorded are_distinct
  find-record_all [] history_capacity h j d = refl
  find-record_all ((id, x) ∷ next) history_capacity h j d =
      let history = push_bounded history_capacity x (history_or_new (find id h)) in
      ground (
        arith,
        find-record_all next history_capacity (insert id history h) j,
        find-insert id j history h,
        contains-keys id next,
        str_eq_iff id j,
      )

  -- The history of a service after a round that published these metrics of it, or none.
  unfoldable pub next_history :
      ℕ
      → Option (ServiceMetrics D)
      → Option (List (ServiceMetrics D))
      → Option (List (ServiceMetrics D))
  next_history history_capacity none h = none
  next_history history_capacity (some x) h =
      some (push_bounded history_capacity x (history_or_new h))

module _ {D L : Type 0} (f : LongDoubles D L) where
  -- A round publishes metrics of exactly the services that the registry lists; their histories gain
  -- these metrics, up to the capacity, and the histories of other services are gone.
  pub collect_once-publishes :
      (m : MetricsCollector D) (services : List ServiceSummary) (reader : Reader) (now : ℤ)
      (j : Str)
      → (is_present (find j (collect_once f m services reader now).latest_metrics)
          ≡ contains j (ids_of services))
        × (find j (collect_once f m services reader now).metrics_history
            ≡ next_history m.options.history_capacity
                (find j (collect_once f m services reader now).latest_metrics)
                (find j m.metrics_history))
  unfolding collect_once next_history find are_distinct recorded
  collect_once-publishes m services reader now j =
      let capacity = if has_running_service services then reader.read_system_capacity else none in
      let c : Gathered D = record { sampler = m.sampler; next_metrics = [] } in
      let next = (collect_services f reader capacity now c services).next_metrics in
      let unique = collect_services-distinct f services reader capacity now c refl in
      (
        collect_services-present f services reader capacity now c j,
        ground (
          arith,
          find-erase_if (λ id. not (is_present (find id next))) j
              (record_all m.options.history_capacity next m.metrics_history),
          find-record_all next m.options.history_capacity m.metrics_history j unique,
        ),
      )
