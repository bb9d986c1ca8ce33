-- ===== src/Metrics/Collector/Valid.antt =====
-- What a round of collection (metrics_collector.cpp) preserves.
use aegis_desk.Prelude.{
  ℕ, ◌≡◌, ◌≤◌, refl, true, false, Option, none, List, [], ◌∷◌, length, if◌then◌else◌, arith, inl,
  inr, Option-cases, Bool-cases, All,
}
use aegis_desk.Prelude.Int.{ℤ, negsuc, is_negative, ltb_ℤ}
use aegis_desk.Prelude.Text.{Str}
use aegis_desk.Prelude.Dict.{
  Dict, find, insert, Each, Each-find, Each-insert, Each-erase_if, Each-emplace,
}
use aegis_desk.Prelude.Deque.{push_bounded, length-push_bounded, All-push_bounded}
use aegis_desk.Prelude.Result.{ok, Result-cases}
use aegis_desk.Double.{Doubles}
use aegis_desk.Service.Id.{is_valid_service_id}
use aegis_desk.Service.Status.{ServiceSummary, has_running_process}
use aegis_desk.Metrics.Value.{
  ServiceMetrics, metrics_is_structurally_valid, cpu_in_range, has_any_metric_value,
}
use aegis_desk.Metrics.Sampler.{
  ProcessRawStats, SystemCapacitySnapshot, LongDoubles, MetricsSampler, sample, check_arguments,
}
use aegis_desk.Metrics.Sampler.Baselines.{KeepsPercent, sample-IsStructurallyValid}
use aegis_desk.Metrics.Collector.{
  MetricsCollector, Reader, Gathered, collect_service, collect_services, record_all, collect_once,
  history_or_new, make_unavailable_metrics, has_running_service,
}
use aegis_desk.Metrics.Collector.Published.{measured, collect_service-measured}

module _ {D : Type 0} ⦃d : Doubles D⦄ where
  -- Metrics that are filed under their service, and well formed.
  abbrev pub IsFiled : Str → ServiceMetrics D → Type 0
  IsFiled id x = (x.service_id ≡ id) × (metrics_is_structurally_valid x ≡ true)

  abbrev pub IsHistory : ℕ → Str → List (ServiceMetrics D) → Type 0
  IsHistory history_capacity id h = (length h ≤ history_capacity) × All (IsFiled id) h

  pub record IsValid (m : MetricsCollector D) : Type 0 where
    pub latest : Each IsFiled m.latest_metrics
    pub histories : Each (IsHistory m.options.history_capacity) m.metrics_history

  history_or_new-IsHistory :
      (history_capacity : ℕ) (id : Str) (h : Dict (List (ServiceMetrics D)))
      → Each (IsHistory history_capacity) h
      → IsHistory history_capacity id (history_or_new (find id h))
  history_or_new-IsHistory history_capacity id h k = elim (Option-cases (find id h)) [
    | inl e ↦ rw e (omega arith, tt)
    | inr (history, e) ↦ rw e (Each-find (IsHistory history_capacity) id h k e)
  ]

  record_all-IsHistory :
      (next : Dict (ServiceMetrics D)) (history_capacity : ℕ) (h : Dict (List (ServiceMetrics D)))
      → Each IsFiled next
      → Each (IsHistory history_capacity) h
      → Each (IsHistory history_capacity) (record_all history_capacity next h)
  unfolding record_all
  record_all-IsHistory [] history_capacity h n k = k
  record_all-IsHistory ((id, x) ∷ next) history_capacity h n k =
      let history = history_or_new (find id h) in
      let (_, filed) = history_or_new-IsHistory history_capacity id h k in
      record_all-IsHistory next history_capacity
        (insert id (push_bounded history_capacity x history) h) n.1
        (Each-insert (IsHistory history_capacity) id _ h k (
          length-push_bounded history_capacity x history,
          All-push_bounded (IsFiled id) history_capacity x history n.0 filed,
        ))

unavailable-IsFiled :
    (D : Type 0) ⦃d : Doubles D⦄ (id : Str) (pid now : ℤ)
    → is_valid_service_id id ≡ true
    → is_negative now ≡ false
    → ltb_ℤ pid (negsuc 0) ≡ false
    → IsFiled id (make_unavailable_metrics {D = D} id pid now)
unfolding metrics_is_structurally_valid make_unavailable_metrics cpu_in_range has_any_metric_value
unavailable-IsFiled D id pid now h k l = ground arith

module _ {D L : Type 0} ⦃d : Doubles D⦄ (f : LongDoubles D L) where
  sample-named :
      (s : MetricsSampler) (id : Str) (pid : ℤ) (stats : ProcessRawStats)
      (capacity : SystemCapacitySnapshot) (now : ℤ) (m : ServiceMetrics D)
      → (sample f s id pid stats capacity now).1 ≡ ok m
      → m.service_id ≡ id
  unfolding sample check_arguments
  sample-named s id pid stats capacity now m h = ground arith

  measured-IsFiled :
      (reader : Reader) (capacity : Option SystemCapacitySnapshot) (now : ℤ)
      (sampler : MetricsSampler) (s : ServiceSummary)
      → KeepsPercent f
      → is_valid_service_id s.id ≡ true
      → is_negative now ≡ false
      → IsFiled s.id (measured f reader capacity now sampler s)
  unfolding measured
  measured-IsFiled reader capacity now sampler s keeps h k =
      elim (Bool-cases (has_running_process s.status)) [
        | inr stopped ↦ rw stopped (unavailable-IsFiled D s.id (negsuc 0) now h k refl)
        | inl running ↦
            let missing = unavailable-IsFiled D s.id s.status.pid now h k (ground arith) in
            elim (Option-cases capacity) [
              | inl e ↦ rw (running, e) missing
              | inr (c, e) ↦ elim (Option-cases (reader.read_process_raw_stats s.status.pid)) [
                | inl e' ↦ rw (running, e, e') missing
                | inr (stats, e') ↦
                    elim (Result-cases (sample f sampler s.id s.status.pid stats c now).1) [
                      | inr (message, e'') ↦ rw (running, e, e', e'') missing
                      | inl (x, e'') ↦
                          rw (running, e, e', e'')
                            (
                              sample-named sampler s.id s.status.pid stats c now x e'',
                              sample-IsStructurallyValid f sampler s.id s.status.pid stats c now x
                                  keeps e'',
                            )
                    ]
              ]
            ]
      ]

  collect_services-IsFiled :
      (services : List ServiceSummary) (reader : Reader) (capacity : Option SystemCapacitySnapshot)
      (now : ℤ) (c : Gathered D)
      → KeepsPercent f
      → is_negative now ≡ false
      → All (λ s. is_valid_service_id s.id ≡ true) services
      → Each IsFiled c.next_metrics
      → Each IsFiled (collect_services f reader capacity now c services).next_metrics
  unfolding collect_services
  collect_services-IsFiled [] reader capacity now c keeps k h n = n
  collect_services-IsFiled (s ∷ services) reader capacity now c keeps k h n =
      collect_services-IsFiled services reader capacity now
        (collect_service f reader capacity now c s) keeps k h.1
        (rw (collect_service-measured f reader capacity now c s) (
          Each-emplace IsFiled s.id (measured f reader capacity now c.sampler s) c.next_metrics n
            (measured-IsFiled reader capacity now c.sampler s keeps h.0 k)))

  -- A round at a time that is not negative, over services with valid identifiers, keeps a valid
  -- collector valid: whatever the readers gave, every published or recorded value is well formed and
  -- filed under its service, and no history exceeds the capacity. The conversion to double keeps a
  -- percentage in range.
  pub collect_once-IsValid :
      (m : MetricsCollector D) (services : List ServiceSummary) (reader : Reader) (now : ℤ)
      → KeepsPercent f
      → is_negative now ≡ false
      → All (λ s. is_valid_service_id s.id ≡ true) services
      → IsValid m
      → IsValid (collect_once f m services reader now)
  unfolding collect_once
  collect_once-IsValid m services reader now keeps k h v =
      let capacity = if has_running_service services then reader.read_system_capacity else none in
      let c : Gathered D = record { sampler = m.sampler; next_metrics = [] } in
      let latest = collect_services-IsFiled services reader capacity now c keeps k h tt in
      record {
        latest = latest;
        histories = Each-erase_if (IsHistory m.options.history_capacity) _ _ (
            record_all-IsHistory _ m.options.history_capacity m.metrics_history latest v.histories);
      }
