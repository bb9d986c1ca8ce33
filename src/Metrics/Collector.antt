-- ===== src/Metrics/Collector.antt =====
-- apps/agent/src/metrics/metrics_collector.cpp.
pub mod Published
pub mod Valid
pub mod Recent
use aegis_desk.Prelude.{
  ℕ, zero, suc, ◌-◌, Bool, true, false, Option, none, some, List, [], ◌∷◌, ◌++◌, ◌||◌, ◌&&◌, not,
  ltb, ◌==◌, is_empty, length, drop, if◌then◌else◌,
}
use aegis_desk.Prelude.Int.{ℤ, pos, negsuc, leb_ℤ}
use aegis_desk.Prelude.Text.{Str, text}
use aegis_desk.Prelude.Dict.{Dict, find, insert, emplace, erase_if}
use aegis_desk.Prelude.Deque.{push_bounded, get_elem?}
use aegis_desk.Prelude.Result.{Result, ok, err, ◌>>=◌, ◌>>◌, guard}
use aegis_desk.Alerts.Manager.{is_present}
use aegis_desk.Service.Status.{ServiceSummary, has_running_process}
use aegis_desk.Metrics.Value.{ServiceMetrics}
use aegis_desk.Metrics.Sampler.{
  ProcessRawStats, SystemCapacitySnapshot, LongDoubles, MetricsSampler, sample, forget_service,
}

-- A PlatformMetricsReader during one round.
pub record Reader : Type 0 where
  pub read_system_capacity : Option SystemCapacitySnapshot
  pub read_process_raw_stats : ℤ → Option ProcessRawStats

pub record MetricsCollectorOptions : Type 0 where
  pub interval : ℤ
  pub history_capacity : ℕ

pub record MetricsCollector (D : Type 0) : Type 0 where
  pub options : MetricsCollectorOptions
  pub sampler : MetricsSampler
  pub latest_metrics : Dict (ServiceMetrics D)
  pub metrics_history : Dict (List (ServiceMetrics D))
  pub has_metrics_reader : Bool
  -- `worker_.joinable()`.
  pub worker_is_joinable : Bool
  pub stop_requested : Bool

unfoldable pub make_unavailable_metrics : {D : Type 0} → Str → ℤ → ℤ → ServiceMetrics D
make_unavailable_metrics service_id pid now = record {
  service_id = service_id;
  available = false;
  pid = pid;
  collected_at_unix_ms = now;
  cpu_percent = none;
  rss_bytes = none;
  thread_count = none;
  fd_count = none;
}

module _ {D : Type 0} where
  -- `Start`; `thread` is what the constructor of the thread gives, the text of its exception if any.
  unfoldable pub start :
      MetricsCollector D → Result (Unit {0}) → MetricsCollector D × Result (Unit {0})
  start m thread =
      if leb_ℤ m.options.interval (pos 0)
      then (m, err (text "metrics collection interval must be greater than zero"))
      else if m.options.history_capacity == 0
      then (m, err (text "metrics history capacity must be greater than zero"))
      else if not m.has_metrics_reader
      then (m, err (text "platform metrics reader is not available"))
      else if m.worker_is_joinable
      then (m, err (text "metrics collector is already running"))
      else elim thread [
        | ok _ ↦ (record m { stop_requested = false; worker_is_joinable = true }, ok tt)
        | err what ↦ (
          record m { stop_requested = false },
          err (text "failed to start metrics collector: " ++ what),
        )
      ]

  -- `Stop`, by another thread or by the worker itself, up to the join.
  unfoldable pub stop : Bool → MetricsCollector D → MetricsCollector D
  stop by_worker m =
      if not m.worker_is_joinable
      then record m { stop_requested = true }
      else if by_worker
      then record m { stop_requested = true }
      else record m { stop_requested = true; worker_is_joinable = false }

  unfoldable pub is_running : MetricsCollector D → Bool
  is_running m = m.worker_is_joinable && not m.stop_requested

  unfoldable pub get_latest : MetricsCollector D → Str → Option (ServiceMetrics D)
  get_latest m service_id = find service_id m.latest_metrics

  -- `for (; index < index + rounds; ++index) result.push_back(history[index]);`
  unfoldable pub copy_from : List (ServiceMetrics D) → ℕ → ℕ → List (ServiceMetrics D)
  unfolding get_elem?
  copy_from history zero index = []
  copy_from history (suc rounds) index =
      let rest = copy_from history rounds (suc index) in
      elim (get_elem? history index) [ none ↦ [] | some m ↦ m ∷ rest ]

  unfoldable pub last_entries : ℕ → List (ServiceMetrics D) → List (ServiceMetrics D)
  unfolding copy_from
  last_entries limit history =
      let start_index = if ltb limit (length history) then length history - limit else 0 in
      if limit == 0 || is_empty history
      then []
      else copy_from history (length history - start_index) start_index

  unfoldable pub get_history : MetricsCollector D → Str → ℕ → Option (List (ServiceMetrics D))
  unfolding last_entries
  get_history m service_id limit = elim (find service_id m.metrics_history) [
    | none ↦ none
    | some history ↦ some (last_entries limit history)
  ]

-- What the loop over the services has gathered.
pub record Gathered (D : Type 0) : Type 0 where
  pub sampler : MetricsSampler
  pub next_metrics : Dict (ServiceMetrics D)

unfoldable pub has_running_service : List ServiceSummary → Bool
has_running_service [] = false
has_running_service (s ∷ services) = has_running_process s.status || has_running_service services

module _ {D L : Type 0} (f : LongDoubles D L) where
  -- The four ways to give up on a service.
  unfoldable pub unavailable : Gathered D → Str → ℤ → ℤ → Gathered D
  unfolding make_unavailable_metrics
  unavailable c id pid now = record {
    sampler = forget_service c.sampler id;
    next_metrics = emplace id (make_unavailable_metrics id pid now) c.next_metrics;
  }

  unfoldable pub sampled :
      Gathered D → Str → ℤ → ProcessRawStats → SystemCapacitySnapshot → ℤ → Gathered D
  unfolding unavailable
  sampled c id pid stats capacity now =
      let (sampler, result) = sample f c.sampler id pid stats capacity now in
      elim result [
        | err e ↦ unavailable (record c { sampler = sampler }) id pid now
        | ok metrics ↦ record {
          sampler = sampler;
          next_metrics = emplace id metrics c.next_metrics;
        }
      ]

  unfoldable pub read_and_sample :
      Gathered D → Str → ℤ → Option ProcessRawStats → SystemCapacitySnapshot → ℤ → Gathered D
  unfolding unavailable sampled
  read_and_sample c id pid none capacity now = unavailable c id pid now
  read_and_sample c id pid (some stats) capacity now = sampled c id pid stats capacity now

  unfoldable pub collect_running :
      Reader → Gathered D → Str → ℤ → Option SystemCapacitySnapshot → ℤ → Gathered D
  unfolding read_and_sample unavailable
  collect_running reader c id pid none now = unavailable c id pid now
  collect_running reader c id pid (some capacity) now =
      read_and_sample c id pid (reader.read_process_raw_stats pid) capacity now

  unfoldable pub collect_service :
      Reader → Option SystemCapacitySnapshot → ℤ → Gathered D → ServiceSummary → Gathered D
  unfolding collect_running unavailable
  collect_service reader capacity now c s =
      if has_running_process s.status
      then collect_running reader c s.id s.status.pid capacity now
      else unavailable c s.id (negsuc 0) now

  unfoldable pub collect_services :
      Reader → Option SystemCapacitySnapshot → ℤ → Gathered D → List ServiceSummary → Gathered D
  unfolding collect_service
  collect_services reader capacity now c [] = c
  collect_services reader capacity now c (s ∷ services) =
      collect_services reader capacity now (collect_service reader capacity now c s) services

module _ {D : Type 0} where
  -- `metrics_history_[service_id]`, which makes an empty history where there is none.
  abbrev pub history_or_new : Option (List (ServiceMetrics D)) → List (ServiceMetrics D)
  history_or_new none = []
  history_or_new (some history) = history

  unfoldable pub record_all :
      ℕ → Dict (ServiceMetrics D) → Dict (List (ServiceMetrics D)) → Dict (List (ServiceMetrics D))
  record_all history_capacity [] h = h
  record_all history_capacity ((id, metrics) ∷ next) h =
      record_all history_capacity next
        (insert id (push_bounded history_capacity metrics (history_or_new (find id h))) h)

module _ {D L : Type 0} (f : LongDoubles D L) where
  -- `CollectOnce`, on the services of the registry at a time of `NowUnixTimeMilliseconds`.
  unfoldable pub collect_once :
      MetricsCollector D → List ServiceSummary → Reader → ℤ → MetricsCollector D
  unfolding collect_services record_all has_running_service
  collect_once m services reader now =
      let capacity = if has_running_service services then reader.read_system_capacity else none in
      let c =
        collect_services f reader capacity now (record { sampler = m.sampler; next_metrics = [] })
          services in
      record m {
        sampler = c.sampler;
        latest_metrics = c.next_metrics;
        metrics_history =
            erase_if (λ id _. not (is_present (find id c.next_metrics)))
              (record_all m.options.history_capacity c.next_metrics m.metrics_history);
      }
