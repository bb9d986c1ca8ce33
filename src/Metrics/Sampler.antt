-- ===== src/Metrics/Sampler.antt =====
-- apps/agent/src/metrics/metrics_sampler.cpp: the processor share of a process between two readings.
pub mod Baselines
use aegis_desk.Prelude.{
  ℕ, ◌-◌, Bool, true, false, Option, none, some, List, [], ◌∷◌, ◌++◌, ◌||◌, not, ltb, leb, ◌==◌,
  if◌then◌else◌,
}
use aegis_desk.Prelude.Int.{ℤ, pos, leb_ℤ, is_negative, eqb_ℤ}
use aegis_desk.Prelude.Text.{Str, text}
use aegis_desk.Prelude.Dict.{Dict, find, insert, erase, emplace}
use aegis_desk.Prelude.Result.{Result, ok, err, ◌>>=◌, ◌>>◌, guard}
use aegis_desk.Service.Id.{is_valid_service_id}
use aegis_desk.Metrics.Value.{ServiceMetrics}

-- platform_metrics_reader.h.
pub record ProcessRawStats : Type 0 where
  pub process_cpu_time_ns : ℕ
  pub process_identity : ℕ
  pub rss_bytes : ℕ
  pub thread_count : ℕ
  pub fd_count : ℕ

pub record SystemCapacitySnapshot : Type 0 where
  pub monotonic_time_ns : ℕ
  pub logical_cpu_count : ℕ

-- `long double`, as L, with the operations that the sampler and the reader of /proc
-- apply.
pub record LongDoubles (D L : Type 0) : Type 0 where
  pub is_finite : L → Bool
  pub lt : L → L → Bool
  pub le : L → L → Bool
  -- static_cast<long double> of an unsigned integer; also the literals 0.0L and 100.0L.
  pub of_ℕ : ℕ → L
  pub mul : L → L → L
  pub div : L → L → L
  -- static_cast<double>.
  pub to_double : L → D
  -- static_cast<std::uint64_t>.
  pub to_unsigned : L → ℕ

pub record CpuBaseline : Type 0 where
  pub pid : ℤ
  pub process_identity : ℕ
  pub process_cpu_time_ns : ℕ
  pub monotonic_time_ns : ℕ
  pub logical_cpu_count : ℕ

pub record MetricsSampler : Type 0 where
  pub baselines : Dict CpuBaseline

unfoldable pub baseline_of : ℤ → ProcessRawStats → SystemCapacitySnapshot → CpuBaseline
baseline_of pid stats capacity = record {
  pid = pid;
  process_identity = stats.process_identity;
  process_cpu_time_ns = stats.process_cpu_time_ns;
  monotonic_time_ns = capacity.monotonic_time_ns;
  logical_cpu_count = capacity.logical_cpu_count;
}

-- The four cases in which no share can be computed.
unfoldable pub is_unusable : CpuBaseline → CpuBaseline → Bool
is_unusable previous current =
    not (eqb_ℤ previous.pid current.pid)
    || not (previous.process_identity == current.process_identity)
    || not (previous.logical_cpu_count == current.logical_cpu_count)
    || ltb current.process_cpu_time_ns previous.process_cpu_time_ns
    || leb current.monotonic_time_ns previous.monotonic_time_ns

module _ {D L : Type 0} (f : LongDoubles D L) where
  unfoldable pub share_of : L → L → Option D
  share_of cpu_time capacity_time =
      let cpu_percent = f.div (f.mul cpu_time (f.of_ℕ 100)) capacity_time in
      if not (f.is_finite capacity_time) || f.le capacity_time (f.of_ℕ 0)
      then none
      else if not (f.is_finite cpu_percent)
          || f.lt cpu_percent (f.of_ℕ 0)
          || f.lt (f.of_ℕ 100) cpu_percent
      then none
      else some (f.to_double cpu_percent)

  -- Between usable baselines; the cases above exclude that a difference wraps around.
  unfoldable pub cpu_percent_between : CpuBaseline → CpuBaseline → Option D
  unfolding share_of
  cpu_percent_between previous current =
      share_of (f.of_ℕ (current.process_cpu_time_ns - previous.process_cpu_time_ns)) (
        f.mul (f.of_ℕ (current.monotonic_time_ns - previous.monotonic_time_ns))
          (f.of_ℕ current.logical_cpu_count))

  unfoldable pub cpu_percent_from : Option CpuBaseline → CpuBaseline → Option D
  unfolding is_unusable cpu_percent_between
  cpu_percent_from none current = none
  cpu_percent_from (some previous) current =
      if is_unusable previous current then none else cpu_percent_between previous current

  -- The tests at the start of `Sample`.
  unfoldable pub check_arguments : Str → ℤ → SystemCapacitySnapshot → ℤ → Result (Unit {0})
  check_arguments service_id pid capacity now = do
    guard (is_valid_service_id service_id) (text "invalid service_id: " ++ service_id)
    guard (not (leb_ℤ pid (pos 0))) (text "pid must be greater than zero")
    guard (not (is_negative now)) (text "collected_at_unix_ms must not be negative")
    guard (not (capacity.monotonic_time_ns == 0))
        (text "monotonic_time_ns must be greater than zero")
    guard (not (capacity.logical_cpu_count == 0))
        (text "logical_cpu_count must be greater than zero")

  unfoldable pub sample :
      MetricsSampler
      → Str
      → ℤ
      → ProcessRawStats
      → SystemCapacitySnapshot
      → ℤ
      → MetricsSampler × Result (ServiceMetrics D)
  unfolding check_arguments cpu_percent_from baseline_of
  sample s service_id pid stats capacity now = elim (check_arguments service_id pid capacity now) [
    | err e ↦ (s, err e)
    | ok _ ↦
        let current = baseline_of pid stats capacity in
        (
          record { baselines = insert service_id current s.baselines },
          ok (record {
            service_id = service_id;
            available = true;
            pid = pid;
            collected_at_unix_ms = now;
            cpu_percent = cpu_percent_from (find service_id s.baselines) current;
            rss_bytes = some stats.rss_bytes;
            thread_count = some stats.thread_count;
            fd_count = some stats.fd_count;
          }),
        )
  ]

unfoldable pub forget_service : MetricsSampler → Str → MetricsSampler
forget_service s id = record { baselines = erase id s.baselines }

unfoldable pub clear : MetricsSampler → MetricsSampler
clear s = record { baselines = [] }
