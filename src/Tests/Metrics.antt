-- ===== src/Tests/Metrics.antt =====
-- A service that runs as process 7, sampled twice; natural numbers stand for both kinds of double.
use aegis_desk.Prelude.{
  ℕ, ◌+◌, ◌-◌, ◌*◌, ◌/◌, ◌≡◌, ◌≤◌, ◌<◌, refl, Bool, true, false, Option, none, some, List, [], ◌∷◌,
  ◌++◌, All, ltb, leb, length, arith,
}
use aegis_desk.Prelude.Int.{pos}
use aegis_desk.Prelude.Text.{Str, text}
use aegis_desk.Prelude.Dict.{find}
use aegis_desk.Prelude.Decimal.{decimal}
use aegis_desk.Prelude.Deque.{get_elem?}
use aegis_desk.Prelude.Result.{Result, ok}
use aegis_desk.Service.Status.{ServiceSummary}
use aegis_desk.Metrics.Value.{ServiceMetrics}
use aegis_desk.Metrics.Sampler.{
  ProcessRawStats, SystemCapacitySnapshot, LongDoubles, CpuBaseline, MetricsSampler, sample,
}
use aegis_desk.Metrics.Sampler.Baselines.{cpu_percent-sample, KeepsPercent}
use aegis_desk.Metrics.Collector.{MetricsCollector, Reader, collect_once}
use aegis_desk.Metrics.Collector.Valid.{IsValid, collect_once-IsValid}
use aegis_desk.Metrics.Collector.Published.{collect_once-publishes, next_history}
use aegis_desk.Alerts.Manager.{is_present}
use aegis_desk.Service.Definition.{contains}
use aegis_desk.Monitor.{ids_of}
use aegis_desk.Metrics.Linux.{ProcDirectory, System, read_process_raw_stats}
use aegis_desk.Metrics.Linux.Tokens.{split_from, split_whitespace}
use aegis_desk.Metrics.Linux.Words.{split_from-ends}
use aegis_desk.Metrics.Linux.Numbers.{uint64_max}
use aegis_desk.Metrics.Linux.Proc.{Entries, entry, no_more, parse_stat_line}
use aegis_desk.Metrics.Linux.Bounds.{Truncates, read_process_raw_stats-le}
use aegis_desk.Metrics.Linux.Format.{led, all_fields, parse_stat_line-format}
use aegis_desk.Tests.Data
use aegis_desk.Tests.Data.{doubles_ℕ}

abbrev pub long_doubles : LongDoubles ℕ ℕ
long_doubles = record {
  is_finite = λ _. true;
  lt = ltb;
  le = leb;
  of_ℕ = λ n. n;
  mul = λ a b. a * b;
  div = λ a b. a / b;
  to_double = λ n. n;
  to_unsigned = λ n. n;
}

abbrev stats_at : ℕ → ProcessRawStats
stats_at cpu_time = record {
  process_cpu_time_ns = cpu_time;
  process_identity = 99;
  rss_bytes = 1000;
  thread_count = 4;
  fd_count = 9;
}

abbrev capacity_at : ℕ → SystemCapacitySnapshot
capacity_at time = record { monotonic_time_ns = time; logical_cpu_count = 2 }

abbrev sampler : MetricsSampler
sampler = record {
  baselines =
      (
        Data.web,
        record {
          pid = pos 7;
          process_identity = 99;
          process_cpu_time_ns = 100;
          monotonic_time_ns = 1000;
          logical_cpu_count = 2;
        },
      )
      ∷ [];
}

-- Half of one processor of two.
abbrev second_sample : MetricsSampler × Result (ServiceMetrics ℕ)
second_sample =
    sample long_doubles sampler Data.web (pos 7) (stats_at 600) (capacity_at 2000) (pos 5)

second_sample_has_a_share :
    second_sample.1 ≡ ok (record (Data.metrics_at 25) { collected_at_unix_ms = pos 5 })
unfolding sample aegis_desk.Service.Id.is_valid_service_id text find aegis_desk.Prelude.Text.str_eq
second_sample_has_a_share = refl

cpu_percent-sample_example :
    (b : CpuBaseline) × (find Data.web sampler.baselines ≡ some b)
    × (b.pid ≡ pos 7)
    × (b.process_identity ≡ 99)
    × (b.logical_cpu_count ≡ 2)
    × (b.monotonic_time_ns < 2000)
    × (b.process_cpu_time_ns ≤ 600)
cpu_percent-sample_example =
    cpu_percent-sample long_doubles sampler Data.web (pos 7) (stats_at 600) (capacity_at 2000)
      (pos 5) (record (Data.metrics_at 25) { collected_at_unix_ms = pos 5 }) 25
      second_sample_has_a_share refl

abbrev summary : ServiceSummary
summary = record { id = Data.web; display_name = text "Web"; auto_start = true; status = Data.up }

abbrev reader : Reader
reader = record {
  read_system_capacity = some (capacity_at 2000);
  read_process_raw_stats = λ _. some (stats_at 600);
}

abbrev pub collector : MetricsCollector ℕ
collector = record {
  options = record { interval = pos 1000; history_capacity = 3 };
  sampler = sampler;
  latest_metrics = [];
  metrics_history = [];
  has_metrics_reader = true;
  worker_is_joinable = false;
  stop_requested = false;
}

keeps_percent : KeepsPercent long_doubles
unfolding aegis_desk.Metrics.Value.cpu_in_range
keeps_percent x finite low high = ground arith

abbrev pub collector-IsValid : IsValid collector
collector-IsValid = record { latest = tt; histories = tt }

web_is_valid : All (λ s. aegis_desk.Service.Id.is_valid_service_id s.id ≡ true) (summary ∷ [])
unfolding aegis_desk.Service.Id.is_valid_service_id text
web_is_valid = (refl, tt)

collect_once-IsValid_example :
    IsValid (collect_once long_doubles collector (summary ∷ []) reader (pos 5))
collect_once-IsValid_example =
    collect_once-IsValid long_doubles collector (summary ∷ []) reader (pos 5) keeps_percent refl
      web_is_valid collector-IsValid

collect_once-publishes_example :
    (is_present (
        find Data.web
          (collect_once long_doubles collector (summary ∷ []) reader (pos 5)).latest_metrics)
      ≡ contains Data.web (ids_of (summary ∷ [])))
    × (find Data.web
          (collect_once long_doubles collector (summary ∷ []) reader (pos 5)).metrics_history
        ≡ next_history 3
            (find Data.web
              (collect_once long_doubles collector (summary ∷ []) reader (pos 5)).latest_metrics)
            (find Data.web collector.metrics_history))
collect_once-publishes_example =
    collect_once-publishes long_doubles collector (summary ∷ []) reader (pos 5) Data.web

-- The fields behind the name of a process, as /proc shows them.
abbrev stat_fields : List Str
stat_fields =
    text "S"
    ∷ text "1"
    ∷ text "7"
    ∷ text "7"
    ∷ text "0"
    ∷ text "-1"
    ∷ text "0"
    ∷ text "0"
    ∷ text "0"
    ∷ text "0"
    ∷ text "0"
    ∷ decimal 30
    ∷ decimal 12
    ∷ text "0"
    ∷ text "0"
    ∷ text "20"
    ∷ text "0"
    ∷ text "4"
    ∷ text "0"
    ∷ decimal 500
    ∷ []

abbrev stat_path : Str
stat_path = text "/proc/7/stat"

stat_fields_are_fields : all_fields stat_fields ≡ true
unfolding all_fields text decimal aegis_desk.Prelude.Decimal.digits_before
    aegis_desk.Service.Id.all_chars
stat_fields_are_fields = refl

parse_stat_line-format_example :
    parse_stat_line stat_path (text "7 (we) b" ++ (b')' ∷ led stat_fields))
    ≡ ok (record { process_cpu_ticks = 30 + 12; start_time_ticks = 500 })
unfolding get_elem?
parse_stat_line-format_example =
    parse_stat_line-format stat_path (text "7 (we) b") stat_fields 30 12 500 stat_fields_are_fields
      (omega arith) refl refl refl (omega arith) (omega arith)

split_from-ends_example : split_from 9 (text "a  b") ≡ split_whitespace (text "a  b")
unfolding text
split_from-ends_example = split_from-ends 9 (text "a  b") (omega arith)

abbrev system : System
system = record {
  monotonic_clock = some (pos 1, pos 5);
  processors_online = pos 2;
  clock_ticks_per_second = pos 100;
}

abbrev proc : ProcDirectory
proc = record {
  stat = some ((text "7 (we) b" ++ (b')' ∷ led stat_fields)) ∷ []);
  status = some (text "Name:\tweb" ∷ text "VmRSS:\t  100 kB" ∷ text "Threads:\t4" ∷ []);
  fd = ok (entry (entry no_more));
}

abbrev reading : ProcessRawStats
reading = record {
  process_cpu_time_ns = 420000000;
  process_identity = 500;
  rss_bytes = 102400;
  thread_count = 4;
  fd_count = 2;
}

proc_is_read : read_process_raw_stats long_doubles system (pos 7) proc ≡ ok reading
unfolding read_process_raw_stats aegis_desk.Metrics.Linux.Proc.read_proc_stat_cpu_fields text
    decimal split_whitespace aegis_desk.Metrics.Linux.Tokens.trim
    aegis_desk.Metrics.Linux.Tokens.parse_unsigned
    aegis_desk.Metrics.Linux.Numbers.add_without_overflow
    aegis_desk.Metrics.Linux.Proc.read_proc_status_fields aegis_desk.Prelude.Text.starts_with
    aegis_desk.Metrics.Linux.Proc.count_open_file_descriptors
    aegis_desk.Metrics.Linux.Numbers.convert_ticks_to_nanoseconds
proc_is_read = refl

truncates : Truncates long_doubles
truncates n x h finite low high = ground arith

read_process_raw_stats-le_example :
    (reading.process_cpu_time_ns ≤ uint64_max)
    × (reading.process_identity ≤ uint64_max)
    × (reading.rss_bytes ≤ uint64_max)
    × (reading.thread_count ≤ uint64_max)
    × (reading.fd_count ≤ uint64_max)
read_process_raw_stats-le_example =
    read_process_raw_stats-le long_doubles system (pos 7) proc reading truncates proc_is_read
