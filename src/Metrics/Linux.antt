-- ===== src/Metrics/Linux.antt =====
-- apps/agent/src/metrics/linux_metrics_reader.cpp. The files under /proc, the directory of open
-- descriptors and the system calls are parameters.
pub mod Tokens
pub mod Numbers
pub mod Proc
pub mod Words
pub mod Bounds
pub mod Format
use aegis_desk.Prelude.{ℕ, Option, none, some, List, [], ◌∷◌, ◌++◌, not, ◌+◌}
use aegis_desk.Prelude.Int.{ℤ, pos, leb_ℤ}
use aegis_desk.Prelude.Text.{Str, text}
use aegis_desk.Prelude.Result.{Result, ok, err, ◌>>=◌, ◌>>◌, guard, require}
use aegis_desk.Metrics.Sampler.{ProcessRawStats, SystemCapacitySnapshot, LongDoubles}
use aegis_desk.Metrics.Linux.Numbers.{
  convert_ticks_to_nanoseconds, read_monotonic_time_nanoseconds, read_logical_cpu_count,
}
use aegis_desk.Metrics.Linux.Proc.{
  FileLines, Entries, read_proc_stat_cpu_fields, read_proc_status_fields,
  count_open_file_descriptors,
}

-- What /proc shows of a process.
pub record ProcDirectory : Type 0 where
  pub stat : FileLines
  pub status : FileLines
  pub fd : Result Entries

-- The values of `clock_gettime` and of `sysconf`.
pub record System : Type 0 where
  pub monotonic_clock : Option (ℤ × ℤ)
  pub processors_online : ℤ
  pub clock_ticks_per_second : ℤ

module _ {D L : Type 0} (f : LongDoubles D L) where
  unfoldable pub read_process_raw_stats : System → ℤ → ProcDirectory → Result ProcessRawStats
  read_process_raw_stats system pid proc = do
    guard (not (leb_ℤ pid (pos 0))) (text "pid must be greater than zero")
    stat_fields ← read_proc_stat_cpu_fields pid proc.stat
    status_fields ← read_proc_status_fields pid proc.status
    fd_count ← count_open_file_descriptors pid proc.fd
    process_cpu_time_ns ←
        require
          (convert_ticks_to_nanoseconds f stat_fields.process_cpu_ticks
            system.clock_ticks_per_second)
          (text "failed to convert Linux CPU ticks to nanoseconds")
    ok (record {
      process_cpu_time_ns = process_cpu_time_ns;
      process_identity = stat_fields.start_time_ticks;
      rss_bytes = status_fields.rss_bytes;
      thread_count = status_fields.thread_count;
      fd_count = fd_count;
    })

unfoldable pub read_system_capacity : System → Result SystemCapacitySnapshot
read_system_capacity system = do
  monotonic_time_ns ← read_monotonic_time_nanoseconds system.monotonic_clock
  logical_cpu_count ← read_logical_cpu_count system.processors_online
  ok (record { monotonic_time_ns = monotonic_time_ns; logical_cpu_count = logical_cpu_count })
