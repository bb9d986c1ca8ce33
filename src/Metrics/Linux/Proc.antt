-- ===== src/Metrics/Linux/Proc.antt =====
-- The readers of /proc/<pid> in apps/agent/src/metrics/linux_metrics_reader.cpp.
use aegis_desk.Prelude.{
  ℕ, ◌+◌, ◌*◌, ◌/◌, Option, none, some, List, [], ◌∷◌, ◌++◌, not, ltb, ◌==◌, if◌then◌else◌,
  is_empty, length, drop,
}
use aegis_desk.Prelude.Int.{ℤ}
use aegis_desk.Prelude.Text.{Str, text, starts_with}
use aegis_desk.Prelude.Decimal.{decimal_ℤ}
use aegis_desk.Prelude.Deque.{get_elem?}
use aegis_desk.Prelude.Result.{Result, ok, err, ◌>>=◌, ◌>>◌, guard, require}
use aegis_desk.Metrics.Linux.Tokens.{trim, split_whitespace, parse_unsigned}
use aegis_desk.Metrics.Linux.Numbers.{uint64_max, add_without_overflow}

-- A file that cannot be opened, or its lines as `std::getline` reads them.
abbrev pub FileLines : Type 0
FileLines = Option (List Str)

unfoldable pub make_proc_path : ℤ → Str → Str
unfolding decimal_ℤ
make_proc_path pid file_name = text "/proc/" ++ decimal_ℤ pid ++ text "/" ++ file_name

pub record ProcStatCpuFields : Type 0 where
  pub process_cpu_ticks : ℕ
  pub start_time_ticks : ℕ

-- What follows the last `)`, which `rfind` finds.
unfoldable pub after_last_parenthesis : Str → Option Str
after_last_parenthesis [] = none
after_last_parenthesis (c ∷ s) =
    let rest = after_last_parenthesis s in
    elim rest [ some t ↦ some t | none ↦ if c == b')' then some s else none ]

-- `ParseUnsigned(fields[index], value)`, with no value where there is no such field.
unfoldable pub parse_field : List Str → ℕ → Option ℕ
unfolding get_elem?
parse_field fields index = elim (get_elem? fields index) [
  | none ↦ none
  | some field ↦ parse_unsigned 64 field
]

unfoldable pub parse_stat_line : Str → Str → Result ProcStatCpuFields
unfolding after_last_parenthesis parse_field
parse_stat_line path line = do
  after ←
      require (after_last_parenthesis line)
        (text "invalid format in " ++ path ++ text ": missing process name terminator")
  guard (not (is_empty after))
      (text "invalid format in " ++ path ++ text ": missing process name terminator")
  let fields = split_whitespace (trim after)
  guard (not (ltb (length fields) 20))
      (text "invalid format in " ++ path ++ text ": too few fields")
  utime ← require (parse_field fields 11) (text "invalid numeric CPU fields in " ++ path)
  stime ← require (parse_field fields 12) (text "invalid numeric CPU fields in " ++ path)
  start_time ← require (parse_field fields 19) (text "invalid numeric CPU fields in " ++ path)
  process_cpu_ticks ←
      require (add_without_overflow utime stime) (text "process CPU tick overflow in " ++ path)
  ok (record { process_cpu_ticks = process_cpu_ticks; start_time_ticks = start_time })

unfoldable pub read_proc_stat_cpu_fields : ℤ → FileLines → Result ProcStatCpuFields
unfolding parse_stat_line
read_proc_stat_cpu_fields pid none =
    err (text "failed to open " ++ make_proc_path pid (text "stat"))
read_proc_stat_cpu_fields pid (some []) =
    err (text "failed to read " ++ make_proc_path pid (text "stat"))
read_proc_stat_cpu_fields pid (some (line ∷ lines)) =
    parse_stat_line (make_proc_path pid (text "stat")) line

pub record ProcStatusFields : Type 0 where
  pub rss_bytes : ℕ
  pub thread_count : ℕ

-- The two values read so far, none where its flag is not set.
pub record StatusSeen : Type 0 where
  pub rss_kilobytes : Option ℕ
  pub thread_count : Option ℕ

-- `SplitWhitespace(view.substr(prefix.size()))`, and its first token as a number.
unfoldable pub first_number : Str → Option ℕ
unfolding parse_field
first_number rest = parse_field (split_whitespace rest) 0

unfoldable pub read_status_line : Str → StatusSeen → Str → Result StatusSeen
unfolding first_number
read_status_line path seen line =
    if starts_with line (text "VmRSS:")
    then (do
      rss_kilobytes ← require (first_number (drop 6 line)) (text "invalid VmRSS field in " ++ path)
      ok (record seen { rss_kilobytes = some rss_kilobytes }))
    else if starts_with line (text "Threads:")
    then (do
      thread_count ← require (first_number (drop 8 line)) (text "invalid Threads field in " ++ path)
      ok (record seen { thread_count = some thread_count }))
    else ok seen

unfoldable pub read_status_lines : Str → StatusSeen → List Str → Result StatusSeen
unfolding read_status_line
read_status_lines path seen [] = ok seen
read_status_lines path seen (line ∷ lines) = do
  next ← read_status_line path seen line
  read_status_lines path next lines

unfoldable pub finish_status : Str → Option ℕ → Option ℕ → Result ProcStatusFields
finish_status path none threads = err (text "missing VmRSS or Threads field in " ++ path)
finish_status path (some rss) none = err (text "missing VmRSS or Threads field in " ++ path)
finish_status path (some rss) (some threads) = do
  guard (not (ltb (uint64_max / 1024) rss)) (text "VmRSS byte conversion overflow in " ++ path)
  ok (record { rss_bytes = rss * 1024; thread_count = threads })

unfoldable pub read_proc_status_fields : ℤ → FileLines → Result ProcStatusFields
unfolding read_status_lines finish_status
read_proc_status_fields pid none =
    err (text "failed to open " ++ make_proc_path pid (text "status"))
read_proc_status_fields pid (some lines) = do
  let path = make_proc_path pid (text "status")
  seen ← read_status_lines path (record { rss_kilobytes = none; thread_count = none }) lines
  finish_status path seen.rss_kilobytes seen.thread_count

-- The entries that a directory iterator goes over: none is left, one is followed by the others, or
-- going on from one fails.
pub data Entries : Type 0 where
  no_more : Entries
  entry : Entries → Entries
  failing_entry : Str → Entries

unfoldable pub count_entries : Str → ℕ → Entries → Result ℕ
count_entries path count no_more = ok count
count_entries path count (entry rest) =
    let counted = count_entries path (count + 1) rest in
    if count == uint64_max then err (text "file descriptor count overflow in " ++ path) else counted
count_entries path count (failing_entry what) =
    if count == uint64_max
    then err (text "file descriptor count overflow in " ++ path)
    else err (text "failed to iterate " ++ path ++ text ": " ++ what)

unfoldable pub count_open_file_descriptors : ℤ → Result Entries → Result ℕ
unfolding count_entries
count_open_file_descriptors pid (err what) =
    err (text "failed to open " ++ make_proc_path pid (text "fd") ++ text ": " ++ what)
count_open_file_descriptors pid (ok entries) =
    count_entries (make_proc_path pid (text "fd")) 0 entries
