-- ===== src/Metrics/Linux/Bounds.antt =====
-- The values that the Linux reader (linux_metrics_reader.cpp) reports are those of std::uint64_t.
use aegis_desk.Prelude.{
  ℕ, ◌+◌, ◌-◌, ◌*◌, ◌/◌, ◌%◌, ◌^◌, ◌≡◌, ◌≤◌, ◌<◌, refl, Bool, true, false, Option, none, some, List,
  [], ◌∷◌, leb, drop, arith, inl, inr, Option-cases,
}
use aegis_desk.Prelude.Int.{ℤ, pos_part}
use aegis_desk.Prelude.Text.{Str, text}
use aegis_desk.Prelude.Deque.{get_elem?}
use aegis_desk.Prelude.Numeral.{from_chars, whole, whole-from_chars-lt}
use aegis_desk.Prelude.Result.{Result, ok, err, Result-cases}
use aegis_desk.Metrics.Sampler.{ProcessRawStats, SystemCapacitySnapshot, LongDoubles}
use aegis_desk.Metrics.Linux.Tokens.{parse_unsigned, split_whitespace, trim}
use aegis_desk.Metrics.Linux.Numbers.{
  uint64_max, nanoseconds_per_second, add_without_overflow, add_fraction,
  convert_ticks_to_nanoseconds, monotonic_nanoseconds, read_monotonic_time_nanoseconds,
  read_logical_cpu_count,
}
use aegis_desk.Metrics.Linux.Proc.{
  FileLines, Entries, ProcStatCpuFields, ProcStatusFields, StatusSeen, parse_field, first_number,
  after_last_parenthesis, parse_stat_line, read_proc_stat_cpu_fields, read_status_line,
  read_status_lines, finish_status, read_proc_status_fields, count_entries,
  count_open_file_descriptors, make_proc_path,
}
use aegis_desk.Metrics.Linux.{ProcDirectory, System, read_process_raw_stats, read_system_capacity}

-- Of the conversion to std::uint64_t: a value from 0 to n is cut to one of at most n, where n is
-- itself in range (a `long double` of 64 bits of precision represents it exactly).
abbrev pub Truncates : {D L : Type 0} → LongDoubles D L → Type 0
Truncates {L = L} f =
    (n : ℕ) (x : L)
    → n ≤ uint64_max
    → f.is_finite x ≡ true
    → f.lt x (f.of_ℕ 0) ≡ false
    → f.lt (f.of_ℕ n) x ≡ false
    → f.to_unsigned x ≤ n

le→leb : (n : ℕ) → n ≤ uint64_max → leb n uint64_max ≡ true
le→leb n h = ground arith

abbrev is_below : Option ℕ → Bool
is_below none = true
is_below (some n) = leb n uint64_max

parse_field-below : (fields : List Str) (i : ℕ) → is_below (parse_field fields i) ≡ true
unfolding parse_field parse_unsigned
parse_field-below fields i = elim (Option-cases (parse_field fields i)) [
  | inl e ↦ rw e refl
  | inr (n, e) ↦ rw e (le→leb n (parse_field-le n e))
]
  where
    parse_field-le : (n : ℕ) → parse_field fields i ≡ some n → n ≤ uint64_max
    parse_field-le n h = elim (Option-cases (get_elem? fields i)) [
      | inl e ↦ absurd (ground arith)
      | inr (field, e) ↦
          let read : whole (from_chars 64 field) ≡ some n = ground arith in
          omega (arith, whole-from_chars-lt 64 field n read)
    ]

add_without_overflow-le :
    (a b n : ℕ) → b ≤ uint64_max → add_without_overflow a b ≡ some n → n ≤ uint64_max
unfolding add_without_overflow
add_without_overflow-le a b n h e = ground arith

parse_stat_line-le :
    (path line : Str) (r : ProcStatCpuFields)
    → parse_stat_line path line ≡ ok r
    → (r.process_cpu_ticks ≤ uint64_max) × (r.start_time_ticks ≤ uint64_max)
unfolding parse_stat_line add_without_overflow
parse_stat_line-le path line r h = elim (Option-cases (after_last_parenthesis line)) [
  | inl e ↦ absurd (ground arith)
  | inr (after, e) ↦ ground (
    arith,
    parse_field-below (split_whitespace (trim after)) 11,
    parse_field-below (split_whitespace (trim after)) 12,
    parse_field-below (split_whitespace (trim after)) 19,
  )
]

count_entries-le :
    (entries : Entries) (path : Str) (count n : ℕ)
    → count ≤ uint64_max
    → count_entries path count entries ≡ ok n
    → n ≤ uint64_max
unfolding count_entries
count_entries-le Entries.no_more path count n h e = ground arith
count_entries-le (Entries.entry rest) path count n h e =
    ground (arith, count_entries-le rest path (count + 1) n)
count_entries-le (Entries.failing_entry what) path count n h e = ground arith

finish_status-le :
    (path : Str) (rss threads : Option ℕ) (r : ProcStatusFields)
    → is_below threads ≡ true
    → finish_status path rss threads ≡ ok r
    → (r.rss_bytes ≤ uint64_max) × (r.thread_count ≤ uint64_max)
unfolding finish_status
finish_status-le path none threads r h e = absurd (ground arith)
finish_status-le path (some rss) none r h e = absurd (ground arith)
finish_status-le path (some rss) (some threads) r h e = ground arith

read_status_line-below :
    (path : Str) (seen next : StatusSeen) (line : Str)
    → is_below seen.thread_count ≡ true
    → read_status_line path seen line ≡ ok next
    → is_below next.thread_count ≡ true
unfolding read_status_line first_number
read_status_line-below path seen next line h e =
    ground (arith, parse_field-below (split_whitespace (drop 8 line)) 0)

read_status_lines-below :
    (lines : List Str) (path : Str) (seen r : StatusSeen)
    → is_below seen.thread_count ≡ true
    → read_status_lines path seen lines ≡ ok r
    → is_below r.thread_count ≡ true
unfolding read_status_lines
read_status_lines-below [] path seen r h e = ground arith
read_status_lines-below (line ∷ lines) path seen r h e =
    elim (Result-cases (read_status_line path seen line)) [
      | inl (next, e') ↦
          read_status_lines-below lines path next r
            (read_status_line-below path seen next line h e') (ground arith)
      | inr (message, e') ↦ absurd (ground arith)
    ]

read_proc_stat-le :
    (pid : ℤ) (file : FileLines) (r : ProcStatCpuFields)
    → read_proc_stat_cpu_fields pid file ≡ ok r
    → (r.process_cpu_ticks ≤ uint64_max) × (r.start_time_ticks ≤ uint64_max)
unfolding read_proc_stat_cpu_fields
read_proc_stat-le pid none r h = absurd (ground arith)
read_proc_stat-le pid (some []) r h = absurd (ground arith)
read_proc_stat-le pid (some (line ∷ lines)) r h = parse_stat_line-le _ line r h

read_proc_status-le :
    (pid : ℤ) (file : FileLines) (r : ProcStatusFields)
    → read_proc_status_fields pid file ≡ ok r
    → (r.rss_bytes ≤ uint64_max) × (r.thread_count ≤ uint64_max)
unfolding read_proc_status_fields
read_proc_status-le pid none r h = absurd (ground arith)
read_proc_status-le pid (some lines) r h =
    let path = make_proc_path pid (text "status") in
    let start : StatusSeen = record { rss_kilobytes = none; thread_count = none } in
    elim (Result-cases (read_status_lines path start lines)) [
      | inr (message, e) ↦ absurd (ground arith)
      | inl (seen, e) ↦
          finish_status-le path seen.rss_kilobytes seen.thread_count r
            (read_status_lines-below lines path start seen refl e) (ground arith)
    ]

count_fds-le :
    (pid : ℤ) (fd : Result Entries) (n : ℕ)
    → count_open_file_descriptors pid fd ≡ ok n
    → n ≤ uint64_max
unfolding count_open_file_descriptors
count_fds-le pid (err what) n h = absurd (ground arith)
count_fds-le pid (ok entries) n h = count_entries-le entries _ 0 n (omega arith) h

module _ {D L : Type 0} (f : LongDoubles D L) where
  convert_ticks-le :
      (ticks : ℕ) (per_second : ℤ) (n : ℕ)
      → Truncates f
      → convert_ticks_to_nanoseconds f ticks per_second ≡ some n
      → n ≤ uint64_max
  unfolding convert_ticks_to_nanoseconds add_fraction
  convert_ticks-le ticks per_second n cut h =
      let t = pos_part per_second in
      let whole_nanoseconds = ticks / t * nanoseconds_per_second in
      let fractional =
        f.div (f.mul (f.of_ℕ (ticks % t)) (f.of_ℕ nanoseconds_per_second)) (f.of_ℕ t) in
      ground (arith, cut (uint64_max - whole_nanoseconds) fractional)

  -- Every value of a reading of a process is one of std::uint64_t, where the conversion from the
  -- fraction truncates: no sum or product has wrapped around.
  pub read_process_raw_stats-le :
      (system : System) (pid : ℤ) (proc : ProcDirectory) (r : ProcessRawStats)
      → Truncates f
      → read_process_raw_stats f system pid proc ≡ ok r
      → (r.process_cpu_time_ns ≤ uint64_max)
        × (r.process_identity ≤ uint64_max)
        × (r.rss_bytes ≤ uint64_max)
        × (r.thread_count ≤ uint64_max)
        × (r.fd_count ≤ uint64_max)
  unfolding read_process_raw_stats
  read_process_raw_stats-le system pid proc r cut h =
      elim (Result-cases (read_proc_stat_cpu_fields pid proc.stat)) [
        | inr (message, e) ↦ absurd (ground arith)
        | inl (stat_fields, e) ↦ elim (Result-cases (read_proc_status_fields pid proc.status)) [
          | inr (message, e') ↦ absurd (ground arith)
          | inl (status_fields, e') ↦
              let (_, identity) = read_proc_stat-le pid proc.stat stat_fields e in
              let (rss, threads) = read_proc_status-le pid proc.status status_fields e' in
              let ticks =
                convert_ticks-le stat_fields.process_cpu_ticks system.clock_ticks_per_second
                  r.process_cpu_time_ns cut (ground arith) in
              let fds = count_fds-le pid proc.fd r.fd_count (ground arith) in ground arith
        ]
      ]

-- A snapshot has a time in the range of std::uint64_t, and from one processor to as many as
-- std::uint32_t counts.
pub read_system_capacity-le :
    (system : System) (r : SystemCapacitySnapshot)
    → read_system_capacity system ≡ ok r
    → (r.monotonic_time_ns ≤ uint64_max)
      × (0 < r.logical_cpu_count)
      × (r.logical_cpu_count < 2 ^ 32)
unfolding read_system_capacity read_monotonic_time_nanoseconds monotonic_nanoseconds
    read_logical_cpu_count
read_system_capacity-le system r h = ground arith
