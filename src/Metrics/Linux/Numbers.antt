-- ===== src/Metrics/Linux/Numbers.antt =====
-- The conversions of apps/agent/src/metrics/linux_metrics_reader.cpp, on values of std::uint64_t.
use aegis_desk.Prelude.{
  ℕ, ◌+◌, ◌-◌, ◌*◌, ◌/◌, ◌%◌, ◌^◌, Option, none, some, ◌||◌, not, ltb, if◌then◌else◌,
}
use aegis_desk.Prelude.Int.{ℤ, pos, pos_part, leb_ℤ, ltb_ℤ, is_negative}
use aegis_desk.Prelude.Text.{text}
use aegis_desk.Prelude.Result.{Result, ok, err}
use aegis_desk.Metrics.Sampler.{LongDoubles}

-- `std::numeric_limits<std::uint64_t>::max()`.
abbrev pub uint64_max : ℕ
uint64_max = 18446744073709551615

abbrev pub nanoseconds_per_second : ℕ
nanoseconds_per_second = 1000000000

unfoldable pub add_without_overflow : ℕ → ℕ → Option ℕ
add_without_overflow left right =
    if ltb (uint64_max - right) left then none else some (left + right)

module _ {D L : Type 0} (f : LongDoubles D L) where
  unfoldable pub add_fraction : ℕ → L → Option ℕ
  add_fraction whole_nanoseconds fractional =
      if not (f.is_finite fractional)
        || f.lt fractional (f.of_ℕ 0)
        || f.lt (f.of_ℕ (uint64_max - whole_nanoseconds)) fractional
      then none
      else some (whole_nanoseconds + f.to_unsigned fractional)

  unfoldable pub convert_ticks_to_nanoseconds : ℕ → ℤ → Option ℕ
  unfolding add_fraction
  convert_ticks_to_nanoseconds ticks ticks_per_second =
      let per_second = pos_part ticks_per_second in
      let whole_seconds = ticks / per_second in
      let remaining_ticks = ticks % per_second in
      if leb_ℤ ticks_per_second (pos 0)
      then none
      else if ltb (uint64_max / nanoseconds_per_second) whole_seconds
      then none
      else add_fraction (whole_seconds * nanoseconds_per_second) (
          f.div (f.mul (f.of_ℕ remaining_ticks) (f.of_ℕ nanoseconds_per_second))
            (f.of_ℕ per_second))

unfoldable pub monotonic_nanoseconds : ℤ → ℤ → Result ℕ
monotonic_nanoseconds tv_sec tv_nsec =
    let seconds = pos_part tv_sec in
    let nanoseconds = pos_part tv_nsec in
    let whole_nanoseconds = seconds * nanoseconds_per_second in
    if is_negative tv_sec || is_negative tv_nsec
    then err (text "CLOCK_MONOTONIC returned a negative value")
    else if ltb (uint64_max / nanoseconds_per_second) seconds
    then err (text "CLOCK_MONOTONIC nanosecond conversion overflow")
    else if ltb (uint64_max - whole_nanoseconds) nanoseconds
    then err (text "CLOCK_MONOTONIC nanosecond conversion overflow")
    else ok (whole_nanoseconds + nanoseconds)

-- `clock_gettime` fails or gives seconds and nanoseconds.
unfoldable pub read_monotonic_time_nanoseconds : Option (ℤ × ℤ) → Result ℕ
unfolding monotonic_nanoseconds
read_monotonic_time_nanoseconds none = err (text "failed to read CLOCK_MONOTONIC")
read_monotonic_time_nanoseconds (some (tv_sec, tv_nsec)) = monotonic_nanoseconds tv_sec tv_nsec

-- `static_cast<std::uint32_t>` of the value of `sysconf`.
unfoldable pub read_logical_cpu_count : ℤ → Result ℕ
read_logical_cpu_count count =
    if leb_ℤ count (pos 0) || ltb_ℤ (pos 4294967295) count
    then err (text "failed to read online logical CPU count")
    else ok (pos_part count % 2 ^ 32)
