-- ===== src/Metrics/Sampler/Baselines.antt =====
-- What a sample (metrics_sampler.cpp) is made of.
use aegis_desk.Prelude.{
  ◌≡◌, ◌≤◌, ◌<◌, ◌-◌, true, false, Option, none, some, arith, inl, inr, Option-cases,
}
use aegis_desk.Prelude.Int.{ℤ, eq_of_parts}
use aegis_desk.Prelude.Text.{Str}
use aegis_desk.Prelude.Dict.{find}
use aegis_desk.Prelude.Result.{ok}
use aegis_desk.Double.{Doubles}
use aegis_desk.Metrics.Value.{ServiceMetrics, metrics_is_structurally_valid, cpu_in_range}
use aegis_desk.Metrics.Sampler.{
  ProcessRawStats, SystemCapacitySnapshot, LongDoubles, CpuBaseline, MetricsSampler, baseline_of,
  sample, cpu_percent_from, is_unusable, check_arguments, cpu_percent_between, share_of,
}

-- Of the conversion to double: a value from 0 to 100 stays in that range.
abbrev pub KeepsPercent : {D L : Type 0} → ⦃d : Doubles D⦄ → LongDoubles D L → Type 0
KeepsPercent {L = L} f =
    (x : L)
    → f.is_finite x ≡ true
    → f.lt x (f.of_ℕ 0) ≡ false
    → f.lt (f.of_ℕ 100) x ≡ false
    → cpu_in_range (some (f.to_double x)) ≡ true

module _ {D L : Type 0} ⦃d : Doubles D⦄ (f : LongDoubles D L) where
  cpu_percent_from-in_range :
      (o : Option CpuBaseline) (current : CpuBaseline)
      → KeepsPercent f
      → cpu_in_range (cpu_percent_from f o current) ≡ true
  unfolding cpu_percent_from cpu_percent_between share_of cpu_in_range
  cpu_percent_from-in_range none current h = ground arith
  cpu_percent_from-in_range (some previous) current h =
      let cpu_time = f.of_ℕ (current.process_cpu_time_ns - previous.process_cpu_time_ns) in
      let capacity_time =
        f.mul (f.of_ℕ (current.monotonic_time_ns - previous.monotonic_time_ns))
          (f.of_ℕ current.logical_cpu_count) in
      ground (arith, h (f.div (f.mul cpu_time (f.of_ℕ 100)) capacity_time))

  -- Every sample is well formed, where the conversion to double keeps a percentage in range.
  pub sample-IsStructurallyValid :
      (s : MetricsSampler) (id : Str) (pid : ℤ) (stats : ProcessRawStats)
      (capacity : SystemCapacitySnapshot) (now : ℤ) (m : ServiceMetrics D)
      → KeepsPercent f
      → (sample f s id pid stats capacity now).1 ≡ ok m
      → metrics_is_structurally_valid m ≡ true
  unfolding sample check_arguments metrics_is_structurally_valid
  sample-IsStructurallyValid s id pid stats capacity now m keeps h = ground (
    arith,
    cpu_percent_from-in_range (find id s.baselines) (baseline_of pid stats capacity) keeps,
  )

  -- A processor share is only reported where the service was sampled before, as the same process on
  -- as many processors, and where since then time has gone on and the process's time not back.
  pub cpu_percent-sample :
      (s : MetricsSampler) (id : Str) (pid : ℤ) (stats : ProcessRawStats)
      (capacity : SystemCapacitySnapshot) (now : ℤ) (m : ServiceMetrics D) (c : D)
      → (sample f s id pid stats capacity now).1 ≡ ok m
      → m.cpu_percent ≡ some c
      → (b : CpuBaseline) × (find id s.baselines ≡ some b)
        × (b.pid ≡ pid)
        × (b.process_identity ≡ stats.process_identity)
        × (b.logical_cpu_count ≡ capacity.logical_cpu_count)
        × (b.monotonic_time_ns < capacity.monotonic_time_ns)
        × (b.process_cpu_time_ns ≤ stats.process_cpu_time_ns)
  unfolding sample check_arguments cpu_percent_from is_unusable baseline_of
  cpu_percent-sample s id pid stats capacity now m c h e =
      elim (Option-cases (find id s.baselines)) [
        | inl missing ↦ absurd (ground arith)
        | inr (b, found) ↦ (
          b,
          found,
          ground (arith, eq_of_parts b.pid pid),
          ground arith,
          ground arith,
          ground arith,
          ground arith,
        )
      ]
