-- ===== src/Health/Checker/History.antt =====
-- The checker against its history: what the counters say about the checks made so far.
use Prim.Native.Nat.{min}
use aegis_desk.Prelude.{
  ℕ, suc, ◌+◌, ◌≤◌, ◌≡◌, true, List, [], ◌∷◌, if◌then◌else◌, arith, ltb, leb, ◌==◌, All,
}
use aegis_desk.Prelude.Int.{ℤ}
use aegis_desk.Prelude.Text.{Str, str_eq, str_eq_iff, str_eq_refl}
use aegis_desk.Prelude.Dict.{find, find-insert, find-erase}
use aegis_desk.Service.Status.{ServiceStatus, has_running_process}
use aegis_desk.Service.Definition.{ServiceDefinition}
use aegis_desk.Health.Status.{
  process, HealthState, healthy, unhealthy, unknown, health_check_is_structurally_valid,
}
use aegis_desk.Health.Checker.{HealthChecker, count_or_zero, uint32_max, check, check_process}

pub record Visit (D : Type 0) : Type 0 where
  pub definition : ServiceDefinition D
  pub status : ServiceStatus
  pub at : ℤ

-- A definition whose checks reach `CheckProcess`.
pub record IsProcessChecked {D : Type 0} (s : ServiceDefinition D) : Type 0 where
  pub is_enabled : s.health_check.enabled ≡ true
  pub is_valid : health_check_is_structurally_valid s.health_check ≡ true
  pub is_process : s.health_check.type ≡ process

abbrev pub failures : HealthChecker → Str → ℕ
failures c id = count_or_zero (find id c.consecutive_failures)

-- The verdict that a streak earns.
abbrev pub verdict : ℕ → ℕ → HealthState
verdict k threshold = if k == 0 then healthy else if leb threshold k then unhealthy else unknown

module _ {D : Type 0} where
  -- The checker after a history of checks, the newest first.
  pub after : List (Visit D) → HealthChecker
  after [] = record { consecutive_failures = [] }
  after (v ∷ older) = (check (after older) v.definition v.status v.at).0

  -- How many checks of a service in a row found no running process, up to the newest.
  abbrev pub streak : Str → List (Visit D) → ℕ
  streak id [] = 0
  streak id (v ∷ older) =
      let before = streak id older in
      if str_eq v.definition.id id
      then (if has_running_process v.status then 0 else suc before)
      else before

  check-process :
      (c : HealthChecker) (s : ServiceDefinition D) (status : ServiceStatus) (now : ℤ)
      → IsProcessChecked s
      → check c s status now ≡ check_process c s status now
  unfolding check
  check-process c s status now h = ground arith

  -- One check sets the counter of its own service and leaves the others.
  failures-check_process :
      (c : HealthChecker) (s : ServiceDefinition D) (status : ServiceStatus) (now : ℤ) (id : Str)
      → failures c s.id ≤ uint32_max
      → failures (check_process c s status now).0 id ≡ (
          if str_eq s.id id
          then (if has_running_process status then 0 else min (suc (failures c s.id)) uint32_max)
          else failures c id)
  unfolding check_process
  failures-check_process c s status now id fits = ground (
    arith,
    find-erase s.id id c.consecutive_failures,
    find-insert s.id id
        (if ltb (failures c s.id) uint32_max then failures c s.id + 1 else failures c s.id)
        c.consecutive_failures,
  )

  valid_threshold :
      (s : ServiceDefinition D)
      → IsProcessChecked s
      → (1 ≤ s.health_check.failure_threshold) × (s.health_check.failure_threshold ≤ 100)
  unfolding health_check_is_structurally_valid
  valid_threshold s h = ground arith

  -- After any history of process checks by valid definitions the counter of a service is the length
  -- of its streak of failed checks, held at the largest std::uint32_t.
  pub failures-after :
      (id : Str) (visits : List (Visit D))
      → All (λ v. IsProcessChecked v.definition) visits
      → failures (after visits) id ≡ min (streak id visits) uint32_max
  unfolding after find
  failures-after id [] h = omega arith
  failures-after id (v ∷ older) h = ground (
    arith,
    check-process (after older) v.definition v.status v.at h.0,
    failures-check_process (after older) v.definition v.status v.at id,
    failures-after id older h.1,
    failures-after v.definition.id older h.1,
    str_eq_iff v.definition.id id,
  )

  state-check_process :
      (c : HealthChecker) (s : ServiceDefinition D) (status : ServiceStatus) (now : ℤ)
      → IsProcessChecked s
      → failures c s.id ≤ uint32_max
      → (check_process c s status now).1.state ≡ (
          if has_running_process status
          then healthy
          else if leb s.health_check.failure_threshold (min (suc (failures c s.id)) uint32_max)
          then unhealthy
          else unknown)
  unfolding check_process
  state-check_process c s status now h fits = ground (arith, valid_threshold s h)

  -- Where all checks so far were process checks by valid definitions, what such a check reports
  -- follows from the history alone: healthy when it finds a running process, unhealthy when the
  -- streak of failed checks has reached the threshold, unknown below it.
  pub state-check :
      (s : ServiceDefinition D) (status : ServiceStatus) (now : ℤ) (older : List (Visit D))
      → IsProcessChecked s
      → All (λ v. IsProcessChecked v.definition) older
      → let v : Visit D = record { definition = s; status = status; at = now } in
        (check (after older) s status now).1.state
        ≡ verdict (streak s.id (v ∷ older)) s.health_check.failure_threshold
  state-check s status now older h hs = ground (
    arith,
    check-process (after older) s status now h,
    state-check_process (after older) s status now h,
    failures-after s.id older hs,
    valid_threshold s h,
    str_eq_refl s.id,
  )
