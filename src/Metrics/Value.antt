-- ===== src/Metrics/Value.antt =====
-- apps/agent/include/agent/metrics/service_metrics.h.
use aegis_desk.Prelude.{ℕ, Bool, true, false, Option, none, some, ◌&&◌, ◌||◌, not, if◌then◌else◌}
use aegis_desk.Prelude.Int.{ℤ, pos, negsuc, is_negative, ltb_ℤ, leb_ℤ}
use aegis_desk.Prelude.Text.{Str}
use aegis_desk.Double.{Doubles}
use aegis_desk.Service.Id.{is_valid_service_id}

pub record ServiceMetrics (D : Type 0) : Type 0 where
  pub service_id : Str
  pub available : Bool
  pub pid : ℤ
  pub collected_at_unix_ms : ℤ
  pub cpu_percent : Option D
  pub rss_bytes : Option ℕ
  pub thread_count : Option ℕ
  pub fd_count : Option ℕ

abbrev pub has_value {ℓ} : {A : Type ℓ} → Option A → Bool
has_value none = false
has_value (some a) = true

unfoldable pub has_any_metric_value : {D : Type 0} → ServiceMetrics D → Bool
has_any_metric_value m =
    has_value m.cpu_percent
    || has_value m.rss_bytes
    || has_value m.thread_count
    || has_value m.fd_count

module _ {D : Type 0} ⦃d : Doubles D⦄ where
  unfoldable pub cpu_in_range : Option D → Bool
  cpu_in_range none = true
  cpu_in_range (some c) = not (not (d.is_finite c) || d.lt c (d.of_ℕ 0) || d.lt (d.of_ℕ 100) c)

  unfoldable pub metrics_is_structurally_valid : ServiceMetrics D → Bool
  unfolding cpu_in_range has_any_metric_value
  metrics_is_structurally_valid m =
      if not (is_valid_service_id m.service_id)
        || ltb_ℤ m.pid (negsuc 0)
        || is_negative m.collected_at_unix_ms
      then false
      else if not (cpu_in_range m.cpu_percent)
      then false
      else if not m.available
      then not (has_any_metric_value m)
      else if leb_ℤ m.pid (pos 0)
      then false
      else has_value m.rss_bytes && has_value m.thread_count && has_value m.fd_count
