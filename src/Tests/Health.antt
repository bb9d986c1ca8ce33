-- ===== src/Tests/Health.antt =====
-- A process that is found down twice in a row.
use aegis_desk.Prelude.{ℕ, ◌≡◌, refl, [], ◌∷◌}
use aegis_desk.Prelude.Int.{pos}
use aegis_desk.Prelude.Text.{str_eq, text}
use aegis_desk.Health.Status.{unhealthy, health_check_is_structurally_valid}
use aegis_desk.Health.Checker.{check}
use aegis_desk.Health.Checker.History.{
  Visit, IsProcessChecked, after, failures, failures-after, state-check,
}
use aegis_desk.Tests.Data

abbrev visit : Visit ℕ
visit = record { definition = Data.service; status = Data.down; at = pos 0 }

service_is_checked : IsProcessChecked Data.service
unfolding health_check_is_structurally_valid
service_is_checked = record { is_enabled = refl; is_valid = refl; is_process = refl }

failures-after_example : failures (after (visit ∷ (visit ∷ []))) Data.web ≡ 2
unfolding str_eq text
failures-after_example =
    failures-after Data.web (visit ∷ (visit ∷ [])) (service_is_checked, (service_is_checked, tt))

state-check_example :
    (check (after (visit ∷ [])) Data.service Data.down (pos 5000)).1.state ≡ unhealthy
unfolding str_eq text
state-check_example =
    state-check Data.service Data.down (pos 5000) (visit ∷ []) service_is_checked
      (service_is_checked, tt)
