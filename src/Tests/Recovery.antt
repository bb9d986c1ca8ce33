-- ===== src/Tests/Recovery.antt =====
-- A service that stays unhealthy, with two restarts a minute.
use aegis_desk.Prelude.{ℕ, ◌≤◌, ◌≡◌, refl, true, none, List, [], ◌∷◌, arith}
use aegis_desk.Prelude.Int.{pos, ◌+ℤ◌}
use aegis_desk.Prelude.Text.{text, str_eq}
use aegis_desk.Prelude.Dict.{find, insert}
use aegis_desk.Service.Status.{ServiceStatus}
use aegis_desk.Health.Status.{unhealthy}
use aegis_desk.Recovery.Supervision.{Supervision, Outcome}
use aegis_desk.Recovery.Manager.{
  RecoveryManager, new_manager, find_trigger, evaluate_and_recover, get_events_for_service,
}
use aegis_desk.Recovery.Manager.Decision.{Round, recover, will_restart}
use aegis_desk.Recovery.Manager.History.{Between, restarts, policy, window}
use aegis_desk.Recovery.Manager.Budget.{count_live, restart_budget}
use aegis_desk.Recovery.Manager.Cooldown.{reports, reports-IsSpaced, suppressed_in}
use aegis_desk.Recovery.Manager.Spacing.{IsSpaced, restarts-IsSpaced}
use aegis_desk.Recovery.Manager.Events.{
  types, types-recover, recover-IsValid, new_manager-IsValid, get_events_for_service-take,
}
use aegis_desk.Recovery.Manager.Events
use aegis_desk.Recovery.Policy.{policy_is_structurally_valid, restart_started, restart_succeeded}
use aegis_desk.Recovery.State.{pop_expired}
use aegis_desk.Service.Id.{is_valid_service_id}
use aegis_desk.Tests.Data

-- A supervisor that is its status; bringing it up succeeds.
abbrev started : Outcome ServiceStatus
started = record { supervisor = Data.up; succeeded = true; error = [] }

abbrev pub supervision : Supervision ℕ ServiceStatus
supervision = record {
  definition = λ _. Data.service;
  get_status = λ s. s;
  start = λ _. started;
  restart = λ _. started;
  definition-start = λ _. refl;
  definition-restart = λ _. refl;
}

-- Before every round the process has exited.
abbrev exits : Between supervision
exits = record { change = λ _ _. Data.down; definition-change = λ _ _. refl }

abbrev round_at : ℕ → Round
round_at t = record { health = Data.health_of unhealthy; alerts = []; at = pos t }

abbrev manager : RecoveryManager
manager = new_manager 10 30

manager_is_new : find Data.web manager.states ≡ none
unfolding find new_manager
manager_is_new = refl

web_is_valid : is_valid_service_id Data.web ≡ true
unfolding is_valid_service_id text
web_is_valid = refl

-- The newest first; the third finds the budget used up.
abbrev three_rounds : List Round
three_rounds = round_at 20000 ∷ round_at 10000 ∷ round_at 0 ∷ []

restart_budget_example :
    count_live
      (window supervision manager Data.down exits)
      (pos 20000)
      (restarts supervision manager Data.down exits three_rounds)
    ≤ 2
restart_budget_example =
    restart_budget supervision manager Data.down exits manager_is_new (round_at 20000)
      (round_at 10000 ∷ round_at 0 ∷ []) (pos 20000) (omega arith, (omega arith, tt)) (omega arith)

restarts-IsSpaced_example :
    IsSpaced (pos 1000) (restarts supervision manager Data.down exits three_rounds)
    × IsSpaced (pos 2000) (restarts supervision manager Data.down exits three_rounds)
restarts-IsSpaced_example =
    restarts-IsSpaced supervision manager Data.down exits manager_is_new three_rounds

-- The two restarts that the budget allows, and no third one.
restarts_of_three :
    restarts supervision manager Data.down exits three_rounds ≡ pos 10000 ∷ (pos 0 ∷ [])
unfolding evaluate_and_recover will_restart policy_is_structurally_valid find_trigger find insert
    new_manager pop_expired aegis_desk.Recovery.Manager.History.after
    aegis_desk.Recovery.Manager.emit aegis_desk.Recovery.Policy.recovery_event_is_structurally_valid
    is_valid_service_id text str_eq ◌+ℤ◌
restarts_of_three = refl

-- Four rounds: two restarts, then two reports that the budget is used up.
reports-IsSpaced_example :
    IsSpaced
      (pos 30000)
      (reports supervision manager Data.down exits (round_at 50000 ∷ three_rounds))
unfolding new_manager
reports-IsSpaced_example =
    reports-IsSpaced supervision manager Data.down exits (round_at 50000 ∷ three_rounds)

-- Of the three rounds that find the budget used up, the last two come within the cooldown.
reports_of_five :
    reports supervision manager Data.down exits (round_at 45000 ∷ round_at 30000 ∷ three_rounds)
    ≡ pos 20000 ∷ []
unfolding reports evaluate_and_recover suppressed_in policy_is_structurally_valid
    aegis_desk.Recovery.Manager.History.after find new_manager pop_expired insert
    aegis_desk.Recovery.Manager.emit aegis_desk.Recovery.Policy.recovery_event_is_structurally_valid
    is_valid_service_id text str_eq ◌+ℤ◌
reports_of_five = refl

recover-IsValid_example :
    Events.IsValid (recover supervision manager Data.down (round_at 0)).manager
recover-IsValid_example =
    recover-IsValid supervision manager Data.down (round_at 0) (new_manager-IsValid 10 30)

abbrev recovered : RecoveryManager
recovered = (recover supervision manager Data.down (round_at 0)).manager
