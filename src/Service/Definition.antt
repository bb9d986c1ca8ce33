-- ===== src/Service/Definition.antt =====
-- apps/agent/include/agent/service/service_definition.h.
use aegis_desk.Prelude.{
  ◌≡◌, arith, Bool, true, false, List, [], ◌∷◌, ◌||◌, not, if◌then◌else◌, is_empty,
}
use aegis_desk.Prelude.Text.{Str, str_eq}
use aegis_desk.Double.{Doubles}
use aegis_desk.Service.Id.{is_valid_service_id}
use aegis_desk.Health.Status.{HealthCheckDefinition, health_check_is_structurally_valid}
use aegis_desk.Alerts.Rule.{AlertRule, rule_is_structurally_valid}
use aegis_desk.Recovery.Policy.{RecoveryPolicy, policy_is_structurally_valid}

pub record ServiceDefinition (D : Type 0) : Type 0 where
  pub id : Str
  pub display_name : Str
  pub executable : Str
  pub work_dir : Str
  pub args : List Str
  pub log_path : Str
  pub auto_start : Bool
  pub health_check : HealthCheckDefinition
  pub alert_rules : List (AlertRule D)
  pub recovery_policy : RecoveryPolicy

-- `std::unordered_set<std::string>::contains`.
unfoldable pub contains : Str → List Str → Bool
contains k [] = false
contains k (s ∷ seen) = str_eq s k || contains k seen

module _ {D : Type 0} ⦃d : Doubles D⦄ where
  -- The loop over the rules; `seen` is `rule_ids`.
  unfoldable pub rules_are_valid : Str → List Str → List (AlertRule D) → Bool
  rules_are_valid id seen [] = true
  rules_are_valid id seen (r ∷ rules) =
      let rest = rules_are_valid id (r.id ∷ seen) rules in
      if not (rule_is_structurally_valid r)
      then false
      else if not (str_eq r.service_id id)
      then false
      else if contains r.id seen
      then false
      else rest

  unfoldable pub definition_is_structurally_valid : ServiceDefinition D → Bool
  definition_is_structurally_valid s =
      if not (is_valid_service_id s.id)
      then false
      else if is_empty s.display_name
      then false
      else if is_empty s.executable
      then false
      else if is_empty s.work_dir
      then false
      else if is_empty s.log_path
      then false
      else if not (health_check_is_structurally_valid s.health_check)
      then false
      else if not (policy_is_structurally_valid s.recovery_policy)
      then false
      else rules_are_valid s.id [] s.alert_rules

  -- The definition that the constructor of ProcessSupervisor keeps; `absolute` is
  -- std::filesystem::absolute.
  unfoldable pub with_absolute_paths : (Str → Str) → ServiceDefinition D → ServiceDefinition D
  unfolding definition_is_structurally_valid
  with_absolute_paths absolute s =
      if definition_is_structurally_valid s
      then record s {
        executable = absolute s.executable;
        work_dir = absolute s.work_dir;
        log_path = absolute s.log_path;
      }
      else s

  -- What names a service is kept, and a well-formed definition stays so.
  pub with_absolute_paths-keeps :
      (absolute : Str → Str) (s : ServiceDefinition D)
      → ((path : Str) → is_empty path ≡ false → is_empty (absolute path) ≡ false)
      → definition_is_structurally_valid s ≡ true
      → ((with_absolute_paths absolute s).id ≡ s.id)
        × (definition_is_structurally_valid (with_absolute_paths absolute s) ≡ true)
  unfolding with_absolute_paths definition_is_structurally_valid
  with_absolute_paths-keeps absolute s keeps h =
      ground (arith, keeps s.executable, keeps s.work_dir, keeps s.log_path)
