-- ===== src/Config/Service.antt =====
-- ParseServiceDefinition of apps/agent/src/service/service_registry.cpp.
use aegis_desk.Prelude.{ℕ, ◌++◌}
use aegis_desk.Prelude.Text.{Str, text}
use aegis_desk.Prelude.Decimal.{decimal}
use aegis_desk.Prelude.Result.{Result, ok, ◌>>=◌, ◌>>◌, guard}
use aegis_desk.Double.{Doubles}
use aegis_desk.Service.Id.{is_valid_service_id}
use aegis_desk.Service.Definition.{ServiceDefinition, definition_is_structurally_valid}
use aegis_desk.Config.{PropertyTree, Paths}
use aegis_desk.Config.Fields.{resolve_path, read_required_string, read_args, read_auto_start}
use aegis_desk.Config.Parts.{
  parse_health_check_definition, parse_alert_rules, parse_recovery_policy,
}

module _ {D T : Type 0} ⦃d : Doubles D⦄ (t : PropertyTree D T) (p : Paths) where
  unfoldable pub parse_service_definition : T → ℕ → Str → Result (ServiceDefinition D)
  parse_service_definition node index base_dir = do
    let context = text "services[" ++ decimal index ++ text "]"
    id ← read_required_string t node (text "id") context
    guard (is_valid_service_id id)
        (context ++ text ".id is invalid: only letters, digits, '_' and '-' are allowed")
    display_name ← read_required_string t node (text "display_name") context
    executable ← read_required_string t node (text "executable") context
    work_dir ← read_required_string t node (text "work_dir") context
    log_path ← read_required_string t node (text "log_path") context
    args ← read_args t node context
    auto_start ← read_auto_start t node context
    health_check ← parse_health_check_definition t node id
    alert_rules ← parse_alert_rules t node id
    recovery_policy ← parse_recovery_policy t node id
    let definition : ServiceDefinition D = record {
      id = id;
      display_name = display_name;
      executable = resolve_path p base_dir executable;
      work_dir = resolve_path p base_dir work_dir;
      args = args;
      log_path = resolve_path p base_dir log_path;
      auto_start = auto_start;
      health_check = health_check;
      alert_rules = alert_rules;
      recovery_policy = recovery_policy;
    }
    guard (definition_is_structurally_valid definition)
        (context ++ text " is not structurally valid")
    ok definition
