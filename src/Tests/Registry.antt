-- ===== src/Tests/Registry.antt =====
-- A configuration of one service, and a supervisor that is its definition.
use aegis_desk.Prelude.{
  arith, ℕ, ◌≡◌, refl, true, false, Option, none, some, List, [], ◌∷◌, ◌++◌, is_empty,
  if◌then◌else◌, map,
}
use mathlib.Core.List.{reverse}
use aegis_desk.Prelude.Int.{pos}
use aegis_desk.Prelude.Text.{Str, text, str_eq}
use aegis_desk.Prelude.Dict.{Dict, find}
use aegis_desk.Prelude.Result.{Result, ok, err}
use aegis_desk.Service.Definition.{ServiceDefinition, contains, with_absolute_paths}
use aegis_desk.Alerts.Manager.{is_present}
use aegis_desk.Recovery.Supervision.{Supervision}
use aegis_desk.Config.{PropertyTree, Paths}
use aegis_desk.Monitor.{check_once}
use aegis_desk.Registry.{
  Supervisors, ServiceRegistry, new_registry, load_from_file, start_auto_start_services, stop_all,
  monitored,
}
use aegis_desk.Registry.Loaded.{
  IsValid, load_from_file-IsValid, load_from_file-refuses, ids_in, service_nodes,
}
use aegis_desk.Registry.Batch.{
  start_auto_start_services-starts, stop_all-stops, acted_entry, start_action, stop_action, failed,
  outcome_of,
}
use aegis_desk.Registry.Kept.{start_and_stop-IsValid}
use aegis_desk.Registry.Monitored.{check_once-covers}
use aegis_desk.Tests.Data
use aegis_desk.Tests.Data.{doubles_ℕ}
use aegis_desk.Tests.Monitor.{monitor}

abbrev service_fields : Dict Str
service_fields =
    (text "id", Data.web)
    ∷ (text "display_name", text "Web")
    ∷ (text "executable", text "web")
    ∷ (text "work_dir", text ".")
    ∷ (text "log_path", text "web.log")
    ∷ []

data Node : Type 0 where
  root services web : Node

abbrev child_of : Node → Str → Option Node
child_of root key = if str_eq key (text "services") then some services else none
child_of services key = none
child_of web key = if str_eq key (text "auto_start") then some web else none

abbrev children_of : Node → List (Str × Node)
children_of root = []
children_of services = ([], web) ∷ []
children_of web = []

abbrev fields_of : Node → Dict Str
fields_of root = []
fields_of services = []
fields_of web = service_fields

abbrev tree : PropertyTree ℕ Node
tree = record {
  data_of = λ _. [];
  children = children_of;
  get_child = child_of;
  get_string = λ node key. find key (fields_of node);
  get_bool = λ _ _. some true;
  get_int = λ _ _. some (pos 1);
  get_unsigned = λ _ _. none;
  get_double = λ _ _. none;
  own_string = λ _. none;
}

abbrev paths : Paths
paths = record { is_absolute = λ _. true; lexically_normal = λ p. p; join = λ base p. p }

-- Starting succeeds, stopping fails.
abbrev supervision : Supervision ℕ (ServiceDefinition ℕ)
supervision = record {
  definition = λ s. s;
  get_status = λ _. Data.up;
  start = λ s. record { supervisor = s; succeeded = true; error = [] };
  restart = λ s. record { supervisor = s; succeeded = true; error = [] };
  definition-start = λ _. refl;
  definition-restart = λ _. refl;
}

pub absolute_already : (s : ServiceDefinition ℕ) → s ≡ with_absolute_paths (λ path. path) s
unfolding with_absolute_paths
absolute_already s = ground arith

abbrev pub supervisors : Supervisors ℕ (ServiceDefinition ℕ)
supervisors = record {
  supervision = supervision;
  create = λ s. s;
  stop = λ s. record { supervisor = s; succeeded = false; error = text "timeout" };
  absolute = λ path. path;
  is_empty-absolute = λ _ h. h;
  definition-create = absolute_already;
  definition-stop = λ _. refl;
}

abbrev load : Result Node → ServiceRegistry (ServiceDefinition ℕ) × Result (Unit {0})
load file = load_from_file supervisors tree paths new_registry file (text "config.json") (text "/")

abbrev loaded : ServiceRegistry (ServiceDefinition ℕ)
loaded = (load (ok root)).0

load_succeeds : (load (ok root)).1 ≡ ok tt
unfolding load_from_file str_eq text aegis_desk.Config.Service.parse_service_definition
    aegis_desk.Config.Fields.read_required_string find aegis_desk.Service.Id.is_valid_service_id
    aegis_desk.Config.Fields.read_args aegis_desk.Config.Fields.read_auto_start
    aegis_desk.Config.Parts.parse_health_check_definition aegis_desk.Config.Parts.parse_alert_rules
    aegis_desk.Config.Parts.parse_recovery_policy
    aegis_desk.Service.Definition.definition_is_structurally_valid
    aegis_desk.Config.Fields.resolve_path
    aegis_desk.Health.Status.health_check_is_structurally_valid
    aegis_desk.Recovery.Policy.policy_is_structurally_valid
    aegis_desk.Service.Definition.rules_are_valid
load_succeeds = refl

load_from_file-IsValid_example :
    IsValid supervision loaded
    × (map some loaded.service_order ≡ ids_in tree (service_nodes tree (ok root)))
    × (is_empty (service_nodes tree (ok root)) ≡ false)
load_from_file-IsValid_example =
    load_from_file-IsValid supervisors tree paths new_registry (ok root) (text "config.json")
      (text "/") load_succeeds

abbrev refusal : Str
refusal =
    text "failed to parse config file " ++ text "config.json" ++ text ": " ++ text "no such file"

missing_file_is_refused : (load (err (text "no such file"))).1 ≡ err refusal
unfolding load_from_file
missing_file_is_refused = refl

load_from_file-refuses_example :
    ((load (err (text "no such file"))).0 ≡ new_registry) × (is_empty refusal ≡ false)
load_from_file-refuses_example =
    load_from_file-refuses supervisors tree paths new_registry (err (text "no such file"))
      (text "config.json") (text "/") refusal missing_file_is_refused

abbrev loaded-IsValid : IsValid supervision loaded
loaded-IsValid =
    (load_from_file-IsValid supervisors tree paths new_registry (ok root) (text "config.json")
      (text "/") load_succeeds).0

start_auto_start_services-starts_example :
    (find Data.web (start_auto_start_services supervisors loaded).0.supervisors
      ≡ acted_entry (start_action supervisors) (find Data.web loaded.supervisors))
    × ((start_auto_start_services supervisors loaded).1
        ≡ outcome_of
            (text "auto-start failed: ")
            (failed (start_action supervisors) loaded.supervisors loaded.service_order))
start_auto_start_services-starts_example =
    start_auto_start_services-starts supervisors loaded Data.web loaded-IsValid

stop_all-stops_example :
    (find Data.web (stop_all supervisors loaded).0.supervisors
      ≡ acted_entry (stop_action supervisors) (find Data.web loaded.supervisors))
    × ((stop_all supervisors loaded).1
        ≡ outcome_of
            (text "stop failed: ")
            (failed (stop_action supervisors) loaded.supervisors (reverse loaded.service_order)))
stop_all-stops_example = stop_all-stops supervisors loaded Data.web loaded-IsValid

start_and_stop-IsValid_example :
    IsValid supervision (start_auto_start_services supervisors loaded).0
    × IsValid supervision (stop_all supervisors loaded).0
    × ((start_auto_start_services supervisors loaded).0.service_order ≡ loaded.service_order)
    × ((stop_all supervisors loaded).0.service_order ≡ loaded.service_order)
start_and_stop-IsValid_example = start_and_stop-IsValid supervisors loaded loaded-IsValid

check_once-covers_example :
    is_present (
      find Data.web
        (check_once supervision
          (monitored supervision)
          (λ _. some (Data.metrics_at 95))
          (λ alerts. alerts)
          loaded
          monitor
          (pos 1000)).1.latest_health)
    ≡ contains Data.web loaded.service_order
check_once-covers_example =
    check_once-covers supervision (λ _. some (Data.metrics_at 95)) (λ alerts. alerts) loaded monitor
      (pos 1000) Data.web loaded-IsValid
