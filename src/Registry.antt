-- ===== src/Registry.antt =====
-- apps/agent/src/service/service_registry.cpp: the class ServiceRegistry.
pub mod Loaded
pub mod Batch
pub mod Monitored
pub mod Kept
use aegis_desk.Prelude.{
  ℕ, ◌+◌, ◌≡◌, Bool, true, false, Option, none, some, List, [], ◌∷◌, ◌++◌, not, is_empty,
  if◌then◌else◌, length,
}
use mathlib.Core.List.{reverse}
use aegis_desk.Prelude.Int.{pos, eqb_ℤ}
use aegis_desk.Prelude.Text.{Str, text}
use aegis_desk.Prelude.Decimal.{decimal_ℤ}
use aegis_desk.Prelude.Dict.{Dict, find, insert}
use aegis_desk.Prelude.Result.{Result, ok, err, ◌>>=◌, ◌>>◌, guard, require}
use aegis_desk.Double.{Doubles}
use aegis_desk.Service.Status.{ServiceSummary}
use aegis_desk.Service.Definition.{ServiceDefinition, with_absolute_paths}
use aegis_desk.Alerts.Manager.{is_present}
use aegis_desk.Recovery.Supervision.{Supervision, Outcome}
use aegis_desk.Config.{PropertyTree, Paths}
use aegis_desk.Config.Service.{parse_service_definition}
use aegis_desk.Monitor.{Registry}

-- What the registry uses of process_supervisor.h besides the calls of Recovery.Supervision.
pub record Supervisors (D S : Type 0) ⦃d : Doubles D⦄ : Type 0 where
  pub supervision : Supervision D S
  -- `std::make_unique<ProcessSupervisor>(definition)`.
  pub create : ServiceDefinition D → S
  pub stop : S → Outcome S
  -- `std::filesystem::absolute`, which makes no path empty.
  pub absolute : Str → Str
  pub is_empty-absolute : (path : Str) → is_empty path ≡ false → is_empty (absolute path) ≡ false
  pub definition-create :
      (s : ServiceDefinition D) → supervision.definition (create s) ≡ with_absolute_paths absolute s
  pub definition-stop :
      (s : S) → supervision.definition (stop s).supervisor ≡ supervision.definition s

pub record ServiceRegistry (S : Type 0) : Type 0 where
  pub supervisors : Dict S
  pub service_order : List Str

abbrev pub new_registry : {S : Type 0} → ServiceRegistry S
new_registry = record { supervisors = []; service_order = [] }

join_after : Str → List Str → Str
join_after separator [] = []
join_after separator (value ∷ values) = separator ++ value ++ join_after separator values

unfoldable pub join : List Str → Str → Str
unfolding join_after
join [] separator = []
join (value ∷ values) separator = value ++ join_after separator values

module _ {D S T : Type 0} ⦃d : Doubles D⦄ (v : Supervisors D S) (t : PropertyTree D T)
    (p : Paths) where
  -- The loop of `LoadFromFile`.
  unfoldable pub load_services :
      Str → ℕ → Dict S → List Str → List (Str × T) → Result (ServiceRegistry S)
  load_services base_dir index supervisors order [] =
      ok (record { supervisors = supervisors; service_order = order })
  load_services base_dir index supervisors order ((key, node) ∷ nodes) = do
    guard (is_empty key) (text "services must be a JSON array")
    definition ← parse_service_definition t p node index base_dir
    guard (not (is_present (find definition.id supervisors)))
        (text "duplicate service id: " ++ definition.id)
    load_services base_dir (index + 1) (insert definition.id (v.create definition) supervisors)
        (order ++ (definition.id ∷ [])) nodes

  -- What `read_json` gives is a tree or the text of its exception.
  unfoldable pub read_registry :
      ServiceRegistry S → Result T → Str → Str → Result (ServiceRegistry S)
  unfolding load_services
  read_registry r file config_path base_dir = do
    guard (is_empty r.supervisors)
        (text "ServiceRegistry is already loaded; runtime config reload is not implemented yet")
    root ← elim file [
      | ok root ↦ ok root
      | err what ↦ err (text "failed to parse config file " ++ config_path ++ text ": " ++ what)
    ]
    schema_version ←
        require (t.get_int root (text "schema_version")) (text "schema_version is required")
    guard (eqb_ℤ schema_version (pos 1))
        (text "unsupported schema_version: " ++ decimal_ℤ schema_version)
    services ← require (t.get_child root (text "services")) (text "services array is required")
    guard (not (is_empty (t.children services))) (text "services array must not be empty")
    load_services base_dir 0 [] [] (t.children services)

  -- `LoadFromFile`: the registry after it, and whether it succeeded.
  unfoldable pub load_from_file :
      ServiceRegistry S → Result T → Str → Str → ServiceRegistry S × Result (Unit {0})
  unfolding read_registry
  load_from_file r file config_path base_dir = elim (read_registry r file config_path base_dir) [
    | ok r' ↦ (r', ok tt)
    | err e ↦ (r, err e)
  ]

module _ {D S : Type 0} (v : Supervision D S) where
  unfoldable pub summary_of : S → ServiceSummary
  summary_of s =
      let definition = v.definition s in
      record {
        id = definition.id;
        display_name = definition.display_name;
        auto_start = definition.auto_start;
        status = v.get_status s;
      }

  unfoldable pub list_from : Dict S → List Str → List ServiceSummary
  unfolding summary_of
  list_from supervisors [] = []
  list_from supervisors (id ∷ order) =
      let rest = list_from supervisors order in
      elim (find id supervisors) [ none ↦ rest | some s ↦ summary_of s ∷ rest ]

  unfoldable pub list_services : ServiceRegistry S → List ServiceSummary
  unfolding list_from
  list_services r = list_from r.supervisors r.service_order

  -- The registry as the monitor uses it.
  abbrev pub monitored : Registry S (ServiceRegistry S)
  monitored = record {
    list_services = list_services;
    find_supervisor = λ r id. find id r.supervisors;
    put_supervisor = λ r id s. record r { supervisors = insert id s r.supervisors };
  }

-- What a loop over `service_order_` has done so far.
pub record Progress (S : Type 0) : Type 0 where
  pub supervisors : Dict S
  pub failures : List Str

-- A supervisor has been called, through the pointer in the map; a failure is noted.
unfoldable pub called : {S : Type 0} → Str → Progress S → Outcome S → Progress S
called id b o = record {
  supervisors = insert id o.supervisor b.supervisors;
  failures = if o.succeeded then b.failures else b.failures ++ ((id ++ text ": " ++ o.error) ∷ []);
}

-- The result of both: the registry, and success or the failures.
unfoldable pub finish :
    {S : Type 0} → ServiceRegistry S → Str → Progress S → ServiceRegistry S × Result (Unit {0})
finish r prefix b = (
  record r { supervisors = b.supervisors },
  if is_empty b.failures then ok tt else err (prefix ++ join b.failures (text "; ")),
)

module _ {D S : Type 0} ⦃d : Doubles D⦄ (v : Supervisors D S) where
  unfoldable pub start_one : Str → Progress S → Progress S
  unfolding called
  start_one id b = elim (find id b.supervisors) [
    | none ↦ b
    | some s ↦
        if not (v.supervision.definition s).auto_start
        then b
        else called id b (v.supervision.start s)
  ]

  unfoldable pub stop_one : Str → Progress S → Progress S
  unfolding called
  stop_one id b = elim (find id b.supervisors) [ none ↦ b | some s ↦ called id b (v.stop s) ]

-- A loop over identifiers.
unfoldable pub for_each :
    {S : Type 0} → (Str → Progress S → Progress S) → List Str → Progress S → Progress S
for_each step [] b = b
for_each step (id ∷ order) b = for_each step order (step id b)

module _ {D S : Type 0} ⦃d : Doubles D⦄ (v : Supervisors D S) where
  unfoldable pub start_auto_start_services :
      ServiceRegistry S → ServiceRegistry S × Result (Unit {0})
  unfolding for_each start_one finish
  start_auto_start_services r = finish r (text "auto-start failed: ") (
      for_each (start_one v) r.service_order
        (record { supervisors = r.supervisors; failures = [] }))

  unfoldable pub stop_all : ServiceRegistry S → ServiceRegistry S × Result (Unit {0})
  unfolding for_each stop_one finish
  stop_all r = finish r (text "stop failed: ") (
      for_each (stop_one v) (reverse r.service_order)
        (record { supervisors = r.supervisors; failures = [] }))

unfoldable pub size : {S : Type 0} → ServiceRegistry S → ℕ
size r = length r.supervisors
