-- ===== src/Recovery/Supervision.antt =====
-- What the recovery manager uses of a process supervisor: four calls of
-- apps/agent/include/agent/service/process_supervisor.h. A call that acts returns the supervisor
-- after it, whether it succeeded, and the error text.
use aegis_desk.Prelude.{Bool, ◌≡◌}
use aegis_desk.Prelude.Text.{Str}
use aegis_desk.Service.Definition.{ServiceDefinition}
use aegis_desk.Service.Status.{ServiceStatus}

pub record Outcome (S : Type 0) : Type 0 where
  pub supervisor : S
  pub succeeded : Bool
  pub error : Str

pub record Supervision (D S : Type 0) : Type 0 where
  pub definition : S → ServiceDefinition D
  pub get_status : S → ServiceStatus
  pub start : S → Outcome S
  pub restart : S → Outcome S
  -- The definition of a supervisor never changes.
  pub definition-start : (s : S) → definition (start s).supervisor ≡ definition s
  pub definition-restart : (s : S) → definition (restart s).supervisor ≡ definition s
