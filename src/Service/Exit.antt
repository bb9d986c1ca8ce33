-- ===== src/Service/Exit.antt =====
-- How a process ended: `ProcessExitKind` of process_supervisor.h, and its printed form.
use aegis_desk.Prelude.Text.{Str, text}

pub data ProcessExitKind : Type 0 where
  none exited signaled unknown : ProcessExitKind

unfoldable pub exit_kind_to_string : ProcessExitKind → Str
exit_kind_to_string ProcessExitKind.none = text "none"
exit_kind_to_string ProcessExitKind.exited = text "exited"
exit_kind_to_string ProcessExitKind.signaled = text "signaled"
exit_kind_to_string ProcessExitKind.unknown = text "unknown"
