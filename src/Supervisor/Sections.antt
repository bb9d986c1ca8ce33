-- ===== src/Supervisor/Sections.antt =====
-- The critical sections of process_supervisor.cpp: what each block under `state_mutex_` does, in
-- the order of the source. `now` is the system clock where a block makes a transition.
use aegis_desk.Prelude.{Bool, Option, none, some, [], ◌++◌, ◌&&◌, ◌||◌, not, if◌then◌else◌}
use aegis_desk.Prelude.Int.{ℤ, pos, ltb_ℤ, leb_ℤ, eqb_ℤ}
use aegis_desk.Prelude.Text.{Str, text}
use aegis_desk.Service.State.{
  DesiredState, ServiceState, is_desired_stopped, is_starting, is_stopped,
}
use aegis_desk.Service.Exit.{ProcessExitKind}
use aegis_desk.Supervisor.State.{
  Supervisor, no_pid, WaitResult, reaped, no_child, wait_failed, transition_state, save_exit_status,
  mark_child_exited,
}

module _ {D : Type 0} where
  unfoldable pub set_desired_state : Supervisor D → DesiredState → Supervisor D
  set_desired_state s desired = record s { desired_state = desired }

  -- StartOperation, first block: the error where a process runs already.
  unfoldable pub begin_start : Supervisor D → Supervisor D × Option Str
  begin_start s = (
    record s { desired_state = DesiredState.running },
    (if ltb_ℤ (pos 0) s.pid then some (s.definition.id ++ text " is already running") else none),
  )

  -- Second block, behind the join of the last observer.
  unfoldable pub enter_starting : Supervisor D → ℤ → Supervisor D × Option Str
  enter_starting s now =
      if ltb_ℤ (pos 0) s.process_group_id
      then (s, some (s.definition.id ++ text " still has an active process group"))
      else (transition_state s ServiceState.starting [] now, none)

  -- The blocks of the failures between the two: validation, files, pipe, fork, confirmation.
  unfoldable pub fail_start : Supervisor D → Str → ℤ → Supervisor D
  fail_start s error now = transition_state s ServiceState.failed error now

  -- The block behind a confirmed exec.
  unfoldable pub record_child : Supervisor D → ℤ → ℤ → Supervisor D
  record_child s child started = record s {
    pid = child;
    process_group_id = child;
    start_time = some started;
  }

  -- The handler of a failed observer thread; the child has been killed and reaped.
  unfoldable pub fail_observer : Supervisor D → ℤ → Str → ℤ → Supervisor D
  fail_observer s child error now =
      if eqb_ℤ s.pid child
      then transition_state
          (record s { pid = no_pid; process_group_id = no_pid; start_time = none })
          ServiceState.failed error now
      else s

  unfoldable pub confirm_running : Supervisor D → ℤ → ℤ → Supervisor D
  confirm_running s child now =
      if eqb_ℤ s.pid child && is_starting s.state
      then transition_state s ServiceState.running [] now
      else s

  -- `pid_ <= 0 && process_group_id_ <= 0`.
  abbrev pub has_no_target : Supervisor D → Bool
  has_no_target s = leb_ℤ s.pid (pos 0) && leb_ℤ s.process_group_id (pos 0)

  -- StopOperation, first block.
  unfoldable pub begin_stop : Supervisor D → DesiredState → ℤ → Supervisor D
  begin_stop s final now =
      let t = record s { desired_state = final } in
      if has_no_target s
      then (if is_desired_stopped final && not (is_stopped s.state)
          then transition_state t ServiceState.stopped [] now
          else t)
      else transition_state t ServiceState.stopping [] now

  -- The blocks of a signal that cannot be sent, and of the last timeout.
  unfoldable pub fail_stop : Supervisor D → ℤ → Str → ℤ → Supervisor D
  fail_stop s target error now =
      if eqb_ℤ s.pid target then transition_state s ServiceState.failed error now else s

  -- WaitForObservedExitAndProcessGroup: whether the leader was seen to exit, and the success.
  abbrev pub leader_was_observed : Supervisor D → ℤ → Bool
  leader_was_observed s target = leb_ℤ target (pos 0) || not (eqb_ℤ s.pid target)

  unfoldable pub forget_group : Supervisor D → ℤ → Supervisor D
  forget_group s group =
      if eqb_ℤ s.process_group_id group then record s { process_group_id = no_pid } else s

  -- The block of ObserveChildExit, where `pid_` is still the observer's target.
  observe_own : Supervisor D → WaitResult → ℤ → Supervisor D
  unfolding save_exit_status mark_child_exited
  observe_own s (reaped status) now = mark_child_exited (save_exit_status s status) now
  observe_own s no_child now =
      mark_child_exited
        (record s {
          last_exit_code = none;
          last_exit_kind = ProcessExitKind.unknown;
          last_exit_signal = none;
        })
        now
  observe_own s (wait_failed error) now =
      transition_state
        (record s {
          pid = no_pid;
          start_time = none;
          last_exit_code = none;
          last_exit_kind = ProcessExitKind.unknown;
          last_exit_signal = none;
        })
        ServiceState.failed (text "waitpid failed for service child: " ++ error) now

  unfoldable pub observe_exit : Supervisor D → ℤ → WaitResult → ℤ → Supervisor D
  unfolding observe_own
  observe_exit s target result now =
      if not (eqb_ℤ s.pid target) then s else observe_own s result now

  -- The last block of CleanupProcessGroupAfterLeaderExit.
  unfoldable pub cleanup_group : Supervisor D → ℤ → Bool → Supervisor D
  unfolding forget_group
  cleanup_group s group still_exists = if still_exists then s else forget_group s group
