-- ===== src/Supervisor/Safety/Stopping.antt =====
-- A Stop that is taken while the observer cleans up the process group of a leader that has exited
-- (process_supervisor.cpp).
use aegis_desk.Prelude.{◌≡◌, true, false, List, arith}
use aegis_desk.Prelude.Int.{ℤ, pos, ltb_ℤ}
use aegis_desk.Service.State.{DesiredState, ServiceState}
use aegis_desk.Supervisor.State.{Supervisor, no_pid}
use aegis_desk.Supervisor.Sections.{begin_stop, forget_group, cleanup_group}
use aegis_desk.Supervisor.Run.{Pc, Observer, world, Joinable, Step, Reach, here, next}

abbrev pub stopped_in_cleanup : {D : Type 0} → Supervisor D → ℤ → Supervisor D
stopped_in_cleanup s now =
    cleanup_group (forget_group (begin_stop s DesiredState.stopped now) s.process_group_id)
      s.process_group_id false

module _ {D : Type 0} (s : Supervisor D) (ch : List ℤ) (now : ℤ) where
  -- Where the leader has exited and its group is still tracked and being cleaned up, a Stop can
  -- return with success, with no process and no group left, in the state `Stopping`.
  pub stop-stays_stopping :
      s.pid ≡ no_pid
      → ltb_ℤ (pos 0) s.process_group_id ≡ true
      → Reach
          (world Pc.idle (Observer.cleaning s.process_group_id) s ch)
          (world Pc.idle Observer.absent (stopped_in_cleanup s now) ch)
        × (stopped_in_cleanup s now).state ≡ ServiceState.stopping
        × (stopped_in_cleanup s now).pid ≡ no_pid
        × (stopped_in_cleanup s now).process_group_id ≡ no_pid
  unfolding begin_stop forget_group cleanup_group
  stop-stays_stopping p g = (
    next
        (next
          (next (next (next here (Step.stop_begins now (ground arith))) Step.term_sent)
            (Step.term_works (ground arith)))
          (Step.cleans_up false))
        (Step.stop_returns Joinable.thread_over),
    ground arith,
    ground arith,
    ground arith,
  )
