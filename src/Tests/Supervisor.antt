-- ===== src/Tests/Supervisor.antt =====
-- A start that reaches `Running`, and the ways out of it.
use aegis_desk.Prelude.{ℕ, ◌≡◌, ◌≤◌, refl, true, [], ◌∷◌, length}
use aegis_desk.Prelude.Int.{pos, negsuc, ltb_ℤ}
use aegis_desk.Service.State.{ServiceState}
use aegis_desk.Supervisor.State.{
  Supervisor, new_supervisor, exited, reaped, mark_child_exited, save_exit_status,
}
use aegis_desk.Supervisor.Sections.{
  begin_start, enter_starting, record_child, confirm_running, observe_exit,
}
use aegis_desk.Supervisor.Run.{
  Pc, Observer, world, Joinable, IsDocumented, reap, Step, Reach, here, next,
}
use aegis_desk.Supervisor.Safety.{initial}
use aegis_desk.Supervisor.Safety.Children.{
  IsOnlyChild, running-has_child, length-children, waiting-tracks, idle-leaves_none,
}
use aegis_desk.Supervisor.Safety.Stopping.{stopped_in_cleanup, stop-stays_stopping}
use aegis_desk.Prelude.Text.{Str}
use aegis_desk.Tests.Data
use aegis_desk.Tests.Data.{doubles_ℕ}

-- The supervisor before a start, through its blocks, and after the process 7 has exited with 1.
abbrev same_path : Str → Str
same_path path = path

abbrev s0 : Supervisor ℕ
s0 = new_supervisor same_path Data.service (pos 0)

abbrev s1 : Supervisor ℕ
s1 = (begin_start s0).0

abbrev s2 : Supervisor ℕ
s2 = (enter_starting s1 (pos 1)).0

abbrev s3 : Supervisor ℕ
s3 = record_child s2 (pos 7) (pos 2)

abbrev running_7 : Supervisor ℕ
running_7 = confirm_running s3 (pos 7) (pos 3)

abbrev exited_7 : Supervisor ℕ
exited_7 = observe_exit running_7 (pos 7) (reaped (exited (pos 1))) (pos 9)

reaches_running :
    Reach
      (initial same_path Data.service (pos 0))
      (world Pc.idle (Observer.waiting (pos 7)) running_7 (pos 7 ∷ []))
unfolding begin_start enter_starting new_supervisor
reaches_running =
    next
      (next
        (next
          (next
            (next (next (next here (Step.start_begins refl)) (Step.start_joins Joinable.no_thread))
              (Step.enters (pos 1) refl))
            (Step.forks (pos 7) refl))
          (Step.exec_confirmed (pos 2)))
        Step.observer_starts)
      (Step.start_succeeds (pos 3))

reaches_exited :
    Reach
      (initial same_path Data.service (pos 0))
      (world Pc.idle (Observer.cleaning (pos 7)) exited_7 [])
unfolding begin_start enter_starting new_supervisor record_child confirm_running
reaches_exited =
    next
      (next reaches_running
        (Step.reaps (reaped (exited (pos 1))) (IsDocumented.by_status (exited (pos 1)))))
      (Step.observes (pos 9))

running-has_child_example :
    (ltb_ℤ (pos 0) running_7.pid ≡ true)
    × IsOnlyChild running_7.pid (Observer.waiting (pos 7)) (pos 7 ∷ [])
unfolding begin_start enter_starting new_supervisor record_child confirm_running
running-has_child_example = running-has_child same_path Data.service (pos 0) reaches_running refl

length-children_example : length (pos 7 ∷ []) ≤ 1
length-children_example = length-children same_path Data.service (pos 0) reaches_running

waiting-tracks_example :
    running_7.pid ≡ pos 7 × ltb_ℤ (pos 0) (pos 7) ≡ true × pos 7 ∷ [] ≡ pos 7 ∷ []
waiting-tracks_example = waiting-tracks same_path Data.service (pos 0) reaches_running

idle-leaves_none_example : reap (pos 7) (pos 7 ∷ []) ≡ []
unfolding begin_start enter_starting new_supervisor record_child confirm_running observe_exit
    mark_child_exited save_exit_status
idle-leaves_none_example = idle-leaves_none same_path Data.service (pos 0) reaches_exited refl

stop-stays_stopping_example :
    Reach
      (world Pc.idle (Observer.cleaning (pos 7)) exited_7 [])
      (world Pc.idle Observer.absent (stopped_in_cleanup exited_7 (pos 10)) [])
    × (stopped_in_cleanup exited_7 (pos 10)).state ≡ ServiceState.stopping
    × (stopped_in_cleanup exited_7 (pos 10)).pid ≡ negsuc 0
    × (stopped_in_cleanup exited_7 (pos 10)).process_group_id ≡ negsuc 0
unfolding begin_start enter_starting new_supervisor record_child confirm_running observe_exit
    mark_child_exited save_exit_status
stop-stays_stopping_example = stop-stays_stopping exited_7 [] (pos 10) refl refl
