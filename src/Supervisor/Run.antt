-- ===== src/Supervisor/Run.antt =====
-- The operations of a supervisor as sequences of critical sections, interleaved with the exit
-- observer. `operation_mutex_` is the single operation counter: an operation starts from `idle`.
-- System calls and clocks are choices of the steps; their failures are steps of their own.
use aegis_desk.Prelude.{◌≡◌, Bool, true, false, none, some, List, [], ◌∷◌, if◌then◌else◌}
use aegis_desk.Prelude.Int.{ℤ, pos, ltb_ℤ, eqb_ℤ}
use aegis_desk.Prelude.Text.{Str}
use aegis_desk.Service.State.{DesiredState}
use aegis_desk.Supervisor.State.{Supervisor, WaitStatus, WaitResult, reaped, no_child}
use aegis_desk.Supervisor.Sections.{
  set_desired_state, begin_start, enter_starting, fail_start, record_child, fail_observer,
  confirm_running, has_no_target, begin_stop, fail_stop, leader_was_observed, forget_group,
  observe_exit, cleanup_group,
}

-- What follows a successful stop: `Stop` returns, `Restart` goes on to StartOperation.
pub data After : Type 0 where
  finish then_start : After

-- Where the operation stands; numbers are the process and the group that it works on.
pub data Pc : Type 0 where
  idle start_checked start_joined start_entered : Pc
  start_forked start_recorded start_observed : ℤ → Pc
  stop_term stop_term_wait stop_kill stop_kill_wait : ℤ → ℤ → After → Pc
  stop_joining : After → Pc

-- `observer_thread_`: not joinable, in `waitpid`, between its return and the block that records the
-- exit, in the group's cleanup, or over but not joined.
pub data Observer : Type 0 where
  absent finished : Observer
  waiting cleaning : ℤ → Observer
  recording : ℤ → WaitResult → Observer

-- The last part is the leaders that were forked and not yet reaped: the kernel's view.
pub data World (D : Type 0) : Type 0 where
  world : Pc → Observer → Supervisor D → List ℤ → World D

-- `observer_thread_.join()` returns at once.
pub data Joinable : Observer → Type 0 where
  no_thread : Joinable absent
  thread_over : Joinable finished

-- POSIX: waitpid of one pid with no options ends by a reaped child or ECHILD, once EINTR is retried.
pub data IsDocumented : WaitResult → Type 0 where
  by_status : (status : WaitStatus) → IsDocumented (reaped status)
  by_absence : IsDocumented no_child

abbrev pub reap : ℤ → List ℤ → List ℤ
reap c [] = []
reap c (x ∷ xs) = let rest = reap c xs in if eqb_ℤ x c then rest else x ∷ rest

abbrev pub observer_after : {D : Type 0} → Supervisor D → ℤ → Observer
observer_after s target = if eqb_ℤ s.pid target then cleaning target else finished

pub data Step {D : Type 0} : World D → World D → Type 0 where
  -- SetDesiredState.
  sets_desired :
      {obs : Observer} {s : Supervisor D} {ch : List ℤ} (d : DesiredState)
      → Step (world idle obs s ch) (world idle obs (set_desired_state s d) ch)
  -- Start.
  start_refused :
      {obs : Observer} {s : Supervisor D} {ch : List ℤ} (e : Str)
      → (begin_start s).1 ≡ some e
      → Step (world idle obs s ch) (world idle obs (begin_start s).0 ch)
  start_begins :
      {obs : Observer} {s : Supervisor D} {ch : List ℤ}
      → (begin_start s).1 ≡ none
      → Step (world idle obs s ch) (world start_checked obs (begin_start s).0 ch)
  start_joins :
      {obs : Observer} {s : Supervisor D} {ch : List ℤ}
      → Joinable obs
      → Step (world start_checked obs s ch) (world start_joined absent s ch)
  enter_refused :
      {obs : Observer} {s : Supervisor D} {ch : List ℤ} (now : ℤ) (e : Str)
      → (enter_starting s now).1 ≡ some e
      → Step (world start_joined obs s ch) (world idle obs (enter_starting s now).0 ch)
  enters :
      {obs : Observer} {s : Supervisor D} {ch : List ℤ} (now : ℤ)
      → (enter_starting s now).1 ≡ none
      → Step (world start_joined obs s ch) (world start_entered obs (enter_starting s now).0 ch)
  start_fails :
      {obs : Observer} {s : Supervisor D} {ch : List ℤ} (e : Str) (now : ℤ)
      → Step (world start_entered obs s ch) (world idle obs (fail_start s e now) ch)
  forks :
      {obs : Observer} {s : Supervisor D} {ch : List ℤ} (c : ℤ)
      → ltb_ℤ (pos 0) c ≡ true
      → Step (world start_entered obs s ch) (world (start_forked c) obs s (c ∷ ch))
  exec_fails :
      {obs : Observer} {s : Supervisor D} {ch : List ℤ} {c : ℤ} (e : Str) (now : ℤ)
      → Step (world (start_forked c) obs s ch) (world idle obs (fail_start s e now) (reap c ch))
  exec_confirmed :
      {obs : Observer} {s : Supervisor D} {ch : List ℤ} {c : ℤ} (now : ℤ)
      → Step
          (world (start_forked c) obs s ch)
          (world (start_recorded c) obs (record_child s c now) ch)
  observer_starts :
      {obs : Observer} {s : Supervisor D} {ch : List ℤ} {c : ℤ}
      → Step (world (start_recorded c) obs s ch) (world (start_observed c) (waiting c) s ch)
  observer_fails :
      {obs : Observer} {s : Supervisor D} {ch : List ℤ} {c : ℤ} (e : Str) (now : ℤ)
      → Step
          (world (start_recorded c) obs s ch)
          (world idle obs (fail_observer s c e now) (reap c ch))
  start_succeeds :
      {obs : Observer} {s : Supervisor D} {ch : List ℤ} {c : ℤ} (now : ℤ)
      → Step (world (start_observed c) obs s ch) (world idle obs (confirm_running s c now) ch)
  -- Stop, and Restart, which sets the desired state in a block of its own first.
  stop_without_target :
      {obs : Observer} {s : Supervisor D} {ch : List ℤ} (now : ℤ)
      → has_no_target s ≡ true
      → Step
          (world idle obs s ch)
          (world (stop_joining finish) obs (begin_stop s DesiredState.stopped now) ch)
  stop_begins :
      {obs : Observer} {s : Supervisor D} {ch : List ℤ} (now : ℤ)
      → has_no_target s ≡ false
      → Step (world idle obs s ch) (
          world
            (stop_term s.pid s.process_group_id finish)
            obs
            (begin_stop s DesiredState.stopped now)
            ch)
  restart_without_target :
      {obs : Observer} {s : Supervisor D} {ch : List ℤ} (now : ℤ)
      → has_no_target s ≡ true
      → Step
          (world idle obs s ch)
          (world (stop_joining then_start) obs (begin_stop s DesiredState.running now) ch)
  restart_begins :
      {obs : Observer} {s : Supervisor D} {ch : List ℤ} (now : ℤ)
      → has_no_target s ≡ false
      → Step (world idle obs s ch) (
          world
            (stop_term s.pid s.process_group_id then_start)
            obs
            (begin_stop s DesiredState.running now)
            ch)
  term_fails :
      {obs : Observer} {s : Supervisor D} {ch : List ℤ} {p g : ℤ} {k : After} (e : Str) (now : ℤ)
      → Step (world (stop_term p g k) obs s ch) (world idle obs (fail_stop s p e now) ch)
  term_sent :
      {obs : Observer} {s : Supervisor D} {ch : List ℤ} {p g : ℤ} {k : After}
      → Step (world (stop_term p g k) obs s ch) (world (stop_term_wait p g k) obs s ch)
  term_works :
      {obs : Observer} {s : Supervisor D} {ch : List ℤ} {p g : ℤ} {k : After}
      → leader_was_observed s p ≡ true
      → Step
          (world (stop_term_wait p g k) obs s ch)
          (world (stop_joining k) obs (forget_group s g) ch)
  term_times_out :
      {obs : Observer} {s : Supervisor D} {ch : List ℤ} {p g : ℤ} {k : After}
      → Step (world (stop_term_wait p g k) obs s ch) (world (stop_kill p g k) obs s ch)
  kill_fails :
      {obs : Observer} {s : Supervisor D} {ch : List ℤ} {p g : ℤ} {k : After} (e : Str) (now : ℤ)
      → Step (world (stop_kill p g k) obs s ch) (world idle obs (fail_stop s p e now) ch)
  kill_sent :
      {obs : Observer} {s : Supervisor D} {ch : List ℤ} {p g : ℤ} {k : After}
      → Step (world (stop_kill p g k) obs s ch) (world (stop_kill_wait p g k) obs s ch)
  kill_works :
      {obs : Observer} {s : Supervisor D} {ch : List ℤ} {p g : ℤ} {k : After}
      → leader_was_observed s p ≡ true
      → Step
          (world (stop_kill_wait p g k) obs s ch)
          (world (stop_joining k) obs (forget_group s g) ch)
  kill_times_out :
      {obs : Observer} {s : Supervisor D} {ch : List ℤ} {p g : ℤ} {k : After} (e : Str) (now : ℤ)
      → Step (world (stop_kill_wait p g k) obs s ch) (world idle obs (fail_stop s p e now) ch)
  stop_returns :
      {obs : Observer} {s : Supervisor D} {ch : List ℤ}
      → Joinable obs
      → Step (world (stop_joining finish) obs s ch) (world idle absent s ch)
  restart_refused :
      {obs : Observer} {s : Supervisor D} {ch : List ℤ} (e : Str)
      → Joinable obs
      → (begin_start s).1 ≡ some e
      → Step (world (stop_joining then_start) obs s ch) (world idle absent (begin_start s).0 ch)
  restart_starts :
      {obs : Observer} {s : Supervisor D} {ch : List ℤ}
      → Joinable obs
      → (begin_start s).1 ≡ none
      → Step
          (world (stop_joining then_start) obs s ch)
          (world start_checked absent (begin_start s).0 ch)
  -- The observer thread.
  reaps :
      {pc : Pc} {s : Supervisor D} {ch : List ℤ} {c : ℤ} (r : WaitResult)
      → IsDocumented r
      → Step (world pc (waiting c) s ch) (world pc (recording c r) s (reap c ch))
  observes :
      {pc : Pc} {s : Supervisor D} {ch : List ℤ} {c : ℤ} {r : WaitResult} (now : ℤ)
      → Step
          (world pc (recording c r) s ch)
          (world pc (observer_after s c) (observe_exit s c r now) ch)
  cleans_up :
      {pc : Pc} {s : Supervisor D} {ch : List ℤ} {g : ℤ} (still_exists : Bool)
      → Step (world pc (cleaning g) s ch) (world pc finished (cleanup_group s g still_exists) ch)

pub data Reach {D : Type 0} (w : World D) : World D → Type 0 where
  here : Reach w w
  next : {t u : World D} → Reach w t → Step t u → Reach w u
