-- ===== src/Supervisor/Safety.antt =====
-- What the interleavings of Supervisor/Run.antt preserve, for process_supervisor.cpp: the tracked
-- pid against the children that the kernel holds, at every place of an operation and its observer.
pub mod Children
pub mod Stopping
use aegis_desk.Prelude.{
  ℕ, ◌≡◌, Bool, true, false, Option, none, some, List, [], ◌∷◌, ◌&&◌, ◌||◌, not, if◌then◌else◌,
  refl, sym, arith, length, ◌≤◌,
}
use aegis_desk.Prelude.Int.{ℤ, pos, negsuc, ltb_ℤ, leb_ℤ, eqb_ℤ}
use aegis_desk.Prelude.Text.{Str}
use aegis_desk.Double.{Doubles}
use aegis_desk.Service.State.{DesiredState, ServiceState, is_running}
use aegis_desk.Service.Definition.{ServiceDefinition}
use aegis_desk.Supervisor.State.{
  Supervisor, no_pid, new_supervisor, get_status, uptime_of, exited, signaled, other,
  save_exit_status, mark_child_exited,
}
use aegis_desk.Supervisor.Sections.{
  set_desired_state, begin_start, enter_starting, fail_start, record_child, fail_observer,
  confirm_running, begin_stop, fail_stop, forget_group, observe_exit, cleanup_group,
}
use aegis_desk.Supervisor.Run.{
  After, Pc, Observer, World, world, Joinable, IsDocumented, observer_after, reap, Step, Reach,
  here, next,
}

-- Outside StartOperation's fork: a pid is tracked exactly while the observer waits for it or has
-- reaped it and not yet recorded that.
Settled : Observer → ℤ → List ℤ → Type 0
Settled Observer.absent pid ch = (pid ≡ no_pid) × (ch ≡ [])
Settled Observer.finished pid ch = (pid ≡ no_pid) × (ch ≡ [])
Settled (Observer.waiting c) pid ch = (pid ≡ c) × (ltb_ℤ (pos 0) c ≡ true) × (ch ≡ c ∷ [])
Settled (Observer.recording c r) pid ch =
    (pid ≡ c) × (ltb_ℤ (pos 0) c ≡ true) × (ch ≡ []) × IsDocumented r
Settled (Observer.cleaning g) pid ch = (pid ≡ no_pid) × (ch ≡ [])

Facts : Pc → Observer → ℤ → List ℤ → Type 0
Facts Pc.idle obs pid ch = Settled obs pid ch
Facts Pc.start_checked obs pid ch = (pid ≡ no_pid) × Settled obs pid ch
Facts Pc.start_joined obs pid ch = (obs ≡ Observer.absent) × (pid ≡ no_pid) × (ch ≡ [])
Facts Pc.start_entered obs pid ch = (obs ≡ Observer.absent) × (pid ≡ no_pid) × (ch ≡ [])
Facts (Pc.start_forked c) obs pid ch =
    (obs ≡ Observer.absent) × (pid ≡ no_pid) × (ltb_ℤ (pos 0) c ≡ true) × (ch ≡ c ∷ [])
Facts (Pc.start_recorded c) obs pid ch =
    (obs ≡ Observer.absent) × (pid ≡ c) × (ltb_ℤ (pos 0) c ≡ true) × (ch ≡ c ∷ [])
Facts (Pc.start_observed c) obs pid ch = (ltb_ℤ (pos 0) c ≡ true) × Settled obs pid ch
Facts (Pc.stop_term p g k) obs pid ch = Settled obs pid ch
Facts (Pc.stop_term_wait p g k) obs pid ch = Settled obs pid ch
Facts (Pc.stop_kill p g k) obs pid ch = Settled obs pid ch
Facts (Pc.stop_kill_wait p g k) obs pid ch = Settled obs pid ch
Facts (Pc.stop_joining k) obs pid ch = Settled obs pid ch

-- A service that is shown as running has a process.
abbrev RunsWithPid : {D : Type 0} → Supervisor D → Type 0
RunsWithPid s = (not (is_running s.state) || ltb_ℤ (pos 0) s.pid) ≡ true

abbrev pub has_value : Option ℤ → Bool
has_value none = false
has_value (some t) = true

-- The uptime is counted exactly while a process is tracked.
abbrev CountsUptime : {D : Type 0} → Supervisor D → Type 0
CountsUptime s = has_value s.start_time ≡ ltb_ℤ (pos 0) s.pid

Inv : {D : Type 0} → World D → Type 0
Inv (world pc obs s ch) = Facts pc obs s.pid ch × RunsWithPid s × CountsUptime s

eqb_refl : (c : ℤ) → eqb_ℤ c c ≡ true
eqb_refl c = ground arith

-- Closed forms of what the observer leaves behind.
observe_exit_pid :
    {D : Type 0} (s : Supervisor D) (r : _) (now : ℤ)
    → IsDocumented r
    → (observe_exit s s.pid r now).pid ≡ no_pid
unfolding observe_exit save_exit_status mark_child_exited
observe_exit_pid s _ now (IsDocumented.by_status (exited code)) = simp eqb_refl
observe_exit_pid s _ now (IsDocumented.by_status (signaled signal)) = simp eqb_refl
observe_exit_pid s _ now (IsDocumented.by_status other) = simp eqb_refl
observe_exit_pid s _ now IsDocumented.by_absence = simp eqb_refl

observe_exit_runs :
    {D : Type 0} (s : Supervisor D) (r : _) (now : ℤ)
    → IsDocumented r
    → is_running (observe_exit s s.pid r now).state ≡ false
unfolding observe_exit save_exit_status mark_child_exited
observe_exit_runs s _ now (IsDocumented.by_status (exited code)) = ground arith
observe_exit_runs s _ now (IsDocumented.by_status (signaled signal)) = ground arith
observe_exit_runs s _ now (IsDocumented.by_status other) = ground arith
observe_exit_runs s _ now IsDocumented.by_absence = ground arith

observe_exit_clock :
    {D : Type 0} (s : Supervisor D) (r : _) (now : ℤ)
    → IsDocumented r
    → has_value (observe_exit s s.pid r now).start_time ≡ false
unfolding observe_exit save_exit_status mark_child_exited
observe_exit_clock s _ now (IsDocumented.by_status (exited code)) = ground arith
observe_exit_clock s _ now (IsDocumented.by_status (signaled signal)) = ground arith
observe_exit_clock s _ now (IsDocumented.by_status other) = ground arith
observe_exit_clock s _ now IsDocumented.by_absence = ground arith

Settled-own :
    {D : Type 0} (s : Supervisor D) (r : _) (now : ℤ)
    → IsDocumented r
    → Settled (observer_after s s.pid) (observe_exit s s.pid r now).pid []
      × RunsWithPid (observe_exit s s.pid r now)
      × CountsUptime (observe_exit s s.pid r now)
unfolding Settled
Settled-own s r now d =
    simp
      (
        eqb_refl,
        observe_exit_pid s r now d,
        observe_exit_runs s r now d,
        observe_exit_clock s r now d,
      )
      ((refl, refl), refl, refl)

Settled-observe :
    {D : Type 0} (s : Supervisor D) (ch : List ℤ) (c : ℤ) (r : _) (now : ℤ)
    → Settled (Observer.recording c r) s.pid ch
    → Settled (observer_after s c) (observe_exit s c r now).pid ch
      × RunsWithPid (observe_exit s c r now)
      × CountsUptime (observe_exit s c r now)
unfolding Settled
Settled-observe s ch c r now (p, l, h, d) = rw h (rw (sym p) (Settled-own s r now d))

Settled-reap :
    (pid : ℤ) (ch : List ℤ) (c : ℤ) (r : _)
    → IsDocumented r
    → Settled (Observer.waiting c) pid ch
    → Settled (Observer.recording c r) pid (reap c ch)
unfolding Settled
Settled-reap pid ch c r d (p, l, h) = (p, l, rw (h, eqb_refl c) refl, d)

abbrev Moves : {D : Type 0} → World D → World D → Type 0
Moves t u = Inv t → Inv u

reaps_inv :
    {D : Type 0} (pc : Pc) (s : Supervisor D) (ch : List ℤ) (c : ℤ) (r : _)
    → IsDocumented r
    → Moves (world pc (Observer.waiting c) s ch) (world pc (Observer.recording c r) s (reap c ch))
unfolding Inv Facts
reaps_inv Pc.idle s ch c r d i = (Settled-reap s.pid ch c r d i.0, i.1, i.2)
reaps_inv (Pc.stop_term p g k) s ch c r d i = (Settled-reap s.pid ch c r d i.0, i.1, i.2)
reaps_inv (Pc.stop_term_wait p g k) s ch c r d i = (Settled-reap s.pid ch c r d i.0, i.1, i.2)
reaps_inv (Pc.stop_kill p g k) s ch c r d i = (Settled-reap s.pid ch c r d i.0, i.1, i.2)
reaps_inv (Pc.stop_kill_wait p g k) s ch c r d i = (Settled-reap s.pid ch c r d i.0, i.1, i.2)
reaps_inv (Pc.stop_joining k) s ch c r d i = (Settled-reap s.pid ch c r d i.0, i.1, i.2)
reaps_inv (Pc.start_observed b) s ch c r d i =
    ((i.0.0, Settled-reap s.pid ch c r d i.0.1), i.1, i.2)
reaps_inv Pc.start_checked s ch c r d i = ((i.0.0, Settled-reap s.pid ch c r d i.0.1), i.1, i.2)
reaps_inv Pc.start_joined s ch c r d i = ground arith
reaps_inv Pc.start_entered s ch c r d i = ground arith
reaps_inv (Pc.start_forked b) s ch c r d i = ground arith
reaps_inv (Pc.start_recorded b) s ch c r d i = ground arith

observes_inv :
    {D : Type 0} (pc : Pc) (s : Supervisor D) (ch : List ℤ) (c : ℤ) (r : _) (now : ℤ)
    → Moves
        (world pc (Observer.recording c r) s ch)
        (world pc (observer_after s c) (observe_exit s c r now) ch)
unfolding Inv Facts Settled
observes_inv Pc.idle s ch c r now i = Settled-observe s ch c r now i.0
observes_inv (Pc.stop_term p g k) s ch c r now i = Settled-observe s ch c r now i.0
observes_inv (Pc.stop_term_wait p g k) s ch c r now i = Settled-observe s ch c r now i.0
observes_inv (Pc.stop_kill p g k) s ch c r now i = Settled-observe s ch c r now i.0
observes_inv (Pc.stop_kill_wait p g k) s ch c r now i = Settled-observe s ch c r now i.0
observes_inv (Pc.stop_joining k) s ch c r now i = Settled-observe s ch c r now i.0
observes_inv (Pc.start_observed b) s ch c r now i =
    let o = Settled-observe s ch c r now i.0.1 in ((i.0.0, o.0), o.1, o.2)
observes_inv Pc.start_checked s ch c r now i = ground arith
observes_inv Pc.start_joined s ch c r now i = ground arith
observes_inv Pc.start_entered s ch c r now i = ground arith
observes_inv (Pc.start_forked b) s ch c r now i = ground arith
observes_inv (Pc.start_recorded b) s ch c r now i = ground arith

cleans_up_inv :
    {D : Type 0} (pc : Pc) (s : Supervisor D) (ch : List ℤ) (g : ℤ) (b : Bool)
    → Moves
        (world pc (Observer.cleaning g) s ch)
        (world pc Observer.finished (cleanup_group s g b) ch)
unfolding Inv Facts Settled cleanup_group forget_group
cleans_up_inv Pc.idle s ch g b i = ground arith
cleans_up_inv Pc.start_checked s ch g b i = ground arith
cleans_up_inv Pc.start_joined s ch g b i = ground arith
cleans_up_inv Pc.start_entered s ch g b i = ground arith
cleans_up_inv (Pc.start_forked c) s ch g b i = ground arith
cleans_up_inv (Pc.start_recorded c) s ch g b i = ground arith
cleans_up_inv (Pc.start_observed c) s ch g b i = ground arith
cleans_up_inv (Pc.stop_term p q k) s ch g b i = ground arith
cleans_up_inv (Pc.stop_term_wait p q k) s ch g b i = ground arith
cleans_up_inv (Pc.stop_kill p q k) s ch g b i = ground arith
cleans_up_inv (Pc.stop_kill_wait p q k) s ch g b i = ground arith
cleans_up_inv (Pc.stop_joining k) s ch g b i = ground arith

Step-Inv : {D : Type 0} {t u : World D} → Step t u → Inv t → Inv u
unfolding Inv Facts Settled set_desired_state begin_start enter_starting fail_start record_child
    fail_observer confirm_running begin_stop fail_stop forget_group
Step-Inv (Step.sets_desired d) i = ground arith
Step-Inv (Step.start_refused e q) i = ground arith
Step-Inv (Step.start_begins q) i = ground arith
Step-Inv (Step.start_joins Joinable.no_thread) i = ground arith
Step-Inv (Step.start_joins Joinable.thread_over) i = ground arith
Step-Inv (Step.enter_refused now e q) i = ground arith
Step-Inv (Step.enters now q) i = ground arith
Step-Inv (Step.start_fails e now) i = ground arith
Step-Inv (Step.forks c l) i = ground arith
Step-Inv (Step.exec_fails e now) i = ground arith
Step-Inv (Step.exec_confirmed now) i = ground arith
Step-Inv Step.observer_starts i = ground arith
Step-Inv (Step.observer_fails e now) i = ground arith
Step-Inv (Step.start_succeeds now) i = ground arith
Step-Inv (Step.stop_without_target now q) i = ground arith
Step-Inv (Step.stop_begins now q) i = ground arith
Step-Inv (Step.restart_without_target now q) i = ground arith
Step-Inv (Step.restart_begins now q) i = ground arith
Step-Inv (Step.term_fails e now) i = ground arith
Step-Inv Step.term_sent i = ground arith
Step-Inv (Step.term_works q) i = ground arith
Step-Inv Step.term_times_out i = ground arith
Step-Inv (Step.kill_fails e now) i = ground arith
Step-Inv Step.kill_sent i = ground arith
Step-Inv (Step.kill_works q) i = ground arith
Step-Inv (Step.kill_times_out e now) i = ground arith
Step-Inv (Step.stop_returns Joinable.no_thread) i = ground arith
Step-Inv (Step.stop_returns Joinable.thread_over) i = ground arith
Step-Inv (Step.restart_refused e Joinable.no_thread q) i = ground arith
Step-Inv (Step.restart_refused e Joinable.thread_over q) i = ground arith
Step-Inv (Step.restart_starts Joinable.no_thread q) i = ground arith
Step-Inv (Step.restart_starts Joinable.thread_over q) i = ground arith
Step-Inv (Step.reaps {pc} {s} {ch} {c} r d) i = reaps_inv pc s ch c r d i
Step-Inv (Step.observes {pc} {s} {ch} {c} {r} now) i = observes_inv pc s ch c r now i
Step-Inv (Step.cleans_up {pc} {s} {ch} {g} b) i = cleans_up_inv pc s ch g b i

Reach-Inv : {D : Type 0} {t u : World D} → Reach t u → Inv t → Inv u
Reach-Inv Reach.here i = i
Reach-Inv (Reach.next r s) i = Step-Inv s (Reach-Inv r i)

abbrev pub initial :
    {D : Type 0} → ⦃d : Doubles D⦄ → (Str → Str) → ServiceDefinition D → ℤ → World D
initial absolute definition now =
    world Pc.idle Observer.absent (new_supervisor absolute definition now) []

initial-Inv :
    {D : Type 0} ⦃d : Doubles D⦄ (absolute : Str → Str) (definition : ServiceDefinition D) (now : ℤ)
    → Inv (initial absolute definition now)
unfolding Inv Facts Settled new_supervisor
initial-Inv absolute definition now = ground arith
