-- ===== src/Supervisor/Safety/Children.antt =====
-- The child processes of a supervisor that starts as `new_supervisor` (process_supervisor.cpp).
use aegis_desk.Prelude.{◌≡◌, true, false, List, [], ◌∷◌, ◌≤◌, length, arith, ◌⊎◌, inl, inr}
use aegis_desk.Prelude.Int.{ℤ, pos, ltb_ℤ}
use aegis_desk.Prelude.Text.{Str}
use aegis_desk.Double.{Doubles}
use aegis_desk.Service.State.{is_running}
use aegis_desk.Service.Definition.{ServiceDefinition}
use aegis_desk.Supervisor.State.{Supervisor, WaitResult, get_status, uptime_of}
use aegis_desk.Supervisor.Run.{Pc, Observer, World, world, Reach}
use aegis_desk.Supervisor.Safety.{Inv, Facts, Settled, initial, initial-Inv, Reach-Inv}

-- The one child is the process with this pid; or the observer has reaped it, and has not yet entered
-- the block that records its exit.
abbrev pub IsOnlyChild : ℤ → Observer → List ℤ → Type 0
IsOnlyChild pid obs ch =
    (ch ≡ pid ∷ []) ⊎ ((r : WaitResult) × (obs ≡ Observer.recording pid r) × (ch ≡ []))

Settled-tracked :
    (obs : Observer) (pid : ℤ) (ch : List ℤ)
    → Settled obs pid ch
    → ltb_ℤ (pos 0) pid ≡ true
    → IsOnlyChild pid obs ch
unfolding Settled
Settled-tracked Observer.absent pid ch i h = absurd (ground arith)
Settled-tracked Observer.finished pid ch i h = absurd (ground arith)
Settled-tracked (Observer.cleaning g) pid ch i h = absurd (ground arith)
Settled-tracked (Observer.waiting c) pid ch i h = inl (ground arith)
Settled-tracked (Observer.recording c r) pid ch i h = inr (r, ground arith, ground arith)

Inv-tracked :
    {D : Type 0} (pc : Pc) (obs : Observer) (s : Supervisor D) (ch : List ℤ)
    → Inv (world pc obs s ch)
    → ltb_ℤ (pos 0) s.pid ≡ true
    → IsOnlyChild s.pid obs ch
unfolding Inv Facts
Inv-tracked Pc.idle obs s ch i h = Settled-tracked obs s.pid ch i.0 h
Inv-tracked Pc.start_checked obs s ch i h = Settled-tracked obs s.pid ch i.0.1 h
Inv-tracked Pc.start_joined obs s ch i h = absurd (ground arith)
Inv-tracked Pc.start_entered obs s ch i h = absurd (ground arith)
Inv-tracked (Pc.start_forked c) obs s ch i h = absurd (ground arith)
Inv-tracked (Pc.start_recorded c) obs s ch i h = inl (ground arith)
Inv-tracked (Pc.start_observed c) obs s ch i h = Settled-tracked obs s.pid ch i.0.1 h
Inv-tracked (Pc.stop_term p g k) obs s ch i h = Settled-tracked obs s.pid ch i.0 h
Inv-tracked (Pc.stop_term_wait p g k) obs s ch i h = Settled-tracked obs s.pid ch i.0 h
Inv-tracked (Pc.stop_kill p g k) obs s ch i h = Settled-tracked obs s.pid ch i.0 h
Inv-tracked (Pc.stop_kill_wait p g k) obs s ch i h = Settled-tracked obs s.pid ch i.0 h
Inv-tracked (Pc.stop_joining k) obs s ch i h = Settled-tracked obs s.pid ch i.0 h

Inv-running :
    {D : Type 0} (pc : Pc) (obs : Observer) (s : Supervisor D) (ch : List ℤ)
    → Inv (world pc obs s ch)
    → is_running s.state ≡ true
    → (ltb_ℤ (pos 0) s.pid ≡ true) × IsOnlyChild s.pid obs ch
unfolding Inv
Inv-running pc obs s ch i h =
    let tracked : ltb_ℤ (pos 0) s.pid ≡ true = ground arith in
    (tracked, Inv-tracked pc obs s ch i tracked)

module _ {D : Type 0} where
  Inv-single :
      (pc : Pc) (obs : Observer) (s : Supervisor D) (ch : List ℤ)
      → Inv (world pc obs s ch)
      → length ch ≤ 1
  unfolding Inv Facts Settled
  Inv-single pc obs s ch i = ground arith

  Inv-waiting :
      (pc : Pc) (c : ℤ) (s : Supervisor D) (ch : List ℤ)
      → Inv (world pc (Observer.waiting c) s ch)
      → s.pid ≡ c × ltb_ℤ (pos 0) c ≡ true × ch ≡ c ∷ []
  unfolding Inv Facts Settled
  Inv-waiting pc c s ch i = ground arith

  Inv-idle :
      (obs : Observer) (s : Supervisor D) (ch : List ℤ)
      → Inv (world Pc.idle obs s ch)
      → ltb_ℤ (pos 0) s.pid ≡ false
      → ch ≡ []
  unfolding Inv Facts Settled
  Inv-idle obs s ch i h = ground arith

  Inv-uptime :
      (to_seconds : ℤ → ℤ) (t : ℤ) (pc : Pc) (obs : Observer) (s : Supervisor D) (ch : List ℤ)
      → Inv (world pc obs s ch)
      → ltb_ℤ (pos 0) (get_status to_seconds s t).pid ≡ false
      → (get_status to_seconds s t).uptime ≡ pos 0
  unfolding Inv get_status uptime_of
  Inv-uptime to_seconds t pc obs s ch i h = ground arith

module _ {D : Type 0} ⦃d : Doubles D⦄ (absolute : Str → Str) (definition : ServiceDefinition D)
    (now : ℤ) where
  reached-Inv : {u : World D} → Reach (initial absolute definition now) u → Inv u
  reached-Inv r = Reach-Inv r (initial-Inv absolute definition now)

  -- However operations and the observer interleave, a service that is shown as running has a
  -- positive pid, and that pid is the one child that the kernel holds unreaped, or it has just been
  -- reaped by the observer, which has not yet entered the block that records the exit.
  pub running-has_child :
      {pc : Pc} {obs : Observer} {s : Supervisor D} {ch : List ℤ}
      → Reach (initial absolute definition now) (world pc obs s ch)
      → is_running s.state ≡ true
      → (ltb_ℤ (pos 0) s.pid ≡ true) × IsOnlyChild s.pid obs ch
  running-has_child r h = Inv-running _ _ _ _ (reached-Inv r) h

  -- However operations and the observer interleave, a supervisor never has two unreaped children.
  pub length-children :
      {pc : Pc} {obs : Observer} {s : Supervisor D} {ch : List ℤ}
      → Reach (initial absolute definition now) (world pc obs s ch)
      → length ch ≤ 1
  length-children r = Inv-single _ _ _ _ (reached-Inv r)

  -- While the observer waits for c, the supervisor tracks c, which is positive, and c is the one
  -- unreaped child, so that waitpid finds it.
  pub waiting-tracks :
      {pc : Pc} {c : ℤ} {s : Supervisor D} {ch : List ℤ}
      → Reach (initial absolute definition now) (world pc (Observer.waiting c) s ch)
      → s.pid ≡ c × ltb_ℤ (pos 0) c ≡ true × ch ≡ c ∷ []
  waiting-tracks r = Inv-waiting _ _ _ _ (reached-Inv r)

  -- Between operations, a supervisor that tracks no process has left no unreaped child behind,
  -- whichever way the operations before ended.
  pub idle-leaves_none :
      {obs : Observer} {s : Supervisor D} {ch : List ℤ}
      → Reach (initial absolute definition now) (world Pc.idle obs s ch)
      → ltb_ℤ (pos 0) s.pid ≡ false
      → ch ≡ []
  idle-leaves_none r h = Inv-idle _ _ _ (reached-Inv r) h

  -- A status without a process shows an uptime of 0.
  pub uptime-without_process :
      {pc : Pc} {obs : Observer} {s : Supervisor D} {ch : List ℤ} (to_seconds : ℤ → ℤ) (t : ℤ)
      → Reach (initial absolute definition now) (world pc obs s ch)
      → ltb_ℤ (pos 0) (get_status to_seconds s t).pid ≡ false
      → (get_status to_seconds s t).uptime ≡ pos 0
  uptime-without_process to_seconds t r h = Inv-uptime to_seconds t _ _ _ _ (reached-Inv r) h
