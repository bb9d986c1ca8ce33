-- ===== src/Monitor/Worker.antt =====
-- The thread of the monitor (health_monitor.cpp): Start, Stop and IsRunning, interleaved with the
-- threads that leave Run. A thread that Stop has moved out of `worker_` may still be in Run while
-- another one is started.
use aegis_desk.Prelude.{
  ℕ, suc, ◌≡◌, refl, Bool, true, false, ◌&&◌, ◌||◌, not, if◌then◌else◌, arith, ◌++◌,
}
use aegis_desk.Prelude.Int.{ℤ, pos, leb_ℤ}
use aegis_desk.Prelude.Text.{text}
use aegis_desk.Prelude.Result.{Result, ok, err}

pub record MonitorWorker : Type 0 where
  pub interval : ℤ
  -- `worker_.joinable()`; whether its thread is in Run, and whether its stop token is set.
  pub worker_is_joinable : Bool
  pub worker_in_run : Bool
  pub worker_token : Bool
  pub stop_requested : Bool
  -- Threads in Run that `worker_` no longer holds, by their stop tokens.
  pub moved_with_token : ℕ
  pub moved_without_token : ℕ

abbrev pub new_worker : ℤ → MonitorWorker
new_worker interval = record {
  interval = interval;
  worker_is_joinable = false;
  worker_in_run = false;
  worker_token = false;
  stop_requested = false;
  moved_with_token = 0;
  moved_without_token = 0;
}

-- `thread` is what the constructor of the thread gives, the text of its exception if any.
unfoldable pub start : MonitorWorker → Result (Unit {0}) → MonitorWorker × Result (Unit {0})
start m thread =
    if leb_ℤ m.interval (pos 0)
    then (m, err (text "health monitor interval must be greater than zero"))
    else if m.worker_is_joinable
    then (m, err (text "health monitor is already running"))
    else elim thread [
      | ok _ ↦ (
        record m {
          stop_requested = false;
          worker_is_joinable = true;
          worker_in_run = true;
          worker_token = false;
        },
        ok tt,
      )
      | err what ↦ (
        record m { stop_requested = false },
        err (text "failed to start health monitor: " ++ what),
      )
    ]

-- Up to the join, which waits until the thread that is moved out has left Run.
unfoldable pub stop : Bool → MonitorWorker → MonitorWorker
stop by_worker m =
    let asked = record m { stop_requested = true; worker_token = true } in
    if not m.worker_is_joinable
    then record m { stop_requested = true }
    else if by_worker
    then asked
    else record asked {
      worker_is_joinable = false;
      worker_in_run = false;
      moved_with_token =
          if asked.worker_in_run && asked.worker_token
          then suc m.moved_with_token
          else m.moved_with_token;
      moved_without_token =
          if asked.worker_in_run && not asked.worker_token
          then suc m.moved_without_token
          else m.moved_without_token;
    }

unfoldable pub is_running : MonitorWorker → Bool
is_running m = m.worker_is_joinable && not m.stop_requested

-- A thread leaves the loop of Run where its token or `stop_requested_` is set.
pub data Step : MonitorWorker → MonitorWorker → Type 0 where
  starts : {m : MonitorWorker} (thread : Result (Unit {0})) → Step m (start m thread).0
  stops : {m : MonitorWorker} (by_worker : Bool) → Step m (stop by_worker m)
  leaves :
      {m : MonitorWorker}
      → (m.worker_token || m.stop_requested) ≡ true
      → Step m (record m { worker_in_run = false })
  moved_leaves :
      {m : MonitorWorker} {n : ℕ}
      → m.moved_with_token ≡ suc n
      → Step m (record m { moved_with_token = n })
  unasked_leaves :
      {m : MonitorWorker} {n : ℕ}
      → m.moved_without_token ≡ suc n
      → m.stop_requested ≡ true
      → Step m (record m { moved_without_token = n })

pub data Reach (m : MonitorWorker) : MonitorWorker → Type 0 where
  here : Reach m m
  next : {t u : MonitorWorker} → Reach m t → Step t u → Reach m u

record Inv (m : MonitorWorker) : Type 0 where
  in_run : is_running m ≡ true → m.worker_in_run ≡ true
  no_token : is_running m ≡ true → m.worker_token ≡ false
  all_asked : m.moved_without_token ≡ 0

Step-Inv : {s t : MonitorWorker} → Inv s → Step s t → Inv t
unfolding start stop is_running
Step-Inv {s} h (Step.starts (ok x)) = record {
  in_run = ground (arith, h.in_run);
  no_token = ground (arith, h.no_token);
  all_asked = ground (arith, h.all_asked);
}
Step-Inv {s} h (Step.starts (err x)) = record {
  in_run = ground (arith, h.in_run);
  no_token = ground (arith, h.no_token);
  all_asked = ground (arith, h.all_asked);
}
Step-Inv {s} h (Step.stops by_worker) = record {
  in_run = ground (arith, h.in_run);
  no_token = ground (arith, h.no_token);
  all_asked = ground (arith, h.all_asked);
}
Step-Inv {s} h (Step.leaves e) = record {
  in_run = ground (arith, e, h.in_run, h.no_token);
  no_token = ground (arith, h.no_token);
  all_asked = h.all_asked;
}
Step-Inv {s} h (Step.moved_leaves e) = record {
  in_run = h.in_run;
  no_token = h.no_token;
  all_asked = h.all_asked;
}
Step-Inv {s} h (Step.unasked_leaves e _) = record {
  in_run = h.in_run;
  no_token = h.no_token;
  all_asked = ground (arith, h.all_asked);
}

Reach-Inv : {interval : ℤ} {m : MonitorWorker} → Reach (new_worker interval) m → Inv m
unfolding is_running
Reach-Inv Reach.here = record { in_run = ground arith; no_token = ground arith; all_asked = refl }
Reach-Inv (Reach.next r step) = Step-Inv (Reach-Inv r) step

-- In every state that starts, stops and threads leaving Run reach, in any order, from a new monitor
-- and in which the monitor reports that it is running: the thread it holds is in Run and is not
-- asked to stop, and every thread in Run that it no longer holds is asked to stop by its own token,
-- so that the start after which it runs has not revived one.
pub is_running-in_run :
    {interval : ℤ} {m : MonitorWorker}
    → Reach (new_worker interval) m
    → is_running m ≡ true
    → (m.worker_in_run ≡ true) × (m.worker_token ≡ false) × (m.moved_without_token ≡ 0)
is_running-in_run r e = let h = Reach-Inv r in (h.in_run e, h.no_token e, h.all_asked)
