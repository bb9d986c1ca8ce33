-- ===== src/HttpServer/Shutdown.antt =====
-- The sections of the server (http_server.cpp), interleaved in any order: acceptors, sessions that
-- close, stop requests, the owner in `Wait` and the handlers on the I/O context.
use aegis_desk.Prelude.{
  ℕ, suc, ◌+◌, ◌≡◌, ◌≤◌, ◌<◌, refl, Bool, true, List, [], ◌∷◌, ◌&&◌, not, is_empty, length, arith,
}
use aegis_desk.HttpServer.{
  Serving, serving, register_session, erase_session, remove_session, after_removal, request_stop,
  schedule_stop, store_drained, post_completion, try_complete_stop, worker_failed,
}

pub data Step : Serving → Serving → Type 0 where
  accepts : {s : Serving} (session : ℕ) → Step s (register_session session s).0
  closes : {s : Serving} (session : ℕ) → Step s (remove_session session s)
  -- A thread that has erased the last session goes on.
  looks :
      {s : Serving} {n : ℕ} (posted : Bool)
      → s.removing_last ≡ suc n
      → Step s (after_removal posted (record s { removing_last = n }))
  requests_stop : {s : Serving} → Step s (request_stop s)
  schedules :
      {s : Serving} {n : ℕ} (posted : Bool)
      → s.scheduling_stop ≡ suc n
      → Step s (schedule_stop posted (record s { scheduling_stop = n }))
  -- `StopOnIoContext` ends with `TryCompleteStopOnIoContext`.
  stops :
      {s : Serving} {n : ℕ}
      → s.posted_stops ≡ suc n
      → Step s (record s { posted_stops = n; posted_completions = suc s.posted_completions })
  drains : {s : Serving} → Step s (store_drained s)
  posts :
      {s : Serving} {n : ℕ} (posted : Bool)
      → s.waiting ≡ suc n
      → Step s (post_completion posted (record s { waiting = n }))
  completes :
      {s : Serving} {n : ℕ}
      → s.posted_completions ≡ suc n
      → Step s (try_complete_stop (record s { posted_completions = n }))
  fails : {s : Serving} → Step s (worker_failed s)
  stops_context :
      {s : Serving} {n : ℕ}
      → s.failing ≡ suc n
      → Step s (record s { failing = n; io_context_stopped = true })

pub data Reach (s : Serving) : Serving → Type 0 where
  here : Reach s s
  next : {t u : Serving} → Reach s t → Step t u → Reach s u

-- The handlers and threads that are still to go on with the stop.
abbrev pub pending : Serving → ℕ
pending s =
    s.scheduling_stop + s.posted_stops + s.posted_completions + s.removing_last + s.waiting
    + s.failing

-- The stop can complete, and has not.
abbrev pub is_due : Serving → Bool
is_due s =
    s.stop_requested
    && s.handler_executor_drained
    && is_empty s.sessions
    && not s.stop_completion_started
    && not s.io_context_stopped

record Inv (n : ℕ) (s : Serving) : Type 0 where
  stopping_was_requested : s.is_stopping ≡ true → s.stop_requested ≡ true
  due_is_pending : is_due s ≡ true → 0 < pending s
  same_limit : s.max_connections ≡ n
  few_sessions : length s.sessions ≤ n

length-erase_session : (session : ℕ) (xs : List ℕ) → length (erase_session session xs) ≤ length xs
unfolding erase_session
length-erase_session session [] = omega arith
length-erase_session session (x ∷ xs) = ground (arith, length-erase_session session xs)

Step-Inv : {n : ℕ} {s t : Serving} → Inv n s → Step s t → Inv n t
unfolding register_session remove_session after_removal request_stop schedule_stop store_drained
    post_completion try_complete_stop worker_failed
Step-Inv {s} h (Step.accepts session) = record {
  stopping_was_requested = ground (arith, h.stopping_was_requested);
  due_is_pending = ground (arith, h.due_is_pending, h.stopping_was_requested);
  same_limit = ground (arith, h.same_limit);
  few_sessions = ground (arith, h.same_limit, h.few_sessions);
}
Step-Inv {s} h (Step.closes session) = record {
  stopping_was_requested = ground (arith, h.stopping_was_requested);
  due_is_pending = ground (arith, h.due_is_pending, h.stopping_was_requested);
  same_limit = ground (arith, h.same_limit);
  few_sessions =
      ground (arith, h.same_limit, h.few_sessions, length-erase_session session s.sessions);
}
Step-Inv {s} h (Step.looks posted e) = record {
  stopping_was_requested = ground (arith, h.stopping_was_requested);
  due_is_pending = ground (arith, h.due_is_pending, h.stopping_was_requested);
  same_limit = ground (arith, h.same_limit);
  few_sessions = ground (arith, h.same_limit, h.few_sessions);
}
Step-Inv {s} h Step.requests_stop = record {
  stopping_was_requested = ground (arith, h.stopping_was_requested);
  due_is_pending = ground (arith, h.due_is_pending, h.stopping_was_requested);
  same_limit = ground (arith, h.same_limit);
  few_sessions = ground (arith, h.same_limit, h.few_sessions);
}
Step-Inv {s} h (Step.schedules posted e) = record {
  stopping_was_requested = ground (arith, h.stopping_was_requested);
  due_is_pending = ground (arith, h.due_is_pending, h.stopping_was_requested);
  same_limit = ground (arith, h.same_limit);
  few_sessions = ground (arith, h.same_limit, h.few_sessions);
}
Step-Inv {s} h (Step.stops e) = record {
  stopping_was_requested = ground (arith, h.stopping_was_requested);
  due_is_pending = ground (arith, h.due_is_pending, h.stopping_was_requested);
  same_limit = ground (arith, h.same_limit);
  few_sessions = ground (arith, h.same_limit, h.few_sessions);
}
Step-Inv {s} h Step.drains = record {
  stopping_was_requested = ground (arith, h.stopping_was_requested);
  due_is_pending = ground (arith, h.due_is_pending, h.stopping_was_requested);
  same_limit = ground (arith, h.same_limit);
  few_sessions = ground (arith, h.same_limit, h.few_sessions);
}
Step-Inv {s} h (Step.posts posted e) = record {
  stopping_was_requested = ground (arith, h.stopping_was_requested);
  due_is_pending = ground (arith, h.due_is_pending, h.stopping_was_requested);
  same_limit = ground (arith, h.same_limit);
  few_sessions = ground (arith, h.same_limit, h.few_sessions);
}
Step-Inv {s} h (Step.completes e) = record {
  stopping_was_requested = ground (arith, h.stopping_was_requested);
  due_is_pending = ground (arith, h.due_is_pending, h.stopping_was_requested);
  same_limit = ground (arith, h.same_limit);
  few_sessions = ground (arith, h.same_limit, h.few_sessions);
}
Step-Inv {s} h Step.fails = record {
  stopping_was_requested = ground (arith, h.stopping_was_requested);
  due_is_pending = ground (arith, h.due_is_pending, h.stopping_was_requested);
  same_limit = ground (arith, h.same_limit);
  few_sessions = ground (arith, h.same_limit, h.few_sessions);
}
Step-Inv {s} h (Step.stops_context e) = record {
  stopping_was_requested = ground (arith, h.stopping_was_requested);
  due_is_pending = ground (arith, h.due_is_pending, h.stopping_was_requested);
  same_limit = ground (arith, h.same_limit);
  few_sessions = ground (arith, h.same_limit, h.few_sessions);
}

Reach-Inv : {n : ℕ} {s : Serving} → Reach (serving n) s → Inv n s
Reach-Inv Reach.here = record {
  stopping_was_requested = ground arith;
  due_is_pending = ground arith;
  same_limit = refl;
  few_sessions = omega arith;
}
Reach-Inv (Reach.next r step) = Step-Inv (Reach-Inv r) step

-- In every state that the interleaved sections of a server reach from one that has just started:
-- where a stop is requested, the executor is stored as drained and no session is left, and neither
-- the completion of the stop has started nor the I/O context is stopped, some thread or posted
-- handler is still to go on with the stop.
pub is_due-pending : {n : ℕ} {s : Serving} → Reach (serving n) s → is_due s ≡ true → 0 < pending s
is_due-pending r due = (Reach-Inv r).due_is_pending due

-- In every state that the interleaved sections of a server reach from one that has just started, no
-- more sessions are registered than the options allow connections.
length-register_session : {n : ℕ} {s : Serving} → Reach (serving n) s → length s.sessions ≤ n
length-register_session r = (Reach-Inv r).few_sessions
