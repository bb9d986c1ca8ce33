-- ===== src/HttpServer.antt =====
-- apps/agent/src/api/http_server.cpp: options, the sessions of a server that serves, and the steps
-- by which it stops. A session is a number; sockets, timers and the I/O context are boost, of which
-- only the handlers that are posted to the context count.
pub mod Shutdown
use aegis_desk.Prelude.{
  ℕ, zero, suc, ◌≡◌, Bool, true, false, List, [], ◌∷◌, ◌&&◌, ◌||◌, not, if◌then◌else◌, is_empty,
  length, ltb, leb, ◌==◌,
}
use aegis_desk.Prelude.Int.{ℤ, pos, leb_ℤ}
use aegis_desk.Prelude.Text.{Str, text}
use aegis_desk.Prelude.Result.{Result, ok, err, ◌>>◌, guard}

pub record HttpServerOptions : Type 0 where
  pub bind_address : Str
  pub port : ℕ
  pub io_thread_count : ℕ
  pub handler_thread_count : ℕ
  pub max_connections : ℕ
  pub max_in_flight_requests : ℕ
  pub max_header_bytes : ℕ
  pub max_body_bytes : ℕ
  pub max_requests_per_connection : ℕ
  pub read_timeout : ℤ
  pub write_timeout : ℤ
  pub idle_timeout : ℤ
  pub shutdown_grace_period : ℤ

-- The texts of the exceptions; the first argument is whether there is a handler.
unfoldable pub validate_options : Bool → HttpServerOptions → Result (Unit {0})
validate_options has_handler o = do
  guard has_handler (text "HTTP server request handler must not be empty")
  guard (not (is_empty o.bind_address)) (text "HTTP server bind address must not be empty")
  guard (not (o.io_thread_count == 0 || o.handler_thread_count == 0))
      (text "HTTP server thread counts must be greater than zero")
  guard
      (not (
        o.max_connections == 0
        || o.max_in_flight_requests == 0
        || ltb o.max_connections o.max_in_flight_requests))
      (text
        "HTTP server request limits must be positive and in-flight requests must not exceed connections")
  guard
      (not (
        o.max_header_bytes == 0
        || ltb 4294967295 o.max_header_bytes
        || o.max_body_bytes == 0
        || o.max_requests_per_connection == 0))
      (text "HTTP server protocol limits must be greater than zero")
  guard
      (not (
        leb_ℤ o.read_timeout (pos 0)
        || leb_ℤ o.write_timeout (pos 0)
        || leb_ℤ o.idle_timeout (pos 0)
        || leb_ℤ o.shutdown_grace_period (pos 0)))
      (text "HTTP server timeouts must be greater than zero")

-- A server between `Start` and the end of `Wait`. The counts are of threads between two sections:
-- those that are about to post StopOnIoContext, that have erased the last session, that have stored
-- that the executor is drained, that have seen the I/O context fail; and of posted handlers.
pub record Serving : Type 0 where
  pub max_connections : ℕ
  -- `state_` is kStopping; else it is kRunning.
  pub is_stopping : Bool
  pub stop_requested : Bool
  pub handler_executor_drained : Bool
  pub stop_completion_started : Bool
  pub io_context_stopped : Bool
  pub sessions : List ℕ
  pub scheduling_stop : ℕ
  pub posted_stops : ℕ
  pub posted_completions : ℕ
  pub removing_last : ℕ
  pub waiting : ℕ
  pub failing : ℕ

-- A server that has just started.
abbrev pub serving : ℕ → Serving
serving max_connections = record {
  max_connections = max_connections;
  is_stopping = false;
  stop_requested = false;
  handler_executor_drained = false;
  stop_completion_started = false;
  io_context_stopped = false;
  sessions = [];
  scheduling_stop = 0;
  posted_stops = 0;
  posted_completions = 0;
  removing_last = 0;
  waiting = 0;
  failing = 0;
}

-- `RegisterSession`.
unfoldable pub register_session : ℕ → Serving → Serving × Bool
register_session session s =
    if s.stop_requested || leb s.max_connections (length s.sessions)
    then (s, false)
    else (record s { sessions = session ∷ s.sessions }, true)

unfoldable pub erase_session : ℕ → List ℕ → List ℕ
erase_session session [] = []
erase_session session (x ∷ xs) =
    let rest = erase_session session xs in if x == session then rest else x ∷ rest

-- The section of `RemoveSession`, and what follows it where no session is left. A post that throws
-- stops the context.
unfoldable pub remove_session : ℕ → Serving → Serving
unfolding erase_session
remove_session session s =
    let left = erase_session session s.sessions in
    record s {
      sessions = left;
      removing_last = if is_empty left then suc s.removing_last else s.removing_last;
    }

unfoldable pub after_removal : Bool → Serving → Serving
after_removal posted s =
    if not (s.stop_requested && s.handler_executor_drained)
    then s
    else if posted
    then record s { posted_completions = suc s.posted_completions }
    else record s { io_context_stopped = true }

-- The section of `RequestStop`.
unfoldable pub request_stop : Serving → Serving
request_stop s = record s {
  is_stopping = true;
  stop_requested = true;
  scheduling_stop = if s.is_stopping then s.scheduling_stop else suc s.scheduling_stop;
}

-- Its post of StopOnIoContext.
unfoldable pub schedule_stop : Bool → Serving → Serving
schedule_stop posted s =
    if posted
    then record s { posted_stops = suc s.posted_stops }
    else record s { io_context_stopped = true }

-- `Wait` behind the executor's: the store, and the post that follows it.
unfoldable pub store_drained : Serving → Serving
store_drained s = record s { handler_executor_drained = true; waiting = suc s.waiting }

unfoldable pub post_completion : Bool → Serving → Serving
post_completion posted s =
    if posted
    then record s { posted_completions = suc s.posted_completions }
    else record s { io_context_stopped = true }

-- `TryCompleteStopOnIoContext`.
unfoldable pub try_complete_stop : Serving → Serving
try_complete_stop s =
    if s.stop_completion_started || not s.handler_executor_drained
    then s
    else if not (is_empty s.sessions)
    then s
    else record s { stop_completion_started = true }

-- The section of `RunIoContext` after an exception; then it stops the context.
unfoldable pub worker_failed : Serving → Serving
worker_failed s = record s { is_stopping = true; stop_requested = true; failing = suc s.failing }
