-- ===== src/Recovery/State.antt =====
-- recovery_manager.{h,cpp}: what the manager remembers of one service, and the tests and updates
-- of that state. Times are unbounded integers: the sums stay far inside 64 bits.
use aegis_desk.Prelude.{
  ℕ, ◌*◌, Bool, true, false, Option, none, some, List, [], ◌∷◌, ◌++◌, if◌then◌else◌, ltb, length,
}
use aegis_desk.Prelude.Int.{ℤ, pos, ◌+ℤ◌, ltb_ℤ, leb_ℤ}
use aegis_desk.Recovery.Policy.{RecoveryPolicy}

pub record ServiceRecoveryState : Type 0 where
  pub has_seen_healthy : Bool
  pub restart_attempts : List ℤ
  pub next_allowed_restart_at_unix_ms : Option ℤ
  pub startup_grace_until_unix_ms : Option ℤ
  pub last_suppressed_event_at_unix_ms : Option ℤ

abbrev pub new_state : ServiceRecoveryState
new_state = record {
  has_seen_healthy = false;
  restart_attempts = [];
  next_allowed_restart_at_unix_ms = none;
  startup_grace_until_unix_ms = none;
  last_suppressed_event_at_unix_ms = none;
}

abbrev pub seconds_to_milliseconds : ℕ → ℤ
seconds_to_milliseconds seconds = pos (seconds * 1000)

abbrev pub is_before : ℤ → Option ℤ → Bool
is_before now none = false
is_before now (some t) = ltb_ℤ now t

abbrev pub is_in_startup_grace : ServiceRecoveryState → ℤ → Bool
is_in_startup_grace st now = is_before now st.startup_grace_until_unix_ms

abbrev pub is_in_backoff : ServiceRecoveryState → ℤ → Bool
is_in_backoff st now = is_before now st.next_allowed_restart_at_unix_ms

-- The loop that pops the attempts in front that are older than the window.
unfoldable pub pop_expired : ℤ → ℤ → List ℤ → List ℤ
pop_expired window_ms now [] = []
pop_expired window_ms now (t ∷ ts) =
    let rest = pop_expired window_ms now ts in if ltb_ℤ (t +ℤ window_ms) now then rest else t ∷ ts

abbrev pub with_live_attempts : ServiceRecoveryState → RecoveryPolicy → ℤ → ServiceRecoveryState
with_live_attempts st p now = record st {
  restart_attempts = pop_expired (seconds_to_milliseconds p.window_seconds) now st.restart_attempts;
}

-- `HasRestartBudgetLocked`: the state after the loop, and the answer.
abbrev pub has_restart_budget :
    ServiceRecoveryState → RecoveryPolicy → ℤ → ServiceRecoveryState × Bool
has_restart_budget st p now =
    let st' = with_live_attempts st p now in (st', ltb (length st'.restart_attempts) p.max_restarts)

unfoldable pub record_restart_attempt :
    ServiceRecoveryState → RecoveryPolicy → ℤ → ServiceRecoveryState
record_restart_attempt st p now = record st {
  restart_attempts = st.restart_attempts ++ (now ∷ []);
  next_allowed_restart_at_unix_ms = some (now +ℤ seconds_to_milliseconds p.backoff_seconds);
  startup_grace_until_unix_ms = some (now +ℤ seconds_to_milliseconds p.startup_grace_seconds);
}

abbrev pub cooled_down : Option ℤ → ℤ → ℤ → Bool
cooled_down none cooldown_ms now = true
cooled_down (some t) cooldown_ms now = leb_ℤ (t +ℤ cooldown_ms) now

-- `ShouldEmitSuppressedEventLocked`: the state after the call, and the answer.
unfoldable pub should_emit_suppressed_event :
    ServiceRecoveryState → ℕ → ℤ → ServiceRecoveryState × Bool
should_emit_suppressed_event st cooldown_seconds now =
    if cooled_down st.last_suppressed_event_at_unix_ms (seconds_to_milliseconds cooldown_seconds)
      now
    then (record st { last_suppressed_event_at_unix_ms = some now }, true)
    else (st, false)
