-- ===== src/Executor.antt =====
-- apps/agent/src/api/bounded_request_executor.cpp: the state under `mutex_`, and what each critical
-- section does to it. `workers_` is the list of worker threads of Run.
pub mod Run
pub mod Safety
use aegis_desk.Prelude.{
  ℕ, ◌+◌, ◌-◌, Bool, true, false, Option, none, some, List, [], ◌∷◌, ◌++◌, ◌||◌, not, if◌then◌else◌,
  leb, ◌==◌, is_empty,
}

pub record Executor (T : Type 0) : Type 0 where
  pub worker_count : ℕ
  pub capacity : ℕ
  pub tasks : List T
  pub in_flight_count : ℕ
  pub accepting : Bool
  pub stop_requested : Bool

module _ {T : Type 0} where
  -- The constructor: none where it throws.
  unfoldable pub new_executor : ℕ → ℕ → Option (Executor T)
  new_executor worker_count capacity =
      if worker_count == 0 || capacity == 0
      then none
      else some (record {
        worker_count = worker_count;
        capacity = capacity;
        tasks = [];
        in_flight_count = 0;
        accepting = false;
        stop_requested = false;
      })

  -- `Start` up to the creation of the threads: none where it throws.
  unfoldable pub start : Executor T → Bool → Option (Executor T)
  start e has_workers =
      if e.accepting || has_workers || not (is_empty e.tasks) || not (e.in_flight_count == 0)
      then none
      else some (record e { accepting = true; stop_requested = false })

  -- `Start` where a thread cannot be created: the threads so far are joined, and it throws.
  unfoldable pub abandon_start : Executor T → Executor T
  abandon_start e = record e { accepting = false; stop_requested = false }

  unfoldable pub try_submit : Executor T → T → Executor T × Bool
  try_submit e task =
      if not e.accepting || e.stop_requested || leb e.capacity e.in_flight_count
      then (e, false)
      else (
        record e { tasks = e.tasks ++ (task ∷ []); in_flight_count = e.in_flight_count + 1 },
        true,
      )

  unfoldable pub request_stop : Executor T → Executor T
  request_stop e = record e { accepting = false; stop_requested = true }

  -- The last section of a worker's round.
  unfoldable pub finish_task : Executor T → Executor T
  finish_task e = record e { in_flight_count = e.in_flight_count - 1 }

  -- The last section of `Wait`.
  unfoldable pub finish_wait : Executor T → Executor T
  finish_wait e = record e { tasks = []; in_flight_count = 0; stop_requested = false }
