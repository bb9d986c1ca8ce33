-- ===== src/Tests/Executor.antt =====
-- One worker and room for one request: a task is accepted, run and waited for.
use aegis_desk.Prelude.{
  ℕ, ◌≡◌, ◌≤◌, ◌+◌, ◌++◌, refl, Bool, true, false, some, List, [], ◌∷◌, length,
}
use aegis_desk.Executor.{Executor, new_executor, start, try_submit, request_stop, finish_task}
use aegis_desk.Executor.Run.{ready, returned, free, joining, world, Step, Reach, here, next}
use aegis_desk.Executor.Safety.{busy}
use aegis_desk.Executor.Safety.Drain.{
  initial, in_flight_count-bounded, tasks-in_order, all_returned-drains,
}

abbrev with_flags : List ℕ → ℕ → Bool → Bool → Executor ℕ
with_flags tasks in_flight accepting stop_requested = record {
  worker_count = 1;
  capacity = 1;
  tasks = tasks;
  in_flight_count = in_flight;
  accepting = accepting;
  stop_requested = stop_requested;
}

abbrev built : Executor ℕ
built = with_flags [] 0 false false

built_by : new_executor 1 1 ≡ some built
unfolding new_executor
built_by = refl

abbrev five : List ℕ
five = 5 ∷ []

-- The task 5 was accepted.
queued :
    Reach (initial built) (world (with_flags (5 ∷ []) 1 true false) (ready ∷ []) free (5 ∷ []) [])
unfolding start try_submit
queued = next (next here (Step.starts refl)) (Step.submits 5 refl)

-- It has run, and the owner waits.
run_and_waiting :
    Reach
      (initial built)
      (world (with_flags [] 0 false true) (ready ∷ []) joining (5 ∷ []) (5 ∷ []))
unfolding finish_task request_stop
run_and_waiting =
    next (next (next queued (Step.takes [] [] 5 [] refl)) (Step.finishes [] [] 5)) Step.waits

all_back :
    Reach
      (initial built)
      (world (with_flags [] 0 false true) (returned ∷ []) joining (5 ∷ []) (5 ∷ []))
all_back = next run_and_waiting (Step.returns [] [] refl refl)

in_flight_count-bounded_example :
    ((with_flags five 1 true false).in_flight_count ≡ length five + busy {T = ℕ} (ready ∷ []))
    × (1 ≤ (with_flags five 1 true false).capacity)
in_flight_count-bounded_example = in_flight_count-bounded 1 1 built built_by queued

tasks-in_order_example : five ≡ [] ++ five
tasks-in_order_example = tasks-in_order 1 1 built built_by queued

all_returned-drains_example :
    (five ≡ five)
    × ((with_flags [] 0 false true).tasks ≡ [])
    × ((with_flags [] 0 false true).in_flight_count ≡ 0)
    × (busy {T = ℕ} (returned ∷ []) ≡ 0)
all_returned-drains_example = all_returned-drains 1 1 built built_by all_back refl
