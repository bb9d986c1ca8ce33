-- ===== src/Executor/Safety.antt =====
-- What every interleaving preserves (bounded_request_executor.cpp).
pub mod Drain
use aegis_desk.Prelude.{
  ℕ, suc, zero, ◌+◌, ◌≡◌, ◌≤◌, refl, Bool, true, false, none, some, List, [], ◌∷◌, ◌++◌, ◌&&◌, ◌||◌,
  not, is_empty, length, length-append, arith, ap,
}
use aegis_desk.Executor.{
  Executor, new_executor, start, abandon_start, try_submit, request_stop, finish_task, finish_wait,
}
use aegis_desk.Executor.Run.{
  Worker, ready, returned, running, Owner, free, joining, World, world, spawn, all_returned, Step,
  Reach, here, next,
}

abbrev pub busy : {T : Type 0} → List (Worker T) → ℕ
busy [] = 0
busy (ready ∷ ws) = busy ws
busy (returned ∷ ws) = busy ws
busy (running t ∷ ws) = suc (busy ws)

abbrev pub any_returned : {T : Type 0} → List (Worker T) → Bool
any_returned [] = false
any_returned (ready ∷ ws) = any_returned ws
any_returned (returned ∷ ws) = true
any_returned (running t ∷ ws) = any_returned ws

module _ {T : Type 0} where
  pub busy-append : (xs ys : List (Worker T)) → busy (xs ++ ys) ≡ busy xs + busy ys
  busy-append [] ys = omega arith
  busy-append (ready ∷ xs) ys = busy-append xs ys
  busy-append (returned ∷ xs) ys = busy-append xs ys
  busy-append (running t ∷ xs) ys = omega (arith, busy-append xs ys)

  pub any_returned-append :
      (xs ys : List (Worker T)) → any_returned (xs ++ ys) ≡ (any_returned xs || any_returned ys)
  any_returned-append [] ys = refl
  any_returned-append (ready ∷ xs) ys = any_returned-append xs ys
  any_returned-append (returned ∷ xs) ys = refl
  any_returned-append (running t ∷ xs) ys = any_returned-append xs ys

  is_empty-middle : (xs ys : List (Worker T)) (w : Worker T) → is_empty (xs ++ (w ∷ ys)) ≡ false
  is_empty-middle [] ys w = refl
  is_empty-middle (x ∷ xs) ys w = refl

  is_empty-snoc : (xs : List T) (t : T) → is_empty (xs ++ (t ∷ [])) ≡ false
  is_empty-snoc [] t = refl
  is_empty-snoc (x ∷ xs) t = refl

  append-snoc : (xs ys : List T) (t : T) → (xs ++ ys) ++ (t ∷ []) ≡ xs ++ (ys ++ (t ∷ []))
  append-snoc [] ys t = refl
  append-snoc (x ∷ xs) ys t = ap (λ l. x ∷ l) (append-snoc xs ys t)

  append-cons : (xs ys : List T) (t : T) → (xs ++ (t ∷ [])) ++ ys ≡ xs ++ (t ∷ ys)
  append-cons [] ys t = refl
  append-cons (x ∷ xs) ys t = ap (λ l. x ∷ l) (append-cons xs ys t)

busy-spawn : (T : Type 0) (n : ℕ) → busy (spawn {T = T} n) ≡ 0
busy-spawn T zero = refl
busy-spawn T (suc n) = busy-spawn T n

any_returned-spawn : (T : Type 0) (n : ℕ) → any_returned (spawn {T = T} n) ≡ false
any_returned-spawn T zero = refl
any_returned-spawn T (suc n) = any_returned-spawn T n

is_empty-spawn : (T : Type 0) (n : ℕ) → 1 ≤ n → is_empty (spawn {T = T} n) ≡ false
is_empty-spawn T zero h = ground arith
is_empty-spawn T (suc n) h = refl

busy-all_returned : {T : Type 0} (ws : List (Worker T)) → all_returned ws ≡ true → busy ws ≡ 0
busy-all_returned [] h = refl
busy-all_returned (ready ∷ ws) h = cc
busy-all_returned (returned ∷ ws) h = busy-all_returned ws h
busy-all_returned (running t ∷ ws) h = cc

abbrev is_joining : Owner → Bool
is_joining free = false
is_joining joining = true

-- `in_flight_count_` counts queued and running tasks, within the capacity; tasks are taken in the
-- order of their acceptance; no worker returns before the queue is empty and closed.
Facts : {T : Type 0} → Executor T → List (Worker T) → Owner → List T → List T → Type 0
Facts e ws o acc tak =
    (e.in_flight_count ≡ length e.tasks + busy ws)
    × (e.in_flight_count ≤ e.capacity)
    × (acc ≡ tak ++ e.tasks)
    × ((e.accepting && e.stop_requested) ≡ false)
    × ((e.accepting && is_empty ws) ≡ false)
    × ((is_empty ws && not (is_empty e.tasks)) ≡ false)
    × ((any_returned ws && not (is_empty e.tasks && e.stop_requested)) ≡ false)
    × ((is_joining o && not e.stop_requested) ≡ false)
    × (1 ≤ e.worker_count)
    × (1 ≤ e.capacity)

Inv : {T : Type 0} → World T → Type 0
Inv (world e ws o acc tak) = Facts e ws o acc tak

module _ {T : Type 0} where
  spawn-Inv :
      (e e' : Executor T) (ws : List (Worker T)) (acc tak : List T)
      → start e (not (is_empty ws)) ≡ some e'
      → Inv (world e ws free acc tak)
      → Inv (world e' (spawn e.worker_count) free acc tak)
  unfolding Inv Facts start
  spawn-Inv e e' ws acc tak h i = ground (
    arith,
    busy-spawn T e.worker_count,
    any_returned-spawn T e.worker_count,
    is_empty-spawn T e.worker_count,
  )

  Step-Inv : {t u : World T} → Step t u → Inv t → Inv u
  unfolding Inv Facts start abandon_start try_submit request_stop finish_task finish_wait
  Step-Inv (Step.starts {e} {e'} {ws} {acc} {tak} h) i = spawn-Inv e e' ws acc tak h i
  Step-Inv (Step.start_abandoned h) i = ground arith
  Step-Inv (Step.submits {e} {ws} {o} {acc} {tak} t h) i =
      ground
        (arith, length-append e.tasks (t ∷ []), append-snoc tak e.tasks t, is_empty-snoc e.tasks t)
  Step-Inv (Step.refuses t h) i = ground arith
  Step-Inv Step.requests_stop i = ground arith
  Step-Inv (Step.takes {e} {o} {acc} {tak} before after t rest h) i = ground (
    arith,
    busy-append before (ready ∷ after),
    busy-append before (running t ∷ after),
    any_returned-append before (ready ∷ after),
    any_returned-append before (running t ∷ after),
    is_empty-middle before after (ready),
    is_empty-middle before after (running t),
    append-cons tak rest t,
  )
  Step-Inv (Step.finishes {e} {o} {acc} {tak} before after t) i = ground (
    arith,
    busy-append before (running t ∷ after),
    busy-append before (ready ∷ after),
    any_returned-append before (running t ∷ after),
    any_returned-append before (ready ∷ after),
    is_empty-middle before after (running t),
    is_empty-middle before after (ready),
  )
  Step-Inv (Step.returns before after h q) i = ground (
    arith,
    busy-append before (ready ∷ after),
    busy-append before (returned ∷ after),
    any_returned-append before (ready ∷ after),
    any_returned-append before (returned ∷ after),
    is_empty-middle before after (ready),
    is_empty-middle before after (returned),
  )
  Step-Inv Step.waits i = ground arith
  Step-Inv (Step.joins {e} {ws} {acc} {tak} h) i = ground (arith, busy-all_returned ws h)
