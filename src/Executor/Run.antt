-- ===== src/Executor/Run.antt =====
-- Submitters, workers and one waiting owner, interleaved (bounded_request_executor.cpp). The HTTP
-- server lets one thread at a time start the executor or wait for it.
use aegis_desk.Prelude.{
  ℕ, suc, zero, ◌≡◌, Bool, true, false, some, List, [], ◌∷◌, ◌++◌, not, is_empty,
}
use aegis_desk.Executor.{
  Executor, start, abandon_start, try_submit, request_stop, finish_task, finish_wait,
}

-- A thread in WorkerLoop: before its wait, running a task, or returned.
pub data Worker (T : Type 0) : Type 0 where
  ready returned : Worker T
  running : T → Worker T

-- The owner: not in `Wait`, or joining the workers in it.
pub data Owner : Type 0 where
  free joining : Owner

-- The last two parts record, in order, the tasks that TrySubmit accepted and that workers took.
pub data World (T : Type 0) : Type 0 where
  world : Executor T → List (Worker T) → Owner → List T → List T → World T

abbrev pub spawn : {T : Type 0} → ℕ → List (Worker T)
spawn zero = []
spawn (suc n) = ready ∷ spawn n

abbrev pub all_returned : {T : Type 0} → List (Worker T) → Bool
all_returned [] = true
all_returned (returned ∷ ws) = all_returned ws
all_returned (ready ∷ ws) = false
all_returned (running t ∷ ws) = false

pub data Step {T : Type 0} : World T → World T → Type 0 where
  starts :
      {e e' : Executor T} {ws : List (Worker T)} {acc tak : List T}
      → start e (not (is_empty ws)) ≡ some e'
      → Step (world e ws free acc tak) (world e' (spawn e.worker_count) free acc tak)
  start_abandoned :
      {e e' : Executor T} {ws : List (Worker T)} {acc tak : List T}
      → start e (not (is_empty ws)) ≡ some e'
      → Step (world e ws free acc tak) (world (abandon_start e') [] free acc tak)
  submits :
      {e : Executor T} {ws : List (Worker T)} {o : Owner} {acc tak : List T} (t : T)
      → (try_submit e t).1 ≡ true
      → Step (world e ws o acc tak) (world (try_submit e t).0 ws o (acc ++ (t ∷ [])) tak)
  refuses :
      {e : Executor T} {ws : List (Worker T)} {o : Owner} {acc tak : List T} (t : T)
      → (try_submit e t).1 ≡ false
      → Step (world e ws o acc tak) (world (try_submit e t).0 ws o acc tak)
  requests_stop :
      {e : Executor T} {ws : List (Worker T)} {o : Owner} {acc tak : List T}
      → Step (world e ws o acc tak) (world (request_stop e) ws o acc tak)
  takes :
      {e : Executor T} {o : Owner} {acc tak : List T} (before after : List (Worker T)) (t : T)
      (rest : List T)
      → e.tasks ≡ t ∷ rest
      → Step (world e (before ++ (ready ∷ after)) o acc tak) (
          world (record e { tasks = rest }) (before ++ (running t ∷ after)) o acc (tak ++ (t ∷ [])))
  finishes :
      {e : Executor T} {o : Owner} {acc tak : List T} (before after : List (Worker T)) (t : T)
      → Step
          (world e (before ++ (running t ∷ after)) o acc tak)
          (world (finish_task e) (before ++ (ready ∷ after)) o acc tak)
  returns :
      {e : Executor T} {o : Owner} {acc tak : List T} (before after : List (Worker T))
      → e.tasks ≡ []
      → e.stop_requested ≡ true
      → Step
          (world e (before ++ (ready ∷ after)) o acc tak)
          (world e (before ++ (returned ∷ after)) o acc tak)
  waits :
      {e : Executor T} {ws : List (Worker T)} {acc tak : List T}
      → Step (world e ws free acc tak) (world (request_stop e) ws joining acc tak)
  joins :
      {e : Executor T} {ws : List (Worker T)} {acc tak : List T}
      → all_returned ws ≡ true
      → Step (world e ws joining acc tak) (world (finish_wait e) [] free acc tak)

pub data Reach {T : Type 0} (w : World T) : World T → Type 0 where
  here : Reach w w
  next : {t u : World T} → Reach w t → Step t u → Reach w u
