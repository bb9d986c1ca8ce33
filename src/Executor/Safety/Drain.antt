-- ===== src/Executor/Safety/Drain.antt =====
-- What the executor promises its users (bounded_request_executor.cpp): back pressure, order, and a
-- `Wait` that leaves nothing behind and cannot be stuck.
use aegis_desk.Prelude.{
  ℕ, ◌+◌, ◌*◌, ◌<◌, ◌≡◌, ◌≤◌, refl, true, false, some, List, [], ◌∷◌, ◌++◌, ◌⊎◌, inl, inr, length,
  arith, sym, ap,
}
use mathlib.Core.Path.{subst}
use aegis_desk.Executor.{Executor, new_executor, try_submit, request_stop, finish_task}
use aegis_desk.Executor.Run.{
  Worker, ready, returned, running, free, joining, Owner, World, world, all_returned, Step, Reach,
}
use aegis_desk.Executor.Safety.{Inv, Facts, Step-Inv, busy, busy-all_returned}

Reach-Inv : {T : Type 0} {t u : World T} → Reach t u → Inv t → Inv u
Reach-Inv Reach.here i = i
Reach-Inv (Reach.next r s) i = Step-Inv s (Reach-Inv r i)

-- The executor as it is built, before its first start.
abbrev pub initial : {T : Type 0} → Executor T → World T
initial e = world e [] free [] []

initial-Inv :
    {T : Type 0} (workers capacity : ℕ) (e : Executor T)
    → new_executor workers capacity ≡ some e
    → Inv (initial e)
unfolding Inv Facts new_executor
initial-Inv workers capacity e h = ground arith

tasks-cases : {T : Type 0} (ts : List T) → (ts ≡ []) ⊎ ((t : T) × (rest : List T) × (ts ≡ t ∷ rest))
tasks-cases [] = inl refl
tasks-cases (t ∷ rest) = inr (t, rest, refl)

-- A worker that has not returned, and where it stands.
unreturned :
    {T : Type 0} (ws : List (Worker T))
    → all_returned ws ≡ false
    → (before : List (Worker T)) × (after : List (Worker T)) × ((ws ≡ before ++ (ready ∷ after))
        ⊎ ((t : T) × (ws ≡ before ++ (running t ∷ after))))
unreturned [] h = cc
unreturned (ready ∷ ws) h = ([], ws, inl refl)
unreturned (running t ∷ ws) h = ([], ws, inr (t, refl))
unreturned (returned ∷ ws) h =
    let (before, after, found) = unreturned ws h in
    elim found [
      | inl p ↦ (returned ∷ before, after, inl (ap (λ l. returned ∷ l) p))
      | inr (t, p) ↦ (returned ∷ before, after, inr (t, ap (λ l. returned ∷ l) p))
    ]

append-nil : {T : Type 0} (xs : List T) → xs ++ [] ≡ xs
append-nil [] = refl
append-nil (x ∷ xs) = ap (λ l. x ∷ l) (append-nil xs)

-- What workers have left to do: three moves for a queued task, which one worker takes and ends.
abbrev pub moves_left : {T : Type 0} → List (Worker T) → ℕ
moves_left [] = 0
moves_left (ready ∷ ws) = 1 + moves_left ws
moves_left (running t ∷ ws) = 2 + moves_left ws
moves_left (returned ∷ ws) = moves_left ws

abbrev pub work : {T : Type 0} → Executor T → List (Worker T) → ℕ
work e ws = 3 * length e.tasks + moves_left ws

module _ {T : Type 0} where
  moves_left-append :
      (xs ys : List (Worker T)) → moves_left (xs ++ ys) ≡ moves_left xs + moves_left ys
  moves_left-append [] ys = omega arith
  moves_left-append (ready ∷ xs) ys = omega (arith, moves_left-append xs ys)
  moves_left-append (running t ∷ xs) ys = omega (arith, moves_left-append xs ys)
  moves_left-append (returned ∷ xs) ys = moves_left-append xs ys

  work-returns :
      (e : Executor T) (before after : List (Worker T))
      → work e (before ++ (returned ∷ after)) < work e (before ++ (ready ∷ after))
  work-returns e before after =
      omega (
        arith,
        moves_left-append before (returned ∷ after),
        moves_left-append before (ready ∷ after),
      )

  work-takes :
      (e : Executor T) (before after : List (Worker T)) (t : T) (rest : List T)
      → e.tasks ≡ t ∷ rest
      → work (record e { tasks = rest }) (before ++ (running t ∷ after))
        < work e (before ++ (ready ∷ after))
  work-takes e before after t rest h = rw h (
      omega (
        arith,
        moves_left-append before (running t ∷ after),
        moves_left-append before (ready ∷ after),
      ))

  work-finishes :
      (e : Executor T) (before after : List (Worker T)) (t : T)
      → work (finish_task e) (before ++ (ready ∷ after)) < work e (before ++ (running t ∷ after))
  unfolding finish_task
  work-finishes e before after t = omega (
    arith,
    moves_left-append before (running t ∷ after),
    moves_left-append before (ready ∷ after),
  )

  -- A worker can move, and the work left falls.
  abbrev Progress : Executor T → List (Worker T) → List T → List T → Type 0
  Progress e ws acc tak =
      (e' : Executor T) × (ws' : List (Worker T)) × (tak' : List T) × Step
        (world e ws joining acc tak) (world e' ws' joining acc tak')
      × (work e' ws' < work e ws)

  -- The owner can come back from `Wait`, with every accepted task taken.
  abbrev pub WaitReturns : Executor T → List (Worker T) → List T → List T → Type 0
  WaitReturns e ws acc tak =
      (e' : Executor T) × Reach (world e ws joining acc tak) (world e' [] free acc acc)

module _ {T : Type 0} (workers capacity : ℕ) (e₀ : Executor T)
    (built : new_executor workers capacity ≡ some e₀) where
  reached-Inv : {u : World T} → Reach (initial e₀) u → Inv u
  reached-Inv r = Reach-Inv r (initial-Inv workers capacity e₀ built)

  -- However submitters, workers and the owner interleave, the count of requests in flight is that
  -- of the queued and the running tasks, and it never exceeds the capacity.
  pub in_flight_count-bounded :
      {e : Executor T} {ws : List (Worker T)} {o : Owner} {acc tak : List T}
      → Reach (initial e₀) (world e ws o acc tak)
      → (e.in_flight_count ≡ length e.tasks + busy ws) × (e.in_flight_count ≤ e.capacity)
  unfolding Inv Facts
  in_flight_count-bounded r = let i = reached-Inv r in ground arith

  -- Tasks are taken in the order of their acceptance: the accepted tasks are those taken, followed
  -- by those still in the queue.
  pub tasks-in_order :
      {e : Executor T} {ws : List (Worker T)} {o : Owner} {acc tak : List T}
      → Reach (initial e₀) (world e ws o acc tak)
      → acc ≡ tak ++ e.tasks
  unfolding Inv Facts
  tasks-in_order r = (reached-Inv r).2

  -- When all workers have returned, so that `Wait` can return, every accepted task has been taken
  -- and has ended, and what `Wait` clears is empty already.
  pub all_returned-drains :
      {e : Executor T} {ws : List (Worker T)} {acc tak : List T}
      → Reach (initial e₀) (world e ws joining acc tak)
      → all_returned ws ≡ true
      → (acc ≡ tak) × (e.tasks ≡ []) × (e.in_flight_count ≡ 0) × (busy ws ≡ 0)
  unfolding Inv Facts
  all_returned-drains {e} {ws} {acc} {tak} r h =
      let i = reached-Inv r in ground (arith, busy-all_returned ws h, append-nil tak)

  -- While `Wait` joins the workers and one of them has not returned, some worker can take, end or
  -- return, and by that the work left falls.
  pub joining-progresses :
      {e : Executor T} {ws : List (Worker T)} {acc tak : List T}
      → Reach (initial e₀) (world e ws joining acc tak)
      → all_returned ws ≡ false
      → (e' : Executor T) × (ws' : List (Worker T)) × (tak' : List T) × Step
          (world e ws joining acc tak)
          (world e' ws' joining acc tak')
        × (work e' ws' < work e ws)
  unfolding Inv Facts
  joining-progresses {e} {ws} {acc} {tak} r h =
      let i = reached-Inv r in
      let stops : e.stop_requested ≡ true = ground arith in
      let (before, after, found) = unreturned ws h in
      elim found [
        | inl idle ↦
            subst (λ w. Progress e w acc tak) (sym idle)
              (elim (tasks-cases e.tasks) [
                | inl none_left ↦ (
                  _,
                  _,
                  _,
                  Step.returns before after none_left stops,
                  work-returns e before after,
                )
                | inr (t, rest, queued) ↦ (
                  _,
                  _,
                  _,
                  Step.takes before after t rest queued,
                  work-takes e before after t rest queued,
                )
              ])
        | inr (t, at_work) ↦
            subst (λ w. Progress e w acc tak) (sym at_work)
              (_, _, _, Step.finishes before after t, work-finishes e before after t)
      ]

  -- While `Wait` joins the workers, no step of any thread adds to the work that is left, unless it is
  -- the end of the wait.
  pub Step-work :
      {e e' : Executor T} {ws ws' : List (Worker T)} {acc acc' tak tak' : List T}
      → Reach (initial e₀) (world e ws joining acc tak)
      → Step (world e ws joining acc tak) (world e' ws' joining acc' tak')
      → work e' ws' ≤ work e ws
  unfolding Inv Facts try_submit request_stop
  Step-work r (Step.submits t h) = let i = reached-Inv r in ground arith
  Step-work r (Step.refuses t h) = let i = reached-Inv r in ground arith
  Step-work r Step.requests_stop = omega arith
  Step-work r (Step.takes {e} before after t rest h) =
      omega (arith, work-takes e before after t rest h)
  Step-work r (Step.finishes {e} before after t) = omega (arith, work-finishes e before after t)
  Step-work r (Step.returns {e} before after h q) = omega (arith, work-returns e before after)
