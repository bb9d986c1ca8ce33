-- ===== src/Recovery/Manager/Budget.antt =====
-- The restart budget: how many restarts lie within the window.
use aegis_desk.Prelude.{
  ℕ, suc, ◌≤◌, ◌≡◌, refl, none, List, [], ◌∷◌, ◌++◌, inl, inr, if◌then◌else◌, arith, length,
  length-append,
}
use aegis_desk.Prelude.Int.{ℤ, ◌+ℤ◌, ◌≤ℤ◌, ltb_ℤ}
use aegis_desk.Prelude.Dict.{find}
use aegis_desk.Recovery.State.{pop_expired}
use aegis_desk.Recovery.Supervision.{Supervision}
use aegis_desk.Recovery.Manager.{RecoveryManager}
use aegis_desk.Recovery.Manager.Decision.{Round, id_of}
use aegis_desk.Recovery.Manager.History.{
  Between, after, restarts, policy, window, state_after, restarts-step,
}

-- How many of some times are no older than a window.
abbrev pub count_live : ℤ → ℤ → List ℤ → ℕ
count_live span now [] = 0
count_live span now (t ∷ ts) =
    let rest = count_live span now ts in if ltb_ℤ (t +ℤ span) now then rest else suc rest

count_live-le-length : (span now : ℤ) (ts : List ℤ) → count_live span now ts ≤ length ts
count_live-le-length span now [] = omega arith
count_live-le-length span now (t ∷ ts) = ground (arith, count_live-le-length span now ts)

count_live-snoc :
    (span now t : ℤ) (ts : List ℤ)
    → count_live span now (ts ++ (t ∷ [])) ≡ count_live span now (t ∷ ts)
count_live-snoc span now t [] = refl
count_live-snoc span now t (x ∷ ts) = ground (arith, count_live-snoc span now t ts)

-- What the loop pops is not live, then or later.
count_live-pop_expired :
    (span now later : ℤ) (ts : List ℤ)
    → now ≤ℤ later
    → count_live span later (pop_expired span now ts) ≡ count_live span later ts
unfolding pop_expired
count_live-pop_expired span now later [] h = refl
count_live-pop_expired span now later (t ∷ ts) h =
    ground (arith, count_live-pop_expired span now later ts h)

length-pop_expired : (span now : ℤ) (ts : List ℤ) → length (pop_expired span now ts) ≤ length ts
unfolding pop_expired
length-pop_expired span now [] = omega arith
length-pop_expired span now (t ∷ ts) = ground (arith, length-pop_expired span now ts)

-- No round is earlier than the one before it, the newest first.
abbrev pub IsChronological : List Round → Type 0
IsChronological [] = Unit
IsChronological (r ∷ []) = Unit
IsChronological (r ∷ q ∷ rs) = (q.at ≤ℤ r.at) × IsChronological (q ∷ rs)

abbrev IsSince : List Round → ℤ → Type 0
IsSince [] later = Unit
IsSince (r ∷ older) later = r.at ≤ℤ later

earlier-IsSince :
    (r : Round) (older : List Round) → IsChronological (r ∷ older) → IsSince older r.at
earlier-IsSince r [] h = tt
earlier-IsSince r (q ∷ older) h = h.0

earlier-IsChronological :
    (r : Round) (older : List Round) → IsChronological (r ∷ older) → IsChronological older
earlier-IsChronological r [] h = tt
earlier-IsChronological r (q ∷ older) h = h.1

earlier-later :
    (older : List Round) (now later : ℤ) → IsSince older now → now ≤ℤ later → IsSince older later
earlier-later [] now later h l = tt
earlier-later (r ∷ older) now later h l = omega arith

module _ {D S : Type 0} (v : Supervision D S) (m₀ : RecoveryManager) (s₀ : S) (b : Between v)
    (starts_new : find (id_of v s₀) m₀.states ≡ none) where
  no_attempts_yet : (state_after v m₀ s₀ b []).restart_attempts ≡ []
  unfolding after
  no_attempts_yet = ground arith

  attempts-le-max :
      (rounds : List Round)
      → length (state_after v m₀ s₀ b rounds).restart_attempts ≤ (policy v m₀ s₀ b).max_restarts
  attempts-le-max [] = rw no_attempts_yet (omega arith)
  attempts-le-max (r ∷ older) = elim (restarts-step v m₀ s₀ b r older) [
    | inl (next, _, room) ↦ rw next (
        omega (
          arith,
          length-append
              (pop_expired (window v m₀ s₀ b) r.at (state_after v m₀ s₀ b older).restart_attempts)
              (r.at ∷ []),
          room,
        ))
    | inr (inl next, _) ↦ rw next (
        omega (
          arith,
          length-pop_expired (window v m₀ s₀ b) r.at (state_after v m₀ s₀ b older).restart_attempts,
          attempts-le-max older,
        ))
    | inr (inr next, _) ↦ rw next (attempts-le-max older)
  ]

  -- The attempts that the manager remembers include every restart that is still in the window.
  live-restarts :
      (rounds : List Round) (later : ℤ)
      → IsChronological rounds
      → IsSince rounds later
      → count_live (window v m₀ s₀ b) later (restarts v m₀ s₀ b rounds)
        ≤ count_live (window v m₀ s₀ b) later (state_after v m₀ s₀ b rounds).restart_attempts
  unfolding after
  live-restarts [] later c h = omega arith
  live-restarts (r ∷ older) later c h =
      let since = earlier-later older r.at later (earlier-IsSince r older c) h in
      let ih = live-restarts older later (earlier-IsChronological r older c) since in
      let popped =
        count_live-pop_expired (window v m₀ s₀ b) r.at later
          (state_after v m₀ s₀ b older).restart_attempts h in
      elim (restarts-step v m₀ s₀ b r older) [
        | inl (next, log, _) ↦
            rw (next, log)
              (ground (
                arith,
                count_live-snoc (window v m₀ s₀ b) later r.at (
                    pop_expired (window v m₀ s₀ b) r.at
                      (state_after v m₀ s₀ b older).restart_attempts),
                popped,
                ih,
              ))
        | inr (inl next, log) ↦ rw (next, log, popped) ih
        | inr (inr next, log) ↦ rw (next, log) ih
      ]

  -- The restart budget: from a manager that has no state of the service yet, over any rounds in
  -- chronological order, whatever the health, the alerts and the outcomes were and whatever happened
  -- to the supervisor between the rounds, no more than max_restarts of the calls of Start and
  -- Restart that it receives from the manager lie within window_seconds of any time from the newest
  -- round on.
  pub restart_budget :
      (r : Round) (older : List Round) (later : ℤ)
      → IsChronological (r ∷ older)
      → r.at ≤ℤ later
      → count_live (window v m₀ s₀ b) later (restarts v m₀ s₀ b (r ∷ older))
        ≤ (policy v m₀ s₀ b).max_restarts
  restart_budget r older later c h = omega (
    arith,
    live-restarts (r ∷ older) later c h,
    count_live-le-length (window v m₀ s₀ b) later
        (state_after v m₀ s₀ b (r ∷ older)).restart_attempts,
    attempts-le-max (r ∷ older),
  )
