-- ===== src/Registry/Batch.antt =====
-- Starting and stopping the services of a registry (service_registry.cpp): what a loop over
-- `service_order_` does, described without the loop's state.
use aegis_desk.Prelude.{
  ◌≡◌, ◌∙◌, refl, sym, true, false, Option, none, some, List, [], ◌∷◌, ◌++◌, is_empty,
  if◌then◌else◌, arith, inl, inr, Option-cases,
}
use mathlib.Core.List.{reverse, append_assoc, append-nil}
use aegis_desk.Prelude.Text.{Str, text, str_eq, str_eq_iff}
use aegis_desk.Prelude.Dict.{Dict, find, find-insert}
use aegis_desk.Prelude.Result.{Result, ok, err}
use aegis_desk.Double.{Doubles}
use aegis_desk.Service.Definition.{contains}
use aegis_desk.Recovery.Supervision.{Outcome}
use aegis_desk.Registry.{
  Supervisors, ServiceRegistry, Progress, called, for_each, start_one, stop_one, finish,
  start_auto_start_services, stop_all, join,
}
use aegis_desk.Registry.Loaded.{IsValid}
use aegis_desk.Service.Distinct.{are_distinct, contains-reverse, distinct-reverse}

module _ {S : Type 0} (action : S → Option (Outcome S)) where
  -- A supervisor after an action on it, if there is one.
  unfoldable pub acted : S → S
  acted s = elim (action s) [ none ↦ s | some o ↦ o.supervisor ]

  unfoldable pub acted_entry : Option S → Option S
  unfolding acted
  acted_entry none = none
  acted_entry (some s) = some (acted s)

  -- The failures of the actions on the supervisors that are filed now.
  unfoldable pub failed : Dict S → List Str → List Str
  failed m [] = []
  failed m (id ∷ ids) =
      let rest = failed m ids in
      elim (find id m) [
        | none ↦ rest
        | some s ↦ elim (action s) [
          | none ↦ rest
          | some o ↦ if o.succeeded then rest else (id ++ text ": " ++ o.error) ∷ rest
        ]
      ]

  act_one : Str → Progress S → Progress S
  act_one id b = elim (find id b.supervisors) [
    | none ↦ b
    | some s ↦ elim (action s) [ none ↦ b | some o ↦ called id b o ]
  ]

  find-act_one :
      (id j : Str) (b : Progress S)
      → find j (act_one id b).supervisors
        ≡ (if str_eq id j then acted_entry (find j b.supervisors) else find j b.supervisors)
  unfolding act_one called acted_entry acted
  find-act_one id j b = elim (Option-cases (find id b.supervisors)) [
    | inl e ↦ ground (arith, str_eq_iff id j)
    | inr (s, e) ↦ elim (Option-cases (action s)) [
      | inl e' ↦ ground (arith, str_eq_iff id j)
      | inr (o, e') ↦ ground (arith, str_eq_iff id j, find-insert id j o.supervisor b.supervisors)
    ]
  ]

  failed-act_one :
      (ids : List Str) (id : Str) (b : Progress S)
      → contains id ids ≡ false
      → failed (act_one id b).supervisors ids ≡ failed b.supervisors ids
  unfolding failed contains
  failed-act_one [] id b h = refl
  failed-act_one (j ∷ ids) id b h =
      ground (arith, failed-act_one ids id b, find-act_one id j b, str_eq_iff id j, str_eq_iff j id)

  failures-act_one :
      (id : Str) (b : Progress S)
      → (act_one id b).failures ≡ b.failures ++ failed b.supervisors (id ∷ [])
  unfolding failed act_one called
  failures-act_one id b = ground (arith, append-nil b.failures)

  failed-cons :
      (m : Dict S) (id : Str) (ids : List Str)
      → failed m (id ∷ ids) ≡ failed m (id ∷ []) ++ failed m ids
  unfolding failed
  failed-cons m id ids = ground arith

  for_each-failures :
      (ids : List Str) (b : Progress S)
      → are_distinct ids ≡ true
      → (for_each act_one ids b).failures ≡ b.failures ++ failed b.supervisors ids
  unfolding for_each are_distinct failed
  for_each-failures [] b h = sym (append-nil b.failures)
  for_each-failures (id ∷ ids) b h =
      rw
        (
          for_each-failures ids (act_one id b) (ground arith),
          failures-act_one id b,
          failed-act_one ids id b (ground arith),
          failed-cons b.supervisors id ids,
          append_assoc b.failures (failed b.supervisors (id ∷ [])) (failed b.supervisors ids),
        )
        refl

  for_each-find :
      (ids : List Str) (b : Progress S) (j : Str)
      → are_distinct ids ≡ true
      → find j (for_each act_one ids b).supervisors
        ≡ (if contains j ids then acted_entry (find j b.supervisors) else find j b.supervisors)
  unfolding for_each are_distinct contains
  for_each-find [] b j h = refl
  for_each-find (id ∷ ids) b j h =
      ground (arith, for_each-find ids (act_one id b) j, find-act_one id j b, str_eq_iff id j)

-- What a batch reports: nothing, or all failures under one heading.
unfoldable pub outcome_of : Str → List Str → Result (Unit {0})
outcome_of heading failures =
    if is_empty failures then ok tt else err (heading ++ join failures (text "; "))

module _ {D S : Type 0} ⦃d : Doubles D⦄ (v : Supervisors D S) where
  unfoldable pub start_action : S → Option (Outcome S)
  start_action s =
      if (v.supervision.definition s).auto_start then some (v.supervision.start s) else none

  unfoldable pub stop_action : S → Option (Outcome S)
  stop_action s = some (v.stop s)

  for_each-congr :
      (step step' : Str → Progress S → Progress S) (ids : List Str) (b : Progress S)
      → ((id : Str) (b : Progress S) → step id b ≡ step' id b)
      → for_each step ids b ≡ for_each step' ids b
  unfolding for_each
  for_each-congr step step' [] b h = refl
  for_each-congr step step' (id ∷ ids) b h = rw (h id b) (for_each-congr step step' ids _ h)

  start_one-act_one : (id : Str) (b : Progress S) → start_one v id b ≡ act_one start_action id b
  unfolding start_one act_one start_action
  start_one-act_one id b = ground arith

  stop_one-act_one : (id : Str) (b : Progress S) → stop_one v id b ≡ act_one stop_action id b
  unfolding stop_one act_one stop_action
  stop_one-act_one id b = ground arith

  acted_all :
      (action : S → Option (Outcome S)) (r : ServiceRegistry S) (id : Str)
      → IsValid v.supervision r
      → (if contains id r.service_order
          then acted_entry action (find id r.supervisors)
          else find id r.supervisors)
        ≡ acted_entry action (find id r.supervisors)
  unfolding acted_entry
  acted_all action r id h = ground (arith, h.listed id)

  -- In a valid registry, starting the services starts the supervisor of every service that is to
  -- start by itself, and no other; it succeeds exactly when none of them failed, and else names the
  -- failures in the order of the services.
  pub start_auto_start_services-starts :
      (r : ServiceRegistry S) (id : Str)
      → IsValid v.supervision r
      → (find id (start_auto_start_services v r).0.supervisors
          ≡ acted_entry start_action (find id r.supervisors))
        × ((start_auto_start_services v r).1
            ≡ outcome_of
                (text "auto-start failed: ")
                (failed start_action r.supervisors r.service_order))
  unfolding start_auto_start_services finish outcome_of
  start_auto_start_services-starts r id h =
      let b : Progress S = record { supervisors = r.supervisors; failures = [] } in
      let same =
        for_each-congr (start_one v) (act_one start_action) r.service_order b start_one-act_one in
      (
        rw same (
            for_each-find start_action r.service_order b id h.distinct
            ∙ acted_all start_action r id h),
        rw (same, for_each-failures start_action r.service_order b h.distinct) refl,
      )

  -- In a valid registry, stopping the services stops every supervisor; it succeeds exactly when
  -- none of them failed, and else names the failures, the last service first.
  pub stop_all-stops :
      (r : ServiceRegistry S) (id : Str)
      → IsValid v.supervision r
      → (find id (stop_all v r).0.supervisors ≡ acted_entry stop_action (find id r.supervisors))
        × ((stop_all v r).1
            ≡ outcome_of
                (text "stop failed: ")
                (failed stop_action r.supervisors (reverse r.service_order)))
  unfolding stop_all finish outcome_of
  stop_all-stops r id h =
      let b : Progress S = record { supervisors = r.supervisors; failures = [] } in
      let order = reverse r.service_order in
      let distinct = distinct-reverse r.service_order h.distinct in
      let same = for_each-congr (stop_one v) (act_one stop_action) order b stop_one-act_one in
      (
        rw
            (
              same,
              for_each-find stop_action order b id distinct,
              contains-reverse id r.service_order,
            )
            (acted_all stop_action r id h),
        rw (same, for_each-failures stop_action order b distinct) refl,
      )
