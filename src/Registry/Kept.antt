-- ===== src/Registry/Kept.antt =====
-- What starting and stopping the services of a registry (service_registry.cpp) keep.
use aegis_desk.Prelude.{
  ◌≡◌, refl, some, List, [], ◌∷◌, arith, inl, inr, Option-cases, Bool-cases, length,
}
use mathlib.Core.List.{reverse}
use aegis_desk.Prelude.Text.{Str, str_eq_iff}
use aegis_desk.Prelude.Dict.{Dict, find, insert, find-insert, Each-insert, Each-find}
use aegis_desk.Double.{Doubles}
use aegis_desk.Recovery.Supervision.{Outcome}
use aegis_desk.Registry.{
  Supervisors, ServiceRegistry, Progress, called, for_each, start_one, stop_one, finish,
  start_auto_start_services, stop_all,
}
use aegis_desk.Registry.Loaded.{IsValid, IsEntry}

length-insert_present :
    {V : Type 0} (m : Dict V) (k : Str) (v w : V)
    → find k m ≡ some w
    → length (insert k v m) ≡ length m
unfolding find insert
length-insert_present [] k v w h = ground arith
length-insert_present ((j, u) ∷ m) k v w h = ground (arith, length-insert_present m k v w)

module _ {D S : Type 0} ⦃d : Doubles D⦄ (v : Supervisors D S) where
  -- The registry after a supervisor was called, that kept its definition.
  called-IsValid :
      (order : List Str) (id : Str) (b : Progress S) (s : S) (o : Outcome S)
      → find id b.supervisors ≡ some s
      → v.supervision.definition o.supervisor ≡ v.supervision.definition s
      → IsValid v.supervision (record { supervisors = b.supervisors; service_order = order })
      → IsValid v.supervision
          (record { supervisors = (called id b o).supervisors; service_order = order })
  unfolding called
  called-IsValid order id b s o found kept h =
      let entry = Each-find (IsEntry v.supervision) id b.supervisors h.entries found in
      record {
        entries =
            Each-insert (IsEntry v.supervision) id o.supervisor b.supervisors h.entries
              (rw kept entry);
        listed = λ j. ground (
          arith,
          find-insert id j o.supervisor b.supervisors,
          h.listed j,
          h.listed id,
          str_eq_iff id j,
        );
        distinct = h.distinct;
        sized = rw (length-insert_present b.supervisors id o.supervisor s found) h.sized;
      }

  start_one-IsValid :
      (order : List Str) (id : Str) (b : Progress S)
      → IsValid v.supervision (record { supervisors = b.supervisors; service_order = order })
      → IsValid v.supervision
          (record { supervisors = (start_one v id b).supervisors; service_order = order })
  unfolding start_one
  start_one-IsValid order id b h = elim (Option-cases (find id b.supervisors)) [
    | inl e ↦ rw (start_one, e) h
    | inr (s, e) ↦
        let started =
          called-IsValid order id b s (v.supervision.start s) e (v.supervision.definition-start s)
            h in
        elim (Bool-cases (v.supervision.definition s).auto_start) [
          | inl auto ↦ rw (start_one, e, auto) started
          | inr not_auto ↦ rw (start_one, e, not_auto) h
        ]
  ]

  stop_one-IsValid :
      (order : List Str) (id : Str) (b : Progress S)
      → IsValid v.supervision (record { supervisors = b.supervisors; service_order = order })
      → IsValid v.supervision
          (record { supervisors = (stop_one v id b).supervisors; service_order = order })
  unfolding stop_one
  stop_one-IsValid order id b h = elim (Option-cases (find id b.supervisors)) [
    | inl e ↦ rw (stop_one, e) h
    | inr (s, e) ↦
        rw (stop_one, e) (called-IsValid order id b s (v.stop s) e (v.definition-stop s) h)
  ]

  for_each-IsValid :
      (step : Str → Progress S → Progress S) (ids order : List Str) (b : Progress S)
      → ((id : Str) (b : Progress S)
          → IsValid v.supervision (record { supervisors = b.supervisors; service_order = order })
          → IsValid v.supervision
              (record { supervisors = (step id b).supervisors; service_order = order }))
      → IsValid v.supervision (record { supervisors = b.supervisors; service_order = order })
      → IsValid v.supervision
          (record { supervisors = (for_each step ids b).supervisors; service_order = order })
  unfolding for_each
  for_each-IsValid step [] order b keeps h = h
  for_each-IsValid step (id ∷ ids) order b keeps h =
      for_each-IsValid step ids order (step id b) keeps (keeps id b h)

  -- Starting and stopping the services keep a valid registry valid, with the services in the same
  -- order.
  pub start_and_stop-IsValid :
      (r : ServiceRegistry S)
      → IsValid v.supervision r
      → IsValid v.supervision (start_auto_start_services v r).0
        × IsValid v.supervision (stop_all v r).0
        × ((start_auto_start_services v r).0.service_order ≡ r.service_order)
        × ((stop_all v r).0.service_order ≡ r.service_order)
  unfolding start_auto_start_services stop_all finish
  start_and_stop-IsValid r h =
      let b : Progress S = record { supervisors = r.supervisors; failures = [] } in
      (
        for_each-IsValid (start_one v) r.service_order r.service_order b
            (start_one-IsValid r.service_order) h,
        for_each-IsValid (stop_one v) (reverse r.service_order) r.service_order b
            (stop_one-IsValid r.service_order) h,
        refl,
        refl,
      )
