-- ===== src/Registry/Loaded.antt =====
-- What holds of a registry once `LoadFromFile` (service_registry.cpp) has succeeded.
use aegis_desk.Prelude.{
  ℕ, ◌≡◌, ◌+◌, refl, true, false, Option, none, some, List, [], ◌∷◌, ◌++◌, is_empty, length, arith,
  inl, inr, map, length-append,
}
use mathlib.Core.Path.{subst}
use mathlib.Core.List.{map-append, append_assoc, append-nil}
use aegis_desk.Prelude.Text.{Str, text}
use aegis_desk.Prelude.Dict.{Dict, find, insert, find-insert, Each, Each-insert}
use aegis_desk.Prelude.Result.{Result, ok, err, Result-cases}
use aegis_desk.Double.{Doubles}
use aegis_desk.Service.Definition.{
  ServiceDefinition, definition_is_structurally_valid, with_absolute_paths-keeps, contains,
}
use aegis_desk.Service.Distinct.{are_distinct, contains-append, distinct-append_one}
use aegis_desk.Alerts.Manager.{is_present}
use aegis_desk.Recovery.Supervision.{Supervision}
use aegis_desk.Config.{PropertyTree, Paths}
use aegis_desk.Config.Service.{parse_service_definition}
use aegis_desk.Config.Valid.{
  parse_service_definition-eq-ok, parse_service_definition-reports, reports,
}
use aegis_desk.Registry.{
  Supervisors, ServiceRegistry, new_registry, load_services, read_registry, load_from_file,
}

-- A supervisor is filed under its identifier, and its definition is well formed.
abbrev pub IsEntry : {D S : Type 0} → ⦃d : Doubles D⦄ → Supervision D S → Str → S → Type 0
IsEntry v id s =
    ((v.definition s).id ≡ id) × (definition_is_structurally_valid (v.definition s) ≡ true)

pub record IsValid {D S : Type 0} ⦃d : Doubles D⦄ (v : Supervision D S) (r : ServiceRegistry S)
    : Type 0 where
  pub entries : Each (IsEntry v) r.supervisors
  pub listed : (id : Str) → is_present (find id r.supervisors) ≡ contains id r.service_order
  pub distinct : are_distinct r.service_order ≡ true
  pub sized : length r.supervisors ≡ length r.service_order

pub length-insert_new :
    {V : Type 0} (m : Dict V) (k : Str) (v : V)
    → is_present (find k m) ≡ false
    → length (insert k v m) ≡ length m + 1
unfolding find insert
length-insert_new [] k v h = ground arith
length-insert_new ((j, w) ∷ m) k v h = ground (arith, length-insert_new m k v)

module _ {D T : Type 0} (t : PropertyTree D T) where
  -- The identifiers in the file, in its order.
  abbrev pub ids_in : List (Str × T) → List (Option Str)
  ids_in [] = []
  ids_in ((_, node) ∷ nodes) = t.get_string node (text "id") ∷ ids_in nodes

  -- The nodes of the services in the file.
  abbrev pub service_nodes : Result T → List (Str × T)
  service_nodes (err what) = []
  service_nodes (ok root) = nodes_of (t.get_child root (text "services"))
    where
      nodes_of : Option T → List (Str × T)
      nodes_of none = []
      nodes_of (some node) = t.children node

module _ {D S T : Type 0} ⦃d : Doubles D⦄ (v : Supervisors D S) (t : PropertyTree D T)
    (p : Paths) where
  add-IsValid :
      (m : Dict S) (order : List Str) (s : ServiceDefinition D)
      → IsValid v.supervision (record { supervisors = m; service_order = order })
      → definition_is_structurally_valid s ≡ true
      → is_present (find s.id m) ≡ false
      → IsValid v.supervision (record {
        supervisors = insert s.id (v.create s) m;
        service_order = order ++ (s.id ∷ []);
      })
  unfolding contains
  add-IsValid m order s h good new = record {
    entries = Each-insert (IsEntry v.supervision) s.id (v.create s) m h.entries (
        rw (v.definition-create s)
          (with_absolute_paths-keeps v.absolute s v.is_empty-absolute good));
    listed = λ id. ground (
      arith,
      find-insert s.id id (v.create s) m,
      contains-append id order (s.id ∷ []),
      h.listed id,
    );
    distinct = distinct-append_one order s.id (ground (arith, h.listed s.id)) h.distinct;
    sized =
        ground
          (arith, h.sized, length-insert_new m s.id (v.create s), length-append order (s.id ∷ []));
  }

  -- What a round of the loop that goes on has read.
  load_services-step :
      (base_dir : Str) (index : ℕ) (m : Dict S) (order : List Str) (key : Str) (node : T)
      (nodes : List (Str × T)) (r : ServiceRegistry S)
      → load_services v t p base_dir index m order ((key, node) ∷ nodes) ≡ ok r
      → (s : ServiceDefinition D) × (parse_service_definition t p node index base_dir ≡ ok s)
        × (is_present (find s.id m) ≡ false)
        × (load_services v t p base_dir
              (index + 1)
              (insert s.id (v.create s) m)
              (order ++ (s.id ∷ []))
              nodes
            ≡ ok r)
  unfolding load_services
  load_services-step base_dir index m order key node nodes r h =
      elim (Result-cases (parse_service_definition t p node index base_dir)) [
        | inl (s, e) ↦ (s, e, ground arith, ground arith)
        | inr (message, e) ↦ absurd (ground arith)
      ]

  load_services-IsValid :
      (nodes : List (Str × T)) (base_dir : Str) (index : ℕ) (m : Dict S) (order : List Str)
      (r : ServiceRegistry S)
      → IsValid v.supervision (record { supervisors = m; service_order = order })
      → load_services v t p base_dir index m order nodes ≡ ok r
      → IsValid v.supervision r
  unfolding load_services
  load_services-IsValid [] base_dir index m order r h e =
      subst (IsValid v.supervision) (ground arith) h
  load_services-IsValid ((key, node) ∷ nodes) base_dir index m order r h e =
      let (s, parsed, new, next) = load_services-step base_dir index m order key node nodes r e in
      let (_, good) = parse_service_definition-eq-ok t p node index base_dir parsed in
      load_services-IsValid nodes base_dir (index + 1) _ _ r (add-IsValid m order s h good new) next

  load_services-ids :
      (nodes : List (Str × T)) (base_dir : Str) (index : ℕ) (m : Dict S) (order : List Str)
      (r : ServiceRegistry S)
      → load_services v t p base_dir index m order nodes ≡ ok r
      → map some r.service_order ≡ map some order ++ ids_in t nodes
  unfolding load_services
  load_services-ids [] base_dir index m order r e =
      let same : r ≡ record { supervisors = m; service_order = order } = ground arith in
      rw (same, append-nil (map some order)) refl
  load_services-ids ((key, node) ∷ nodes) base_dir index m order r e =
      let (s, parsed, new, next) = load_services-step base_dir index m order key node nodes r e in
      let (named, _) = parse_service_definition-eq-ok t p node index base_dir parsed in
      let rest = load_services-ids nodes base_dir (index + 1) _ _ r next in
      rw
        (
          rest,
          named,
          map-append some order (s.id ∷ []),
          append_assoc (map some order) (some s.id ∷ []) (ids_in t nodes),
        )
        refl

  new_registry-IsValid : IsValid v.supervision (new_registry {S = S})
  unfolding contains are_distinct find
  new_registry-IsValid = record { entries = tt; listed = λ id. refl; distinct = refl; sized = refl }

  -- A load that succeeds leaves a valid registry: every supervisor is filed under the identifier of
  -- its definition, which is well formed, and the order lists each of them once. The order is that
  -- of the identifiers in the file, of which there is at least one.
  pub load_from_file-IsValid :
      (r : ServiceRegistry S) (file : Result T) (config_path base_dir : Str)
      → (load_from_file v t p r file config_path base_dir).1 ≡ ok tt
      → IsValid v.supervision (load_from_file v t p r file config_path base_dir).0
        × (map some (load_from_file v t p r file config_path base_dir).0.service_order
            ≡ ids_in t (service_nodes t file))
        × (is_empty (service_nodes t file) ≡ false)
  unfolding load_from_file read_registry
  load_from_file-IsValid r file config_path base_dir h =
      elim (Result-cases (read_registry v t p r file config_path base_dir)) [
        | inl (r', e) ↦
            let loop : load_services v t p base_dir 0 [] [] (service_nodes t file) ≡ ok r' =
              ground arith in
            rw (load_from_file, e)
              (
                load_services-IsValid (service_nodes t file) base_dir 0 [] [] r'
                    new_registry-IsValid loop,
                load_services-ids (service_nodes t file) base_dir 0 [] [] r' loop,
                ground arith,
              )
        | inr (message, e) ↦ absurd (ground arith)
      ]

  load_services-reports :
      (nodes : List (Str × T)) (base_dir : Str) (index : ℕ) (m : Dict S) (order : List Str)
      → reports (load_services v t p base_dir index m order nodes) ≡ true
  unfolding load_services text
  load_services-reports [] base_dir index m order = refl
  load_services-reports ((key, node) ∷ nodes) base_dir index m order =
      elim (Result-cases (parse_service_definition t p node index base_dir)) [
        | inl (s, e) ↦ ground (
          arith,
          load_services-reports nodes base_dir (index + 1) (insert s.id (v.create s) m)
              (order ++ (s.id ∷ [])),
        )
        | inr (message, e) ↦
            ground (arith, parse_service_definition-reports t p node index base_dir)
      ]

  -- A load that is refused, for whatever reason, leaves the registry as it was and says why.
  pub load_from_file-refuses :
      (r : ServiceRegistry S) (file : Result T) (config_path base_dir message : Str)
      → (load_from_file v t p r file config_path base_dir).1 ≡ err message
      → ((load_from_file v t p r file config_path base_dir).0 ≡ r) × (is_empty message ≡ false)
  unfolding load_from_file read_registry text
  load_from_file-refuses r file config_path base_dir message h =
      ground (arith, load_services-reports (service_nodes t file) base_dir 0 [] [])
