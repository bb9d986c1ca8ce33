-- ===== src/Config/Valid.antt =====
-- What a definition read from the configuration satisfies, and that every refusal says why.
use aegis_desk.Prelude.{
  ℕ, ◌≡◌, refl, Bool, true, false, some, List, [], ◌∷◌, ◌++◌, not, is_empty, arith, is_empty-append,
  inl, inr, Option-cases,
}
use aegis_desk.Prelude.Text.{Str, text}
use aegis_desk.Prelude.Decimal.{decimal}
use aegis_desk.Prelude.Result.{Result, ok, err, Result-cases}
use aegis_desk.Double.{Doubles}
use aegis_desk.Alerts.Rule.{AlertRule}
use aegis_desk.Service.Definition.{ServiceDefinition, definition_is_structurally_valid}
use aegis_desk.Config.{PropertyTree, Paths}
use aegis_desk.Config.Fields.{
  args_of, read_items, read_required_string, read_args, read_auto_start, check_required,
}
use aegis_desk.Config.Parts.{
  health_check_of, policy_of, rules_of, parse_rules, parse_alert_rule, health_threshold,
  numeric_threshold, parse_health_check_definition, parse_alert_rules, parse_recovery_policy,
}
use aegis_desk.Config.Service.{parse_service_definition}

-- A refusal has a text.
abbrev pub reports {ℓ} : {A : Type ℓ} → Result A → Bool
reports (ok a) = true
reports (err e) = not (is_empty e)

module _ {D T : Type 0} ⦃d : Doubles D⦄ (t : PropertyTree D T) (p : Paths) where
  -- What is read is well formed, under the identifier that its node has.
  pub parse_service_definition-eq-ok :
      (node : T) (index : ℕ) (base_dir : Str) {s : ServiceDefinition D}
      → parse_service_definition t p node index base_dir ≡ ok s
      → (t.get_string node (text "id") ≡ some s.id) × (definition_is_structurally_valid s ≡ true)
  unfolding parse_service_definition read_required_string check_required
  parse_service_definition-eq-ok node index base_dir h = ground arith

  read_items-reports :
      (items : List (Str × T)) (context : Str)
      → is_empty context ≡ false
      → reports (read_items t context items) ≡ true
  unfolding read_items
  read_items-reports [] context h = refl
  read_items-reports ((key, item) ∷ items) context h = ground (
    arith,
    read_items-reports items context h,
    is_empty-append context (text ".args must be a JSON array"),
    is_empty-append context (text ".args items must be strings"),
  )

  parse_rules-reports :
      (items : List (Str × T)) (id : Str) (seen : List Str) (rules : List (AlertRule D))
      → reports (parse_rules t id seen rules items) ≡ true
  unfolding parse_rules parse_alert_rule health_threshold numeric_threshold text
  parse_rules-reports [] id seen rules = refl
  parse_rules-reports ((_, node) ∷ items) id seen rules =
      elim (Result-cases (parse_alert_rule t node id)) [
        | inl (rule, e) ↦
            ground (arith, parse_rules-reports items id (rule.id ∷ seen) (rules ++ (rule ∷ [])))
        | inr (message, e) ↦ ground arith
      ]

  parse_alert_rules-reports : (node : T) (id : Str) → reports (parse_alert_rules t node id) ≡ true
  unfolding parse_alert_rules rules_of
  parse_alert_rules-reports node id = elim (Option-cases (t.get_child node (text "alert_rules"))) [
    | inl e ↦ rw e refl
    | inr (child, e) ↦ rw e (parse_rules-reports (t.children child) id [] [])
  ]

  read_args-reports :
      (node : T) (context : Str)
      → is_empty context ≡ false
      → reports (read_args t node context) ≡ true
  unfolding read_args args_of
  read_args-reports node context h = elim (Option-cases (t.get_child node (text "args"))) [
    | inl e ↦ rw e refl
    | inr (child, e) ↦ ground (
      arith,
      read_items-reports (t.children child) context h,
      is_empty-append context (text ".args must be a JSON array"),
    )
  ]

  parse_health_check_definition-reports :
      (node : T) (id : Str) → reports (parse_health_check_definition t node id) ≡ true
  unfolding parse_health_check_definition health_check_of text
  parse_health_check_definition-reports node id = ground arith

  parse_recovery_policy-reports :
      (node : T) (id : Str) → reports (parse_recovery_policy t node id) ≡ true
  unfolding parse_recovery_policy policy_of text
  parse_recovery_policy-reports node id = ground arith

  pub parse_service_definition-reports :
      (node : T) (index : ℕ) (base_dir : Str)
      → reports (parse_service_definition t p node index base_dir) ≡ true
  unfolding parse_service_definition read_required_string check_required read_auto_start text
  parse_service_definition-reports node index base_dir =
      elim (Result-cases
        (read_required_string t node (text "id") (text "services[" ++ decimal index ++ text "]"))) [
          | inl (id, e) ↦ ground (
            arith,
            e,
            parse_alert_rules-reports node id,
            parse_health_check_definition-reports node id,
            parse_recovery_policy-reports node id,
            read_args-reports node (text "services[" ++ decimal index ++ text "]") refl,
          )
          | inr (message, e) ↦ ground arith
        ]
