-- ===== src/Alerts/Evaluator/Forget.antt =====
-- `ForgetService` drops the state of every rule of a service, and of no other service.
use aegis_desk.Prelude.{◌≡◌, Bool, true, none, [], ◌∷◌, ◌++◌, if◌then◌else◌, arith}
use aegis_desk.Prelude.Text.{Str, text, str_eq, str_eq_iff, starts_with}
use aegis_desk.Prelude.Dict.{Dict, find, erase_if}
use aegis_desk.Service.Id.{is_valid_service_id}
use aegis_desk.Alerts.Key.{make_rule_key, starts_with-make_rule_key}
use aegis_desk.Alerts.Evaluator.{AlertEvaluator, forget_service}

find-erase_if :
    {V : Type 0} (p : Str → Bool) (key : Str) (m : Dict V)
    → find key (erase_if (λ k _. p k) m) ≡ (if p key then none else find key m)
unfolding find erase_if
find-erase_if p key [] = ground arith
find-erase_if p key ((k, v) ∷ m) = ground (arith, str_eq_iff k key, find-erase_if p key m)

-- After forgetting a service its rules have no state, and the rules of all other services keep
-- theirs; services have valid identifiers.
pub rule_states-forget_service :
    (e : AlertEvaluator) (forgotten service rule : Str)
    → is_valid_service_id forgotten ≡ true
    → is_valid_service_id service ≡ true
    → find (make_rule_key service rule) (forget_service e forgotten).rule_states
      ≡ (if str_eq service forgotten then none else find (make_rule_key service rule) e.rule_states)
unfolding forget_service text
rule_states-forget_service e forgotten service rule hf hs = rw (
  find-erase_if (λ k. starts_with k (forgotten ++ (b':' ∷ []))) (make_rule_key service rule)
      e.rule_states,
  starts_with-make_rule_key service forgotten rule hs hf,
)
