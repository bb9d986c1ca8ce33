-- ===== src/Alerts/Key.antt =====
-- `MakeRuleKey` of alert_evaluator.cpp and `MakeAlertEventId` of alert_manager.cpp, which are one
-- function: `service_id + ":" + rule_id`.
use aegis_desk.Prelude.{
  ℕ, ◌≡◌, refl, Bool, true, false, [], ◌∷◌, ◌++◌, ◌==◌, arith, length, length-append, is_empty,
  is_empty-append, ◌||◌, ◌≤◌,
}
use aegis_desk.Prelude.Text.{Str, str_eq, starts_with}
use aegis_desk.Service.Id.{all_chars, is_letter_or_digit, is_service_id_char, is_valid_service_id}
use aegis_desk.Alerts.Rule.{is_valid_alert_rule_id}
use aegis_desk.Alerts.Event.{is_valid_alert_event_id}

unfoldable pub make_rule_key : Str → Str → Str
make_rule_key service_id rule_id = service_id ++ (b':' ∷ rule_id)

valid-all_chars : (s : Str) → is_valid_service_id s ≡ true → all_chars is_service_id_char s ≡ true
unfolding is_valid_service_id
valid-all_chars s h = ground arith

split_at_colon :
    (s t r q : Str)
    → all_chars is_service_id_char s ≡ true
    → all_chars is_service_id_char t ≡ true
    → s ++ (b':' ∷ r) ≡ t ++ (b':' ∷ q)
    → (s ≡ t) × (r ≡ q)
unfolding all_chars
split_at_colon [] [] r q hs ht e = ground arith
split_at_colon [] (c ∷ t) r q hs ht e = ground arith
split_at_colon (c ∷ s) [] r q hs ht e = ground arith
split_at_colon (c ∷ s) (d ∷ t) r q hs ht e = ground (arith, split_at_colon s t r q)

-- With valid service identifiers, two rules have the same key only if they are the same rule of the
-- same service.
pub make_rule_key-injective :
    (s t r q : Str)
    → is_valid_service_id s ≡ true
    → is_valid_service_id t ≡ true
    → make_rule_key s r ≡ make_rule_key t q
    → (s ≡ t) × (r ≡ q)
unfolding make_rule_key
make_rule_key-injective s t r q hs ht e =
    split_at_colon s t r q (valid-all_chars s hs) (valid-all_chars t ht) e

starts_with_colon :
    (s t r : Str)
    → all_chars is_service_id_char s ≡ true
    → all_chars is_service_id_char t ≡ true
    → starts_with (s ++ (b':' ∷ r)) (t ++ (b':' ∷ [])) ≡ str_eq s t
unfolding all_chars starts_with str_eq
starts_with_colon [] [] r hs ht = refl
starts_with_colon [] (c ∷ t) r hs ht = ground arith
starts_with_colon (c ∷ s) [] r hs ht = ground arith
starts_with_colon (c ∷ s) (d ∷ t) r hs ht = ground (arith, starts_with_colon s t r)

-- The prefix test by which a service's keys are found.
pub starts_with-make_rule_key :
    (s t r : Str)
    → is_valid_service_id s ≡ true
    → is_valid_service_id t ≡ true
    → starts_with (make_rule_key s r) (t ++ (b':' ∷ [])) ≡ str_eq s t
unfolding make_rule_key
starts_with-make_rule_key s t r hs ht =
    starts_with_colon s t r (valid-all_chars s hs) (valid-all_chars t ht)

all_chars-append :
    (valid : ℕ → Bool) (s t : Str)
    → all_chars valid s ≡ true
    → all_chars valid t ≡ true
    → all_chars valid (s ++ t) ≡ true
unfolding all_chars
all_chars-append valid [] t hs ht = ht
all_chars-append valid (c ∷ s) t hs ht = ground (arith, all_chars-append valid s t)

all_chars-weaken :
    (valid weaker : ℕ → Bool) (s : Str)
    → ((c : ℕ) → valid c ≡ true → weaker c ≡ true)
    → all_chars valid s ≡ true
    → all_chars weaker s ≡ true
unfolding all_chars
all_chars-weaken valid weaker [] h hs = refl
all_chars-weaken valid weaker (c ∷ s) h hs = ground (arith, h c, all_chars-weaken valid weaker s h)

abbrev is_rule_char : ℕ → Bool
is_rule_char ch = is_letter_or_digit ch || ch == b'_' || ch == b'-' || ch == b'.'

abbrev is_event_char : ℕ → Bool
is_event_char ch = is_letter_or_digit ch || ch == b'_' || ch == b'-' || ch == b'.' || ch == b':'

service_char : (c : ℕ) → is_service_id_char c ≡ true → is_event_char c ≡ true
service_char c h = ground arith

rule_char : (c : ℕ) → is_rule_char c ≡ true → is_event_char c ≡ true
rule_char c h = ground arith

service_id_fits : (s : Str) → is_valid_service_id s ≡ true → length s ≤ 64
unfolding is_valid_service_id
service_id_fits s h = ground arith

rule_id_parts :
    (r : Str)
    → is_valid_alert_rule_id r ≡ true
    → (length r ≤ 64) × (all_chars is_rule_char r ≡ true)
unfolding is_valid_alert_rule_id
rule_id_parts r h = ground arith

event_id_from_parts :
    (id : Str)
    → is_empty id ≡ false
    → length id ≤ 160
    → all_chars is_event_char id ≡ true
    → is_valid_alert_event_id id ≡ true
unfolding is_valid_alert_event_id
event_id_from_parts id not_empty fits chars = ground arith

-- The alert identifier made of a valid service identifier and a valid rule identifier is valid.
pub make_rule_key-is_valid_alert_event_id :
    (s r : Str)
    → is_valid_service_id s ≡ true
    → is_valid_alert_rule_id r ≡ true
    → is_valid_alert_event_id (make_rule_key s r) ≡ true
unfolding make_rule_key all_chars
make_rule_key-is_valid_alert_event_id s r hs hr =
    let (fits, chars) = rule_id_parts r hr in
    event_id_from_parts (s ++ (b':' ∷ r)) (ground (arith, is_empty-append s (b':' ∷ r)))
      (omega (arith, length-append s (b':' ∷ r), service_id_fits s hs, fits))
      (all_chars-append is_event_char s (b':' ∷ r)
        (all_chars-weaken is_service_id_char is_event_char s service_char (valid-all_chars s hs))
        (all_chars-weaken is_rule_char is_event_char r rule_char chars))
