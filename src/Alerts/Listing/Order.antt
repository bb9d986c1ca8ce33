-- ===== src/Alerts/Listing/Order.antt =====
-- The comparison of `SortAlertsForDisplay` (alert_manager.cpp) is one that `std::ranges::sort` allows.
use aegis_desk.Prelude.{◌≡◌, refl, true, false, [], ◌∷◌, arith}
use aegis_desk.Prelude.Text.{Str, str_lt, str_eq_iff, str_eq_refl}
use aegis_desk.Alerts.Event.{AlertEvent}
use aegis_desk.Alerts.Listing.{is_displayed_before}

str_lt_irrefl : (s : Str) → str_lt s s ≡ false
unfolding str_lt
str_lt_irrefl [] = refl
str_lt_irrefl (c ∷ s) = ground (arith, str_lt_irrefl s)

str_lt_trans : (s t u : Str) → str_lt s t ≡ true → str_lt t u ≡ true → str_lt s u ≡ true
unfolding str_lt
str_lt_trans s t [] h k = cc
str_lt_trans s [] (c ∷ u) h k = cc
str_lt_trans [] (b ∷ t) (c ∷ u) h k = refl
str_lt_trans (a ∷ s) (b ∷ t) (c ∷ u) h k = ground (arith, str_lt_trans s t u)

-- The comparison is a strict order: no alert comes before itself, and an alert that comes before
-- another comes before all that come after that one.
pub is_displayed_before-IsStrict :
    (a b c : AlertEvent)
    → is_displayed_before a b ≡ true
    → is_displayed_before b c ≡ true
    → (is_displayed_before a a ≡ false) × (is_displayed_before a c ≡ true)
unfolding is_displayed_before
is_displayed_before-IsStrict a b c h k = (
  ground (arith, str_lt_irrefl a.rule_id, str_eq_refl a.service_id),
  ground (
    arith,
    str_eq_iff a.service_id b.service_id,
    str_eq_iff b.service_id c.service_id,
    str_eq_iff a.service_id c.service_id,
    str_lt_trans a.service_id b.service_id c.service_id,
    str_lt_trans a.rule_id b.rule_id c.rule_id,
    str_lt_irrefl a.service_id,
  ),
)
