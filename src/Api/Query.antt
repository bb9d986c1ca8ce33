-- ===== src/Api/Query.antt =====
-- Targets of requests: the helpers at the start of apps/agent/src/api/agent_api.cpp.
pub mod Pairs
use aegis_desk.Prelude.{
  ℕ, zero, suc, ◌+◌, ◌-◌, ◌%◌, ◌^◌, take, Bool, true, false, Option, none, some, List, [], ◌∷◌,
  ◌||◌, if◌then◌else◌, ltb, ◌==◌, is_empty, length, drop,
}
use aegis_desk.Prelude.Text.{Str, text, str_eq, starts_with}
use aegis_desk.Prelude.Numeral.{from_chars, whole}

-- A text up to a character, the whole text if it does not occur, and what follows the character.
unfoldable pub before : ℕ → Str → Str
before separator [] = []
before separator (c ∷ s) = let rest = before separator s in if c == separator then [] else c ∷ rest

unfoldable pub after : ℕ → Str → Option Str
after separator [] = none
after separator (c ∷ s) = let rest = after separator s in if c == separator then some s else rest

unfoldable pub path_only : Str → Str
unfolding before
path_only target = before b'?' target

pub record ServiceRoute : Type 0 where
  pub service_id : Str
  pub action : Str

abbrev pub service_path_prefix : Str
service_path_prefix = text "/api/v1/services/"

unfoldable pub route_of : Str → Option Str → Option ServiceRoute
route_of service_id none = none
route_of service_id (some action) =
    if is_empty service_id || is_empty action
    then none
    else some (record { service_id = service_id; action = action })

unfoldable pub parse_service_route : Str → Option ServiceRoute
unfolding before after route_of
parse_service_route path =
    let suffix = drop (length service_path_prefix) path in
    if starts_with path service_path_prefix
    then route_of (before b'/' suffix) (after b'/' suffix)
    else none

-- The value of a pair whose key is the expected one.
unfoldable pub value_of_pair : Str → Str → Option Str
unfolding before after
value_of_pair expected_key pair = elim (after b'=' pair) [
  | none ↦ none
  | some value ↦ if str_eq (before b'=' pair) expected_key then some value else none
]

-- The loop over the pairs, up to the first with the expected key. Each round removes a character at
-- least, so the length of the query is enough fuel.
unfoldable pub find_value : ℕ → Str → Str → Option Str
unfolding value_of_pair before after
find_value zero expected_key remaining = none
find_value (suc fuel) expected_key remaining =
    if is_empty remaining then none else elim (value_of_pair expected_key (before b'&' remaining)) [
      | some value ↦ some value
      | none ↦ elim (after b'&' remaining) [
        | none ↦ none
        | some rest ↦ find_value fuel expected_key rest
      ]
    ]

unfoldable pub query_value : Str → Str → Option Str
unfolding find_value after
query_value target expected_key = elim (after b'?' target) [
  | none ↦ none
  | some query ↦ find_value (length query) expected_key query
]

-- `std::clamp(parsed, 1, maximum)`.
abbrev pub clamp_positive : ℕ → ℕ → ℕ
clamp_positive parsed maximum =
    if ltb parsed 1 then 1 else if ltb maximum parsed then maximum else parsed

unfoldable pub bounded_of : ℕ → ℕ → Option Str → ℕ
bounded_of default_value maximum none = default_value
bounded_of default_value maximum (some value) = elim (whole (from_chars 64 value)) [
  | none ↦ default_value
  | some parsed ↦ clamp_positive parsed maximum
]

unfoldable pub parse_bounded_positive_query_parameter : Str → Str → ℕ → ℕ → ℕ
unfolding query_value bounded_of
parse_bounded_positive_query_parameter target expected_key default_value maximum =
    bounded_of default_value maximum (query_value target expected_key)

unfoldable pub boolean_of : Bool → Option Str → Bool
boolean_of default_value none = default_value
boolean_of default_value (some value) =
    str_eq value (text "true") || str_eq value (text "1") || str_eq value (text "yes")

unfoldable pub parse_boolean_query_parameter : Str → Str → Bool → Bool
unfolding query_value boolean_of
parse_boolean_query_parameter target expected_key default_value =
    boolean_of default_value (query_value target expected_key)

unfoldable pub parse_tail_limit : Str → ℕ
parse_tail_limit target = parse_bounded_positive_query_parameter target (text "tail") 100 500

unfoldable pub parse_history_limit : Str → ℕ
parse_history_limit target = parse_bounded_positive_query_parameter target (text "limit") 300 300

unfoldable pub parse_include_resolved : Str → Bool
parse_include_resolved target = parse_boolean_query_parameter target (text "include_resolved") false

unfoldable pub parse_alert_resolved_limit : Str → ℕ
parse_alert_resolved_limit target =
    parse_bounded_positive_query_parameter target (text "limit") 100 500

unfoldable pub parse_recovery_event_limit : Str → ℕ
parse_recovery_event_limit target =
    parse_bounded_positive_query_parameter target (text "limit") 100 500

-- `std::string_view::ends_with`.
unfoldable pub ends_with : Str → Str → Bool
ends_with s suffix =
    if ltb (length s) (length suffix)
    then false
    else str_eq (drop (length s - length suffix) s) suffix

abbrev pub alert_path_prefix : Str
alert_path_prefix = text "/api/v1/alerts/"

-- `path.substr(prefix.size(), path.size() - prefix.size() - suffix.size())`, where the length is a
-- std::size_t that wraps around.
unfoldable pub acknowledged_alert_id : Str → Str
acknowledged_alert_id path =
    let count = (length path + 2 ^ 64 - length alert_path_prefix - length (text "/ack")) % 2 ^ 64 in
    take count (drop (length alert_path_prefix) path)
