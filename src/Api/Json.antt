-- ===== src/Api/Json.antt =====
-- apps/agent/src/api/http_json.cpp: JSON texts and responses.
pub mod RoundTrip
use aegis_desk.Prelude.{
  ℕ, ◌+◌, ◌-◌, ◌/◌, ◌%◌, Bool, true, false, Option, none, some, List, [], ◌∷◌, ◌++◌, if◌then◌else◌,
  ltb, ◌==◌,
}
use aegis_desk.Prelude.Text.{Str, text}

-- A digit of `std::hex`.
abbrev pub hex_digit : ℕ → ℕ
hex_digit n = if ltb n 10 then b'0' + n else b'a' + n - 10

-- The text for one character.
unfoldable pub escaped : ℕ → Str
escaped c =
    if c == b'"'
    then text "\\\""
    else if c == b'\\'
    then text "\\\\"
    else if c == 8
    then text "\\b"
    else if c == 12
    then text "\\f"
    else if c == b'\n'
    then text "\\n"
    else if c == b'\r'
    then text "\\r"
    else if c == b'\t'
    then text "\\t"
    else if ltb c 32
    then text "\\u00" ++ (hex_digit (c / 16) ∷ hex_digit (c % 16) ∷ [])
    else c ∷ []

unfoldable pub json_escape : Str → Str
unfolding escaped
json_escape [] = []
json_escape (c ∷ value) = escaped c ++ json_escape value

-- The statuses of the agent's responses.
pub data Status : Type 0 where
  ok bad_request not_found method_not_allowed conflict internal_server_error service_unavailable :
      Status

pub record HttpResponse : Type 0 where
  pub status : Status
  pub content_type : Str
  pub cache_control : Str
  pub allow : Option Str
  pub body : Str

unfoldable pub make_json_response : Status → Str → HttpResponse
make_json_response status body = record {
  status = status;
  content_type = text "application/json; charset=utf-8";
  cache_control = text "no-store";
  allow = none;
  body = body;
}

unfoldable pub make_error_response : Status → Str → Str → HttpResponse
unfolding make_json_response
make_error_response status error message = make_json_response status (
    text "{\"error\":\""
    ++ json_escape error
    ++ text "\",\"message\":\""
    ++ json_escape message
    ++ text "\"}")
