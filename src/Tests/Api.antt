-- ===== src/Tests/Api.antt =====
-- Requests to an agent with one service.
use aegis_desk.Prelude.{
  ℕ, ◌≡◌, ◌==◌, not, refl, true, false, none, some, List, [], ◌∷◌, ◌++◌, if◌then◌else◌,
}
use aegis_desk.Prelude.Text.{Str, text, str_eq}
use aegis_desk.Prelude.Decimal.{decimal}
use aegis_desk.Prelude.Dict.{Dict, find, insert}
use aegis_desk.Service.Definition.{ServiceDefinition}
use aegis_desk.Service.Id.{is_valid_service_id, all_chars}
use aegis_desk.LogReader.{LogFile, readable}
use aegis_desk.Alerts.Listing.{Sort}
use aegis_desk.Registry.{ServiceRegistry}
use aegis_desk.Api.Json.{json_escape, make_error_response, conflict}
use aegis_desk.Api.Json.RoundTrip.{read_string, plain, read_string-json_escape}
use aegis_desk.Api.Query.{acknowledged_alert_id, parse_bounded_positive_query_parameter}
use aegis_desk.Api.Query.Pairs.{are_plain, render, number, text_of, limit_for, parse_limit-render}
use aegis_desk.Api.Responses.{Agent, make_metrics_response, make_metrics_history_response}
use aegis_desk.Api.Handle.{HttpRequest, get, post, handle}
use aegis_desk.Api.Handle.Safety.{handle-unchanged, metrics_responses-AreServed, is_internal_error}
use aegis_desk.Api.Handle.Actions.{handle-performs, perform, target_of, stop}
use aegis_desk.Tests.Data
use aegis_desk.Tests.Data.{doubles_ℕ}
use aegis_desk.Tests.Monitor.{monitor}
use aegis_desk.Tests.Registry.{supervisors}
use aegis_desk.Tests.Metrics.{collector, collector-IsValid}

abbrev registry : ServiceRegistry (ServiceDefinition ℕ)
registry = record { supervisors = (Data.web, Data.service) ∷ []; service_order = Data.web ∷ [] }

abbrev agent : Agent ℕ (ServiceDefinition ℕ)
agent = record { registry = registry; collector = collector; monitor = monitor }

abbrev sort : Sort
sort = λ _ alerts. alerts

abbrev files : Str → LogFile
files = λ _. readable (text "one line")

abbrev list_request : HttpRequest
list_request = record { method = get; target = text "/api/v1/services" }

handle-unchanged_example : (handle supervisors sort files agent list_request).0 ≡ agent
handle-unchanged_example = handle-unchanged supervisors sort files agent list_request refl

metrics_responses-AreServed_example :
    (is_internal_error (make_metrics_response supervisors.supervision agent Data.service).status
      ≡ false)
    × (is_internal_error
          (make_metrics_history_response supervisors.supervision agent Data.service 5).status
        ≡ false)
metrics_responses-AreServed_example =
    metrics_responses-AreServed supervisors.supervision agent Data.service 5 collector-IsValid

web_is_valid : is_valid_service_id Data.web ≡ true
unfolding is_valid_service_id text
web_is_valid = refl

web_is_found : find Data.web registry.supervisors ≡ some Data.service
unfolding find aegis_desk.Prelude.Text.str_eq text
web_is_found = refl

handle-performs_example :
    handle supervisors sort files agent (record { method = post; target = target_of Data.web stop })
    ≡ (
      record agent {
        registry = record registry {
          supervisors = insert Data.web Data.service registry.supervisors;
        };
      },
      make_error_response conflict (text "service_action_failed") (text "timeout"),
    )
unfolding perform
handle-performs_example =
    handle-performs supervisors sort files agent Data.web Data.service stop web_is_valid
      web_is_found

abbrev quoted : Str
quoted = text "a \"b\"\n"

read_string-json_escape_example :
    read_string plain (json_escape quoted ++ (b'"' ∷ text "}")) ≡ some (quoted, text "}")
read_string-json_escape_example = read_string-json_escape quoted (text "}")

abbrev pairs : Dict Str
pairs = (text "a", text "b") ∷ (text "tail", text "900") ∷ []

path_is_plain : all_chars (λ c. not (c == b'?')) (text "/logs") ≡ true
unfolding all_chars text
path_is_plain = refl

pairs-are_plain : are_plain pairs ≡ true
unfolding all_chars text are_plain
pairs-are_plain = refl

tail_is_900 : find (text "tail") pairs ≡ text_of (number 900)
unfolding find text str_eq decimal
tail_is_900 = refl

parse_limit-render_example :
    parse_bounded_positive_query_parameter
      (text "/logs" ++ (b'?' ∷ render pairs))
      (text "tail")
      100
      500
    ≡ 500
unfolding limit_for
parse_limit-render_example =
    parse_limit-render (text "/logs") (text "tail") pairs (number 900) 100 500 path_is_plain
      pairs-are_plain tail_is_900 refl

-- The prefix and the suffix of the path overlap.
overlapping_ack : acknowledged_alert_id (text "/api/v1/alerts/ack") ≡ text "ack"
unfolding acknowledged_alert_id text
overlapping_ack = refl

named_ack : acknowledged_alert_id (text "/api/v1/alerts/web/ack") ≡ text "web"
unfolding acknowledged_alert_id text
named_ack = refl
