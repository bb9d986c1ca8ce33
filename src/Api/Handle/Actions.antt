-- ===== src/Api/Handle/Actions.antt =====
-- What a request for an action on a service (agent_api.cpp) does.
use aegis_desk.Prelude.{
  ℕ, ◌≡◌, refl, true, false, some, [], ◌∷◌, ◌++◌, not, ◌==◌, if◌then◌else◌, arith,
}
use aegis_desk.Prelude.Text.{Str, text, str_eq, starts_with}
use aegis_desk.Prelude.Dict.{find, insert}
use aegis_desk.Double.{Doubles}
use aegis_desk.Service.Id.{is_valid_service_id, is_service_id_char, all_chars}
use aegis_desk.LogReader.{LogFile}
use aegis_desk.Alerts.Listing.{Sort}
use aegis_desk.Recovery.Supervision.{Outcome}
use aegis_desk.Registry.{Supervisors}
use aegis_desk.Api.Json.{make_error_response, conflict}
use aegis_desk.Api.Query.{path_only, parse_service_route, route_of, service_path_prefix}
use aegis_desk.Api.Query.Pairs.{all_chars-append, before-none, before-first}
use aegis_desk.Api.Responses.{Agent, make_status_response, make_action_response, call_for}
use aegis_desk.Api.Handle.{post, handle, handle_route, find_and_handle, handle_service}

pub data Operation : Type 0 where
  start stop restart : Operation

abbrev pub operation_to_string : Operation → Str
operation_to_string start = text "start"
operation_to_string stop = text "stop"
operation_to_string restart = text "restart"

abbrev pub target_of : Str → Operation → Str
target_of id op = service_path_prefix ++ id ++ (b'/' ∷ operation_to_string op)

id_chars-are_not :
    (id : Str) (c : ℕ)
    → is_service_id_char c ≡ false
    → all_chars is_service_id_char id ≡ true
    → all_chars (λ x. not (x == c)) id ≡ true
unfolding all_chars
id_chars-are_not [] c e h = refl
id_chars-are_not (x ∷ id) c e h = ground (arith, id_chars-are_not id c e)

operation-chars :
    (op : Operation) → all_chars (λ x. not (x == b'?')) (b'/' ∷ operation_to_string op) ≡ true
unfolding all_chars text
operation-chars op = ground arith

valid_id-chars : (id : Str) → is_valid_service_id id ≡ true → all_chars is_service_id_char id ≡ true
unfolding is_valid_service_id
valid_id-chars id h = ground arith

path_only-target_of :
    (id : Str) (op : Operation)
    → is_valid_service_id id ≡ true
    → path_only (target_of id op) ≡ target_of id op
unfolding path_only all_chars text
path_only-target_of id op h = before-none b'?' (target_of id op) (
    all_chars-append (λ x. not (x == b'?')) service_path_prefix
      (id ++ (b'/' ∷ operation_to_string op)) refl
      (all_chars-append (λ x. not (x == b'?')) id (b'/' ∷ operation_to_string op)
        (id_chars-are_not id b'?' refl (valid_id-chars id h)) (operation-chars op)))

parse_service_route-target_of :
    (id : Str) (op : Operation)
    → is_valid_service_id id ≡ true
    → parse_service_route (target_of id op)
      ≡ some (record { service_id = id; action = operation_to_string op })
unfolding parse_service_route route_of text starts_with is_valid_service_id
parse_service_route-target_of id op h =
    let parts =
      before-first b'/' id (operation_to_string op)
        (id_chars-are_not id b'/' refl (valid_id-chars id h)) in
    ground (arith, parts)

module _ {D S : Type 0} ⦃d : Doubles D⦄ (v : Supervisors D S) (sort : Sort)
    (files : Str → LogFile) where
  unfoldable pub perform : Operation → S → Outcome S
  perform start s = v.supervision.start s
  perform stop s = v.stop s
  perform restart s = v.supervision.restart s

  -- A POST for an action on a service that exists calls that operation of its supervisor once. The
  -- registry has the supervisor after the call and is else as before; the response is the status of
  -- the service then, or a conflict with the error of the call.
  pub handle-performs :
      (a : Agent D S) (id : Str) (s : S) (op : Operation)
      → is_valid_service_id id ≡ true
      → find id a.registry.supervisors ≡ some s
      → handle v sort files a (record { method = post; target = target_of id op }) ≡ (
        record a {
          registry = record a.registry {
            supervisors = insert id (perform op s).supervisor a.registry.supervisors;
          };
        },
        if (perform op s).succeeded
            then make_status_response v.supervision (perform op s).supervisor
            else make_error_response conflict (text "service_action_failed") (perform op s).error,
      )
  unfolding handle handle_route find_and_handle handle_service make_action_response call_for perform
      str_eq starts_with text
  handle-performs a id s op h found =
      ground (arith, path_only-target_of id op h, parse_service_route-target_of id op h)
