-- ===== src/Tests/HttpServer.antt =====
-- A server that is asked to stop while a session is open; the owner waits, then the session closes.
use aegis_desk.Prelude.{◌<◌, refl}
use aegis_desk.HttpServer.{Serving, serving, register_session, remove_session, request_stop}
use aegis_desk.HttpServer.{store_drained}
use aegis_desk.HttpServer.Shutdown.{Step, Reach, here, next, pending, is_due-pending}

abbrev drained : Serving
drained = store_drained (request_stop (register_session 7 (serving 2)).0)

abbrev closed : Serving
closed = remove_session 7 drained

drained-Reach : Reach (serving 2) drained
drained-Reach = next (next (next here (Step.accepts 7)) Step.requests_stop) Step.drains

is_due-pending_example : 0 < pending closed
unfolding remove_session store_drained request_stop register_session
is_due-pending_example = is_due-pending (next drained-Reach (Step.closes 7)) refl
