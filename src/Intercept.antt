-- ===== src/Intercept.antt =====
-- src/secondeye/proxy/intercept.py: `_serve_requests` of InterceptHandler, behind the TLS handshake.

pub mod Answers
pub mod Refusals
use second_eye.Prelude.{
  ℕ, Bool, true, false, Option, none, some, List, [], ◌∷◌, ◌++◌, ◌==◌, nat_eq, if◌then◌else◌,
}
use second_eye.Prelude.Text.{Text, codes}
use second_eye.Json.{Bytes}
use second_eye.Har.{HarEntry, RequestEvent, build_har_entry}
use second_eye.Manager.{Result, ok, err}
use second_eye.Listener.{decode_replace}
use second_eye.Upstream.{ℤ, UpstreamConnector, Connection, Connected, opened, failed, connect_tls}
use second_eye.HttpCycle.{
  Sent, Reply, websocket_switching_protocols, read_request, forward_sends, Received, received,
  not_received, receive,
}
use second_eye.Exchange.{
  Outside, Action, asked, forwarded, recorded, switched, End, client_gone, raised, upgraded, Turn,
  Recorder, raw_passthrough, answer, fail_gateway, fail_connect, next_turn, serve,
}

module _ {S : Type 0} (record_entry : Recorder S) (connector : UpstreamConnector) (sni : Text)
    (port : ℤ) where
  -- the port is no part of it
  unfoldable pub entry_url : RequestEvent → Text
  entry_url r = codes "https://" ++ (sni ++ decode_replace r.target)

  -- after the response: a 101 hands over to the raw relay
  unfoldable pub after_response : List Action → Outside → Reply → S → Turn S
  after_response done o reply s =
      let relay = raw_passthrough o.client_trailing o.upstream_trailing o.relay in
      if o.delivered
      then if reply.event.status_code == websocket_switching_protocols
        then (done ++ switched relay ∷ [], (s, some upgraded))
        else (done, (s, next_turn o))
      else (done, (s, some raised))

  -- the entry is recorded before the response is written; an exception of the recorder ends it all
  unfoldable pub record_response :
      List Action → Outside → HarEntry → Reply → Result (Unit {0}) × S → Turn S
  record_response done o e reply (ok u, s) =
      after_response (done ++ recorded e ∷ answer reply ∷ []) o reply s
  record_response done o e reply (err x, s) = (done, (s, some raised))

  -- an entry that cannot be built is an exception
  unfoldable pub record_built : List Action → Outside → Reply → Option HarEntry → S → Turn S
  record_built done o reply none s = (done, (s, some raised))
  record_built done o reply (some e) s = record_response done o e reply (record_entry e s)

  unfoldable pub handle_response :
      List Action → Outside → RequestEvent → Bytes → Received → S → Turn S
  handle_response done o r body not_received s = fail_gateway done s
  handle_response done o r body (received reply) s =
      record_built done o reply
        (build_har_entry r body reply.event reply.body (entry_url r) o.started_at o.time_ms) s

  -- the request goes out where the upstream can be reached
  unfoldable pub forward_request : Outside → RequestEvent → Bytes → Connected → S → Turn S
  forward_request o r body (failed e) s = fail_connect (asked r body ∷ []) e s
  forward_request o r body (opened c) s =
      handle_response (asked r body ∷ forwarded c (forward_sends r body) ∷ []) o r body
        (receive o.upstream) s

  -- without a request the client is gone
  unfoldable pub handle_request : Outside → Option (Option RequestEvent × Bytes) → S → Turn S
  handle_request o none s = ([], (s, some client_gone))
  handle_request o (some (none, body)) s = ([], (s, some client_gone))
  handle_request o (some (some r, body)) s =
      forward_request o r body (connect_tls o.network connector sni port) s

  unfoldable pub intercept_turn : Outside → S → Turn S
  intercept_turn o s = handle_request o (read_request o.client) s

  unfoldable pub serve_intercepted : List Outside → S → List Action × (S × End)
  serve_intercepted = serve intercept_turn
