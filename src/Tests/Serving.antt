-- ===== src/Tests/Serving.antt =====
-- Requests served: over an intercepted connection, one answered and one at which the gateway fails; and
-- over plain HTTP.
use second_eye.Prelude.{◌≡◌, refl}
use second_eye.Prelude.Text.{Text}
use second_eye.Prelude.{◌≢◌, true, false, none, some, List, [], ◌∷◌, ◌++◌, arith, nat_eq, list_eq}
use second_eye.Prelude.Text.{codes}
use second_eye.Har.{HarEntry, RequestEvent, build_har_entry, decode_ascii, ◌>>=◌}
use second_eye.Manager.{ok}
use second_eye.Upstream.{pos, UpstreamConnector, connect_tls, connect_plain_http, open_direct}
use second_eye.HttpCycle.{
  request, end_of_message, response, data_, read_request, read_loop, receive, receive_loop,
  finish_reply,
}
use second_eye.Exchange.{Outside, raised, Recorder, serve, fail_gateway, next_turn}
use second_eye.Exchange.Logs.{IsAnswered, gateway_status}
use second_eye.Intercept.{
  serve_intercepted, intercept_turn, handle_request, forward_request, handle_response, record_built,
  record_response, after_response,
}
use second_eye.Manager.{record_entry}
use second_eye.Upstream.{Connection, opened, system_trust}
use second_eye.HttpCycle.{Reply, received, forward_sends}
use second_eye.Exchange.{asked, forwarded}
use second_eye.Intercept.{entry_url}
use second_eye.Intercept.Refusals.{intercept_turn-begin_stop}
use second_eye.Tests.CaptureRun.{env}
use second_eye.Tests.Interleaving.{opened as capturing, closed_, pending, begin_stop_run}
use second_eye.Intercept.Answers.{serve_intercepted-answers}
use second_eye.PlainHttp.{
  PlainHttpHandler, serve_plain_http, parse_absolute_target, port_or_default, path_with_query,
  build_url, is_in_scope, outgoing_request,
}
use second_eye.PlainHttp as Plain
use second_eye.PlainHttp.Recording.{IsRecorded, serve_plain_http-records}
use second_eye.Tests.Network.{open_network}
use second_eye.Tests.Hello.{one_host}
use second_eye.Tests.Traffic.{plain_urls, plain_matching}

abbrev direct : UpstreamConnector
direct = record {
  upstream_host = none;
  upstream_port = none;
  no_upstream = true;
  upstream_ca = none;
  upstream_insecure = false;
}

-- the entries recorded so far
abbrev keep : Recorder (List HarEntry)
keep e es = (ok tt, es ++ e ∷ [])

abbrev page : RequestEvent
page = record {
  method = codes "GET";
  target = codes "http://b.c/";
  http_version = codes "1.1";
  headers = [];
}

-- the upstream answers 200, and the connection goes on
abbrev answered : Outside
answered = record {
  client = request page ∷ end_of_message ∷ [];
  network = open_network;
  upstream =
      response (record { status_code = 200; reason = []; http_version = codes "1.1"; headers = [] })
      ∷ data_ (1 ∷ [])
      ∷ end_of_message
      ∷ [];
  started_at = 5;
  time_ms = record { bits = 0 };
  delivered = true;
  client_trailing = [];
  upstream_trailing = [];
  relay = [];
  must_close = false;
  can_restart = true;
}

-- the upstream closes
abbrev unanswered : Outside
unanswered = record answered { upstream = [] }

abbrev requests : List Outside
requests = answered ∷ unanswered ∷ []

intercepted_end : (serve_intercepted keep direct (codes "b.c") (pos 443) requests []).1.1 ≢ raised
unfolding serve_intercepted serve intercept_turn handle_request read_request read_loop connect_tls
    open_direct forward_request receive receive_loop finish_reply handle_response build_har_entry
    decode_ascii ◌>>=◌ record_built record_response after_response next_turn fail_gateway nat_eq
intercepted_end e = absurd (ground arith)

serve_intercepted-answers_example :
    let (log, (s, end)) = serve_intercepted keep direct (codes "b.c") (pos 443) requests [] in
    IsAnswered keep [] log s (gateway_status end)
serve_intercepted-answers_example =
    serve_intercepted-answers keep direct (codes "b.c") (pos 443) requests [] intercepted_end

-- the host of every target is `b.c`
abbrev handler : PlainHttpHandler (List HarEntry)
handler = record {
  urls = record plain_urls {
    split_raises = λ t. false;
    urlsplit = λ t. record {
      scheme = codes "http";
      path = codes "/";
      query = [];
      hostname = some (codes "b.c");
      port = none;
    };
  };
  matching = plain_matching;
  scope_matcher = one_host;
  target_all = true;
  upstream_connector = direct;
  on_entry_recorded = keep;
}

plain_http_end : (serve_plain_http handler requests []).1.1 ≢ raised
unfolding serve_plain_http serve Plain.plain_http_turn Plain.handle_request Plain.handle_target
    Plain.parse_absolute_target_raises parse_absolute_target port_or_default path_with_query
    build_url is_in_scope outgoing_request read_request read_loop connect_plain_http open_direct
    Plain.forward_request receive receive_loop finish_reply Plain.handle_response build_har_entry
    decode_ascii ◌>>=◌ Plain.record_built Plain.record_response Plain.after_response next_turn
    fail_gateway nat_eq list_eq
plain_http_end e = absurd (ground arith)

serve_plain_http-records_example :
    let (log, (s, end)) = serve_plain_http handler requests [] in IsRecorded handler log (some end)
serve_plain_http-records_example = serve_plain_http-records handler requests [] plain_http_end

abbrev dialled : Connection
dialled = record {
  host = codes "b.c";
  port = pos 443;
  sent = [];
  tls = some (system_trust, codes "b.c");
}

abbrev reply : Reply
reply = record {
  event = record { status_code = 200; reason = []; http_version = codes "1.1"; headers = [] };
  is_informational = false;
  body = 1 ∷ [];
}

asked_run : read_request answered.client ≡ some (some page, [])
unfolding read_request read_loop
asked_run = refl

connect_run : connect_tls answered.network direct (codes "b.c") (pos 443) ≡ opened dialled
unfolding connect_tls open_direct
connect_run = refl

receive_run : receive answered.upstream ≡ received reply
unfolding receive receive_loop finish_reply
receive_run = refl

abbrev page_url : Text
page_url = entry_url (record_entry env) direct (codes "b.c") (pos 443) page

built_run :
    (e : HarEntry) × (build_har_entry page [] reply.event reply.body page_url answered.started_at
        answered.time_ms
      ≡ some e)
unfolding build_har_entry decode_ascii ◌>>=◌
built_run = (_, refl)

intercept_turn-begin_stop_example :
    intercept_turn (record_entry env) direct (codes "b.c") (pos 443) answered closed_
    ≡ (asked page [] ∷ forwarded dialled (forward_sends page []) ∷ [], (closed_, some raised))
intercept_turn-begin_stop_example =
    intercept_turn-begin_stop env direct (codes "b.c") (pos 443) 9 capturing closed_ pending
      answered page [] dialled reply built_run.0 begin_stop_run asked_run connect_run receive_run
      built_run.1
