-- ===== src/PlainHttp.antt =====
-- src/secondeye/proxy/plain_http.py: `_serve_requests` of PlainHttpHandler, with a scope decision for
-- each request.
pub mod Recording
use second_eye.Prelude.{
  ℕ, Bool, true, false, ◌&&◌, ◌||◌, not, Option, none, some, List, [], ◌∷◌, ◌++◌, ◌==◌, list_eq,
  nat_eq, if◌then◌else◌,
}
use second_eye.Prelude.Text.{Text, codes, decimal}
use second_eye.Json.{Bytes}
use second_eye.Urls.{SplitResult, Urls}
use second_eye.Har.{HarEntry, RequestEvent, build_har_entry}
use second_eye.Scope.{Matching, ScopeMatcher, match_hostname}
use second_eye.Manager.{Result, ok, err}
use second_eye.Listener.{decode_replace}
use second_eye.Upstream.{
  ℤ, pos, UpstreamConnector, Connection, Connected, opened, failed, connect_plain_http,
}
use second_eye.HttpCycle.{
  Sent, Reply, read_request, forward_sends, Received, received, not_received, receive,
}
use second_eye.Exchange.{
  Outside, Action, asked, forwarded, recorded, End, client_gone, bad_target, raised, Turn, Recorder,
  answer, fail_gateway, fail_connect, next_turn, serve,
}

abbrev pub default_http_port : ℕ
default_http_port = 80

-- host, port and path with query
abbrev pub Target : Type 0
Target = Text × ℕ × Text

-- `parsed.port or 80`
unfoldable pub port_or_default : Option ℕ → ℕ
port_or_default none = default_http_port
port_or_default (some p) = if p == 0 then default_http_port else p

-- `parsed.path or "/"`, and the query if there is one
unfoldable pub path_with_query : SplitResult → Text
path_with_query parsed =
    let path = if parsed.path == [] then codes "/" else parsed.path in
    if parsed.query == [] then path else path ++ (codes "?" ++ parsed.query)

unfoldable pub parse_absolute_target : Urls → RequestEvent → Option Target
parse_absolute_target u r =
    let parsed = u.urlsplit (decode_replace r.target) in
    let of_host : Option Target = elim parsed.hostname [
      | none ↦ none
      | some host ↦
          if host == []
          then none
          else some (host, port_or_default parsed.port, path_with_query parsed)
    ] in
    if parsed.scheme == codes "http" then of_host else none

-- whether it raises: urllib on the target, or the property `port`, which is read where a host is named
unfoldable pub parse_absolute_target_raises : Urls → RequestEvent → Bool
parse_absolute_target_raises u r =
    let target = decode_replace r.target in
    let parsed = u.urlsplit target in
    let of_host : Bool = elim parsed.hostname [
      | none ↦ false
      | some host ↦ if host == [] then false else u.port_raises target
    ] in
    u.split_raises target || (if parsed.scheme == codes "http" then of_host else false)

unfoldable pub build_url : Target → Text
build_url (host, port, path) =
    let authority = if port == default_http_port then host else host ++ codes ":" ++ decimal port in
    codes "http://" ++ authority ++ path

-- the handler's fields, with what it calls of the libraries
pub record PlainHttpHandler (S : Type 0) : Type 0 where
  pub urls : Urls
  pub matching : Matching
  pub scope_matcher : ScopeMatcher
  pub target_all : Bool
  pub upstream_connector : UpstreamConnector
  pub on_entry_recorded : Recorder S

module _ {S : Type 0} (h : PlainHttpHandler S) where
  unfoldable pub is_in_scope : Text → Bool
  is_in_scope host = h.target_all || (match_hostname h.matching h.scope_matcher host).matched

  -- in origin form where no proxy is between
  unfoldable pub outgoing_request : RequestEvent → Text → RequestEvent
  outgoing_request r path =
      if h.upstream_connector.no_upstream then record r { target = path } else r

  unfoldable pub after_response : List Action → Outside → S → Turn S
  after_response done o s =
      if o.delivered then (done, (s, next_turn o)) else (done, (s, some raised))

  unfoldable pub record_response :
      List Action → Outside → HarEntry → Reply → Result (Unit {0}) × S → Turn S
  record_response done o e reply (ok u, s) =
      after_response (done ++ recorded e ∷ answer reply ∷ []) o s
  record_response done o e reply (err x, s) = (done, (s, some raised))

  -- an entry that cannot be built is an exception
  unfoldable pub record_built : List Action → Outside → Reply → Option HarEntry → S → Turn S
  record_built done o reply none s = (done, (s, some raised))
  record_built done o reply (some e) s = record_response done o e reply (h.on_entry_recorded e s)

  -- only a request in scope is recorded
  unfoldable pub handle_response :
      List Action → Outside → RequestEvent → Bytes → Target → Received → S → Turn S
  handle_response done o r body target not_received s = fail_gateway done s
  handle_response done o r body target (received reply) s =
      let entry =
        build_har_entry r body reply.event reply.body (build_url target) o.started_at o.time_ms in
      if is_in_scope target.0
      then record_built done o reply entry s
      else after_response (done ++ answer reply ∷ []) o s

  unfoldable pub forward_request : Outside → RequestEvent → Bytes → Target → Connected → S → Turn S
  forward_request o r body target (failed e) s = fail_connect (asked r body ∷ []) e s
  forward_request o r body target (opened c) s =
      handle_response
        (asked r body ∷ forwarded c (forward_sends (outgoing_request r target.2) body) ∷ []) o r
        body target (receive o.upstream) s

  -- a target that is not absolute ends the connection without an answer
  unfoldable pub handle_target : Outside → RequestEvent → Bytes → Option Target → S → Turn S
  handle_target o r body none s = (asked r body ∷ [], (s, some bad_target))
  handle_target o r body (some target) s =
      forward_request o r body target
        (connect_plain_http o.network h.upstream_connector target.0 (pos target.1)) s

  -- without a request the client is gone
  unfoldable pub handle_request : Outside → Option (Option RequestEvent × Bytes) → S → Turn S
  handle_request o none s = ([], (s, some client_gone))
  handle_request o (some (none, body)) s = ([], (s, some client_gone))
  handle_request o (some (some r, body)) s =
      if parse_absolute_target_raises h.urls r
      then (asked r body ∷ [], (s, some raised))
      else handle_target o r body (parse_absolute_target h.urls r) s

  unfoldable pub plain_http_turn : Outside → S → Turn S
  plain_http_turn o s = handle_request o (read_request o.client) s

  unfoldable pub serve_plain_http : List Outside → S → List Action × (S × End)
  serve_plain_http = serve plain_http_turn
