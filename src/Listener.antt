-- ===== src/Listener.antt =====
-- src/secondeye/proxy/listener.py: the request line, the SNI peek, the choice between interception and
-- relay, and the count of connections. What the client sends is the list of the outcomes of the reads,
-- in order; behind the list the stream is at its end.
pub mod Peeking
pub mod Connections
use second_eye.Prelude.{
  ℕ, suc, ◌+◌, ◌-◌, Bool, true, false, ◌&&◌, ◌||◌, not, Option, none, some, List, [], ◌∷◌, ◌++◌,
  map, leb, ltb, ◌==◌, list_eq, nat_eq, contains, if◌then◌else◌,
}
use second_eye.Prelude.Text.{Text, codes, split_char}
use second_eye.Json.{Bytes}
use second_eye.Har.{◌>>=◌}
use second_eye.Scope.{Matching, ScopeMatcher, match_hostname}
use second_eye.Sni.{
  SniOutcome, found, no_sni, malformed, incomplete, ClientHelloParseResult, parse_client_hello,
}
use second_eye.Upstream.{ℤ, pos, Checked, accepted, config_error, first_line}

-- What the listener calls of `ipaddress` and of `int`.
pub record Parsing : Type 0 where
  -- whether an IP literal is a loopback address, and `none` where it is no literal
  pub is_loopback : Text → Option Bool
  -- `int(s)`, where `none` is ValueError
  pub to_int : Text → Option ℤ

unfoldable pub ensure_loopback : Parsing → Text → Checked (Unit {0})
ensure_loopback p host = elim (p.is_loopback host) [
  | none ↦ config_error (codes "must be a loopback IP literal (127.0.0.1 or ::1)")
  | some loopback ↦
      if loopback then accepted tt else config_error (codes "is not loopback (127.0.0.1 or ::1)")
]

-- `b.decode("ascii", errors="replace")`
unfoldable pub decode_replace : Bytes → Text
decode_replace = map (λ c. if leb c 127 then c else 0xfffd)

-- `s.rpartition(c)`: what is before and after the last `c`, or `none` where there is none
unfoldable pub rpartition : ℕ → Text → Option (Text × Text)
rpartition c [] = none
rpartition c (d ∷ s) = elim (rpartition c s) [
  | some (front, back) ↦ some (d ∷ front, back)
  | none ↦ if d == c then some ([], s) else none
]

-- a CONNECT with its host and port, or another request with the bytes read
pub data Request : Type 0 where
  connect : Text → ℤ → Request
  plain : Bytes → Request

-- the parts of a request line behind the method
connect_target : Parsing → Text → Option Request
connect_target p target = do
  (host, port_str) ← rpartition b':' target
  port ← p.to_int port_str
  some (connect host port)

request_of : Parsing → Bytes → List Bytes → Option Request
unfolding connect_target
request_of p raw (method ∷ target ∷ rest) =
    if decode_replace method == codes "CONNECT"
    then connect_target p (decode_replace target)
    else some (plain raw)
request_of p raw _ = none

-- `none` of the read is an exception: the end of the stream, too many bytes, or the timeout
unfoldable pub read_request_line : Parsing → Option Bytes → Option Request
unfolding request_of connect_target
read_request_line p none = none
read_request_line p (some raw) = request_of p raw (split_char b' ' (first_line raw))

-- the outcome of one read of the peek; the empty chunk is the end of the stream, and an error of the
-- connection, which ends it too, counts as a timeout
pub data Read : Type 0 where
  chunk : Bytes → Read
  timed_out : Read

pub data Peek : Type 0 where
  timeout closed_early : Peek
  -- the final result, the bytes buffered, and the reads that are left
  peeked : ClientHelloParseResult → Bytes → List Read → Peek

abbrev pub is_incomplete : SniOutcome → Bool
is_incomplete incomplete = true
is_incomplete _ = false

-- the loop; `parse_client_hello` always returns, so its `none` does not occur
unfoldable pub peek_loop : Bytes → List Read → Peek
peek_loop buffer [] = closed_early
peek_loop buffer (timed_out ∷ reads) = timeout
peek_loop buffer (chunk [] ∷ reads) = closed_early
peek_loop buffer (chunk (c ∷ cs) ∷ reads) =
    let grown = buffer ++ c ∷ cs in
    let more = peek_loop grown reads in
    elim (parse_client_hello grown) [
      | none ↦ closed_early
      | some r ↦ if is_incomplete r.outcome then more else peeked r grown reads
    ]

pub record Listener : Type 0 where
  pub scope_matcher : ScopeMatcher
  pub target_all : Bool
  pub max_connections : ℕ

-- where a connection goes: to the handlers, with the bytes that were read, or nowhere
pub data Route : Type 0 where
  dropped : Route
  to_plain_http : Bytes → Route
  to_interception : Text → ℤ → Bytes → List Read → Route
  to_relay : Text → ℤ → Bytes → List Read → Route

module _ (m : Matching) where
  -- `sni is not None and self._scope_matcher.match(sni).matched`
  unfoldable pub sni_matches : ScopeMatcher → Option Text → Bool
  sni_matches s none = false
  sni_matches s (some sni) = (match_hostname m s sni).matched

  -- the label of an in-scope connection
  unfoldable pub domain_label : Option Text → Text → Text
  domain_label none host = host
  domain_label (some sni) host = sni

  unfoldable pub in_scope : Listener → Option Text → Bool
  in_scope l sni = l.target_all || sni_matches l.scope_matcher sni

  -- the decision, for a result that is neither incomplete nor malformed
  unfoldable pub route_peeked :
      Listener → Text → ℤ → ClientHelloParseResult → Bytes → List Read → Route
  route_peeked l host port r prebuffered reads =
      let intercepted = to_interception (domain_label r.sni host) port prebuffered reads in
      let relayed = to_relay host port prebuffered reads in
      let decided = if in_scope l r.sni then intercepted else relayed in
      elim r.outcome [ malformed ↦ dropped | _ ↦ decided ]

  unfoldable pub route_connect : Listener → Text → ℤ → Peek → Route
  route_connect l host port timeout = dropped
  route_connect l host port closed_early = dropped
  route_connect l host port (peeked r prebuffered reads) =
      route_peeked l host port r prebuffered reads

  -- what is written to the client, and where the connection goes
  unfoldable pub process_connection : Parsing → Listener → Option Bytes → List Read → Bytes × Route
  process_connection p l request reads = elim (read_request_line p request) [
    | none ↦ ([], dropped)
    | some (plain raw) ↦ ([], to_plain_http raw)
    | some (connect host port) ↦ (
      codes "HTTP/1.1 200 Connection Established\r\n\r\n",
      route_connect l host port (peek_loop [] reads),
    )
  ]

-- the labels seen so far, for the log line of the first match
unfoldable pub log_domain : Text → List Text → List Text
log_domain label logged = if contains logged label then logged else label ∷ logged
