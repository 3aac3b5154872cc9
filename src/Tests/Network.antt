-- ===== src/Tests/Network.antt =====
-- Connections on concrete inputs: a ClientHello that is relayed, one that is intercepted, connections
-- under the limit, and a network on which everything succeeds.
use second_eye.Prelude.{◌≡◌, refl, false, some, List, [], ◌∷◌, ◌++◌, nat_eq, list_eq, arith}
use second_eye.Prelude.Text.{
  codes, decimal, starts_with, strip, rstrip_char, split_char, join, ends_with,
}
use second_eye.Json.{Bytes}
use second_eye.Har.{decode_ascii}
use second_eye.Scope.{
  match_hostname, first_match, match_exact, match_glob, match_regex, normalize_hostname,
  normalize_label, has_glob_char,
}
use second_eye.Sni.{
  parse_client_hello, parse_handshake_body, parse_session_id, parse_cipher_suites,
  parse_compression, parse_extensions, scan_extensions, parse_server_name_extension, scan_names,
  from_bytes, decode_name,
}
use second_eye.Upstream.{
  connects, pos, UpstreamConnector, Network, Connection, opened, connect_tls,
  open_via_upstream_tunnel, tunnel_reply, upgrade_tunnel, with_upstream, encode_ascii,
  connect_request, accepts_connect, first_line, build_upstream_tls_context, int_text, ca_file,
}
use second_eye.Upstream.Routing.{Dials, Trusts, connect_tls-Dials}
use second_eye.Listener.{
  Listener, chunk, to_relay, peek_loop, route_connect, route_peeked, in_scope, sni_matches,
}
use second_eye.Listener.Peeking.{concat, decision, decide, reads_of, route_connect-decide}
use second_eye.Listener.Connections.{
  IsBounded, begins, ends, Steps, here, next, no_connections, admit, release, Steps-IsBounded,
}
use second_eye.Splice.{Event, sends, ended, from_client, from_destination, Relay, blind_relay}
use second_eye.Splice.Verbatim.{relay_verbatim, sent_by, behind_end, has_end, bytes_in}
use second_eye.Tests.Hello.{hello, one_host}
use second_eye.Tests.Traffic.{plain_matching}

abbrev pub listener : Listener
listener = record { scope_matcher = one_host; target_all = false; max_connections = 1 }

-- the ClientHello in two chunks, and three bytes behind it
abbrev chunks : List Bytes
chunks = (0x16 ∷ 3 ∷ []) ∷ (1 ∷ []) ∷ []

route_connect-decide_example :
    decision
      (route_connect plain_matching listener (codes "h") (pos 443) (peek_loop [] (reads_of chunks)))
    ≡ decide plain_matching listener (codes "h") (parse_client_hello (concat chunks))
route_connect-decide_example =
    route_connect-decide plain_matching listener (codes "h") (pos 443) chunks
      ((λ e. absurd (ground arith)), ((λ e. absurd (ground arith)), tt))

two_connections :
    Steps listener no_connections (release 7 (admit listener 8 (admit listener 7 no_connections)))
unfolding admit release nat_eq
two_connections =
    next _ _ (next _ _ (next _ _ here (begins 7 refl)) (begins 8 refl)) (ends 7 refl refl)

Steps-IsBounded_example :
    IsBounded listener (release 7 (admit listener 8 (admit listener 7 no_connections)))
Steps-IsBounded_example = Steps-IsBounded listener _ two_connections

-- everything succeeds
abbrev pub open_network : Network
open_network = record {
  open_connection = λ h p t. connects;
  connect_reply = λ r. some (codes "HTTP/1.1 200 OK\r\n\r\n");
  start_tls = λ t h. connects;
}

abbrev pub connector : UpstreamConnector
connector = record {
  upstream_host = some (codes "p");
  upstream_port = some (pos 8080);
  no_upstream = false;
  upstream_ca = some (codes "ca.pem");
  upstream_insecure = false;
}

abbrev tunnelled : Connection
tunnelled = record {
  host = codes "p";
  port = pos 8080;
  sent = codes "CONNECT h:443 HTTP/1.1\r\nHost: h:443\r\n\r\n";
  tls = some (ca_file (codes "ca.pem"), codes "h");
}

connect_tls_run : connect_tls open_network connector (codes "h") (pos 443) ≡ opened tunnelled
unfolding connect_tls open_via_upstream_tunnel tunnel_reply upgrade_tunnel with_upstream
    encode_ascii connect_request accepts_connect first_line build_upstream_tls_context int_text
    starts_with nat_eq decimal
connect_tls_run = refl

connect_tls-Dials_example :
    Dials connector (codes "h") (pos 443) tunnelled
    × Trusts open_network connector (codes "h") (pos 443) tunnelled
connect_tls-Dials_example =
    connect_tls-Dials open_network connector (codes "h") (pos 443) tunnelled connect_tls_run

-- the host name of the ClientHello is not in scope
relayed_run :
    route_connect plain_matching listener
      (codes "h")
      (pos 443)
      (peek_loop [] (chunk hello ∷ chunk (9 ∷ []) ∷ []))
    ≡ to_relay (codes "h") (pos 443) hello (chunk (9 ∷ []) ∷ [])
unfolding parse_client_hello parse_handshake_body parse_session_id parse_cipher_suites
    parse_compression parse_extensions scan_extensions parse_server_name_extension scan_names
    from_bytes decode_name decode_ascii nat_eq peek_loop route_connect route_peeked in_scope
    sni_matches match_hostname first_match match_exact match_glob match_regex normalize_hostname
    normalize_label has_glob_char strip rstrip_char split_char join ends_with list_eq starts_with
relayed_run = refl

-- the client ends while the destination has still to send 6
abbrev conversation : List Event
conversation =
    sends from_destination (5 ∷ [])
    ∷ sends from_client (9 ∷ [])
    ∷ ended from_client
    ∷ sends from_destination (6 ∷ [])
    ∷ []

conversation_run : sent_by from_client conversation ≡ bytes_in (chunk (9 ∷ []) ∷ [])
unfolding sent_by bytes_in
conversation_run = refl

relay_verbatim_example :
    (out : Relay) × (blind_relay (opened tunnelled) hello conversation ≡ some out)
    × (out.to_destination ++ sent_by from_client (behind_end conversation)
        ≡ bytes_in (chunk hello ∷ chunk (9 ∷ []) ∷ []))
    × (out.to_client ++ sent_by from_destination (behind_end conversation)
        ≡ sent_by from_destination conversation)
    × (out.closed ≡ has_end conversation)
relay_verbatim_example =
    relay_verbatim plain_matching listener (codes "h") (pos 443) (chunk hello ∷ chunk (9 ∷ []) ∷ [])
      (chunk (9 ∷ []) ∷ []) (codes "h") (pos 443) hello tunnelled conversation relayed_run
      conversation_run
