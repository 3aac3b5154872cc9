-- ===== src/Tests/Hello.antt =====
-- ClientHello records and host names.
use second_eye.Prelude.{◌<◌, ◌↔◌, ◌≡◌, refl, ◌++◌, true, false, none, some, [], ◌∷◌, nat_eq, length}
use second_eye.Prelude.Text.{Text, codes}
use second_eye.Json.{Bytes}
use second_eye.Har.{decode_ascii}
use second_eye.Sni.{
  ClientHelloParseResult, needs, found_name, parse_client_hello, parse_handshake_body,
  parse_session_id, parse_cipher_suites, parse_compression, parse_extensions, scan_extensions,
  parse_server_name_extension, scan_names, from_bytes, decode_name,
}
use second_eye.Sni.Total.{parse_client_hello_total}
use second_eye.Sni.Buffering.{incomplete_asks_for_more, outcome_is_final}
use second_eye.Scope.{ScopeMatcher, normalize_hostname, match_hostname}
use second_eye.Scope.Laws.{InScope, match_hostname_iff}
use second_eye.Prelude.{◌⊎◌, List}
use second_eye.Scope.{scope_matcher, ok, scope_config_error}
use second_eye.Scope.Construction.{
  first_refused, exact_of, globs_of, CompiledFrom, scope_matcher_outcome,
}
use second_eye.Tests.Traffic.{plain_matching}

abbrev zeros : Bytes
zeros =
    0 ∷ 0 ∷ 0 ∷ 0 ∷ 0 ∷ 0 ∷ 0 ∷ 0 ∷ 0 ∷ 0 ∷ 0 ∷ 0 ∷ 0 ∷ 0 ∷ 0 ∷ 0 ∷ 0 ∷ 0 ∷ 0 ∷ 0 ∷ 0 ∷ 0 ∷ 0 ∷ 0
    ∷ 0 ∷ 0 ∷ 0 ∷ 0 ∷ 0 ∷ 0 ∷ 0 ∷ 0 ∷ []

-- one record with the host name `a.b`
abbrev pub hello : Bytes
hello =
    (0x16 ∷ 3 ∷ 1 ∷ 0 ∷ 59 ∷ 1 ∷ 0 ∷ 0 ∷ 55 ∷ 3 ∷ 3 ∷ zeros)
    ++ (0 ∷ 0 ∷ 2 ∷ 0x13 ∷ 1 ∷ 1 ∷ 0 ∷ 0 ∷ 12 ∷ 0 ∷ 0 ∷ 0 ∷ 8 ∷ 0 ∷ 6 ∷ 0 ∷ 0 ∷ 3 ∷ codes "a.b")

pub hello_run : parse_client_hello hello ≡ some (found_name (codes "a.b"))
unfolding parse_client_hello parse_handshake_body parse_session_id parse_cipher_suites
    parse_compression parse_extensions scan_extensions parse_server_name_extension scan_names
    from_bytes decode_name decode_ascii nat_eq
hello_run = refl

parse_client_hello_total_example :
    (r : ClientHelloParseResult) × (parse_client_hello hello ≡ some r)
parse_client_hello_total_example = parse_client_hello_total hello

outcome_is_final_example :
    parse_client_hello (hello ++ 1 ∷ 2 ∷ []) ≡ some (found_name (codes "a.b"))
outcome_is_final_example =
    outcome_is_final hello (1 ∷ 2 ∷ []) (found_name (codes "a.b")) hello_run refl

abbrev begun : Bytes
begun = 0x16 ∷ 3 ∷ 1 ∷ 1 ∷ 0 ∷ 1 ∷ []

begun_run : parse_client_hello begun ≡ some (needs 261)
unfolding parse_client_hello from_bytes nat_eq
begun_run = refl

incomplete_asks_for_more_example : length begun < 261
incomplete_asks_for_more_example = incomplete_asks_for_more begun 261 begun_run

abbrev pub one_host : ScopeMatcher
one_host = record {
  exact_targets = codes "b.c" ∷ [];
  glob_targets = (codes "*.d", codes "*.d") ∷ [];
  regex_targets = [];
}

match_hostname_iff_example :
    (((match_hostname plain_matching one_host (codes "a.b.c")).matched ≡ true)
      ↔ InScope plain_matching one_host (normalize_hostname plain_matching (codes "a.b.c")))
    × (((match_hostname plain_matching one_host (codes "a.b.c")).matched ≡ false)
        ↔ ((match_hostname plain_matching one_host (codes "a.b.c")).matched_target ≡ none))
match_hostname_iff_example = match_hostname_iff plain_matching one_host (codes "a.b.c")

abbrev configured : List Text
configured = codes "b.c" ∷ codes "*.d" ∷ []

scope_matcher_outcome_example :
    ((p : Text) × (first_refused plain_matching (codes "x" ∷ []) ≡ some p)
      × (scope_matcher plain_matching configured (codes "x" ∷ []) ≡ scope_config_error p))
    ⊎ ((s : ScopeMatcher) × (first_refused plain_matching (codes "x" ∷ []) ≡ none)
        × (scope_matcher plain_matching configured (codes "x" ∷ []) ≡ ok s)
        × (s.exact_targets ≡ exact_of plain_matching configured)
        × (s.glob_targets ≡ globs_of plain_matching configured)
        × CompiledFrom plain_matching (codes "x" ∷ []) s.regex_targets)
scope_matcher_outcome_example = scope_matcher_outcome plain_matching configured (codes "x" ∷ [])
