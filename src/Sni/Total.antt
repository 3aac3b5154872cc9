-- ===== src/Sni/Total.antt =====
-- The loops of the parser end, and every buffer gets an outcome.
use second_eye.Prelude.{
  ℕ, zero, suc, ◌+◌, ◌-◌, ◌<◌, ◌≡◌, refl, Bool, true, false, Option, none, some, arith,
}
use second_eye.Json.{Bytes}
use second_eye.Sni.{
  ClientHelloParseResult, SniOutcome, incomplete, slice, from_bytes, byte, decode_name, scan_names,
  parse_server_name_extension, scan_extensions, parse_extensions, parse_compression,
  parse_cipher_suites, parse_session_id, parse_handshake_body, parse_client_hello,
}

abbrev pub is_final : SniOutcome → Bool
is_final incomplete = false
is_final _ = true

-- the fuel did not run out, and the outcome is not INCOMPLETE
abbrev pub settled : Option ClientHelloParseResult → Bool
settled none = false
settled (some r) = is_final r.outcome

module _ (b : Bytes) where
  decode_name-settled : settled (some (decode_name b)) ≡ true
  unfolding decode_name
  decode_name-settled = ground arith

  scan_names-settled :
      (fuel pos list_end : ℕ)
      → list_end - pos < fuel
      → settled (scan_names fuel b pos list_end) ≡ true
  unfolding scan_names decode_name
  scan_names-settled zero pos list_end h = absurd (omega arith)
  scan_names-settled (suc fuel) pos list_end h =
      ground (
        arith,
        scan_names-settled fuel (pos + 3 + from_bytes (slice b (pos + 1) (pos + 3))) list_end,
      )

  parse_server_name_extension-settled : settled (parse_server_name_extension b) ≡ true
  unfolding parse_server_name_extension
  parse_server_name_extension-settled =
      let list_end = 2 + from_bytes (slice b 0 2) in
      ground (arith, scan_names-settled (suc list_end) 2 list_end)

scan_extensions-settled :
    (fuel : ℕ) (b : Bytes) (pos extensions_end : ℕ)
    → extensions_end - pos < fuel
    → settled (scan_extensions fuel b pos extensions_end) ≡ true
unfolding scan_extensions
scan_extensions-settled zero b pos extensions_end h = absurd (omega arith)
scan_extensions-settled (suc fuel) b pos extensions_end h =
    let next = pos + 4 + from_bytes (slice b (pos + 2) (pos + 4)) in
    ground (
      arith,
      parse_server_name_extension-settled (slice b (pos + 4) next),
      scan_extensions-settled fuel b next extensions_end,
    )

parse_extensions-settled : (b : Bytes) (pos : ℕ) → settled (parse_extensions b pos) ≡ true
unfolding parse_extensions
parse_extensions-settled b pos =
    let extensions_end = pos + 2 + from_bytes (slice b pos (pos + 2)) in
    ground (arith, scan_extensions-settled (suc extensions_end) b (pos + 2) extensions_end)

parse_compression-settled : (b : Bytes) (pos : ℕ) → settled (parse_compression b pos) ≡ true
unfolding parse_compression
parse_compression-settled b pos = ground (arith, parse_extensions-settled b (pos + 1 + byte b pos))

parse_cipher_suites-settled : (b : Bytes) (pos : ℕ) → settled (parse_cipher_suites b pos) ≡ true
unfolding parse_cipher_suites
parse_cipher_suites-settled b pos =
    ground (arith, parse_compression-settled b (pos + 2 + from_bytes (slice b pos (pos + 2))))

parse_session_id-settled : (b : Bytes) (pos : ℕ) → settled (parse_session_id b pos) ≡ true
unfolding parse_session_id
parse_session_id-settled b pos =
    ground (arith, parse_cipher_suites-settled b (pos + 1 + byte b pos))

-- once the record is whole, the outcome is never INCOMPLETE
pub parse_handshake_body-settled : (b : Bytes) → settled (parse_handshake_body b) ≡ true
unfolding parse_handshake_body
parse_handshake_body-settled b =
    ground (arith, parse_session_id-settled (slice b 4 (4 + from_bytes (slice b 1 4))) 34)

abbrev returned : Option ClientHelloParseResult → Bool
returned none = false
returned (some r) = true

returned-of_settled : (o : Option ClientHelloParseResult) → settled o ≡ true → returned o ≡ true
returned-of_settled none h = h
returned-of_settled (some r) h = refl

parse_client_hello-returned : (b : Bytes) → returned (parse_client_hello b) ≡ true
unfolding parse_client_hello
parse_client_hello-returned b =
    let body = slice b 5 (5 + from_bytes (slice b 3 5)) in
    ground
      (arith, returned-of_settled (parse_handshake_body body) (parse_handshake_body-settled body))

of_returned :
    (o : Option ClientHelloParseResult)
    → returned o ≡ true
    → (r : ClientHelloParseResult) × (o ≡ some r)
of_returned none h = cc
of_returned (some r) h = (r, refl)

-- Every buffer is given an outcome: the loops of the parser never run out of fuel.
pub parse_client_hello_total :
    (b : Bytes) → (r : ClientHelloParseResult) × (parse_client_hello b ≡ some r)
parse_client_hello_total b = of_returned (parse_client_hello b) (parse_client_hello-returned b)
