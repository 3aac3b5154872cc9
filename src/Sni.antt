-- ===== src/Sni.antt =====
-- src/secondeye/proxy/sni.py: extraction of the SNI from a buffered TLS ClientHello.
-- The two `while` loops take fuel, and `none` means that it ran out; Sni/Total.antt has that it never does.
pub mod Total
pub mod Buffering
use second_eye.Prelude.{
  ℕ, zero, suc, ◌+◌, ◌-◌, ◌*◌, Bool, Option, none, some, List, [], ◌∷◌, length, take, drop, get_or,
  ltb, leb, ◌==◌, nat_eq, if◌then◌else◌,
}
use second_eye.Prelude.Text.{Text}
use second_eye.Json.{Bytes}
use second_eye.Har.{decode_ascii}

abbrev pub record_header_len : ℕ
record_header_len = 5

abbrev pub handshake_header_len : ℕ
handshake_header_len = 4

abbrev random_len : ℕ
random_len = 32

abbrev tls_content_type_handshake : ℕ
tls_content_type_handshake = 0x16

abbrev handshake_type_client_hello : ℕ
handshake_type_client_hello = 0x01

abbrev pub extension_server_name : ℕ
extension_server_name = 0x0000

abbrev pub server_name_type_host_name : ℕ
server_name_type_host_name = 0x00

pub data SniOutcome : Type 0 where
  found no_sni malformed incomplete : SniOutcome

pub record ClientHelloParseResult : Type 0 where
  pub outcome : SniOutcome
  pub sni : Option Text
  pub bytes_needed : Option ℕ

abbrev pub only : SniOutcome → ClientHelloParseResult
only o = record { outcome = o; sni = none; bytes_needed = none }

abbrev pub needs : ℕ → ClientHelloParseResult
needs n = record { outcome = incomplete; sni = none; bytes_needed = some n }

abbrev pub found_name : Text → ClientHelloParseResult
found_name t = record { outcome = found; sni = some t; bytes_needed = none }

-- `data[i]`, where the code has checked that `i` is inside
abbrev pub byte : Bytes → ℕ → ℕ
byte b i = get_or b i 0

-- `data[i:j]`
abbrev pub slice : Bytes → ℕ → ℕ → Bytes
slice b i j = take (j - i) (drop i b)

from_bytes_onto : ℕ → Bytes → ℕ
from_bytes_onto acc [] = acc
from_bytes_onto acc (b ∷ bs) = from_bytes_onto (acc * 256 + b) bs

-- `int.from_bytes(b, "big")`
unfoldable pub from_bytes : Bytes → ℕ
unfolding from_bytes_onto
from_bytes = from_bytes_onto 0

unfoldable pub decode_name : Bytes → ClientHelloParseResult
decode_name b = elim (decode_ascii b) [ none ↦ only malformed | some t ↦ found_name t ]

unfoldable pub scan_names : ℕ → Bytes → ℕ → ℕ → Option ClientHelloParseResult
scan_names zero ext_data pos list_end = none
scan_names (suc fuel) ext_data pos list_end =
    let name_len = from_bytes (slice ext_data (pos + 1) (pos + 3)) in
    let name_end = pos + 3 + name_len in
    let rest = scan_names fuel ext_data name_end list_end in
    if ltb pos list_end
    then if ltb list_end (pos + 3)
      then some (only malformed)
      else if ltb list_end name_end
      then some (only malformed)
      else if byte ext_data pos == server_name_type_host_name
      then some (decode_name (slice ext_data (pos + 3) name_end))
      else rest
    else some (only no_sni)

unfoldable pub parse_server_name_extension : Bytes → Option ClientHelloParseResult
parse_server_name_extension ext_data =
    let list_end = 2 + from_bytes (slice ext_data 0 2) in
    if ltb (length ext_data) 2
    then some (only malformed)
    else if ltb (length ext_data) list_end
    then some (only malformed)
    else scan_names (suc list_end) ext_data 2 list_end

unfoldable pub scan_extensions : ℕ → Bytes → ℕ → ℕ → Option ClientHelloParseResult
scan_extensions zero hello pos extensions_end = none
scan_extensions (suc fuel) hello pos extensions_end =
    let ext_type = from_bytes (slice hello pos (pos + 2)) in
    let ext_len = from_bytes (slice hello (pos + 2) (pos + 4)) in
    let ext_data_end = pos + 4 + ext_len in
    let rest = scan_extensions fuel hello ext_data_end extensions_end in
    if ltb pos extensions_end
    then if ltb extensions_end (pos + 4)
      then some (only malformed)
      else if ltb extensions_end ext_data_end
      then some (only malformed)
      else if ext_type == extension_server_name
      then parse_server_name_extension (slice hello (pos + 4) ext_data_end)
      else rest
    else some (only no_sni)

-- from the length of the extensions block on
unfoldable pub parse_extensions : Bytes → ℕ → Option ClientHelloParseResult
parse_extensions hello pos =
    let extensions_end = pos + 2 + from_bytes (slice hello pos (pos + 2)) in
    if leb (length hello) pos
    then some (only no_sni)
    else if ltb (length hello) (pos + 2)
    then some (only malformed)
    else if ltb (length hello) extensions_end
    then some (only malformed)
    else scan_extensions (suc extensions_end) hello (pos + 2) extensions_end

-- from the length of the compression methods on
unfoldable pub parse_compression : Bytes → ℕ → Option ClientHelloParseResult
parse_compression hello pos =
    let next = pos + 1 + byte hello pos in
    if leb (length hello) pos
    then some (only malformed)
    else if ltb (length hello) next
    then some (only malformed)
    else parse_extensions hello next

-- from the length of the cipher suites on
unfoldable pub parse_cipher_suites : Bytes → ℕ → Option ClientHelloParseResult
parse_cipher_suites hello pos =
    let next = pos + 2 + from_bytes (slice hello pos (pos + 2)) in
    if ltb (length hello) (pos + 2)
    then some (only malformed)
    else if ltb (length hello) next
    then some (only malformed)
    else parse_compression hello next

-- from the length of the session id on
unfoldable pub parse_session_id : Bytes → ℕ → Option ClientHelloParseResult
parse_session_id hello pos =
    let next = pos + 1 + byte hello pos in
    if leb (length hello) pos
    then some (only malformed)
    else if ltb (length hello) next
    then some (only malformed)
    else parse_cipher_suites hello next

unfoldable pub parse_handshake_body : Bytes → Option ClientHelloParseResult
parse_handshake_body body =
    let handshake_length = from_bytes (slice body 1 4) in
    let hello = slice body handshake_header_len (handshake_header_len + handshake_length) in
    if ltb (length body) handshake_header_len
    then some (only malformed)
    else if byte body 0 == handshake_type_client_hello
    then if length hello == handshake_length
      then parse_session_id hello (2 + random_len)
      else some (only malformed)
    else some (only malformed)

unfoldable pub parse_client_hello : Bytes → Option ClientHelloParseResult
parse_client_hello data_ =
    let total_needed = record_header_len + from_bytes (slice data_ 3 5) in
    if ltb (length data_) record_header_len
    then some (needs record_header_len)
    else if byte data_ 0 == tls_content_type_handshake
    then if ltb (length data_) total_needed
      then some (needs total_needed)
      else parse_handshake_body (slice data_ record_header_len total_needed)
    else some (only malformed)
