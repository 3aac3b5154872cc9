-- ===== src/Har.antt =====
-- src/secondeye/capture/har.py: the entry types, header lookup, and construction from h11 events.
pub mod Render
pub mod Parse
pub mod RoundTrip
pub mod Keys
use second_eye.Prelude.{ℕ, Option, none, some, List, [], ◌∷◌, map, leb, all}
use second_eye.Prelude.{◌==◌, list_eq, nat_eq, if◌then◌else◌}
use second_eye.Prelude.Text.{Text, codes, lower}
use second_eye.Json.{Bytes, Float64}

pub record HarHeader : Type 0 where
  pub name : Text
  pub value : Text

pub record HarRequest : Type 0 where
  pub method : Text
  pub url : Text
  pub http_version : Text
  pub headers : List HarHeader
  pub body : Bytes

pub record HarResponse : Type 0 where
  pub status : ℕ
  pub status_text : Text
  pub http_version : Text
  pub headers : List HarHeader
  pub body : Bytes

pub record HarEntry : Type 0 where
  pub started_at : ℕ
  pub time_ms : Float64
  pub request : HarRequest
  pub response : HarResponse

-- the loop of `header_value`, its name in lower case
find_header : Text → List HarHeader → Option Text
find_header lname [] = none
find_header lname (h ∷ hs) = if lower h.name == lname then some h.value else find_header lname hs

unfoldable pub header_value : List HarHeader → Text → Option Text
unfolding find_header
header_value headers name = find_header (lower name) headers

-- An h11 event: a request with its method, or a response with its status.
pub record RequestEvent : Type 0 where
  pub method : Bytes
  pub target : Bytes
  pub http_version : Bytes
  pub headers : List (Bytes × Bytes)

pub record ResponseEvent : Type 0 where
  pub status_code : ℕ
  pub reason : Bytes
  pub http_version : Bytes
  pub headers : List (Bytes × Bytes)

-- `b.decode("ascii")`, with `none` for UnicodeDecodeError
unfoldable pub decode_ascii : Bytes → Option Text
decode_ascii b = if all (λ c. leb c 127) b then some b else none

-- latin-1 maps each byte to the code point of the same number
unfoldable pub decode_latin1 : Bytes → Text
decode_latin1 b = b

unfoldable pub decode_headers : List (Bytes × Bytes) → List HarHeader
unfolding decode_latin1
decode_headers = map (λ (n, v). record { name = decode_latin1 n; value = decode_latin1 v })

infixl 5 ◌>>=◌
abbrev pub ◌>>=◌ {ℓ κ} : {A : Type ℓ} {B : Type κ} → Option A → (A → Option B) → Option B
none >>= f = none
some a >>= f = f a

-- `build_har_entry`; `none` where a method or version is not ASCII
unfoldable pub build_har_entry :
    RequestEvent → Bytes → ResponseEvent → Bytes → Text → ℕ → Float64 → Option HarEntry
unfolding decode_ascii decode_headers
build_har_entry req req_body resp resp_body url started_at time_ms = do
  method ← decode_ascii req.method
  req_version ← decode_ascii req.http_version
  resp_version ← decode_ascii resp.http_version
  let request : HarRequest = record {
    method = method;
    url = url;
    http_version = req_version;
    headers = decode_headers req.headers;
    body = req_body;
  }
  let response : HarResponse = record {
    status = resp.status_code;
    status_text = decode_latin1 resp.reason;
    http_version = resp_version;
    headers = decode_headers resp.headers;
    body = resp_body;
  }
  some (record {
    started_at = started_at;
    time_ms = time_ms;
    request = request;
    response = response;
  })
