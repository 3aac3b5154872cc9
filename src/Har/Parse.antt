-- ===== src/Har/Parse.antt =====
-- `parse_har_entry`, `_decode_body` and `_parse_headers`; `none` is an exception.
use second_eye.Prelude.{
  ℕ, Option, none, some, List, [], ◌∷◌, ◌==◌, list_eq, nat_eq, option_eq, if◌then◌else◌,
}
use second_eye.Prelude.Text.{Text, codes, remove_prefix, replace_char}
use second_eye.Json.{
  Bytes, Float64, Json, bool, int, flt, str, arr, obj, Items, nil, cons, Fields, get, Codecs,
}
use second_eye.Har.{HarHeader, HarRequest, HarResponse, HarEntry, ◌>>=◌}

-- `assert isinstance(v, dict)`
abbrev pub as_dict : Json → Option Fields
as_dict (obj fs) = some fs
as_dict _ = none

-- `assert isinstance(v, int)`; a status is not negative, and Python counts a bool as an int
abbrev pub as_int : Json → Option ℕ
as_int (int n) = some n
as_int (bool b) = some (if b then 1 else 0)
as_int _ = none

-- `x if isinstance(x, dict) else None`
abbrev dict_or_none : Option Json → Option Fields
dict_or_none (some (obj fs)) = some fs
dict_or_none _ = none

module _ (c : Codecs) where
  -- `str(v)`
  unfoldable pub to_text : Json → Text
  to_text (str t) = t
  to_text v = c.repr v

  pub as_float : Json → Option Float64
  as_float (flt x) = some x
  as_float (int n) = some (c.float_of_int n)
  as_float (bool b) = some (c.float_of_int (if b then 1 else 0))
  as_float _ = none

  abbrev text_of : Option Json → Option Text
  text_of (some (str t)) = some t
  text_of _ = none

  unfoldable pub decode_body : Option Fields → Option Bytes
  unfolding get
  decode_body none = some []
  decode_body (some d) = elim (text_of (get (codes "text") d)) [
    | none ↦ some []
    | some t ↦
        if text_of (get (codes "encoding") d) == some (codes "base64")
        then c.b64decode t
        else some (c.utf8_encode t)
  ]

  pub parse_header : Json → Option HarHeader
  unfolding get to_text
  parse_header v = do
    d ← as_dict v
    name ← get (codes "name") d
    value ← get (codes "value") d
    some (record { name = to_text name; value = to_text value })

  unfoldable pub parse_items : Items → Option (List HarHeader)
  unfolding parse_header
  parse_items nil = some []
  parse_items (cons v vs) = do h ← parse_header v; hs ← parse_items vs; some (h ∷ hs)

  unfoldable pub parse_headers : Json → Option (List HarHeader)
  unfolding parse_items
  parse_headers (arr vs) = parse_items vs
  parse_headers _ = none

  unfoldable pub parse_request : Fields → Option HarRequest
  unfolding get to_text remove_prefix
  parse_request d = do
    raw_headers ← get (codes "headers") d
    headers ← parse_headers raw_headers
    method ← get (codes "method") d
    url ← get (codes "url") d
    version ← get (codes "httpVersion") d
    body ← decode_body (dict_or_none (get (codes "postData") d))
    some (record {
      method = to_text method;
      url = to_text url;
      http_version = remove_prefix (to_text version) (codes "HTTP/");
      headers = headers;
      body = body;
    })

  unfoldable pub parse_response : Fields → Option HarResponse
  unfolding get to_text remove_prefix
  parse_response d = do
    raw_headers ← get (codes "headers") d
    headers ← parse_headers raw_headers
    raw_status ← get (codes "status") d
    status ← as_int raw_status
    status_text ← get (codes "statusText") d
    version ← get (codes "httpVersion") d
    body ← decode_body (dict_or_none (get (codes "content") d))
    some (record {
      status = status;
      status_text = to_text status_text;
      http_version = remove_prefix (to_text version) (codes "HTTP/");
      headers = headers;
      body = body;
    })

  unfoldable pub parse_time : Text → Option ℕ
  unfolding replace_char
  parse_time t = c.fromisoformat (replace_char b'Z' (codes "+00:00") t)

  unfoldable pub parse_har_entry : Fields → Option HarEntry
  unfolding get to_text as_float
  parse_har_entry data_ = do
    raw_request ← get (codes "request") data_
    raw_response ← get (codes "response") data_
    request_data ← as_dict raw_request
    response_data ← as_dict raw_response
    request ← parse_request request_data
    response ← parse_response response_data
    started ← get (codes "startedDateTime") data_
    started_at ← parse_time (to_text started)
    time ← get (codes "time") data_
    time_ms ← as_float time
    some (record {
      started_at = started_at;
      time_ms = time_ms;
      request = request;
      response = response;
    })
