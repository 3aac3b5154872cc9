-- ===== src/Har/Render.antt =====
-- `to_har_dict` of HarEntry, HarRequest and HarResponse, and `_encode_body`.
use second_eye.Prelude.{
  ℕ, ◌-◌, ◌++◌, Option, none, some, List, [], ◌∷◌, length, take, ◌==◌, list_eq, nat_eq,
  if◌then◌else◌,
}
use second_eye.Prelude.Text.{Text, codes, ends_with}
use second_eye.Json.{
  Bytes, Json, int, neg, flt, str, arr, obj, Items, nil, cons, Fields, end, field, put, update,
  Codecs,
}
use second_eye.Har.{HarHeader, HarRequest, HarResponse, HarEntry, header_value}

-- `text or default`: the empty text counts as missing
unfoldable pub or_text : Option Text → Text → Text
or_text none d = d
or_text (some t) d = if t == [] then d else t

unfoldable pub headers_json : List HarHeader → Items
headers_json [] = nil
headers_json (h ∷ hs) =
    cons (obj (field (codes "name") (str h.name) (field (codes "value") (str h.value) end)))
      (headers_json hs)

-- `len(body)` in JSON
abbrev size_json : Bytes → Json
size_json b = int (length b)

module _ (c : Codecs) where
  unfoldable pub encode_body : Bytes → Fields
  encode_body body = elim (c.utf8_decode body) [
    | some t ↦ field (codes "text") (str t) end
    | none ↦
        field (codes "text") (str (c.b64encode body))
          (field (codes "encoding") (str (codes "base64")) end)
  ]

  unfoldable pub mime_type : List HarHeader → Json
  mime_type hs =
      str (or_text (header_value hs (codes "content-type")) (codes "application/octet-stream"))

  unfoldable pub request_to_har_dict : HarRequest → Fields
  unfolding update
  request_to_har_dict r =
      let entry : Fields = field (codes "method") (str r.method) (
        field (codes "url") (str r.url) (
          field (codes "httpVersion") (str (codes "HTTP/" ++ r.http_version)) (
            field (codes "headers") (arr (headers_json r.headers)) (
              field (codes "queryString") (arr nil) (
                field (codes "cookies") (arr nil) (
                  field (codes "headersSize") (neg 0)
                    (field (codes "bodySize") (size_json r.body) end))))))) in
      if r.body == []
      then entry
      else put (codes "postData")
          (obj (update (field (codes "mimeType") (mime_type r.headers) end) (encode_body r.body)))
          entry

  unfoldable pub response_to_har_dict : HarResponse → Fields
  unfolding update
  response_to_har_dict r =
      let content : Fields =
        update
          (field (codes "size") (size_json r.body)
            (field (codes "mimeType") (mime_type r.headers) end))
          (encode_body r.body) in
      field (codes "status") (int r.status) (
        field (codes "statusText") (str r.status_text) (
          field (codes "httpVersion") (str (codes "HTTP/" ++ r.http_version)) (
            field (codes "headers") (arr (headers_json r.headers)) (
              field (codes "cookies") (arr nil) (
                field (codes "content") (obj content) (
                  field (codes "redirectURL")
                    (str (or_text (header_value r.headers (codes "location")) []))
                    (field (codes "headersSize") (neg 0)
                      (field (codes "bodySize") (size_json r.body) end))))))))

  -- an ISO time, its offset `+00:00` written as `Z`
  unfoldable pub iso_z : ℕ → Text
  unfolding ends_with
  iso_z t =
      let s = c.isoformat t in
      if ends_with s (codes "+00:00") then take (length s - 6) s ++ codes "Z" else s

  unfoldable pub to_har_dict : HarEntry → Fields
  to_har_dict e = field (codes "startedDateTime") (str (iso_z e.started_at)) (
      field (codes "time") (flt e.time_ms) (
        field (codes "request") (obj (request_to_har_dict e.request)) (
          field (codes "response") (obj (response_to_har_dict e.response)) (
            field (codes "cache") (obj end) (
              field (codes "timings")
                (obj (
                  field (codes "send") (int 0)
                    (field (codes "wait") (flt e.time_ms) (field (codes "receive") (int 0) end))))
                end)))))
