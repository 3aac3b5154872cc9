-- ===== src/Har/RoundTrip.antt =====
-- Rendering an entry as a HAR dict and parsing it back.
use second_eye.Prelude.{
  ℕ, ◌+◌, ◌-◌, ◌++◌, ◌≡◌, ◌≢◌, refl, sym, ap, ◌∙◌, some, true, List, [], ◌∷◌, length, take, list_eq,
  nat_eq, option_eq, arith, All, Option-cases, inl, inr, take-length-append, length-append,
  drop-length-append,
}
use mathlib.Core.List.{reverse-append, append_assoc}
use second_eye.Prelude.Text.{
  Text, codes, remove_prefix, replace_char, ends_with, starts_with-append,
}
use second_eye.Json.{Bytes, end, field, int, Codecs, Lawful, update, Json}
use second_eye.Har.{HarHeader, HarRequest, HarResponse, HarEntry}
use second_eye.Har.Render.{
  headers_json, encode_body, request_to_har_dict, response_to_har_dict, iso_z, to_har_dict,
  mime_type,
}
use second_eye.Har.Parse.{
  parse_headers, parse_items, decode_body, parse_request, parse_response, parse_time,
  parse_har_entry,
}

remove_prefix-append : (p s : Text) → remove_prefix (p ++ s) p ≡ s
unfolding remove_prefix
remove_prefix-append p s = rw starts_with-append (drop-length-append p s)

ends_with-append : (s p : Text) → ends_with (s ++ p) p ≡ true
unfolding ends_with
ends_with-append s p = rw reverse-append (starts_with-append _ _)

replace_char-append :
    (c : ℕ) (t s r : Text) → replace_char c t (s ++ r) ≡ replace_char c t s ++ replace_char c t r
unfolding replace_char
replace_char-append c t [] r = refl
replace_char-append c t (d ∷ s) r = rw (replace_char-append c t s r) (simp append_assoc)

replace_char-absent : (c : ℕ) (t s : Text) → All (λ d. d ≢ c) s → replace_char c t s ≡ s
unfolding replace_char
replace_char-absent c t [] h = refl
replace_char-absent c t (d ∷ s) h = ground (arith, replace_char-absent c t s h.1)

offset_restored :
    (s : Text)
    → All (λ d. d ≢ b'Z') s
    → replace_char b'Z' (codes "+00:00") (s ++ codes "Z") ≡ s ++ codes "+00:00"
unfolding replace_char nat_eq
offset_restored s plain =
    rw (replace_char-append b'Z' (codes "+00:00") s (codes "Z"))
      (ap (λ l. l ++ codes "+00:00") (replace_char-absent b'Z' (codes "+00:00") s plain))

offset_kept :
    (s : Text)
    → All (λ d. d ≢ b'Z') s
    → replace_char b'Z' (codes "+00:00") (s ++ codes "+00:00") ≡ s ++ codes "+00:00"
unfolding replace_char nat_eq
offset_kept s plain =
    rw (replace_char-append b'Z' (codes "+00:00") s (codes "+00:00"))
      (ap (λ l. l ++ codes "+00:00") (replace_char-absent b'Z' (codes "+00:00") s plain))

take-stem : (n : ℕ) (s p : Text) → n ≡ length (s ++ p) - length p → take n (s ++ p) ≡ s
take-stem n s p e =
    rw (e, length-append s p)
      (let k : length s + length p - length p ≡ length s = omega arith in
        rw k (take-length-append s p))

module _ (c : Codecs) (lawful : Lawful c) where
  items-headers_json : (hs : List HarHeader) → parse_items c (headers_json hs) ≡ some hs
  unfolding parse_items headers_json nat_eq list_eq
  items-headers_json [] = refl
  items-headers_json (h ∷ hs) = rw (items-headers_json hs)

  -- the offset is cut off, and `Z` is put in its place
  iso_z-stem : (t : ℕ) → iso_z c t ≡ lawful.stem t ++ codes "Z"
  unfolding iso_z
  iso_z-stem t =
      rw (lawful.isoformat-stem t, ends_with-append (lawful.stem t) (codes "+00:00"))
        (ap (λ l. l ++ codes "Z") (take-stem _ (lawful.stem t) (codes "+00:00") refl))

  parse-iso_z : (t : ℕ) → parse_time c (iso_z c t) ≡ some t
  unfolding parse_time
  parse-iso_z t = rw (iso_z-stem t) (
      ap c.fromisoformat
        (offset_restored (lawful.stem t) (lawful.stem_plain t) ∙ sym (lawful.isoformat-stem t))
      ∙ lawful.iso t)

  pub parse_time-isoformat : (t : ℕ) → parse_time c (c.isoformat t) ≡ some t
  unfolding parse_time
  parse_time-isoformat t =
      ap c.fromisoformat (
        ap (replace_char b'Z' (codes "+00:00")) (lawful.isoformat-stem t)
        ∙ offset_kept (lawful.stem t) (lawful.stem_plain t)
        ∙ sym (lawful.isoformat-stem t))
      ∙ lawful.iso t

  decode-encode_request :
      (m : Json) (b : Bytes)
      → decode_body c (some (update (field (codes "mimeType") m end) (encode_body c b))) ≡ some b
  unfolding decode_body encode_body update nat_eq list_eq option_eq
  decode-encode_request m b = elim (Option-cases (c.utf8_decode b)) [
    | inl bad ↦ rw (bad, encode_body) (lawful.b64 b)
    | inr (t, good) ↦ rw (good, encode_body) (ap some (lawful.utf8 b t good))
  ]

  decode-encode_response :
      (n m : Json) (b : Bytes)
      → decode_body c (
          some (update (field (codes "size") n (field (codes "mimeType") m end)) (encode_body c b)))
        ≡ some b
  unfolding decode_body encode_body update nat_eq list_eq option_eq
  decode-encode_response n m b = elim (Option-cases (c.utf8_decode b)) [
    | inl bad ↦ rw (bad, encode_body) (lawful.b64 b)
    | inr (t, good) ↦ rw (good, encode_body) (ap some (lawful.utf8 b t good))
  ]

  parse_request-body :
      (method url version : Text) (hs : List HarHeader) (b : Bytes)
      → let r : HarRequest = record {
        method = method;
        url = url;
        http_version = version;
        headers = hs;
        body = b;
      } in
        parse_request c (request_to_har_dict c r) ≡ some r
  unfolding parse_request parse_headers request_to_har_dict nat_eq list_eq
  parse_request-body method url version hs [] =
      rw (items-headers_json hs) (unfold decode_body in refl)
  parse_request-body method url version hs (x ∷ b) =
      rw (items-headers_json hs) (rw (decode-encode_request (mime_type c hs) (x ∷ b)))

  parse_response_lem : (r : HarResponse) → parse_response c (response_to_har_dict c r) ≡ some r
  unfolding parse_response parse_headers response_to_har_dict nat_eq list_eq
  parse_response_lem r =
      rw (items-headers_json r.headers)
        (rw (decode-encode_response (int (length r.body)) (mime_type c r.headers) r.body))

  parse_request_lem : (r : HarRequest) → parse_request c (request_to_har_dict c r) ≡ some r
  parse_request_lem r = parse_request-body r.method r.url r.http_version r.headers r.body

  -- An entry written as a HAR dict is read back as it was: `parse_har_entry` returns, and returns the
  -- same entry, whatever the bodies hold, if the codecs keep what they document.
  pub parse_har_entry-to_har_dict : (e : HarEntry) → parse_har_entry c (to_har_dict c e) ≡ some e
  unfolding parse_har_entry to_har_dict nat_eq list_eq
  parse_har_entry-to_har_dict e =
      rw (parse_request_lem e.request, parse_response_lem e.response, parse-iso_z e.started_at)
