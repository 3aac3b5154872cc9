-- ===== src/Render.antt =====
-- src/secondeye/analysis/render.py: how text, bodies and numbers are laid out in ANALYSIS.md.
pub mod Raises
pub mod Inline
pub mod Sources
pub mod Returns
pub mod Headings
pub mod Summary
pub mod Sections
pub mod Notes
pub mod Document
use second_eye.Prelude.{
  ℕ, ◌+◌, ◌-◌, ◌/◌, ◌%◌, Bool, true, false, ◌&&◌, ◌||◌, Option, none, some, List, [], ◌∷◌, ◌++◌,
  length, map, take, filter, leb, ltb, ◌==◌, list_eq, nat_eq, contains, if◌then◌else◌,
}
use second_eye.Prelude.Text.{
  Text, codes, lower, strip, is_space, starts_with, ends_with, has_substring, before_char, join,
  replace_char, decimal,
}
use second_eye.Json.{Bytes, Float64, Json, Codecs}
use second_eye.Urls.{Urls}
use second_eye.Har.{HarHeader, HarEntry, header_value}
use second_eye.Har.Render.{or_text}
use second_eye.Polling.{FloatOps, JsonReader}
use second_eye.Signals.Bodies.{Scanner}
use second_eye.Signals.Reuse.{Key}

-- What the rendering calls of the standard library, the formats of floats and times among it.
pub record Layout : Type 0 where
  pub codecs : Codecs
  pub urls : Urls
  pub reader : JsonReader
  -- `json.dumps(value, indent=2)`
  pub dumps_indent : Json → Text
  pub floats : FloatOps
  pub scanner : Scanner
  -- the order in which Python walks the set of a list's elements
  pub as_set : List Key → List Key
  -- `t.strftime("%H:%M:%S")`
  pub clock : ℕ → Text
  -- `ch.isalnum()`
  pub is_alnum : ℕ → Bool
  -- `str(round(x))`, `f"{x:g}"`, `int(x)` and `round(x, 1)`
  pub rounded : Float64 → Text
  pub general : Float64 → Text
  pub to_int : Float64 → ℕ
  pub round1 : Float64 → Float64
  -- the literals 5.0 and 10.0
  pub timing_multiple : Float64
  pub size_multiple : Float64

abbrev pub navigation_truncate_chars : ℕ
navigation_truncate_chars = 2000

abbrev pub other_inline_max_bytes : ℕ
other_inline_max_bytes = 500

-- the default of `max_len`, which every call leaves
abbrev pub inline_max_len : ℕ
inline_max_len = 200

-- a word that ended, if there was one
end_word : Text → List Text → List Text
end_word [] ws = ws
end_word (c ∷ w) ws = (c ∷ w) ∷ ws

-- the word read so far, and the rest of the text
unfoldable pub words_from : Text → Text → List Text
unfolding end_word
words_from word [] = end_word word []
words_from word (c ∷ s) =
    let ended = end_word word (words_from [] s) in
    let longer = words_from (word ++ c ∷ []) s in if is_space c then ended else longer

-- `text.split()`
unfoldable pub words : Text → List Text
words = words_from []

-- `safe[: max_len - 1] + "…"` of a text that is too long
unfoldable pub shorten : Text → Text
shorten safe = if ltb inline_max_len (length safe) then take 199 safe ++ codes "…" else safe

-- the text between the backticks
unfoldable pub inline_text : Text → Text
unfolding words
inline_text text = shorten (replace_char b'`' (codes "'") (join (codes " ") (words text)))

unfoldable pub inline_safe : Text → Text
unfolding inline_text
inline_safe text = codes "`" ++ (inline_text text ++ codes "`")

upper_char : ℕ → ℕ
upper_char c = if leb b'a' c && leb c b'z' then c - 32 else c

-- `s.upper()`; a method is ASCII
unfoldable pub upper : Text → Text
unfolding upper_char
upper = map upper_char

abbrev pub state_changing_methods : List Text
state_changing_methods = codes "POST" ∷ codes "PUT" ∷ codes "DELETE" ∷ codes "PATCH" ∷ []

unfoldable pub method_label : Text → Text
unfolding upper
method_label method =
    let label = codes "**" ++ (method ++ codes "**") in
    if contains state_changing_methods (upper method)
    then label ++ codes " *(state-changing)*"
    else label

unfoldable pub content_type : List HarHeader → Text
content_type headers =
    strip (before_char b';' (or_text (header_value headers (codes "content-type")) []))

unfoldable pub status_line : HarEntry → Text → Text
status_line e kind =
    method_label e.request.method
    ++ codes " "
    ++ e.request.url
    ++ codes " → `"
    ++ decimal e.response.status
    ++ codes "` `"
    ++ kind
    ++ codes "`"

-- `", ".join(items[:-1]) + " and " + items[-1]`
unfoldable pub join_with_and : List Text → Text
join_with_and [] = []
join_with_and (x ∷ []) = x
join_with_and (x ∷ y ∷ []) = x ++ (codes " and " ++ y)
join_with_and (x ∷ y ∷ z ∷ ws) = x ++ (codes ", " ++ join_with_and (y ∷ z ∷ ws))

-- `round(n / 1024)`, half to even; the quotient is exact below 2 ** 53
unfoldable pub round_kilobytes : ℕ → ℕ
round_kilobytes n =
    let q = n / 1024 in
    let r = n % 1024 in if ltb r 512 then q else if ltb 512 r then q + 1 else q + q % 2

unfoldable pub format_bytes : ℕ → Text
format_bytes n =
    let k = round_kilobytes n in
    if n == 0 then codes "0KB" else decimal (if k == 0 then 1 else k) ++ codes "KB"

unfoldable pub format_bytes_precise : ℕ → Text
format_bytes_precise n = if ltb n 1024 then decimal n ++ codes "B" else format_bytes n

unfoldable pub asset_kind : HarEntry → Text
asset_kind e =
    let kind = content_type e.response.headers in
    let path = lower e.request.url in
    if kind == codes "application/javascript" || ends_with path (codes ".js")
    then codes "JS"
    else if kind == codes "text/css" || ends_with path (codes ".css")
    then codes "CSS"
    else if starts_with kind (codes "font/") || ends_with path (codes ".woff2")
    then codes "font"
    else if starts_with kind (codes "image/")
        || (ends_with path (codes ".png")
            || (ends_with path (codes ".svg")
                || (ends_with path (codes ".jpg") || ends_with path (codes ".ico"))))
    then codes "image"
    else codes "other"

module _ (lay : Layout) where
  unfoldable pub decode_for_display : Bytes → Text
  decode_for_display body = elim (lay.codecs.utf8_decode body) [
    | some t ↦ t
    | none ↦ codes "<binary data, " ++ (decimal (length body) ++ codes " bytes>")
  ]

  unfoldable pub decode_truncated : Bytes → ℕ → Text × Bool
  decode_truncated body max_chars =
      let text = decode_for_display body in
      if leb (length text) max_chars then (text, false) else (take max_chars text, true)

  -- `none` of `loads` is JSONDecodeError or UnicodeDecodeError
  unfoldable pub format_body_text : Bytes → Text → Text
  format_body_text body kind =
      let shown = decode_for_display body in
      let parsed : Text = elim (lay.reader.loads body) [
        | some v ↦ lay.dumps_indent v
        | none ↦ shown
      ] in
      if has_substring (lower kind) (codes "json") then parsed else shown

  unfoldable pub code_block : Bytes → Text → Text
  code_block body kind =
      let lang = if has_substring (lower kind) (codes "json") then codes "json" else [] in
      codes "```" ++ lang ++ codes "\n" ++ format_body_text body kind ++ codes "\n```"

  -- the letters, digits, hyphens and underscores, and each space as a hyphen
  unfoldable pub anchor_slug : Text → Text
  anchor_slug heading =
      replace_char b' ' (codes "-")
        (filter (λ ch. lay.is_alnum ch || contains (codes " -_") ch) (lower heading))
