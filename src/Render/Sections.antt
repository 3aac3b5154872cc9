-- ===== src/Render/Sections.antt =====
-- The body of a flow's section, by the kind of flow; `none` is an exception.
use second_eye.Prelude.{
  ℕ, ◌+◌, Option, none, some, List, [], ◌∷◌, ◌++◌, length, map, ltb, ◌==◌, list_eq, nat_eq,
  if◌then◌else◌, ◌&&◌, not,
}
use second_eye.Prelude.Text.{Text, codes, join, decimal}
use second_eye.Prelude.Dict.{Dict, insert, lookup}
use second_eye.Json.{Bytes}
use second_eye.Har.{HarHeader, HarEntry, ◌>>=◌}
use second_eye.Har.Render.{or_text}
use second_eye.Classify.{ClassifiedEntry}
use second_eye.Manifest.{Flow, RedirectHop, path_and_query}
use second_eye.Render.{
  Layout, navigation_truncate_chars, other_inline_max_bytes, method_label, content_type,
  status_line, decode_for_display, decode_truncated, code_block,
}

-- `{c.index: c.entry for c in classified}`
unfoldable pub entries_by_index : Dict ℕ HarEntry → List ClassifiedEntry → Dict ℕ HarEntry
entries_by_index d [] = d
entries_by_index d (c ∷ cs) = entries_by_index (insert c.index c.entry d) cs

-- `flow.har_entry_indices[0]`
unfoldable pub first_index : Flow → Option ℕ
first_index flow = elim flow.har_entry_indices [ [] ↦ none | i ∷ is ↦ some i ]

-- `hops[-1]`
unfoldable pub last_hop : List RedirectHop → Option RedirectHop
last_hop [] = none
last_hop (h ∷ []) = some h
last_hop (h ∷ g ∷ hs) = last_hop (g ∷ hs)

abbrev pub fence : Text
fence = codes "```"

module _ (lay : Layout) where
  -- the part about a body that is not empty
  unfoldable pub body_lines : Bytes → ℕ → Text → List Text
  body_lines body index label =
      let (text, truncated) = decode_truncated lay body navigation_truncate_chars in
      let block = codes "```html" ∷ text ∷ fence ∷ [] in
      let summary =
        codes "<summary>"
        ++ label
        ++ codes " (truncated, "
        ++ decimal (length body)
        ++ codes " bytes total, "
        ++ codes "see raw.har entry #"
        ++ decimal index
        ++ codes ")</summary>" in
      if truncated
      then [] ∷ codes "<details>" ∷ summary ∷ [] ∷ block ++ codes "</details>" ∷ []
      else [] ∷ block

  unfoldable pub render_truncated_body : Bytes → ℕ → Text → List Text
  render_truncated_body body index label = if body == [] then [] else body_lines body index label

  unfoldable pub render_navigation : Flow → Dict ℕ HarEntry → Option (List Text)
  render_navigation flow entries = do
    i ← first_index flow
    e ← lookup i entries
    some (
        status_line e (content_type e.response.headers)
        ∷ render_truncated_body e.response.body i (codes "Response body"))

  -- the parts of the chain's line, after the first hop
  unfoldable pub later_parts : Dict ℕ HarEntry → List RedirectHop → Option (List Text)
  later_parts entries [] = some []
  later_parts entries (h ∷ hs) = do
    e ← lookup h.har_entry_index entries
    rest ← later_parts entries hs
    some (
        path_and_query lay.urls e.request.url ∷ (codes "`" ++ decimal h.status ++ codes "`") ∷ rest)

  unfoldable pub first_parts : Dict ℕ HarEntry → List RedirectHop → Option (List Text)
  first_parts entries [] = some []
  first_parts entries (h ∷ hs) = do
    e ← lookup h.har_entry_index entries
    rest ← later_parts entries hs
    some (
        (method_label e.request.method ++ codes " " ++ e.request.url)
        ∷ (codes "`" ++ decimal h.status ++ codes "`")
        ∷ rest)

  -- the rows of the table of hops, numbered from `i`
  unfoldable pub hop_rows : Dict ℕ HarEntry → ℕ → List RedirectHop → Option (List Text)
  hop_rows entries i [] = some []
  hop_rows entries i (h ∷ hs) = do
    e ← lookup h.har_entry_index entries
    rest ← hop_rows entries (i + 1) hs
    some (
        (codes "| "
          ++ decimal i
          ++ codes " | "
          ++ path_and_query lay.urls e.request.url
          ++ codes " | "
          ++ decimal h.status
          ++ codes " | "
          ++ or_text h.location (codes "—")
          ++ codes " |")
        ∷ rest)

  unfoldable pub render_hops : Dict ℕ HarEntry → List RedirectHop → Option (List Text)
  render_hops entries hops = do
    parts ← first_parts entries hops
    rows ← hop_rows entries 1 hops
    final ← last_hop hops
    e ← lookup final.har_entry_index entries
    some (
        join (codes " → ") parts
          ∷ []
          ∷ codes "<details>"
          ∷ codes "<summary>Redirect chain detail</summary>"
          ∷ []
          ∷ codes "| Hop | URL | Status | Location |"
          ∷ codes "|---|---|---|---|"
          ∷ rows
        ++ ([]
            ∷ codes "</details>"
            ∷ render_truncated_body e.response.body final.har_entry_index
                (codes "Final response body")))

  -- the assertion fails where there are no hops
  unfoldable pub render_redirect_chain : Flow → Dict ℕ HarEntry → Option (List Text)
  render_redirect_chain flow entries = do hops ← flow.redirect_hops; render_hops entries hops

  header_line : HarHeader → Text
  header_line h = h.name ++ (codes ": " ++ h.value)

  header_lines : List HarHeader → List Text
  header_lines [] = []
  header_lines (h ∷ hs) =
      [] ∷ codes "Request headers:" ∷ fence ∷ map header_line (h ∷ hs) ++ fence ∷ []

  block_lines : Text → Bytes → Text → List Text
  block_lines title body kind =
      if body == [] then [] else [] ∷ title ∷ code_block lay body kind ∷ []

  unfoldable pub render_xhr_api : Flow → Dict ℕ HarEntry → Option (List Text)
  unfolding header_line header_lines block_lines
  render_xhr_api flow entries = do
    i ← first_index flow
    e ← lookup i entries
    let kind = content_type e.response.headers
    some (
        status_line e kind ∷ header_lines e.request.headers
        ++ (block_lines (codes "Request body:") e.request.body (content_type e.request.headers)
            ++ block_lines (codes "Response body:") e.response.body kind))

  unfoldable pub render_other : Flow → Dict ℕ HarEntry → Option (List Text)
  render_other flow entries = do
    i ← first_index flow
    e ← lookup i entries
    let body = e.response.body
    let shown =
        if not (body == []) && ltb (length body) other_inline_max_bytes
        then [] ∷ fence ∷ decode_for_display lay body ∷ fence ∷ []
        else []
    some (
        (method_label e.request.method
          ++ codes " "
          ++ e.request.url
          ++ codes " → `"
          ++ decimal e.response.status
          ++ codes "`")
        ∷ shown)
