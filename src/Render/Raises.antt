-- ===== src/Render/Raises.antt =====
-- src/secondeye/analysis/render.py and signals.py: where the rendering of a capture raises, because
-- urllib raises on a URL that is split or json on a request body that is read.
use second_eye.Prelude.{
  ℕ, Bool, true, false, ◌&&◌, ◌||◌, Option, none, some, List, [], any, ◌==◌, list_eq, nat_eq,
  if◌then◌else◌,
}
use second_eye.Prelude.Text.{Text, codes, lower, has_substring}
use second_eye.Prelude.Dict.{Dict, lookup}
use second_eye.Har.{HarEntry, header_value}
use second_eye.Classify.{xhr_api, ClassifiedEntry}
use second_eye.Manifest.{Flow, RedirectHop, path_and_query_raises}
use second_eye.Signals.{candidates, json_body_raises}
use second_eye.Render.{Layout, content_type}
use second_eye.Json.{Bytes}
use second_eye.Render.Sections.{first_index}

module _ (lay : Layout) where
  -- the query and the body of each candidate are read
  unfoldable pub signals_raise : List ClassifiedEntry → Bool
  signals_raise classified =
      any
        (λ (c : ClassifiedEntry).
          path_and_query_raises lay.urls c.entry.request.url || json_body_raises lay.reader c.entry)
        (candidates classified)

  -- a Referer that is not empty is split
  unfoldable pub referer_raises : Option Text → Bool
  referer_raises none = false
  referer_raises (some r) = if r == [] then false else path_and_query_raises lay.urls r

  -- a missing entry is the exception of another place
  unfoldable pub url_raises : Option HarEntry → Bool
  url_raises none = false
  url_raises (some e) = path_and_query_raises lay.urls e.request.url

  unfoldable pub first_entry : Flow → Dict ℕ HarEntry → Option HarEntry
  first_entry flow entries = elim (first_index flow) [ none ↦ none | some i ↦ lookup i entries ]

  unfoldable pub hops_raise : Dict ℕ HarEntry → Option (List RedirectHop) → Bool
  hops_raise entries none = false
  hops_raise entries (some hops) =
      any (λ (h : RedirectHop). url_raises (lookup h.har_entry_index entries)) hops

  -- a body that is shown as JSON is read
  unfoldable pub code_block_raises : Bytes → Text → Bool
  code_block_raises body kind =
      if body == []
      then false
      else has_substring (lower kind) (codes "json") && lay.reader.loads_raises body

  -- the heading and the section of an xhr-api flow
  unfoldable pub render_xhr_api_raises : Option HarEntry → Bool
  render_xhr_api_raises none = false
  render_xhr_api_raises (some e) =
      referer_raises (header_value e.request.headers (codes "referer"))
      || code_block_raises e.request.body (content_type e.request.headers)
      || code_block_raises e.response.body (content_type e.response.headers)

  unfoldable pub is_xhr_api : Flow → Bool
  is_xhr_api flow = elim flow.category [ xhr_api ↦ true | _ ↦ false ]

  -- the diagram splits the URL of the first entry, and a chain's table that of each hop
  unfoldable pub render_flow_raises : Dict ℕ HarEntry → Flow → Bool
  render_flow_raises entries flow =
      url_raises (first_entry flow entries)
      || (if flow.redirect_chain
          then hops_raise entries flow.redirect_hops
          else is_xhr_api flow && render_xhr_api_raises (first_entry flow entries))
