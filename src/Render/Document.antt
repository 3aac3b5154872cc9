-- ===== src/Render/Document.antt =====
-- The whole document: headings, contents, diagram and one section per narrative flow.
use second_eye.Prelude.{
  ℕ, Bool, true, false, ◌||◌, any, Option, none, some, List, [], ◌∷◌, ◌++◌, length, map, filter,
  ◌==◌, list_eq, nat_eq, if◌then◌else◌,
}
use second_eye.Prelude.Text.{Text, codes, join, decimal}
use second_eye.Prelude.Dict.{Dict, insert, lookup}
use second_eye.Har.{HarEntry, header_value, ◌>>=◌}
use second_eye.Classify.{navigation, xhr_api, ClassifiedEntry}
use second_eye.Cluster.{Cluster, cluster_entries}
use second_eye.Manifest.{Flow, category_value, path_and_query}
use second_eye.Signals.Bodies.{
  DebugPageHint, SecretFinding, compute_debug_page_hints, compute_secret_findings,
}
use second_eye.Signals.Outliers.{OutlierInfo, compute_timing_outliers, compute_size_outliers}
use second_eye.Signals.Reuse.{IdValueReuseNote, extract_id_shaped_values, compute_id_value_reuse}
use second_eye.Render.{Layout, anchor_slug}
use second_eye.Render.Summary.{is_empty, render_header, render_summary, render_capture_signals}
use second_eye.Render.Sections.{
  entries_by_index, first_index, fence, last_hop, render_navigation, render_redirect_chain,
  render_xhr_api, render_other,
}
use second_eye.Render.Raises.{signals_raise, render_flow_raises}
use second_eye.Render.Notes.{
  of_first, render_assets_summary, render_polling_note, outlier_note, debug_page_note,
  secret_findings_note, id_reuse_note,
}

-- `{c.index: c.confirmed for c in classified}` and `{c.anchor.index: c for c in clusters}`
unfoldable pub confirmed_by_index : Dict ℕ Bool → List ClassifiedEntry → Dict ℕ Bool
confirmed_by_index d [] = d
confirmed_by_index d (c ∷ cs) = confirmed_by_index (insert c.index c.confirmed d) cs

unfoldable pub clusters_by_anchor : Dict ℕ Cluster → List Cluster → Dict ℕ Cluster
clusters_by_anchor d [] = d
clusters_by_anchor d (c ∷ cs) = clusters_by_anchor (insert c.anchor.index c d) cs

-- what the sections read
pub record Context : Type 0 where
  pub entries : Dict ℕ HarEntry
  pub confirmed : Dict ℕ Bool
  pub clusters : Dict ℕ Cluster
  pub timing_outliers : Dict ℕ OutlierInfo
  pub size_outliers : Dict ℕ OutlierInfo
  pub debug_page_hints : Dict ℕ DebugPageHint
  pub secret_findings : Dict ℕ (List SecretFinding)
  pub id_value_reuse : Dict ℕ IdValueReuseNote

-- `f.collapsed_into is None`
abbrev pub is_narrative : Flow → Bool
is_narrative f = elim f.collapsed_into [ none ↦ true | some i ↦ false ]

abbrev pub narrative : List Flow → List Flow
narrative = filter is_narrative

-- `f(x) for x in xs`, where `f` may raise
unfoldable pub each {ℓ κ} : {A : Type ℓ} {B : Type κ} → (A → Option B) → List A → Option (List B)
each f [] = some []
each f (x ∷ xs) = do y ← f x; ys ← each f xs; some (y ∷ ys)

unfoldable pub flatten {ℓ} : {A : Type ℓ} → List (List A) → List A
flatten [] = []
flatten (xs ∷ xss) = xs ++ flatten xss

-- an empty line and the note, if there is one
unfoldable pub note_lines : Option Text → List Text
note_lines none = []
note_lines (some t) = [] ∷ t ∷ []

abbrev map_option {ℓ κ} : {A : Type ℓ} {B : Type κ} → (A → B) → Option A → Option B
map_option f none = none
map_option f (some a) = some (f a)

-- an empty list of findings counts as none
abbrev secret_note : Option (List SecretFinding) → Option Text
secret_note none = none
secret_note (some []) = none
secret_note (some (s ∷ ss)) = some (secret_findings_note (s ∷ ss))

module _ (lay : Layout) where
  -- `, referer: …` for a Referer header that is not empty
  unfoldable pub referer_suffix : Option Text → Text
  referer_suffix none = []
  referer_suffix (some r) = if r == [] then [] else codes ", referer: " ++ path_and_query lay.urls r

  unfoldable pub header_suffix : Flow → Dict ℕ HarEntry → Option Text
  header_suffix flow entries =
      let kind = category_value flow.category in
      let with_referer : Option Text = (do
        i ← first_index flow
        e ← lookup i entries
        some (kind ++ referer_suffix (header_value e.request.headers (codes "referer")))) in
      if flow.redirect_chain
      then some (kind ++ codes ", redirect chain")
      else elim flow.category [ xhr_api ↦ with_referer | _ ↦ some kind ]

  -- `confirmed_by_index.get(i, True)`
  unfoldable pub guess_mark : Option Bool → Text
  guess_mark (some false) = codes " *(guessed)*"
  guess_mark _ = []

  unfoldable pub flow_heading_text : Flow → Context → Option Text
  flow_heading_text flow ctx = do
    suffix ← header_suffix flow ctx.entries
    i ← first_index flow
    some (
        codes "Flow "
        ++ decimal flow.flow_id
        ++ codes " — "
        ++ lay.clock flow.started_at
        ++ codes " ("
        ++ suffix
        ++ codes ")"
        ++ guess_mark (lookup i ctx.confirmed))

  -- one line of the contents
  unfoldable pub toc_line : Text → Text
  toc_line heading = codes "- [" ++ heading ++ codes "](#" ++ anchor_slug lay heading ++ codes ")"

  unfoldable pub render_toc : List Flow → Context → Option (List Text)
  render_toc flows ctx = do
    headings ← each (λ f. flow_heading_text f ctx) flows
    some (if is_empty flows then [] else [] ∷ codes "## Contents" ∷ [] ∷ map toc_line headings)

  -- the label of the response: of the last hop for a chain, else of the entry
  unfoldable pub response_label : Flow → HarEntry → Text
  response_label flow primary =
      let plain = decimal primary.response.status in
      let chain : Text = elim flow.redirect_hops [
        | none ↦ plain
        | some hops ↦ elim (last_hop hops) [
          | none ↦ plain
          | some h ↦
              decimal h.status ++ codes " (final, " ++ decimal (length hops) ++ codes " hops)"
        ]
      ] in
      if flow.redirect_chain then chain else plain

  unfoldable pub exchange_lines : Dict ℕ HarEntry → Flow → Option (List Text)
  exchange_lines entries flow = do
    i ← first_index flow
    primary ← lookup i entries
    some (
        (codes "    Operator->>Target: "
          ++ primary.request.method
          ++ codes " "
          ++ path_and_query lay.urls primary.request.url)
        ∷ (codes "    Target-->>Operator: " ++ response_label flow primary)
        ∷ [])

  unfoldable pub render_sequence_diagram : List Flow → Context → Option (List Text)
  render_sequence_diagram flows ctx = do
    exchanges ← each (exchange_lines ctx.entries) flows
    some (
        if is_empty flows
        then []
        else []
            ∷ codes "## Sequence Diagram"
            ∷ []
            ∷ codes "```mermaid"
            ∷ codes "sequenceDiagram"
            ∷ codes "    participant Operator"
            ∷ codes "    participant Target"
            ∷ flatten exchanges
          ++ fence ∷ [])

  unfoldable pub section_body : Flow → Context → Option (List Text)
  section_body flow ctx =
      if flow.redirect_chain
      then render_redirect_chain lay flow ctx.entries
      else elim flow.category [
        | navigation ↦ render_navigation lay flow ctx.entries
        | xhr_api ↦ render_xhr_api lay flow ctx.entries
        | _ ↦ render_other lay flow ctx.entries
      ]

  -- the assets of a navigation's cluster
  unfoldable pub asset_note : Flow → Context → Option (Option Text)
  asset_note flow ctx =
      let of_cluster : Option (Option Text) = (do
        cluster ← of_first flow ctx.clusters
        some (elim cluster [ none ↦ none | some k ↦ render_assets_summary k ])) in
      elim flow.category [ navigation ↦ of_cluster | _ ↦ some none ]

  unfoldable pub polling_lines : Flow → Context → Option (List Text)
  polling_lines flow ctx =
      let noted : Option (List Text) = (do
        lines ← render_polling_note lay flow ctx.entries
        some ([] ∷ lines)) in
      elim flow.polling_group [ none ↦ some [] | some g ↦ noted ]

  unfoldable pub render_outlier_note : Flow → Context → Option (Option Text)
  render_outlier_note flow ctx = do
    timing ← of_first flow ctx.timing_outliers
    size ← of_first flow ctx.size_outliers
    some (outlier_note lay timing size)

  unfoldable pub render_debug_page_note : Flow → Context → Option (Option Text)
  render_debug_page_note flow ctx = do
    hint ← of_first flow ctx.debug_page_hints
    some (map_option debug_page_note hint)

  unfoldable pub render_secret_findings_note : Flow → Context → Option (Option Text)
  render_secret_findings_note flow ctx = do
    findings ← of_first flow ctx.secret_findings
    some (secret_note findings)

  unfoldable pub render_id_reuse_note : Flow → Context → Option (Option Text)
  render_id_reuse_note flow ctx = do
    note ← of_first flow ctx.id_value_reuse
    some (map_option id_reuse_note note)

  -- what follows the heading of a section
  unfoldable pub flow_lines : Flow → Context → Option (List Text)
  flow_lines flow ctx = do
    body ← section_body flow ctx
    assets ← asset_note flow ctx
    polling ← polling_lines flow ctx
    outliers ← render_outlier_note flow ctx
    debug ← render_debug_page_note flow ctx
    secrets ← render_secret_findings_note flow ctx
    reuse ← render_id_reuse_note flow ctx
    i ← first_index flow
    some (
        body
        ++ note_lines assets
        ++ polling
        ++ note_lines outliers
        ++ note_lines debug
        ++ note_lines secrets
        ++ note_lines reuse
        ++ [] ∷ (codes "*(har_entry_index: " ++ decimal i ++ codes ")*") ∷ [])

  unfoldable pub render_flow : Flow → Context → Option (List Text)
  render_flow flow ctx = do
    heading ← flow_heading_text flow ctx
    lines ← flow_lines flow ctx
    some ((codes "## " ++ heading) ∷ [] ∷ lines)

  -- a section between an empty line and a rule
  unfoldable pub flow_section : Context → Flow → Option (List Text)
  flow_section ctx flow = do
    lines ← render_flow flow ctx
    some ([] ∷ lines ++ [] ∷ codes "---" ∷ [])

  unfoldable pub context_of : List ClassifiedEntry → Option Context
  context_of classified = do
    reuse ←
        compute_id_value_reuse lay.as_set (extract_id_shaped_values lay.codecs lay.urls lay.reader)
          classified
    some (record {
      entries = entries_by_index [] classified;
      confirmed = confirmed_by_index [] classified;
      clusters = clusters_by_anchor [] (cluster_entries classified 2000);
      timing_outliers =
          compute_timing_outliers lay.floats lay.round1 classified lay.timing_multiple;
      size_outliers = compute_size_outliers lay.floats lay.round1 classified lay.size_multiple;
      debug_page_hints = compute_debug_page_hints lay.scanner classified;
      secret_findings = compute_secret_findings lay.scanner classified;
      id_value_reuse = reuse;
    })

  unfoldable pub closing_line : ℕ → ℕ → Text
  closing_line requests flows =
      codes "*End of capture. "
      ++ decimal requests
      ++ codes " total requests across "
      ++ decimal flows
      ++ codes " narrative flows (static-asset noise and repeated "
      ++ codes "polling collapsed per flow-rendering rules).*"

  -- the parts of the document, in order
  unfoldable pub document_lines :
      Text → List Text → ℕ → ℕ → List ClassifiedEntry → List Flow → Context → Option (List Text)
  document_lines capture_name targets started_at ended_at classified flows ctx = do
    diagram ← render_sequence_diagram (narrative flows) ctx
    toc ← render_toc (narrative flows) ctx
    sections ← each (flow_section ctx) (narrative flows)
    some (
        render_header lay.codecs capture_name targets started_at ended_at classified
        ++ render_summary lay.urls lay.reader classified
        ++ render_capture_signals classified
        ++ diagram
        ++ toc
        ++ flatten sections
        ++ [] ∷ closing_line (length classified) (length (narrative flows)) ∷ [])

  -- whether `render_analysis_md` raises in urllib or json
  unfoldable pub render_analysis_md_raises : List ClassifiedEntry → List Flow → Bool
  render_analysis_md_raises classified flows =
      signals_raise lay classified
      || any (render_flow_raises lay (entries_by_index [] classified)) (narrative flows)

  unfoldable pub render_analysis_md :
      Text → List Text → ℕ → ℕ → List ClassifiedEntry → List Flow → Option Text
  render_analysis_md capture_name targets started_at ended_at classified flows =
      let rendered : Option Text = (do
        ctx ← context_of classified
        lines ← document_lines capture_name targets started_at ended_at classified flows ctx
        some (join (codes "\n") lines)) in
      if render_analysis_md_raises classified flows then none else rendered
