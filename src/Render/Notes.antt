-- ===== src/Render/Notes.antt =====
-- The notes under a flow: assets, polling, outliers, debug pages, secrets and repeated values.
use second_eye.Prelude.{
  ℕ, ◌+◌, ◌-◌, Option, none, some, List, [], ◌∷◌, ◌++◌, length, take, map, filter, ltb, ◌==◌,
  list_eq, nat_eq, if◌then◌else◌,
}
use second_eye.Prelude.Text.{Text, codes, join, decimal}
use second_eye.Prelude.Dict.{Dict, lookup}
use second_eye.Har.{HarEntry, ◌>>=◌}
use second_eye.Classify.{ClassifiedEntry}
use second_eye.Cluster.{Cluster}
use second_eye.Manifest.{Flow, PollingGroupInfo}
use second_eye.Manifest.Flows.{is_static}
use second_eye.Signals.{bump}
use second_eye.Signals.Bodies.{DebugPageHint, SecretFinding}
use second_eye.Signals.Outliers.{OutlierInfo}
use second_eye.Signals.Reuse.{IdValueReuseNote}
use second_eye.Render.{
  Layout, inline_safe, join_with_and, format_bytes, format_bytes_precise, asset_kind,
}
use second_eye.Render.Sections.{first_index}

abbrev pub asset_kind_order : List Text
asset_kind_order = codes "JS" ∷ codes "CSS" ∷ codes "font" ∷ codes "image" ∷ codes "other" ∷ []

-- the counts of the kinds, and the bytes of all assets
unfoldable pub count_assets : Dict Text ℕ → ℕ → List ClassifiedEntry → Dict Text ℕ × ℕ
count_assets d total [] = (d, total)
count_assets d total (a ∷ assets) =
    count_assets (bump (asset_kind a.entry) d) (total + length a.entry.response.body) assets

-- the kinds that were counted, in the fixed order
unfoldable pub kind_breakdown : Dict Text ℕ → List Text → List Text
kind_breakdown d [] = []
kind_breakdown d (k ∷ ks) = elim (lookup k d) [
  | none ↦ kind_breakdown d ks
  | some n ↦ (decimal n ++ (codes "x " ++ k)) ∷ kind_breakdown d ks
]

unfoldable pub render_assets_summary : Cluster → Option Text
render_assets_summary cluster =
    let assets = filter is_static cluster.members in
    let (counts, total) = count_assets [] 0 assets in
    let line =
      codes "**Assets loaded ("
      ++ decimal (length assets)
      ++ codes "):** collapsed — "
      ++ join (codes ", ") (kind_breakdown counts asset_kind_order)
      ++ codes ", "
      ++ format_bytes total
      ++ codes " total" in
    elim assets [ [] ↦ none | a ∷ rest ↦ some line ]

-- `d.get(flow.har_entry_indices[0])`, where `none` is a flow without indices
unfoldable pub of_first {ℓ} : {A : Type ℓ} → Flow → Dict ℕ A → Option (Option A)
of_first flow d = elim (first_index flow) [ none ↦ none | some i ↦ some (lookup i d) ]

unfoldable pub debug_page_note : DebugPageHint → Text
debug_page_note h =
    codes "**Warning:** response body matches a known "
    ++ h.framework
    ++ codes " debug/error page "
    ++ codes "fingerprint (`"
    ++ h.signature
    ++ codes "`)."

secret_text : SecretFinding → Text
secret_text f = f.kind ++ codes " `" ++ f.value ++ codes "`"

unfoldable pub secret_findings_note : List SecretFinding → Text
unfolding secret_text
secret_findings_note findings =
    codes "**Warning:** possible secret(s) in response body — "
    ++ join (codes ", ") (map secret_text findings)
    ++ codes "."

unfoldable pub id_reuse_note : IdValueReuseNote → Text
id_reuse_note n =
    let text =
      codes "**Note:** parameter "
      ++ inline_safe n.name
      ++ codes " value "
      ++ inline_safe n.value
      ++ codes " was first observed in raw.har entry #"
      ++ decimal n.first_seen_index
      ++ codes ", reused here." in
    if n.further_occurrences == 0
    then text
    else text ++ codes " ...and " ++ decimal n.further_occurrences ++ codes " more occurrence(s)."

module _ (lay : Layout) where
  unfoldable pub times_of : Dict ℕ HarEntry → List ℕ → Option (List Text)
  times_of entries [] = some []
  times_of entries (i ∷ is) = do
    e ← lookup i entries
    rest ← times_of entries is
    some (lay.clock e.started_at ∷ rest)

  unfoldable pub polling_text : PollingGroupInfo → List Text → Text
  polling_text group times =
      let collapsed = group.collapsed_har_entry_indices in
      let refs = join (codes ", ") (map (λ i. codes "#" ++ decimal i) (take 3 collapsed)) in
      let note =
        codes "**Note:** identical request observed again at "
        ++ join_with_and times
        ++ codes " — appears to be a "
        ++ lay.rounded group.interval_seconds
        ++ codes "-second polling interval. Subsequent "
        ++ codes "occurrences omitted from this narrative; see raw.har entries "
        ++ refs
        ++ codes "." in
      if ltb 3 (length collapsed)
      then note
        ++ codes " ...and "
        ++ decimal (length collapsed - 3)
        ++ codes " more occurrences through end of capture."
      else note

  -- the assertion fails where the flow has no polling group
  unfoldable pub render_polling_note : Flow → Dict ℕ HarEntry → Option (List Text)
  render_polling_note flow entries = do
    group ← flow.polling_group
    times ← times_of entries (take 3 group.collapsed_har_entry_indices)
    some (polling_text group times ∷ [])

  timing_text : OutlierInfo → Text
  timing_text o =
      codes "response time "
      ++ lay.rounded o.value
      ++ codes "ms — ~"
      ++ lay.general o.multiple
      ++ codes "x the capture's "
      ++ codes "median ("
      ++ lay.rounded o.median
      ++ codes "ms)"

  size_text : OutlierInfo → Text
  size_text o =
      codes "response body "
      ++ format_bytes_precise (lay.to_int o.value)
      ++ codes " — ~"
      ++ lay.general o.multiple
      ++ codes "x the "
      ++ codes "capture's median ("
      ++ format_bytes_precise (lay.to_int o.median)
      ++ codes ")"

  -- what a note says of an outlier that is there
  clause {ℓ} : {A : Type ℓ} → (A → Text) → Option A → List Text
  clause show none = []
  clause show (some o) = show o ∷ []

  unfoldable pub outlier_note : Option OutlierInfo → Option OutlierInfo → Option Text
  unfolding timing_text size_text clause
  outlier_note timing size =
      let notes = clause timing_text timing ++ clause size_text size in
      let line = codes "**Note:** " ++ join (codes "; ") notes ++ codes "." in
      elim notes [ [] ↦ none | n ∷ ns ↦ some line ]
