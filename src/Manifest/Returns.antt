-- ===== src/Manifest/Returns.antt =====
-- `build_flows` raises no KeyError: the flow of a collapsed occurrence finds the flow number of the first.
use second_eye.Prelude.{
  ℕ, ◌≡◌, sym, ◌∙◌, true, none, some, refl, if◌then◌else◌, List, [], ◌∷◌, arith, length, All,
  filter, list_eq, nat_eq, contains, Distinct, Bool-cases, inl, inr,
}
use mathlib.Core.Option.{none-ne-some}
use second_eye.Prelude.Text.{Text}
use second_eye.Prelude.Sort.{sort_by}
use second_eye.Prelude.Dict.{lookup}
use second_eye.Json.{Float64}
use second_eye.Urls.{Urls}
use second_eye.Har.{HarEntry}
use second_eye.Classify.{ClassifiedEntry, classify_entries}
use second_eye.Classify.Laws.{classify_entries_lem}
use second_eye.Cluster.{started_at, is_navigation}
use second_eye.Redirect.{indices, nav_entries, detect_redirect_chains}
use second_eye.Redirect.Laws.{detect_redirect_chains-AreChains}
use second_eye.Redirect.Consumed.{all_consumed, contains-all_consumed}
use second_eye.Polling.{
  FloatOps, JsonReader, PollingGroup, is_xhr, xhr_entries, detect_polling_groups,
}
use second_eye.Polling.Order.{is_subsequence, InOrder, detect_polling_groups-InOrder}
use second_eye.Polling.Signatures.{IsPollOf, detect_polling_groups-IsPollOf}
use second_eye.Manifest.{Flow}
use second_eye.Manifest.Flows.{is_skipped, tables_of, flow_loop, build_flows, build_flows_raises}
use second_eye.Manifest.Indices.{
  filter-sort_by, filter_tells, before-filter, sort_by-Distinct, count_from-Distinct,
}
use second_eye.Manifest.Complete.{
  Good, Kept, subsequence_contains, subsequence_before, collapsed_occurrences-AllCollapse,
  flow_loop_total,
}

module _ (u : Urls) (f : FloatOps) (r : JsonReader) (classified : List ClassifiedEntry) where
  abbrev sorted : List ClassifiedEntry
  sorted = sort_by started_at classified

  abbrev xhr_indices : List ℕ
  xhr_indices = indices (filter is_xhr sorted)

  group-Good :
      (g : PollingGroup)
      → IsPollOf u f r g
      → InOrder xhr_indices g
      → Good xhr_indices (indices sorted) g
  group-Good g poll order =
      let (rest, occurrences) = poll.polling.first in
      let order' : is_subsequence (g.first_index ∷ rest) xhr_indices ≡ true =
        rw occurrences at order in
      (
        subsequence_contains (g.first_index ∷ rest) xhr_indices g.first_index order' (ground arith),
        λ i m.
            before-filter is_xhr sorted g.first_index i
              (subsequence_before g.first_index rest xhr_indices i order' (rw occurrences at m)),
      )

  groups-Good :
      (gs : List PollingGroup)
      → All (IsPollOf u f r) gs
      → All (InOrder xhr_indices) gs
      → All (Good xhr_indices (indices sorted)) gs
  groups-Good [] p o = tt
  groups-Good (g ∷ gs) p o = (group-Good g p.0 o.0, groups-Good gs p.1 o.1)

  all_groups-Good : All (Good xhr_indices (indices sorted)) (detect_polling_groups f r u classified)
  all_groups-Good =
      let same : xhr_entries classified ≡ filter is_xhr sorted =
        unfold xhr_entries in sym (filter-sort_by started_at is_xhr classified) in
      groups-Good (detect_polling_groups f r u classified)
        (detect_polling_groups-IsPollOf u f r classified)
        (rw same at (detect_polling_groups-InOrder u f r classified))

  -- an entry that is xhr-api is neither a static asset nor consumed
  entry-Kept :
      (e : ClassifiedEntry)
      → contains xhr_indices e.index ≡ is_xhr e
      → contains (indices (filter is_navigation sorted)) e.index ≡ is_navigation e
      → Kept (tables_of u f r classified) xhr_indices e
  unfolding is_skipped tables_of
  entry-Kept e x nav in_ =
      let same : nav_entries classified ≡ filter is_navigation sorted =
        unfold nav_entries in sym (filter-sort_by started_at is_navigation classified) in
      let xhr : is_xhr e ≡ true = sym x ∙ in_ in
      elim (Bool-cases (contains (all_consumed (detect_redirect_chains u classified)) e.index)) [
        | inl used ↦
            let at_nav : contains (indices (filter is_navigation sorted)) e.index ≡ true =
              rw same at (contains-all_consumed u e.index classified used) in
            absurd (ground arith)
        | inr free ↦ ground arith
      ]

  entries-Kept :
      (es : List ClassifiedEntry)
      → All (λ e. contains xhr_indices e.index ≡ is_xhr e) es
      → All (λ e. contains (indices (filter is_navigation sorted)) e.index ≡ is_navigation e) es
      → All (Kept (tables_of u f r classified) xhr_indices) es
  entries-Kept [] x n = tt
  entries-Kept (e ∷ es) x n = (entry-Kept e x.0 n.0, entries-Kept es x.1 n.1)

  module _ (format_interval : Float64 → Text) where
    -- where the indices of the entries are distinct, the loop returns flows
    flow_loop-of_Distinct :
        Distinct (indices classified)
        → (fls : List Flow) × (flow_loop u format_interval (tables_of u f r classified) 1 [] sorted
            ≡ some fls)
    flow_loop-of_Distinct new =
        let new' : Distinct (indices sorted) = sort_by-Distinct started_at classified new in
        flow_loop_total u format_interval (tables_of u f r classified) xhr_indices [] sorted 1 []
          (unfold tables_of in detect_redirect_chains-AreChains u classified) new'
          (unfold tables_of in
            collapsed_occurrences-AllCollapse xhr_indices (indices sorted)
              (detect_polling_groups f r u classified) [] all_groups-Good
              (λ i g e. unfold lookup in absurd (none-ne-some g e)))
          tt
          (entries-Kept sorted (filter_tells is_xhr sorted new')
            (filter_tells is_navigation sorted new'))
          tt

    build_flows-of_Distinct :
        Distinct (indices classified)
        → (fls : List Flow) × (build_flows u format_interval f r classified
            ≡ (if build_flows_raises u f r classified then none else some fls))
    unfolding build_flows
    build_flows-of_Distinct new =
        let (fls, looped) = flow_loop-of_Distinct new in (fls, rw looped refl)

-- For the entries of a buffer, classified, `build_flows` raises where urllib raises on one of the URLs
-- that it splits or joins, or json in a way that is not caught, and nowhere else: no key that it looks
-- up is missing.
pub build_flows-classify_entries :
    (u : Urls) (f : FloatOps) (r : JsonReader) (format_interval : Float64 → Text)
    (es : List HarEntry)
    → let classified = classify_entries u es in
      (fls : List Flow) × (build_flows u format_interval f r classified
        ≡ (if build_flows_raises u f r classified then none else some fls))
build_flows-classify_entries u f r format_interval es =
    let numbered = (classify_entries_lem u es).0 in
    build_flows-of_Distinct u f r (classify_entries u es) format_interval
      (rw numbered (count_from-Distinct 0 (length es)))
