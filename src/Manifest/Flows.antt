-- ===== src/Manifest/Flows.antt =====
-- `build_flows` and the three ways to build a flow; `none` is an exception.
use second_eye.Prelude.{
  ℕ, ◌+◌, Bool, true, false, ◌||◌, any, Option, none, some, List, [], ◌∷◌, ◌++◌, map, length,
  list_eq, nat_eq, contains, if◌then◌else◌,
}
use second_eye.Prelude.Text.{Text, codes}
use second_eye.Prelude.Dict.{Dict, insert, lookup}
use second_eye.Prelude.Sort.{sort_by}
use second_eye.Json.{Float64}
use second_eye.Urls.{Urls}
use second_eye.Har.{◌>>=◌}
use second_eye.Classify.{static_asset, ClassifiedEntry}
use second_eye.Cluster.{started_at}
use second_eye.Redirect.{RedirectChain, detect_redirect_chains, detect_redirect_chains_raises}
use second_eye.Redirect.Consumed.{all_consumed}
use second_eye.Polling.{
  FloatOps, JsonReader, PollingGroup, detect_polling_groups, detect_polling_groups_raises,
}
use second_eye.Manifest.{
  Flow, summary_for_entry, summary_for_chain, redirect_hops_of, path_and_query_raises,
}

abbrev pub is_static : ClassifiedEntry → Bool
is_static c = elim c.category [ static_asset ↦ true | _ ↦ false ]

-- `xs[1:]`
abbrev pub later {ℓ} : {A : Type ℓ} → List A → List A
later [] = []
later (x ∷ xs) = xs

-- `{g.first_index: g for g in groups}`
unfoldable pub first_occurrences : Dict ℕ PollingGroup → List PollingGroup → Dict ℕ PollingGroup
first_occurrences d [] = d
first_occurrences d (g ∷ gs) = first_occurrences (insert g.first_index g d) gs

unfoldable pub insert_all : List ℕ → PollingGroup → Dict ℕ PollingGroup → Dict ℕ PollingGroup
insert_all [] g d = d
insert_all (i ∷ is) g d = insert_all is g (insert i g d)

-- `{idx: g for g in groups for idx in g.occurrence_indices[1:]}`
unfoldable pub collapsed_occurrences : Dict ℕ PollingGroup → List PollingGroup → Dict ℕ PollingGroup
unfolding insert_all
collapsed_occurrences d [] = d
collapsed_occurrences d (g ∷ gs) =
    collapsed_occurrences (insert_all (later g.occurrence_indices) g d) gs

-- the tables that the loop reads
pub record Tables : Type 0 where
  pub chains : Dict ℕ RedirectChain
  pub consumed : List ℕ
  pub first : Dict ℕ PollingGroup
  pub collapsed : Dict ℕ PollingGroup

-- `continue` for a static asset and for a consumed hop
unfoldable pub is_skipped : Tables → ClassifiedEntry → Bool
is_skipped t c = if is_static c then true else contains t.consumed c.index

module _ (u : Urls) where
  unfoldable pub build_simple_flow : ℕ → ClassifiedEntry → Option ℕ → Flow
  build_simple_flow flow_id c collapsed_into = record {
    flow_id = flow_id;
    started_at = started_at c;
    category = c.category;
    har_entry_indices = c.index ∷ [];
    redirect_chain = false;
    summary = summary_for_entry u c.entry;
    redirect_hops = none;
    polling_group = none;
    collapsed_into = collapsed_into;
  }

  -- `hops[0]` of an empty list is an exception
  unfoldable pub build_chain_flow : ℕ → RedirectChain → Option Flow
  build_chain_flow flow_id chain = elim chain.hops [
    | [] ↦ none
    | h ∷ hs ↦ some (record {
      flow_id = flow_id;
      started_at = started_at h;
      category = h.category;
      har_entry_indices = map (λ (c : ClassifiedEntry). c.index) (h ∷ hs);
      redirect_chain = true;
      summary = summary_for_chain u (h ∷ hs);
      redirect_hops = some (redirect_hops_of (h ∷ hs));
      polling_group = none;
      collapsed_into = none;
    })
  ]

  unfoldable pub tables_of : FloatOps → JsonReader → List ClassifiedEntry → Tables
  tables_of f r classified =
      let chains = detect_redirect_chains u classified in
      let groups = detect_polling_groups f r u classified in
      record {
        chains = chains;
        consumed = all_consumed chains;
        first = first_occurrences [] groups;
        collapsed = collapsed_occurrences [] groups;
      }

  -- whether a summary raises: that of a chain splits the URL of each hop
  unfoldable pub flow_for_raises : Tables → ClassifiedEntry → Bool
  flow_for_raises t c = elim (lookup c.index t.chains) [
    | some chain ↦
        any (λ (h : ClassifiedEntry). path_and_query_raises u h.entry.request.url) chain.hops
    | none ↦ path_and_query_raises u c.entry.request.url
  ]

  unfoldable pub flow_loop_raises : Tables → List ClassifiedEntry → Bool
  flow_loop_raises t [] = false
  flow_loop_raises t (c ∷ cs) =
      let rest = flow_loop_raises t cs in
      if is_skipped t c then rest else flow_for_raises t c || rest

  -- whether `build_flows` raises in urllib or json
  unfoldable pub build_flows_raises : FloatOps → JsonReader → List ClassifiedEntry → Bool
  build_flows_raises f r classified =
      detect_redirect_chains_raises u classified
      || detect_polling_groups_raises f r u classified
      || flow_loop_raises (tables_of f r classified) (sort_by started_at classified)

module _ (u : Urls) (format_interval : Float64 → Text) where
  unfoldable pub build_polling_first_flow : ℕ → ClassifiedEntry → PollingGroup → Flow
  build_polling_first_flow flow_id c g = record {
    flow_id = flow_id;
    started_at = started_at c;
    category = c.category;
    har_entry_indices = c.index ∷ [];
    redirect_chain = false;
    summary =
        summary_for_entry u c.entry
        ++ codes " (polling, "
        ++ format_interval g.interval_seconds
        ++ codes " interval)";
    redirect_hops = none;
    polling_group = some (record {
      occurrence_count = length g.occurrence_indices;
      interval_seconds = g.interval_seconds;
      collapsed_har_entry_indices = later g.occurrence_indices;
    });
    collapsed_into = none;
  }

  -- an entry's flow, from its number and the flow numbers given so far, its own among them
  unfoldable pub flow_for : Tables → ℕ → ClassifiedEntry → Dict ℕ ℕ → Option Flow
  flow_for t flow_id c flow_id_by_index = elim (lookup c.index t.chains) [
    | some chain ↦ build_chain_flow u flow_id chain
    | none ↦ elim (lookup c.index t.first) [
      | some g ↦ some (build_polling_first_flow flow_id c g)
      | none ↦ elim (lookup c.index t.collapsed) [
        | some g ↦ do
          into ← lookup g.first_index flow_id_by_index
          some (build_simple_flow u flow_id c (some into))
        | none ↦ some (build_simple_flow u flow_id c none)
      ]
    ]
  ]

  unfoldable pub flow_loop : Tables → ℕ → Dict ℕ ℕ → List ClassifiedEntry → Option (List Flow)
  flow_loop t next_flow_id ids [] = some []
  flow_loop t next_flow_id ids (c ∷ cs) =
      let skipped = flow_loop t next_flow_id ids cs in
      let ids' = insert c.index next_flow_id ids in
      let kept : Option (List Flow) = (do
        flow ← flow_for t next_flow_id c ids'
        rest ← flow_loop t (next_flow_id + 1) ids' cs
        some (flow ∷ rest)) in
      if is_skipped t c then skipped else kept

  unfoldable pub build_flows : FloatOps → JsonReader → List ClassifiedEntry → Option (List Flow)
  build_flows f r classified =
      let returned = flow_loop (tables_of u f r classified) 1 [] (sort_by started_at classified) in
      if build_flows_raises u f r classified then none else returned
