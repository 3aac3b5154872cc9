-- ===== src/Render/Sources.antt =====
-- Every index that a flow of `build_flows` names is that of an entry.
use second_eye.Prelude.{
  unguarded, ℕ, ◌+◌, ◌≡◌, refl, sym, ◌∙◌, true, Option, none, some, List, [], ◌∷◌, arith, filter,
  All, ◌==◌, nat_eq, list_eq, contains, Bool-cases, Option-cases, inl, inr,
}
use mathlib.Core.Option.{some-injective, none-ne-some}
use second_eye.Prelude.Text.{Text}
use second_eye.Prelude.Dict.{Dict, insert, lookup, lookup-insert}
use second_eye.Prelude.Sort.{sort_by}
use second_eye.Json.{Float64}
use second_eye.Urls.{Urls}
use second_eye.Classify.{ClassifiedEntry}
use second_eye.Cluster.{started_at, is_navigation}
use second_eye.Redirect.{RedirectChain, indices, nav_entries, detect_redirect_chains}
use second_eye.Redirect.Laws.{IsChain, AreChains, detect_redirect_chains-AreChains}
use second_eye.Redirect.Consumed.{consumed_of, all_consumed, contains-all_consumed, contains-append}
use second_eye.Polling.{
  FloatOps, JsonReader, PollingGroup, is_xhr, xhr_entries, detect_polling_groups,
}
use second_eye.Polling.Order.{is_subsequence, InOrder, detect_polling_groups-InOrder}
use second_eye.Manifest.{Flow, RedirectHop, PollingGroupInfo, redirect_hops_of, summary_for_chain}
use second_eye.Manifest.Flows.{
  Tables, later, build_simple_flow, build_polling_first_flow, build_chain_flow, flow_for,
  is_skipped, flow_loop, first_occurrences, tables_of, build_flows_raises, build_flows,
}
use second_eye.Manifest.Laws.{lookup-AreChains, step_result_parts}
use second_eye.Manifest.Indices.{contains-indices_filter, contains-indices_sort_by}
use second_eye.Manifest.Complete.{subsequence_contains}
use second_eye.Render.Sections.{first_index}

all_of :
    (xs is : List ℕ)
    → ((i : ℕ) → contains is i ≡ true → contains xs i ≡ true)
    → All (λ i. contains xs i ≡ true) is
all_of xs [] h = tt
all_of xs (i ∷ is) h = (h i (ground arith), all_of xs is (λ j m. h j (ground arith)))

module _ (xs : List ℕ) where
  abbrev pub Listed : List ℕ → Type 0
  Listed = All (λ i. contains xs i ≡ true)

  abbrev pub HopListed : RedirectHop → Type 0
  HopListed h = contains xs h.har_entry_index ≡ true

  -- the indices of a flow are among `xs`, and a chain has hops
  pub record IsSourced (fl : Flow) : Type 0 where
    pub first : (i : ℕ) × (first_index fl ≡ some i) × (contains xs i ≡ true)
    pub hops :
        fl.redirect_chain ≡ true
        → (h : RedirectHop) × (hs : List RedirectHop) × (fl.redirect_hops ≡ some (h ∷ hs))
          × All HopListed (h ∷ hs)
    pub polls :
        (g : PollingGroupInfo) → fl.polling_group ≡ some g → Listed g.collapsed_har_entry_indices

  redirect_hops_of-Listed :
      (cs : List ClassifiedEntry) → Listed (indices cs) → All HopListed (redirect_hops_of cs)
  unfolding redirect_hops_of
  redirect_hops_of-Listed [] h = tt
  redirect_hops_of-Listed (c ∷ []) h = (h.0, tt)
  redirect_hops_of-Listed (c ∷ d ∷ cs) h = (h.0, redirect_hops_of-Listed (d ∷ cs) h.1)

  Listed-later : (is : List ℕ) → Listed is → Listed (later is)
  Listed-later [] h = tt
  Listed-later (i ∷ is) h = h.1

  -- what the tables give for an index
  record AreSourced (t : Tables) : Type 0 where
    chained :
        (k : ℕ) (ch : RedirectChain) → lookup k t.chains ≡ some ch → Listed (consumed_of ch.hops)
    polled : (k : ℕ) (g : PollingGroup) → lookup k t.first ≡ some g → Listed g.occurrence_indices

  module _ (u : Urls) (format_interval : Float64 → Text) (t : Tables) where
    build_simple_flow-IsSourced :
        (n : ℕ) (c : ClassifiedEntry) (into : Option ℕ)
        → contains xs c.index ≡ true
        → IsSourced (build_simple_flow u n c into)
    unfolding build_simple_flow first_index
    build_simple_flow-IsSourced n c into h = record {
      first = (c.index, refl, h);
      hops = λ e. cc;
      polls = λ g e. cc;
    }

    build_polling_first_flow-IsSourced :
        (n : ℕ) (c : ClassifiedEntry) (g : PollingGroup)
        → contains xs c.index ≡ true
        → Listed g.occurrence_indices
        → IsSourced (build_polling_first_flow u format_interval n c g)
    unfolding build_polling_first_flow first_index
    build_polling_first_flow-IsSourced n c g h occ = record {
      first = (c.index, refl, h);
      hops = λ e. cc;
      polls = λ info e.
          let occ' : Listed (later g.occurrence_indices) = Listed-later g.occurrence_indices occ in
          let same : later g.occurrence_indices ≡ info.collapsed_har_entry_indices = cc in
          rw (← same) occ';
    }

    chain_flow-IsSourced :
        (n : ℕ) (c : ClassifiedEntry) (cs : List ClassifiedEntry)
        → contains xs c.index ≡ true
        → Listed (indices cs)
        → IsSourced (record {
          flow_id = n;
          started_at = started_at c;
          category = c.category;
          har_entry_indices = indices (c ∷ cs);
          redirect_chain = true;
          summary = summary_for_chain u (c ∷ cs);
          redirect_hops = some (redirect_hops_of (c ∷ cs));
          polling_group = none;
          collapsed_into = none;
        })
    unfolding first_index redirect_hops_of
    chain_flow-IsSourced n c [] here rest = record {
      first = (c.index, refl, here);
      hops = λ e. (_, _, refl, (here, tt));
      polls = λ g e. cc;
    }
    chain_flow-IsSourced n c (d ∷ cs) here rest = record {
      first = (c.index, refl, here);
      hops = λ e. (_, _, refl, (here, redirect_hops_of-Listed (d ∷ cs) rest));
      polls = λ g e. cc;
    }

    build_chain_flow-IsSourced :
        (n k : ℕ) (hops : List ClassifiedEntry) (fl : Flow)
        → IsChain u k hops
        → contains xs k ≡ true
        → Listed (consumed_of hops)
        → build_chain_flow u n (record { hops = hops }) ≡ some fl
        → IsSourced fl
    unfolding build_chain_flow first_index
    build_chain_flow-IsSourced n k [] fl chain h rest e = elim chain [ ]
    build_chain_flow-IsSourced n k (c ∷ cs) fl chain h rest e =
        let same : c.index ≡ k = chain.0 in
        let here : contains xs c.index ≡ true = rw same h in
        let made = some-injective _ _ e in rw (← made) (chain_flow-IsSourced n c cs here rest)

    flow_for-IsSourced :
        (n : ℕ) (c : ClassifiedEntry) (ids : Dict ℕ ℕ) (fl : Flow)
        → AreChains u t.chains
        → AreSourced t
        → contains xs c.index ≡ true
        → flow_for u format_interval t n c ids ≡ some fl
        → IsSourced fl
    unfolding flow_for
    flow_for-IsSourced n c ids fl chains sourced h e =
        elim (Option-cases (lookup c.index t.chains)) [
          | inr (ch, found) ↦
              build_chain_flow-IsSourced n c.index ch.hops fl
                (lookup-AreChains u format_interval c.index t.chains ch chains found) h
                (sourced.chained c.index ch found) (rw (found, flow_for) at e)
          | inl no_chain ↦ elim (Option-cases (lookup c.index t.first)) [
            | inr (g, first) ↦
                rw (← some-injective _ _ (rw (no_chain, first, flow_for) at e))
                  (build_polling_first_flow-IsSourced n c g h (sourced.polled c.index g first))
            | inl no_first ↦ elim (Option-cases (lookup c.index t.collapsed)) [
              | inl simple ↦
                  rw (← some-injective _ _ (rw (no_chain, no_first, simple, flow_for) at e))
                    (build_simple_flow-IsSourced n c none h)
              | inr (g, collapsed) ↦ elim (Option-cases (lookup g.first_index ids)) [
                | inl missing ↦
                    absurd
                      (none-ne-some _ (rw (no_chain, no_first, collapsed, missing, flow_for) at e))
                | inr (into, there) ↦
                    rw
                      (← some-injective _ _
                        (rw (no_chain, no_first, collapsed, there, flow_for) at e))
                      (build_simple_flow-IsSourced n c (some into) h)
              ]
            ]
          ]
        ]

    flow_loop-IsSourced :
        (n : ℕ) (ids : Dict ℕ ℕ) (cs : List ClassifiedEntry) (fls : List Flow)
        → AreChains u t.chains
        → AreSourced t
        → Listed (indices cs)
        → flow_loop u format_interval t n ids cs ≡ some fls
        → All IsSourced fls
    unfolding flow_loop
    flow_loop-IsSourced n ids [] fls chains sourced h e = let e' : [] ≡ fls = cc in rw (← e') tt
    flow_loop-IsSourced n ids (c ∷ cs) fls chains sourced h e = elim (Bool-cases (is_skipped t c)) [
      | inl skip ↦ flow_loop-IsSourced n ids cs fls chains sourced h.1 (rw skip at e)
      | inr keep ↦
          let ids' = insert c.index n ids in
          let (fl, rest, made, others, split) =
            step_result_parts u format_interval (flow_for u format_interval t n c ids')
              (flow_loop u format_interval t (n + 1) ids' cs) fls (rw keep at e) in
          rw split (
            flow_for-IsSourced n c ids' fl chains sourced h.0 made,
            flow_loop-IsSourced (n + 1) ids' cs rest chains sourced h.1 others,
          )
    ]

-- a polling group whose occurrences are among `xs`
abbrev GroupListed : List ℕ → PollingGroup → Type 0
GroupListed xs g = Listed xs g.occurrence_indices

subsequence-Listed :
    (ys xs is : List ℕ)
    → ((i : ℕ) → contains ys i ≡ true → contains xs i ≡ true)
    → is_subsequence is ys ≡ true
    → Listed xs is
subsequence-Listed ys xs is sub h = all_of xs is (λ i m. sub i (subsequence_contains is ys i h m))

InOrder-GroupListed :
    (ys xs : List ℕ) (gs : List PollingGroup)
    → ((i : ℕ) → contains ys i ≡ true → contains xs i ≡ true)
    → All (InOrder ys) gs
    → All (GroupListed xs) gs
InOrder-GroupListed ys xs [] sub h = tt
InOrder-GroupListed ys xs (g ∷ gs) sub h =
    (subsequence-Listed ys xs g.occurrence_indices sub h.0, InOrder-GroupListed ys xs gs sub h.1)

first_occurrences-GroupListed :
    (xs : List ℕ) (gs : List PollingGroup) (d : Dict ℕ PollingGroup)
    → All (GroupListed xs) gs
    → ((k : ℕ) (g : PollingGroup) → lookup k d ≡ some g → GroupListed xs g)
    → (k : ℕ) (g : PollingGroup) → lookup k (first_occurrences d gs) ≡ some g
    → GroupListed xs g
unfolding first_occurrences
first_occurrences-GroupListed xs [] d h old = old
first_occurrences-GroupListed xs (g ∷ gs) d h old =
    first_occurrences-GroupListed xs gs (insert g.first_index g d) h.1 (λ k g' e.
      elim (Bool-cases (k == g.first_index)) [
        | inl same ↦
            rw (← some-injective g g' (rw same at (sym (lookup-insert k g.first_index g d) ∙ e)))
              h.0
        | inr other ↦ old k g' (rw other at (sym (lookup-insert k g.first_index g d) ∙ e))
      ])

lookup-all_consumed :
    (k j : ℕ) (ch : RedirectChain) (d : Dict ℕ RedirectChain)
    → lookup k d ≡ some ch
    → contains (consumed_of ch.hops) j ≡ true
    → contains (all_consumed d) j ≡ true
unfolding lookup
lookup-all_consumed k j ch [] e m = cc
lookup-all_consumed k j ch ((i, w) ∷ d) e m = elim (Bool-cases (k == i)) [
  | inl same ↦
      let e' : w ≡ ch = some-injective w ch (rw same at e) in
      let m' : contains (consumed_of w.hops) j ≡ true = rw e' m in
      ground (arith, contains-append j (consumed_of w.hops) (all_consumed d))
  | inr other ↦
      let rest = lookup-all_consumed k j ch d (rw other at e) m in
      ground (arith, contains-append j (consumed_of w.hops) (all_consumed d))
]

module _ (u : Urls) (f : FloatOps) (r : JsonReader) (format_interval : Float64 → Text)
    (classified : List ClassifiedEntry) where
  of_nav :
      (j : ℕ)
      → contains (indices (nav_entries classified)) j ≡ true
      → contains (indices classified) j ≡ true
  unfolding nav_entries
  of_nav j m =
      contains-indices_filter is_navigation classified j
        (sym (contains-indices_sort_by started_at (filter is_navigation classified) j) ∙ m)

  of_xhr :
      (j : ℕ)
      → contains (indices (xhr_entries classified)) j ≡ true
      → contains (indices classified) j ≡ true
  unfolding xhr_entries
  of_xhr j m =
      contains-indices_filter is_xhr classified j
        (sym (contains-indices_sort_by started_at (filter is_xhr classified) j) ∙ m)

  tables_of-AreSourced : AreSourced (indices classified) (tables_of u f r classified)
  unfolding tables_of
  tables_of-AreSourced = record {
    chained = λ k ch e. all_of (indices classified) (consumed_of ch.hops) (λ j m. of_nav j (
        contains-all_consumed u j classified
          (lookup-all_consumed k j ch (detect_redirect_chains u classified) e m)));
    polled = λ k g e.
        first_occurrences-GroupListed (indices classified) (detect_polling_groups f r u classified)
          []
          (InOrder-GroupListed (indices (xhr_entries classified)) (indices classified) _ of_xhr
            (detect_polling_groups-InOrder u f r classified))
          (λ j h none_. unfold lookup in cc) k g e;
  }

  -- Every index that a flow of `build_flows` names is the index of an entry: its first, those of its
  -- hops, and those of the polling occurrences that it stands for.
  pub build_flows-IsSourced :
      (fls : List Flow)
      → build_flows u format_interval f r classified ≡ some fls
      → All (IsSourced (indices classified)) fls
  unfolding build_flows
  build_flows-IsSourced fls e =
      flow_loop-IsSourced (indices classified) u format_interval (tables_of u f r classified) 1 []
        (sort_by started_at classified) fls
        (unfold tables_of in detect_redirect_chains-AreChains u classified) tables_of-AreSourced
        (all_of (indices classified) (indices (sort_by started_at classified))
          (λ j m. sym (contains-indices_sort_by started_at classified j) ∙ m))
        (unguarded (build_flows_raises u f r classified) _ fls e)
