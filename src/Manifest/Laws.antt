-- ===== src/Manifest/Laws.antt =====
-- The flows of a capture: one for each entry that is kept, numbered in order.
use second_eye.Prelude.{
  ℕ, ◌+◌, ◌≡◌, refl, ap, ◌∙◌, Bool, true, false, ◌&&◌, ◌||◌, ◌++◌, if◌then◌else◌, contains,
  unguarded, Option, none, some, List, [], ◌∷◌, arith, map, length, filter, not, Bool-cases,
  Option-cases, inl, inr, ◌==◌, nat_eq,
}
use mathlib.Core.Path.{ap₂}
use second_eye.Prelude.Dict.{Dict, insert, lookup}
use second_eye.Prelude.Sort.{sort_by}
use second_eye.Json.{Float64}
use second_eye.Prelude.Text.{Text}
use second_eye.Urls.{Urls}
use second_eye.Har.{◌>>=◌}
use second_eye.Classify.{ClassifiedEntry, Category, navigation, xhr_api, static_asset, other}
use second_eye.Classify.Laws.{count_from}
use second_eye.Cluster.{started_at}
use second_eye.Redirect.{indices, RedirectChain, detect_redirect_chains}
use second_eye.Redirect.Consumed.{consumed_of, all_consumed, contains-append}
use second_eye.Redirect.Laws.{IsChain, AreChains, detect_redirect_chains-AreChains}
use second_eye.Polling.{FloatOps, JsonReader}
use second_eye.Manifest.{Flow}
use second_eye.Manifest.Flows.{
  Tables, build_simple_flow, build_polling_first_flow, build_chain_flow, flow_for, is_skipped,
  flow_loop, tables_of, build_flows_raises, build_flows,
}

-- whether one of the chains has the entry `i` behind its first hop
abbrev pub is_later_hop : Dict ℕ RedirectChain → ℕ → Bool
is_later_hop [] i = false
is_later_hop ((k, ch) ∷ d) i = elim ch.hops [
  | [] ↦ is_later_hop d i
  | h ∷ hs ↦ contains (indices hs) i || is_later_hop d i
]

later_hop_of :
    (i : ℕ) (hops : List ClassifiedEntry) (d : Dict ℕ RedirectChain)
    → contains (all_consumed d) i ≡ is_later_hop d i
    → contains (consumed_of hops ++ all_consumed d) i
      ≡ elim hops [ [] ↦ is_later_hop d i | h ∷ hs ↦ contains (indices hs) i || is_later_hop d i ]
later_hop_of i [] d e = e
later_hop_of i (h ∷ hs) d e =
    contains-append i (indices hs) (all_consumed d) ∙ ap (λ b. contains (indices hs) i || b) e

is_later_hop_lem :
    (i : ℕ) (d : Dict ℕ RedirectChain) → contains (all_consumed d) i ≡ is_later_hop d i
is_later_hop_lem i [] = refl
is_later_hop_lem i ((k, ch) ∷ d) = later_hop_of i ch.hops d (is_later_hop_lem i d)

-- what a flow is for: no static asset, and no later hop of one of the chains
abbrev pub has_flow : Dict ℕ RedirectChain → ClassifiedEntry → Bool
has_flow chains c =
    let dynamic : Bool = elim c.category [ static_asset ↦ false | _ ↦ true ] in
    dynamic && not (is_later_hop chains c.index)

-- the entries that get a flow
abbrev pub kept_entries : Dict ℕ RedirectChain → List ClassifiedEntry → List ClassifiedEntry
kept_entries chains = filter (has_flow chains)

-- the first index that a flow covers
abbrev pub first_covered : Flow → Option ℕ
first_covered fl = elim fl.har_entry_indices [ [] ↦ none | i ∷ is ↦ some i ]

module _ (u : Urls) (format_interval : Float64 → Text) where
  pub lookup-AreChains :
      (k : ℕ) (d : Dict ℕ RedirectChain) (ch : RedirectChain)
      → AreChains u d
      → lookup k d ≡ some ch
      → IsChain u k ch.hops
  unfolding lookup
  lookup-AreChains k [] ch h e = cc
  lookup-AreChains k ((j, w) ∷ d) ch h e = elim (Bool-cases (k == j)) [
    | inl same ↦
        let e' : some w ≡ some ch = rw same at e in
        let p : w ≡ ch = cc in let q : k ≡ j = ground arith in rw (q, ← p) h.0
    | inr other_ ↦ lookup-AreChains k d ch h.1 (rw other_ at e)
  ]

  build_chain_flow-covers :
      (n k : ℕ) (hops : List ClassifiedEntry) (fl : Flow)
      → IsChain u k hops
      → build_chain_flow u n (record { hops = hops }) ≡ some fl
      → (fl.flow_id ≡ n) × (first_covered fl ≡ some k)
  unfolding build_chain_flow
  build_chain_flow-covers n k [] fl h e = elim h [ ]
  build_chain_flow-covers n k (c ∷ cs) fl h e = ground arith

  -- a flow has the number that it is given, and its first index is its entry's
  flow_for_lem :
      (t : Tables) (n : ℕ) (c : ClassifiedEntry) (ids : Dict ℕ ℕ) (fl : Flow)
      → AreChains u t.chains
      → flow_for u format_interval t n c ids ≡ some fl
      → (fl.flow_id ≡ n) × (first_covered fl ≡ some c.index)
  unfolding flow_for build_simple_flow build_polling_first_flow
  flow_for_lem t n c ids fl h e = elim (Option-cases (lookup c.index t.chains)) [
    | inl none_ ↦ ground arith
    | inr (ch, found) ↦
        let e' : build_chain_flow u n ch ≡ some fl = rw (found, flow_for) at e in
        build_chain_flow-covers n c.index ch.hops fl (lookup-AreChains c.index t.chains ch h found)
          e'
  ]

  -- the flows are numbered on from `n`, and cover the kept entries one by one
  abbrev pub Numbers : Dict ℕ RedirectChain → ℕ → List ClassifiedEntry → List Flow → Type 0
  Numbers chains n cs fls =
      (map (λ fl. fl.flow_id) fls ≡ count_from n (length fls))
      × (map first_covered fls ≡ map (λ c. some c.index) (kept_entries chains cs))

  -- what a kept entry's step gives, if it gives something
  abbrev step_result :
      Tables → ℕ → Dict ℕ ℕ → ClassifiedEntry → List ClassifiedEntry → Option (List Flow)
  step_result t n ids c cs = do
    flow ← flow_for u format_interval t n c ids
    rest ← flow_loop u format_interval t (n + 1) ids cs
    some (flow ∷ rest)

  pub step_result_parts :
      (o : Option Flow) (p : Option (List Flow)) (fls : List Flow)
      → (o >>= λ flow. p >>= λ rest. some (flow ∷ rest)) ≡ some fls
      → (fl : Flow) × (rest : List Flow) × (o ≡ some fl) × (p ≡ some rest) × (fls ≡ fl ∷ rest)
  step_result_parts none p fls h = cc
  step_result_parts (some fl) none fls h = cc
  step_result_parts (some fl) (some rest) fls h = (fl, rest, refl, refl, cc)

  has_flow_of :
      (t : Tables) (c : ClassifiedEntry)
      → t.consumed ≡ all_consumed t.chains
      → has_flow t.chains c ≡ not (is_skipped t c)
  unfolding is_skipped
  has_flow_of t c same =
      rw (same, is_later_hop_lem c.index t.chains)
        (by_category c.category (is_later_hop t.chains c.index))
    where
      by_category :
          (k : Category) (b : Bool)
          → (elim k [ static_asset ↦ false | _ ↦ true ]) && not b
            ≡ not (if (elim k [ static_asset ↦ true | _ ↦ false ]) then true else b)
      by_category navigation b = refl
      by_category xhr_api b = refl
      by_category static_asset b = refl
      by_category other b = refl

  flow_loop-Numbers :
      (t : Tables) (n : ℕ) (ids : Dict ℕ ℕ) (cs : List ClassifiedEntry) (fls : List Flow)
      → AreChains u t.chains
      → t.consumed ≡ all_consumed t.chains
      → flow_loop u format_interval t n ids cs ≡ some fls
      → Numbers t.chains n cs fls
  unfolding flow_loop count_from
  flow_loop-Numbers t n ids [] fls ch same h = let e : [] ≡ fls = cc in rw (← e) (refl, refl)
  flow_loop-Numbers t n ids (c ∷ cs) fls ch same h = elim (Bool-cases (is_skipped t c)) [
    | inl skip ↦
        let dropped : has_flow t.chains c ≡ false = has_flow_of t c same ∙ ap not skip in
        rw dropped (flow_loop-Numbers t n ids cs fls ch same (rw skip at h))
    | inr keep ↦
        let ids' = insert c.index n ids in
        let (fl, rest, he, hr, split) =
          step_result_parts (flow_for u format_interval t n c ids')
            (flow_loop u format_interval t (n + 1) ids' cs) fls (rw keep at h) in
        let (id, covers) = flow_for_lem t n c ids' fl ch he in
        let (ids_ok, covered) = flow_loop-Numbers t (n + 1) ids' cs rest ch same hr in
        let stays : has_flow t.chains c ≡ true = has_flow_of t c same ∙ ap not keep in
        rw (split, stays) (ap₂ ◌∷◌ id ids_ok, ap₂ ◌∷◌ covers covered)
  ]

  -- The flows that `build_flows` returns are numbered 1, 2, 3 and on, and there is one for each entry
  -- that is no static asset and no later hop of a chain of `detect_redirect_chains`, in order of time,
  -- whose first index is that entry's.
  pub build_flows-Numbers :
      (f : FloatOps) (r : JsonReader) (classified : List ClassifiedEntry) (fls : List Flow)
      → build_flows u format_interval f r classified ≡ some fls
      → Numbers (detect_redirect_chains u classified) 1 (sort_by started_at classified) fls
  unfolding build_flows tables_of
  build_flows-Numbers f r classified fls h =
      flow_loop-Numbers (tables_of u f r classified) 1 [] (sort_by started_at classified) fls
        (detect_redirect_chains-AreChains u classified) refl
        (unguarded (build_flows_raises u f r classified) _ fls h)
