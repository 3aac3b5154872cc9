-- ===== src/Manifest/Complete.antt =====
-- `build_flows` returns: every key that it looks up is there.
use second_eye.Prelude.{
  ℕ, ◌+◌, ◌≡◌, ◌≢◌, refl, true, false, none, some, List, [], ◌∷◌, ◌++◌, arith, All, All-append,
  ◌==◌, nat_eq, list_eq, contains, Distinct, Bool-cases, Option-cases, inl, inr,
}
use mathlib.Core.List.{append_assoc, map-append}
use second_eye.Prelude.Dict.{Dict, insert, lookup, lookup-insert, lookup-insert_self}
use second_eye.Polling.{PollingGroup}
use second_eye.Classify.{ClassifiedEntry}
use second_eye.Polling.Order.{is_subsequence}
use second_eye.Json.{Float64}
use second_eye.Prelude.Text.{Text}
use second_eye.Urls.{Urls}
use second_eye.Redirect.{RedirectChain, indices}
use second_eye.Redirect.Laws.{IsChain, AreChains}
use second_eye.Manifest.{Flow}
use second_eye.Manifest.Laws.{lookup-AreChains}
use second_eye.Manifest.Flows.{
  build_polling_first_flow, build_simple_flow, flow_for, flow_loop, build_chain_flow, Tables,
  is_skipped, later, collapsed_occurrences, insert_all,
}
use second_eye.Manifest.Indices.{before, contains_of_before}

pub subsequence_contains :
    (xs ys : List ℕ) (i : ℕ)
    → is_subsequence xs ys ≡ true
    → contains xs i ≡ true
    → contains ys i ≡ true
subsequence_contains [] ys i h m = cc
subsequence_contains (x ∷ xs) [] i h m = cc
subsequence_contains (x ∷ xs) (y ∷ ys) i h m =
    ground (arith, subsequence_contains (x ∷ xs) ys i, subsequence_contains xs ys i)

-- the first of a subsequence stands in front of the others
pub subsequence_before :
    (f : ℕ) (rest ys : List ℕ) (i : ℕ)
    → is_subsequence (f ∷ rest) ys ≡ true
    → contains rest i ≡ true
    → before ys f i ≡ true
subsequence_before f rest [] i h m = cc
subsequence_before f rest (y ∷ ys) i h m =
    ground (arith, subsequence_before f rest ys i, subsequence_contains rest ys i)

-- a group whose first occurrence is an index of `xs`, in front of the others in `ys`
abbrev pub Good : List ℕ → List ℕ → PollingGroup → Type 0
Good xs ys g =
    (contains xs g.first_index ≡ true)
    × ((i : ℕ) → contains (later g.occurrence_indices) i ≡ true → before ys g.first_index i ≡ true)

-- what the table of collapsed occurrences gives for an index
abbrev pub Collapses : List ℕ → List ℕ → ℕ → PollingGroup → Type 0
Collapses xs ys i g = (contains xs g.first_index ≡ true) × (before ys g.first_index i ≡ true)

abbrev pub AllCollapse : List ℕ → List ℕ → Dict ℕ PollingGroup → Type 0
AllCollapse xs ys d = (i : ℕ) (g : PollingGroup) → lookup i d ≡ some g → Collapses xs ys i g

module _ (xs ys : List ℕ) where
  insert_all-AllCollapse :
      (is : List ℕ) (g : PollingGroup) (d : Dict ℕ PollingGroup)
      → ((i : ℕ) → contains is i ≡ true → Collapses xs ys i g)
      → AllCollapse xs ys d
      → AllCollapse xs ys (insert_all is g d)
  unfolding insert_all
  insert_all-AllCollapse [] g d new old = old
  insert_all-AllCollapse (k ∷ is) g d new old =
      insert_all-AllCollapse is g (insert k g d) (λ i m. new i (ground arith))
        (λ i h e. elim (Bool-cases (i == k)) [
          | inl same ↦
              let found : some g ≡ some h = rw (lookup-insert i k g d, same) at e in
              let p : g ≡ h = cc in rw (← p) (new i (ground arith))
          | inr apart ↦ old i h (rw (lookup-insert i k g d, apart) at e)
        ])

  pub collapsed_occurrences-AllCollapse :
      (gs : List PollingGroup) (d : Dict ℕ PollingGroup)
      → All (Good xs ys) gs
      → AllCollapse xs ys d
      → AllCollapse xs ys (collapsed_occurrences d gs)
  unfolding collapsed_occurrences
  collapsed_occurrences-AllCollapse [] d h old = old
  collapsed_occurrences-AllCollapse (g ∷ gs) d h old =
      collapsed_occurrences-AllCollapse gs (insert_all (later g.occurrence_indices) g d) h.1
        (insert_all-AllCollapse (later g.occurrence_indices) g d (λ i m. (h.0.0, h.0.1 i m)) old)

Distinct-middle :
    (ps ks : List ℕ) (j : ℕ)
    → Distinct (ps ++ j ∷ ks)
    → (contains ps j ≡ false) × (contains ks j ≡ false)
Distinct-middle [] ks j h = (refl, h.0)
Distinct-middle (p ∷ ps) ks j h = (
  ground (arith, Distinct-middle ps ks j h.1, contains-middle p ps ks j),
  (Distinct-middle ps ks j h.1).1,
)
  where
    contains-middle : (i : ℕ) (ps ks : List ℕ) (j : ℕ) → i ≡ j → contains (ps ++ j ∷ ks) i ≡ true
    contains-middle i [] ks j e = ground arith
    contains-middle i (p ∷ ps) ks j e = ground (arith, contains-middle i ps ks j e)

module _ (t : Tables) (xs : List ℕ) where
  -- the entries whose index is in `xs` are kept
  abbrev pub Kept : ClassifiedEntry → Type 0
  Kept e = contains xs e.index ≡ true → is_skipped t e ≡ false

  -- the kept entries have a flow number
  abbrev pub HasIds : Dict ℕ ℕ → List ClassifiedEntry → Type 0
  HasIds ids = All (λ e. is_skipped t e ≡ false → lookup e.index ids ≢ none)

  id_of_index :
      (ps : List ClassifiedEntry) (ids : Dict ℕ ℕ) (f : ℕ)
      → All Kept ps
      → HasIds ids ps
      → contains (indices ps) f ≡ true
      → contains xs f ≡ true
      → lookup f ids ≢ none
  id_of_index [] ids f k h m x = cc
  id_of_index (p ∷ ps) ids f k h m x = elim (Bool-cases (f == p.index)) [
    | inl same ↦
        let e : f ≡ p.index = ground arith in
        let x' : contains xs p.index ≡ true = rw e at x in rw e (h.0 (k.0 x'))
    | inr apart ↦ id_of_index ps ids f k.1 h.1 (rw apart at m) x
  ]

  HasIds-insert :
      (ps : List ClassifiedEntry) (ids : Dict ℕ ℕ) (i n : ℕ)
      → HasIds ids ps
      → HasIds (insert i n ids) ps
  HasIds-insert [] ids i n h = tt
  HasIds-insert (p ∷ ps) ids i n h = (
    λ kept e. ground (arith, h.0 kept, lookup-insert p.index i n ids),
    HasIds-insert ps ids i n h.1,
  )

module _ (u : Urls) (format_interval : Float64 → Text) (t : Tables) (xs : List ℕ) where
  build_chain_flow_total :
      (n k : ℕ) (ch : RedirectChain)
      → IsChain u k ch.hops
      → (fl : Flow) × (build_chain_flow u n ch ≡ some fl)
  unfolding build_chain_flow
  build_chain_flow_total n k ch h = of_hops ch.hops h
    where
      of_hops :
          (hops : List ClassifiedEntry)
          → IsChain u k hops
          → (fl : Flow) × (build_chain_flow u n (record { hops = hops }) ≡ some fl)
      of_hops [] h = elim h [ ]
      of_hops (c ∷ cs) h = (_, refl)

  flow_for_total :
      (n : ℕ) (c : ClassifiedEntry) (ids : Dict ℕ ℕ)
      → AreChains u t.chains
      → ((g : PollingGroup) → lookup c.index t.collapsed ≡ some g → lookup g.first_index ids ≢ none)
      → (fl : Flow) × (flow_for u format_interval t n c ids ≡ some fl)
  unfolding flow_for build_chain_flow
  flow_for_total n c ids chains firsts = elim (Option-cases (lookup c.index t.chains)) [
    | inr (ch, found) ↦
        let is_chain = lookup-AreChains u format_interval c.index t.chains ch chains found in
        let (fl, e) = build_chain_flow_total n c.index ch is_chain in (fl, rw (found, flow_for) e)
    | inl no_chain ↦ elim (Option-cases (lookup c.index t.first)) [
      | inr (g, first) ↦
          (build_polling_first_flow u format_interval n c g, rw (no_chain, first, flow_for) refl)
      | inl no_first ↦ elim (Option-cases (lookup c.index t.collapsed)) [
        | inl simple ↦
            (build_simple_flow u n c none, rw (no_chain, no_first, simple, flow_for) refl)
        | inr (g, collapsed) ↦ elim (Option-cases (lookup g.first_index ids)) [
          | inl missing ↦ absurd (firsts g collapsed missing)
          | inr (into, there) ↦ (
            build_simple_flow u n c (some into),
            rw (no_chain, no_first, collapsed, there, flow_for) refl,
          )
        ]
      ]
    ]
  ]

  pub flow_loop_total :
      (ps cs : List ClassifiedEntry) (n : ℕ) (ids : Dict ℕ ℕ)
      → AreChains u t.chains
      → Distinct (indices ps ++ indices cs)
      → AllCollapse xs (indices ps ++ indices cs) t.collapsed
      → All (Kept t xs) ps
      → All (Kept t xs) cs
      → HasIds t xs ids ps
      → (fls : List Flow) × (flow_loop u format_interval t n ids cs ≡ some fls)
  unfolding flow_loop
  flow_loop_total ps [] n ids chains new collapse kp kc has = ([], refl)
  flow_loop_total ps (c ∷ cs) n ids chains new collapse kp kc has =
      let (before_c, after_c) = Distinct-middle (indices ps) (indices cs) c.index new in
      let same_order : indices (ps ++ c ∷ []) ++ indices cs ≡ indices ps ++ indices (c ∷ cs) =
        rw (map-append (λ (e : ClassifiedEntry). e.index) ps (c ∷ []))
          (append_assoc (indices ps) (c.index ∷ []) (indices cs)) in
      let new' : Distinct (indices (ps ++ c ∷ []) ++ indices cs) = rw same_order new in
      let collapse' : AllCollapse xs (indices (ps ++ c ∷ []) ++ indices cs) t.collapsed =
        rw same_order collapse in
      let kp' = All-append (Kept t xs) ps (c ∷ []) kp (kc.0, tt) in
      elim (Bool-cases (is_skipped t c)) [
        | inl skip ↦ rw skip (
            flow_loop_total (ps ++ c ∷ []) cs n ids chains new' collapse' kp' kc.1 (
              All-append (λ e. is_skipped t e ≡ false → lookup e.index ids ≢ none) ps (c ∷ []) has
                (λ kept e. cc, tt)))
        | inr keep ↦
            let ids' = insert c.index n ids in
            let has' = HasIds-insert t xs ps ids c.index n has in
            let (fl, made) = flow_for_total n c ids' chains (λ g found.
              let (x, b) = collapse c.index g found in
              id_of_index t xs ps ids' g.first_index kp has'
                (contains_of_before (indices ps) (indices cs) g.first_index c.index before_c after_c
                  b)
                x) in
            let (rest, made') =
              flow_loop_total (ps ++ c ∷ []) cs (n + 1) ids' chains new' collapse' kp' kc.1 (
                All-append (λ e. is_skipped t e ≡ false → lookup e.index ids' ≢ none) ps (c ∷ [])
                  has' (λ _ e. ground (arith, lookup-insert_self c.index n ids), tt)) in
            (fl ∷ rest, rw (keep, made, made') refl)
      ]
