-- ===== src/Render/Returns.antt =====
-- `render_analysis_md` returns on the flows of a capture where urllib and json do: no key is missing and
-- no assertion fails.
use second_eye.Prelude.{
  ℕ, zero, suc, ◌+◌, ◌≡◌, refl, true, Bool, Option, none, some, if◌then◌else◌, List, [], ◌∷◌, take,
  filter, All, ◌==◌, nat_eq, list_eq, contains, Bool-cases, if_cases, Option-cases, inl, inr,
}
use second_eye.Prelude.Text.{Text, codes, join}
use second_eye.Prelude.Dict.{Dict, insert, lookup, lookup-insert}
use second_eye.Har.{HarEntry, ◌>>=◌}
use second_eye.Classify.{
  Category, navigation, xhr_api, static_asset, other, ClassifiedEntry, classify_entries,
}
use second_eye.Manifest.{Flow, RedirectHop}
use second_eye.Redirect.{indices}
use second_eye.Render.{Layout}
use second_eye.Render.Sections.{
  entries_by_index, first_index, last_hop, render_navigation, later_parts, first_parts, hop_rows,
  render_hops, render_redirect_chain, render_xhr_api, render_other,
}
use second_eye.Render.Notes.{of_first, times_of, render_polling_note}
use second_eye.Render.Document.{
  Context, each, header_suffix, flow_heading_text, render_toc, exchange_lines,
  render_sequence_diagram, section_body, asset_note, polling_lines, render_outlier_note,
  render_debug_page_note, render_secret_findings_note, render_id_reuse_note, flow_lines,
  render_flow, flow_section, document_lines, is_narrative, narrative, context_of,
  render_analysis_md_raises, render_analysis_md,
}
use second_eye.Render.Sources.{IsSourced, HopListed, Listed, build_flows-IsSourced}
use second_eye.Manifest.Flows.{build_flows}
use second_eye.Signals.Reuse.{extract_id_shaped_values}
use second_eye.Signals.Notes.{compute_id_value_reuse_total}
use second_eye.Json.{Float64}

-- no exception
abbrev pub Returns {ℓ} : {A : Type ℓ} → Option A → Type ℓ
Returns {A = A} o = (a : A) × (o ≡ some a)

bind-Returns {ℓ κ} :
    {A : Type ℓ} {B : Type κ} (o : Option A) (f : A → Option B)
    → Returns o
    → ((a : A) → o ≡ some a → Returns (f a))
    → Returns (o >>= f)
bind-Returns o f (a, e) h = rw e (h a e)

each-Returns {ℓ κ} :
    {A : Type ℓ} {B : Type κ} (f : A → Option B) (xs : List A)
    → All (λ x. Returns (f x)) xs
    → Returns (each f xs)
unfolding each
each-Returns f [] h = ([], refl)
each-Returns f (x ∷ xs) h =
    let (y, e) = h.0 in let (ys, es) = each-Returns f xs h.1 in (y ∷ ys, rw (e, es) refl)

entries_by_index-lookup :
    (i : ℕ) (cs : List ClassifiedEntry) (d : Dict ℕ HarEntry)
    → Returns (lookup i d)
    → Returns (lookup i (entries_by_index d cs))
unfolding entries_by_index
entries_by_index-lookup i [] d h = h
entries_by_index-lookup i (c ∷ cs) d h = entries_by_index-lookup i cs (insert c.index c.entry d) (
    rw (lookup-insert i c.index c.entry d) (elim (Bool-cases (i == c.index)) [
      | inl same ↦ rw same (_, refl)
      | inr other_ ↦ rw other_ h
    ]))

All-filter {ℓ κ} :
    {A : Type ℓ} (P : A → Type κ) (p : A → Bool) (xs : List A) → All P xs → All P (filter p xs)
All-filter P p [] h = tt
All-filter P p (x ∷ xs) h = elim (Bool-cases (p x)) [
  | inl kept ↦ rw kept (h.0, All-filter P p xs h.1)
  | inr left ↦ rw left (All-filter P p xs h.1)
]

All-map {ℓ κ μ} :
    {A : Type ℓ} {P : A → Type κ} {Q : A → Type μ} (xs : List A)
    → All P xs
    → ((x : A) → P x → Q x)
    → All Q xs
All-map [] h f = tt
All-map (x ∷ xs) h f = (f x h.0, All-map xs h.1 f)

-- every index has its entry
pub entries_by_index-Returns :
    (i : ℕ) (cs : List ClassifiedEntry) (d : Dict ℕ HarEntry)
    → contains (indices cs) i ≡ true
    → Returns (lookup i (entries_by_index d cs))
unfolding entries_by_index
entries_by_index-Returns i [] d h = cc
entries_by_index-Returns i (c ∷ cs) d h = elim (Bool-cases (i == c.index)) [
  | inr other_ ↦ entries_by_index-Returns i cs _ (rw other_ at h)
  | inl same ↦
      entries_by_index-lookup i cs (insert c.index c.entry d)
        (rw (lookup-insert i c.index c.entry d, same) (_, refl))
]

-- the two ways to branch on a category
xhr_or {ℓ} :
    {A : Type ℓ} (c : Category) (x y : Option A)
    → Returns x
    → Returns y
    → Returns (elim c [ xhr_api ↦ x | _ ↦ y ])
xhr_or navigation x y p q = q
xhr_or xhr_api x y p q = p
xhr_or static_asset x y p q = q
xhr_or other x y p q = q

navigation_or {ℓ} :
    {A : Type ℓ} (c : Category) (x y : Option A)
    → Returns x
    → Returns y
    → Returns (elim c [ navigation ↦ x | _ ↦ y ])
navigation_or navigation x y p q = p
navigation_or xhr_api x y p q = q
navigation_or static_asset x y p q = q
navigation_or other x y p q = q

module _ (lay : Layout) (xs : List ℕ) (ctx : Context)
    (has : (i : ℕ) → contains xs i ≡ true → Returns (lookup i ctx.entries)) where
  later_parts-Returns :
      (hs : List RedirectHop) → All (HopListed xs) hs → Returns (later_parts lay ctx.entries hs)
  unfolding later_parts
  later_parts-Returns [] k = ([], refl)
  later_parts-Returns (h ∷ hs) k =
      let (e, found) = has h.har_entry_index k.0 in
      let (rest, made) = later_parts-Returns hs k.1 in rw (found, made) (_, refl)

  first_parts-Returns :
      (hs : List RedirectHop) → All (HopListed xs) hs → Returns (first_parts lay ctx.entries hs)
  unfolding first_parts
  first_parts-Returns [] k = ([], refl)
  first_parts-Returns (h ∷ hs) k =
      let (e, found) = has h.har_entry_index k.0 in
      let (rest, made) = later_parts-Returns hs k.1 in rw (found, made) (_, refl)

  hop_rows-Returns :
      (n : ℕ) (hs : List RedirectHop)
      → All (HopListed xs) hs
      → Returns (hop_rows lay ctx.entries n hs)
  unfolding hop_rows
  hop_rows-Returns n [] k = ([], refl)
  hop_rows-Returns n (h ∷ hs) k =
      let (e, found) = has h.har_entry_index k.0 in
      let (rest, made) = hop_rows-Returns (n + 1) hs k.1 in rw (found, made) (_, refl)

  last_hop-Listed :
      (h : RedirectHop) (hs : List RedirectHop)
      → All (HopListed xs) (h ∷ hs)
      → (l : RedirectHop) × (last_hop (h ∷ hs) ≡ some l) × HopListed xs l
  unfolding last_hop
  last_hop-Listed h [] k = (h, refl, k.0)
  last_hop-Listed h (g ∷ hs) k = last_hop-Listed g hs k.1

  render_hops-Returns :
      (h : RedirectHop) (hs : List RedirectHop)
      → All (HopListed xs) (h ∷ hs)
      → Returns (render_hops lay ctx.entries (h ∷ hs))
  unfolding render_hops
  render_hops-Returns h hs k =
      let (parts, p) = first_parts-Returns (h ∷ hs) k in
      let (rows, r) = hop_rows-Returns 1 (h ∷ hs) k in
      let (l, last, listed) = last_hop-Listed h hs k in
      let (e, found) = has l.har_entry_index listed in rw (p, r, last, found) (_, refl)

  module _ (fl : Flow) (sourced : IsSourced xs fl) where
    -- what reads the entry of the first index
    first-Returns {ℓ} :
        {B : Type ℓ} (f : ℕ → HarEntry → B)
        → Returns (first_index fl >>= λ i. lookup i ctx.entries >>= λ e. some (f i e))
    first-Returns f =
        let (i, first, listed) = sourced.first in
        let (e, found) = has i listed in (f i e, rw (first, found) refl)

    of_first-Returns {ℓ} : {A : Type ℓ} (d : Dict ℕ A) → Returns (of_first fl d)
    unfolding of_first
    of_first-Returns d = let (i, first, listed) = sourced.first in rw (of_first, first) (_, refl)

    header_suffix-Returns : Returns (header_suffix lay fl ctx.entries)
    unfolding header_suffix
    header_suffix-Returns = elim (Bool-cases fl.redirect_chain) [
      | inl chain ↦ rw chain (_, refl)
      | inr single ↦ rw single (xhr_or fl.category _ _ (first-Returns _) (_, refl))
    ]

    flow_heading_text-Returns : Returns (flow_heading_text lay fl ctx)
    unfolding flow_heading_text
    flow_heading_text-Returns =
        let (suffix, s) = header_suffix-Returns in
        let (i, first, listed) = sourced.first in rw (s, first) (_, refl)

    exchange_lines-Returns : Returns (exchange_lines lay ctx.entries fl)
    unfolding exchange_lines
    exchange_lines-Returns = first-Returns _

    render_redirect_chain-Returns :
        fl.redirect_chain ≡ true → Returns (render_redirect_chain lay fl ctx.entries)
    unfolding render_redirect_chain
    render_redirect_chain-Returns chain =
        let (h, hs, hops, listed) = sourced.hops chain in rw hops (render_hops-Returns h hs listed)

    section_body-Returns : Returns (section_body lay fl ctx)
    unfolding section_body render_navigation render_xhr_api render_other
    section_body-Returns =
        if_cases Returns fl.redirect_chain _ _ render_redirect_chain-Returns
          (λ single. by_kind fl.category (first-Returns _) (first-Returns _) (first-Returns _))
      where
        by_kind :
            (c : Category)
            → Returns (render_navigation lay fl ctx.entries)
            → Returns (render_xhr_api lay fl ctx.entries)
            → Returns (render_other lay fl ctx.entries)
            → Returns (elim c [
              | navigation ↦ render_navigation lay fl ctx.entries
              | xhr_api ↦ render_xhr_api lay fl ctx.entries
              | _ ↦ render_other lay fl ctx.entries
            ])
        by_kind navigation n x o = n
        by_kind xhr_api n x o = x
        by_kind static_asset n x o = o
        by_kind other n x o = o

    asset_note-Returns : Returns (asset_note lay fl ctx)
    unfolding asset_note
    asset_note-Returns =
        let (cluster, e) = of_first-Returns ctx.clusters in
        navigation_or fl.category _ _ (rw e (_, refl)) (_, refl)

    times_of-Returns : (is : List ℕ) → Listed xs is → Returns (times_of lay ctx.entries is)
    unfolding times_of
    times_of-Returns [] h = ([], refl)
    times_of-Returns (i ∷ is) h =
        let (e, found) = has i h.0 in
        let (rest, made) = times_of-Returns is h.1 in rw (found, made) (_, refl)

    take-Listed : (n : ℕ) (is : List ℕ) → Listed xs is → Listed xs (take n is)
    take-Listed zero is h = tt
    take-Listed (suc n) [] h = tt
    take-Listed (suc n) (i ∷ is) h = (h.0, take-Listed n is h.1)

    polling_lines-Returns : Returns (polling_lines lay fl ctx)
    unfolding polling_lines render_polling_note
    polling_lines-Returns = elim (Option-cases fl.polling_group) [
      | inl none_ ↦ rw none_ (_, refl)
      | inr (g, there) ↦
          let listed = sourced.polls g there in
          let (times, t) =
            times_of-Returns (take 3 g.collapsed_har_entry_indices) (take-Listed 3 _ listed) in
          rw (there, t) (_, refl)
    ]

    flow_lines-Returns : Returns (flow_lines lay fl ctx)
    unfolding flow_lines render_outlier_note render_debug_page_note render_secret_findings_note
        render_id_reuse_note
    flow_lines-Returns =
        let (body, b) = section_body-Returns in
        let (assets, a) = asset_note-Returns in
        let (polling, p) = polling_lines-Returns in
        let (timing, t) = of_first-Returns ctx.timing_outliers in
        let (size, s) = of_first-Returns ctx.size_outliers in
        let (debug, d) = of_first-Returns ctx.debug_page_hints in
        let (secrets, c) = of_first-Returns ctx.secret_findings in
        let (reuse, r) = of_first-Returns ctx.id_value_reuse in
        let (i, first, listed) = sourced.first in rw (b, a, p, t, s, d, c, r, first) (_, refl)

    flow_section-Returns : Returns (flow_section lay ctx fl)
    unfolding flow_section render_flow
    flow_section-Returns =
        let (heading, h) = flow_heading_text-Returns in
        let (lines, l) = flow_lines-Returns in rw (h, l) (_, refl)

  -- the sections of all flows, the contents and the diagram
  pub document_lines-Returns :
      (name : Text) (targets : List Text) (started_at ended_at : ℕ)
      (classified : List ClassifiedEntry) (fls : List Flow)
      → All (IsSourced xs) fls
      → Returns (document_lines lay name targets started_at ended_at classified fls ctx)
  unfolding document_lines render_sequence_diagram render_toc
  document_lines-Returns name targets started_at ended_at classified fls h =
      let h' = All-filter (IsSourced xs) is_narrative fls h in
      let (diagram, d) =
        each-Returns _ (narrative fls) (All-map (narrative fls) h' exchange_lines-Returns) in
      let (toc, t) =
        each-Returns _ (narrative fls) (All-map (narrative fls) h' flow_heading_text-Returns) in
      let (sections, s) =
        each-Returns _ (narrative fls) (All-map (narrative fls) h' flow_section-Returns) in
      rw (d, t, s) (_, refl)

pub context_of-Returns :
    (lay : Layout) (classified : List ClassifiedEntry)
    → (ctx : Context) × (context_of lay classified ≡ some ctx)
      × (ctx.entries ≡ entries_by_index [] classified)
unfolding context_of
context_of-Returns lay classified =
    let extract = extract_id_shaped_values lay.codecs lay.urls lay.reader in
    let (reuse, r) = compute_id_value_reuse_total lay.as_set extract classified in
    rw r (_, refl, refl)

pub render_analysis_md-build_flows :
    (lay : Layout) (format_interval : Float64 → Text) (name : Text) (targets : List Text)
    (started_at ended_at : ℕ) (es : List HarEntry) (fls : List Flow)
    → let classified = classify_entries lay.urls es in
      build_flows lay.urls format_interval lay.floats lay.reader classified ≡ some fls
      → (text : Text) × (render_analysis_md lay name targets started_at ended_at classified fls
          ≡ (if render_analysis_md_raises lay classified fls then none else some text))
unfolding render_analysis_md
render_analysis_md-build_flows lay format_interval name targets started_at ended_at es fls made =
    let classified = classify_entries lay.urls es in
    let sourced =
      build_flows-IsSourced lay.urls lay.floats lay.reader format_interval classified fls made in
    let (ctx, c, entries) = context_of-Returns lay classified in
    let (lines, l) =
      document_lines-Returns lay (indices classified) ctx
        (λ i m. rw entries (entries_by_index-Returns i classified [] m)) name targets started_at
        ended_at classified fls sourced in
    (join (codes "\n") lines, rw (c, l) refl)
