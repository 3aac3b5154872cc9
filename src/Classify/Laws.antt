-- ===== src/Classify/Laws.antt =====
-- What the flags of a classification mean, and what `classify_entries` keeps of the list.
use second_eye.Prelude.{
  ℕ, zero, suc, ◌+◌, ◌≡◌, ◌≢◌, ◌⊎◌, ◌↔◌, refl, ap, true, false, none, some, List, [], ◌∷◌, arith,
  length, map, list_eq, nat_eq, option_eq,
}
use second_eye.Prelude.Text.{codes, starts_with}
use second_eye.Urls.{Urls}
use second_eye.Har.{HarEntry, header_value}
use second_eye.Classify.{
  navigation, xhr_api, static_asset, is_script_mode, content_type_base,
  is_static_asset_content_type, has_static_asset_extension, classify_by_content,
  classify_entry_detailed, classify_entry, classify_from, classify_entries,
}

-- the numbers from `i` on, `n` of them
unfoldable pub count_from : ℕ → ℕ → List ℕ
count_from i zero = []
count_from i (suc n) = i ∷ count_from (i + 1) n

-- What Sec-Fetch-* says of an entry, in the words of the specification.
abbrev pub SecFetchNavigate : HarEntry → Type 0
SecFetchNavigate e =
    header_value e.request.headers (codes "sec-fetch-mode") ≡ some (codes "navigate")

abbrev pub SecFetchScript : HarEntry → Type 0
SecFetchScript e =
    ((header_value e.request.headers (codes "sec-fetch-mode") ≡ some (codes "cors"))
      ⊎ (header_value e.request.headers (codes "sec-fetch-mode") ≡ some (codes "same-origin")))
    × (header_value e.request.headers (codes "x-requested-with") ≢ none)

module _ (u : Urls) where
  -- no request body, no JSON or XML, no HTML answer to a GET, and a static type or extension
  abbrev pub LooksStatic : HarEntry → Type 0
  LooksStatic e =
      (e.request.body ≡ [])
      × (content_type_base e ≢ codes "application/json")
      × (content_type_base e ≢ codes "application/xml")
      × ((starts_with (content_type_base e) (codes "text/html") ≡ false)
          ⊎ (e.request.method ≢ codes "GET"))
      × ((is_static_asset_content_type (content_type_base e) ≡ true)
          ⊎ (has_static_asset_extension u e.request.url ≡ true))

  -- A category is confirmed exactly when Sec-Fetch-Mode is `navigate`, or is `cors` or `same-origin`
  -- with X-Requested-With present; it is then navigation in the first case and xhr-api in the other.
  pub confirmed_iff :
      (e : HarEntry)
      → ((classify_entry_detailed u e).1 ≡ true) ↔ (
          SecFetchNavigate e × (classify_entry u e ≡ navigation)
          ⊎ SecFetchScript e × (classify_entry u e ≡ xhr_api))
  unfolding classify_entry_detailed classify_entry is_script_mode
  confirmed_iff e = (λ h. ground arith, λ h. ground arith)

  -- The heuristics call an entry a static asset exactly when it has no request body, no JSON or XML
  -- type, is no HTML answer to a GET, and has a static type or extension.
  pub static_asset_iff : (e : HarEntry) → (classify_by_content u e ≡ static_asset) ↔ LooksStatic e
  unfolding classify_by_content
  static_asset_iff e = (λ h. ground arith, λ h. ground arith)

  index-classify_from :
      (i : ℕ) (es : List HarEntry)
      → map (λ c. c.index) (classify_from u i es) ≡ count_from i (length es)
  unfolding classify_from count_from
  index-classify_from i [] = refl
  index-classify_from i (e ∷ es) = ap (λ l. i ∷ l) (index-classify_from (i + 1) es)

  entry-classify_from :
      (i : ℕ) (es : List HarEntry) → map (λ c. c.entry) (classify_from u i es) ≡ es
  unfolding classify_from
  entry-classify_from i [] = refl
  entry-classify_from i (e ∷ es) = ap (λ l. e ∷ l) (entry-classify_from (i + 1) es)

  category-classify_from :
      (i : ℕ) (es : List HarEntry)
      → map (λ c. (c.category, c.confirmed)) (classify_from u i es)
        ≡ map (classify_entry_detailed u) es
  unfolding classify_from
  category-classify_from i [] = refl
  category-classify_from i (e ∷ es) =
      ap (λ l. classify_entry_detailed u e ∷ l) (category-classify_from (i + 1) es)

  -- `classify_entries` keeps the list: entry i stands at place i with index i, unchanged, and has the
  -- category and the flag that classifying it alone gives.
  pub classify_entries_lem :
      (es : List HarEntry)
      → (map (λ c. c.index) (classify_entries u es) ≡ count_from 0 (length es))
        × (map (λ c. c.entry) (classify_entries u es) ≡ es)
        × (map (λ c. (c.category, c.confirmed)) (classify_entries u es)
            ≡ map (classify_entry_detailed u) es)
  unfolding classify_entries
  classify_entries_lem es =
      (index-classify_from 0 es, entry-classify_from 0 es, category-classify_from 0 es)
