-- ===== src/Manifest/Stats.antt =====
-- `_build_stats` and `build_manifest`.
use second_eye.Prelude.{
  ℕ, ◌+◌, any, Bool, Option, none, some, List, [], ◌∷◌, length, ◌==◌, list_eq, nat_eq, contains,
  if◌then◌else◌,
}
use second_eye.Prelude.Text.{Text, codes, text_leb}
use second_eye.Json.{bool, int, flt, str, arr, obj, Fields, end, field, Codecs}
use second_eye.Urls.{Urls}
use second_eye.Har.Render.{iso_z}
use second_eye.Classify.{Category, navigation, xhr_api, static_asset, other, ClassifiedEntry}
use second_eye.Polling.{FloatOps}
use second_eye.Manifest.{Flow, category_value, items, nullable, flow_to_manifest_dict}

pub record Stats : Type 0 where
  pub navigation_count : ℕ
  pub xhr_api_count : ℕ
  pub static_asset_count : ℕ
  pub other_count : ℕ
  pub total_bytes : ℕ
  pub domains : List Text

abbrev pub no_stats : Stats
no_stats = record {
  navigation_count = 0;
  xhr_api_count = 0;
  static_asset_count = 0;
  other_count = 0;
  total_bytes = 0;
  domains = [];
}

-- `by_category[c.category.value] += 1`
unfoldable pub count_category : Category → Stats → Stats
count_category navigation s = record s { navigation_count = s.navigation_count + 1 }
count_category xhr_api s = record s { xhr_api_count = s.xhr_api_count + 1 }
count_category static_asset s = record s { static_asset_count = s.static_asset_count + 1 }
count_category other s = record s { other_count = s.other_count + 1 }

-- `if hostname: domains.add(hostname)`
unfoldable pub add_domain : Option Text → List Text → List Text
add_domain none ds = ds
add_domain (some h) ds = if h == [] then ds else if contains ds h then ds else h ∷ ds

abbrev pub body_bytes : ClassifiedEntry → ℕ
body_bytes c = length c.entry.request.body + length c.entry.response.body

unfoldable pub stats_loop : Urls → Stats → List ClassifiedEntry → Stats
stats_loop u s [] = s
stats_loop u s (c ∷ cs) =
    let s' = count_category c.category s in
    stats_loop u
      (record s' {
        total_bytes = s'.total_bytes + body_bytes c;
        domains = add_domain (u.urlsplit c.entry.request.url).hostname s'.domains;
      })
      cs

insert_text : Text → List Text → List Text
insert_text x [] = x ∷ []
insert_text x (y ∷ ys) = if text_leb x y then x ∷ y ∷ ys else y ∷ insert_text x ys

-- `sorted(domains)`
unfoldable pub sort_texts : List Text → List Text
unfolding insert_text
sort_texts [] = []
sort_texts (x ∷ xs) = insert_text x (sort_texts xs)

-- whether it raises: the URL of each entry is split
unfoldable pub build_stats_raises : Urls → List ClassifiedEntry → Bool
build_stats_raises u = any (λ (c : ClassifiedEntry). u.split_raises c.entry.request.url)

unfoldable pub build_stats : Urls → List ClassifiedEntry → Fields
build_stats u classified =
    let s = stats_loop u no_stats classified in
    field (codes "total_requests") (int (length classified)) (
      field (codes "by_category")
        (obj (
          field (category_value navigation) (int s.navigation_count) (
            field (category_value xhr_api) (int s.xhr_api_count) (
              field (category_value static_asset) (int s.static_asset_count)
                (field (category_value other) (int s.other_count) end)))))
        (field (codes "total_bytes_transferred") (int s.total_bytes)
          (field (codes "domains_seen") (arr (items str (sort_texts s.domains))) end)))

-- The fixed configuration of a run, as `CaptureManager` keeps it.
pub record ScopeConfig : Type 0 where
  pub targets : List Text
  pub target_regex : Option (List Text)
  pub target_all : Bool
  pub upstream : Option Text
  pub no_upstream : Bool

-- also `CaptureManager.scope_summary`
unfoldable pub scope_summary : ScopeConfig → Fields
scope_summary s = field (codes "targets") (arr (items str s.targets)) (
    field (codes "target_regex") (nullable (λ ps. arr (items str ps)) s.target_regex) (
      field (codes "target_all") (bool s.target_all) (
        field (codes "upstream") (nullable str s.upstream)
          (field (codes "no_upstream") (bool s.no_upstream) end))))

unfoldable pub build_manifest :
    Codecs
    → FloatOps
    → Urls
    → Text
    → ℕ
    → ℕ
    → ScopeConfig
    → List ClassifiedEntry
    → List Flow
    → Fields
build_manifest c f u name started_at ended_at scope classified flows =
    field (codes "schema_version") (str (codes "1.0")) (
      field (codes "capture")
        (obj (
          field (codes "name") (str name) (
            field (codes "started_at") (str (iso_z c started_at)) (
              field (codes "ended_at") (str (iso_z c ended_at)) (
                field (codes "duration_ms")
                  (flt (f.fmul (f.seconds_between ended_at started_at) (f.of_int 1000))) end)))))
        (field (codes "scope") (obj (scope_summary scope)) (
          field (codes "stats") (obj (build_stats u classified)) (
            field (codes "flows") (arr (items (λ fl. obj (flow_to_manifest_dict c fl)) flows))
              end))))
