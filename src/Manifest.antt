-- ===== src/Manifest.antt =====
-- src/secondeye/analysis/manifest.py: flows, and the JSON objects that they are written as.
pub mod Flows
pub mod Stats
pub mod Laws
pub mod Totals
pub mod Indices
pub mod Complete
pub mod Returns
use second_eye.Prelude.{
  ℕ, ◌+◌, Bool, Option, none, some, List, [], ◌∷◌, ◌++◌, map, ◌==◌, list_eq, nat_eq, if◌then◌else◌,
}
use second_eye.Prelude.Text.{Text, codes, decimal, join}
use second_eye.Json.{
  Float64, Json, null, bool, int, flt, str, arr, obj, Items, nil, cons, Fields, end, field, put,
  Codecs,
}
use second_eye.Urls.{Urls}
use second_eye.Har.{HarEntry, header_value}
use second_eye.Har.Render.{iso_z}
use second_eye.Classify.{Category, navigation, xhr_api, static_asset, other, ClassifiedEntry}
use second_eye.Redirect.{RedirectChain, location}
use second_eye.Polling.{PollingGroup}

pub record RedirectHop : Type 0 where
  pub har_entry_index : ℕ
  pub url : Text
  pub status : ℕ
  pub location : Option Text

pub record PollingGroupInfo : Type 0 where
  pub occurrence_count : ℕ
  pub interval_seconds : Float64
  pub collapsed_har_entry_indices : List ℕ

pub record Flow : Type 0 where
  pub flow_id : ℕ
  pub started_at : ℕ
  pub category : Category
  pub har_entry_indices : List ℕ
  pub redirect_chain : Bool
  pub summary : Text
  pub redirect_hops : Option (List RedirectHop)
  pub polling_group : Option PollingGroupInfo
  pub collapsed_into : Option ℕ

-- `Category.value`
unfoldable pub category_value : Category → Text
category_value navigation = codes "navigation"
category_value xhr_api = codes "xhr-api"
category_value static_asset = codes "static-asset"
category_value other = codes "other"

-- `[to_json(x) for x in xs]`
unfoldable pub items {ℓ} : {A : Type ℓ} → (A → Json) → List A → Items
items g [] = nil
items g (x ∷ xs) = cons (g x) (items g xs)

-- `if x is not None: d[key] = to_json(x)`
unfoldable pub put_some {ℓ} : {A : Type ℓ} → Text → (A → Json) → Option A → Fields → Fields
put_some k g none d = d
put_some k g (some x) d = put k (g x) d

-- `x` as JSON, or null
unfoldable pub nullable {ℓ} : {A : Type ℓ} → (A → Json) → Option A → Json
nullable g none = null
nullable g (some x) = g x

unfoldable pub hop_to_manifest_dict : RedirectHop → Fields
unfolding put_some
hop_to_manifest_dict h = put_some (codes "location") str h.location (
    field (codes "har_entry_index") (int h.har_entry_index)
      (field (codes "url") (str h.url) (field (codes "status") (int h.status) end)))

unfoldable pub polling_to_manifest_dict : PollingGroupInfo → Fields
unfolding items
polling_to_manifest_dict p = field (codes "occurrence_count") (int p.occurrence_count) (
    field (codes "interval_seconds") (flt p.interval_seconds) (
      field (codes "collapsed_har_entry_indices") (arr (items int p.collapsed_har_entry_indices))
        end))

unfoldable pub flow_to_manifest_dict : Codecs → Flow → Fields
unfolding items put_some hop_to_manifest_dict polling_to_manifest_dict
flow_to_manifest_dict c f = put_some (codes "collapsed_into") int f.collapsed_into (
    put_some (codes "polling_group") (λ p. obj (polling_to_manifest_dict p)) f.polling_group
      (put_some (codes "redirect_hops") (λ hs. arr (items (λ h. obj (hop_to_manifest_dict h)) hs))
        f.redirect_hops
        (field (codes "flow_id") (int f.flow_id) (
          field (codes "started_at") (str (iso_z c f.started_at)) (
            field (codes "category") (str (category_value f.category)) (
              field (codes "har_entry_indices") (arr (items int f.har_entry_indices)) (
                field (codes "redirect_chain") (bool f.redirect_chain)
                  (field (codes "summary") (str f.summary) end))))))))

-- the arrow between the parts of a summary
abbrev pub arrow : Text
arrow = codes " → "

module _ (u : Urls) where
  unfoldable pub path_and_query : Text → Text
  path_and_query url =
      let parsed = u.urlsplit url in
      if parsed.query == [] then parsed.path else parsed.path ++ codes "?" ++ parsed.query

  unfoldable pub path_and_query_raises : Text → Bool
  path_and_query_raises url = u.split_raises url

  unfoldable pub summary_for_entry : HarEntry → Text
  summary_for_entry e =
      e.request.method
      ++ codes " "
      ++ path_and_query e.request.url
      ++ arrow
      ++ decimal e.response.status

  chain_parts : List ClassifiedEntry → List Text
  chain_parts [] = []
  chain_parts (h ∷ hs) =
      (h.entry.request.method ++ codes " " ++ path_and_query h.entry.request.url)
      ∷ decimal h.entry.response.status
      ∷ chain_parts hs

  unfoldable pub summary_for_chain : List ClassifiedEntry → Text
  unfolding chain_parts
  summary_for_chain hops = join arrow (chain_parts hops)

-- a hop is given its Location unless it is the last
unfoldable pub redirect_hops_of : List ClassifiedEntry → List RedirectHop
redirect_hops_of [] = []
redirect_hops_of (h ∷ []) =
    record {
      har_entry_index = h.index;
      url = h.entry.request.url;
      status = h.entry.response.status;
      location = none;
    }
    ∷ []
redirect_hops_of (h ∷ g ∷ hs) =
    record {
      har_entry_index = h.index;
      url = h.entry.request.url;
      status = h.entry.response.status;
      location = location h;
    }
    ∷ redirect_hops_of (g ∷ hs)
