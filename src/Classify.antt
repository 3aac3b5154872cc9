-- ===== src/Classify.antt =====
-- src/secondeye/analysis/classify.py: the traffic category of each entry.
pub mod Laws
use second_eye.Prelude.{
  ℕ, ◌+◌, Bool, true, false, ◌&&◌, ◌||◌, not, Option, none, some, List, [], ◌∷◌, ◌==◌, list_eq,
  nat_eq, option_eq, contains, if◌then◌else◌,
}
use second_eye.Prelude.Text.{Text, codes, lower, strip, starts_with, ends_with, before_char}
use second_eye.Urls.{Urls}
use second_eye.Har.{HarEntry, header_value}
use second_eye.Har.Render.{or_text}

pub data Category : Type 0 where
  navigation xhr_api static_asset other : Category

pub record ClassifiedEntry : Type 0 where
  pub index : ℕ
  pub entry : HarEntry
  pub category : Category
  pub confirmed : Bool

static_asset_content_types : List Text
static_asset_content_types = codes "text/css" ∷ codes "application/javascript" ∷ []

static_asset_extensions : List Text
static_asset_extensions =
    codes ".js"
    ∷ codes ".css"
    ∷ codes ".woff2"
    ∷ codes ".png"
    ∷ codes ".svg"
    ∷ codes ".jpg"
    ∷ codes ".ico"
    ∷ []

unfoldable pub is_static_asset_content_type : Text → Bool
unfolding static_asset_content_types
is_static_asset_content_type base =
    contains static_asset_content_types base
    || (starts_with base (codes "font/") || starts_with base (codes "image/"))

-- `path.endswith(extensions)`
ends_with_any : Text → List Text → Bool
ends_with_any s [] = false
ends_with_any s (e ∷ es) = ends_with s e || ends_with_any s es

is_present : Option Text → Bool
is_present none = false
is_present (some _) = true

-- `mode in ("cors", "same-origin")`
unfoldable pub is_script_mode : Option Text → Bool
is_script_mode mode = mode == some (codes "cors") || mode == some (codes "same-origin")

unfoldable pub content_type_base : HarEntry → Text
content_type_base e =
    lower (
      strip
        (before_char b';' (or_text (header_value e.response.headers (codes "content-type")) [])))

module _ (u : Urls) where
  unfoldable pub has_static_asset_extension : Text → Bool
  unfolding static_asset_extensions ends_with_any
  has_static_asset_extension url =
      ends_with_any (lower (u.urlsplit url).path) static_asset_extensions

  unfoldable pub has_static_asset_extension_raises : Text → Bool
  has_static_asset_extension_raises url = u.split_raises url

  -- the heuristics, where Sec-Fetch-* says nothing
  unfoldable pub classify_by_content : HarEntry → Category
  classify_by_content e =
      let base = content_type_base e in
      if starts_with base (codes "text/html") && e.request.method == codes "GET"
      then navigation
      else if (base == codes "application/json" || base == codes "application/xml")
          || not (e.request.body == [])
      then xhr_api
      else if is_static_asset_content_type base || has_static_asset_extension e.request.url
      then static_asset
      else other

  -- the extension is the last test but one
  unfoldable pub classify_by_content_raises : HarEntry → Bool
  classify_by_content_raises e =
      let base = content_type_base e in
      if starts_with base (codes "text/html") && e.request.method == codes "GET"
      then false
      else if (base == codes "application/json" || base == codes "application/xml")
          || not (e.request.body == [])
      then false
      else if is_static_asset_content_type base
      then false
      else has_static_asset_extension_raises e.request.url

  unfoldable pub classify_entry_detailed : HarEntry → Category × Bool
  unfolding is_present
  classify_entry_detailed e =
      let mode = header_value e.request.headers (codes "sec-fetch-mode") in
      if mode == some (codes "navigate")
      then (navigation, true)
      else if is_script_mode mode
          && is_present (header_value e.request.headers (codes "x-requested-with"))
      then (xhr_api, true)
      else (classify_by_content e, false)

  unfoldable pub classify_entry_detailed_raises : HarEntry → Bool
  unfolding is_present
  classify_entry_detailed_raises e =
      let mode = header_value e.request.headers (codes "sec-fetch-mode") in
      if mode == some (codes "navigate")
      then false
      else if is_script_mode mode
          && is_present (header_value e.request.headers (codes "x-requested-with"))
      then false
      else classify_by_content_raises e

  unfoldable pub classify_entry : HarEntry → Category
  classify_entry e = (classify_entry_detailed e).0

  classify_from : ℕ → List HarEntry → List ClassifiedEntry
  classify_from i [] = []
  classify_from i (e ∷ es) =
      let (category, confirmed) = classify_entry_detailed e in
      record { index = i; entry = e; category = category; confirmed = confirmed }
      ∷ classify_from (i + 1) es

  unfoldable pub classify_entries : List HarEntry → List ClassifiedEntry
  unfolding classify_from
  classify_entries = classify_from 0

  unfoldable pub classify_entries_raises : List HarEntry → Bool
  classify_entries_raises [] = false
  classify_entries_raises (e ∷ es) = classify_entry_detailed_raises e || classify_entries_raises es
