-- ===== src/Signals.antt =====
-- src/secondeye/analysis/signals.py: what the functions share.
pub mod Rollup
pub mod Headers
pub mod Bodies
pub mod Reuse
pub mod Outliers
pub mod Endpoints
pub mod Counts
pub mod Notes
pub mod Cookies
use second_eye.Prelude.{
  ℕ, ◌+◌, Bool, true, false, ◌&&◌, not, Option, none, some, List, [], ◌∷◌, ◌++◌, filter, ◌==◌,
  list_eq, nat_eq, contains, if◌then◌else◌,
}
use second_eye.Prelude.Text.{Text, codes, lower, has_substring}
use second_eye.Prelude.Dict.{Dict, insert, lookup}
use second_eye.Json.{Json, obj, Fields, end, field}
use second_eye.Har.{HarEntry, header_value}
use second_eye.Har.Render.{or_text}
use second_eye.Classify.{Category, navigation, xhr_api, static_asset, other, ClassifiedEntry}
use second_eye.Polling.{JsonReader}
use second_eye.Manifest.Flows.{is_static}

-- `[c for c in classified if c.category != Category.STATIC_ASSET]`
abbrev pub candidates : List ClassifiedEntry → List ClassifiedEntry
candidates = filter (λ c. not (is_static c))

-- whether reading it raises
unfoldable pub json_body_raises : JsonReader → HarEntry → Bool
json_body_raises r e =
    let content_type = or_text (header_value e.request.headers (codes "content-type")) [] in
    has_substring (lower content_type) (codes "json")
    && (not (e.request.body == []) && r.loads_raises e.request.body)

-- the top-level JSON object of a request body, if its type says JSON and it is one
unfoldable pub json_body : JsonReader → HarEntry → Option Fields
json_body r e =
    let content_type = or_text (header_value e.request.headers (codes "content-type")) [] in
    let parsed : Option Fields = elim (r.loads e.request.body) [
      | some (obj fs) ↦ some fs
      | _ ↦ none
    ] in
    if has_substring (lower content_type) (codes "json") && not (e.request.body == [])
    then parsed
    else none

-- `counts[k] = counts.get(k, 0) + 1`
unfoldable pub bump : Text → Dict Text ℕ → Dict Text ℕ
bump k d = elim (lookup k d) [ none ↦ insert k 1 d | some n ↦ insert k (n + 1) d ]

-- `counts[k]`, or 0
unfoldable pub count_of : Text → Dict Text ℕ → ℕ
count_of k d = elim (lookup k d) [ none ↦ 0 | some n ↦ n ]
