-- ===== src/Signals/Rollup.antt =====
-- `compute_distinct_endpoints`, `compute_auth_mechanisms`, `compute_status_code_rollup` and `compute_parameter_names`.
use second_eye.Prelude.{
  ℕ, ◌+◌, Bool, true, false, Option, none, some, List, [], ◌∷◌, ◌++◌, ◌==◌, list_eq, nat_eq,
  pair_eq, contains, if◌then◌else◌,
}
use second_eye.Prelude.Text.{Text, codes, lower, strip, before_char}
use second_eye.Prelude.Dict.{Dict, insert, lookup, keys}
use second_eye.Prelude.Sort.{sort_by}
use second_eye.Json.{Fields, end, field}
use second_eye.Urls.{Urls}
use second_eye.Har.{HarEntry, header_value}
use second_eye.Classify.{ClassifiedEntry}
use second_eye.Polling.{JsonReader}
use second_eye.Signals.{candidates, json_body, bump}

pub record EndpointSummary : Type 0 where
  pub method : Text
  pub path : Text

pub record AuthMechanismSummary : Type 0 where
  pub kind : Text
  pub request_count : ℕ

pub record StatusCodeSummary : Type 0 where
  pub status : ℕ
  pub count : ℕ

pub record ParameterNameSummary : Type 0 where
  pub name : Text
  pub source : Text
  pub occurrence_count : ℕ

unfoldable pub endpoint_key : Urls → ClassifiedEntry → Text × Text
endpoint_key u c = (c.entry.request.method, (u.urlsplit c.entry.request.url).path)

-- the loop, with the set of keys seen
unfoldable pub endpoint_loop :
    Urls → List (Text × Text) → List ClassifiedEntry → List EndpointSummary
endpoint_loop u seen [] = []
endpoint_loop u seen (c ∷ cs) =
    let key = endpoint_key u c in
    let new = record { method = key.0; path = key.1 } ∷ endpoint_loop u (key ∷ seen) cs in
    let old = endpoint_loop u seen cs in if contains seen key then old else new

unfoldable pub compute_distinct_endpoints : Urls → List ClassifiedEntry → List EndpointSummary
compute_distinct_endpoints u classified = endpoint_loop u [] (candidates classified)

abbrev pub bearer_token : Text
bearer_token = codes "Bearer token"

abbrev pub basic_auth : Text
basic_auth = codes "Basic auth"

abbrev pub digest_auth : Text
digest_auth = codes "Digest auth"

abbrev pub session_cookie : Text
session_cookie = codes "session cookie"

-- `_AUTH_SCHEME_LABELS.get(scheme)`
unfoldable pub auth_scheme_label : Text → Option Text
auth_scheme_label s =
    if s == codes "bearer"
    then some bearer_token
    else if s == codes "basic"
    then some basic_auth
    else if s == codes "digest"
    then some digest_auth
    else none

-- the label of an Authorization header, if it is there, not empty, and of a known scheme
unfoldable pub auth_label : HarEntry → Option Text
auth_label e = elim (header_value e.request.headers (codes "authorization")) [
  | none ↦ none
  | some v ↦ if v == [] then none else auth_scheme_label (lower (strip (before_char b' ' v)))
]

bump_some : Option Text → Dict Text ℕ → Dict Text ℕ
bump_some none d = d
bump_some (some k) d = bump k d

unfoldable pub has_cookie : HarEntry → Bool
has_cookie e = elim (header_value e.request.headers (codes "cookie")) [
  | none ↦ false
  | some v ↦ true
]

unfoldable pub auth_counts : Dict Text ℕ → List ClassifiedEntry → Dict Text ℕ
unfolding bump_some
auth_counts d [] = d
auth_counts d (c ∷ cs) =
    let d' = bump_some (auth_label c.entry) d in
    auth_counts (if has_cookie c.entry then bump session_cookie d' else d') cs

-- the kinds that were counted, in the fixed order
unfoldable pub auth_summaries : Dict Text ℕ → List Text → List AuthMechanismSummary
auth_summaries d [] = []
auth_summaries d (k ∷ ks) = elim (lookup k d) [
  | none ↦ auth_summaries d ks
  | some n ↦ record { kind = k; request_count = n } ∷ auth_summaries d ks
]

abbrev pub auth_kind_order : List Text
auth_kind_order = bearer_token ∷ basic_auth ∷ digest_auth ∷ session_cookie ∷ []

unfoldable pub compute_auth_mechanisms : List ClassifiedEntry → List AuthMechanismSummary
compute_auth_mechanisms classified =
    auth_summaries (auth_counts [] (candidates classified)) auth_kind_order

unfoldable pub bump_status : ℕ → Dict ℕ ℕ → Dict ℕ ℕ
bump_status k d = elim (lookup k d) [ none ↦ insert k 1 d | some n ↦ insert k (n + 1) d ]

unfoldable pub status_counts : Dict ℕ ℕ → List ClassifiedEntry → Dict ℕ ℕ
status_counts d [] = d
status_counts d (c ∷ cs) = status_counts (bump_status c.entry.response.status d) cs

unfoldable pub status_summaries : Dict ℕ ℕ → List StatusCodeSummary
status_summaries [] = []
status_summaries ((s, n) ∷ d) = record { status = s; count = n } ∷ status_summaries d

-- a dict's keys are distinct, so sorting its items by key is sorting the keys
unfoldable pub compute_status_code_rollup : List ClassifiedEntry → List StatusCodeSummary
compute_status_code_rollup classified =
    status_summaries (sort_by (λ (p : ℕ × ℕ). p.0) (status_counts [] (candidates classified)))

-- one more occurrence of each name, in order; a dict keeps the order of first insertion
unfoldable pub bump_names : List Text → Dict Text ℕ → Dict Text ℕ
bump_names [] d = d
bump_names (n ∷ ns) d = bump_names ns (bump n d)

unfoldable pub field_names : Fields → List Text
field_names end = []
field_names (field k v fs) = k ∷ field_names fs

names_of : Option Fields → List Text
names_of none = []
names_of (some fs) = field_names fs

unfoldable pub parameter_loop :
    Urls → JsonReader → Dict Text ℕ × Dict Text ℕ → List ClassifiedEntry → Dict Text ℕ × Dict Text ℕ
unfolding names_of
parameter_loop u r counts [] = counts
parameter_loop u r (query, body) (c ∷ cs) =
    parameter_loop u r
      (
        bump_names (keys (u.parse_qs (u.urlsplit c.entry.request.url).query)) query,
        bump_names (names_of (json_body r c.entry)) body,
      )
      cs

unfoldable pub name_summaries : Text → Dict Text ℕ → List ParameterNameSummary
name_summaries source [] = []
name_summaries source ((n, k) ∷ d) =
    record { name = n; source = source; occurrence_count = k } ∷ name_summaries source d

unfoldable pub compute_parameter_names :
    Urls → JsonReader → List ClassifiedEntry → List ParameterNameSummary
compute_parameter_names u r classified =
    let (query, body) = parameter_loop u r ([], []) (candidates classified) in
    name_summaries (codes "query") query ++ name_summaries (codes "body") body
