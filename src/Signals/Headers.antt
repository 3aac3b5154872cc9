-- ===== src/Signals/Headers.antt =====
-- `compute_security_header_posture`, `compute_cors_misconfigurations`, `compute_cookie_flag_issues` and `compute_stack_hints`.
use second_eye.Prelude.{
  ℕ, ◌+◌, Bool, true, false, ◌&&◌, Option, none, some, List, [], ◌∷◌, ◌++◌, length, map, ◌==◌,
  list_eq, nat_eq, pair_eq, option_eq, contains, if◌then◌else◌,
}
use second_eye.Prelude.Text.{Text, codes, lower, strip, before_char, has_substring}
use second_eye.Har.{HarHeader, header_value}
use second_eye.Har.Render.{or_text}
use second_eye.Classify.{ClassifiedEntry}
use second_eye.Signals.{candidates}

pub record SecurityHeaderPosture : Type 0 where
  pub header_name : Text
  pub present_count : ℕ
  pub total_count : ℕ

pub record CorsMisconfiguration : Type 0 where
  pub har_entry_index : ℕ
  pub allow_origin : Text

pub record CookieFlagIssue : Type 0 where
  pub cookie_name : Text
  pub missing_flags : List Text
  pub har_entry_index : ℕ

pub record StackHint : Type 0 where
  pub value : Text
  pub source : Text

abbrev pub tracked_security_headers : List Text
tracked_security_headers =
    codes "Strict-Transport-Security"
    ∷ codes "Content-Security-Policy"
    ∷ codes "X-Frame-Options"
    ∷ codes "X-Content-Type-Options"
    ∷ codes "X-XSS-Protection"
    ∷ codes "Referrer-Policy"
    ∷ codes "Permissions-Policy"
    ∷ []

unfoldable pub has_response_header : Text → ClassifiedEntry → Bool
has_response_header name c = elim (header_value c.entry.response.headers name) [
  | none ↦ false
  | some v ↦ true
]

unfoldable pub present_count : Text → List ClassifiedEntry → ℕ
present_count name [] = 0
present_count name (c ∷ cs) =
    let n = present_count name cs in if has_response_header name c then n + 1 else n

unfoldable pub posture_of : List ClassifiedEntry → Text → SecurityHeaderPosture
posture_of cs name = record {
  header_name = name;
  present_count = present_count name cs;
  total_count = length cs;
}

unfoldable pub compute_security_header_posture : List ClassifiedEntry → List SecurityHeaderPosture
compute_security_header_posture classified =
    let cs = candidates classified in
    let postures = map (posture_of cs) tracked_security_headers in
    elim cs [ [] ↦ [] | c ∷ rest ↦ postures ]

-- the wildcard origin with credentials
unfoldable pub is_cors_misconfigured : ClassifiedEntry → Bool
is_cors_misconfigured c =
    let hs = c.entry.response.headers in
    header_value hs (codes "access-control-allow-origin") == some (codes "*")
    && lower (strip (or_text (header_value hs (codes "access-control-allow-credentials")) []))
      == codes "true"

unfoldable pub cors_loop : List ClassifiedEntry → List CorsMisconfiguration
cors_loop [] = []
cors_loop (c ∷ cs) =
    let rest = cors_loop cs in
    if is_cors_misconfigured c
    then record { har_entry_index = c.index; allow_origin = codes "*" } ∷ rest
    else rest

unfoldable pub compute_cors_misconfigurations : List ClassifiedEntry → List CorsMisconfiguration
compute_cors_misconfigurations classified = cors_loop (candidates classified)

-- `marker not in attrs`, for the three flags in their fixed order
unfoldable pub missing_flags : Text → List Text
missing_flags value =
    let attrs = lower value in
    let same_site = if has_substring attrs (codes "samesite") then [] else codes "SameSite" ∷ [] in
    let http_only =
      if has_substring attrs (codes "httponly") then same_site else codes "HttpOnly" ∷ same_site in
    if has_substring attrs (codes "secure") then http_only else codes "Secure" ∷ http_only

abbrev pub cookie_name_of : HarHeader → Text
cookie_name_of h = strip (before_char b'=' h.value)

-- the inner loop over the headers of one response: the names seen, and the issues
unfoldable pub cookie_headers : ℕ → List Text → List HarHeader → List Text × List CookieFlagIssue
cookie_headers index seen [] = (seen, [])
cookie_headers index seen (h ∷ hs) =
    let name = cookie_name_of h in
    let skipped = cookie_headers index seen hs in
    let checked = cookie_headers index (name ∷ seen) hs in
    let missing = missing_flags h.value in
    let issue : CookieFlagIssue = record {
      cookie_name = name;
      missing_flags = missing;
      har_entry_index = index;
    } in
    if lower h.name == codes "set-cookie"
    then if contains seen name
      then skipped
      else if missing == []
      then checked
      else (checked.0, issue ∷ checked.1)
    else skipped

unfoldable pub cookie_loop : List Text → List ClassifiedEntry → List CookieFlagIssue
cookie_loop seen [] = []
cookie_loop seen (c ∷ cs) =
    let (seen', issues) = cookie_headers c.index seen c.entry.response.headers in
    issues ++ cookie_loop seen' cs

unfoldable pub compute_cookie_flag_issues : List ClassifiedEntry → List CookieFlagIssue
compute_cookie_flag_issues classified = cookie_loop [] (candidates classified)

-- `_COOKIE_NAME_HINTS.get(name)`
unfoldable pub cookie_name_hint : Text → Option Text
cookie_name_hint n =
    if n == codes "jsessionid"
    then some (codes "Java/Tomcat")
    else if n == codes "phpsessid"
    then some (codes "PHP")
    else if n == codes "laravel_session"
    then some (codes "Laravel")
    else if n == codes "asp.net_sessionid"
    then some (codes "ASP.NET")
    else if n == codes "connect.sid"
    then some (codes "Node.js/Express")
    else if n == codes "django_sessionid"
    then some (codes "Django")
    else none

-- the hints that one response offers, in order, before the duplicates are dropped
header_hint : List HarHeader → Text → Text → List StackHint
header_hint hs name label = elim (header_value hs name) [
  | none ↦ []
  | some v ↦ if v == [] then [] else record { value = v; source = label } ∷ []
]

cookie_hints : List HarHeader → List StackHint
cookie_hints [] = []
cookie_hints (h ∷ hs) =
    let name = lower (cookie_name_of h) in
    let rest = cookie_hints hs in
    let found : List StackHint = elim (cookie_name_hint name) [
      | none ↦ rest
      | some g ↦ record { value = g; source = codes "cookie name " ++ name } ∷ rest
    ] in
    if lower h.name == codes "set-cookie" then found else rest

unfoldable pub hints_of : ClassifiedEntry → List StackHint
unfolding header_hint cookie_hints
hints_of c =
    let hs = c.entry.response.headers in
    header_hint hs (codes "server") (codes "Server header")
    ++ (header_hint hs (codes "x-powered-by") (codes "X-Powered-By header") ++ cookie_hints hs)

unfoldable pub all_hints : List ClassifiedEntry → List StackHint
all_hints [] = []
all_hints (c ∷ cs) = hints_of c ++ all_hints cs

-- `seen` holds (source, value)
unfoldable pub new_hints : List (Text × Text) → List StackHint → List StackHint
new_hints seen [] = []
new_hints seen (h ∷ hs) =
    let old = new_hints seen hs in
    let new = h ∷ new_hints ((h.source, h.value) ∷ seen) hs in
    if contains seen (h.source, h.value) then old else new

-- static assets are not left out here
unfoldable pub compute_stack_hints : List ClassifiedEntry → List StackHint
compute_stack_hints classified = new_hints [] (all_hints classified)
