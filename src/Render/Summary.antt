-- ===== src/Render/Summary.antt =====
-- The head of ANALYSIS.md: `_render_header`, `_render_summary` and `_render_capture_signals`.
use second_eye.Prelude.{
  ℕ, Bool, true, false, ◌&&◌, List, [], ◌∷◌, ◌++◌, length, take, map, ◌==◌, list_eq, nat_eq,
  if◌then◌else◌,
}
use second_eye.Prelude.Text.{Text, codes, join, decimal}
use second_eye.Prelude.Dict.{Dict}
use second_eye.Urls.{Urls}
use second_eye.Json.{Codecs}
use second_eye.Har.Render.{iso_z}
use second_eye.Classify.{Category, navigation, xhr_api, static_asset, other, ClassifiedEntry}
use second_eye.Polling.{JsonReader}
use second_eye.Manifest.{category_value}
use second_eye.Signals.{bump, count_of}
use second_eye.Signals.Rollup.{
  EndpointSummary, AuthMechanismSummary, StatusCodeSummary, ParameterNameSummary,
  compute_distinct_endpoints, compute_auth_mechanisms, compute_status_code_rollup,
  compute_parameter_names,
}
use second_eye.Signals.Headers.{
  SecurityHeaderPosture, CorsMisconfiguration, CookieFlagIssue, StackHint,
  compute_security_header_posture, compute_cors_misconfigurations, compute_cookie_flag_issues,
  compute_stack_hints,
}
use second_eye.Render.{inline_safe, method_label}

-- `not xs`
abbrev pub is_empty {ℓ} : {A : Type ℓ} → List A → Bool
is_empty [] = true
is_empty (x ∷ xs) = false

abbrev pub categories : List Category
categories = navigation ∷ xhr_api ∷ static_asset ∷ other ∷ []

unfoldable pub by_category : Dict Text ℕ → List ClassifiedEntry → Dict Text ℕ
by_category d [] = d
by_category d (c ∷ cs) = by_category (bump (category_value c.category) d) cs

-- the categories that occur, each with its count
unfoldable pub category_counts : Dict Text ℕ → List Category → List Text
category_counts d [] = []
category_counts d (c ∷ cs) =
    let rest = category_counts d cs in
    let n = count_of (category_value c) d in
    if n == 0 then rest else (decimal n ++ (codes " " ++ category_value c)) ∷ rest

unfoldable pub render_header : Codecs → Text → List Text → ℕ → ℕ → List ClassifiedEntry → List Text
render_header codecs capture_name targets started_at ended_at classified =
    let counts = join (codes ", ") (category_counts (by_category [] classified) categories) in
    codes "# Second-Eye Capture Analysis"
    ∷ []
    ∷ (codes "**Capture:** " ++ capture_name)
    ∷ (codes "**Target(s):** " ++ join (codes ", ") targets)
    ∷ (codes "**Capture window:** "
        ++ iso_z codecs started_at
        ++ codes " → "
        ++ iso_z codecs ended_at)
    ∷ (codes "**Total requests:** "
        ++ decimal (length classified)
        ++ codes " ("
        ++ counts
        ++ codes ")")
    ∷ codes "**Full fidelity data:** raw.har (this document is a derived summary)"
    ∷ []
    ∷ codes "---"
    ∷ []

-- a part that is left out where there is nothing to list
abbrev pub part {ℓ} : {A : Type ℓ} → List A → List Text → List Text
part [] lines = []
part (x ∷ xs) lines = lines

abbrev blank : List Text
blank = [] ∷ []

endpoint_line : EndpointSummary → Text
endpoint_line e = codes "- " ++ method_label e.method ++ codes " " ++ e.path

mechanism_line : AuthMechanismSummary → Text
mechanism_line m =
    codes "- " ++ m.kind ++ codes ": " ++ decimal m.request_count ++ codes " request(s)"

status_text : StatusCodeSummary → Text
status_text s = decimal s.count ++ codes "x " ++ decimal s.status

unfoldable pub parameter_text : ParameterNameSummary → Text
parameter_text p =
    inline_safe p.name
    ++ codes " ("
    ++ p.source
    ++ codes ", "
    ++ decimal p.occurrence_count
    ++ codes "x)"

-- the sections of the four roll-ups
unfoldable pub summary_lines :
    List EndpointSummary
    → List AuthMechanismSummary
    → List StatusCodeSummary
    → List ParameterNameSummary
    → List Text
unfolding endpoint_line mechanism_line status_text
summary_lines endpoints mechanisms statuses parameters =
    part endpoints (codes "**Endpoints touched:**" ∷ map endpoint_line endpoints ++ blank)
    ++ (part mechanisms
          (codes "**Auth mechanisms observed:**" ∷ map mechanism_line mechanisms ++ blank)
        ++ (part statuses
              ((codes "**Status codes:** " ++ join (codes ", ") (map status_text statuses)) ∷ blank)
            ++ part parameters (
                (codes "**Parameter names observed:** "
                  ++ join (codes ", ") (map parameter_text parameters))
                ∷ [])))

unfoldable pub render_summary : Urls → JsonReader → List ClassifiedEntry → List Text
render_summary u r classified =
    let endpoints = compute_distinct_endpoints u classified in
    let mechanisms = compute_auth_mechanisms classified in
    let statuses = compute_status_code_rollup classified in
    let parameters = compute_parameter_names u r classified in
    let lines =
      []
      ∷ codes "## Summary"
      ∷ []
      ∷ codes "*Counts below exclude static-asset requests.*"
      ∷ []
      ∷ summary_lines endpoints mechanisms statuses parameters in
    if is_empty endpoints && (is_empty mechanisms && (is_empty statuses && is_empty parameters))
    then []
    else lines

posture_line : SecurityHeaderPosture → Text
posture_line p =
    codes "- "
    ++ p.header_name
    ++ codes ": present on "
    ++ decimal p.present_count
    ++ codes "/"
    ++ decimal p.total_count
    ++ codes " responses"

-- the value as it is, without `inline_safe`
unfoldable pub hint_line : StackHint → Text
hint_line h = codes "- `" ++ take 200 h.value ++ codes "` (" ++ h.source ++ codes ")"

cors_line : CorsMisconfiguration → Text
cors_line f =
    codes "- entry #"
    ++ decimal f.har_entry_index
    ++ codes ": Access-Control-Allow-Origin: * "
    ++ codes "combined with Access-Control-Allow-Credentials: true"

unfoldable pub cookie_line : CookieFlagIssue → Text
cookie_line i =
    codes "- "
    ++ inline_safe i.cookie_name
    ++ codes ": missing "
    ++ join (codes ", ") i.missing_flags
    ++ codes " (entry #"
    ++ decimal i.har_entry_index
    ++ codes ")"

-- the sections of the four header signals
unfoldable pub signal_lines :
    List SecurityHeaderPosture
    → List StackHint
    → List CorsMisconfiguration
    → List CookieFlagIssue
    → List Text
unfolding posture_line cors_line
signal_lines posture hints cors cookies =
    part posture (codes "**Security headers observed:**" ∷ map posture_line posture ++ blank)
    ++ (part hints (codes "**Stack fingerprint hints:**" ∷ map hint_line hints ++ blank)
        ++ (part cors (codes "**CORS misconfigurations:**" ∷ map cors_line cors ++ blank)
            ++ part cookies (codes "**Cookie flag issues:**" ∷ map cookie_line cookies)))

unfoldable pub render_capture_signals : List ClassifiedEntry → List Text
render_capture_signals classified =
    let posture = compute_security_header_posture classified in
    let hints = compute_stack_hints classified in
    let cors = compute_cors_misconfigurations classified in
    let cookies = compute_cookie_flag_issues classified in
    let lines = [] ∷ codes "## Capture Signals" ∷ [] ∷ signal_lines posture hints cors cookies in
    if is_empty posture && (is_empty hints && (is_empty cors && is_empty cookies))
    then []
    else lines
