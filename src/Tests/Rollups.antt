-- ===== src/Tests/Rollups.antt =====
-- The signals of concrete traffic.
use second_eye.Prelude.{
  ℕ, ◌≡◌, refl, some, List, [], ◌∷◌, map, list_eq, nat_eq, pair_eq, contains, Distinct, ltb,
  if◌then◌else◌,
}
use second_eye.Prelude.Text.{codes}
use second_eye.Prelude.Dict.{Dict}
use second_eye.Har.{HarEntry}
use second_eye.Signals.{candidates}
use second_eye.Signals.Rollup.{endpoint_key, compute_distinct_endpoints}
use second_eye.Signals.Endpoints.{summary_key, compute_distinct_endpoints_lem}
use second_eye.Signals.Reuse.{IdValueReuseNote, Key, compute_id_value_reuse}
use second_eye.Signals.Notes.{compute_id_value_reuse_total, compute_id_value_reuse-overwritten}
use second_eye.Prelude.{filter}
use second_eye.Signals.Headers.{compute_cookie_flag_issues}
use second_eye.Signals.Cookies.{
  issue_of, lacks_flags, first_of_name, all_cookies, compute_cookie_flag_issues_lem,
}
use second_eye.Tests.Traffic.{header, post_form, plain_urls, polled, poll_at, classified}
use second_eye.Classify.{xhr_api, ClassifiedEntry}

compute_distinct_endpoints_lem_example :
    Distinct (map summary_key (compute_distinct_endpoints plain_urls polled))
    × (contains
          (map summary_key (compute_distinct_endpoints plain_urls polled))
          (codes "GET", codes "/poll")
        ≡ contains (map (endpoint_key plain_urls) (candidates polled)) (codes "GET", codes "/poll"))
compute_distinct_endpoints_lem_example =
    compute_distinct_endpoints_lem plain_urls polled (codes "GET", codes "/poll")

abbrev user : Key
user = (codes "user", codes "42")

abbrev order : Key
order = (codes "order", codes "7")

-- both pairs up to the time 2500, and one of them after it
abbrev two_then_one : HarEntry → List Key
two_then_one e = if ltb e.started_at 2500 then user ∷ order ∷ [] else user ∷ []

compute_id_value_reuse_total_example :
    (d : Dict ℕ IdValueReuseNote) × (compute_id_value_reuse (λ ks. ks) two_then_one polled ≡ some d)
compute_id_value_reuse_total_example = compute_id_value_reuse_total (λ ks. ks) two_then_one polled

compute_id_value_reuse-overwritten_example :
    compute_id_value_reuse (λ ks. ks) two_then_one polled
    ≡ some (
        (
          3,
          record {
            name = codes "order";
            value = codes "7";
            first_seen_index = 2;
            further_occurrences = 1;
          },
        )
        ∷ [])
compute_id_value_reuse-overwritten_example =
    compute_id_value_reuse-overwritten (λ ks. ks) two_then_one (classified xhr_api 2 (poll_at 1000))
      (classified xhr_api 3 (poll_at 2000)) (classified xhr_api 4 (poll_at 3000)) user order
      (λ p. cc) refl refl refl refl

-- a cookie without HttpOnly and SameSite, then the same name with no flag at all
abbrev with_cookies : ClassifiedEntry
with_cookies = classified xhr_api 0 (record post_form {
  response = record {
    status = 200;
    status_text = [];
    http_version = codes "1.1";
    headers =
        header (codes "Set-Cookie") (codes "sid=1; Secure")
        ∷ header (codes "set-cookie") (codes "sid=2")
        ∷ [];
    body = [];
  };
})

compute_cookie_flag_issues_lem_example :
    compute_cookie_flag_issues (with_cookies ∷ [])
    ≡ map issue_of
        (filter lacks_flags (first_of_name [] (all_cookies (candidates (with_cookies ∷ [])))))
compute_cookie_flag_issues_lem_example = compute_cookie_flag_issues_lem (with_cookies ∷ [])
