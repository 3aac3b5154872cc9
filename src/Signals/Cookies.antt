-- ===== src/Signals/Cookies.antt =====
-- What the nested loops of `compute_cookie_flag_issues` report.
use second_eye.Prelude.{
  ℕ, ◌≡◌, refl, ap, Bool, not, List, [], ◌∷◌, ◌++◌, map, filter, list_eq, nat_eq, contains, ◌==◌,
  if◌then◌else◌, Bool-cases, inl, inr,
}
use second_eye.Prelude.Text.{Text, codes, lower}
use second_eye.Har.{HarHeader}
use second_eye.Classify.{ClassifiedEntry}
use second_eye.Signals.{candidates}
use second_eye.Signals.Headers.{
  CookieFlagIssue, missing_flags, cookie_name_of, cookie_headers, cookie_loop,
  compute_cookie_flag_issues,
}

-- a Set-Cookie header, with the index of its entry
abbrev pub Cookie : Type 0
Cookie = ℕ × HarHeader

abbrev is_set_cookie : HarHeader → Bool
is_set_cookie h = lower h.name == codes "set-cookie"

abbrev cookies_of : ℕ → List HarHeader → List Cookie
cookies_of i hs = map (λ h. (i, h)) (filter is_set_cookie hs)

-- all of them, in order
unfoldable pub all_cookies : List ClassifiedEntry → List Cookie
all_cookies [] = []
all_cookies (c ∷ cs) = cookies_of c.index c.entry.response.headers ++ all_cookies cs

-- those whose name is not among the names seen, nor that of one before
unfoldable pub first_of_name : List Text → List Cookie → List Cookie
first_of_name seen [] = []
first_of_name seen (k ∷ ks) =
    let name = cookie_name_of k.1 in
    let old = first_of_name seen ks in
    let new = k ∷ first_of_name (name ∷ seen) ks in if contains seen name then old else new

-- the names seen after them
names_after : List Text → List Cookie → List Text
names_after seen [] = seen
names_after seen (k ∷ ks) =
    let name = cookie_name_of k.1 in
    let old = names_after seen ks in
    let new = names_after (name ∷ seen) ks in if contains seen name then old else new

abbrev pub lacks_flags : Cookie → Bool
lacks_flags k = not (missing_flags k.1.value == [])

abbrev pub issue_of : Cookie → CookieFlagIssue
issue_of k = record {
  cookie_name = cookie_name_of k.1;
  missing_flags = missing_flags k.1.value;
  har_entry_index = k.0;
}

abbrev reported : List Cookie → List CookieFlagIssue
reported ks = map issue_of (filter lacks_flags ks)

reported-append : (ks ls : List Cookie) → reported (ks ++ ls) ≡ reported ks ++ reported ls
reported-append [] ls = refl
reported-append (k ∷ ks) ls = elim (Bool-cases (lacks_flags k)) [
  | inl lacks ↦ rw lacks (ap (λ l. issue_of k ∷ l) (reported-append ks ls))
  | inr has ↦ rw has (reported-append ks ls)
]

first_of_name-append :
    (seen : List Text) (ks ls : List Cookie)
    → first_of_name seen (ks ++ ls)
      ≡ first_of_name seen ks ++ first_of_name (names_after seen ks) ls
unfolding first_of_name names_after
first_of_name-append seen [] ls = refl
first_of_name-append seen (k ∷ ks) ls =
    let name = cookie_name_of k.1 in
    elim (Bool-cases (contains seen name)) [
      | inl old ↦ rw old (first_of_name-append seen ks ls)
      | inr new ↦ rw new (ap (λ l. k ∷ l) (first_of_name-append (name ∷ seen) ks ls))
    ]

cookie_headers_lem :
    (i : ℕ) (seen : List Text) (hs : List HarHeader)
    → cookie_headers i seen hs
      ≡ (names_after seen (cookies_of i hs), reported (first_of_name seen (cookies_of i hs)))
unfolding cookie_headers names_after first_of_name
cookie_headers_lem i seen [] = refl
cookie_headers_lem i seen (h ∷ hs) =
    let name = cookie_name_of h in
    elim (Bool-cases (is_set_cookie h)) [
      | inr plain ↦ rw plain (cookie_headers_lem i seen hs)
      | inl cookie ↦ elim (Bool-cases (contains seen name)) [
        | inl old ↦ rw (cookie, old) (cookie_headers_lem i seen hs)
        | inr new ↦ elim (Bool-cases (missing_flags h.value == [])) [
          | inl none_ ↦ rw (cookie, new, none_) (cookie_headers_lem i (name ∷ seen) hs)
          | inr some_ ↦ rw (cookie, new, some_, cookie_headers_lem i (name ∷ seen) hs) refl
        ]
      ]
    ]

cookie_loop_lem :
    (seen : List Text) (cs : List ClassifiedEntry)
    → cookie_loop seen cs ≡ reported (first_of_name seen (all_cookies cs))
unfolding cookie_loop all_cookies
cookie_loop_lem seen [] = unfold first_of_name in refl
cookie_loop_lem seen (c ∷ cs) =
    let ks = cookies_of c.index c.entry.response.headers in
    rw
      (
        cookie_headers_lem c.index seen c.entry.response.headers,
        first_of_name-append seen ks (all_cookies cs),
        reported-append (first_of_name seen ks)
            (first_of_name (names_after seen ks) (all_cookies cs)),
        cookie_loop_lem (names_after seen ks) cs,
      )
      refl

-- The cookie issues are what the following gives: take all Set-Cookie headers of the entries that are
-- no static assets, in order; keep the first of each cookie name; of those, report the ones that lack
-- a flag, whatever flags later cookies of the name have.
pub compute_cookie_flag_issues_lem :
    (classified : List ClassifiedEntry)
    → compute_cookie_flag_issues classified
      ≡ map issue_of (filter lacks_flags (first_of_name [] (all_cookies (candidates classified))))
unfolding compute_cookie_flag_issues
compute_cookie_flag_issues_lem classified = cookie_loop_lem [] (candidates classified)
