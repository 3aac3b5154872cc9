-- ===== src/Manifest/Totals.antt =====
-- The statistics of the manifest against counts of the entries.
use second_eye.Prelude.{
  ℕ, ◌+◌, ◌≡◌, refl, ◌∙◌, Bool, true, false, ◌&&◌, ◌||◌, not, Option, none, some, List, [], ◌∷◌,
  arith, length, ◌==◌, list_eq, nat_eq, option_eq, contains, Distinct, if◌then◌else◌,
}
use second_eye.Prelude.Text.{Text}
use second_eye.Urls.{Urls}
use second_eye.Classify.{Category, navigation, xhr_api, static_asset, other, ClassifiedEntry}
use second_eye.Manifest.Stats.{Stats, no_stats, count_category, add_domain, body_bytes, stats_loop}

abbrev pub is_category : Category → Category → Bool
is_category navigation navigation = true
is_category xhr_api xhr_api = true
is_category static_asset static_asset = true
is_category other other = true
is_category _ _ = false

-- how many entries have the category
unfoldable pub number_of : Category → List ClassifiedEntry → ℕ
number_of k [] = 0
number_of k (c ∷ cs) = (if is_category k c.category then 1 else 0) + number_of k cs

-- the count of a category in the statistics
abbrev pub counted_as : Category → Stats → ℕ
counted_as navigation s = s.navigation_count
counted_as xhr_api s = s.xhr_api_count
counted_as static_asset s = s.static_asset_count
counted_as other s = s.other_count

unfoldable pub sum_body_bytes : List ClassifiedEntry → ℕ
sum_body_bytes [] = 0
sum_body_bytes (c ∷ cs) = body_bytes c + sum_body_bytes cs

number_of_all :
    (cs : List ClassifiedEntry)
    → number_of navigation cs
        + number_of xhr_api cs
        + number_of static_asset cs
        + number_of other cs
      ≡ length cs
unfolding number_of
number_of_all [] = refl
number_of_all (c ∷ cs) = ground (arith, number_of_all cs)

counted_as-count_category :
    (k j : Category) (s : Stats)
    → counted_as k (count_category j s) ≡ (if is_category k j then 1 else 0) + counted_as k s
unfolding count_category
counted_as-count_category k j s = ground arith

-- the host of an entry is the non-empty text `h`
abbrev pub has_host : Urls → Text → ClassifiedEntry → Bool
has_host u h c = (u.urlsplit c.entry.request.url).hostname == some h && not (h == [])

abbrev pub any_has_host : Urls → Text → List ClassifiedEntry → Bool
any_has_host u h [] = false
any_has_host u h (c ∷ cs) = has_host u h c || any_has_host u h cs

contains-add_domain :
    (h : Text) (o : Option Text) (ds : List Text)
    → contains (add_domain o ds) h ≡ (o == some h && not (h == []) || contains ds h)
unfolding add_domain
contains-add_domain h none ds = ground arith
contains-add_domain h (some g) ds = ground arith

add_domain-Distinct : (o : Option Text) (ds : List Text) → Distinct ds → Distinct (add_domain o ds)
unfolding add_domain
add_domain-Distinct none ds d = d
add_domain-Distinct (some g) ds d = ground arith

or_rotate : (a b c : Bool) → (a || (b || c)) ≡ ((b || a) || c)
or_rotate a b c = ground arith

module _ (u : Urls) where
  -- the statistics after one more entry
  abbrev with_entry : ClassifiedEntry → Stats → Stats
  with_entry c s =
      let s' = count_category c.category s in
      record s' {
        total_bytes = s'.total_bytes + body_bytes c;
        domains = add_domain (u.urlsplit c.entry.request.url).hostname s'.domains;
      }

  counted_as-with_entry :
      (k : Category) (c : ClassifiedEntry) (s : Stats)
      → counted_as k (with_entry c s) ≡ counted_as k (count_category c.category s)
  counted_as-with_entry k c s = ground arith

  kept_by_count :
      (j : Category) (s : Stats)
      → ((count_category j s).total_bytes ≡ s.total_bytes)
        × ((count_category j s).domains ≡ s.domains)
  unfolding count_category
  kept_by_count j s = ground arith

  counted_as-stats_loop :
      (k : Category) (s : Stats) (cs : List ClassifiedEntry)
      → counted_as k (stats_loop u s cs) ≡ counted_as k s + number_of k cs
  unfolding stats_loop number_of
  counted_as-stats_loop k s [] = omega arith
  counted_as-stats_loop k s (c ∷ cs) = omega (
    arith,
    counted_as-stats_loop k (with_entry c s) cs,
    counted_as-with_entry k c s,
    counted_as-count_category k c.category s,
  )

  bytes-stats_loop :
      (s : Stats) (cs : List ClassifiedEntry)
      → (stats_loop u s cs).total_bytes ≡ s.total_bytes + sum_body_bytes cs
  unfolding stats_loop sum_body_bytes
  bytes-stats_loop s [] = omega arith
  bytes-stats_loop s (c ∷ cs) =
      omega (arith, bytes-stats_loop (with_entry c s) cs, (kept_by_count c.category s).0)

  domains-stats_loop :
      (h : Text) (s : Stats) (cs : List ClassifiedEntry)
      → Distinct s.domains
      → Distinct (stats_loop u s cs).domains
        × (contains (stats_loop u s cs).domains h ≡ (any_has_host u h cs || contains s.domains h))
  unfolding stats_loop
  domains-stats_loop h s [] d = (d, refl)
  domains-stats_loop h s (c ∷ cs) d =
      let host = (u.urlsplit c.entry.request.url).hostname in
      let same = (kept_by_count c.category s).1 in
      let d' : Distinct (with_entry c s).domains = rw same (add_domain-Distinct host s.domains d) in
      let (distinct, has) = domains-stats_loop h (with_entry c s) cs d' in
      (
        distinct,
        has
            ∙ rw (same, contains-add_domain h host s.domains)
                (or_rotate (any_has_host u h cs) (has_host u h c) (contains s.domains h)),
      )

  -- The statistics count every category, the four counts add up to the number of entries, the bytes are
  -- those of all request and response bodies, and the hosts are distinct and are those of the entries
  -- that have one which is not empty.
  pub stats_loop_lem :
      (cs : List ClassifiedEntry) (k : Category) (h : Text)
      → let s = stats_loop u no_stats cs in
        (counted_as k s ≡ number_of k cs)
        × (s.navigation_count + s.xhr_api_count + s.static_asset_count + s.other_count ≡ length cs)
        × (s.total_bytes ≡ sum_body_bytes cs)
        × Distinct s.domains
        × (contains s.domains h ≡ any_has_host u h cs)
  stats_loop_lem cs k h =
      let (distinct, has) = domains-stats_loop h no_stats cs tt in
      (
        ground (arith, counted_as-stats_loop k no_stats cs),
        omega (
          arith,
          counted_as-stats_loop navigation no_stats cs,
          counted_as-stats_loop xhr_api no_stats cs,
          counted_as-stats_loop static_asset no_stats cs,
          counted_as-stats_loop other no_stats cs,
          number_of_all cs,
        ),
        omega (arith, bytes-stats_loop no_stats cs),
        distinct,
        ground (arith, has),
      )
