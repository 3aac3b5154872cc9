-- ===== src/Tests/Analysis.antt =====
-- The analysis of entries, on concrete traffic.
use second_eye.Prelude.{
  Distinct, false, list_eq, option_eq, contains, ◌*◌, ◌⊎◌, ◌↔◌, ◌≡◌, refl, true, nat_eq, list_eq,
  All, List, filter,
}
use mathlib.Core.List.{Perm}
use second_eye.Prelude.Sort.{IsSorted, insert_by, sort_by}
use second_eye.Prelude.Text.{lower}
use second_eye.Har.{header_value}
use second_eye.Classify.{
  ClassifiedEntry, navigation, xhr_api, classify_entry, classify_entry_detailed,
}
use second_eye.Classify.Laws.{SecFetchNavigate, SecFetchScript, confirmed_iff}
use second_eye.Cluster.{started_at, cluster_entries}
use second_eye.Cluster.Laws.{
  all_entries, IsOneAction, Cut, all_entries-cluster_entries, cluster_entries-IsOneAction,
}
use second_eye.Prelude.Dict.{keys, insert}
use second_eye.Redirect.{
  chain_loop, follow, leads_to, is_redirect_status, add_chain, detect_redirect_chains, nav_entries,
  indices,
}
use second_eye.Redirect.Laws.{AreChains, detect_redirect_chains-AreChains}
use second_eye.Redirect.Consumed.{all_consumed, detect_redirect_chains_apart}
use second_eye.Polling.{detect_polling_groups}
use second_eye.Polling.Signatures.{IsPollOf, detect_polling_groups-IsPollOf}
use second_eye.Prelude.{◌+◌, length}
use second_eye.Prelude.Text.{codes}
use second_eye.Manifest.Stats.{stats_loop, no_stats}
use second_eye.Manifest.Totals.{counted_as, number_of, sum_body_bytes, any_has_host, stats_loop_lem}
use second_eye.Polling.{is_xhr}
use second_eye.Polling.Order.{InOrder, detect_polling_groups_in_time}
use second_eye.Tests.Traffic.{plain_urls, whole_floats, no_reader, page_a, redirected, polled}

cluster_entries-IsOneAction_example :
    All (IsOneAction (2 * 1000)) (cluster_entries redirected 2)
    × Cut (2 * 1000) (cluster_entries redirected 2)
cluster_entries-IsOneAction_example = cluster_entries-IsOneAction redirected 2

all_entries-cluster_entries_example :
    all_entries (cluster_entries polled 2) ≡ sort_by started_at polled
all_entries-cluster_entries_example = all_entries-cluster_entries polled 2

detect_redirect_chains-AreChains_example :
    AreChains plain_urls (detect_redirect_chains plain_urls redirected)
detect_redirect_chains-AreChains_example = detect_redirect_chains-AreChains plain_urls redirected

redirected-Distinct : Distinct (indices (nav_entries redirected))
unfolding nav_entries sort_by nat_eq
redirected-Distinct = (refl, (refl, tt))

first_hop_is_key : contains (keys (detect_redirect_chains plain_urls redirected)) 0 ≡ true
unfolding detect_redirect_chains nav_entries sort_by nat_eq list_eq option_eq insert_by chain_loop
    follow leads_to is_redirect_status header_value lower add_chain insert keys
first_hop_is_key = refl

detect_redirect_chains_apart_example :
    contains (all_consumed (detect_redirect_chains plain_urls redirected)) 0 ≡ false
detect_redirect_chains_apart_example =
    detect_redirect_chains_apart plain_urls redirected 0 redirected-Distinct first_hop_is_key

detect_polling_groups-IsPollOf_example :
    All
      (IsPollOf plain_urls whole_floats no_reader)
      (detect_polling_groups whole_floats no_reader plain_urls polled)
detect_polling_groups-IsPollOf_example =
    detect_polling_groups-IsPollOf plain_urls whole_floats no_reader polled

confirmed_iff_example : ((classify_entry_detailed plain_urls page_a).1 ≡ true) ↔ (
    SecFetchNavigate page_a × (classify_entry plain_urls page_a ≡ navigation)
    ⊎ SecFetchScript page_a × (classify_entry plain_urls page_a ≡ xhr_api))
confirmed_iff_example = confirmed_iff plain_urls page_a

stats_loop_lem_example :
    let s = stats_loop plain_urls no_stats polled in
    (counted_as xhr_api s ≡ number_of xhr_api polled)
    × (s.navigation_count + s.xhr_api_count + s.static_asset_count + s.other_count ≡ length polled)
    × (s.total_bytes ≡ sum_body_bytes polled)
    × Distinct s.domains
    × (contains s.domains (codes "h") ≡ any_has_host plain_urls (codes "h") polled)
stats_loop_lem_example = stats_loop_lem plain_urls polled xhr_api (codes "h")

detect_polling_groups_in_time_example :
    (order : List ClassifiedEntry) × IsSorted started_at order
    × Perm order (filter is_xhr polled)
    × All (InOrder (indices order)) (detect_polling_groups whole_floats no_reader plain_urls polled)
detect_polling_groups_in_time_example =
    detect_polling_groups_in_time plain_urls whole_floats no_reader polled
