-- ===== src/Redirect.antt =====
-- src/secondeye/analysis/cluster.py: `detect_redirect_chains`.
-- The code walks `nav_entries` by the indices i and j; here they are the rest of the list at i and at j.
pub mod Laws
pub mod Consumed
use second_eye.Prelude.{
  ℕ, Bool, false, ◌&&◌, ◌||◌, Option, none, some, List, [], ◌∷◌, ◌++◌, leb, ltb, length, filter,
  map, ◌==◌, list_eq, nat_eq, contains, if◌then◌else◌,
}
use second_eye.Prelude.Text.{Text, codes}
use second_eye.Prelude.Dict.{Dict, insert}
use second_eye.Prelude.Sort.{sort_by}
use second_eye.Urls.{Urls}
use second_eye.Har.{header_value}
use second_eye.Classify.{ClassifiedEntry}
use second_eye.Cluster.{started_at, is_navigation}

pub record RedirectChain : Type 0 where
  pub hops : List ClassifiedEntry

unfoldable pub is_redirect_status : ℕ → Bool
is_redirect_status status = leb 300 status && ltb status 400

abbrev pub redirects : ClassifiedEntry → Bool
redirects c = is_redirect_status c.entry.response.status

abbrev pub location : ClassifiedEntry → Option Text
location c = header_value c.entry.response.headers (codes "location")

abbrev pub indices : List ClassifiedEntry → List ℕ
indices = map (λ c. c.index)

-- `if len(hops) > 1: chains[candidate.index] = RedirectChain(hops=hops)`
unfoldable pub add_chain :
    ClassifiedEntry → List ClassifiedEntry → Dict ℕ RedirectChain → Dict ℕ RedirectChain
add_chain candidate rest chains =
    if ltb 1 (length (candidate ∷ rest))
    then insert candidate.index (record { hops = candidate ∷ rest }) chains
    else chains

unfoldable pub nav_entries : List ClassifiedEntry → List ClassifiedEntry
nav_entries entries = sort_by started_at (filter is_navigation entries)

module _ (u : Urls) where
  -- the test of the inner loop: `current` redirects, and to the URL of `next`
  leads_to_url : ClassifiedEntry → Option Text → ClassifiedEntry → Bool
  leads_to_url current none next = false
  leads_to_url current (some loc) next =
      next.entry.request.url == u.urljoin current.entry.request.url loc

  unfoldable pub leads_to : ClassifiedEntry → ClassifiedEntry → Bool
  unfolding leads_to_url
  leads_to current next = redirects current && leads_to_url current (location current) next

  -- whether the test raises, in `urljoin`
  join_of_raises : ClassifiedEntry → Option Text → Bool
  join_of_raises current none = false
  join_of_raises current (some loc) = u.join_raises current.entry.request.url loc

  unfoldable pub leads_to_raises : ClassifiedEntry → Bool
  unfolding join_of_raises
  leads_to_raises current = redirects current && join_of_raises current (location current)

  -- `hops[1:]`: the inner `while`, from the entry after the candidate
  unfoldable pub follow : ClassifiedEntry → List ClassifiedEntry → List ClassifiedEntry
  follow current [] = []
  follow current (n ∷ rest) =
      let more = follow n rest in if leads_to current n then n ∷ more else []

  unfoldable pub follow_raises : ClassifiedEntry → List ClassifiedEntry → Bool
  follow_raises current [] = false
  follow_raises current (n ∷ rest) =
      let more = follow_raises n rest in leads_to_raises current || (leads_to current n && more)

  -- the outer loop, with the dict of chains and the set of consumed indices
  unfoldable pub chain_loop :
      List ClassifiedEntry → Dict ℕ RedirectChain → List ℕ → Dict ℕ RedirectChain
  chain_loop [] chains consumed = chains
  chain_loop (candidate ∷ rest) chains consumed =
      let hops = follow candidate rest in
      let skipped = chain_loop rest chains consumed in
      let found = chain_loop rest (add_chain candidate hops chains) (indices hops ++ consumed) in
      if contains consumed candidate.index
      then skipped
      else if redirects candidate
      then found
      else skipped

  unfoldable pub detect_redirect_chains : List ClassifiedEntry → Dict ℕ RedirectChain
  detect_redirect_chains entries = chain_loop (nav_entries entries) [] []

  unfoldable pub chain_loop_raises : List ClassifiedEntry → List ℕ → Bool
  chain_loop_raises [] consumed = false
  chain_loop_raises (candidate ∷ rest) consumed =
      let skipped = chain_loop_raises rest consumed in
      let found = chain_loop_raises rest (indices (follow candidate rest) ++ consumed) in
      if contains consumed candidate.index
      then skipped
      else if redirects candidate
      then follow_raises candidate rest || found
      else skipped

  unfoldable pub detect_redirect_chains_raises : List ClassifiedEntry → Bool
  detect_redirect_chains_raises entries = chain_loop_raises (nav_entries entries) []
