-- ===== src/Cluster.antt =====
-- src/secondeye/analysis/cluster.py: `Cluster` and `cluster_entries`.
-- The code appends each new cluster to a list and keeps a second reference, `current`, to the last of
-- the list. Here `current` is held apart from the clusters before it, which `add` cannot reach.
pub mod Laws
use second_eye.Prelude.{
  ℕ, ◌+◌, ◌*◌, Bool, true, false, ◌&&◌, Option, none, some, List, [], ◌∷◌, ◌++◌, leb, ◌==◌, list_eq,
  nat_eq, option_eq, if◌then◌else◌,
}
use second_eye.Prelude.Text.{Text, codes}
use second_eye.Prelude.Sort.{sort_by}
use second_eye.Har.{header_value}
use second_eye.Classify.{Category, navigation, xhr_api, static_asset, other, ClassifiedEntry}

pub record Cluster : Type 0 where
  pub anchor : ClassifiedEntry
  pub members : List ClassifiedEntry
  pub referer : Option Text
  pub last_activity : ℕ

abbrev pub started_at : ClassifiedEntry → ℕ
started_at c = c.entry.started_at

-- `c.category == Category.NAVIGATION`
abbrev pub is_navigation : ClassifiedEntry → Bool
is_navigation c = elim c.category [ navigation ↦ true | _ ↦ false ]

abbrev pub entry_referer : ClassifiedEntry → Option Text
entry_referer c = header_value c.entry.request.headers (codes "referer")

unfoldable pub cluster_referer : ClassifiedEntry → Option Text
cluster_referer anchor =
    if is_navigation anchor then some anchor.entry.request.url else entry_referer anchor

-- `Cluster(anchor=c)` with its `__post_init__`
unfoldable pub new_cluster : ClassifiedEntry → Cluster
new_cluster c = record {
  anchor = c;
  members = [];
  referer = cluster_referer c;
  last_activity = started_at c;
}

unfoldable pub add : ClassifiedEntry → Cluster → Cluster
add c k = record k { members = k.members ++ c ∷ []; last_activity = started_at c }

-- the test of the loop: the entry is of the current cluster's action
unfoldable pub joins : ℕ → ClassifiedEntry → Cluster → Bool
joins window c k = leb (started_at c) (k.last_activity + window) && entry_referer c == k.referer

-- the loop, with the cluster that is open
unfoldable pub cluster_loop : ℕ → Cluster → List ClassifiedEntry → List Cluster
cluster_loop window current [] = current ∷ []
cluster_loop window current (c ∷ cs) =
    let closed = current ∷ cluster_loop window (new_cluster c) cs in
    let joined = cluster_loop window (add c current) cs in
    if is_navigation c then closed else if joins window c current then joined else closed

-- before the first entry no cluster is open, and the first entry always opens one
unfoldable pub cluster_sorted : ℕ → List ClassifiedEntry → List Cluster
cluster_sorted window [] = []
cluster_sorted window (c ∷ cs) = cluster_loop window (new_cluster c) cs

-- times are in microseconds
unfoldable pub cluster_entries : List ClassifiedEntry → ℕ → List Cluster
cluster_entries entries window_ms = cluster_sorted (window_ms * 1000) (sort_by started_at entries)
