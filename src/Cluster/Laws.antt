-- ===== src/Cluster/Laws.antt =====
-- What the clusters are: a cut of the entries, in order of time, at every place where a new action begins and at no other.
use second_eye.Prelude.{
  ℕ, ◌+◌, ◌*◌, ◌≤◌, ◌≡◌, ◌≢◌, ◌⊎◌, ◌<◌, refl, sym, true, false, Option, List, [], ◌∷◌, ◌++◌, arith,
  All, Bool-cases, inl, inr,
}
use mathlib.Core.List.{append_assoc}
use second_eye.Prelude.Text.{Text}
use second_eye.Prelude.Sort.{sort_by}
use second_eye.Classify.{ClassifiedEntry}
use second_eye.Cluster.{
  Cluster, started_at, is_navigation, entry_referer, cluster_referer, new_cluster, add, joins,
  cluster_loop, cluster_sorted, cluster_entries,
}

-- the entries of a cluster, in order
abbrev pub entries_of : Cluster → List ClassifiedEntry
entries_of k = k.anchor ∷ k.members

abbrev pub all_entries : List Cluster → List ClassifiedEntry
all_entries [] = []
all_entries (k ∷ ks) = entries_of k ++ all_entries ks

all_entries-cluster_loop :
    (window : ℕ) (k : Cluster) (cs : List ClassifiedEntry)
    → all_entries (cluster_loop window k cs) ≡ entries_of k ++ cs
unfolding cluster_loop new_cluster add
all_entries-cluster_loop window k [] = refl
all_entries-cluster_loop window k (c ∷ cs) = ground (
  arith,
  all_entries-cluster_loop window (new_cluster c) cs,
  all_entries-cluster_loop window (add c k) cs,
  append_assoc k.members (c ∷ []) cs,
)

all_entries-cluster_sorted :
    (window : ℕ) (cs : List ClassifiedEntry) → all_entries (cluster_sorted window cs) ≡ cs
unfolding cluster_sorted new_cluster
all_entries-cluster_sorted window [] = refl
all_entries-cluster_sorted window (c ∷ cs) = all_entries-cluster_loop window (new_cluster c) cs

-- No entry is lost, repeated or moved: the clusters, read one after the other, are the entries in order of time.
pub all_entries-cluster_entries :
    (entries : List ClassifiedEntry) (window_ms : ℕ)
    → all_entries (cluster_entries entries window_ms) ≡ sort_by started_at entries
unfolding cluster_entries
all_entries-cluster_entries entries window_ms =
    all_entries-cluster_sorted (window_ms * 1000) (sort_by started_at entries)

-- `cs` are no navigations, name the referer `r`, and each comes within the window of the one before it, the first of `t`
abbrev pub Follows : ℕ → Option Text → ℕ → List ClassifiedEntry → Type 0
Follows window r t [] = Unit
Follows window r t (c ∷ cs) =
    (is_navigation c ≡ false)
    × (entry_referer c ≡ r)
    × (started_at c ≤ t + window)
    × Follows window r (started_at c) cs

-- the time of the last of `cs`, or `t`
abbrev pub last_time : ℕ → List ClassifiedEntry → ℕ
last_time t [] = t
last_time t (c ∷ cs) = last_time (started_at c) cs

-- all members of a cluster follow its anchor
pub record IsOneAction (window : ℕ) (k : Cluster) : Type 0 where
  pub referer : k.referer ≡ cluster_referer k.anchor
  pub last_activity : k.last_activity ≡ last_time (started_at k.anchor) k.members
  pub follows : Follows window (cluster_referer k.anchor) (started_at k.anchor) k.members

-- the entry `a` begins a new action after the cluster `k`
abbrev pub Begins : ℕ → Cluster → ClassifiedEntry → Type 0
Begins window k a =
    (is_navigation a ≡ true)
    ⊎ ((k.last_activity + window < started_at a) ⊎ (entry_referer a ≢ k.referer))

abbrev pub CutAfter : ℕ → Cluster → List Cluster → Type 0
CutAfter window k [] = Unit
CutAfter window k (l ∷ ls) = Begins window k l.anchor × CutAfter window l ls

-- every cluster but the first begins with an entry that the one before it could not take
abbrev pub Cut : ℕ → List Cluster → Type 0
Cut window [] = Unit
Cut window (k ∷ ks) = CutAfter window k ks

module _ (window : ℕ) where
  Follows-append :
      (r : Option Text) (t : ℕ) (cs : List ClassifiedEntry) (c : ClassifiedEntry)
      → Follows window r t cs
      → Follows window r (last_time t cs) (c ∷ [])
      → Follows window r t (cs ++ c ∷ [])
  Follows-append r t [] c h k = k
  Follows-append r t (d ∷ cs) c (nav, ref, near, rest) k =
      (nav, ref, near, Follows-append r (started_at d) cs c rest k)

  last_time-append :
      (t : ℕ) (cs : List ClassifiedEntry) (c : ClassifiedEntry)
      → last_time t (cs ++ c ∷ []) ≡ started_at c
  last_time-append t [] c = refl
  last_time-append t (d ∷ cs) c = last_time-append (started_at d) cs c

  new_cluster-IsOneAction : (c : ClassifiedEntry) → IsOneAction window (new_cluster c)
  unfolding new_cluster
  new_cluster-IsOneAction c = record { referer = refl; last_activity = refl; follows = tt }

  add-IsOneAction :
      (c : ClassifiedEntry) (k : Cluster)
      → is_navigation c ≡ false
      → joins window c k ≡ true
      → IsOneAction window k
      → IsOneAction window (add c k)
  unfolding add joins
  add-IsOneAction c k nav near h = record {
    referer = h.referer;
    last_activity = sym (last_time-append (started_at k.anchor) k.members c);
    follows =
        Follows-append (cluster_referer k.anchor) (started_at k.anchor) k.members c h.follows
          (nav, ground arith, ground arith, tt);
  }

  cluster_loop-IsOneAction :
      (k : Cluster) (cs : List ClassifiedEntry)
      → IsOneAction window k
      → All (IsOneAction window) (cluster_loop window k cs)
  unfolding cluster_loop
  cluster_loop-IsOneAction k [] h = (h, tt)
  cluster_loop-IsOneAction k (c ∷ cs) h = elim (Bool-cases (is_navigation c)) [
    | inl nav ↦ rw nav (h, cluster_loop-IsOneAction (new_cluster c) cs (new_cluster-IsOneAction c))
    | inr nav ↦ elim (Bool-cases (joins window c k)) [
      | inl near ↦
          rw (nav, near) (cluster_loop-IsOneAction (add c k) cs (add-IsOneAction c k nav near h))
      | inr far ↦
          rw (nav, far) (h, cluster_loop-IsOneAction (new_cluster c) cs (new_cluster-IsOneAction c))
    ]
  ]

  CutAfter-cluster_loop :
      (k current : Cluster) (cs : List ClassifiedEntry)
      → Begins window k current.anchor
      → CutAfter window k (cluster_loop window current cs)
  unfolding cluster_loop new_cluster add joins
  CutAfter-cluster_loop k current [] h = (h, tt)
  CutAfter-cluster_loop k current (c ∷ cs) h = elim (Bool-cases (is_navigation c)) [
    | inl nav ↦ rw nav (h, CutAfter-cluster_loop current (new_cluster c) cs (inl nav))
    | inr nav ↦ elim (Bool-cases (joins window c current)) [
      | inl near ↦ rw (nav, near) (CutAfter-cluster_loop k (add c current) cs h)
      | inr far ↦
          rw (nav, far) (h, CutAfter-cluster_loop current (new_cluster c) cs (inr (ground arith)))
    ]
  ]

  Cut-cluster_loop :
      (current : Cluster) (cs : List ClassifiedEntry) → Cut window (cluster_loop window current cs)
  unfolding cluster_loop new_cluster joins
  Cut-cluster_loop current [] = tt
  Cut-cluster_loop current (c ∷ cs) = elim (Bool-cases (is_navigation c)) [
    | inl nav ↦ rw nav (CutAfter-cluster_loop current (new_cluster c) cs (inl nav))
    | inr nav ↦ elim (Bool-cases (joins window c current)) [
      | inl near ↦ rw (nav, near) (Cut-cluster_loop (add c current) cs)
      | inr far ↦
          rw (nav, far) (CutAfter-cluster_loop current (new_cluster c) cs (inr (ground arith)))
    ]
  ]

  cluster_sorted-IsOneAction :
      (cs : List ClassifiedEntry)
      → All (IsOneAction window) (cluster_sorted window cs) × Cut window (cluster_sorted window cs)
  unfolding cluster_sorted
  cluster_sorted-IsOneAction [] = (tt, tt)
  cluster_sorted-IsOneAction (c ∷ cs) = (
    cluster_loop-IsOneAction (new_cluster c) cs (new_cluster-IsOneAction c),
    Cut-cluster_loop (new_cluster c) cs,
  )

-- Every cluster is one action: its members are no navigations, name the anchor's referer (its URL, if
-- the anchor is a navigation) and each comes within the window of the one before. And every cluster
-- but the first begins with an entry that the cluster before it could not take: a navigation, one
-- after the window, or one with another referer.
pub cluster_entries-IsOneAction :
    (entries : List ClassifiedEntry) (window_ms : ℕ)
    → All (IsOneAction (window_ms * 1000)) (cluster_entries entries window_ms)
      × Cut (window_ms * 1000) (cluster_entries entries window_ms)
unfolding cluster_entries
cluster_entries-IsOneAction entries window_ms =
    cluster_sorted-IsOneAction (window_ms * 1000) (sort_by started_at entries)
