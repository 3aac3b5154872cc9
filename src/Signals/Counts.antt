-- ===== src/Signals/Counts.antt =====
-- What the roll-ups count.
use second_eye.Prelude.{
  ℕ, zero, suc, ◌+◌, ◌≡◌, refl, ap, ◌≤◌, All, false, Option, none, some, List, [], ◌∷◌, arith, map,
  ◌==◌, nat_eq, list_eq, ◌||◌, contains, Distinct, if◌then◌else◌, Bool-cases, Option-cases, inl,
  inr,
}
use second_eye.Prelude.Dict.{Dict, insert, lookup, keys, lookup-insert}
use second_eye.Prelude.Sort.{sort_by, insert_by, IsSorted, sort_by-IsSorted}
use second_eye.Classify.{ClassifiedEntry}
use second_eye.Signals.{candidates}
use second_eye.Signals.Rollup.{
  StatusCodeSummary, bump_status, status_counts, status_summaries, compute_status_code_rollup,
}

-- how many of the entries have the status
unfoldable pub number_with_status : ℕ → List ClassifiedEntry → ℕ
number_with_status s [] = 0
number_with_status s (c ∷ cs) =
    (if s == c.entry.response.status then 1 else 0) + number_with_status s cs

-- the count that is in a dict after `n` more
abbrev pub counted : Option ℕ → ℕ → Option ℕ
counted none zero = none
counted none (suc n) = some (suc n)
counted (some m) n = some (m + n)

lookup-bump_status :
    (s k : ℕ) (d : Dict ℕ ℕ)
    → lookup s (bump_status k d) ≡ counted (lookup s d) (if s == k then 1 else 0)
unfolding bump_status
lookup-bump_status s k d = elim (Option-cases (lookup k d)) [
  | inl new ↦ rw (new, bump_status, lookup-insert s k 1 d) (ground arith)
  | inr (n, old) ↦ rw (old, bump_status, lookup-insert s k (n + 1) d) (ground arith)
]

lookup-status_counts :
    (s : ℕ) (d : Dict ℕ ℕ) (cs : List ClassifiedEntry)
    → lookup s (status_counts d cs) ≡ counted (lookup s d) (number_with_status s cs)
unfolding status_counts number_with_status
lookup-status_counts s d [] = ground arith
lookup-status_counts s d (c ∷ cs) =
    let k = c.entry.response.status in
    rw (lookup-status_counts s (bump_status k d) cs, lookup-bump_status s k d)
      (elim (Option-cases (lookup s d)) [
        | inl new ↦ rw new (ground arith)
        | inr (n, old) ↦ rw old (ground arith)
      ])

contains-keys_of_insert :
    (j k v : ℕ) (d : Dict ℕ ℕ) → contains (keys (insert k v d)) j ≡ (j == k || contains (keys d) j)
unfolding insert keys
contains-keys_of_insert j k v [] = ground arith
contains-keys_of_insert j k v ((i, w) ∷ d) = ground (arith, contains-keys_of_insert j k v d)

insert-Distinct : (k v : ℕ) (d : Dict ℕ ℕ) → Distinct (keys d) → Distinct (keys (insert k v d))
unfolding insert keys
insert-Distinct k v [] h = ground arith
insert-Distinct k v ((i, w) ∷ d) h = elim (Bool-cases (k == i)) [
  | inl same ↦ rw same h
  | inr other_ ↦
      rw other_ (ground (arith, contains-keys_of_insert i k v d), insert-Distinct k v d h.1)
]

bump_status-Distinct :
    (k : ℕ) (d : Dict ℕ ℕ) → Distinct (keys d) → Distinct (keys (bump_status k d))
unfolding bump_status
bump_status-Distinct k d h = elim (Option-cases (lookup k d)) [
  | inl new ↦ rw (new, bump_status) (insert-Distinct k 1 d h)
  | inr (n, old) ↦ rw (old, bump_status) (insert-Distinct k (n + 1) d h)
]

status_counts-Distinct :
    (d : Dict ℕ ℕ) (cs : List ClassifiedEntry)
    → Distinct (keys d)
    → Distinct (keys (status_counts d cs))
unfolding status_counts
status_counts-Distinct d [] h = h
status_counts-Distinct d (c ∷ cs) h =
    status_counts-Distinct (bump_status c.entry.response.status d) cs
      (bump_status-Distinct c.entry.response.status d h)

abbrev first : ℕ × ℕ → ℕ
first p = p.0

contains-keys_of_insert_by :
    (j k v : ℕ) (d : Dict ℕ ℕ)
    → contains (keys (insert_by first (k, v) d)) j ≡ (j == k || contains (keys d) j)
unfolding insert_by keys
contains-keys_of_insert_by j k v [] = ground arith
contains-keys_of_insert_by j k v ((i, w) ∷ d) = ground (arith, contains-keys_of_insert_by j k v d)

lookup-insert_by :
    (j k v : ℕ) (d : Dict ℕ ℕ)
    → contains (keys d) k ≡ false
    → lookup j (insert_by first (k, v) d) ≡ (if j == k then some v else lookup j d)
unfolding insert_by keys lookup
lookup-insert_by j k v [] h = ground arith
lookup-insert_by j k v ((i, w) ∷ d) h = ground (arith, lookup-insert_by j k v d)

contains-keys_of_sort_by :
    (j : ℕ) (d : Dict ℕ ℕ) → contains (keys (sort_by first d)) j ≡ contains (keys d) j
unfolding sort_by keys
contains-keys_of_sort_by j [] = refl
contains-keys_of_sort_by j ((k, v) ∷ d) =
    ground (arith, contains-keys_of_insert_by j k v (sort_by first d), contains-keys_of_sort_by j d)

lookup-sort_by :
    (j : ℕ) (d : Dict ℕ ℕ) → Distinct (keys d) → lookup j (sort_by first d) ≡ lookup j d
unfolding sort_by keys lookup
lookup-sort_by j [] h = refl
lookup-sort_by j ((k, v) ∷ d) h = ground (
  arith,
  contains-keys_of_sort_by k d,
  lookup-insert_by j k v (sort_by first d),
  lookup-sort_by j d h.1,
)

abbrev pub as_pair : StatusCodeSummary → ℕ × ℕ
as_pair x = (x.status, x.count)

as_pair-status_summaries : (d : Dict ℕ ℕ) → map as_pair (status_summaries d) ≡ d
unfolding status_summaries
as_pair-status_summaries [] = refl
as_pair-status_summaries (p ∷ d) = ap (λ l. p ∷ l) (as_pair-status_summaries d)

status_summaries-IsSorted :
    (d : Dict ℕ ℕ)
    → IsSorted first d
    → IsSorted (λ (x : StatusCodeSummary). x.status) (status_summaries d)
unfolding status_summaries
status_summaries-IsSorted [] h = tt
status_summaries-IsSorted ((k, v) ∷ d) h = (above k d h.0, status_summaries-IsSorted d h.1)
  where
    above :
        (k : ℕ) (d : Dict ℕ ℕ)
        → All (λ y. k ≤ first y) d
        → All (λ (x : StatusCodeSummary). k ≤ x.status) (status_summaries d)
    above k [] h = tt
    above k (_ ∷ d) h = (h.0, above k d h.1)

-- The status roll-up is sorted by status and counts, for every status, the entries that are no static
-- asset and have that status; a status that none has is left out.
pub compute_status_code_rollup_lem :
    (classified : List ClassifiedEntry) (s : ℕ)
    → IsSorted (λ x. x.status) (compute_status_code_rollup classified)
      × (lookup s (map as_pair (compute_status_code_rollup classified))
          ≡ counted none (number_with_status s (candidates classified)))
unfolding compute_status_code_rollup
compute_status_code_rollup_lem classified s =
    let counts = status_counts [] (candidates classified) in
    (
      status_summaries-IsSorted (sort_by first counts) (sort_by-IsSorted first counts),
      rw
          (
            as_pair-status_summaries (sort_by first counts),
            lookup-sort_by s counts
                (status_counts-Distinct [] (candidates classified) (unfold keys in tt)),
            lookup-status_counts s [] (candidates classified),
          )
          (unfold lookup in refl),
    )
