-- ===== src/Polling/Signatures.antt =====
-- The occurrences are grouped by signature, and each group found is a poll of one signature.
use second_eye.Prelude.{
  ◌≡◌, refl, true, some, List, [], ◌∷◌, ◌++◌, arith, All, All-append, filter, ◌==◌, list_eq, nat_eq,
  pair_eq, option_eq, Bool-cases, Option-cases, inl, inr,
}
use second_eye.Prelude.Dict.{Dict, insert, lookup, values}
use second_eye.Prelude.Sort.{All-sort_by}
use second_eye.Urls.{Urls}
use second_eye.Classify.{ClassifiedEntry}
use second_eye.Cluster.{started_at}
use second_eye.Polling.{
  FloatOps, JsonReader, PollingGroup, Signature, signature, is_xhr, add_occurrence, by_signature,
  xhr_entries, run_loop, groups_of, detect_polling_groups,
}
use second_eye.Polling.Laws.{IsPolling, run_loop-IsPolling}

module _ (u : Urls) where
  -- an xhr-api entry with the signature `k`
  abbrev pub HasSignature : Signature → ClassifiedEntry → Type 0
  HasSignature k c = (signature u c ≡ k) × (is_xhr c ≡ true)

  abbrev IsGrouped : Dict Signature (List ClassifiedEntry) → Type 0
  IsGrouped [] = Unit
  IsGrouped ((k, cs) ∷ d) = All (HasSignature k) cs × IsGrouped d

  key_eq : (j k : Signature) → (j == k) ≡ true → j ≡ k
  key_eq j k h = ground arith

  lookup-IsGrouped :
      (k : Signature) (d : Dict Signature (List ClassifiedEntry)) (cs : List ClassifiedEntry)
      → IsGrouped d
      → lookup k d ≡ some cs
      → All (HasSignature k) cs
  unfolding lookup
  lookup-IsGrouped k [] cs g h = cc
  lookup-IsGrouped k ((j, ds) ∷ d) cs g h = elim (Bool-cases (k == j)) [
    | inl e ↦
        let h' : some ds ≡ some cs = rw e at h in let p : ds ≡ cs = cc in rw (key_eq k j e, ← p) g.0
    | inr e ↦ lookup-IsGrouped k d cs g.1 (rw e at h)
  ]

  insert-IsGrouped :
      (k : Signature) (cs : List ClassifiedEntry) (d : Dict Signature (List ClassifiedEntry))
      → All (HasSignature k) cs
      → IsGrouped d
      → IsGrouped (insert k cs d)
  unfolding insert
  insert-IsGrouped k cs [] h g = (h, tt)
  insert-IsGrouped k cs ((j, ds) ∷ d) h g = elim (Bool-cases (k == j)) [
    | inl e ↦ rw e (rw (key_eq k j e) at h, g.1)
    | inr e ↦ rw e (g.0, insert-IsGrouped k cs d h g.1)
  ]

  add_occurrence-IsGrouped :
      (c : ClassifiedEntry) (d : Dict Signature (List ClassifiedEntry))
      → is_xhr c ≡ true
      → IsGrouped d
      → IsGrouped (add_occurrence u c d)
  unfolding add_occurrence
  add_occurrence-IsGrouped c d x g =
      let k = signature u c in
      elim (Option-cases (lookup k d)) [
        | inl new ↦ rw (new, add_occurrence) (insert-IsGrouped k (c ∷ []) d ((refl, x), tt) g)
        | inr (cs, old) ↦
            rw (old, add_occurrence)
              (insert-IsGrouped k (cs ++ c ∷ []) d
                (All-append (HasSignature k) cs (c ∷ []) (lookup-IsGrouped k d cs g old)
                  ((refl, x), tt))
                g)
      ]

  by_signature-IsGrouped :
      (d : Dict Signature (List ClassifiedEntry)) (cs : List ClassifiedEntry)
      → IsGrouped d
      → All (λ c. is_xhr c ≡ true) cs
      → IsGrouped (by_signature u d cs)
  unfolding by_signature
  by_signature-IsGrouped d [] g x = g
  by_signature-IsGrouped d (c ∷ cs) g x =
      by_signature-IsGrouped (add_occurrence u c d) cs (add_occurrence-IsGrouped c d x.0 g) x.1

  All-filter_xhr : (cs : List ClassifiedEntry) → All (λ c. is_xhr c ≡ true) (filter is_xhr cs)
  All-filter_xhr [] = tt
  All-filter_xhr (c ∷ cs) = elim (Bool-cases (is_xhr c)) [
    | inl x ↦ rw x (x, All-filter_xhr cs)
    | inr x ↦ rw x (All-filter_xhr cs)
  ]

  module _ (f : FloatOps) (r : JsonReader) where
    -- the group polls one signature
    pub record IsPollOf (g : PollingGroup) : Type 0 where
      pub key : Signature
      pub polling : IsPolling f r (HasSignature key) g

    All-IsPollOf :
        (k : Signature) (gs : List PollingGroup)
        → All (IsPolling f r (HasSignature k)) gs
        → All IsPollOf gs
    All-IsPollOf k [] h = tt
    All-IsPollOf k (g ∷ gs) h = (record { key = k; polling = h.0 }, All-IsPollOf k gs h.1)

    groups_of-IsPollOf :
        (d : Dict Signature (List ClassifiedEntry))
        → IsGrouped d
        → All IsPollOf (groups_of f r (values d))
    unfolding groups_of values
    groups_of-IsPollOf [] g = tt
    groups_of-IsPollOf ((k, cs) ∷ d) g =
        All-append IsPollOf (run_loop f r [] cs) (groups_of f r (values d))
          (All-IsPollOf k (run_loop f r [] cs)
            (run_loop-IsPolling f r (HasSignature k) [] cs tt tt g.0))
          (groups_of-IsPollOf d g.1)

    -- Each group found is a poll: three or more xhr-api entries of one signature (method, path and
    -- referer), listed from the first on, whose response bodies match that of the first, with a
    -- positive median gap and every gap within the tolerance of it.
    pub detect_polling_groups-IsPollOf :
        (entries : List ClassifiedEntry) → All IsPollOf (detect_polling_groups f r u entries)
    unfolding detect_polling_groups xhr_entries
    detect_polling_groups-IsPollOf entries =
        All-sort_by (λ (g : PollingGroup). g.first_index) IsPollOf _
          (groups_of-IsPollOf _ (
            by_signature-IsGrouped [] (xhr_entries entries) tt (
              All-sort_by started_at (λ c. is_xhr c ≡ true) (filter is_xhr entries)
                (All-filter_xhr entries))))
