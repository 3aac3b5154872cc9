-- ===== src/Polling/Order.antt =====
-- The occurrences of a polling group stand in the order of time.
use second_eye.Prelude.{
  ℕ, ◌≡◌, refl, Bool, true, false, ◌&&◌, ◌||◌, some, List, [], ◌∷◌, ◌++◌, arith, map, filter, All,
  All-append, ◌==◌, list_eq, nat_eq, pair_eq, option_eq, ltb, length, if_cases, Bool-cases,
  Option-cases, inl, inr,
}
use mathlib.Core.List.{Perm, append_assoc, append-nil, map-append}
use second_eye.Prelude.Dict.{Dict, insert, lookup, values}
use second_eye.Prelude.Sort.{IsSorted, All-sort_by, sort_by-IsSorted, sort_by-perm}
use second_eye.Urls.{Urls}
use second_eye.Classify.{ClassifiedEntry}
use second_eye.Cluster.{started_at}
use second_eye.Redirect.{indices}
use second_eye.Polling.{
  FloatOps, JsonReader, PollingGroup, Signature, signature, add_occurrence, by_signature, is_xhr,
  xhr_entries, gaps, median, is_regular, finalize_run, differs, run_loop, groups_of,
  detect_polling_groups,
}

-- `xs` can be had from `ys` by leaving elements out
abbrev pub is_subsequence : List ℕ → List ℕ → Bool
is_subsequence [] ys = true
is_subsequence (x ∷ xs) [] = false
is_subsequence (x ∷ xs) (y ∷ ys) = is_subsequence (x ∷ xs) ys || x == y && is_subsequence xs ys

subsequence_snoc_right :
    (xs ys : List ℕ) (c : ℕ) → is_subsequence xs ys ≡ true → is_subsequence xs (ys ++ c ∷ []) ≡ true
subsequence_snoc_right [] ys c h = refl
subsequence_snoc_right (x ∷ xs) [] c h = cc
subsequence_snoc_right (x ∷ xs) (y ∷ ys) c h =
    ground (arith, subsequence_snoc_right (x ∷ xs) ys c, subsequence_snoc_right xs ys c)

subsequence_nil : (c : ℕ) (ys : List ℕ) → is_subsequence (c ∷ []) (ys ++ c ∷ []) ≡ true
subsequence_nil c [] = ground arith
subsequence_nil c (y ∷ ys) = ground (arith, subsequence_nil c ys)

subsequence_snoc :
    (xs ys : List ℕ) (c : ℕ)
    → is_subsequence xs ys ≡ true
    → is_subsequence (xs ++ c ∷ []) (ys ++ c ∷ []) ≡ true
subsequence_snoc [] ys c h = subsequence_nil c ys
subsequence_snoc (x ∷ xs) [] c h = cc
subsequence_snoc (x ∷ xs) (y ∷ ys) c h =
    ground (arith, subsequence_snoc (x ∷ xs) ys c, subsequence_snoc xs ys c)

subsequence_tail :
    (x : ℕ) (xs ys : List ℕ) → is_subsequence (x ∷ xs) ys ≡ true → is_subsequence xs ys ≡ true
subsequence_tail x [] ys h = refl
subsequence_tail x (z ∷ xs) [] h = cc
subsequence_tail x (z ∷ xs) (y ∷ ys) h = ground (arith, subsequence_tail x (z ∷ xs) ys)

subsequence_front :
    (xs zs ys : List ℕ) → is_subsequence (xs ++ zs) ys ≡ true → is_subsequence xs ys ≡ true
subsequence_front [] zs ys h = refl
subsequence_front (x ∷ xs) zs [] h = cc
subsequence_front (x ∷ xs) zs (y ∷ ys) h =
    ground (arith, subsequence_front (x ∷ xs) zs ys, subsequence_front xs zs ys)

subsequence_back :
    (xs zs ys : List ℕ) → is_subsequence (xs ++ zs) ys ≡ true → is_subsequence zs ys ≡ true
subsequence_back [] zs ys h = h
subsequence_back (x ∷ xs) zs ys h = subsequence_back xs zs ys (subsequence_tail x (xs ++ zs) ys h)

-- the occurrences of `g` stand in the order of `ys`
abbrev pub InOrder : List ℕ → PollingGroup → Type 0
InOrder ys g = is_subsequence g.occurrence_indices ys ≡ true

module _ (f : FloatOps) (ys : List ℕ) where
  finalize_run-InOrder :
      (run : List ClassifiedEntry)
      → is_subsequence (indices run) ys ≡ true
      → All (InOrder ys) (finalize_run f run)
  unfolding finalize_run
  finalize_run-InOrder run h =
      let gs = gaps f (map started_at run) in
      let m = median f gs in
      elim (Bool-cases (ltb (length run) 3)) [
        | inl short ↦ rw short tt
        | inr long ↦ elim (Bool-cases (f.fle m (f.of_int 0))) [
          | inl zero_ ↦ rw (long, zero_) tt
          | inr pos ↦ elim (Bool-cases (is_regular f m gs)) [
            | inr irregular ↦ rw (long, pos, irregular) tt
            | inl regular ↦ rw (long, pos, regular) (h, tt)
          ]
        ]
      ]

  run_loop-InOrder :
      (r : JsonReader) (run cs : List ClassifiedEntry)
      → is_subsequence (indices (run ++ cs)) ys ≡ true
      → All (InOrder ys) (run_loop f r run cs)
  unfolding run_loop
  run_loop-InOrder r run [] h = finalize_run-InOrder run (rw (append-nil run) at h)
  run_loop-InOrder r run (c ∷ cs) h =
      let split : is_subsequence (indices run ++ indices (c ∷ cs)) ys ≡ true =
        rw (map-append (λ (d : ClassifiedEntry). d.index) run (c ∷ cs)) at h in
      if_cases (All (InOrder ys)) (differs f r run c) _ _
        (λ _.
          All-append (InOrder ys) (finalize_run f run) (run_loop f r (c ∷ []) cs)
            (finalize_run-InOrder run (subsequence_front (indices run) (indices (c ∷ cs)) ys split))
            (run_loop-InOrder r (c ∷ []) cs
              (subsequence_back (indices run) (indices (c ∷ cs)) ys split)))
        (λ _. run_loop-InOrder r (run ++ c ∷ []) cs (rw (append_assoc run (c ∷ []) cs) h))

-- the entries under each signature stand in the order of `ys`
abbrev AreInOrder : List ℕ → Dict Signature (List ClassifiedEntry) → Type 0
AreInOrder ys [] = Unit
AreInOrder ys ((k, cs) ∷ d) = (is_subsequence (indices cs) ys ≡ true) × AreInOrder ys d

AreInOrder-snoc :
    (ys : List ℕ) (i : ℕ) (d : Dict Signature (List ClassifiedEntry))
    → AreInOrder ys d
    → AreInOrder (ys ++ i ∷ []) d
AreInOrder-snoc ys i [] h = tt
AreInOrder-snoc ys i ((k, cs) ∷ d) h =
    (subsequence_snoc_right (indices cs) ys i h.0, AreInOrder-snoc ys i d h.1)

insert-AreInOrder :
    (ys : List ℕ) (k : Signature) (cs : List ClassifiedEntry)
    (d : Dict Signature (List ClassifiedEntry))
    → is_subsequence (indices cs) ys ≡ true
    → AreInOrder ys d
    → AreInOrder ys (insert k cs d)
unfolding insert
insert-AreInOrder ys k cs [] h hs = (h, tt)
insert-AreInOrder ys k cs ((j, ds) ∷ d) h hs =
    if_cases (AreInOrder ys) (k == j) _ _ (λ _. (h, hs.1))
      (λ _. (hs.0, insert-AreInOrder ys k cs d h hs.1))

lookup-AreInOrder :
    (ys : List ℕ) (k : Signature) (cs : List ClassifiedEntry)
    (d : Dict Signature (List ClassifiedEntry))
    → lookup k d ≡ some cs
    → AreInOrder ys d
    → is_subsequence (indices cs) ys ≡ true
unfolding lookup
lookup-AreInOrder ys k cs [] e hs = cc
lookup-AreInOrder ys k cs ((j, ds) ∷ d) e hs = elim (Bool-cases (k == j)) [
  | inl same ↦ let e' : some ds ≡ some cs = rw same at e in let p : ds ≡ cs = cc in rw (← p) hs.0
  | inr other_ ↦ lookup-AreInOrder ys k cs d (rw other_ at e) hs.1
]

module _ (u : Urls) where
  add_occurrence-AreInOrder :
      (ys : List ℕ) (c : ClassifiedEntry) (d : Dict Signature (List ClassifiedEntry))
      → AreInOrder ys d
      → AreInOrder (ys ++ c.index ∷ []) (add_occurrence u c d)
  unfolding add_occurrence
  add_occurrence-AreInOrder ys c d h =
      let k = signature u c in
      let i = c.index in
      let h' = AreInOrder-snoc ys i d h in
      elim (Option-cases (lookup k d)) [
        | inl new ↦
            rw (new, add_occurrence)
              (insert-AreInOrder (ys ++ i ∷ []) k (c ∷ []) d (subsequence_nil i ys) h')
        | inr (cs, old) ↦
            rw (old, add_occurrence)
              (insert-AreInOrder (ys ++ i ∷ []) k (cs ++ c ∷ []) d
                (rw (map-append (λ (e : ClassifiedEntry). e.index) cs (c ∷ []))
                  (subsequence_snoc (indices cs) ys i (lookup-AreInOrder ys k cs d old h)))
                h')
      ]

  by_signature-AreInOrder :
      (ys : List ℕ) (cs : List ClassifiedEntry) (d : Dict Signature (List ClassifiedEntry))
      → AreInOrder ys d
      → AreInOrder (ys ++ indices cs) (by_signature u d cs)
  unfolding by_signature
  by_signature-AreInOrder ys [] d h = rw (append-nil ys) h
  by_signature-AreInOrder ys (c ∷ cs) d h =
      let rest =
        by_signature-AreInOrder (ys ++ c.index ∷ []) cs (add_occurrence u c d)
          (add_occurrence-AreInOrder ys c d h) in
      rw (append_assoc ys (c.index ∷ []) (indices cs)) at rest

  module _ (f : FloatOps) (r : JsonReader) where
    groups_of-InOrder :
        (ys : List ℕ) (d : Dict Signature (List ClassifiedEntry))
        → AreInOrder ys d
        → All (InOrder ys) (groups_of f r (values d))
    unfolding groups_of values
    groups_of-InOrder ys [] h = tt
    groups_of-InOrder ys ((k, cs) ∷ d) h =
        All-append (InOrder ys) (run_loop f r [] cs) (groups_of f r (values d))
          (run_loop-InOrder f ys r [] cs h.0) (groups_of-InOrder ys d h.1)

    -- the occurrences of every group stand in the order of the entries that are grouped
    pub detect_polling_groups-InOrder :
        (entries : List ClassifiedEntry)
        → All (InOrder (indices (xhr_entries entries))) (detect_polling_groups f r u entries)
    unfolding detect_polling_groups
    detect_polling_groups-InOrder entries =
        let ys = indices (xhr_entries entries) in
        All-sort_by (λ (g : PollingGroup). g.first_index) (InOrder ys) _
          (groups_of-InOrder ys _ (by_signature-AreInOrder [] (xhr_entries entries) [] tt))

    -- The occurrences of every polling group are listed in the order of time: some list holds exactly
    -- the xhr-api entries, none left out and none twice, each started no later than all that follow it,
    -- and the occurrences of each group are a subsequence of its indices.
    pub detect_polling_groups_in_time :
        (entries : List ClassifiedEntry)
        → (order : List ClassifiedEntry) × IsSorted started_at order
          × Perm order (filter is_xhr entries)
          × All (InOrder (indices order)) (detect_polling_groups f r u entries)
    unfolding xhr_entries
    detect_polling_groups_in_time entries = (
      xhr_entries entries,
      sort_by-IsSorted started_at (filter is_xhr entries),
      sort_by-perm started_at (filter is_xhr entries),
      detect_polling_groups-InOrder entries,
    )
