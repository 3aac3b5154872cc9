-- ===== src/Signals/Endpoints.antt =====
-- The endpoints that `compute_distinct_endpoints` lists.
use second_eye.Prelude.{
  ◌≡◌, Bool, true, false, ◌&&◌, ◌||◌, not, List, [], ◌∷◌, arith, map, list_eq, nat_eq, pair_eq,
  contains, Eq, ◌==◌, Distinct, Bool-cases, inl, inr,
}
use second_eye.Prelude.Text.{Text}
use second_eye.Urls.{Urls}
use second_eye.Classify.{ClassifiedEntry}
use second_eye.Signals.{candidates}
use second_eye.Signals.Rollup.{
  EndpointSummary, endpoint_key, endpoint_loop, compute_distinct_endpoints,
}

-- the method and path of a summary
abbrev pub summary_key : EndpointSummary → Text × Text
summary_key s = (s.method, s.path)

module _ {ℓ} {A : Type ℓ} ⦃e : Eq A⦄ where
  seen_again :
      (k j : A) (seen : List A) (rest : Bool)
      → contains seen j ≡ true
      → (not (contains seen k) && rest) ≡ (not (contains seen k) && (k == j || rest))
  seen_again k j seen rest h = ground arith

  seen_first :
      (k j : A) (seen : List A) (rest : Bool)
      → contains seen j ≡ false
      → (k == j || (not (k == j || contains seen k) && rest))
        ≡ (not (contains seen k) && (k == j || rest))
  seen_first k j seen rest h = ground arith

module _ (u : Urls) where
  contains-endpoint_loop :
      (k : Text × Text) (seen : List (Text × Text)) (cs : List ClassifiedEntry)
      → contains (map summary_key (endpoint_loop u seen cs)) k
        ≡ (not (contains seen k) && contains (map (endpoint_key u) cs) k)
  unfolding endpoint_loop
  contains-endpoint_loop k seen [] = ground arith
  contains-endpoint_loop k seen (c ∷ cs) =
      let j = endpoint_key u c in
      elim (Bool-cases (contains seen j)) [
        | inl old ↦
            rw (old, contains-endpoint_loop k seen cs)
              (seen_again k j seen (contains (map (endpoint_key u) cs) k) old)
        | inr new ↦
            rw (new, contains-endpoint_loop k (j ∷ seen) cs)
              (seen_first k j seen (contains (map (endpoint_key u) cs) k) new)
      ]

  endpoint_loop-Distinct :
      (seen : List (Text × Text)) (cs : List ClassifiedEntry)
      → Distinct (map summary_key (endpoint_loop u seen cs))
  unfolding endpoint_loop
  endpoint_loop-Distinct seen [] = tt
  endpoint_loop-Distinct seen (c ∷ cs) =
      let k = endpoint_key u c in
      elim (Bool-cases (contains seen k)) [
        | inl old ↦ rw old (endpoint_loop-Distinct seen cs)
        | inr new ↦ rw new (
          ground (arith, contains-endpoint_loop k (k ∷ seen) cs),
          endpoint_loop-Distinct (k ∷ seen) cs,
        )
      ]

  -- The endpoints listed are distinct, and a method and path are listed exactly when some entry that is
  -- no static asset has them.
  pub compute_distinct_endpoints_lem :
      (classified : List ClassifiedEntry) (k : Text × Text)
      → Distinct (map summary_key (compute_distinct_endpoints u classified))
        × (contains (map summary_key (compute_distinct_endpoints u classified)) k
            ≡ contains (map (endpoint_key u) (candidates classified)) k)
  unfolding compute_distinct_endpoints
  compute_distinct_endpoints_lem classified k = (
    endpoint_loop-Distinct [] (candidates classified),
    contains-endpoint_loop k [] (candidates classified),
  )
