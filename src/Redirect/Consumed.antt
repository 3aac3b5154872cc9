-- ===== src/Redirect/Consumed.antt =====
-- The indices that chains consume are no keys: `detect_redirect_chains` returns no chain inside another.
use second_eye.Prelude.{
  Distinct, ℕ, ◌≡◌, ◌⊎◌, refl, true, false, ◌||◌, List, [], ◌∷◌, ◌++◌, arith, nat_eq, contains,
  Bool-cases, inl, inr,
}
use second_eye.Prelude.Dict.{Dict, insert, keys}
use second_eye.Urls.{Urls}
use second_eye.Classify.{ClassifiedEntry}
use second_eye.Redirect.{
  RedirectChain, redirects, follow, indices, chain_loop, add_chain, nav_entries,
  detect_redirect_chains,
}

-- the indices of a chain's hops behind the first
abbrev pub consumed_of : List ClassifiedEntry → List ℕ
consumed_of [] = []
consumed_of (c ∷ cs) = indices cs

-- those of all chains
abbrev pub all_consumed : Dict ℕ RedirectChain → List ℕ
all_consumed [] = []
all_consumed ((k, ch) ∷ d) = consumed_of ch.hops ++ all_consumed d

pub contains-append :
    (k : ℕ) (xs ys : List ℕ) → contains (xs ++ ys) k ≡ (contains xs k || contains ys k)
contains-append k [] ys = refl
contains-append k (x ∷ xs) ys = ground (arith, contains-append k xs ys)

contains-keys-insert :
    (j k : ℕ) (ch : RedirectChain) (d : Dict ℕ RedirectChain)
    → contains (keys (insert k ch d)) j ≡ true
    → (j ≡ k) ⊎ (contains (keys d) j ≡ true)
unfolding insert keys
contains-keys-insert j k ch [] h = ground arith
contains-keys-insert j k ch ((i, w) ∷ d) h = ground (arith, contains-keys-insert j k ch d)

contains-all_consumed-insert :
    (j k : ℕ) (ch : RedirectChain) (d : Dict ℕ RedirectChain)
    → contains (all_consumed (insert k ch d)) j ≡ true
    → (contains (consumed_of ch.hops) j ≡ true) ⊎ (contains (all_consumed d) j ≡ true)
unfolding insert
contains-all_consumed-insert j k ch [] h =
    ground (arith, contains-append j (consumed_of ch.hops) [])
contains-all_consumed-insert j k ch ((i, w) ∷ d) h = ground (
  arith,
  contains-append j (consumed_of ch.hops) (all_consumed d),
  contains-append j (consumed_of w.hops) (all_consumed d),
  contains-append j (consumed_of w.hops) (all_consumed (insert k ch d)),
  contains-all_consumed-insert j k ch d,
)

module _ (u : Urls) where
  contains-follow :
      (j : ℕ) (c : ClassifiedEntry) (cs : List ClassifiedEntry)
      → contains (indices (follow u c cs)) j ≡ true
      → contains (indices cs) j ≡ true
  unfolding follow
  contains-follow j c [] h = h
  contains-follow j c (n ∷ cs) h = ground (arith, contains-follow j n cs)

  -- what the outer loop keeps between its rounds
  record Disjoint (cs : List ClassifiedEntry) (d : Dict ℕ RedirectChain) (consumed : List ℕ)
      : Type 0 where
    free : (k : ℕ) → contains (keys d) k ≡ true → contains consumed k ≡ false
    past : (k : ℕ) → contains (keys d) k ≡ true → contains (indices cs) k ≡ false
    used : (k : ℕ) → contains (all_consumed d) k ≡ true → contains consumed k ≡ true

  Disjoint-skip :
      (c : ClassifiedEntry) (cs : List ClassifiedEntry) (d : Dict ℕ RedirectChain)
      (consumed : List ℕ)
      → Disjoint (c ∷ cs) d consumed
      → Disjoint cs d consumed
  Disjoint-skip c cs d consumed h = record {
    free = h.free;
    past = λ k m. ground (arith, h.past k);
    used = h.used;
  }

  Disjoint-add :
      (c : ClassifiedEntry) (cs : List ClassifiedEntry) (d : Dict ℕ RedirectChain)
      (consumed : List ℕ)
      → contains (indices cs) c.index ≡ false
      → contains consumed c.index ≡ false
      → Disjoint (c ∷ cs) d consumed
      → Disjoint cs (add_chain c (follow u c cs) d) (indices (follow u c cs) ++ consumed)
  unfolding add_chain
  Disjoint-add c cs d consumed new fresh h =
      let hops = follow u c cs in
      let ch : RedirectChain = record { hops = c ∷ hops } in
      record {
        free = λ k m. ground (
          arith,
          h.free k,
          h.past k,
          contains-append k (indices hops) consumed,
          contains-follow k c cs,
          contains-keys-insert k c.index ch d,
        );
        past = λ k m. ground (arith, h.past k, contains-keys-insert k c.index ch d);
        used = λ k m. ground (
          arith,
          h.used k,
          contains-append k (indices hops) consumed,
          contains-all_consumed-insert k c.index ch d,
        );
      }

  -- no key of the dict is consumed by one of its chains
  abbrev IsApart : Dict ℕ RedirectChain → Type 0
  IsApart d = (k : ℕ) → contains (keys d) k ≡ true → contains (all_consumed d) k ≡ false

  chain_loop-IsApart :
      (cs : List ClassifiedEntry) (d : Dict ℕ RedirectChain) (consumed : List ℕ)
      → Distinct (indices cs)
      → Disjoint cs d consumed
      → IsApart (chain_loop u cs d consumed)
  unfolding chain_loop
  chain_loop-IsApart [] d consumed new h = λ k m. ground (arith, h.free k, h.used k)
  chain_loop-IsApart (c ∷ cs) d consumed new h =
      let skip = chain_loop-IsApart cs d consumed new.1 (Disjoint-skip c cs d consumed h) in
      elim (Bool-cases (contains consumed c.index)) [
        | inl old ↦ rw old skip
        | inr fresh ↦ elim (Bool-cases (redirects c)) [
          | inl r ↦
              rw (fresh, r)
                (chain_loop-IsApart cs _ _ new.1 (Disjoint-add c cs d consumed new.0 fresh h))
          | inr r ↦ rw (fresh, r) skip
        ]
      ]

  contains-all_consumed_add :
      (k : ℕ) (c : ClassifiedEntry) (cs : List ClassifiedEntry) (d : Dict ℕ RedirectChain)
      → contains (all_consumed (add_chain c (follow u c cs) d)) k ≡ true
      → (contains (indices cs) k ≡ true) ⊎ (contains (all_consumed d) k ≡ true)
  unfolding add_chain
  contains-all_consumed_add k c cs d h =
      let ch : RedirectChain = record { hops = c ∷ follow u c cs } in
      ground (arith, contains-follow k c cs, contains-all_consumed-insert k c.index ch d)

  contains-all_consumed_loop :
      (k : ℕ) (cs : List ClassifiedEntry) (d : Dict ℕ RedirectChain) (consumed : List ℕ)
      → contains (all_consumed (chain_loop u cs d consumed)) k ≡ true
      → (contains (indices cs) k ≡ true) ⊎ (contains (all_consumed d) k ≡ true)
  unfolding chain_loop
  contains-all_consumed_loop k [] d consumed h = inr h
  contains-all_consumed_loop k (c ∷ cs) d consumed h = ground (
    arith,
    contains-all_consumed_add k c cs d,
    contains-all_consumed_loop k cs d consumed,
    contains-all_consumed_loop k cs (add_chain c (follow u c cs) d)
        (indices (follow u c cs) ++ consumed),
  )

  -- only navigation entries are consumed
  pub contains-all_consumed :
      (k : ℕ) (entries : List ClassifiedEntry)
      → contains (all_consumed (detect_redirect_chains u entries)) k ≡ true
      → contains (indices (nav_entries entries)) k ≡ true
  unfolding detect_redirect_chains
  contains-all_consumed k entries h =
      elim (contains-all_consumed_loop k (nav_entries entries) [] [] h) [
        | inl in_ ↦ in_
        | inr none_ ↦ cc
      ]

  -- Where the navigation entries have distinct indices, an index under which a chain stands is that of
  -- a later hop of no chain: callers may treat the later hops as consumed.
  pub detect_redirect_chains_apart :
      (entries : List ClassifiedEntry) (k : ℕ)
      → Distinct (indices (nav_entries entries))
      → contains (keys (detect_redirect_chains u entries)) k ≡ true
      → contains (all_consumed (detect_redirect_chains u entries)) k ≡ false
  unfolding detect_redirect_chains
  detect_redirect_chains_apart entries k new =
      chain_loop-IsApart (nav_entries entries) [] [] new
        (unfold keys in record { free = λ k m. cc; past = λ k m. cc; used = λ k m. cc }) k
