-- ===== src/Redirect/Laws.antt =====
-- What a chain is, and which indices the chains consume.
use second_eye.Prelude.{
  ℕ, ◌<◌, ◌≡◌, refl, true, List, [], ◌∷◌, ◌++◌, arith, length, ◌==◌, nat_eq, contains, if_cases,
  Bool-cases, inl, inr, ltb,
}
use second_eye.Prelude.Dict.{Dict, insert}
use second_eye.Urls.{Urls}
use second_eye.Classify.{ClassifiedEntry}
use second_eye.Redirect.{
  RedirectChain, redirects, leads_to, follow, indices, chain_loop, add_chain, nav_entries,
  detect_redirect_chains,
}

module _ (u : Urls) where
  -- each of `cs` is where the one before it redirects, the first where `c` does
  abbrev pub Linked : ClassifiedEntry → List ClassifiedEntry → Type 0
  Linked c [] = Unit
  Linked c (n ∷ ns) = (leads_to u c n ≡ true) × Linked n ns

  -- hops that begin at the entry `k`, two or more, each redirecting to the next
  abbrev pub IsChain : ℕ → List ClassifiedEntry → Type 0
  IsChain k [] = ⊥
  IsChain k (c ∷ cs) = (c.index ≡ k) × (0 < length cs) × Linked c cs

  follow-Linked : (c : ClassifiedEntry) (rest : List ClassifiedEntry) → Linked c (follow u c rest)
  unfolding follow
  follow-Linked c [] = tt
  follow-Linked c (n ∷ rest) = elim (Bool-cases (leads_to u c n)) [
    | inl yes_ ↦ rw yes_ (yes_, follow-Linked n rest)
    | inr no_ ↦ rw no_ tt
  ]

  abbrev pub AreChains : Dict ℕ RedirectChain → Type 0
  AreChains [] = Unit
  AreChains ((k, ch) ∷ d) = IsChain k ch.hops × AreChains d

  insert-AreChains :
      (k : ℕ) (ch : RedirectChain) (d : Dict ℕ RedirectChain)
      → IsChain k ch.hops
      → AreChains d
      → AreChains (insert k ch d)
  unfolding insert
  insert-AreChains k ch [] h hs = (h, tt)
  insert-AreChains k ch ((j, w) ∷ d) h hs = elim (Bool-cases (k == j)) [
    | inl e ↦ rw e (let p : k ≡ j = ground arith in rw p at h, hs.1)
    | inr e ↦ rw e (hs.0, insert-AreChains k ch d h hs.1)
  ]

  add_chain-AreChains :
      (c : ClassifiedEntry) (hops : List ClassifiedEntry) (d : Dict ℕ RedirectChain)
      → Linked c hops
      → AreChains d
      → AreChains (add_chain c hops d)
  unfolding add_chain
  add_chain-AreChains c hops d l h = elim (Bool-cases (ltb 1 (length (c ∷ hops)))) [
    | inl many ↦
        rw many (insert-AreChains c.index (record { hops = c ∷ hops }) d (refl, ground arith, l) h)
    | inr one ↦ rw one h
  ]

  chain_loop-AreChains :
      (cs : List ClassifiedEntry) (d : Dict ℕ RedirectChain) (consumed : List ℕ)
      → AreChains d
      → AreChains (chain_loop u cs d consumed)
  unfolding chain_loop
  chain_loop-AreChains [] d consumed h = h
  chain_loop-AreChains (c ∷ cs) d consumed h =
      let hops = follow u c cs in
      if_cases AreChains (contains consumed c.index) _ _ (λ _. chain_loop-AreChains cs d consumed h)
        (λ _.
          if_cases AreChains (redirects c) _ _
            (λ _.
              chain_loop-AreChains cs (add_chain c hops d) (indices hops ++ consumed)
                (add_chain-AreChains c hops d (follow-Linked c cs) h))
            (λ _. chain_loop-AreChains cs d consumed h))

  -- Every chain stands under the index of its first hop, has two hops or more, and each hop but the
  -- last has a 3xx status and a Location that leads to the URL of the next hop.
  pub detect_redirect_chains-AreChains :
      (entries : List ClassifiedEntry) → AreChains (detect_redirect_chains u entries)
  unfolding detect_redirect_chains
  detect_redirect_chains-AreChains entries = chain_loop-AreChains (nav_entries entries) [] [] tt
