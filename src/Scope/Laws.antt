-- ===== src/Scope/Laws.antt =====
-- Which hostnames are in scope.
use second_eye.Prelude.{
  ◌≡◌, ◌≢◌, ◌⊎◌, ◌↔◌, refl, sym, ap, ◌∙◌, Bool, true, false, none, some, List, [], ◌∷◌, ◌++◌, arith,
  ◌==◌, list_eq, nat_eq, Bool-cases, Option-cases, inl, inr,
}
use mathlib.Core.List.{reverse, reverse-append, reverse-reverse}
use second_eye.Prelude.Text.{Text, codes, ends_with, starts_with, starts_with-append}
use second_eye.Scope.{
  Matching, ScopeMatcher, normalize_hostname, match_exact, match_glob, match_regex, match_hostname,
}

starts_with-prefix : (s p : Text) → starts_with s p ≡ true → (q : Text) × (s ≡ p ++ q)
unfolding starts_with
starts_with-prefix s [] h = (s, refl)
starts_with-prefix [] (d ∷ p) h = cc
starts_with-prefix (c ∷ s) (d ∷ p) h =
    let (q, e) = starts_with-prefix s p (ground arith) in let same : c ≡ d = ground arith in (q, cc)

-- `endswith` is true of the texts that end so, and of no others
pub ends_with_iff : (s p : Text) → (ends_with s p ≡ true) ↔ ((q : Text) × (s ≡ q ++ p))
unfolding ends_with
ends_with_iff s p = (
  λ h.
      let (q, e) = starts_with-prefix (reverse s) (reverse p) h in
      (
        reverse q,
        sym (reverse-reverse s)
            ∙ ap reverse e
            ∙ reverse-append (reverse p) q
            ∙ ap (λ x. reverse q ++ x) (reverse-reverse p),
      ),
  λ (q, e). rw (e, reverse-append) (starts_with-append (reverse p) (reverse q)),
)

-- `h` is the target, or a subdomain of it
abbrev pub Under : Text → Text → Type 0
Under h t = (h ≡ t) ⊎ ((q : Text) × (h ≡ q ++ (codes "." ++ t)))

-- one of the targets is met
abbrev pub Any {ℓ} : {A : Type ℓ} → (A → Type 0) → List A → Type 0
Any P [] = ⊥
Any P (x ∷ xs) = P x ⊎ Any P xs

module _ (m : Matching) where
  match_exact_sound : (h t : Text) (ts : List Text) → match_exact m h ts ≡ some t → Any (Under h) ts
  unfolding match_exact
  match_exact_sound h t [] e = cc
  match_exact_sound h t (x ∷ ts) e = elim (Bool-cases (h == x)) [
    | inl same ↦ inl (inl (ground arith))
    | inr differ ↦ elim (Bool-cases (ends_with h (codes "." ++ x))) [
      | inl sub ↦ inl (inr ((ends_with_iff h (codes "." ++ x)).0 sub))
      | inr other ↦ inr (match_exact_sound h t ts (ground arith))
    ]
  ]

  match_exact_complete : (h : Text) (ts : List Text) → Any (Under h) ts → match_exact m h ts ≢ none
  unfolding match_exact
  match_exact_complete h [] a e = elim a [ ]
  match_exact_complete h (x ∷ ts) (inl (inl same)) e = ground arith
  match_exact_complete h (x ∷ ts) (inl (inr (q, sub))) e =
      ground (arith, (ends_with_iff h (codes "." ++ x)).1 (q, sub))
  match_exact_complete h (x ∷ ts) (inr a) e = ground (arith, match_exact_complete h ts a)

  abbrev MeetsGlob : Text → Text × Text → Type 0
  MeetsGlob h g = m.glob_match g.1 h ≡ true

  abbrev MeetsRegex : Text → Text × (Text → Bool) → Type 0
  MeetsRegex h g = g.1 h ≡ true

  match_glob_sound :
      (h t : Text) (gs : List (Text × Text)) → match_glob m h gs ≡ some t → Any (MeetsGlob h) gs
  unfolding match_glob
  match_glob_sound h t [] e = cc
  match_glob_sound h t ((o, p) ∷ gs) e = elim (Bool-cases (m.glob_match p h)) [
    | inl meets ↦ inl meets
    | inr fails ↦ inr (match_glob_sound h t gs (ground arith))
  ]

  match_glob_complete :
      (h : Text) (gs : List (Text × Text)) → Any (MeetsGlob h) gs → match_glob m h gs ≢ none
  unfolding match_glob
  match_glob_complete h [] a e = elim a [ ]
  match_glob_complete h ((o, p) ∷ gs) (inl meets) e = ground arith
  match_glob_complete h ((o, p) ∷ gs) (inr a) e = ground (arith, match_glob_complete h gs a)

  match_regex_sound :
      (h t : Text) (gs : List (Text × (Text → Bool)))
      → match_regex m h gs ≡ some t
      → Any (MeetsRegex h) gs
  unfolding match_regex
  match_regex_sound h t [] e = cc
  match_regex_sound h t ((o, p) ∷ gs) e = elim (Bool-cases (p h)) [
    | inl meets ↦ inl meets
    | inr fails ↦ inr (match_regex_sound h t gs (ground arith))
  ]

  match_regex_complete :
      (h : Text) (gs : List (Text × (Text → Bool)))
      → Any (MeetsRegex h) gs
      → match_regex m h gs ≢ none
  unfolding match_regex
  match_regex_complete h [] a e = elim a [ ]
  match_regex_complete h ((o, p) ∷ gs) (inl meets) e = ground arith
  match_regex_complete h ((o, p) ∷ gs) (inr a) e = ground (arith, match_regex_complete h gs a)

  -- the hostname, normalised, meets a target of the matcher
  abbrev pub InScope : ScopeMatcher → Text → Type 0
  InScope s h =
      Any (Under h) s.exact_targets
      ⊎ (Any (MeetsGlob h) s.glob_targets ⊎ Any (MeetsRegex h) s.regex_targets)

  nothing_meets :
      (s : ScopeMatcher) (h : Text)
      → InScope s h
      → match_exact m h s.exact_targets ≡ none
      → match_glob m h s.glob_targets ≡ none
      → match_regex m h s.regex_targets ≡ none
      → ⊥
  nothing_meets s h (inl a) e g r = match_exact_complete h s.exact_targets a e
  nothing_meets s h (inr (inl a)) e g r = match_glob_complete h s.glob_targets a g
  nothing_meets s h (inr (inr a)) e g r = match_regex_complete h s.regex_targets a r

  -- A hostname matches exactly when its normal form is an exact target or a subdomain of one (with the
  -- dot between them), or meets a glob or a regex target; and only a match names a target.
  pub match_hostname_iff :
      (s : ScopeMatcher) (hostname : Text)
      → (((match_hostname m s hostname).matched ≡ true) ↔ InScope s (normalize_hostname m hostname))
        × (((match_hostname m s hostname).matched ≡ false)
            ↔ ((match_hostname m s hostname).matched_target ≡ none))
  unfolding match_hostname
  match_hostname_iff s hostname =
      let h = normalize_hostname m hostname in
      elim (Option-cases (match_exact m h s.exact_targets)) [
        | inr (t, e) ↦
            rw e
              ((λ _. inl (match_exact_sound h t s.exact_targets e), λ _. refl), (λ p. cc, λ p. cc))
        | inl e ↦ elim (Option-cases (match_glob m h s.glob_targets)) [
          | inr (t, g) ↦
              rw (e, g)
                (
                  (λ _. inr (inl (match_glob_sound h t s.glob_targets g)), λ _. refl),
                  (λ p. cc, λ p. cc),
                )
          | inl g ↦ elim (Option-cases (match_regex m h s.regex_targets)) [
            | inr (t, r) ↦
                rw (e, g, r)
                  (
                    (λ _. inr (inr (match_regex_sound h t s.regex_targets r)), λ _. refl),
                    (λ p. cc, λ p. cc),
                  )
            | inl r ↦
                rw (e, g, r)
                  ((λ p. cc, λ a. absurd (nothing_meets s h a e g r)), (λ _. refl, λ _. refl))
          ]
        ]
      ]
