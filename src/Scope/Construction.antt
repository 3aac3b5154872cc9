-- ===== src/Scope/Construction.antt =====
-- What `ScopeMatcher.__init__` makes of the configured targets.
use mathlib.Core.List.{append_assoc, append-nil}
use second_eye.Prelude.{
  ◌≡◌, ◌⊎◌, inl, inr, refl, sym, ap, ◌∙◌, Bool, not, Option, none, some, List, [], ◌∷◌, ◌++◌, map,
  filter, Bool-cases, Option-cases, All,
}
use second_eye.Prelude.Text.{Text}
use second_eye.Scope.{
  Matching, ScopeMatcher, ok, scope_config_error, has_glob_char, normalize_hostname, add_targets,
  add_regexes, scope_matcher,
}

module _ (m : Matching) where
  -- the normalised targets without a glob character, and those with one beside the target as configured
  abbrev pub exact_of : List Text → List Text
  exact_of ts = filter (λ t. not (has_glob_char t)) (map (normalize_hostname m) ts)

  abbrev pub globs_of : List Text → List (Text × Text)
  globs_of ts = filter (λ g. has_glob_char g.1) (map (λ t. (t, normalize_hostname m t)) ts)

  -- the first pattern that does not compile
  abbrev pub first_refused : List Text → Option Text
  first_refused [] = none
  first_refused (p ∷ ps) = elim (m.compile_regex p) [ none ↦ some p | some test ↦ first_refused ps ]

  add_targets_lem :
      (ts : List Text) (s : ScopeMatcher)
      → ((add_targets m ts s).exact_targets ≡ s.exact_targets ++ exact_of ts)
        × ((add_targets m ts s).glob_targets ≡ s.glob_targets ++ globs_of ts)
        × ((add_targets m ts s).regex_targets ≡ s.regex_targets)
  unfolding add_targets
  add_targets_lem [] s = (sym (append-nil s.exact_targets), sym (append-nil s.glob_targets), refl)
  add_targets_lem (t ∷ ts) s =
      let n = normalize_hostname m t in
      elim (Bool-cases (has_glob_char n)) [
        | inl glob ↦
            let s' = record s { glob_targets = s.glob_targets ++ (t, n) ∷ [] } in
            let (exact, globs, regexes) = add_targets_lem ts s' in
            rw (glob, add_targets)
              (exact, globs ∙ append_assoc s.glob_targets ((t, n) ∷ []) (globs_of ts), regexes)
        | inr plain ↦
            let s' = record s { exact_targets = s.exact_targets ++ n ∷ [] } in
            let (exact, globs, regexes) = add_targets_lem ts s' in
            rw (plain, add_targets)
              (exact ∙ append_assoc s.exact_targets (n ∷ []) (exact_of ts), globs, regexes)
      ]

  -- each pattern stands beside its compiled test, in order
  abbrev pub CompiledFrom : List Text → List (Text × (Text → Bool)) → Type 0
  CompiledFrom ps rs =
      (map (λ r. r.0) rs ≡ ps)
      × All (λ (r : Text × (Text → Bool)). m.compile_regex r.0 ≡ some r.1) rs

  -- what follows from the second loop, begun in `s`
  abbrev Regexes : List Text → ScopeMatcher → Type 0
  Regexes ps s =
      ((p : Text) × (first_refused ps ≡ some p) × (add_regexes m ps s ≡ scope_config_error p))
      ⊎ ((rs : List (Text × (Text → Bool))) × (first_refused ps ≡ none)
          × CompiledFrom ps rs
          × (add_regexes m ps s ≡ ok (record s { regex_targets = s.regex_targets ++ rs })))

  add_regexes_lem : (ps : List Text) (s : ScopeMatcher) → Regexes ps s
  unfolding add_regexes
  add_regexes_lem [] s = inr ([], refl, (refl, tt), rw (append-nil s.regex_targets) refl)
  add_regexes_lem (p ∷ ps) s = elim (Option-cases (m.compile_regex p)) [
    | inl refused ↦ inl (p, rw (refused, first_refused) refl, rw (refused, add_regexes) refl)
    | inr (test, compiled) ↦
        elim (add_regexes_lem ps (record s { regex_targets = s.regex_targets ++ (p, test) ∷ [] })) [
          | inl (q, first, raised) ↦
              inl (q, rw (compiled, first_refused) first, rw (compiled, add_regexes) raised)
          | inr (rs, first, (names, tests), made) ↦ inr (
            (p, test) ∷ rs,
            rw (compiled, first_refused) first,
            (ap (λ l. p ∷ l) names, (compiled, tests)),
            rw (compiled, add_regexes)
                (rw (← append_assoc s.regex_targets ((p, test) ∷ []) rs) made),
          )
        ]
  ]

  -- Construction raises for the first regex that does not compile, and for no other reason. Else the
  -- matcher has the normalised targets without a glob character, the globs beside their configured
  -- form, and every regex beside its compiled test, each list in the order of the configuration.
  pub scope_matcher_outcome :
      (targets regexes : List Text)
      → ((p : Text) × (first_refused regexes ≡ some p)
          × (scope_matcher m targets regexes ≡ scope_config_error p))
        ⊎ ((s : ScopeMatcher) × (first_refused regexes ≡ none)
            × (scope_matcher m targets regexes ≡ ok s)
            × (s.exact_targets ≡ exact_of targets)
            × (s.glob_targets ≡ globs_of targets)
            × CompiledFrom regexes s.regex_targets)
  unfolding scope_matcher
  scope_matcher_outcome targets regexes =
      let empty : ScopeMatcher = record {
        exact_targets = [];
        glob_targets = [];
        regex_targets = [];
      } in
      let (exact, globs, none_yet) = add_targets_lem targets empty in
      elim (add_regexes_lem regexes (add_targets m targets empty)) [
        | inl raised ↦ inl raised
        | inr (rs, first, compiled, made) ↦ inr (_, first, made, exact, globs, rw none_yet compiled)
      ]
