-- ===== src/Scope.antt =====
-- src/secondeye/scope/matcher.py: hostname normalisation and scope matching.
pub mod Laws
pub mod Construction
use second_eye.Prelude.{
  ℕ, Bool, true, false, ◌||◌, Option, none, some, List, [], ◌∷◌, ◌++◌, map, ◌==◌, list_eq, nat_eq,
  contains, if◌then◌else◌,
}
use second_eye.Prelude.Text.{Text, codes, strip, rstrip_char, split_char, join, ends_with}

-- What matching calls of `idna`, `fnmatch`, `re` and `str`.
pub record Matching : Type 0 where
  -- `idna.encode(label, uts46=True).decode("ascii")`, where `none` is IDNAError
  pub idna_encode : Text → Option Text
  -- `str.lower` on any text
  pub lower_text : Text → Text
  -- `re.compile(fnmatch.translate(pattern)).match(text)` as a test
  pub glob_match : Text → Text → Bool
  -- `re.compile(pattern)`, where `none` is re.error
  pub compile_regex : Text → Option (Text → Bool)

abbrev pub glob_chars : List ℕ
glob_chars = codes "*?[]"

-- `any(ch in _GLOB_CHARS for ch in s)`
unfoldable pub has_glob_char : Text → Bool
has_glob_char [] = false
has_glob_char (d ∷ s) = contains glob_chars d || has_glob_char s

-- the error of the configuration, with the pattern
pub data ScopeResult {ℓ} (A : Type ℓ) : Type ℓ where
  ok : A → ScopeResult A
  scope_config_error : Text → ScopeResult A

pub record ScopeMatch : Type 0 where
  pub matched : Bool
  pub matched_target : Option Text

pub record ScopeMatcher : Type 0 where
  pub exact_targets : List Text
  -- the target as configured, and the normalised glob
  pub glob_targets : List (Text × Text)
  pub regex_targets : List (Text × (Text → Bool))

abbrev pub matched_by : Text → ScopeMatch
matched_by t = record { matched = true; matched_target = some t }

abbrev pub unmatched : ScopeMatch
unmatched = record { matched = false; matched_target = none }

-- the three loops of `match` in turn: the first target found is the match
unfoldable pub first_match : Option Text → Option Text → Option Text → ScopeMatch
first_match (some t) glob regex = matched_by t
first_match none (some t) regex = matched_by t
first_match none none (some t) = matched_by t
first_match none none none = unmatched

module _ (m : Matching) where
  unfoldable pub normalize_label : Text → Text
  normalize_label label =
      let encoded : Text = elim (m.idna_encode label) [ none ↦ m.lower_text label | some e ↦ e ] in
      if has_glob_char label then m.lower_text label else encoded

  unfoldable pub normalize_hostname : Text → Text
  normalize_hostname hostname =
      join (codes ".") (map normalize_label (split_char b'.' (rstrip_char b'.' (strip hostname))))

  -- the first loop of `__init__`; a target is appended to the list of its kind
  unfoldable pub add_targets : List Text → ScopeMatcher → ScopeMatcher
  add_targets [] s = s
  add_targets (t ∷ ts) s =
      let normalized = normalize_hostname t in
      add_targets ts (
        if has_glob_char normalized
        then record s { glob_targets = s.glob_targets ++ (t, normalized) ∷ [] }
        else record s { exact_targets = s.exact_targets ++ normalized ∷ [] })

  -- the second loop
  unfoldable pub add_regexes : List Text → ScopeMatcher → ScopeResult ScopeMatcher
  add_regexes [] s = ok s
  add_regexes (p ∷ ps) s = elim (m.compile_regex p) [
    | none ↦ scope_config_error p
    | some test ↦ add_regexes ps (record s { regex_targets = s.regex_targets ++ (p, test) ∷ [] })
  ]

  unfoldable pub scope_matcher : List Text → List Text → ScopeResult ScopeMatcher
  scope_matcher targets target_regexes =
      add_regexes target_regexes
        (add_targets targets (record { exact_targets = []; glob_targets = []; regex_targets = [] }))

  -- the loops of `match`: the target that matched
  unfoldable pub match_exact : Text → List Text → Option Text
  match_exact h [] = none
  match_exact h (t ∷ ts) =
      if h == t || ends_with h (codes "." ++ t) then some t else match_exact h ts

  unfoldable pub match_glob : Text → List (Text × Text) → Option Text
  match_glob h [] = none
  match_glob h ((original, pattern_) ∷ ts) =
      if m.glob_match pattern_ h then some original else match_glob h ts

  unfoldable pub match_regex : Text → List (Text × (Text → Bool)) → Option Text
  match_regex h [] = none
  match_regex h ((original, test) ∷ ts) = if test h then some original else match_regex h ts

  unfoldable pub match_hostname : ScopeMatcher → Text → ScopeMatch
  unfolding first_match
  match_hostname s hostname =
      let h = normalize_hostname hostname in
      first_match (match_exact h s.exact_targets) (match_glob h s.glob_targets)
        (match_regex h s.regex_targets)
