-- ===== src/Signals/Bodies.antt =====
-- `compute_debug_page_hints` and `compute_secret_findings`.
use second_eye.Prelude.{
  ℕ, Bool, not, Option, none, some, List, [], ◌∷◌, ◌==◌, list_eq, nat_eq, if◌then◌else◌,
}
use second_eye.Prelude.Text.{Text, codes, has_substring}
use second_eye.Prelude.Dict.{Dict, insert}
use second_eye.Json.{Bytes}
use second_eye.Classify.{ClassifiedEntry}
use second_eye.Signals.{candidates}

pub record DebugPageHint : Type 0 where
  pub framework : Text
  pub signature : Text

pub record SecretFinding : Type 0 where
  pub kind : Text
  pub value : Text

pub record Scanner : Type 0 where
  -- `body.decode("utf-8", errors="replace")`
  pub decode : Bytes → Text
  -- `re.compile(pattern).search(text)`, and the text of the match
  pub search : Text → Text → Option Text

abbrev pub debug_page_signatures : List DebugPageHint
debug_page_signatures =
    record {
      framework = codes "Django";
      signature = codes "You're seeing this because you have DEBUG = True";
    }
    ∷ record { framework = codes "Django"; signature = codes "django.core.handlers.exception" }
    ∷ record { framework = codes "Flask/Werkzeug"; signature = codes "Werkzeug Debugger" }
    ∷ record {
      framework = codes "Flask/Werkzeug";
      signature = codes "Traceback (most recent call last)";
    }
    ∷ record { framework = codes "Rails"; signature = codes "ActionController::RoutingError" }
    ∷ record { framework = codes "Rails"; signature = codes "Rails.root" }
    ∷ record { framework = codes "ASP.NET"; signature = codes "Server Error in '/' Application" }
    ∷ record { framework = codes "ASP.NET"; signature = codes "Stack Trace:" }
    ∷ record { framework = codes "PHP"; signature = codes "Fatal error:" }
    ∷ []

-- the first signature of the table that the text contains
unfoldable pub first_signature : List DebugPageHint → Text → Option DebugPageHint
first_signature [] text = none
first_signature (s ∷ ss) text =
    if has_substring text s.signature then some s else first_signature ss text

abbrev pub has_body : ClassifiedEntry → Bool
has_body c = not (c.entry.response.body == [])

module _ (sc : Scanner) where
  unfoldable pub debug_hint_of : ClassifiedEntry → Option DebugPageHint
  debug_hint_of c =
      if has_body c
      then first_signature debug_page_signatures (sc.decode c.entry.response.body)
      else none

  unfoldable pub debug_loop : Dict ℕ DebugPageHint → List ClassifiedEntry → Dict ℕ DebugPageHint
  debug_loop d [] = d
  debug_loop d (c ∷ cs) =
      debug_loop (elim (debug_hint_of c) [ none ↦ d | some h ↦ insert c.index h d ]) cs

  unfoldable pub compute_debug_page_hints : List ClassifiedEntry → Dict ℕ DebugPageHint
  compute_debug_page_hints classified = debug_loop [] (candidates classified)

  -- the findings of all patterns, each a label and a regular expression
  unfoldable pub secrets_in : List (Text × Text) → Text → List SecretFinding
  secrets_in [] text = []
  secrets_in ((kind, pattern_) ∷ ps) text =
      let rest = secrets_in ps text in
      elim (sc.search pattern_ text) [
        | none ↦ rest
        | some v ↦ record { kind = kind; value = v } ∷ rest
      ]

  abbrev pub secret_patterns : List (Text × Text)
  secret_patterns =
      (codes "AWS access key", codes "AKIA[0-9A-Z]{16}")
      ∷ (codes "PEM private key", codes "-----BEGIN (?:RSA |EC |OPENSSH |)PRIVATE KEY-----")
      ∷ (codes "JWT", codes "eyJ[A-Za-z0-9_-]+\\.[A-Za-z0-9_-]+\\.[A-Za-z0-9_-]+")
      ∷ []

  unfoldable pub secrets_of : ClassifiedEntry → List SecretFinding
  secrets_of c =
      if has_body c then secrets_in secret_patterns (sc.decode c.entry.response.body) else []

  unfoldable pub secret_loop :
      Dict ℕ (List SecretFinding) → List ClassifiedEntry → Dict ℕ (List SecretFinding)
  secret_loop d [] = d
  secret_loop d (c ∷ cs) =
      secret_loop (elim (secrets_of c) [ [] ↦ d | s ∷ ss ↦ insert c.index (s ∷ ss) d ]) cs

  unfoldable pub compute_secret_findings : List ClassifiedEntry → Dict ℕ (List SecretFinding)
  compute_secret_findings classified = secret_loop [] (candidates classified)
