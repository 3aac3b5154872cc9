-- ===== src/Leaf.antt =====
-- src/secondeye/tls/leaf.py: the contexts of LeafCertificateStore, one for each SNI.
use second_eye.Prelude.{ℕ, Option, none, some, list_eq, nat_eq}
use second_eye.Prelude.Text.{Text}
use second_eye.Prelude.Dict.{Dict, lookup, insert}

module _ {Context : Type 0} (build_context : Text → ℕ → Option Context) where
  -- the context that was built, or CertGenerationError, with the cache
  keep_context : Text → Option Context → Dict Text Context → Option Context × Dict Text Context
  keep_context sni none cache = (none, cache)
  keep_context sni (some context) cache = (some context, insert sni context cache)

  -- `build_context` is `_build_context`, for the randomness and time of the call
  unfoldable pub get_context : Text → ℕ → Dict Text Context → Option Context × Dict Text Context
  unfolding keep_context
  get_context sni seed cache = elim (lookup sni cache) [
    | some context ↦ (some context, cache)
    | none ↦ keep_context sni (build_context sni seed) cache
  ]
