-- ===== src/Listener/Peeking.antt =====
-- The SNI peek does not depend on how the client's bytes were cut into chunks.
use second_eye.Prelude.{
  ℕ, ◌≡◌, ◌≢◌, refl, sym, ap, ◌∙◌, ◌⊎◌, true, false, Option, none, some, List, [], ◌∷◌, ◌++◌, map,
  arith, All, Bool-cases, inl, inr, if◌then◌else◌,
}
use mathlib.Core.List.{append_assoc, append-nil}
use second_eye.Prelude.Text.{Text}
use second_eye.Json.{Bytes}
use second_eye.Scope.{Matching}
use second_eye.Sni.{
  SniOutcome, found, no_sni, malformed, incomplete, ClientHelloParseResult, needs,
  parse_client_hello,
}
use second_eye.Sni.Total.{is_final, parse_client_hello_total}
use second_eye.Sni.Buffering.{outcome_is_final}
use second_eye.Upstream.{ℤ}
use second_eye.Listener.{
  Read, chunk, Peek, closed_early, peeked, is_incomplete, peek_loop, Listener, Route, dropped,
  to_plain_http, to_interception, to_relay, domain_label, in_scope, route_peeked, route_connect,
}

-- the bytes of the chunks
unfoldable pub concat : List Bytes → Bytes
concat [] = []
concat (c ∷ cs) = c ++ concat cs

abbrev pub reads_of : List Bytes → List Read
reads_of = map chunk

-- a chunk that is read is not empty
abbrev pub NotEmpty : Bytes → Type 0
NotEmpty c = c ≢ []

-- the loop ended at the end of the stream, and all bytes together are still no whole ClientHello
abbrev pub RanOut : Bytes → List Bytes → Peek → Type 0
RanOut b cs p =
    (p ≡ closed_early)
    × (r : ClientHelloParseResult) × (parse_client_hello (b ++ concat cs) ≡ some r)
    × (is_incomplete r.outcome ≡ true)

-- the loop ended with a result, which is that of all bytes together; none of them is lost
abbrev pub Settled : Bytes → List Bytes → Peek → Type 0
Settled b cs p =
    (r : ClientHelloParseResult) × (pre : Bytes) × (rest : List Bytes) × (p
      ≡ peeked r pre (reads_of rest))
    × (pre ++ concat rest ≡ b ++ concat cs)
    × (parse_client_hello (b ++ concat cs) ≡ some r)
    × (is_incomplete r.outcome ≡ false)

final_of : (o : SniOutcome) → is_incomplete o ≡ false → is_final o ≡ true
final_of found h = refl
final_of no_sni h = refl
final_of malformed h = refl
final_of incomplete h = sym h

-- one round of the loop
pub peek_round :
    (b : Bytes) (c : ℕ) (c' : Bytes) (reads : List Read) (r : ClientHelloParseResult)
    → parse_client_hello (b ++ c ∷ c') ≡ some r
    → peek_loop b (chunk (c ∷ c') ∷ reads) ≡ (
        if is_incomplete r.outcome
        then peek_loop (b ++ c ∷ c') reads
        else peeked r (b ++ c ∷ c') reads)
unfolding peek_loop
peek_round b c c' reads r h = ground arith

peek_loop_cases :
    (b : Bytes) (cs : List Bytes) (r : ClientHelloParseResult)
    → parse_client_hello b ≡ some r
    → is_incomplete r.outcome ≡ true
    → All NotEmpty cs
    → RanOut b cs (peek_loop b (reads_of cs)) ⊎ Settled b cs (peek_loop b (reads_of cs))
unfolding concat
peek_loop_cases b [] r parsed waiting h =
    unfold peek_loop in inl (refl, r, ap parse_client_hello (append-nil b) ∙ parsed, waiting)
peek_loop_cases b ([] ∷ cs) r parsed waiting h = absurd (h.0 refl)
peek_loop_cases b ((c ∷ c') ∷ cs) r parsed waiting h =
    let grown = b ++ c ∷ c' in
    let (r', parsed') = parse_client_hello_total grown in
    let same : grown ++ concat cs ≡ b ++ concat ((c ∷ c') ∷ cs) =
      append_assoc b (c ∷ c') (concat cs) in
    elim (Bool-cases (is_incomplete r'.outcome)) [
      | inl more ↦
          let ih = peek_loop_cases grown cs r' parsed' more h.1 in
          rw (peek_round b c c' (reads_of cs) r' parsed', more) (rw same at ih)
      | inr done ↦
          let final = outcome_is_final grown (concat cs) r' parsed' (final_of r'.outcome done) in
          rw (peek_round b c c' (reads_of cs) r' parsed', done)
            (inr (r', grown, cs, refl, same, rw same at final, done))
    ]

parse-nil : parse_client_hello [] ≡ some (needs 5)
unfolding parse_client_hello
parse-nil = refl

-- Whatever the chunks that the client's bytes arrive in, none of them empty: either all bytes together
-- are still no whole ClientHello, and the loop ends with the stream; or the loop ends with the result
-- that all bytes together have, and the bytes buffered and those still to be read are, one behind the
-- other, the bytes of the client.
pub peek_loop_lem :
    (cs : List Bytes)
    → All NotEmpty cs
    → RanOut [] cs (peek_loop [] (reads_of cs)) ⊎ Settled [] cs (peek_loop [] (reads_of cs))
peek_loop_lem cs h = peek_loop_cases [] cs (needs 5) parse-nil refl h

-- where a connection goes, without its bytes
pub data Decision : Type 0 where
  drop_ relay : Decision
  intercept : Text → Decision

abbrev pub decision : Route → Decision
decision dropped = drop_
decision (to_plain_http raw) = drop_
decision (to_interception label port pre reads) = intercept label
decision (to_relay host port pre reads) = relay

module _ (m : Matching) (l : Listener) (host : Text) where
  -- the decision that the code makes for a result
  abbrev pub decide : Option ClientHelloParseResult → Decision
  decide none = drop_
  decide (some r) = elim r.outcome [
    | incomplete ↦ drop_
    | malformed ↦ drop_
    | _ ↦ if in_scope m l r.sni then intercept (domain_label m r.sni host) else relay
  ]

  -- The decision for a tunnel depends on the client's bytes alone, not on the chunks that they come
  -- in, none of them empty: it is the one for the ClientHello in all of the bytes, and the connection
  -- is dropped where these hold no whole ClientHello.
  pub route_connect-decide :
      (port : ℤ) (cs : List Bytes)
      → All NotEmpty cs
      → decision (route_connect m l host port (peek_loop [] (reads_of cs)))
        ≡ decide (parse_client_hello (concat cs))
  unfolding route_connect route_peeked
  route_connect-decide port cs h = elim (peek_loop_lem cs h) [
    | inl (ended, r, parsed, waiting) ↦ rw (ended, parsed) (ground arith)
    | inr (r, pre, rest, ended, kept, parsed, done) ↦ rw (ended, parsed) (ground arith)
  ]
