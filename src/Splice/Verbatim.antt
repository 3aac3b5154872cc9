-- ===== src/Splice/Verbatim.antt =====
-- The relay changes nothing: each side receives what the other sent, in order, up to the first end.
use second_eye.Prelude.{
  ◌≡◌, refl, sym, ap, ◌∙◌, Bool, true, false, ◌||◌, some, List, [], ◌∷◌, ◌++◌, arith, list_eq,
  nat_eq, Bool-cases, inl, inr, if_true, if_false,
}
use mathlib.Core.List.{append_assoc}
use second_eye.Prelude.Text.{Text}
use second_eye.Json.{Bytes}
use second_eye.Upstream.{ℤ, Connection, opened}
use second_eye.Scope.{Matching}
use second_eye.Sni.{ClientHelloParseResult}
use second_eye.Sni.Total.{parse_client_hello_total}
use second_eye.Listener.{
  Read, chunk, timed_out, Peek, timeout, closed_early, peeked, is_incomplete, peek_loop, Listener,
  to_relay, route_connect, route_peeked,
}
use second_eye.Listener.Peeking.{peek_round}
use second_eye.Splice.{
  Pump, from_client, from_destination, Event, sends, ended, Relay, write_to, splice, blind_relay,
}

-- all bytes that the side of a pump sends
unfoldable pub sent_by : Pump → List Event → Bytes
sent_by p [] = []
sent_by p (ended q ∷ events) = sent_by p events
sent_by from_client (sends from_client data_ ∷ events) = data_ ++ sent_by from_client events
sent_by from_client (sends from_destination data_ ∷ events) = sent_by from_client events
sent_by from_destination (sends from_client data_ ∷ events) = sent_by from_destination events
sent_by from_destination (sends from_destination data_ ∷ events) =
    data_ ++ sent_by from_destination events

-- what stands behind the first end
unfoldable pub behind_end : List Event → List Event
behind_end [] = []
behind_end (ended p ∷ events) = events
behind_end (sends p [] ∷ events) = events
behind_end (sends p (c ∷ cs) ∷ events) = behind_end events

-- whether one of the pumps ends
unfoldable pub has_end : List Event → Bool
has_end [] = false
has_end (ended p ∷ events) = true
has_end (sends p [] ∷ events) = true
has_end (sends p (c ∷ cs) ∷ events) = has_end events

-- the relay `out` of the events, from `r` on
abbrev IsRelayOf : List Event → Relay → Relay → Type 0
IsRelayOf events r out =
    (out.to_destination ++ sent_by from_client (behind_end events)
      ≡ r.to_destination ++ sent_by from_client events)
    × (out.to_client ++ sent_by from_destination (behind_end events)
        ≡ r.to_client ++ sent_by from_destination events)
    × (out.closed ≡ (r.closed || has_end events))

splice_lem : (events : List Event) (r : Relay) → IsRelayOf events r (splice r events)
unfolding splice sent_by write_to behind_end has_end list_eq
splice_lem [] r = (refl, refl, ground arith)
splice_lem (ended p ∷ events) r = (refl, refl, ground arith)
splice_lem (sends from_client [] ∷ events) r = (refl, refl, ground arith)
splice_lem (sends from_destination [] ∷ events) r = (refl, refl, ground arith)
splice_lem (sends from_client (c ∷ cs) ∷ events) r =
    let (there, back, closed) = splice_lem events (write_to from_client (c ∷ cs) r) in
    (there ∙ append_assoc r.to_destination (c ∷ cs) (sent_by from_client events), back, closed)
splice_lem (sends from_destination (c ∷ cs) ∷ events) r =
    let (there, back, closed) = splice_lem events (write_to from_destination (c ∷ cs) r) in
    (there, back ∙ append_assoc r.to_client (c ∷ cs) (sent_by from_destination events), closed)

-- the bytes of the chunks among the reads
unfoldable pub bytes_in : List Read → Bytes
bytes_in [] = []
bytes_in (chunk c ∷ reads) = c ++ bytes_in reads
bytes_in (timed_out ∷ reads) = bytes_in reads

-- the peek keeps what it read
peek_loop-bytes_in :
    (b : Bytes) (reads : List Read) (r : ClientHelloParseResult) (pre : Bytes) (left : List Read)
    → peek_loop b reads ≡ peeked r pre left
    → pre ++ bytes_in left ≡ b ++ bytes_in reads
unfolding peek_loop bytes_in
peek_loop-bytes_in b [] r pre left h = absurd (ground arith)
peek_loop-bytes_in b (timed_out ∷ reads) r pre left h = absurd (ground arith)
peek_loop-bytes_in b (chunk [] ∷ reads) r pre left h = absurd (ground arith)
peek_loop-bytes_in b (chunk (c ∷ cs) ∷ reads) r pre left h =
    let grown = b ++ c ∷ cs in
    let (r', parsed) = parse_client_hello_total grown in
    let same = append_assoc b (c ∷ cs) (bytes_in reads) in
    let h' = sym (peek_round b c cs reads r' parsed) ∙ h in
    elim (Bool-cases (is_incomplete r'.outcome)) [
      | inl more ↦ peek_loop-bytes_in grown reads r pre left (sym (if_true _ _ more) ∙ h') ∙ same
      | inr done ↦
          let e : peeked r' grown reads ≡ peeked r pre left = sym (if_false _ _ done) ∙ h' in
          let (p, q) : (grown ≡ pre) × (reads ≡ left) = ground arith in rw (← p, ← q) same
    ]

module _ (m : Matching) (l : Listener) (host : Text) (port : ℤ) where
  relayed_peeked :
      (p : Peek) (h : Text) (q : ℤ) (pre : Bytes) (left : List Read)
      → route_connect m l host port p ≡ to_relay h q pre left
      → (r : ClientHelloParseResult) × (p ≡ peeked r pre left)
  unfolding route_connect route_peeked
  relayed_peeked timeout h q pre left e = absurd (ground arith)
  relayed_peeked closed_early h q pre left e = absurd (ground arith)
  relayed_peeked (peeked r pre' left') h q pre left e = (r, ground arith)

  -- A tunnel that the listener relays changes nothing and keeps the order, in both directions, and what
  -- it loses is exactly what was unread when the first side ended. The destination receives what the
  -- client sent, the peeked ClientHello first, up to the chunks behind the first end; the client
  -- receives what the destination sent, up to the chunks behind that end; and the writers are closed
  -- exactly if a side ended. The client is taken to send, in all, what the listener was to read.
  pub relay_verbatim :
      (reads left : List Read) (h : Text) (q : ℤ) (pre : Bytes) (c : Connection)
      (events : List Event)
      → route_connect m l host port (peek_loop [] reads) ≡ to_relay h q pre left
      → sent_by from_client events ≡ bytes_in left
      → (out : Relay) × (blind_relay (opened c) pre events ≡ some out)
        × (out.to_destination ++ sent_by from_client (behind_end events) ≡ bytes_in reads)
        × (out.to_client ++ sent_by from_destination (behind_end events)
            ≡ sent_by from_destination events)
        × (out.closed ≡ has_end events)
  unfolding blind_relay
  relay_verbatim reads left h q pre c events routed sent_ =
      let (r, peek) = relayed_peeked (peek_loop [] reads) h q pre left routed in
      let (there, back, closed) =
        splice_lem events (record { to_client = []; to_destination = pre; closed = false }) in
      (
        _,
        refl,
        there ∙ ap (λ b. pre ++ b) sent_ ∙ peek_loop-bytes_in [] reads r pre left peek,
        back,
        closed,
      )
