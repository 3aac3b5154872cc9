-- ===== src/Intercept/Answers.antt =====
-- Every request of an intercepted connection is answered, and recorded unless the gateway fails.
use second_eye.Prelude.{
  ◌≡◌, ◌≢◌, refl, ap, Option, none, some, List, [], ◌∷◌, arith, Bool-cases, inl, inr, nat_eq,
}
use mathlib.Core.Path.{subst}
use second_eye.Prelude.Text.{Text}
use second_eye.Json.{Bytes}
use second_eye.Har.{HarEntry, RequestEvent, build_har_entry}
use second_eye.Manager.{Result, ok, err}
use second_eye.Upstream.{
  ℤ, UpstreamConnector, UpstreamError, is_connection_error, Connection, Connected, opened, failed,
  connect_tls,
}
use second_eye.HttpCycle.{
  Reply, Received, received, not_received, receive, read_request, forward_sends, bad_gateway,
}
use second_eye.Exchange.{
  Outside, asked, forwarded, recorded, raised, Turn, Recorder, answer, fail_gateway, fail_connect,
  next_turn,
}
use second_eye.Exchange.Logs.{
  asked_in, answered_in, recorded_in, record_all, IsAnswered, gateway_status, gateway_status_of,
  build_har_entry-status, serve-IsAnswered,
}
use second_eye.Intercept.{
  entry_url, after_response, record_response, handle_response, forward_request, record_built,
  handle_request, intercept_turn, serve_intercepted,
}

module _ {S : Type 0} (record_entry : Recorder S) (connector : UpstreamConnector) (sni : Text)
    (port : ℤ) where
  -- what is to be shown of a turn that began in `s`
  abbrev OfTurn : S → Turn S → Type 0
  OfTurn s (done, (s', end)) =
      end ≢ some raised → IsAnswered record_entry s done s' (gateway_status_of end)

  after_response-OfTurn :
      (o : Outside) (r : RequestEvent) (body : Bytes) (c : Connection) (e : HarEntry)
      (reply : Reply) (s : S)
      → e.response.status ≡ reply.event.status_code
      → OfTurn s (
          after_response record_entry connector sni port
            (asked r body ∷ forwarded c (forward_sends r body) ∷ recorded e ∷ answer reply ∷ [])
            o
            reply
            (record_entry e s).1)
  unfolding after_response next_turn asked_in answered_in recorded_in record_all
  after_response-OfTurn o r body c e reply s same = ground arith

  fail_gateway-OfTurn :
      (r : RequestEvent) (body : Bytes) (s : S) → OfTurn s (fail_gateway (asked r body ∷ []) s)
  unfolding fail_gateway bad_gateway asked_in answered_in recorded_in record_all
  fail_gateway-OfTurn r body s n = (refl, refl, refl)

  fail_gateway-forwarded :
      (r : RequestEvent) (body : Bytes) (c : Connection) (s : S)
      → OfTurn s (fail_gateway (asked r body ∷ forwarded c (forward_sends r body) ∷ []) s)
  unfolding fail_gateway bad_gateway asked_in answered_in recorded_in record_all
  fail_gateway-forwarded r body c s n = (refl, refl, refl)

  fail_connect-OfTurn :
      (r : RequestEvent) (body : Bytes) (e : UpstreamError) (s : S)
      → OfTurn s (fail_connect (asked r body ∷ []) e s)
  unfolding fail_connect
  fail_connect-OfTurn r body e s = elim (Bool-cases (is_connection_error e)) [
    | inl failing ↦ rw failing (fail_gateway-OfTurn r body s)
    | inr other ↦ rw other (λ n. absurd (n refl))
  ]

  record_response-OfTurn :
      (o : Outside) (r : RequestEvent) (body : Bytes) (c : Connection) (e : HarEntry)
      (reply : Reply) (s : S) (x : Result (Unit {0}) × S)
      → e.response.status ≡ reply.event.status_code
      → record_entry e s ≡ x
      → OfTurn s (
          record_response record_entry connector sni port
            (asked r body ∷ forwarded c (forward_sends r body) ∷ [])
            o
            e
            reply
            x)
  unfolding record_response
  record_response-OfTurn o r body c e reply s (ok u, s') same h =
      subst
        (λ s1. OfTurn s (
          after_response record_entry connector sni port
            (asked r body ∷ forwarded c (forward_sends r body) ∷ recorded e ∷ answer reply ∷ []) o
            reply s1))
        (ap (λ y. y.1) h) (after_response-OfTurn o r body c e reply s same)
  record_response-OfTurn o r body c e reply s (err x, s') same h = λ n. absurd (n refl)

  handle_response-OfTurn :
      (o : Outside) (r : RequestEvent) (body : Bytes) (c : Connection) (x : Received) (s : S)
      → OfTurn s (
          handle_response record_entry connector sni port
            (asked r body ∷ forwarded c (forward_sends r body) ∷ [])
            o
            r
            body
            x
            s)
  unfolding handle_response record_built
  handle_response-OfTurn o r body c not_received s = fail_gateway-forwarded r body c s
  handle_response-OfTurn o r body c (received reply) s =
      of_built
        (build_har_entry r body reply.event reply.body (entry_url record_entry connector sni port r)
          o.started_at o.time_ms)
        refl
    where
      of_built :
          (x : Option HarEntry)
          → build_har_entry r body reply.event reply.body
              (entry_url record_entry connector sni port r)
              o.started_at
              o.time_ms
            ≡ x
          → OfTurn s (
              record_built record_entry connector sni port
                (asked r body ∷ forwarded c (forward_sends r body) ∷ [])
                o
                reply
                x
                s)
      of_built none unbuilt = λ n. absurd (n refl)
      of_built (some e) built =
          record_response-OfTurn o r body c e reply s (record_entry e s)
            (build_har_entry-status r body reply.event reply.body _ _ _ e built).0 refl

  forward_request-OfTurn :
      (o : Outside) (r : RequestEvent) (body : Bytes) (x : Connected) (s : S)
      → OfTurn s (forward_request record_entry connector sni port o r body x s)
  unfolding forward_request
  forward_request-OfTurn o r body (failed e) s = fail_connect-OfTurn r body e s
  forward_request-OfTurn o r body (opened c) s =
      handle_response-OfTurn o r body c (receive o.upstream) s

  handle_request-OfTurn :
      (o : Outside) (s : S) (x : Option (Option RequestEvent × Bytes))
      → OfTurn s (handle_request record_entry connector sni port o x s)
  unfolding handle_request asked_in answered_in recorded_in record_all
  handle_request-OfTurn o s none = λ n. (refl, refl, refl)
  handle_request-OfTurn o s (some (none, body)) = λ n. (refl, refl, refl)
  handle_request-OfTurn o s (some (some r, body)) =
      forward_request-OfTurn o r body (connect_tls o.network connector sni port) s

  -- However the client's requests, the upstream and the recorder behave: unless an exception ends the
  -- intercepted connection, each request that it asked is answered, the answers are the statuses of
  -- the recorded entries in their order, and after them 502 if the gateway failed (whether or not the
  -- client still takes that one), and the recorder's state is the one that the recorded entries lead
  -- to, so that nothing else was recorded.
  pub serve_intercepted-answers :
      (os : List Outside) (s : S)
      → let (log, (s', end)) = serve_intercepted record_entry connector sni port os s in
        end ≢ raised → IsAnswered record_entry s log s' (gateway_status end)
  unfolding serve_intercepted intercept_turn
  serve_intercepted-answers os s =
      serve-IsAnswered record_entry (intercept_turn record_entry connector sni port)
        (λ o s. handle_request-OfTurn o s (read_request o.client)) os s
