-- ===== src/Intercept/Refusals.antt =====
-- A request that meets a stop in its wait.
use second_eye.Prelude.{ℕ, ◌≡◌, refl, some, [], ◌∷◌}
use second_eye.Prelude.Text.{Text}
use second_eye.Json.{Bytes}
use second_eye.Har.{HarEntry, RequestEvent, build_har_entry}
use second_eye.Manager.{Env, ok, CaptureManager, record_entry}
use second_eye.Manager.Stop.{PendingStop, begin_stop}
use second_eye.Manager.Waiting.{begin_stop_refuses}
use second_eye.Upstream.{ℤ, UpstreamConnector, Connection, opened, connect_tls}
use second_eye.HttpCycle.{Reply, received, receive, read_request, forward_sends}
use second_eye.Exchange.{Outside, asked, forwarded, raised}
use second_eye.Intercept.{
  entry_url, record_response, record_built, handle_response, forward_request, handle_request,
  intercept_turn,
}

module _ (env : Env) (connector : UpstreamConnector) (sni : Text) (port : ℤ) where
  -- While a stop of the capture manager waits for its files, a request on an intercepted connection
  -- that the upstream answers gets no answer: it is read and forwarded, and then the recording raises,
  -- which ends the connection before anything is written to the client; the manager is as it was.
  pub intercept_turn-begin_stop :
      (now : ℕ) (m m1 : CaptureManager) (p : PendingStop) (o : Outside) (r : RequestEvent)
      (body : Bytes) (c : Connection) (reply : Reply) (e : HarEntry)
      → begin_stop env now m ≡ (ok p, m1)
      → read_request o.client ≡ some (some r, body)
      → connect_tls o.network connector sni port ≡ opened c
      → receive o.upstream ≡ received reply
      → build_har_entry r body reply.event reply.body
          (entry_url (record_entry env) connector sni port r)
          o.started_at
          o.time_ms
        ≡ some e
      → intercept_turn (record_entry env) connector sni port o m1
        ≡ (asked r body ∷ forwarded c (forward_sends r body) ∷ [], (m1, some raised))
  unfolding intercept_turn handle_request forward_request handle_response record_built
      record_response
  intercept_turn-begin_stop now m m1 p o r body c reply e stopping asks connects answers built =
      rw (asks, connects, answers, built, (begin_stop_refuses env now 0 [] e m m1 p stopping).1)
        refl
