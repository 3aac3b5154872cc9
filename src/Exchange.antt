-- ===== src/Exchange.antt =====
-- One turn of a client connection, as proxy/intercept.py and proxy/plain_http.py share it: what the
-- turn meets from outside, what it does, and how it ends.
pub mod Logs
use second_eye.Prelude.{
  ℕ, Bool, true, false, Option, none, some, List, [], ◌∷◌, ◌++◌, ◌==◌, nat_eq, if◌then◌else◌,
}
use second_eye.Json.{Bytes, Float64}
use second_eye.Har.{HarEntry, RequestEvent}
use second_eye.Manager.{Result, ok, err}
use second_eye.Splice.{Event, Relay, splice}
use second_eye.Upstream.{Network, Connection, UpstreamError, is_connection_error}
use second_eye.HttpCycle.{
  ClientEvent, UpstreamEvent, Sent, Reply, websocket_switching_protocols, response_sends,
  bad_gateway,
}

-- what happens outside during a turn
pub record Outside : Type 0 where
  pub client : List ClientEvent
  pub network : Network
  pub upstream : List UpstreamEvent
  pub started_at : ℕ
  pub time_ms : Float64
  -- whether the client takes the response
  pub delivered : Bool
  -- h11's `trailing_data` of both connections, and the traffic after an upgrade
  pub client_trailing : Bytes
  pub upstream_trailing : Bytes
  pub relay : List Event
  -- whether a side is in MUST_CLOSE, and whether `start_next_cycle` returns
  pub must_close : Bool
  pub can_restart : Bool

pub data Action : Type 0 where
  asked : RequestEvent → Bytes → Action
  forwarded : Connection → List Sent → Action
  recorded : HarEntry → Action
  answered : Reply → List Sent → Action
  switched : Relay → Action

-- why a connection ends
pub data End : Type 0 where
  client_gone bad_target gateway_failed raised upgraded closing : End

-- the actions of a turn, the state that it leaves, and its end, if the connection does not go on
abbrev pub Turn : Type 0 → Type 0
Turn S = List Action × (S × Option End)

-- the type of `on_entry_recorded`
abbrev pub Recorder : Type 0 → Type 0
Recorder S = HarEntry → S → Result (Unit {0}) × S

-- relay after an upgrade: what was read too far goes first
unfoldable pub raw_passthrough : Bytes → Bytes → List Event → Relay
raw_passthrough client_to_upstream upstream_to_client events =
    splice
      (record {
        to_client = upstream_to_client;
        to_destination = client_to_upstream;
        closed = false;
      })
      events

abbrev pub answer : Reply → Action
answer r = answered r (response_sends r)

-- `_send_bad_gateway`, then the end
unfoldable pub fail_gateway : {S : Type 0} → List Action → S → Turn S
fail_gateway done s = (done ++ answer bad_gateway ∷ [], (s, some gateway_failed))

-- a connection that fails: UpstreamConnectionError is answered, any other exception ends it all
unfoldable pub fail_connect : {S : Type 0} → List Action → UpstreamError → S → Turn S
fail_connect done e s =
    if is_connection_error e then fail_gateway done s else (done, (s, some raised))

-- whether the connection goes on after a response
unfoldable pub next_turn : Outside → Option End
next_turn o = if o.must_close then some closing else if o.can_restart then none else some closing

-- the turns one after the other, until one ends the connection; behind the list the client is gone
unfoldable pub serve :
    {S : Type 0} → (Outside → S → Turn S) → List Outside → S → List Action × (S × End)
serve turn [] s = ([], (s, client_gone))
serve turn (o ∷ os) s =
    let (done, (s', end)) = turn o s in
    let (more, (s'', end')) = serve turn os s' in
    elim end [ none ↦ (done ++ more, (s'', end')) | some e ↦ (done, (s', e)) ]
