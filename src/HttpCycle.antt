-- ===== src/HttpCycle.antt =====
-- src/secondeye/proxy/_http_cycle.py: one request and its response. h11 is not modelled: what its
-- `next_event` gives or raises is a list, in order, and behind the list the peer has closed.
use second_eye.Prelude.{
  ℕ, Bool, true, false, Option, none, some, List, [], ◌∷◌, ◌++◌, ◌==◌, list_eq, nat_eq,
  if◌then◌else◌,
}
use second_eye.Prelude.Text.{codes}
use second_eye.Json.{Bytes}
use second_eye.Har.{RequestEvent, ResponseEvent}

-- of the client's connection; `need_data` is a read that succeeded, `read_error` one that did not
pub data ClientEvent : Type 0 where
  protocol_error need_data read_error connection_closed end_of_message : ClientEvent
  request : RequestEvent → ClientEvent
  data_ : Bytes → ClientEvent

-- of the upstream connection
pub data UpstreamEvent : Type 0 where
  protocol_error need_data read_error paused connection_closed end_of_message : UpstreamEvent
  informational : ResponseEvent → UpstreamEvent
  response : ResponseEvent → UpstreamEvent
  data_ : Bytes → UpstreamEvent

-- what is handed to h11's `send`
pub data Sent : Type 0 where
  send_request : RequestEvent → Sent
  send_response : ResponseEvent → Sent
  send_data : Bytes → Sent
  send_end : Sent

-- a response, and whether it is an informational one
pub record Reply : Type 0 where
  pub event : ResponseEvent
  pub is_informational : Bool
  pub body : Bytes

abbrev pub websocket_switching_protocols : ℕ
websocket_switching_protocols = 101

-- the loop, with the request and the body so far; `none` is a result that is not ok
unfoldable pub read_loop :
    Option RequestEvent → Bytes → List ClientEvent → Option (Option RequestEvent × Bytes)
read_loop req body [] = none
read_loop req body (protocol_error ∷ events) = none
read_loop req body (read_error ∷ events) = none
read_loop req body (connection_closed ∷ events) = none
read_loop req body (need_data ∷ events) = read_loop req body events
read_loop req body (request r ∷ events) = read_loop (some r) body events
read_loop req body (data_ d ∷ events) = read_loop req (body ++ d) events
read_loop req body (end_of_message ∷ events) = some (req, body)

unfoldable pub read_request : List ClientEvent → Option (Option RequestEvent × Bytes)
read_request = read_loop none []

-- the data of a body, if it is not empty
unfoldable pub body_sends : Bytes → List Sent
body_sends body = if body == [] then [] else send_data body ∷ []

-- what is sent to the upstream
unfoldable pub forward_sends : RequestEvent → Bytes → List Sent
forward_sends r body = send_request r ∷ body_sends body ++ send_end ∷ []

-- RemoteProtocolError, or OSError of a read
pub data Received : Type 0 where
  received : Reply → Received
  not_received : Received

-- the end of the loop
unfoldable pub finish_reply : Option ResponseEvent → Bool → Bytes → Received
finish_reply none is_informational body = not_received
finish_reply (some e) is_informational body =
    received (record { event = e; is_informational = is_informational; body = body })

-- the loop over the upstream's events
unfoldable pub receive_loop : Option ResponseEvent → Bytes → List UpstreamEvent → Received
receive_loop resp body [] = finish_reply resp false body
receive_loop resp body (protocol_error ∷ events) = not_received
receive_loop resp body (read_error ∷ events) = not_received
receive_loop resp body (need_data ∷ events) = receive_loop resp body events
receive_loop resp body (paused ∷ events) = finish_reply resp false body
receive_loop resp body (informational e ∷ events) =
    let more = receive_loop resp body events in
    if e.status_code == websocket_switching_protocols then finish_reply (some e) true body else more
receive_loop resp body (response e ∷ events) = receive_loop (some e) body events
receive_loop resp body (data_ d ∷ events) = receive_loop resp (body ++ d) events
receive_loop resp body (end_of_message ∷ events) = finish_reply resp false body
receive_loop resp body (connection_closed ∷ events) = finish_reply resp false body

unfoldable pub receive : List UpstreamEvent → Received
receive = receive_loop none []

-- what is sent to the client
unfoldable pub response_sends : Reply → List Sent
response_sends r =
    if r.is_informational
    then send_response r.event ∷ []
    else send_response r.event ∷ body_sends r.body ++ send_end ∷ []

abbrev pub bad_gateway_body : Bytes
bad_gateway_body = codes "secondeye: upstream/destination unreachable\n"

unfoldable pub bad_gateway : Reply
bad_gateway = record {
  event = record {
    status_code = 502;
    reason = [];
    http_version = codes "1.1";
    headers = (codes "Content-Length", codes "44") ∷ (codes "Connection", codes "close") ∷ [];
  };
  is_informational = false;
  body = bad_gateway_body;
}
