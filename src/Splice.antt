-- ===== src/Splice.antt =====
-- src/secondeye/proxy/splice.py: the blind relay of a connection that is out of scope. The two pumps
-- run at the same time; the events are what the two sides send, in the order in which it would come to
-- be read. What stands behind the first end is never read.
pub mod Verbatim
use second_eye.Prelude.{
  ℕ, Bool, true, false, Option, none, some, List, [], ◌∷◌, ◌++◌, if◌then◌else◌, ◌==◌, list_eq,
  nat_eq,
}
use second_eye.Prelude.Text.{Text}
use second_eye.Json.{Bytes}
use second_eye.Upstream.{ℤ, UpstreamError, Connection, Connected, opened, failed}

-- the pump that reads from the client, and the one that reads from the destination
pub data Pump : Type 0 where
  from_client from_destination : Pump

-- What a pump meets: a chunk that its side sends, which is written as soon as it is read, or its own
-- end, by the end of the stream or by an error of either side. A chunk whose writing fails stands
-- behind that end.
pub data Event : Type 0 where
  sends : Pump → Bytes → Event
  ended : Pump → Event

-- what was written so far, and whether the writers are closed
pub record Relay : Type 0 where
  pub to_client : Bytes
  pub to_destination : Bytes
  pub closed : Bool

unfoldable pub write_to : Pump → Bytes → Relay → Relay
write_to from_client data_ r = record r { to_destination = r.to_destination ++ data_ }
write_to from_destination data_ r = record r { to_client = r.to_client ++ data_ }

-- until one pump ends, which cancels the other, leaves unread what that one had still to read, and
-- closes both writers; an empty read is an end
unfoldable pub splice : Relay → List Event → Relay
splice r [] = r
splice r (ended p ∷ events) = record r { closed = true }
splice r (sends p data_ ∷ events) =
    let rest = splice (write_to p data_ r) events in
    if data_ == [] then record r { closed = true } else rest

-- `none` with an error where the destination cannot be reached
unfoldable pub blind_relay : Connected → Bytes → List Event → Option Relay
blind_relay (failed e) prebuffered events = none
blind_relay (opened c) prebuffered events =
    some (splice (record { to_client = []; to_destination = prebuffered; closed = false }) events)
