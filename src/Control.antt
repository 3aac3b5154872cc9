-- ===== src/Control.antt =====
-- src/secondeye/recording/control.py: the control socket, from a request line to the reply line.
pub mod Abstract
pub mod Session
use second_eye.Prelude.{
  ℕ, Bool, true, false, Option, none, some, List, [], ◌∷◌, ◌++◌, map, ◌==◌, list_eq, nat_eq,
  if◌then◌else◌,
}
use second_eye.Prelude.Text.{Text, codes}
use second_eye.Prelude.Dict.{Dict, lookup}
use second_eye.Json.{
  Bytes, Float64, Json, null, bool, int, neg, flt, str, arr, obj, Items, nil, cons, Fields, end,
  field, get, Codecs,
}
use second_eye.Har.Parse.{to_text}
use second_eye.Manifest.{items}
use second_eye.Manifest.Stats.{scope_summary}
use second_eye.Manager.{
  Env, Error, already_active, name_conflict, no_active_capture, failure, Result, ok, err,
  ActiveCapture, CaptureResult, CaptureManager, start_capture,
}
use second_eye.Manager.Stop.{stop_capture, list_captures}

-- `json.loads(line)`: a value, JSONDecodeError, or another exception
pub data Loaded : Type 0 where
  parsed : Json → Loaded
  not_json : Loaded
  raised : Loaded

-- What the control server calls of the standard library.
pub record Wire : Type 0 where
  pub codecs : Codecs
  pub loads : Bytes → Loaded
  -- `json.dumps(response).encode("utf-8")`
  pub dumps : Fields → Bytes
  -- `{command!r}`, `{name!r}`, and a time in a message
  pub command_repr : Option Json → Text
  pub name_repr : Text → Text
  pub time_text : ℕ → Text

-- a handler takes the parameters and the state, and replies or raises
abbrev pub Handler : Type 0 → Type 0
Handler S = Fields → S → Result Fields × S

abbrev pub Handlers : Type 0 → Type 0
Handlers S = Dict Text (Handler S)

-- {"ok": False, "error": …} and {"ok": True, "result": …}
unfoldable pub error_reply : Fields → Fields
error_reply e = field (codes "ok") (bool false) (field (codes "error") (obj e) end)

unfoldable pub ok_reply : Json → Fields
ok_reply v = field (codes "ok") (bool true) (field (codes "result") v end)

-- an error with its type and message
unfoldable pub error_fields : Text → Text → Fields → Fields
error_fields kind message rest =
    field (codes "type") (str kind) (field (codes "message") (str message) rest)

protocol_error : Text → Fields
protocol_error message = error_reply (error_fields (codes "ProtocolError") message end)

module _ (w : Wire) where
  -- the three errors that are CaptureControlErrors
  unfoldable pub error_to_dict : Error → Option Fields
  error_to_dict (already_active name started_at) = some (
      error_fields (codes "CaptureAlreadyActiveError")
        (codes "a capture is already active ("
          ++ w.name_repr name
          ++ codes ", started "
          ++ w.time_text started_at
          ++ codes ")")
        (field (codes "name") (str name)
          (field (codes "started_at") (str (w.codecs.isoformat started_at)) end)))
  error_to_dict (name_conflict name output_dir) = some (
      error_fields (codes "CaptureNameConflictError")
        (codes "a capture named " ++ w.name_repr name ++ codes " already exists at " ++ output_dir)
        (field (codes "name") (str name) (field (codes "output_dir") (str output_dir) end)))
  error_to_dict no_active_capture =
      some
        (error_fields (codes "NoActiveCaptureError") (codes "no capture is currently active") end)
  error_to_dict failure = none

  -- what a value counts as in `x or y`
  unfoldable pub is_falsy : Json → Bool
  is_falsy null = true
  is_falsy (bool b) = if b then false else true
  is_falsy (int n) = n == 0
  is_falsy (neg n) = false
  is_falsy (flt x) = if x.bits == 0 then true else x.bits == 0x8000000000000000
  is_falsy (str t) = t == []
  is_falsy (arr nil) = true
  is_falsy (arr (cons v vs)) = false
  is_falsy (obj end) = true
  is_falsy (obj (field k v fs)) = false

  -- `request.get("params") or {}`, or `none` where that is no dict
  unfoldable pub params_of : Option Json → Option Fields
  unfolding is_falsy
  params_of none = some end
  params_of (some (obj fs)) = some fs
  params_of (some v) = if is_falsy v then some end else none

  -- `str(command)`
  unfoldable pub command_text : Option Json → Text
  command_text none = codes "None"
  command_text (some v) = to_text w.codecs v

  module _ {S : Type 0} where
    -- a CaptureControlError becomes a reply; any other exception goes on
    unfoldable pub serialized : Result Fields × S → Result Fields × S
    serialized (ok reply, s) = (ok reply, s)
    serialized (err e, s) = elim (error_to_dict e) [
      | none ↦ (err e, s)
      | some d ↦ (ok (error_reply d), s)
    ]

    dispatch_command : Handlers S → Option Json → Option Fields → S → Result Fields × S
    unfolding protocol_error
    dispatch_command handlers command none s =
        (ok (protocol_error (codes "params must be an object")), s)
    dispatch_command handlers command (some params) s =
        elim (lookup (command_text command) handlers) [
          | none ↦ (
            ok (
                error_reply (
                  error_fields (codes "UnknownCommand")
                    (codes "unknown command " ++ w.command_repr command) end)),
            s,
          )
          | some handler ↦ serialized (handler params s)
        ]

    unfoldable pub dispatch : Handlers S → Json → S → Result Fields × S
    unfolding dispatch_command protocol_error
    dispatch handlers (obj request) s =
        dispatch_command handlers (get (codes "command") request)
          (params_of (get (codes "params") request)) s
    dispatch handlers _ s = (ok (protocol_error (codes "request must be an object")), s)

    -- the reply to a request line, if one is written
    reply_line : Result Fields × S → Option Bytes × S
    reply_line (ok reply, s) = (some (w.dumps reply ++ codes "\n"), s)
    reply_line (err e, s) = (none, s)

    handle_line : Handlers S → Loaded → S → Option Bytes × S
    unfolding reply_line protocol_error
    handle_line handlers (parsed request) s = reply_line (dispatch handlers request s)
    handle_line handlers not_json s =
        reply_line (ok (protocol_error (codes "invalid JSON request")), s)
    handle_line handlers raised s = (none, s)

    -- one client: a line, empty at the end of the stream, and what is written back
    unfoldable pub handle_client : Handlers S → Bytes → S → Option Bytes × S
    unfolding handle_line reply_line protocol_error
    handle_client handlers line s =
        if line == [] then (none, s) else handle_line handlers (w.loads line) s

  unfoldable pub active_capture_to_dict : ActiveCapture → CaptureManager → Fields
  active_capture_to_dict a m = field (codes "name") (str a.name) (
      field (codes "started_at") (str (w.codecs.isoformat a.started_at)) (
        field (codes "output_dir") (str a.output_dir)
          (field (codes "scope") (obj (scope_summary m.scope)) end)))

  unfoldable pub capture_result_to_dict : CaptureResult → Fields
  capture_result_to_dict r = field (codes "name") (str r.name) (
      field (codes "request_count") (int r.request_count) (
        field (codes "total_bytes") (int r.total_bytes) (
          field (codes "output_dir") (str r.output_dir) (
            field (codes "raw_har_path") (str r.raw_har_path) (
              field (codes "manifest_path") (str r.manifest_path)
                (field (codes "analysis_path") (str r.analysis_path) end))))))

  module _ (env : Env) (now : ℕ) where
    start_reply : Result ActiveCapture × CaptureManager → Result Fields × CaptureManager
    start_reply (ok a, m) = (ok (ok_reply (obj (active_capture_to_dict a m))), m)
    start_reply (err e, m) = (err e, m)

    -- a missing name is a KeyError
    unfoldable pub start_handler : Handler CaptureManager
    unfolding start_reply
    start_handler params m = elim (get (codes "name") params) [
      | none ↦ (err failure, m)
      | some name ↦ start_reply (start_capture env now (to_text w.codecs name) m)
    ]

    stop_reply : Result CaptureResult × CaptureManager → Result Fields × CaptureManager
    stop_reply (ok r, m) = (ok (ok_reply (obj (capture_result_to_dict r))), m)
    stop_reply (err e, m) = (err e, m)

    unfoldable pub stop_handler : Handler CaptureManager
    unfolding stop_reply
    stop_handler params m = stop_reply (stop_capture env now m)

    unfoldable pub list_handler : Handler CaptureManager
    list_handler params m =
        (ok (ok_reply (arr (items (λ r. obj (capture_result_to_dict r)) (list_captures env m)))), m)

    unfoldable pub build_capture_handlers : Handlers CaptureManager
    build_capture_handlers =
        (codes "capture.start", start_handler)
        ∷ (codes "capture.stop", stop_handler)
        ∷ (codes "capture.list", list_handler)
        ∷ []
