-- ===== src/Cli/Capturing.antt =====
-- `secondeye capture start` against the daemon: what the client prints for each outcome.
use second_eye.Prelude.{
  ℕ, ◌≡◌, refl, true, false, Option, none, some, List, [], ◌∷◌, ◌++◌, nat_eq, list_eq, option_eq,
  inl, inr,
}
use second_eye.Prelude.Text.{Text, codes}
use second_eye.Prelude.Dict.{lookup}
use second_eye.Json.{obj, str, Fields, field, end, get, Lawful}
use second_eye.Har.Parse.{to_text}
use second_eye.Har.RoundTrip.{parse_time-isoformat}
use second_eye.Manifest.{items, nullable}
use second_eye.Manifest.Stats.{ScopeConfig, scope_summary}
use second_eye.Manager.{
  Env, Result, ok, err, already_active, name_conflict, ActiveCapture, CaptureManager, start_capture,
}
use second_eye.Control.{
  Wire, is_falsy, dispatch, build_capture_handlers, serialized, start_handler, error_to_dict,
  error_reply, error_fields, ok_reply, params_of, command_text, active_capture_to_dict,
}
use second_eye.Control.Abstract.{start, command_request, request_json}
use second_eye.Control.Session.{start_outcome}
use second_eye.Cli.{
  tick, cross, Shown, Response, unavailable, replied, Console, is_missing, format_scope, texts_at,
  texts, dict_of, format_utc_time, format_local_time, text_at, active_error, conflict_error,
  start_error, start_refused, start_shown, show_capture_start,
}

-- an exception of a handler closes the connection without a reply
unfoldable pub response_of : Result Fields → Response
response_of (ok reply) = replied reply
response_of (err e) = unavailable

module _ (w : Wire) (k : Console) where
  format_scope-summary :
      (s : ScopeConfig) → (t : Text) × (format_scope w k (scope_summary s) ≡ some t)
  unfolding format_scope scope_summary texts_at texts is_missing is_falsy get list_eq nat_eq items
      nullable
  format_scope-summary s = of_parts s.targets s.target_regex
    where
      of_parts :
          (ts : List Text) (ps : Option (List Text))
          → (t : Text) × (format_scope w k
                (scope_summary (record s { targets = ts; target_regex = ps }))
              ≡ some t)
      of_parts [] none = (_, refl)
      of_parts [] (some []) = (_, refl)
      of_parts [] (some (p ∷ ps)) = (_, refl)
      of_parts (t ∷ ts) none = (_, refl)
      of_parts (t ∷ ts) (some []) = (_, refl)
      of_parts (t ∷ ts) (some (p ∷ ps)) = (_, refl)

  -- the command, sent to a daemon whose manager is `m`
  unfoldable pub run_capture_start : Env → ℕ → Text → CaptureManager → Option Shown
  run_capture_start env now name m = show_capture_start w k (
      response_of
        (dispatch w (build_capture_handlers w env now) (command_request (start name)) m).0)

  -- what is printed for each outcome of a start, and with which exit code
  abbrev pub Prints : Result ActiveCapture → Shown → Type 0
  Prints (ok a) s =
      (s.code ≡ 0)
      × (s.err ≡ [])
      × (lines : List Text) × (s.out
          ≡ (k.green (codes "✓") ++ codes " Capture started: " ++ a.name) ∷ lines)
  Prints (err (already_active name started_at)) s =
      (s.code ≡ 1)
      × (s.out ≡ [])
      × (s.err
          ≡ (k.red (codes "✗")
              ++ (codes " "
                  ++ (codes "Cannot start capture: a capture is already active ("
                      ++ k.repr (str name)
                      ++ codes ", started "
                      ++ k.time_text started_at
                      ++ codes ").")))
            ∷ codes "  Run 'secondeye capture stop' first."
            ∷ [])
  Prints (err (name_conflict name dir)) s =
      (s.code ≡ 1)
      × (s.out ≡ [])
      × (s.err
          ≡ (k.red (codes "✗")
              ++ (codes " "
                  ++ (codes "Cannot start capture: a capture named "
                      ++ k.repr (str name)
                      ++ codes " already exists for today.")))
            ∷ (codes "  Pick a different name or remove " ++ dir ++ codes ".")
            ∷ [])
  Prints (err e) s = false ≡ true

  abbrev pub Tells : Result ActiveCapture → Option Shown → Type 0
  Tells outcome x = (s : Shown) × (x ≡ some s) × Prints outcome s

  module _ (lawful : Lawful w.codecs) where
    utc_time-isoformat : (t : ℕ) → format_utc_time w k (w.codecs.isoformat t) ≡ some (k.utc_text t)
    unfolding format_utc_time
    utc_time-isoformat t = rw (parse_time-isoformat w.codecs lawful t) refl

    local_time-isoformat :
        (t : ℕ) → format_local_time w k (w.codecs.isoformat t) ≡ some (k.time_text t)
    unfolding format_local_time
    local_time-isoformat t = rw (parse_time-isoformat w.codecs lawful t) refl

    started-Tells :
        (a : ActiveCapture) (m : CaptureManager)
        → Tells
            (ok a)
            (show_capture_start w k (replied (ok_reply (obj (active_capture_to_dict w a m)))))
    unfolding show_capture_start start_shown is_missing is_falsy ok_reply active_capture_to_dict get
        list_eq nat_eq dict_of text_at to_text tick cross
    started-Tells a m =
        let (t, scoped) = format_scope-summary m.scope in
        rw (utc_time-isoformat a.started_at, scoped) (_, refl, (refl, refl, _, refl))

    busy-Tells :
        (name message : Text) (t : ℕ)
        → Tells (err (already_active name t)) (
            show_capture_start w k (
              replied (
                error_reply (
                  error_fields (codes "CaptureAlreadyActiveError") message (
                    field
                      (codes "name")
                      (str name)
                      (field (codes "started_at") (str (w.codecs.isoformat t)) end))))))
    unfolding show_capture_start start_refused start_error active_error is_missing is_falsy
        error_reply error_fields get list_eq nat_eq dict_of text_at to_text tick cross
    busy-Tells name message t = rw (local_time-isoformat t) (_, refl, (refl, refl, refl))

  taken-Tells :
      (name message dir : Text)
      → Tells (err (name_conflict name dir)) (
          show_capture_start w k (
            replied (
              error_reply (
                error_fields
                  (codes "CaptureNameConflictError")
                  message
                  (field (codes "name") (str name) (field (codes "output_dir") (str dir) end))))))
  unfolding show_capture_start start_refused start_error conflict_error is_missing is_falsy
      error_reply error_fields get list_eq nat_eq dict_of text_at to_text tick cross
  taken-Tells name message dir = (_, refl, (refl, refl, refl))

  -- Whatever the daemon's manager holds, `secondeye capture start` ends without an exception and tells
  -- the outcome: where the manager started the capture, its first line names it, on standard output
  -- alone, with exit code 0; where another capture is active, or the name is taken, it prints exactly
  -- the two lines of that refusal, with the active capture's name and time or the directory that is
  -- there, on standard error alone, with exit code 1. The datetime codecs are taken to be lawful, and
  -- the reply to reach the client as it was sent.
  pub run_capture_start-Tells :
      Lawful w.codecs
      → (env : Env) (now : ℕ) (name : Text) (m : CaptureManager)
      → Tells (start_capture env now name m).0 (run_capture_start env now name m)
  unfolding run_capture_start response_of dispatch command_request request_json
      build_capture_handlers params_of command_text get lookup list_eq nat_eq to_text serialized
      start_handler error_to_dict
  run_capture_start-Tells lawful env now name m = elim (start_outcome w env now name m) [
    | inl (a, m1, free, made, _, _, _, _) ↦ rw made (started-Tells lawful a m1)
    | inr (inl (a, active, made)) ↦ rw made (busy-Tells lawful a.name _ a.started_at)
    | inr (inr (dir, free, made)) ↦ rw made (taken-Tells name _ dir)
  ]
