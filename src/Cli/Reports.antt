-- ===== src/Cli/Reports.antt =====
-- src/secondeye/cli.py: `proxy stop`, `proxy status`, `capture stop` and `capture list`, from the reply
-- to what is printed.
use second_eye.Prelude.{Option, none, some, List, [], ◌∷◌, ◌++◌, list_eq, nat_eq, if◌then◌else◌}
use second_eye.Prelude.Text.{Text, codes}
use second_eye.Json.{Json, null, arr, obj, Items, nil, cons, Fields, get}
use second_eye.Har.{◌>>=◌}
use second_eye.Upstream.{pos}
use second_eye.Control.{Wire, is_falsy}
use second_eye.Cli.{
  Shown, Response, unavailable, replied, Console, format_bytes, count_of, dict_of, tick, cross,
  is_missing, text_at, error_message, format_local_time, format_scope, failed_with, shown, refusal,
}

module _ (w : Wire) (k : Console) where
  unfoldable pub show_proxy_stop : Response → Option Shown
  unfolding tick cross
  show_proxy_stop unavailable =
      some (failed_with w k (refusal w k (codes "No running secondeye daemon found.") ∷ []))
  show_proxy_stop (replied response) =
      if is_missing w k (codes "ok") response
      then some (failed_with w k (refusal w k (error_message w k response) ∷ []))
      else some (shown w k ((tick w k ++ codes " secondeye daemon stopping.") ∷ []))

  -- a finished capture: its size, with other texts
  size_at : Fields → Option Text
  size_at result = do
    v ← get (codes "total_bytes") result
    n ← count_of v
    some (format_bytes k (pos n))

  stop_shown : Fields → Option Shown
  unfolding tick text_at size_at
  stop_shown response = do
    r ← get (codes "result") response
    result ← dict_of r
    size_str ← size_at result
    name ← text_at w k (codes "name") result
    request_count ← text_at w k (codes "request_count") result
    some (
        shown w k (
          (tick w k
            ++ codes " Capture stopped: "
            ++ name
            ++ codes " ("
            ++ request_count
            ++ codes " requests, "
            ++ size_str
            ++ codes ")")
          ∷ []))

  unfoldable pub show_capture_stop : Response → Option Shown
  unfolding stop_shown tick cross text_at size_at
  show_capture_stop unavailable = some (
      failed_with w k
        (refusal w k (codes "Cannot stop capture: no running secondeye daemon found.") ∷ []))
  show_capture_stop (replied response) =
      if is_missing w k (codes "ok") response
      then some (
          failed_with w k
            (refusal w k (codes "Cannot stop capture: " ++ error_message w k response) ∷ []))
      else stop_shown response

  -- a line for each capture
  capture_lines : Items → Option (List Text)
  unfolding text_at size_at
  capture_lines nil = some []
  capture_lines (cons v vs) = do
    capture ← dict_of v
    size_str ← size_at capture
    name ← text_at w k (codes "name") capture
    request_count ← text_at w k (codes "request_count") capture
    output_dir ← text_at w k (codes "output_dir") capture
    rest ← capture_lines vs
    some (
        (name
          ++ codes ": "
          ++ request_count
          ++ codes " requests, "
          ++ size_str
          ++ codes " -> "
          ++ output_dir)
        ∷ rest)

  list_shown : Option Json → Option Shown
  unfolding capture_lines text_at size_at
  list_shown (some (arr nil)) = some (shown w k (codes "No captures recorded yet this run." ∷ []))
  list_shown (some (arr (cons v vs))) = do lines ← capture_lines (cons v vs); some (shown w k lines)
  list_shown _ = none

  unfoldable pub show_capture_list : Response → Option Shown
  unfolding list_shown capture_lines cross text_at size_at
  show_capture_list unavailable =
      some (failed_with w k (refusal w k (codes "No running secondeye daemon found.") ∷ []))
  show_capture_list (replied response) =
      if is_missing w k (codes "ok") response
      then some (failed_with w k (refusal w k (error_message w k response) ∷ []))
      else list_shown (get (codes "result") response)

  -- the active capture in a status
  active_line : Option Json → Option Text
  unfolding text_at
  active_line (some null) = some (codes "Active capture: none")
  active_line (some (obj active)) = do
    time ← text_at w k (codes "started_at") active
    started_at ← format_local_time w k time
    request_count ← text_at w k (codes "request_count") active
    name ← text_at w k (codes "name") active
    some (
        codes "Active capture: "
        ++ name
        ++ codes " (started "
        ++ started_at
        ++ codes ", "
        ++ request_count
        ++ codes " requests so far)")
  active_line _ = none

  upstream_given : Fields → Option Text
  unfolding text_at
  upstream_given scope = do
    upstream ← text_at w k (codes "upstream") scope
    some (codes "Upstream:       " ++ upstream)

  upstream_line : Fields → Option Text
  unfolding upstream_given text_at
  upstream_line scope = do
    no_upstream ← get (codes "no_upstream") scope
    let given = upstream_given scope
    if is_falsy w no_upstream then given else some (codes "Upstream:       none (--no-upstream)")

  status_shown : Fields → Option Shown
  unfolding active_line upstream_line upstream_given text_at
  status_shown response = do
    r ← get (codes "result") response
    result ← dict_of r
    s ← get (codes "scope") result
    scope ← dict_of s
    listen ← text_at w k (codes "listen") result
    scope_str ← format_scope w k scope
    upstream ← upstream_line scope
    active ← active_line (get (codes "active_capture") result)
    some (
        shown w k (
          (codes "Daemon running: " ++ k.green (codes "yes"))
          ∷ (codes "Listener:       " ++ listen)
          ∷ (codes "Scope:          " ++ scope_str)
          ∷ upstream
          ∷ active
          ∷ []))

  unfoldable pub show_proxy_status : Response → Option Shown
  unfolding status_shown active_line upstream_line upstream_given text_at cross
  show_proxy_status unavailable =
      some (shown w k ((codes "Daemon running: " ++ k.red (codes "no")) ∷ []))
  show_proxy_status (replied response) =
      if is_missing w k (codes "ok") response
      then some (failed_with w k (refusal w k (error_message w k response) ∷ []))
      else status_shown response
