-- ===== src/Cli.antt =====
-- src/secondeye/cli.py: what the commands that talk to the daemon share, and `capture start`, from the
-- reply to what is printed and the exit code. Lines printed before an exception are left out.
pub mod Capturing
pub mod Options
pub mod Reports
use second_eye.Prelude.{
  ℕ, ◌*◌, Bool, true, false, ◌&&◌, ◌||◌, not, Option, none, some, List, [], ◌∷◌, ◌++◌, map, ltb,
  ◌==◌, list_eq, nat_eq, option_eq, if◌then◌else◌,
}
use second_eye.Prelude.Text.{Text, codes, join, decimal}
use second_eye.Json.{Json, null, str, arr, obj, int, Items, nil, cons, Fields, get, Codecs}
use second_eye.Har.{◌>>=◌}
use second_eye.Har.Parse.{to_text, parse_time}
use second_eye.Upstream.{ℤ, pos, negsuc, int_text}
use second_eye.Control.{Wire, is_falsy}

-- what a command prints, and its exit code
pub record Shown : Type 0 where
  pub out : List Text
  pub err : List Text
  pub code : ℕ

-- a reply of the daemon; `unavailable` is ControlSocketUnavailableError
pub data Response : Type 0 where
  unavailable : Response
  replied : Fields → Response

-- What the commands call of the standard library.
pub record Console : Type 0 where
  -- `strftime` of a time in UTC, with and without the date
  pub utc_text : ℕ → Text
  pub time_text : ℕ → Text
  -- `{v!r}`
  pub repr : Json → Text
  -- `{n / 1024:.1f}` and `{n / (1024 * 1024):.1f}`
  pub kilobytes : ℕ → Text
  pub megabytes : ℕ → Text
  -- the colours of the marks
  pub green : Text → Text
  pub red : Text → Text

unfoldable pub format_bytes : Console → ℤ → Text
format_bytes k (negsuc n) = int_text (negsuc n) ++ codes "B"
format_bytes k (pos n) =
    if ltb n 1024
    then decimal n ++ codes "B"
    else if ltb n (1024 * 1024)
    then k.kilobytes n ++ codes "KB"
    else k.megabytes n ++ codes "MB"

-- `int(v)` of a count in a reply; any value but a count is taken to raise
unfoldable pub count_of : Json → Option ℕ
count_of (int n) = some n
count_of _ = none

unfoldable pub dict_of : Json → Option Fields
dict_of (obj fs) = some fs
dict_of _ = none

module _ (w : Wire) (k : Console) where
  unfoldable pub tick : Text
  tick = k.green (codes "✓")

  unfoldable pub cross : Text
  cross = k.red (codes "✗")

  -- `not d.get(key)`
  unfoldable pub is_missing : Text → Fields → Bool
  is_missing key d = elim (get key d) [ none ↦ true | some v ↦ is_falsy w v ]

  -- `d[key]` as text
  text_at : Text → Fields → Option Text
  text_at key d = do v ← get key d; some (to_text w.codecs v)

  unfoldable pub error_message : Fields → Text
  error_message response = elim (get (codes "error") response) [
    | some (obj error) ↦ elim (get (codes "message") error) [
      | some message ↦ to_text w.codecs message
      | none ↦ codes "unknown error"
    ]
    | _ ↦ codes "unknown error"
  ]

  unfoldable pub format_utc_time : Text → Option Text
  format_utc_time t = do time ← parse_time w.codecs t; some (k.utc_text time)

  unfoldable pub format_local_time : Text → Option Text
  format_local_time t = do time ← parse_time w.codecs t; some (k.time_text time)

  texts : Items → List Text
  texts nil = []
  texts (cons v vs) = to_text w.codecs v ∷ texts vs

  -- `d.get(key) or []`, which must be a list
  texts_at : Text → Fields → Option (List Text)
  unfolding texts
  texts_at key d =
      let present : Option (List Text) = elim (get key d) [
        | some (arr vs) ↦ some (texts vs)
        | _ ↦ none
      ] in
      if is_missing key d then some [] else present

  unfoldable pub format_scope : Fields → Option Text
  unfolding texts_at texts
  format_scope scope = do
    targets ← texts_at (codes "targets") scope
    target_regex ← texts_at (codes "target_regex") scope
    let parts = targets ++ target_regex
    let scope_str = if parts == [] then codes "(none)" else join (codes ", ") parts
    some (
        if is_missing (codes "target_all") scope
        then scope_str
        else scope_str ++ codes " [--target-all]")

  abbrev failed_with : List Text → Shown
  failed_with lines = record { out = []; err = lines; code = 1 }

  abbrev shown : List Text → Shown
  shown lines = record { out = lines; err = []; code = 0 }

  -- the message of an error
  abbrev refusal : Text → Text
  refusal message = cross ++ (codes " " ++ message)

  -- the errors of a start that was refused, by their type
  active_error : Fields → Option (List Text)
  unfolding cross text_at
  active_error error = do
    time ← text_at (codes "started_at") error
    started_at ← format_local_time time
    name ← get (codes "name") error
    some (
        refusal (
          codes "Cannot start capture: a capture is already active ("
          ++ k.repr name
          ++ codes ", started "
          ++ started_at
          ++ codes ").")
        ∷ codes "  Run 'secondeye capture stop' first."
        ∷ [])

  conflict_error : Fields → Option (List Text)
  unfolding cross text_at
  conflict_error error = do
    name ← get (codes "name") error
    output_dir ← text_at (codes "output_dir") error
    some (
        refusal (
          codes "Cannot start capture: a capture named "
          ++ k.repr name
          ++ codes " already exists for today.")
        ∷ (codes "  Pick a different name or remove " ++ output_dir ++ codes ".")
        ∷ [])

  other_error : Fields → Option (List Text)
  unfolding cross text_at
  other_error error = do
    message ← text_at (codes "message") error
    some (refusal (codes "Cannot start capture: " ++ message) ∷ [])

  start_error : Option Json → Fields → Option (List Text)
  unfolding active_error conflict_error other_error cross text_at
  start_error (some (str kind)) error =
      if kind == codes "CaptureAlreadyActiveError"
      then active_error error
      else if kind == codes "CaptureNameConflictError"
      then conflict_error error
      else other_error error
  start_error _ error = other_error error

  start_refused : Fields → Option Shown
  unfolding start_error active_error conflict_error other_error text_at cross
  start_refused response = do
    e ← get (codes "error") response
    error ← dict_of e
    lines ← start_error (get (codes "type") error) error
    some (failed_with lines)

  start_shown : Fields → Option Shown
  unfolding tick text_at
  start_shown response = do
    r ← get (codes "result") response
    result ← dict_of r
    s ← get (codes "scope") result
    scope ← dict_of s
    name ← text_at (codes "name") result
    time ← text_at (codes "started_at") result
    started_at ← format_utc_time time
    output_dir ← text_at (codes "output_dir") result
    scope_str ← format_scope scope
    some (
        shown (
          (tick ++ codes " Capture started: " ++ name)
          ∷ (codes "  Started at:  " ++ started_at)
          ∷ (codes "  Output dir:  " ++ output_dir ++ codes "/")
          ∷ (codes "  Scope:       " ++ scope_str)
          ∷ []
          ∷ codes "Recording in-scope traffic. Run 'secondeye capture stop' when done."
          ∷ []))

  unfoldable pub show_capture_start : Response → Option Shown
  unfolding start_refused start_shown start_error active_error conflict_error other_error text_at
      tick cross
  show_capture_start unavailable = some (
      failed_with (
        refusal (codes "Cannot start capture: no running secondeye daemon found.")
        ∷ codes "  Run 'secondeye proxy start --target <domain>' first."
        ∷ []))
  show_capture_start (replied response) =
      if is_missing (codes "ok") response then start_refused response else start_shown response
