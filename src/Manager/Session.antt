-- ===== src/Manager/Session.antt =====
-- A whole capture: start, entries, stop.
use second_eye.Prelude.{
  ℕ, ◌+◌, ◌≡◌, refl, sym, ◌∙◌, false, none, some, List, [], ◌∷◌, ◌++◌, arith, length, list_eq,
  nat_eq,
}
use mathlib.Core.List.{append_assoc}
use second_eye.Prelude.Text.{Text, codes, starts_with, starts_with-append}
use second_eye.Prelude.Dict.{Dict, lookup, keys, lookup-insert_self}
use second_eye.Json.{Lawful}
use second_eye.Har.{HarEntry}
use second_eye.Manifest.{Flow}
use second_eye.Buffer.{append}
use second_eye.Buffer.Laws.{WritesLines, appended, read_buffer-appended}
use second_eye.Manager.{
  Env, ok, ActiveCapture, CaptureManager, path_join, path_exists, buffer_filename, buffer_path,
  open_append, output_dir_for, start_capture, record_entry,
}
use second_eye.Manager.Stop.{
  buffered_entries, analyse, pending_stop, prepare, begin_stop, capture_result, finish_stop,
  after_begin, stop_capture, record_all, unlink, write_outputs,
}

buffer_path_lem : (dir : Text) → buffer_path dir ≡ (dir ++ codes "/") ++ buffer_filename
unfolding path_join starts_with nat_eq
buffer_path_lem dir = sym (append_assoc dir (codes "/") buffer_filename)

-- where a directory does not exist, no buffer is in it
lookup-of_path_exists :
    (dir : Text) (disk : Dict Text Text)
    → path_exists dir (keys disk) ≡ false
    → lookup (buffer_path dir) disk ≡ none
unfolding path_exists keys lookup
lookup-of_path_exists dir [] h = refl
lookup-of_path_exists dir ((q, t) ∷ disk) h = ground (
  arith,
  buffer_path_lem dir,
  starts_with-append (dir ++ codes "/") buffer_filename,
  lookup-of_path_exists dir disk,
)

module _ (env : Env) where
  -- the capture `a` is active, and its buffer is open and holds `t`
  pub record IsRecording (a : ActiveCapture) (t : Text) (m : CaptureManager) : Type 0 where
    pub active : m.active ≡ some a
    pub buffer : m.buffer ≡ some (record { path = buffer_path a.output_dir; closed = false })
    pub text : lookup (buffer_path a.output_dir) m.disk ≡ some t

  pub start_capture-IsRecording :
      (now : ℕ) (name : Text) (m : CaptureManager) (a : ActiveCapture)
      → (start_capture env now name m).0 ≡ ok a
      → IsRecording a [] (start_capture env now name m).1
        × ((start_capture env now name m).1.history ≡ m.history)
        × ((start_capture env now name m).1.active_request_count ≡ 0)
  unfolding start_capture open_append
  start_capture-IsRecording now name m a h =
      let dir = output_dir_for env m now name in
      ground (
        arith,
        lookup-of_path_exists dir m.disk,
        lookup-insert_self {V = Text} (buffer_path dir) [] m.disk,
      )

  record_entry-IsRecording :
      (e : HarEntry) (a : ActiveCapture) (t : Text) (m : CaptureManager)
      → IsRecording a t m
      → IsRecording a (append env.layout.codecs env.json e t) (record_entry env e m).1
        × ((record_entry env e m).1.history ≡ m.history)
        × ((record_entry env e m).1.active_request_count ≡ m.active_request_count + 1)
  unfolding record_entry
  record_entry-IsRecording e a t m h = ground (
    arith,
    lookup-insert_self (buffer_path a.output_dir) (append env.layout.codecs env.json e t) m.disk,
  )

  pub record_all-IsRecording :
      (es : List HarEntry) (a : ActiveCapture) (t : Text) (m : CaptureManager)
      → IsRecording a t m
      → IsRecording a (appended env.layout.codecs env.json es t) (record_all env es m)
        × ((record_all env es m).history ≡ m.history)
        × ((record_all env es m).active_request_count ≡ m.active_request_count + length es)
  unfolding record_all appended
  record_all-IsRecording [] a t m h = (h, refl, omega arith)
  record_all-IsRecording (e ∷ es) a t m h =
      let (h', past, one) = record_entry-IsRecording e a t m h in
      let (h'', past', more) =
        record_all-IsRecording es a (append env.layout.codecs env.json e t) (record_entry env e m).1
          h' in
      (h'', past' ∙ past, omega arith)

  module _ (lawful : Lawful env.layout.codecs) (writes : WritesLines env.json) where
    prepare-IsRecording :
        (es : List HarEntry) (analysis : List Flow × Text) (a : ActiveCapture) (m : CaptureManager)
        (now : ℕ)
        → IsRecording a (appended env.layout.codecs env.json es []) m
        → analyse env m a now es ≡ some analysis
        → prepare env m a now ≡ ok (pending_stop env m a now es analysis)
    unfolding prepare buffered_entries
    prepare-IsRecording es analysis a m now h analysed =
        ground (arith, read_buffer-appended env.layout.codecs env.json lawful writes es)

    pub stop-IsRecording :
        (es : List HarEntry) (analysis : List Flow × Text) (a : ActiveCapture) (m : CaptureManager)
        (now : ℕ)
        → IsRecording a (appended env.layout.codecs env.json es []) m
        → analyse env m a now es ≡ some analysis
        → let p = pending_stop env m a now es analysis in
          ((stop_capture env now m).0 ≡ ok (capture_result env p))
          × ((stop_capture env now m).1.history ≡ m.history ++ capture_result env p ∷ [])
          × ((stop_capture env now m).1.disk
              ≡ unlink env (buffer_path a.output_dir) (write_outputs env p m.disk))
    unfolding stop_capture begin_stop after_begin finish_stop pending_stop
    stop-IsRecording es analysis a m now h analysed =
        ground (arith, prepare-IsRecording es analysis a m now h analysed)
