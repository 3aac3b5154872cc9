-- ===== src/Control/Session.antt =====
-- The capture commands against the abstract recorder: each reply of the control socket is one of its.
use second_eye.Prelude.{
  ℕ, ◌≡◌, refl, ◌⊎◌, none, some, List, [], ◌∷◌, arith, Option-cases, Bool-cases, inl, inr,
}
use second_eye.Prelude.Text.{Text}
use second_eye.Prelude.Dict.{keys}
use second_eye.Json.{Fields}
use second_eye.Manager.{
  Env, already_active, name_conflict, Result, ok, err, ActiveCapture, CaptureManager, start_capture,
  path_exists, output_dir_for,
}
use second_eye.Manager.Reachable.{BothOrNone}
use second_eye.Control.{Wire, dispatch, build_capture_handlers}
use second_eye.Control.Abstract.{Command, Reply, command_request, read_reply, Answers, recorder}

module _ (w : Wire) (env : Env) where
  -- the requests of a client, each at its time
  unfoldable pub serve : List (ℕ × Command) → CaptureManager → List Reply × CaptureManager
  serve [] m = ([], m)
  serve ((now, c) ∷ cs) m =
      let (reply, m1) = dispatch w (build_capture_handlers w env now) (command_request c) m in
      let (replies, m2) = serve cs m1 in (read_reply reply ∷ replies, m2)

  -- what is to be shown of one request
  abbrev Refines : CaptureManager → Command → Result Fields × CaptureManager → Type 0
  Refines m c (reply, m1) =
      BothOrNone m1.active m1.buffer × Answers (recorder m) (recorder m1) c (read_reply reply)

  -- the three outcomes of a start
  pub start_outcome :
      (now : ℕ) (name : Text) (m : CaptureManager)
      → ((a : ActiveCapture) × (m1 : CaptureManager) × (m.active ≡ none)
          × (start_capture env now name m ≡ (ok a, m1))
          × (a.name ≡ name)
          × (m1.active ≡ some a)
          × (m1.history ≡ m.history)
          × BothOrNone m1.active m1.buffer)
        ⊎ ((a : ActiveCapture) × (m.active ≡ some a)
            × (start_capture env now name m ≡ (err (already_active a.name a.started_at), m)))
        ⊎ ((dir : Text) × (m.active ≡ none)
            × (start_capture env now name m ≡ (err (name_conflict name dir), m)))
  unfolding start_capture
  start_outcome now name m = elim (Option-cases m.active) [
    | inr (a, active) ↦ inr (inl (a, active, ground arith))
    | inl none_ ↦ elim (Bool-cases (path_exists (output_dir_for env m now name) (keys m.disk))) [
      | inl there ↦ inr (inr (output_dir_for env m now name, none_, ground arith))
      | inr new ↦
          let dir = output_dir_for env m now name in
          let a : ActiveCapture = record { name = name; started_at = now; output_dir = dir } in
          inl (
            a,
            (start_capture env now name m).1,
            none_,
            ground arith,
            refl,
            ground arith,
            ground arith,
            ground arith,
          )
    ]
  ]
