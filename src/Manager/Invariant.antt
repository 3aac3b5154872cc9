-- ===== src/Manager/Invariant.antt =====
-- What holds of the manager between its operations.
use second_eye.Prelude.{
  ℕ, ◌≡◌, ◌≢◌, refl, true, false, Option, none, some, [], ◌∷◌, ◌++◌, ◌↔◌, arith,
}
use second_eye.Prelude.Text.{Text}
use second_eye.Har.{HarEntry}
use second_eye.Manager.{
  Env, Result, ok, err, no_active_capture, ActiveCapture, CaptureBuffer, CaptureResult,
  CaptureManager, buffer_path, start_capture, record_entry,
}
use second_eye.Manager.Stop.{
  prepare, begin_stop, finish_stop, stop_capture, after_begin, begin_with, PendingStop,
}

-- A buffer is open exactly while a capture is active, and it is that capture's file.
abbrev pub Agrees : Option ActiveCapture → Option CaptureBuffer → Type 0
Agrees none none = Unit
Agrees (some a) (some b) = (b.path ≡ buffer_path a.output_dir) × (b.closed ≡ false)
Agrees _ _ = ⊥

pub record IsIdleOrOpen (m : CaptureManager) : Type 0 where
  pub agrees : Agrees m.active m.buffer

module _ (env : Env) where
  -- Starting a capture keeps the manager idle or open, whether it succeeds or raises.
  pub start_capture-IsIdleOrOpen :
      (now : ℕ) (name : Text) (m : CaptureManager)
      → IsIdleOrOpen m
      → IsIdleOrOpen (start_capture env now name m).1
  unfolding start_capture
  start_capture-IsIdleOrOpen now name m h = ground arith

  -- Recording an entry while the manager is idle or open keeps it so, and does not raise.
  pub record_entry-IsIdleOrOpen :
      (e : HarEntry) (m : CaptureManager)
      → IsIdleOrOpen m
      → IsIdleOrOpen (record_entry env e m).1 × ((record_entry env e m).0 ≡ ok tt)
  unfolding record_entry
  record_entry-IsIdleOrOpen e m h = ground arith

  -- every outcome of a stop
  abbrev pub StopOutcome : CaptureManager → Result CaptureResult → CaptureManager → Type 0
  StopOutcome m (ok r) m' =
      (m'.active ≡ none) × (m'.buffer ≡ none) × (m'.history ≡ m.history ++ r ∷ [])
  StopOutcome m (err e) m' = (m'.active ≡ m.active) × (m'.history ≡ m.history) × (m'.disk ≡ m.disk)

  prepare-ne-no_active :
      (m : CaptureManager) (a : ActiveCapture) (now : ℕ)
      → prepare env m a now ≢ err no_active_capture
  unfolding prepare
  prepare-ne-no_active m a now = ground arith

  -- the two halves of a stop, by what stands in the manager and what the analysis gives
  begun_outcome :
      (m : CaptureManager) (a : ActiveCapture) (b : CaptureBuffer) (r : Result PendingStop)
      → r ≢ err no_active_capture
      → let m' = record m { buffer = some (record b { closed = true }) } in
        let s = after_begin env r m' in StopOutcome m s.0 s.1 × (s.0 ≢ err no_active_capture)
  unfolding after_begin finish_stop
  begun_outcome m a b (err e) h = ((refl, refl, refl), λ p. h (ground arith))
  begun_outcome m a b (ok p) h = ((refl, refl, refl), λ q. cc)

  with_outcome :
      (now : ℕ) (m : CaptureManager) (a : Option ActiveCapture) (b : Option CaptureBuffer)
      → Agrees a b
      → let (r, m') = begin_with env now m a b in
        let s = after_begin env r m' in
        StopOutcome m s.0 s.1 × ((s.0 ≡ err no_active_capture) ↔ (a ≡ none))
  unfolding begin_with after_begin
  with_outcome now m none none h = ((refl, refl, refl), (λ _. refl, λ _. refl))
  with_outcome now m none (some b) h = elim h [ ]
  with_outcome now m (some a) none h = elim h [ ]
  with_outcome now m (some a) (some b) h =
      let (outcome, raised) =
        begun_outcome m a b (prepare env m a now) (prepare-ne-no_active m a now) in
      (outcome, (λ p. absurd (raised p), λ p. cc))

  -- For a manager that is idle or open: a stop that succeeds leaves it idle, with the result behind the
  -- history; a stop that raises leaves the active capture, the history and the files as they were; and
  -- a stop raises NoActiveCaptureError exactly when no capture is active.
  pub stop_capture_outcome :
      (now : ℕ) (m : CaptureManager)
      → IsIdleOrOpen m
      → StopOutcome m (stop_capture env now m).0 (stop_capture env now m).1
        × (((stop_capture env now m).0 ≡ err no_active_capture) ↔ (m.active ≡ none))
  unfolding stop_capture begin_stop
  stop_capture_outcome now m h = with_outcome now m m.active m.buffer h.agrees
