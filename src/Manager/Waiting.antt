-- ===== src/Manager/Waiting.antt =====
-- What other operations do while a stop waits for its files, between `begin_stop` and `finish_stop`.
use second_eye.Prelude.{
  ℕ, ◌≡◌, refl, sym, ap, ◌∙◌, true, false, none, some, List, [], ◌∷◌, ◌++◌, arith, Option-cases,
  inl, inr,
}
use second_eye.Prelude.Text.{Text}
use second_eye.Har.{HarEntry}
use second_eye.Manifest.{Flow}
use second_eye.Manager.{
  Env, ok, err, already_active, failure, ActiveCapture, CaptureBuffer, CaptureManager, buffer_path,
  start_capture, record_entry,
}
use second_eye.Manager.Stop.{
  PendingStop, buffered_entries, analyse, analysis_raises, analyse_returns, analyse_passed,
  pending_stop, prepare, begin_with, begin_stop, capture_result, finish_stop,
}

module _ (env : Env) where
  -- the buffer of the capture was read as `es`, on which the analysis does not raise
  abbrev pub IsPrepared : CaptureManager → ActiveCapture → List HarEntry → Type 0
  IsPrepared m a es =
      (buffered_entries env (buffer_path a.output_dir) m.disk ≡ some es)
      × (analysis_raises env es ≡ false)

  prepare_parts :
      (m : CaptureManager) (a : ActiveCapture) (now : ℕ) (p : PendingStop)
      → prepare env m a now ≡ ok p
      → (es : List HarEntry) × (analysis : List Flow × Text) × IsPrepared m a es
        × (p ≡ pending_stop env m a now es analysis)
  unfolding prepare
  prepare_parts m a now p h =
      elim (Option-cases (buffered_entries env (buffer_path a.output_dir) m.disk)) [
        | inl unread ↦ ground arith
        | inr (es, read) ↦ elim (Option-cases (analyse env m a now es)) [
          | inl raised ↦ ground arith
          | inr (analysis, analysed) ↦
              (es, analysis, (read, analyse_passed env m a now es analysis analysed), ground arith)
        ]
      ]

  pub prepare-IsPrepared :
      (m : CaptureManager) (a : ActiveCapture) (now : ℕ) (es : List HarEntry)
      → IsPrepared m a es
      → (analysis : List Flow × Text) × (prepare env m a now
          ≡ ok (pending_stop env m a now es analysis))
  unfolding prepare
  prepare-IsPrepared m a now es (read, passed) =
      let (analysis, analysed) = analyse_returns env m a now es passed in (analysis, ground arith)

  -- a stop that begins holds the active capture, and closes the buffer
  begin_stop_parts :
      (now : ℕ) (m m1 : CaptureManager) (p : PendingStop)
      → begin_stop env now m ≡ (ok p, m1)
      → (a : ActiveCapture) × (b : CaptureBuffer) × (m.active ≡ some a)
        × (m.buffer ≡ some b)
        × (prepare env m a now ≡ ok p)
        × (m1 ≡ record m { buffer = some (record b { closed = true }) })
  unfolding begin_stop begin_with
  begin_stop_parts now m m1 p h = elim (Option-cases m.active) [
    | inl idle ↦ ground arith
    | inr (a, active) ↦ elim (Option-cases m.buffer) [
      | inl unopened ↦ ground arith
      | inr (b, opened) ↦ (a, b, active, opened, ground arith, ground arith)
    ]
  ]

  pub captured :
      (m : CaptureManager) (a : ActiveCapture) (now : ℕ) (p : PendingStop)
      → prepare env m a now ≡ ok p
      → p.capture ≡ a
  unfolding pending_stop
  captured m a now p prepared =
      let (es, analysis, _, held) = prepare_parts m a now p prepared in ap (λ x. x.capture) held

  pub active_while_stopping :
      (now : ℕ) (m m1 : CaptureManager) (p : PendingStop)
      → begin_stop env now m ≡ (ok p, m1)
      → (m1.active ≡ some p.capture)
        × (b : CaptureBuffer) × (m1.buffer ≡ some b)
        × (b.closed ≡ true)
  active_while_stopping now m m1 p h =
      let (a, b, active, opened, prepared, left) = begin_stop_parts now m m1 p h in
      let same = captured m a now p prepared in
      (
        ap (λ x. x.active) left ∙ active ∙ ap some (sym same),
        record b { closed = true },
        ap (λ x. x.buffer) left,
        refl,
      )

  -- While a stop waits for its files, a start is refused with the name and time of the capture that is
  -- being stopped, and recording an entry raises; both leave the manager as it was.
  pub begin_stop_refuses :
      (now t : ℕ) (name : Text) (e : HarEntry) (m m1 : CaptureManager) (p : PendingStop)
      → begin_stop env now m ≡ (ok p, m1)
      → (start_capture env t name m1
          ≡ (err (already_active p.capture.name p.capture.started_at), m1))
        × (record_entry env e m1 ≡ (err failure, m1))
  unfolding start_capture record_entry
  begin_stop_refuses now t name e m m1 p h =
      let (active, b, buffer, closed) = active_while_stopping now m m1 p h in
      (ground arith, ground arith)

  start_capture_parts :
      (t : ℕ) (name : Text) (m m1 : CaptureManager) (a : ActiveCapture)
      → start_capture env t name m ≡ (ok a, m1)
      → (m1.active ≡ some a) × (m1.history ≡ m.history)
  unfolding start_capture
  start_capture_parts t name m m1 a h = ground arith

  begin_stop-IsPrepared :
      (now : ℕ) (m : CaptureManager) (a : ActiveCapture) (b : CaptureBuffer) (es : List HarEntry)
      → m.active ≡ some a
      → m.buffer ≡ some b
      → b.closed ≡ true
      → IsPrepared m a es
      → (analysis : List Flow × Text) × (begin_stop env now m
          ≡ (ok (pending_stop env m a now es analysis), m))
  unfolding begin_stop begin_with
  begin_stop-IsPrepared now m a b es active buffer closed h =
      let (analysis, prepared) = prepare-IsPrepared m a now es h in (analysis, ground arith)

  -- A second stop that begins while the first waits is not refused: it holds the same capture, with
  -- the same entries. When a new capture is started after the first stop has finished, finishing the
  -- second stop clears that new capture although nothing stopped it, and adds the old one to the
  -- history for the second time.
  pub begin_stop_twice :
      (now later t : ℕ) (name : Text) (m m1 m2 : CaptureManager) (p : PendingStop)
      (a : ActiveCapture)
      → begin_stop env now m ≡ (ok p, m1)
      → start_capture env t name (finish_stop env p m1).1 ≡ (ok a, m2)
      → (q : PendingStop) × (begin_stop env later m1 ≡ (ok q, m1))
        × (q.capture ≡ p.capture)
        × (q.entries ≡ p.entries)
        × (m2.active ≡ some a)
        × ((finish_stop env q m2).1.active ≡ none)
        × ((finish_stop env q m2).1.buffer ≡ none)
        × ((finish_stop env q m2).1.history
            ≡ (m.history ++ capture_result env p ∷ []) ++ capture_result env q ∷ [])
  unfolding finish_stop pending_stop
  begin_stop_twice now later t name m m1 m2 p a h started =
      let (c, b, active, opened, prepared, left) = begin_stop_parts now m m1 p h in
      let (es, analysis, ready, held) = prepare_parts m c now p prepared in
      let same = captured m c now p prepared in
      let (m1_active, d, m1_buffer, closed) = active_while_stopping now m m1 p h in
      let disk : m1.disk ≡ m.disk = ap (λ x. x.disk) left in
      let ready1 : IsPrepared m1 c es =
        (ap (buffered_entries env (buffer_path c.output_dir)) disk ∙ ready.0, ready.1) in
      let (analysis', again) =
        begin_stop-IsPrepared later m1 c d es (m1_active ∙ ap some same) m1_buffer closed ready1 in
      let q = pending_stop env m1 c later es analysis' in
      let (m2_active, m2_history) = start_capture_parts t name _ m2 a started in
      (
        q,
        again,
        sym same,
        ap (λ x. x.entries) (sym held),
        m2_active,
        refl,
        refl,
        ap (λ l. l ++ capture_result env q ∷ [])
            (m2_history ∙ ap (λ x. x.history ++ capture_result env p ∷ []) left),
      )
