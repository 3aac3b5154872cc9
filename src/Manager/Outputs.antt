-- ===== src/Manager/Outputs.antt =====
-- A capture from its start to its stop: what is counted, what is written, and what is kept.
use mathlib.Core.List.{tail-eq_of_cons-eq}
use second_eye.Prelude.{
  ℕ, ◌≡◌, ◌≢◌, refl, ap, ◌∙◌, false, none, some, List, [], ◌∷◌, ◌++◌, arith, length, ◌==◌, list_eq,
  nat_eq, if◌then◌else◌,
}
use second_eye.Prelude.Text.{Text, codes, starts_with}
use second_eye.Prelude.Dict.{Dict, insert, lookup, lookup-insert}
use second_eye.Json.{Lawful, obj}
use second_eye.Har.{HarEntry}
use second_eye.Buffer.Laws.{WritesLines}
use second_eye.Manager.{
  Env, ok, ActiveCapture, CaptureResult, CaptureManager, path_join, buffer_path, start_capture,
}
use second_eye.Manager.Stop.{
  PendingStop, sum_bytes, analysis_raises, analyse_returns, pending_stop, capture_result,
  stop_capture, record_all, build_raw_har, unlink, write_outputs,
}
use second_eye.Manager.Session.{start_capture-IsRecording, record_all-IsRecording, stop-IsRecording}

append_left_cancel : (d s t : Text) → d ++ s ≡ d ++ t → s ≡ t
append_left_cancel [] s t h = h
append_left_cancel (c ∷ d) s t h = append_left_cancel d s t (tail-eq_of_cons-eq h)

-- two names in one directory are two paths
names_differ :
    (dir s t : Text)
    → starts_with s (codes "/") ≡ false
    → starts_with t (codes "/") ≡ false
    → s ≢ t
    → path_join dir s ≢ path_join dir t
unfolding path_join
names_differ dir s t hs ht differ same =
    let same' : dir ++ (codes "/" ++ s) ≡ dir ++ (codes "/" ++ t) = ground arith in
    differ (append_left_cancel (codes "/") s t (append_left_cancel dir _ _ same'))

module _ (env : Env) where
  lookup-unlink :
      (j p : Text) (d : Dict Text Text)
      → lookup j (unlink env p d) ≡ (if j == p then none else lookup j d)
  unfolding lookup unlink
  lookup-unlink j p [] = ground arith
  lookup-unlink j p (_ ∷ d) = ground (arith, lookup-unlink j p d)

  kept_under_unlink :
      (raw b man ana : Text) (x y z : Text) (disk : Dict Text Text)
      → raw ≢ b
      → raw ≢ man
      → raw ≢ ana
      → lookup raw (unlink env b (insert ana x (insert man y (insert raw z disk)))) ≡ some z
  kept_under_unlink raw b man ana x y z disk nb nm na =
      let first = insert raw z disk in
      let second = insert man y first in
      ground (
        arith,
        lookup-unlink raw b (insert ana x second),
        lookup-insert raw ana x second,
        lookup-insert raw man y first,
        lookup-insert raw raw z disk,
      )

  raw_har_written :
      (p : PendingStop) (disk : Dict Text Text)
      → let dir = p.capture.output_dir in
        lookup
          (path_join dir (codes "raw.har"))
          (unlink env (buffer_path dir) (write_outputs env p disk))
        ≡ some p.raw_har
  unfolding write_outputs capture_result starts_with nat_eq
  raw_har_written p disk =
      let dir = p.capture.output_dir in
      let raw = path_join dir (codes "raw.har") in
      let not_buffer : raw ≢ buffer_path dir =
        names_differ dir (codes "raw.har") (codes ".buffer.jsonl") refl refl (λ e. cc) in
      let not_manifest : raw ≢ path_join dir (codes "manifest.json") =
        names_differ dir (codes "raw.har") (codes "manifest.json") refl refl (λ e. cc) in
      let not_analysis : raw ≢ path_join dir (codes "ANALYSIS.md") =
        names_differ dir (codes "raw.har") (codes "ANALYSIS.md") refl refl (λ e. cc) in
      kept_under_unlink raw (buffer_path dir) _ _ _ _ _ disk not_buffer not_manifest not_analysis

  gone :
      (p : PendingStop) (disk : Dict Text Text)
      → lookup
          (buffer_path p.capture.output_dir)
          (unlink env (buffer_path p.capture.output_dir) (write_outputs env p disk))
        ≡ none
  gone p disk =
      let b = buffer_path p.capture.output_dir in
      ground (arith, lookup-unlink b b (write_outputs env p disk))

  module _ (lawful : Lawful env.layout.codecs) (writes : WritesLines env.json) where
    -- Start a capture, which succeeds, record entries on whose analysis neither urllib nor json raises,
    -- stop it, with nothing else at work on the manager, and with codecs and a JSON writer that keep
    -- what they document: the count shown meanwhile is the number of entries, the stop returns a result with that number and the sum of
    -- their body sizes, raw.har holds the JSON of the very entries in order, the buffer file is gone,
    -- and the result is added to the history.
    pub capture_session :
        (now ended_at : ℕ) (name : Text) (m : CaptureManager) (a : ActiveCapture)
        (es : List HarEntry)
        → (start_capture env now name m).0 ≡ ok a
        → analysis_raises env es ≡ false
        → let recorded = record_all env es (start_capture env now name m).1 in
          let stopped = stop_capture env ended_at recorded in
          (r : CaptureResult) × (stopped.0 ≡ ok r)
          × (recorded.active_request_count ≡ length es)
          × (r.request_count ≡ length es)
          × (r.total_bytes ≡ sum_bytes es)
          × (lookup r.raw_har_path stopped.1.disk
              ≡ some (env.layout.dumps_indent (obj (build_raw_har env es))))
          × (lookup (buffer_path a.output_dir) stopped.1.disk ≡ none)
          × (stopped.1.history ≡ m.history ++ r ∷ [])
    capture_session now ended_at name m a es started passed =
        let (h, past, zeroed) = start_capture-IsRecording env now name m a started in
        let begun = (start_capture env now name m).1 in
        let (h', past', count) = record_all-IsRecording env es a [] begun h in
        let recorded = record_all env es begun in
        let (analysis, analysed) = analyse_returns env recorded a ended_at es passed in
        let (returned, history, disk) =
          stop-IsRecording env lawful writes es analysis a recorded ended_at h' analysed in
        let p = pending_stop env recorded a ended_at es analysis in
        (
          capture_result env p,
          returned,
          omega arith,
          (unfold capture_result pending_stop in refl),
          (unfold capture_result pending_stop in refl),
          rw disk (unfold capture_result pending_stop in raw_har_written p recorded.disk),
          rw disk (unfold pending_stop in gone p recorded.disk),
          history ∙ ap (λ l. l ++ capture_result env p ∷ []) (past' ∙ past),
        )
