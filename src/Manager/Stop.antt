-- ===== src/Manager/Stop.antt =====
-- `stop_capture`, which waits for its output files to be written: `begin_stop` is what it does before
-- that wait and `finish_stop` what it does after.
use second_eye.Prelude.{
  ℕ, ◌≡◌, ◌+◌, Bool, true, false, ◌||◌, not_raised, arith, Bool-cases, inl, inr, Option, none, some,
  List, [], ◌∷◌, ◌++◌, length, ◌==◌, list_eq, nat_eq, if◌then◌else◌,
}
use second_eye.Prelude.Text.{Text, codes}
use second_eye.Prelude.Dict.{Dict, insert, lookup}
use second_eye.Json.{str, arr, obj, Fields, end, field}
use second_eye.Har.{HarEntry, ◌>>=◌}
use second_eye.Render.Document.{render_analysis_md, render_analysis_md_raises}
use second_eye.Render.Returns.{render_analysis_md-build_flows}
use second_eye.Har.Render.{to_har_dict}
use second_eye.Classify.{classify_entries, classify_entries_raises}
use second_eye.Manifest.{Flow, items}
use second_eye.Manifest.Flows.{build_flows, build_flows_raises}
use second_eye.Manifest.Returns.{build_flows-classify_entries}
use second_eye.Manifest.Stats.{build_manifest, build_stats_raises}
use second_eye.Buffer.{read_buffer}
use second_eye.Manager.{
  Env, Result, ok, err, no_active_capture, failure, ActiveCapture, CaptureResult, CaptureBuffer,
  CaptureManager, path_join, buffer_path, record_entry,
}

unfoldable pub sum_bytes : List HarEntry → ℕ
sum_bytes [] = 0
sum_bytes (e ∷ es) = length e.request.body + length e.response.body + sum_bytes es

-- what `stop_capture` holds across its wait
pub record PendingStop : Type 0 where
  pub capture : ActiveCapture
  pub entries : List HarEntry
  pub raw_har : Text
  pub manifest : Text
  pub analysis_md : Text

module _ (env : Env) where
  open env use {layout, json, format_interval}

  unfoldable pub build_raw_har : List HarEntry → Fields
  build_raw_har entries =
      field (codes "log")
        (obj (
          field (codes "version") (str (codes "1.2")) (
            field (codes "creator")
              (obj (
                field (codes "name") (str (codes "secondeye"))
                  (field (codes "version") (str (codes "1.0.1")) end)))
              (field (codes "entries")
                (arr (items (λ e. obj (to_har_dict layout.codecs e)) entries)) end))))
        end

  -- `read_buffer(path) if path.exists() else []`
  unfoldable pub buffered_entries : Text → Dict Text Text → Option (List HarEntry)
  buffered_entries p disk = elim (lookup p disk) [
    | none ↦ some []
    | some t ↦ read_buffer layout.codecs json t
  ]

  -- whether the analysis of the entries raises in urllib or json: the classification, the statistics
  -- and the flows, and the rendering where there are flows
  unfoldable pub analysis_raises : List HarEntry → Bool
  analysis_raises entries =
      let classified = classify_entries layout.urls entries in
      let rendering : Bool =
        elim (build_flows layout.urls format_interval layout.floats layout.reader classified) [
          | none ↦ false
          | some flows ↦ render_analysis_md_raises layout classified flows
        ] in
      classify_entries_raises layout.urls entries
      || build_stats_raises layout.urls classified
      || (build_flows_raises layout.urls layout.floats layout.reader classified || rendering)

  -- the flows of the entries, and the text of ANALYSIS.md
  unfoldable pub analyse :
      CaptureManager → ActiveCapture → ℕ → List HarEntry → Option (List Flow × Text)
  analyse m a ended_at entries =
      let classified = classify_entries layout.urls entries in
      let analysed : Option (List Flow × Text) = (do
        flows ← build_flows layout.urls format_interval layout.floats layout.reader classified
        analysis_md ←
            render_analysis_md layout a.name m.scope.targets a.started_at ended_at classified flows
        some (flows, analysis_md)) in
      if classify_entries_raises layout.urls entries || build_stats_raises layout.urls classified
      then none
      else analysed

  unfoldable pub pending_stop :
      CaptureManager → ActiveCapture → ℕ → List HarEntry → List Flow × Text → PendingStop
  pending_stop m a ended_at entries (flows, analysis_md) =
      let classified = classify_entries layout.urls entries in
      record {
        capture = a;
        entries = entries;
        raw_har = layout.dumps_indent (obj (build_raw_har entries));
        manifest = layout.dumps_indent (
            obj (
              build_manifest layout.codecs layout.floats layout.urls a.name a.started_at ended_at
                m.scope classified flows));
        analysis_md = analysis_md;
      }

  -- what a stop has before its wait, where the buffer can be read and the analysis returns
  unfoldable pub prepare : CaptureManager → ActiveCapture → ℕ → Result PendingStop
  prepare m a ended_at = elim (buffered_entries (buffer_path a.output_dir) m.disk) [
    | none ↦ err failure
    | some entries ↦ elim (analyse m a ended_at entries) [
      | none ↦ err failure
      | some analysis ↦ ok (pending_stop m a ended_at entries analysis)
    ]
  ]

  -- the analysis returns exactly where it does not raise
  pub analyse_outcome :
      (m : CaptureManager) (a : ActiveCapture) (ended_at : ℕ) (entries : List HarEntry)
      → (analysis : List Flow × Text) × (analyse m a ended_at entries
          ≡ (if analysis_raises entries then none else some analysis))
  unfolding analyse analysis_raises
  analyse_outcome m a ended_at entries =
      let classified = classify_entries layout.urls entries in
      let (fls, made) =
        build_flows-classify_entries layout.urls layout.floats layout.reader format_interval
          entries in
      elim (Bool-cases (build_flows_raises layout.urls layout.floats layout.reader classified)) [
        | inl raised ↦
            let made' : build_flows layout.urls format_interval layout.floats layout.reader
                  classified
                ≡ none =
              rw raised at made in
            (([], []), ground arith)
        | inr passed ↦
            let made' : build_flows layout.urls format_interval layout.floats layout.reader
                  classified
                ≡ some fls =
              rw passed at made in
            let (text, t) =
              render_analysis_md-build_flows layout format_interval a.name m.scope.targets
                a.started_at ended_at entries fls made' in
            ((fls, text), rw (made', t) (ground arith))
      ]

  pub analyse_returns :
      (m : CaptureManager) (a : ActiveCapture) (ended_at : ℕ) (entries : List HarEntry)
      → analysis_raises entries ≡ false
      → (analysis : List Flow × Text) × (analyse m a ended_at entries ≡ some analysis)
  analyse_returns m a ended_at entries passed =
      let (analysis, e) = analyse_outcome m a ended_at entries in (analysis, rw passed at e)

  pub analyse_passed :
      (m : CaptureManager) (a : ActiveCapture) (ended_at : ℕ) (entries : List HarEntry)
      (analysis : List Flow × Text)
      → analyse m a ended_at entries ≡ some analysis
      → analysis_raises entries ≡ false
  analyse_passed m a ended_at entries analysis h =
      let (analysis', e) = analyse_outcome m a ended_at entries in
      not_raised (analysis_raises entries) (some analysis') analysis (rw e at h)

  -- the guard, and what follows it
  unfoldable pub begin_with :
      ℕ
      → CaptureManager
      → Option ActiveCapture
      → Option CaptureBuffer
      → Result PendingStop × CaptureManager
  begin_with ended_at m (some a) (some b) =
      (prepare m a ended_at, record m { buffer = some (record b { closed = true }) })
  begin_with ended_at m _ _ = (err no_active_capture, m)

  unfoldable pub begin_stop : ℕ → CaptureManager → Result PendingStop × CaptureManager
  unfolding begin_with
  begin_stop ended_at m = begin_with ended_at m m.active m.buffer

  unfoldable pub capture_result : PendingStop → CaptureResult
  capture_result p =
      let dir = p.capture.output_dir in
      record {
        name = p.capture.name;
        request_count = length p.entries;
        total_bytes = sum_bytes p.entries;
        output_dir = dir;
        raw_har_path = path_join dir (codes "raw.har");
        manifest_path = path_join dir (codes "manifest.json");
        analysis_path = path_join dir (codes "ANALYSIS.md");
      }

  -- `path.unlink(missing_ok=True)`
  unfoldable pub unlink : Text → Dict Text Text → Dict Text Text
  unlink p [] = []
  unlink p ((q, t) ∷ d) = let rest = unlink p d in if p == q then rest else (q, t) ∷ rest

  unfoldable pub write_outputs : PendingStop → Dict Text Text → Dict Text Text
  write_outputs p disk =
      let r = capture_result p in
      insert r.analysis_path p.analysis_md
        (insert r.manifest_path p.manifest (insert r.raw_har_path p.raw_har disk))

  unfoldable pub finish_stop : PendingStop → CaptureManager → CaptureResult × CaptureManager
  finish_stop p m = (
    capture_result p,
    record m {
      active = none;
      buffer = none;
      history = m.history ++ capture_result p ∷ [];
      disk = unlink (buffer_path p.capture.output_dir) (write_outputs p m.disk);
    },
  )

  -- `stop_capture` where nothing else runs across its wait
  unfoldable pub after_begin :
      Result PendingStop → CaptureManager → Result CaptureResult × CaptureManager
  after_begin (err e) m = (err e, m)
  after_begin (ok p) m = let (r, m') = finish_stop p m in (ok r, m')

  unfoldable pub stop_capture : ℕ → CaptureManager → Result CaptureResult × CaptureManager
  stop_capture ended_at m = let (r, m') = begin_stop ended_at m in after_begin r m'

  unfoldable pub list_captures : CaptureManager → List CaptureResult
  list_captures m = m.history

  -- record the entries one by one
  unfoldable pub record_all : List HarEntry → CaptureManager → CaptureManager
  record_all [] m = m
  record_all (e ∷ es) m = record_all es (record_entry env e m).1
