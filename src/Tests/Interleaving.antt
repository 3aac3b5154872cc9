-- ===== src/Tests/Interleaving.antt =====
-- Operations while a stop waits, on an empty capture.
use second_eye.Prelude.{◌≡◌, refl, ap, true, false, none, some, [], ◌∷◌, ◌++◌, nat_eq, list_eq}
use second_eye.Prelude.Text.{codes, starts_with, strip}
use second_eye.Prelude.Dict.{keys, insert, lookup, values}
use second_eye.Prelude.Sort.{sort_by}
use second_eye.Classify.{classify_entries, classify_entries_raises}
use second_eye.Redirect.{
  detect_redirect_chains_raises, chain_loop_raises, nav_entries, detect_redirect_chains, chain_loop,
}
use second_eye.Polling.{
  detect_polling_groups_raises, xhr_entries, groups_raise, by_signature, detect_polling_groups,
  groups_of,
}
use second_eye.Manifest.Flows.{
  build_flows_raises, flow_loop_raises, build_flows, flow_loop, tables_of,
}
use second_eye.Manifest.Stats.{build_stats_raises}
use second_eye.Render.Raises.{signals_raise}
use second_eye.Render.Document.{render_analysis_md_raises}
use second_eye.Render.Sections.{entries_by_index}
use second_eye.Buffer.{lines, read_lines, read_buffer}
use second_eye.Manager.{
  ok, err, already_active, failure, ActiveCapture, CaptureManager, buffer_path, start_capture,
  record_entry, path_exists, output_dir_for, path_join,
}
use second_eye.Manager.Stop.{
  analysis_raises, PendingStop, pending_stop, buffered_entries, begin_with, begin_stop, finish_stop,
  capture_result, write_outputs, unlink,
}
use second_eye.Manager.Waiting.{
  IsPrepared, prepare-IsPrepared, begin_stop_refuses, begin_stop_twice,
}
use second_eye.Manager.Reachable.{running, begins, stay, next, IsConsistent, Steps-IsConsistent}
use second_eye.Tests.Traffic.{post_form}
use second_eye.Tests.CaptureRun.{env, idle, started}

-- the manager with the capture started and its buffer empty
abbrev pub opened : CaptureManager
opened = record idle {
  active = some started;
  buffer = some (record { path = buffer_path started.output_dir; closed = false });
  disk = (buffer_path started.output_dir, []) ∷ [];
}

abbrev pub closed_ : CaptureManager
closed_ = record opened {
  buffer = some (record { path = buffer_path started.output_dir; closed = true });
}

-- the empty buffer is read as no entries
pub empty_read : IsPrepared env opened started []
unfolding buffered_entries read_buffer lines read_lines lookup strip nat_eq list_eq path_join
    starts_with analysis_raises classify_entries_raises build_stats_raises classify_entries
    build_flows_raises detect_redirect_chains_raises chain_loop_raises nav_entries sort_by
    detect_polling_groups_raises xhr_entries groups_raise values by_signature flow_loop_raises
    build_flows flow_loop tables_of detect_redirect_chains chain_loop detect_polling_groups
    groups_of render_analysis_md_raises signals_raise entries_by_index
empty_read = (refl, refl)

abbrev pub pending : PendingStop
pending =
    pending_stop env opened started 9 [] (prepare-IsPrepared env opened started 9 [] empty_read).0

pub begin_stop_run : begin_stop env 9 opened ≡ (ok pending, closed_)
unfolding begin_stop begin_with
begin_stop_run = ap (λ r. (r, closed_)) (prepare-IsPrepared env opened started 9 [] empty_read).1

begin_stop_refuses_example :
    (start_capture env 12 (codes "two") closed_ ≡ (err (already_active (codes "one") 3), closed_))
    × (record_entry env post_form closed_ ≡ (err failure, closed_))
unfolding pending_stop
begin_stop_refuses_example =
    begin_stop_refuses env 9 12 (codes "two") post_form opened closed_ pending begin_stop_run

abbrev second : ActiveCapture
second = record {
  name = codes "two";
  started_at = 20;
  output_dir = codes "/s/captures/2026-01-01_all/two";
}

abbrev again : CaptureManager
again = (start_capture env 20 (codes "two") (finish_stop env pending closed_).1).1

second_run :
    start_capture env 20 (codes "two") (finish_stop env pending closed_).1 ≡ (ok second, again)
unfolding start_capture finish_stop pending_stop path_exists output_dir_for path_join keys insert
    unlink write_outputs capture_result starts_with nat_eq list_eq
second_run = refl

begin_stop_twice_example :
    (q : PendingStop) × (begin_stop env 11 closed_ ≡ (ok q, closed_))
    × (q.capture ≡ pending.capture)
    × (q.entries ≡ pending.entries)
    × (again.active ≡ some second)
    × ((finish_stop env q again).1.active ≡ none)
    × ((finish_stop env q again).1.buffer ≡ none)
    × ((finish_stop env q again).1.history
        ≡ (opened.history ++ capture_result env pending ∷ []) ++ capture_result env q ∷ [])
begin_stop_twice_example =
    begin_stop_twice env 9 11 20 (codes "two") opened closed_ again pending second begin_stop_run
      second_run

Steps-IsConsistent_example : IsConsistent (running closed_ (some pending))
Steps-IsConsistent_example =
    Steps-IsConsistent env (running opened none) (running closed_ (some pending))
      (next (running opened none) (running opened none) (running closed_ (some pending))
        (stay (running opened none)) (begins 9 opened closed_ pending begin_stop_run))
      (record { both = tt; holds = tt })
