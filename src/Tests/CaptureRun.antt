-- ===== src/Tests/CaptureRun.antt =====
-- Entries written and read, and a capture from its start to its stop.
use second_eye.Prelude.{
  List, ◌↔◌, ◌≡◌, refl, true, false, none, some, [], ◌∷◌, ◌++◌, nat_eq, list_eq, length, leb,
  option_eq, if◌then◌else◌, ◌&&◌, ◌||◌,
}
use second_eye.Prelude.Text.{
  codes, starts_with, decimal, lower, has_substring, ends_with, strip, before_char, drop_while,
  drop_while_end, is_space,
}
use second_eye.Prelude.Dict.{insert, lookup, keys}
use second_eye.Prelude.Sort.{insert_by, sort_by}
use second_eye.Har.Render.{to_har_dict}
use second_eye.Har.Parse.{parse_har_entry}
use second_eye.Har.RoundTrip.{parse_har_entry-to_har_dict}
use second_eye.Buffer.{read_buffer}
use second_eye.Buffer.Laws.{appended, read_buffer-appended}
use second_eye.Classify.{
  classify_entries, classify_entries_raises, classify_entry_detailed_raises,
  classify_by_content_raises, has_static_asset_extension_raises, classify_entry_detailed,
  is_script_mode, classify_by_content, content_type_base, has_static_asset_extension,
  is_static_asset_content_type,
}
use second_eye.Manifest.Stats.{build_stats_raises}
use second_eye.Manifest.{path_and_query_raises}
use second_eye.Signals.{json_body_raises}
use second_eye.Render.Document.{render_analysis_md_raises}
use second_eye.Render.Raises.{
  signals_raise, render_flow_raises, referer_raises, url_raises, first_entry, hops_raise,
  code_block_raises, render_xhr_api_raises, is_xhr_api,
}
use second_eye.Render.Sections.{entries_by_index, first_index}
use second_eye.Har.{HarEntry, header_value}
use second_eye.Har.Render.{or_text}
use second_eye.Cluster.{started_at}
use second_eye.Redirect.{
  detect_redirect_chains, detect_redirect_chains_raises, chain_loop_raises, follow_raises,
  leads_to_raises, nav_entries, is_redirect_status,
}
use second_eye.Manifest.{Flow}
use second_eye.Manifest.Flows.{build_flows, build_flows_raises}
use second_eye.Manifest.Returns.{build_flows-classify_entries}
use second_eye.Manifest.Laws.{Numbers, build_flows-Numbers}
use second_eye.Manager.{
  Env, ok, err, no_active_capture, ActiveCapture, CaptureResult, CaptureManager, buffer_path,
  start_capture, path_exists, output_dir_for, path_join,
}
use second_eye.Manager.Stop.{analysis_raises, sum_bytes, build_raw_har, stop_capture, record_all}
use second_eye.Manager.Invariant.{
  IsIdleOrOpen, StopOutcome, start_capture-IsIdleOrOpen, stop_capture_outcome,
}
use second_eye.Manager.Outputs.{capture_session}
use second_eye.Json.{obj}
use second_eye.Render.{Layout, content_type}
use second_eye.Tests.Codecs.{ascii_codecs, ascii_codecs-Lawful}
use second_eye.Tests.Lines.{machine_json, machine_json-WritesLines}
use second_eye.Tests.FlowRun.{entries, flows, flows_run, flows_pass}
use second_eye.Tests.Traffic.{
  plain_urls, whole_floats, no_reader, header, post_form, page_a, page_b,
}

parse_har_entry-to_har_dict_example :
    parse_har_entry ascii_codecs (to_har_dict ascii_codecs post_form) ≡ some post_form
parse_har_entry-to_har_dict_example =
    parse_har_entry-to_har_dict ascii_codecs ascii_codecs-Lawful post_form

read_buffer-appended_example :
    read_buffer ascii_codecs machine_json
      (appended ascii_codecs machine_json (post_form ∷ page_a ∷ []) [])
    ≡ some (post_form ∷ page_a ∷ [])
read_buffer-appended_example =
    read_buffer-appended ascii_codecs machine_json ascii_codecs-Lawful machine_json-WritesLines
      (post_form ∷ page_a ∷ [])

abbrev pub plain_layout : Layout
plain_layout = record {
  codecs = ascii_codecs;
  urls = plain_urls;
  reader = no_reader;
  dumps_indent = λ v. elim v [ obj d ↦ machine_json.dumps d | _ ↦ [] ];
  floats = whole_floats;
  scanner = record { decode = λ b. b; search = λ p t. none };
  as_set = λ ks. ks;
  clock = λ t. codes "10:00:00";
  is_alnum = λ c. leb 48 c && leb c 57 || leb 97 c && leb c 122;
  rounded = λ x. decimal x.bits;
  general = λ x. decimal x.bits;
  to_int = λ x. x.bits;
  round1 = λ x. x;
  timing_multiple = record { bits = 5 };
  size_multiple = record { bits = 10 };
}

abbrev pub env : Env
env = record {
  layout = plain_layout;
  json = machine_json;
  format_interval = λ x. codes "1s";
  date_label = λ t. codes "2026-01-01";
}

abbrev pub idle : CaptureManager
idle = record {
  state_dir = codes "/s";
  target_label = codes "all";
  scope = record {
    targets = codes "b.c" ∷ [];
    target_regex = none;
    target_all = false;
    upstream = none;
    no_upstream = true;
  };
  active = none;
  buffer = none;
  history = [];
  active_request_count = 0;
  disk = [];
}

idle-IsIdleOrOpen : IsIdleOrOpen idle
idle-IsIdleOrOpen = record { agrees = tt }

begun-IsIdleOrOpen : IsIdleOrOpen (start_capture env 3 (codes "one") idle).1
begun-IsIdleOrOpen = start_capture-IsIdleOrOpen env 3 (codes "one") idle idle-IsIdleOrOpen

abbrev begun : CaptureManager
begun = (start_capture env 3 (codes "one") idle).1

stop_capture_outcome_example :
    StopOutcome env begun (stop_capture env 9 begun).0 (stop_capture env 9 begun).1
    × (((stop_capture env 9 begun).0 ≡ err no_active_capture) ↔ (begun.active ≡ none))
stop_capture_outcome_example = stop_capture_outcome env 9 begun begun-IsIdleOrOpen

abbrev pub started : ActiveCapture
started = record {
  name = codes "one";
  started_at = 3;
  output_dir = codes "/s/captures/2026-01-01_all/one";
}

started_run : (start_capture env 3 (codes "one") idle).0 ≡ ok started
unfolding start_capture starts_with keys nat_eq path_exists output_dir_for path_join
started_run = refl

build_flows-Numbers_example :
    Numbers env.layout.urls env.format_interval
      (detect_redirect_chains env.layout.urls (classify_entries env.layout.urls entries))
      1
      (sort_by started_at (classify_entries env.layout.urls entries))
      flows
build_flows-Numbers_example =
    build_flows-Numbers env.layout.urls env.format_interval env.layout.floats env.layout.reader
      (classify_entries env.layout.urls entries) flows flows_run

entries_pass : analysis_raises env entries ≡ false
unfolding analysis_raises classify_entries_raises classify_entry_detailed_raises
    classify_by_content_raises has_static_asset_extension_raises build_stats_raises
    render_analysis_md_raises signals_raise json_body_raises render_flow_raises referer_raises
    url_raises first_entry hops_raise code_block_raises render_xhr_api_raises is_xhr_api
    content_type path_and_query_raises first_index entries_by_index nat_eq list_eq lower
    has_substring or_text header_value insert lookup classify_entries classify_entry_detailed
    is_script_mode classify_by_content content_type_base has_static_asset_extension
    is_static_asset_content_type starts_with ends_with strip before_char drop_while drop_while_end
    is_space option_eq
entries_pass = rw (flows_pass, flows_run) refl

-- a redirect to a Location that urllib refuses, before another navigation
abbrev bad_redirect : HarEntry
bad_redirect = record page_a {
  response = record page_a.response { headers = header (codes "Location") (codes "[") ∷ [] };
}

bad_redirect_raises :
    build_flows_raises plain_urls whole_floats no_reader
      (classify_entries plain_urls (bad_redirect ∷ page_b ∷ []))
    ≡ true
unfolding build_flows_raises detect_redirect_chains_raises chain_loop_raises follow_raises
    leads_to_raises nav_entries is_redirect_status sort_by insert_by header_value lower
    classify_entries classify_entry_detailed is_script_mode classify_by_content nat_eq list_eq
    option_eq
bad_redirect_raises = refl

capture_session_example :
    let recorded = record_all env entries begun in
    let stopped = stop_capture env 9 recorded in
    (r : CaptureResult) × (stopped.0 ≡ ok r)
    × (recorded.active_request_count ≡ length entries)
    × (r.request_count ≡ length entries)
    × (r.total_bytes ≡ sum_bytes entries)
    × (lookup r.raw_har_path stopped.1.disk
        ≡ some (env.layout.dumps_indent (obj (build_raw_har env entries))))
    × (lookup (buffer_path started.output_dir) stopped.1.disk ≡ none)
    × (stopped.1.history ≡ idle.history ++ r ∷ [])
capture_session_example =
    capture_session env ascii_codecs-Lawful machine_json-WritesLines 3 9 (codes "one") idle started
      entries started_run entries_pass

build_flows-classify_entries_example :
    let classified = classify_entries env.layout.urls entries in
    (fls : List Flow) × (build_flows env.layout.urls env.format_interval env.layout.floats
        env.layout.reader classified
      ≡ (if build_flows_raises env.layout.urls env.layout.floats env.layout.reader classified
          then none
          else some fls))
build_flows-classify_entries_example =
    build_flows-classify_entries env.layout.urls env.layout.floats env.layout.reader
      env.format_interval entries
