-- ===== src/Tests/FlowRun.antt =====
-- The flows of two entries, computed.
use second_eye.Prelude.{
  ℕ, ◌≡◌, refl, not_raised, false, none, some, List, [], ◌∷◌, nat_eq, list_eq, option_eq, pair_eq,
}
use second_eye.Prelude.Text.{
  Text, codes, lower, starts_with, ends_with, strip, before_char, decimal, drop_while,
  drop_while_end, is_space, join,
}
use second_eye.Prelude.Dict.{insert, lookup, values}
use second_eye.Prelude.Sort.{sort_by, insert_by}
use second_eye.Har.{HarEntry, header_value}
use second_eye.Har.Render.{or_text}
use second_eye.Classify.{
  Category, navigation, xhr_api, classify_entries, classify_entry_detailed, is_script_mode,
  classify_by_content, content_type_base, has_static_asset_extension, is_static_asset_content_type,
}
use second_eye.Redirect.{
  detect_redirect_chains_raises, chain_loop_raises, follow_raises, leads_to_raises,
  detect_redirect_chains, add_chain, chain_loop, follow, is_redirect_status, leads_to, nav_entries,
}
use second_eye.Polling.{
  detect_polling_groups_raises, groups_raise, run_loop_raises, differs_raises, signature_raises,
  bodies_match_raises, add_occurrence, bodies_match, by_signature, detect_polling_groups, differs,
  finalize_run, gaps, groups_of, is_regular, median, run_loop, signature, sort_floats, xhr_entries,
}
use second_eye.Manifest.{
  Flow, path_and_query_raises, path_and_query, redirect_hops_of, summary_for_chain,
  summary_for_entry,
}
use second_eye.Manifest.Flows.{
  build_flows_raises, flow_loop_raises, flow_for_raises, build_flows, tables_of, flow_loop,
  is_skipped, build_chain_flow, build_polling_first_flow, build_simple_flow, collapsed_occurrences,
  first_occurrences, flow_for,
}
use second_eye.Tests.Traffic.{plain_urls, whole_floats, no_reader, post_form, page_a}

abbrev pub entries : List HarEntry
entries = post_form ∷ page_a ∷ []

abbrev simple_flow : ℕ → ℕ → Category → ℕ → Text → Flow
simple_flow n t k i s = record {
  flow_id = n;
  started_at = t;
  category = k;
  har_entry_indices = i ∷ [];
  redirect_chain = false;
  summary = s;
  redirect_hops = none;
  polling_group = none;
  collapsed_into = none;
}

abbrev pub flows : List Flow
flows =
    simple_flow 1 5 xhr_api 0 (codes "POST /login → 204")
    ∷ simple_flow 2 10 navigation 1 (codes "GET /a → 302")
    ∷ []

pub flows_run :
    build_flows plain_urls
      (λ x. codes "1s")
      whole_floats
      no_reader
      (classify_entries plain_urls entries)
    ≡ some flows
unfolding nat_eq list_eq option_eq pair_eq lower starts_with ends_with strip before_char decimal
    drop_while drop_while_end is_space join insert lookup values sort_by insert_by header_value
    or_text classify_entries classify_entry_detailed is_script_mode classify_by_content
    content_type_base has_static_asset_extension is_static_asset_content_type detect_redirect_chains
    add_chain chain_loop follow is_redirect_status leads_to nav_entries add_occurrence bodies_match
    by_signature detect_polling_groups differs finalize_run gaps groups_of is_regular median
    run_loop signature sort_floats xhr_entries path_and_query redirect_hops_of summary_for_chain
    summary_for_entry build_flows tables_of flow_loop is_skipped build_chain_flow
    build_polling_first_flow build_simple_flow collapsed_occurrences first_occurrences flow_for
    build_flows_raises flow_loop_raises flow_for_raises path_and_query_raises
    detect_polling_groups_raises groups_raise run_loop_raises differs_raises signature_raises
    bodies_match_raises detect_redirect_chains_raises chain_loop_raises follow_raises
    leads_to_raises
flows_run = refl

pub flows_pass :
    build_flows_raises plain_urls whole_floats no_reader (classify_entries plain_urls entries)
    ≡ false
unfolding build_flows
flows_pass =
    not_raised
      (build_flows_raises plain_urls whole_floats no_reader (classify_entries plain_urls entries)) _
      flows flows_run
