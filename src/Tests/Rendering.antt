-- ===== src/Tests/Rendering.antt =====
-- Documents rendered from two flows.
use second_eye.Prelude.{◌≡◌, ◌≤◌, List, [], ◌∷◌, ◌++◌, map, some, All, length}
use second_eye.Prelude.Text.{Text, codes}
use second_eye.Classify.{classify_entries}
use second_eye.Tests.CaptureRun.{plain_layout}
use second_eye.Tests.FlowRun.{entries, flows, flows_run}
use second_eye.Classify.{ClassifiedEntry}
use second_eye.Redirect.{indices}
use second_eye.Render.{inline_safe, inline_text, inline_max_len}
use second_eye.Render.Sources.{build_flows-IsSourced}
use second_eye.Render.Document.{
  Context, flatten, document_lines, narrative, closing_line, each, flow_heading_text,
}
use second_eye.Render.Headings.{contents, heading_line, document_lines-headings}
use second_eye.Render.Returns.{
  Returns, context_of-Returns, document_lines-Returns, entries_by_index-Returns,
}
use second_eye.Render.Inline.{IsInline, inline_safe_lem}

inline_safe_lem_example :
    (inline_safe (codes "a `b`\n# c") ≡ b'`' ∷ inline_text (codes "a `b`\n# c") ++ b'`' ∷ [])
    × All IsInline (inline_text (codes "a `b`\n# c"))
    × (length (inline_text (codes "a `b`\n# c")) ≤ inline_max_len)
inline_safe_lem_example = inline_safe_lem (codes "a `b`\n# c")

abbrev classified : List ClassifiedEntry
classified = classify_entries plain_layout.urls entries

abbrev context : Context
context = (context_of-Returns plain_layout classified).0

lines_run : Returns (document_lines plain_layout (codes "one") [] 3 9 classified flows context)
lines_run =
    document_lines-Returns plain_layout (indices classified) context
      (λ i m.
        rw (context_of-Returns plain_layout classified).2
          (entries_by_index-Returns i classified [] m))
      (codes "one") [] 3 9 classified flows
      (build_flows-IsSourced plain_layout.urls plain_layout.floats plain_layout.reader
        (λ x. codes "1s") classified flows flows_run)

document_lines-headings_example :
    (front headings : List Text) × (sections : List (List Text)) × (lines_run.0
      ≡ front
        ++ contents plain_layout headings
        ++ flatten sections
        ++ [] ∷ closing_line plain_layout (length classified) (length (narrative flows)) ∷ [])
    × (each (λ f. flow_heading_text plain_layout f context) (narrative flows) ≡ some headings)
    × (length headings ≡ length (narrative flows))
    × (map heading_line sections ≡ map (λ h. some (codes "## " ++ h)) headings)
document_lines-headings_example =
    document_lines-headings plain_layout (codes "one") [] 3 9 classified flows context lines_run.0
      lines_run.1
