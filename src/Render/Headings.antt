-- ===== src/Render/Headings.antt =====
-- The contents of ANALYSIS.md against its sections.
use mathlib.Core.Path.{ap₂}
use mathlib.Core.Option.{none-ne-some, some-injective}
use second_eye.Prelude.{
  ℕ, suc, ◌≡◌, refl, sym, ap, ◌∙◌, Option, none, some, List, [], ◌∷◌, ◌++◌, length, map, list_eq,
  nat_eq, arith,
}
use second_eye.Prelude.Text.{Text, codes}
use second_eye.Har.{◌>>=◌}
use second_eye.Classify.{ClassifiedEntry}
use second_eye.Manifest.{Flow}
use second_eye.Render.{Layout}
use second_eye.Render.Summary.{render_header, render_summary, render_capture_signals}
use second_eye.Render.Document.{
  Context, each, flatten, narrative, flow_heading_text, toc_line, render_toc,
  render_sequence_diagram, flow_lines, render_flow, flow_section, closing_line, document_lines,
}

-- what a bind that returned has run through
pub bind_some {ℓ κ} :
    {A : Type ℓ} {B : Type κ} (o : Option A) (f : A → Option B) (b : B)
    → (o >>= f) ≡ some b
    → (a : A) × (o ≡ some a) × (f a ≡ some b)
bind_some none f b h = absurd (none-ne-some b h)
bind_some (some a) f b h = (a, refl, h)

-- the heading of a section: the line behind the empty line that it begins with
abbrev pub heading_line : List Text → Option Text
heading_line ([] ∷ h ∷ ls) = some h
heading_line _ = none

module _ (lay : Layout) where
  -- the contents of a list of headings
  abbrev pub contents : List Text → List Text
  contents [] = []
  contents (h ∷ hs) = [] ∷ codes "## Contents" ∷ [] ∷ map (toc_line lay) (h ∷ hs)

  -- a flow's section begins with the flow's heading
  flow_section-heading :
      (ctx : Context) (fl : Flow) (section : List Text)
      → flow_section lay ctx fl ≡ some section
      → (h : Text) × (flow_heading_text lay fl ctx ≡ some h)
        × (heading_line section ≡ some (codes "## " ++ h))
  unfolding flow_section render_flow
  flow_section-heading ctx fl section made =
      let (lines, l, e) = bind_some (render_flow lay fl ctx) _ section made in
      let (h, heading, l') = bind_some (flow_heading_text lay fl ctx) _ lines l in
      let (body, b, l'') = bind_some (flow_lines lay fl ctx) _ lines l' in
      let first = some-injective _ _ l'' in
      let whole = some-injective _ _ e in (h, heading, rw (← whole, ← first) refl)

  each-headings :
      (ctx : Context) (fls : List Flow) (sections : List (List Text))
      → each (flow_section lay ctx) fls ≡ some sections
      → (hs : List Text) × (each (λ f. flow_heading_text lay f ctx) fls ≡ some hs)
        × (length hs ≡ length fls)
        × (map heading_line sections ≡ map (λ h. some (codes "## " ++ h)) hs)
  unfolding each
  each-headings ctx [] sections made =
      let none_ : [] ≡ sections = some-injective _ _ made in ([], refl, refl, rw (← none_) refl)
  each-headings ctx (fl ∷ fls) sections made =
      let (s, here, rest) = bind_some (flow_section lay ctx fl) _ sections made in
      let (ss, there, whole) = bind_some (each (flow_section lay ctx) fls) _ sections rest in
      let (h, heading, line) = flow_section-heading ctx fl s here in
      let (hs, headings, count, lines) = each-headings ctx fls ss there in
      (
        h ∷ hs,
        rw (heading, headings) refl,
        ap suc count,
        rw (← some-injective _ _ whole) (ap₂ ◌∷◌ line lines),
      )

  toc-contents :
      (ctx : Context) (fls : List Flow) (hs toc : List Text)
      → each (λ f. flow_heading_text lay f ctx) fls ≡ some hs
      → length hs ≡ length fls
      → render_toc lay fls ctx ≡ some toc
      → toc ≡ contents hs
  unfolding render_toc each
  toc-contents ctx [] [] toc each_ count made = sym (some-injective _ _ made)
  toc-contents ctx [] (h ∷ hs) toc each_ count made = absurd (omega arith)
  toc-contents ctx (fl ∷ fls) [] toc each_ count made = absurd (omega arith)
  toc-contents ctx (fl ∷ fls) (h ∷ hs) toc each_ count made =
      sym (some-injective _ _ (rw each_ at made))

  -- A document that is rendered has one heading for each narrative flow, that flow's own, in the order of
  -- the flows: the contents list exactly these headings, with links, and the sections begin, in the same
  -- order, each with an empty line and then its heading after `## `. The line with the counts of requests and narrative flows closes the document.
  pub document_lines-headings :
      (name : Text) (targets : List Text) (started_at ended_at : ℕ)
      (classified : List ClassifiedEntry) (fls : List Flow) (ctx : Context) (lines : List Text)
      → document_lines lay name targets started_at ended_at classified fls ctx ≡ some lines
      → (front headings : List Text) × (sections : List (List Text)) × (lines
          ≡ front
            ++ contents headings
            ++ flatten sections
            ++ [] ∷ closing_line lay (length classified) (length (narrative fls)) ∷ [])
        × (each (λ f. flow_heading_text lay f ctx) (narrative fls) ≡ some headings)
        × (length headings ≡ length (narrative fls))
        × (map heading_line sections ≡ map (λ h. some (codes "## " ++ h)) headings)
  unfolding document_lines
  document_lines-headings name targets started_at ended_at classified fls ctx lines made =
      let shown = narrative fls in
      let (diagram, d, made1) = bind_some (render_sequence_diagram lay shown ctx) _ lines made in
      let (toc, t, made2) = bind_some (render_toc lay shown ctx) _ lines made1 in
      let (sections, s, made3) = bind_some (each (flow_section lay ctx) shown) _ lines made2 in
      let (hs, headings, count, heads) = each-headings ctx shown sections s in
      let same = toc-contents ctx shown hs toc headings count t in
      let front =
        render_header lay.codecs name targets started_at ended_at classified
        ++ render_summary lay.urls lay.reader classified
        ++ render_capture_signals classified
        ++ diagram in
      let closing = closing_line lay (length classified) (length shown) in
      (
        front,
        hs,
        sections,
        sym (some-injective _ _ made3)
            ∙ ap (λ c. front ++ c ++ flatten sections ++ [] ∷ closing ∷ []) same,
        headings,
        count,
        heads,
      )
