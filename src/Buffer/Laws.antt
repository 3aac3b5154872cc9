-- ===== src/Buffer/Laws.antt =====
-- What was appended is read back.
use second_eye.Prelude.{
  ◌≡◌, ◌≢◌, refl, ◌∙◌, sym, some, List, [], ◌∷◌, ◌++◌, arith, All, list_eq, nat_eq,
}
use mathlib.Core.List.{append_assoc, append-nil}
use second_eye.Prelude.Text.{Text, codes, strip}
use second_eye.Json.{obj, Fields, Codecs, Lawful}
use second_eye.Har.{HarEntry}
use second_eye.Har.Render.{to_har_dict}
use second_eye.Har.Keys.{IsDict, to_har_dict-IsDict}
use second_eye.Har.RoundTrip.{parse_har_entry-to_har_dict}
use second_eye.Buffer.{JsonText, lines, entry_line, append, read_lines, read_buffer}

-- What is documented of the JSON writer and reader: a dict, which has no key twice, is read back as it
-- was written, and it is written on one line, with no space around it and not as the empty text.
pub record WritesLines (j : JsonText) : Type 0 where
  pub round_trip : (d : Fields) → IsDict d → j.loads_text (j.dumps d) ≡ some (obj d)
  pub one_line : (d : Fields) → All (λ k. (k ≢ 10) × (k ≢ 13)) (j.dumps d)
  pub tight : (d : Fields) → strip (j.dumps d) ≡ j.dumps d
  pub some_text : (d : Fields) → j.dumps d ≢ []

lines-append :
    (s rest : Text) → All (λ k. (k ≢ 10) × (k ≢ 13)) s → lines (s ++ 10 ∷ rest) ≡ s ∷ lines rest
unfolding lines
lines-append [] rest h = ground arith
lines-append (d ∷ s) rest h = rw (lines-append s rest h.1) (ground arith)

module _ (c : Codecs) (j : JsonText) where
  -- the file after appending all of `es`
  unfoldable pub appended : List HarEntry → Text → Text
  appended [] content = content
  appended (e ∷ es) content = appended es (append c j e content)

  file_of : List HarEntry → Text
  file_of [] = []
  file_of (e ∷ es) = entry_line c j e ++ file_of es

  appended-file_of :
      (es : List HarEntry) (content : Text) → appended es content ≡ content ++ file_of es
  unfolding appended file_of append
  appended-file_of [] content = sym (append-nil content)
  appended-file_of (e ∷ es) content =
      appended-file_of es (append c j e content)
      ∙ append_assoc content (entry_line c j e) (file_of es)

module _ (c : Codecs) (j : JsonText) (lawful : Lawful c) (writes : WritesLines j) where
  read_lines-entry :
      (e : HarEntry) (rest : List Text) (es : List HarEntry)
      → read_lines c j rest ≡ some es
      → read_lines c j (j.dumps (to_har_dict c e) ∷ rest) ≡ some (e ∷ es)
  unfolding read_lines
  read_lines-entry e rest es h =
      let d = to_har_dict c e in
      ground (
        arith,
        writes.tight d,
        writes.round_trip d (to_har_dict-IsDict c e),
        writes.some_text d,
        parse_har_entry-to_har_dict c lawful e,
      )

  lines-entry :
      (e : HarEntry) (rest : Text)
      → lines (entry_line c j e ++ rest) ≡ j.dumps (to_har_dict c e) ∷ lines rest
  unfolding entry_line
  lines-entry e rest =
      let d = to_har_dict c e in
      rw (append_assoc (j.dumps d) (codes "\n") rest)
        (lines-append (j.dumps d) rest (writes.one_line d))

  read-file_of : (es : List HarEntry) → read_buffer c j (file_of c j es) ≡ some es
  unfolding read_buffer file_of
  read-file_of [] = unfold lines read_lines list_eq strip in refl
  read-file_of (e ∷ es) =
      rw (lines-entry e (file_of c j es))
        (read_lines-entry e (lines (file_of c j es)) es (read-file_of es))

  -- An empty buffer to which entries are appended, one after the other, is read back as those entries,
  -- in that order, if the codecs and the JSON writer keep what they document.
  pub read_buffer-appended : (es : List HarEntry) → read_buffer c j (appended c j es []) ≡ some es
  read_buffer-appended es = rw (appended-file_of c j es []) (read-file_of es)
