-- ===== src/Buffer.antt =====
-- src/secondeye/capture/buffer.py: the JSONL file of a capture, as the text that is in it.
pub mod Laws
use second_eye.Prelude.{
  ℕ, Bool, ◌||◌, Option, none, some, List, [], ◌∷◌, ◌++◌, ◌==◌, list_eq, nat_eq, if◌then◌else◌,
}
use second_eye.Prelude.Text.{Text, codes, strip}
use second_eye.Json.{Json, obj, Fields, Codecs}
use second_eye.Har.{HarEntry, ◌>>=◌}
use second_eye.Har.Render.{to_har_dict}
use second_eye.Har.Parse.{parse_har_entry, as_dict}

-- `json.dumps(d, ensure_ascii=False)` and `json.loads`; `none` is an exception
pub record JsonText : Type 0 where
  pub dumps : Fields → Text
  pub loads_text : Text → Option Json

-- the lines of a text file, with universal newlines
add_to_line : ℕ → List Text → List Text
add_to_line d [] = (d ∷ []) ∷ []
add_to_line d (w ∷ ws) = (d ∷ w) ∷ ws

unfoldable pub lines : Text → List Text
unfolding add_to_line
lines [] = [] ∷ []
lines (d ∷ s) = let rest = lines s in if d == 10 || d == 13 then [] ∷ rest else add_to_line d rest

module _ (c : Codecs) (j : JsonText) where
  -- the line that `append` writes, with its newline
  unfoldable pub entry_line : HarEntry → Text
  entry_line e = j.dumps (to_har_dict c e) ++ codes "\n"

  -- `append` on the content of the file
  unfoldable pub append : HarEntry → Text → Text
  append e content = content ++ entry_line e

  -- the loop of `read_buffer`
  unfoldable pub read_lines : List Text → Option (List HarEntry)
  read_lines [] = some []
  read_lines (line ∷ rest) =
      let stripped = strip line in
      let parsed : Option (List HarEntry) = (do
        value ← j.loads_text stripped
        data_ ← as_dict value
        entry ← parse_har_entry c data_
        entries ← read_lines rest
        some (entry ∷ entries)) in
      let skipped = read_lines rest in if stripped == [] then skipped else parsed

  unfoldable pub read_buffer : Text → Option (List HarEntry)
  read_buffer content = read_lines (lines content)
