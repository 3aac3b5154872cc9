-- ===== src/Tests/Control.antt =====
-- A session of capture commands on the control socket.
use second_eye.Prelude.{ℕ, List, [], ◌∷◌, ◌++◌}
use second_eye.Prelude.Text.{codes}
use second_eye.Control.{Wire, raised}
use second_eye.Control.Abstract.{Command, start, stop, list, Session}
use second_eye.Tests.Codecs.{ascii_codecs}

abbrev pub wire : Wire
wire = record {
  codecs = ascii_codecs;
  loads = λ line. raised;
  dumps = λ reply. [];
  command_repr = λ c. [];
  name_repr = λ name. codes "'" ++ name ++ codes "'";
  time_text = λ t. [];
}

abbrev commands : List (ℕ × Command)
commands =
    (3, start (codes "one")) ∷ (4, start (codes "two")) ∷ (5, stop) ∷ (6, stop) ∷ (7, list) ∷ []
