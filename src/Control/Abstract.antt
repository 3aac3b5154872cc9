-- ===== src/Control/Abstract.antt =====
-- An abstract recorder, which holds the name of the active capture and those of the finished ones, and
-- what a client of the control socket sees of it.
use second_eye.Prelude.{◌≡◌, Option, none, some, List, [], ◌∷◌, ◌++◌, map, list_eq, nat_eq}
use second_eye.Prelude.Text.{Text, codes}
use second_eye.Json.{Json, str, arr, obj, Items, nil, cons, Fields, end, field, get}
use second_eye.Manager.{Result, ok, err, ActiveCapture, CaptureResult, CaptureManager}

pub data Command : Type 0 where
  start : Text → Command
  stop list : Command

-- what a client reads from a reply: a name, names, the type of an error, or nothing
pub data Reply : Type 0 where
  named : Text → Reply
  listed : List Text → Reply
  refused : Text → Reply
  no_reply : Reply

-- the request that `send_request` writes
unfoldable pub request_json : Text → Fields → Json
request_json command params =
    obj (field (codes "command") (str command) (field (codes "params") (obj params) end))

unfoldable pub command_request : Command → Json
command_request (start name) =
    request_json (codes "capture.start") (field (codes "name") (str name) end)
command_request stop = request_json (codes "capture.stop") end
command_request list = request_json (codes "capture.list") end

unfoldable pub text_or_empty : Option Json → Text
text_or_empty (some (str t)) = t
text_or_empty _ = []

unfoldable pub names_in : Items → List Text
names_in nil = []
names_in (cons (obj fs) vs) = text_or_empty (get (codes "name") fs) ∷ names_in vs
names_in (cons _ vs) = [] ∷ names_in vs

-- the result of a reply, or the type of its error
unfoldable pub read_result : Option Json → Option Json → Reply
read_result (some (obj fs)) e = named (text_or_empty (get (codes "name") fs))
read_result (some (arr vs)) e = listed (names_in vs)
read_result _ (some (obj fs)) = refused (text_or_empty (get (codes "type") fs))
read_result _ _ = no_reply

unfoldable pub read_reply : Result Fields → Reply
read_reply (ok fs) = read_result (get (codes "result") fs) (get (codes "error") fs)
read_reply (err e) = no_reply

-- the abstract recorder
pub record Recorder : Type 0 where
  pub active : Option Text
  pub finished : List Text

-- one command, its reply, and the state before and after
pub data Answers (r s : Recorder) : Command → Reply → Type 0 where
  starts :
      (name : Text)
      → r.active ≡ none
      → s ≡ record r { active = some name }
      → Answers r s (start name) (named name)
  busy :
      (name other : Text)
      → r.active ≡ some other
      → s ≡ r
      → Answers r s (start name) (refused (codes "CaptureAlreadyActiveError"))
  taken :
      (name : Text)
      → r.active ≡ none
      → s ≡ r
      → Answers r s (start name) (refused (codes "CaptureNameConflictError"))
  stops :
      (name : Text)
      → r.active ≡ some name
      → s ≡ record r { active = none; finished = r.finished ++ name ∷ [] }
      → Answers r s stop (named name)
  idle : r.active ≡ none → s ≡ r → Answers r s stop (refused (codes "NoActiveCaptureError"))
  -- the buffer cannot be read, or the analysis of its entries raises
  fails : (name : Text) → r.active ≡ some name → s ≡ r → Answers r s stop no_reply
  lists : s ≡ r → Answers r s list (listed r.finished)

-- commands one after the other
pub data Session : Recorder → List Command → List Reply → Recorder → Type 0 where
  over : (r : Recorder) → Session r [] [] r
  then :
      (r s t : Recorder) (c : Command) (reply : Reply) (cs : List Command) (replies : List Reply)
      → Answers r s c reply
      → Session s cs replies t
      → Session r (c ∷ cs) (reply ∷ replies) t

-- what the recorder keeps of the manager
abbrev pub name_of : Option ActiveCapture → Option Text
name_of none = none
name_of (some a) = some a.name

abbrev pub names_of : List CaptureResult → List Text
names_of = map (λ r. r.name)

abbrev pub recorder : CaptureManager → Recorder
recorder m = record { active = name_of m.active; finished = names_of m.history }
