-- ===== src/Manager.antt =====
-- src/secondeye/recording/manager.py: the capture lifecycle. A method takes the state and returns its
-- result, or the exception, with the state that it leaves. Here: the state, start and record.
pub mod Stop
pub mod Invariant
pub mod Session
pub mod Outputs
pub mod Waiting
pub mod Reachable
use second_eye.Prelude.{
  ℕ, ◌+◌, Bool, true, false, ◌||◌, Option, none, some, List, [], ◌∷◌, ◌++◌, length, map, ◌==◌,
  list_eq, nat_eq, if◌then◌else◌,
}
use second_eye.Prelude.Text.{Text, codes, starts_with}
use second_eye.Prelude.Dict.{Dict, insert, lookup, keys}
use second_eye.Json.{Float64, Json, str, arr, obj, Fields, end, field, Codecs}
use second_eye.Urls.{Urls}
use second_eye.Har.{HarEntry}
use second_eye.Har.Render.{to_har_dict}
use second_eye.Classify.{ClassifiedEntry, classify_entries}
use second_eye.Polling.{FloatOps, JsonReader}
use second_eye.Manifest.{Flow, items}
use second_eye.Manifest.Flows.{build_flows}
use second_eye.Manifest.Stats.{ScopeConfig, build_manifest}
use second_eye.Render.{Layout}
use second_eye.Buffer.{JsonText, append, read_buffer}

-- What the manager calls outside the modelled files.
pub record Env : Type 0 where
  pub layout : Layout
  pub json : JsonText
  pub format_interval : Float64 → Text
  -- `started_at.strftime("%Y-%m-%d")`
  pub date_label : ℕ → Text

pub data Error : Type 0 where
  already_active : Text → ℕ → Error
  name_conflict : Text → Text → Error
  no_active_capture : Error
  -- any other exception
  failure : Error

pub data Result {ℓ} (A : Type ℓ) : Type ℓ where
  ok : A → Result A
  err : Error → Result A

pub record ActiveCapture : Type 0 where
  pub name : Text
  pub started_at : ℕ
  pub output_dir : Text

pub record CaptureResult : Type 0 where
  pub name : Text
  pub request_count : ℕ
  pub total_bytes : ℕ
  pub output_dir : Text
  pub raw_har_path : Text
  pub manifest_path : Text
  pub analysis_path : Text

-- an open or closed buffer file
pub record CaptureBuffer : Type 0 where
  pub path : Text
  pub closed : Bool

pub record CaptureManager : Type 0 where
  pub state_dir : Text
  pub target_label : Text
  pub scope : ScopeConfig
  pub active : Option ActiveCapture
  pub buffer : Option CaptureBuffer
  pub history : List CaptureResult
  pub active_request_count : ℕ
  -- the files on disk, by path
  pub disk : Dict Text Text

-- `a / b` of pathlib: an absolute `b` replaces `a`
unfoldable pub path_join : Text → Text → Text
path_join a b = if starts_with b (codes "/") then b else a ++ (codes "/" ++ b)

-- `path.exists()`: it is a file, or a directory above one
unfoldable pub path_exists : Text → List Text → Bool
path_exists p [] = false
path_exists p (q ∷ qs) = (q == p || starts_with q (p ++ codes "/")) || path_exists p qs

abbrev pub buffer_filename : Text
buffer_filename = codes ".buffer.jsonl"

abbrev pub buffer_path : Text → Text
buffer_path output_dir = path_join output_dir buffer_filename

-- the file that opening for appending leaves: what it held, or the empty text
unfoldable pub open_append : Text → Dict Text Text → Dict Text Text
open_append p disk = elim (lookup p disk) [ none ↦ insert p [] disk | some t ↦ disk ]

module _ (env : Env) where
  open env use {layout, json, format_interval, date_label}

  unfoldable pub output_dir_for : CaptureManager → ℕ → Text → Text
  output_dir_for m now name =
      path_join
        (path_join (path_join m.state_dir (codes "captures"))
          (date_label now ++ (codes "_" ++ m.target_label)))
        name

  unfoldable pub start_capture : ℕ → Text → CaptureManager → Result ActiveCapture × CaptureManager
  start_capture now name m = elim m.active [
    | some a ↦ (err (already_active a.name a.started_at), m)
    | none ↦
        let dir = output_dir_for m now name in
        let capture : ActiveCapture = record { name = name; started_at = now; output_dir = dir } in
        if path_exists dir (keys m.disk) then (err (name_conflict name dir), m) else (
          ok capture,
          record m {
            active = some capture;
            buffer = some (record { path = buffer_path dir; closed = false });
            active_request_count = 0;
            disk = open_append (buffer_path dir) m.disk;
          },
        )
  ]

  -- the text of a file, and the empty text where there is none
  abbrev pub content : Text → Dict Text Text → Text
  content p disk = elim (lookup p disk) [ none ↦ [] | some t ↦ t ]

  unfoldable pub record_entry : HarEntry → CaptureManager → Result (Unit {0}) × CaptureManager
  record_entry e m = elim m.buffer [
    | none ↦ (ok tt, m)
    | some b ↦ if b.closed then (err failure, m) else (
      ok tt,
      record m {
        active_request_count = m.active_request_count + 1;
        disk = insert b.path (append layout.codecs json e (content b.path m.disk)) m.disk;
      },
    )
  ]
