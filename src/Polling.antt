-- ===== src/Polling.antt =====
-- src/secondeye/analysis/cluster.py: `detect_polling_groups`, over the floats and the JSON reader of Python.
pub mod Laws
pub mod Signatures
pub mod Order
use second_eye.Prelude.{
  ℕ, zero, suc, ◌+◌, ◌-◌, ◌/◌, ◌%◌, Bool, true, false, ◌&&◌, ◌||◌, Option, none, some, List, [],
  ◌∷◌, ◌++◌, leb, ltb, length, filter, map, all, any, get_or, ◌==◌, Eq, list_eq, nat_eq, pair_eq,
  option_eq, if◌then◌else◌,
}
use second_eye.Prelude.Text.{Text}
use second_eye.Prelude.Dict.{Dict, insert, lookup, values}
use second_eye.Prelude.Sort.{sort_by}
use second_eye.Json.{Bytes, Float64, Json}
use second_eye.Urls.{Urls}
use second_eye.Classify.{Category, navigation, xhr_api, static_asset, other, ClassifiedEntry}
use second_eye.Cluster.{started_at, entry_referer}

-- IEEE 754 doubles, as far as the analysis computes with them.
pub record FloatOps : Type 0 where
  -- `(later - earlier).total_seconds()`, and `float(n)`
  pub seconds_between : ℕ → ℕ → Float64
  pub of_int : ℕ → Float64
  pub fle : Float64 → Float64 → Bool
  pub fadd : Float64 → Float64 → Float64
  pub fsub : Float64 → Float64 → Float64
  pub fmul : Float64 → Float64 → Float64
  pub fdiv : Float64 → Float64 → Float64
  pub fabs : Float64 → Float64
  -- the literal 0.2
  pub tolerance : Float64

-- `json.loads(b)`, where `none` is JSONDecodeError or UnicodeDecodeError, and `==` on what it returns.
pub record JsonReader : Type 0 where
  pub loads : Bytes → Option Json
  -- where it raises another exception, such as RecursionError
  pub loads_raises : Bytes → Bool
  pub same : Json → Json → Bool

abbrev pub polling_min_occurrences : ℕ
polling_min_occurrences = 3

pub record PollingGroup : Type 0 where
  pub first_index : ℕ
  pub occurrence_indices : List ℕ
  pub interval_seconds : Float64

abbrev pub is_xhr : ClassifiedEntry → Bool
is_xhr c = elim c.category [ xhr_api ↦ true | _ ↦ false ]

-- (method, path, referer)
abbrev pub Signature : Type 0
Signature = Text × (Text × Option Text)

module _ (u : Urls) where
  unfoldable pub signature : ClassifiedEntry → Signature
  signature c = (c.entry.request.method, ((u.urlsplit c.entry.request.url).path, entry_referer c))

  unfoldable pub signature_raises : ClassifiedEntry → Bool
  signature_raises c = u.split_raises c.entry.request.url

  -- `by_signature.setdefault(signature, []).append(classified)`
  unfoldable pub add_occurrence :
      ClassifiedEntry
      → Dict Signature (List ClassifiedEntry)
      → Dict Signature (List ClassifiedEntry)
  add_occurrence c d = elim (lookup (signature c) d) [
    | none ↦ insert (signature c) (c ∷ []) d
    | some cs ↦ insert (signature c) (cs ++ c ∷ []) d
  ]

  unfoldable pub by_signature :
      Dict Signature (List ClassifiedEntry)
      → List ClassifiedEntry
      → Dict Signature (List ClassifiedEntry)
  by_signature d [] = d
  by_signature d (c ∷ cs) = by_signature (add_occurrence c d) cs

unfoldable pub xhr_entries : List ClassifiedEntry → List ClassifiedEntry
xhr_entries entries = sort_by started_at (filter is_xhr entries)

module _ (r : JsonReader) where
  unfoldable pub bodies_match : Bytes → Bytes → Bool
  bodies_match a b = elim (r.loads a) [
    | none ↦ a == b
    | some x ↦ elim (r.loads b) [ none ↦ a == b | some y ↦ r.same x y ]
  ]

  -- the first of the two that raises decides
  unfoldable pub bodies_match_raises : Bytes → Bytes → Bool
  bodies_match_raises a b =
      let second : Bool = elim (r.loads a) [ none ↦ false | some x ↦ r.loads_raises b ] in
      r.loads_raises a || second

module _ (f : FloatOps) where
  open f use {seconds_between, of_int, fle, fadd, fsub, fmul, fdiv, fabs, tolerance}

  insert_float : Float64 → List Float64 → List Float64
  insert_float x [] = x ∷ []
  insert_float x (y ∷ ys) = if fle x y then x ∷ y ∷ ys else y ∷ insert_float x ys

  unfoldable pub sort_floats : List Float64 → List Float64
  unfolding insert_float
  sort_floats [] = []
  sort_floats (x ∷ xs) = insert_float x (sort_floats xs)

  -- `statistics.median` of a list that is not empty
  unfoldable pub median : List Float64 → Float64
  median xs =
      let s = sort_floats xs in
      let n = length xs in
      if n % 2 == 1
      then get_or s (n / 2) (of_int 0)
      else fdiv (fadd (get_or s (n / 2 - 1) (of_int 0)) (get_or s (n / 2) (of_int 0))) (of_int 2)

  -- the seconds between neighbours, for times in order
  unfoldable pub gaps : List ℕ → List Float64
  gaps [] = []
  gaps (t ∷ []) = []
  gaps (t ∷ t' ∷ ts) = seconds_between t' t ∷ gaps (t' ∷ ts)

  unfoldable pub is_regular : Float64 → List Float64 → Bool
  is_regular m gs = all (λ g. fle (fabs (fsub g m)) (fmul tolerance m)) gs

  first_index_of : List ClassifiedEntry → ℕ
  first_index_of [] = 0
  first_index_of (c ∷ cs) = c.index

  -- `_finalize_run`: the groups that it appends, one at most
  unfoldable pub finalize_run : List ClassifiedEntry → List PollingGroup
  unfolding first_index_of
  finalize_run run =
      let gs = gaps (map started_at run) in
      let m = median gs in
      if ltb (length run) polling_min_occurrences
      then []
      else if fle m (of_int 0)
      then []
      else if is_regular m gs
      then record {
        first_index = first_index_of run;
        occurrence_indices = map (λ c. c.index) run;
        interval_seconds = m;
      }
        ∷ []
      else []

  module _ (r : JsonReader) where
    -- `run and not _bodies_match(run[0]…, occurrence…)`
    unfoldable pub differs : List ClassifiedEntry → ClassifiedEntry → Bool
    differs [] c = false
    differs (d ∷ ds) c =
        if bodies_match r d.entry.response.body c.entry.response.body then false else true

    -- the inner loop, over the occurrences of one signature
    unfoldable pub run_loop : List ClassifiedEntry → List ClassifiedEntry → List PollingGroup
    run_loop run [] = finalize_run run
    run_loop run (c ∷ cs) =
        let ended = finalize_run run ++ run_loop (c ∷ []) cs in
        let grown = run_loop (run ++ c ∷ []) cs in if differs run c then ended else grown

    unfoldable pub differs_raises : List ClassifiedEntry → ClassifiedEntry → Bool
    differs_raises [] c = false
    differs_raises (d ∷ ds) c = bodies_match_raises r d.entry.response.body c.entry.response.body

    unfoldable pub run_loop_raises : List ClassifiedEntry → List ClassifiedEntry → Bool
    run_loop_raises run [] = false
    run_loop_raises run (c ∷ cs) =
        let ended = run_loop_raises (c ∷ []) cs in
        let grown = run_loop_raises (run ++ c ∷ []) cs in
        differs_raises run c || (if differs run c then ended else grown)

    unfoldable pub groups_raise : List (List ClassifiedEntry) → Bool
    groups_raise [] = false
    groups_raise (occurrences ∷ rest) = run_loop_raises [] occurrences || groups_raise rest

    unfoldable pub groups_of : List (List ClassifiedEntry) → List PollingGroup
    groups_of [] = []
    groups_of (occurrences ∷ rest) = run_loop [] occurrences ++ groups_of rest

    unfoldable pub detect_polling_groups : Urls → List ClassifiedEntry → List PollingGroup
    detect_polling_groups u entries =
        sort_by (λ g. g.first_index) (groups_of (values (by_signature u [] (xhr_entries entries))))

    unfoldable pub detect_polling_groups_raises : Urls → List ClassifiedEntry → Bool
    detect_polling_groups_raises u entries =
        any (signature_raises u) (xhr_entries entries)
        || groups_raise (values (by_signature u [] (xhr_entries entries)))
