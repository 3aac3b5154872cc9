-- ===== src/Signals/Reuse.antt =====
-- `_extract_id_shaped_values` and `compute_id_value_reuse`.
use second_eye.Prelude.{
  ℕ, ◌+◌, Bool, true, false, Option, none, some, List, [], ◌∷◌, ◌++◌, list_eq, nat_eq, pair_eq,
  contains, if◌then◌else◌,
}
use second_eye.Prelude.Text.{Text, codes, lower}
use second_eye.Prelude.Dict.{Dict, insert, lookup}
use second_eye.Json.{Json, arr, obj, Fields, end, field, Codecs}
use second_eye.Urls.{Urls}
use second_eye.Har.{HarEntry, ◌>>=◌}
use second_eye.Har.Parse.{to_text}
use second_eye.Classify.{ClassifiedEntry}
use second_eye.Polling.{JsonReader}
use second_eye.Signals.{candidates, json_body}

pub record IdValueReuseNote : Type 0 where
  pub name : Text
  pub value : Text
  pub first_seen_index : ℕ
  pub further_occurrences : ℕ

abbrev pub low_signal_values : List Text
low_signal_values =
    [] ∷ codes "0" ∷ codes "1" ∷ codes "true" ∷ codes "false" ∷ codes "null" ∷ codes "none" ∷ []

-- a (name, value) pair
abbrev pub Key : Type 0
Key = Text × Text

-- kept unless its value is low signal
unfoldable pub keep_pair : Text → Text → List Key → List Key
keep_pair name value rest =
    if contains low_signal_values (lower value) then rest else (name, value) ∷ rest

-- a JSON value with a text of its own: no list and no object
is_scalar : Json → Bool
is_scalar (arr _) = false
is_scalar (obj _) = false
is_scalar _ = true

query_pairs : Dict Text (List Text) → List Key
query_pairs [] = []
query_pairs ((name, values) ∷ d) =
    let rest = query_pairs d in elim values [ [] ↦ rest | v ∷ vs ↦ keep_pair name v rest ]

body_pairs : Codecs → Fields → List Key
body_pairs c end = []
body_pairs c (field name value fs) =
    let rest = body_pairs c fs in
    if is_scalar value then keep_pair name (to_text c value) rest else rest

unfoldable pub extract_id_shaped_values : Codecs → Urls → JsonReader → HarEntry → List Key
unfolding query_pairs body_pairs is_scalar
extract_id_shaped_values c u r e =
    let body : List Key = elim (json_body r e) [ none ↦ [] | some fs ↦ body_pairs c fs ] in
    query_pairs (u.parse_qs (u.urlsplit e.request.url).query) ++ body

pub record ReuseState : Type 0 where
  pub first_seen : Dict Key ℕ
  pub note_entry_by_key : Dict Key ℕ
  pub reuse_by_index : Dict ℕ IdValueReuseNote

abbrev pub no_reuse : ReuseState
no_reuse = record { first_seen = []; note_entry_by_key = []; reuse_by_index = [] }

-- one more occurrence on a note; a missing note is an exception
unfoldable pub add_occurrence_to : ℕ → Dict ℕ IdValueReuseNote → Option (Dict ℕ IdValueReuseNote)
add_occurrence_to note_index notes = do
  existing ← lookup note_index notes
  some (
      insert note_index (record existing { further_occurrences = existing.further_occurrences + 1 })
        notes)

-- one round of the inner loop: the pair `key` in the entry `index`
unfoldable pub see_pair : ℕ → Key → ReuseState → Option ReuseState
see_pair index key s = elim (lookup key s.first_seen) [
  | none ↦ some (record s { first_seen = insert key index s.first_seen })
  | some first ↦ elim (lookup key s.note_entry_by_key) [
    | none ↦ some (record s {
      note_entry_by_key = insert key index s.note_entry_by_key;
      reuse_by_index =
          insert index
            (record {
              name = key.0;
              value = key.1;
              first_seen_index = first;
              further_occurrences = 0;
            })
            s.reuse_by_index;
    })
    | some note_index ↦ do
      notes ← add_occurrence_to note_index s.reuse_by_index
      some (record s { reuse_by_index = notes })
  ]
]

unfoldable pub see_pairs : ℕ → List Key → ReuseState → Option ReuseState
see_pairs index [] s = some s
see_pairs index (k ∷ ks) s = do s' ← see_pair index k s; see_pairs index ks s'

-- `as_set` is the order in which Python walks the set of a list's elements
module _ (as_set : List Key → List Key) (extract : HarEntry → List Key) where
  unfoldable pub reuse_loop : List ClassifiedEntry → ReuseState → Option ReuseState
  reuse_loop [] s = some s
  reuse_loop (c ∷ cs) s = do s' ← see_pairs c.index (as_set (extract c.entry)) s; reuse_loop cs s'

  unfoldable pub compute_id_value_reuse : List ClassifiedEntry → Option (Dict ℕ IdValueReuseNote)
  compute_id_value_reuse classified = do
    s ← reuse_loop (candidates classified) no_reuse
    some s.reuse_by_index
