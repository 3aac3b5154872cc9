-- ===== src/Signals/Notes.antt =====
-- The notes of `compute_id_value_reuse`.
use second_eye.Prelude.{
  ℕ, ◌+◌, ◌≡◌, ◌≢◌, refl, true, false, none, some, List, [], ◌∷◌, arith, list_eq, nat_eq, pair_eq,
  ◌==◌, Eq, Option-cases, inl, inr,
}
use mathlib.Core.Option.{none-ne-some}
use second_eye.Prelude.Dict.{Dict, insert, lookup, lookup-insert}
use second_eye.Har.{HarEntry, ◌>>=◌}
use second_eye.Classify.{ClassifiedEntry}
use second_eye.Signals.{candidates}
use second_eye.Signals.Reuse.{
  IdValueReuseNote, Key, ReuseState, no_reuse, add_occurrence_to, see_pair, see_pairs, reuse_loop,
  compute_id_value_reuse,
}

-- every entry that a pair is noted on has a note
pub record HasNotes (s : ReuseState) : Type 0 where
  pub noted :
      (k : Key) (i : ℕ) → lookup k s.note_entry_by_key ≡ some i → lookup i s.reuse_by_index ≢ none

see_pair-HasNotes :
    (i : ℕ) (k : Key) (s : ReuseState)
    → HasNotes s
    → (s' : ReuseState) × (see_pair i k s ≡ some s') × HasNotes s'
unfolding see_pair add_occurrence_to
see_pair-HasNotes i k s h = elim (Option-cases (lookup k s.first_seen)) [
  | inl new ↦
      rw (new, see_pair)
        (record s { first_seen = insert k i s.first_seen }, refl, record { noted = h.noted })
  | inr (f, seen) ↦ elim (Option-cases (lookup k s.note_entry_by_key)) [
    | inl unnoted ↦
        rw (seen, unnoted, see_pair)
          (
            _,
            refl,
            record {
              noted = λ j n p e. ground (
                arith,
                h.noted j n,
                lookup-insert j k i s.note_entry_by_key,
                lookup-insert n i
                    (record {
                      name = k.0;
                      value = k.1;
                      first_seen_index = f;
                      further_occurrences = 0;
                    })
                    s.reuse_by_index,
              );
            },
          )
    | inr (n, noted) ↦ elim (Option-cases (lookup n s.reuse_by_index)) [
      | inl missing ↦ absurd (h.noted k n noted missing)
      | inr (note, found) ↦
          rw (seen, noted, found, see_pair, add_occurrence_to)
            (
              _,
              refl,
              record {
                noted = λ j m p e. ground (
                  arith,
                  h.noted j m,
                  lookup-insert m n
                      (record note { further_occurrences = note.further_occurrences + 1 })
                      s.reuse_by_index,
                );
              },
            )
    ]
  ]
]

see_pairs-HasNotes :
    (i : ℕ) (ks : List Key) (s : ReuseState)
    → HasNotes s
    → (s' : ReuseState) × (see_pairs i ks s ≡ some s') × HasNotes s'
unfolding see_pairs
see_pairs-HasNotes i [] s h = (s, refl, h)
see_pairs-HasNotes i (k ∷ ks) s h =
    let (s', e, h') = see_pair-HasNotes i k s h in rw e (see_pairs-HasNotes i ks s' h')

module _ (as_set : List Key → List Key) (extract : HarEntry → List Key) where
  reuse_loop-HasNotes :
      (cs : List ClassifiedEntry) (s : ReuseState)
      → HasNotes s
      → (s' : ReuseState) × (reuse_loop as_set extract cs s ≡ some s') × HasNotes s'
  unfolding reuse_loop
  reuse_loop-HasNotes [] s h = (s, refl, h)
  reuse_loop-HasNotes (c ∷ cs) s h =
      let (s', e, h') = see_pairs-HasNotes c.index (as_set (extract c.entry)) s h in
      rw e (reuse_loop-HasNotes cs s' h')

  no_reuse-HasNotes : HasNotes no_reuse
  unfolding lookup
  no_reuse-HasNotes = record { noted = λ k i p e. none-ne-some i p }

  -- The reuse notes are computed for all entries: no lookup of a note that is missing, whatever the
  -- entries, the pairs in them and the order in which a set is walked.
  pub compute_id_value_reuse_total :
      (classified : List ClassifiedEntry)
      → (d : Dict ℕ IdValueReuseNote) × (compute_id_value_reuse as_set extract classified ≡ some d)
  unfolding compute_id_value_reuse
  compute_id_value_reuse_total classified =
      let (s, e, _) = reuse_loop-HasNotes (candidates classified) no_reuse no_reuse-HasNotes in
      rw e (s.reuse_by_index, refl)

module _ {ℓ} {A : Type ℓ} ⦃e : Eq A⦄ where
  same_value : (a : A) → (a == a) ≡ true
  same_value a = ground arith

  other_value : (a b : A) → a ≢ b → (a == b) ≡ false
  other_value a b h = ground arith

-- Pairs `k` and `l` seen in the entries `i` and `j`, and `k` again in `m`: the last note is for `l`,
-- and counts `k`.
see_pairs-overwritten :
    (i j m : ℕ) (k l : Key)
    → k ≢ l
    → (s : ReuseState) × ((do
      s1 ← see_pairs i (k ∷ l ∷ []) no_reuse
      s2 ← see_pairs j (k ∷ l ∷ []) s1
      s3 ← see_pairs m (k ∷ []) s2
      some s3)
        ≡ some s)
      × (s.reuse_by_index
          ≡ (j, record { name = l.0; value = l.1; first_seen_index = i; further_occurrences = 1 })
            ∷ [])
unfolding see_pairs see_pair add_occurrence_to lookup insert
see_pairs-overwritten i j m k l differ =
    let s : ReuseState = record {
      first_seen = (k, i) ∷ (l, i) ∷ [];
      note_entry_by_key = (k, j) ∷ (l, j) ∷ [];
      reuse_by_index =
          (j, record { name = l.0; value = l.1; first_seen_index = i; further_occurrences = 1 })
          ∷ [];
    } in
    (s, ground arith, refl)

-- Where three entries, none a static asset, hold two different pairs, the same two pairs, and the first
-- of the two, the result is a single note, on the second entry: it is for the second pair, counts the
-- further occurrence of the first pair as its own, and no note is left for the first pair.
pub compute_id_value_reuse-overwritten :
    (as_set : List Key → List Key) (extract : HarEntry → List Key) (a b c : ClassifiedEntry)
    (k l : Key)
    → k ≢ l
    → candidates (a ∷ b ∷ c ∷ []) ≡ a ∷ b ∷ c ∷ []
    → as_set (extract a.entry) ≡ k ∷ l ∷ []
    → as_set (extract b.entry) ≡ k ∷ l ∷ []
    → as_set (extract c.entry) ≡ k ∷ []
    → compute_id_value_reuse as_set extract (a ∷ b ∷ c ∷ [])
      ≡ some (
          (
            b.index,
            record { name = l.0; value = l.1; first_seen_index = a.index; further_occurrences = 1 },
          )
          ∷ [])
unfolding compute_id_value_reuse reuse_loop
compute_id_value_reuse-overwritten as_set extract a b c k l differ kept in_a in_b in_c =
    let (s, run, notes) = see_pairs-overwritten a.index b.index c.index k l differ in
    rw (kept, in_a, in_b, in_c, run, notes) refl
