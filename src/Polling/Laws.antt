-- ===== src/Polling/Laws.antt =====
-- What a polling group is a sign of.
use second_eye.Prelude.{
  ℕ, ◌≤◌, ◌≡◌, refl, true, false, List, [], ◌∷◌, ◌++◌, arith, ltb, length, map, All, All-append,
  list_eq, nat_eq, pair_eq, option_eq, Bool-cases, inl, inr,
}
use second_eye.Classify.{ClassifiedEntry}
use second_eye.Cluster.{started_at}
use second_eye.Polling.{
  FloatOps, JsonReader, PollingGroup, bodies_match, median, gaps, is_regular, finalize_run, differs,
  run_loop,
}

module _ (f : FloatOps) (r : JsonReader) where
  -- the response body of each of `cs` matches that of the first of them
  abbrev pub SameBodies : List ClassifiedEntry → Type 0
  SameBodies [] = Unit
  SameBodies (d ∷ ds) =
      All (λ c. bodies_match r d.entry.response.body c.entry.response.body ≡ true) ds

  -- a run of three or more entries with `Q`, with matching bodies, at regular intervals
  pub record IsPolling (Q : ClassifiedEntry → Type 0) (g : PollingGroup) : Type 0 where
    pub run : List ClassifiedEntry
    pub indices : g.occurrence_indices ≡ map (λ c. c.index) run
    pub first : (rest : List ℕ) × (g.occurrence_indices ≡ g.first_index ∷ rest)
    pub enough : 3 ≤ length run
    pub all : All Q run
    pub bodies : SameBodies run
    pub interval : g.interval_seconds ≡ median f (gaps f (map started_at run))
    pub positive : f.fle g.interval_seconds (f.of_int 0) ≡ false
    pub regular : is_regular f g.interval_seconds (gaps f (map started_at run)) ≡ true

  module _ (Q : ClassifiedEntry → Type 0) where
    finalize_run-IsPolling :
        (cs : List ClassifiedEntry)
        → All Q cs
        → SameBodies cs
        → All (IsPolling Q) (finalize_run f cs)
    unfolding finalize_run
    finalize_run-IsPolling [] q b = tt
    finalize_run-IsPolling (c ∷ cs) q b =
        let gs = gaps f (map started_at (c ∷ cs)) in
        let m = median f gs in
        elim (Bool-cases (ltb (length (c ∷ cs)) 3)) [
          | inl short ↦ rw short tt
          | inr long ↦ elim (Bool-cases (f.fle m (f.of_int 0))) [
            | inl zero_ ↦ rw (long, zero_) tt
            | inr pos ↦ elim (Bool-cases (is_regular f m gs)) [
              | inr irregular ↦ rw (long, pos, irregular) tt
              | inl reg ↦
                  rw (long, pos, reg)
                    (
                      record {
                        run = c ∷ cs;
                        indices = refl;
                        first = (map (λ d. d.index) cs, refl);
                        enough = ground arith;
                        all = q;
                        bodies = b;
                        interval = refl;
                        positive = pos;
                        regular = reg;
                      },
                      tt,
                    )
            ]
          ]
        ]

    SameBodies-grow :
        (cs : List ClassifiedEntry) (c : ClassifiedEntry)
        → SameBodies cs
        → differs f r cs c ≡ false
        → SameBodies (cs ++ c ∷ [])
    unfolding differs
    SameBodies-grow [] c b h = tt
    SameBodies-grow (d ∷ ds) c b h =
        All-append (λ x. bodies_match r d.entry.response.body x.entry.response.body ≡ true) ds
          (c ∷ []) b (ground arith, tt)

    pub run_loop-IsPolling :
        (run cs : List ClassifiedEntry)
        → All Q run
        → SameBodies run
        → All Q cs
        → All (IsPolling Q) (run_loop f r run cs)
    unfolding run_loop
    run_loop-IsPolling run [] q b qs = finalize_run-IsPolling run q b
    run_loop-IsPolling run (c ∷ cs) q b qs = elim (Bool-cases (differs f r run c)) [
      | inl ended ↦ rw ended (
          All-append (IsPolling Q) (finalize_run f run) (run_loop f r (c ∷ []) cs)
            (finalize_run-IsPolling run q b) (run_loop-IsPolling (c ∷ []) cs (qs.0, tt) tt qs.1))
      | inr grown ↦ rw grown (
          run_loop-IsPolling (run ++ c ∷ []) cs (All-append Q run (c ∷ []) q (qs.0, tt))
            (SameBodies-grow run c b grown) qs.1)
    ]
