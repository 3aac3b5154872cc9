-- ===== src/Signals/Outliers.antt =====
-- `_compute_outliers`, `compute_timing_outliers` and `compute_size_outliers`.
use second_eye.Prelude.{ℕ, List, [], ◌∷◌, length, map, ltb, if◌then◌else◌, nat_eq}
use second_eye.Prelude.Dict.{Dict, insert}
use second_eye.Json.{Float64}
use second_eye.Classify.{ClassifiedEntry}
use second_eye.Polling.{FloatOps, median}
use second_eye.Signals.{candidates}

pub record OutlierInfo : Type 0 where
  pub value : Float64
  pub median : Float64
  pub multiple : Float64

abbrev pub min_sample_size : ℕ
min_sample_size = 5

-- `round1` is `round(x, 1)`
module _ (f : FloatOps) (round1 : Float64 → Float64) where
  unfoldable pub outlier_loop :
      Float64
      → Float64
      → (ClassifiedEntry → Float64)
      → Dict ℕ OutlierInfo
      → List ClassifiedEntry
      → Dict ℕ OutlierInfo
  outlier_loop m threshold value_fn d [] = d
  outlier_loop m threshold value_fn d (c ∷ cs) =
      let multiple = f.fdiv (value_fn c) m in
      let info : OutlierInfo = record {
        value = value_fn c;
        median = m;
        multiple = round1 multiple;
      } in
      outlier_loop m threshold value_fn
        (if f.fle threshold multiple then insert c.index info d else d) cs

  unfoldable pub compute_outliers :
      List ClassifiedEntry → (ClassifiedEntry → Float64) → Float64 → Dict ℕ OutlierInfo
  compute_outliers classified value_fn threshold =
      let m = median f (map value_fn classified) in
      if ltb (length classified) min_sample_size
      then []
      else if f.fle m (f.of_int 0)
      then []
      else outlier_loop m threshold value_fn [] classified

  unfoldable pub compute_timing_outliers : List ClassifiedEntry → Float64 → Dict ℕ OutlierInfo
  compute_timing_outliers classified threshold =
      compute_outliers (candidates classified) (λ c. c.entry.time_ms) threshold

  unfoldable pub compute_size_outliers : List ClassifiedEntry → Float64 → Dict ℕ OutlierInfo
  compute_size_outliers classified threshold =
      compute_outliers (candidates classified) (λ c. f.of_int (length c.entry.response.body))
        threshold
