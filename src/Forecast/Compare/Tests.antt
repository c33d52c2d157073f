-- ===== src/Forecast/Compare/Tests.antt =====
-- Runs and instances of the comparison: six points a minute apart, windows of one step.
use keda_replica_sense.Prelude.{
  ℕ, ◌*◌, pos, minute, String, List, [], ◌∷◌, map, true, Option, none, some, ok, ◌≡◌, refl, arith,
  Every, truncate, mod_floor, ◌-ℤ◌, rem, sub_time, mul_dur, wrap64,
}
use keda_replica_sense.Prelude.Billionths.{Billionths, billionths, milli}
use keda_replica_sense.Dataset.{Sample, same_slot}
use keda_replica_sense.Dataset.Training.{next_slot}
use keda_replica_sense.Forecaster.Service.{Model, Request}
use keda_replica_sense.Training.{Comparison}
use keda_replica_sense.Forecast.Compare.{
  ComparisonOptions, CompareError, windows, windows_from, gaps_of, gaps_from, selected_windows,
  valid_comparison, segment_starts,
}
use keda_replica_sense.Forecast.Compare.Score.{compare_artifacts, pinball, minutes_of}
use keda_replica_sense.Forecast.Compare.Complete.{IsComplete, AreApart, windows-AreComplete}
use keda_replica_sense.Forecast.Compare.Spread.{IsChoice, selected_windows-IsChoice}
use keda_replica_sense.Forecast.Compare.Evidence.{IsEvidence, compare_artifacts-IsEvidence}

abbrev point : ℕ → Sample Billionths
point n = record {
  cluster_id = "east";
  workload_id = "w1";
  source_fingerprint = "fp";
  observed_at = pos (n * 60000000000);
  observed_value = milli 1000;
}

-- The seventh minute is missing.
abbrev points : List (Sample Billionths)
points = map point (1 ∷ 2 ∷ 3 ∷ 4 ∷ 5 ∷ 6 ∷ 8 ∷ 9 ∷ [])

abbrev request : Request Billionths
request = record {
  horizon = minute;
  sampling_interval = minute;
  seasonal_period = minute;
  quantile = milli 950;
  business_location = "UTC";
}

abbrev options : ComparisonOptions Billionths
options = record {
  after = pos 0;
  min_duration = pos 60000000000;
  min_windows = pos 2;
  max_windows = pos 3;
  threshold = milli 1000;
  history_window = pos 0;
}

abbrev steady : Model Billionths
steady = record {
  engine = "gru";
  inference_lookback = some (pos 2);
  operational_quantile = none;
  predict_samples = λ samples r. some (record { p50 = milli 1000; p95 = milli 2000 });
}

abbrev models : List (String × Option (Model Billionths))
models = ("artifact", some steady) ∷ []

windows_skip_the_gap : windows minute (pos 0) 2 1 points ≡ 2 ∷ 3 ∷ 4 ∷ 5 ∷ []
unfolding windows windows_from gaps_of gaps_from next_slot sub_time ◌-ℤ◌ truncate mod_floor
windows_skip_the_gap = refl

windows-AreComplete_example :
    Every (IsComplete minute (pos 0) 2 1 points) (windows minute (pos 0) 2 1 points)
    × AreApart minute (pos 0) 2 1 points (pos 0) (windows minute (pos 0) 2 1 points)
windows-AreComplete_example =
    windows-AreComplete minute (pos 0) 2 1 points (ground arith) (ground arith)

selected_windows-IsChoice_example :
    (chosen : List ℕ) × (selected_windows (2 ∷ 3 ∷ 4 ∷ 5 ∷ []) 3 ≡ ok chosen)
    × IsChoice (2 ∷ 3 ∷ 4 ∷ 5 ∷ []) 3 chosen
selected_windows-IsChoice_example = selected_windows-IsChoice (2 ∷ 3 ∷ 4 ∷ 5 ∷ []) 3 (ground arith)

abbrev outcome : Comparison Billionths × Option CompareError
outcome = compare_artifacts (λ samples. "digest") models points request options (λ name cut. true)

outcome_whole :
    compare_artifacts (λ samples. "digest") models points request options (λ name cut. true)
    ≡ (outcome.0, none)
unfolding compare_artifacts valid_comparison rem billionths windows same_slot truncate mod_floor
    next_slot sub_time mul_dur wrap64 selected_windows segment_starts pinball minutes_of
outcome_whole = refl

compare_artifacts-IsEvidence_example :
    IsEvidence (λ samples. "digest") models points request options outcome.0
compare_artifacts-IsEvidence_example =
    compare_artifacts-IsEvidence (λ samples. "digest") models points request options
      (λ name cut. true) outcome.0 outcome_whole
