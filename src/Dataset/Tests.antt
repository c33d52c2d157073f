-- ===== src/Dataset/Tests.antt =====
-- Runs and instances of the dataset rules, on one observation per minute.
use mathlib.Core.List.{reverse, map}
use keda_replica_sense.Prelude.{
  ◌-ℤ◌, quot, mod_floor, truncate, sub_time, add_dur, wrap64, ℕ, ◌+◌, ◌*◌, pos, minute, List, [],
  ◌∷◌, ◌++◌, ◌≡◌, ◌≢◌, ◌↔◌, refl, arith, Result, ok, err,
}
use keda_replica_sense.Prelude.Billionths.{Billionths, billionths, milli}
use keda_replica_sense.Dataset.{Sample, last_of, same_slot}
use keda_replica_sense.Dataset.Quality.{
  QualityPolicy, validate, most_recent_contiguous, gap_too_large, maximum_gap,
}
use keda_replica_sense.Dataset.Quality.Valid.{
  IsValid, validate-IsValid, validate-most_recent_contiguous,
}
use keda_replica_sense.Dataset.Quality.Contiguous.{
  IsContiguous, StartsRun, most_recent_contiguous_run,
}
use keda_replica_sense.Dataset.Inference.{
  InferenceHistory, InterpolationPolicy, empty_history, prepare_inference_history,
  real_contiguous_suffix, select_from, bridge_all, bridge_from, bridge_gap, check_estimates, trim,
  gap_threshold,
}
use keda_replica_sense.Dataset.Inference.Origins.{IsPrepared, prepare_inference_history-IsPrepared}
use keda_replica_sense.Dataset.Inference.Suffix.{
  IsSlotted, IsJoined, IsCut, latest, real_contiguous_suffix-Kept,
}
use keda_replica_sense.Dataset.Training.{training_segment, dedupe_from, longest_from, next_slot}
use keda_replica_sense.Dataset.Training.Segment.{IsRun, training_segment-IsRun}

abbrev at_minute : ℕ → Sample Billionths
at_minute n = record {
  cluster_id = "east";
  workload_id = "w1";
  source_fingerprint = "fp";
  observed_at = pos (n * 60000000000);
  observed_value = milli (100000 + n * 1000);
}

-- The third minute is missing.
abbrev observed : List (Sample Billionths)
observed =
    map at_minute
      (1 ∷ 2 ∷ 4 ∷ 5 ∷ 6 ∷ 7 ∷ 8 ∷ 9 ∷ 10 ∷ 11 ∷ 12 ∷ 13 ∷ 14 ∷ 15 ∷ 16 ∷ 17 ∷ 18 ∷ 19 ∷ 20 ∷ [])

abbrev policy : InterpolationPolicy
policy = record { sampling_interval = minute; max_gap = pos 0; lookback = pos 0 }

abbrev history_of :
    {E : Type 0} → Result E (InferenceHistory Billionths) → InferenceHistory Billionths
history_of (ok h) = h
history_of (err e) = empty_history

-- Twenty inputs, one of them estimated.
abbrev prepared : InferenceHistory Billionths
prepared = history_of (prepare_inference_history observed policy)

one_estimate : prepared.estimated_count ≡ 1
unfolding prepare_inference_history select_from bridge_all same_slot truncate ◌-ℤ◌ mod_floor
    billionths bridge_from sub_time check_estimates trim gap_threshold add_dur wrap64 bridge_gap
    quot
one_estimate = refl

prepared_ok : prepare_inference_history observed policy ≡ ok prepared
unfolding prepare_inference_history select_from bridge_all same_slot truncate ◌-ℤ◌ mod_floor
    billionths bridge_from sub_time check_estimates trim gap_threshold add_dur wrap64 bridge_gap
    quot
prepared_ok = refl

prepare_inference_history-IsPrepared_example : IsPrepared observed policy prepared
prepare_inference_history-IsPrepared_example =
    prepare_inference_history-IsPrepared observed policy prepared prepared_ok

abbrev two_gaps : QualityPolicy
two_gaps = record { min_samples = pos 3; sampling_interval = minute; max_gap_intervals = pos 2 }

-- An outage of ten minutes, then three observations.
abbrev after_outage : List (Sample Billionths)
after_outage = map at_minute (1 ∷ 2 ∷ 12 ∷ 13 ∷ 14 ∷ [])

most_recent_contiguous_run_example :
    (older : List (Sample Billionths)) × (older ++ most_recent_contiguous after_outage two_gaps
      ≡ after_outage)
    × IsContiguous (maximum_gap two_gaps) (most_recent_contiguous after_outage two_gaps)
    × StartsRun (maximum_gap two_gaps) older (most_recent_contiguous after_outage two_gaps)
most_recent_contiguous_run_example = most_recent_contiguous_run after_outage two_gaps (ground arith)

validate-IsValid_example : (validate observed two_gaps ≡ ok tt) ↔ IsValid two_gaps observed
validate-IsValid_example = validate-IsValid two_gaps observed

validate-most_recent_contiguous_example :
    validate (most_recent_contiguous after_outage two_gaps) two_gaps ≢ err (gap_too_large 2)
validate-most_recent_contiguous_example =
    validate-most_recent_contiguous two_gaps after_outage 2 (ground arith)

real_contiguous_suffix-Kept_example :
    (rest recent older : List (Sample Billionths)) × (real_contiguous_suffix after_outage minute
      ≡ reverse rest ++ at_minute 14 ∷ [])
    × IsSlotted minute (at_minute 14 ∷ rest)
    × (reverse after_outage ≡ recent ++ older)
    × IsJoined minute recent
    × IsCut minute recent older
    × (at_minute 14 ∷ rest ≡ latest minute recent)
unfolding last_of
real_contiguous_suffix-Kept_example =
    real_contiguous_suffix-Kept after_outage (at_minute 1) (map at_minute (2 ∷ 12 ∷ 13 ∷ 14 ∷ []))
      minute refl (ground arith)

abbrev segment : List (Sample Billionths)
segment = map at_minute (12 ∷ 13 ∷ 14 ∷ [])

segment_ok : training_segment after_outage minute (pos 3) ≡ ok segment
unfolding training_segment billionths dedupe_from same_slot truncate mod_floor longest_from
    next_slot sub_time
segment_ok = refl

training_segment-IsRun_example :
    (run : List (Sample Billionths)) × (segment ≡ reverse run)
    × IsRun minute (pos 3) after_outage run
training_segment-IsRun_example =
    training_segment-IsRun after_outage minute (pos 3) segment segment_ok
