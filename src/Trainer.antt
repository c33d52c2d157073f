-- ===== src/Trainer.antt =====
-- internal/trainer/service.go: one claimed training run. The answers of the stores, of the history
-- repair and of the native fits are arguments; the calls that change something are logged, oldest
-- first. A sampling interval that is not positive is not covered: the parser lets none through.
pub mod Holdout
pub mod Closed
mod Tests
use keda_replica_sense.Prelude.{
  ℕ, ◌+◌, ◌-◌, ℤ, pos, pos_part, ltb_ℤ, leb_ℤ, eqb_ℤ, ◌+ℤ◌, ◌-ℤ◌, negsuc, quot, rem, wrap64, neg,
  ltb, Time, Duration, add_time, truncate, String, str_eq, List, [], ◌∷◌, ◌++◌, length, take, Bool,
  true, false, not, ◌&&◌, ◌||◌, if◌then◌else◌, Option, none, some, Result, ok, err, ◌>>=◌, ◌>>◌,
  guard, Float64,
}
use keda_replica_sense.Domain.{SamplingWorkload, decision_horizon}
use keda_replica_sense.Dataset.{Sample, last_of}
use keda_replica_sense.Dataset.Quality.{QualityPolicy, QualityError, validate}
use keda_replica_sense.Dataset.Training.{SegmentError, training_segment}
use keda_replica_sense.Forecaster.Service.{Request}
use keda_replica_sense.Forecast.Seasonal.{
  Engine, seasonal_baseline, rolling_quantile, holt_winters, resolve_model,
}
use keda_replica_sense.History.Repair.{Report}
use keda_replica_sense.Training.{EvaluationContract, PromotionDecision}
use keda_replica_sense.Training.Evaluate.{contract_for}

pub record Service : Type 0 where
  pub configured : Bool
  pub expected_policy_revision : String
  pub seasonal_period : Duration
  pub max_gap_intervals : ℤ
  pub holdout : Duration
  pub has_history : Bool

-- A fitted model with its artifact.
pub record Trained : Type 0 where
  pub engine : String
  pub artifact : String

-- The validation metrics that are stored with a candidate.
pub record TrainingMetrics (W : Type 0) : Type 0 where
  pub sample_count : ℕ
  pub holdout_sample_count : ℕ
  pub history_repair : Option Report
  pub operational_quantile : W
  pub promotion : PromotionDecision

pub record ModelCandidate (W : Type 0) : Type 0 where
  pub cluster_id : String
  pub workload_id : String
  pub source_fingerprint : String
  pub engine : String
  pub feature_schema : String
  pub training_window_start : Time
  pub training_window_end : Time
  pub dataset_fingerprint : String
  pub hyperparameters : EvaluationContract W
  pub validation_metrics : TrainingMetrics W
  pub artifact : String
  pub artifact_sha256 : String

-- The answers from outside; `none` and `false` are errors. The digests are hashes.
pub record World (W : Type 0) : Type 0 where
  pub mark_running : Bool
  pub workloads : Option (List (SamplingWorkload W))
  pub repair : SamplingWorkload W → Time → Time → Option Report
  pub samples : SamplingWorkload W → Time → Time → Option (List (Sample W))
  pub has_location : String → Bool
  pub train_xgboost : List (Sample W) → Request W → Option Trained
  pub train_gru : List (Sample W) → Request W → Option Trained
  pub dataset_digest : List (Sample W) → String
  pub artifact_digest : String → String
  pub create_candidate : ModelCandidate W → Option String
  pub mark_succeeded : String → ℕ → Bool

pub data TrainError : Type 0 where
  not_configured not_running list_failed not_found stale_revision : TrainError
  history_failed samples_failed bad_season unknown_zone short_history : TrainError
  bad_segment : SegmentError → TrainError
  bad_quality : QualityError → TrainError
  fit_failed store_failed not_marked : TrainError

pub data Event (W : Type 0) : Type 0 where
  running : Event W
  repaired : Time → Time → Event W
  fitted : String → List (Sample W) → Event W
  created : ModelCandidate W → Event W
  succeeded : String → ℕ → Event W
  failed : TrainError → Event W

-- A step with the calls that it has made.
abbrev pub Logged : Type 0 → Type 0 → Type 0
Logged W A = List (Event W) × Result TrainError A

abbrev pub and_then : {W A B : Type 0} → Logged W A → (A → Logged W B) → Logged W B
and_then (log, err e) k = (log, err e)
and_then (log, ok a) k = (log ++ (k a).0, (k a).1)

abbrev pub or_fail : {A : Type 0} → TrainError → Option A → Result TrainError A
or_fail e none = err e
or_fail e (some a) = ok a

abbrev pub or_report : Option Report → Result TrainError (Option Report)
or_report none = err history_failed
or_report (some report) = ok (some report)

abbrev pub relabel : {E A : Type 0} → (E → TrainError) → Result E A → Result TrainError A
relabel g (err e) = err (g e)
relabel g (ok a) = ok a

abbrev pub engine_name : Engine → String
engine_name seasonal_baseline = "seasonal-baseline"
engine_name rolling_quantile = "rolling-quantile"
engine_name holt_winters = "holt-winters"

-- The JSON of the metadata that stands for a model without fitted parameters.
abbrev pub metadata_of : Engine → String
metadata_of seasonal_baseline =
    "{\"engine\":\"seasonal-baseline\",\"format\":\"replicasense-model-v1\",\"seasonalPeriod\":\"24h\"}"
metadata_of rolling_quantile =
    "{\"engine\":\"rolling-quantile\",\"format\":\"replicasense-model-v1\"}"
metadata_of holt_winters = "{\"engine\":\"holt-winters\",\"format\":\"replicasense-model-v1\"}"

abbrev pub describe : Option Engine → Option Trained
describe none = none
describe (some e) = some (record { engine = engine_name e; artifact = metadata_of e })

-- Only the native engines are given the points.
abbrev pub note_fit : {W : Type 0} → String → List (Sample W) → List (Event W)
note_fit engine points =
    if str_eq engine "xgboost" || str_eq engine "gru" then fitted engine points ∷ [] else []

unfoldable pub feature_schema_for : String → String
feature_schema_for engine =
    if str_eq engine "xgboost"
    then "demand-calendar-lag-v3"
    else if str_eq engine "gru"
    then "demand-calendar-sequence-v1"
    else "v1"

-- `min(int(holdout/interval), len(samples)/5)`.
unfoldable pub reserved_points : Duration → Duration → ℕ → ℤ
reserved_points holdout interval count =
    let by_time = quot holdout (pos_part interval) in
    let by_count = quot (pos count) 5 in if ltb_ℤ by_time by_count then by_time else by_count

module _ {W : Type 0} where
  unfoldable pub find_workload : String → List (SamplingWorkload W) → Option (SamplingWorkload W)
  find_workload id [] = none
  find_workload id (w ∷ ws) =
      let rest = find_workload id ws in if str_eq w.id id then some w else rest

  -- `fitSamples`, and how many points are held out.
  unfoldable pub split_holdout :
      Duration → Duration → ℤ → List (Sample W) → Result TrainError (List (Sample W) × ℕ)
  unfolding reserved_points
  split_holdout holdout interval minimum samples =
      let reserved = reserved_points holdout interval (length samples) in
      if ltb_ℤ reserved (pos 1) || ltb_ℤ (pos (length samples) -ℤ reserved) minimum
      then err short_history
      else ok (take (length samples - pos_part reserved) samples, pos_part reserved)

module _ {W : Type 0} ⦃f : Float64 W⦄ where
  unfoldable pub forecast_operational_quantile : Request W → W
  forecast_operational_quantile r =
      if f.lt (f.of_int (pos 0)) r.quantile && f.lt r.quantile (f.of_int (pos 1))
      then r.quantile
      else f.ratio 95 100

module _ {W : Type 0} ⦃f : Float64 W⦄ (s : Service) (world : World W) where
  abbrev pub period : Duration
  period = if leb_ℤ s.seasonal_period (pos 0) then pos 86400000000000 else s.seasonal_period

  abbrev pub held_out : Duration
  held_out = if leb_ℤ s.holdout (pos 0) then pos 172800000000000 else s.holdout

  abbrev pub gap_intervals : ℤ
  gap_intervals = if leb_ℤ s.max_gap_intervals (pos 0) then pos 2 else s.max_gap_intervals

  -- The workload of the run, as its Job was made for it.
  unfoldable pub claimed_workload : String → Result TrainError (SamplingWorkload W)
  unfolding find_workload
  claimed_workload id = do
    workloads ← or_fail list_failed world.workloads
    w ← or_fail not_found (find_workload id workloads)
    guard
        (not (
          not (str_eq s.expected_policy_revision "")
          && not (str_eq w.spec.policy_revision s.expected_policy_revision)))
        stale_revision
    ok w

  abbrev pub repair_history : SamplingWorkload W → Time → Time → Logged W (Option Report)
  repair_history w start stop =
      if s.has_history
      then (repaired start stop ∷ [], or_report (world.repair w start stop))
      else ([], ok none)

  abbrev pub minimum_points : SamplingWorkload W → ℤ
  minimum_points w = quot period (pos_part w.spec.forecast.sampling_interval)

  -- The points that the fit is given, and how many it is not.
  unfoldable pub training_points :
      SamplingWorkload W → Time → Time → Result TrainError (List (Sample W) × ℕ)
  unfolding split_holdout
  training_points w start stop = do
    let interval = w.spec.forecast.sampling_interval
    let minimum = minimum_points w
    observed ← or_fail samples_failed (world.samples w start (add_time stop (negsuc 0)))
    guard (eqb_ℤ (rem period (pos_part interval)) (pos 0)) bad_season
    segment ←
        relabel bad_segment
          (training_segment observed interval (wrap64 (minimum +ℤ quot minimum 4)))
    relabel bad_quality (
        validate segment (record {
          min_samples = minimum;
          sampling_interval = interval;
          max_gap_intervals = gap_intervals;
        }))
    guard (world.has_location w.spec.forecast.business_timezone) unknown_zone
    split_holdout held_out interval minimum segment

  unfoldable pub request_for : SamplingWorkload W → Request W
  request_for w = record {
    horizon = decision_horizon w.spec.forecast;
    sampling_interval = w.spec.forecast.sampling_interval;
    seasonal_period = period;
    quantile = w.spec.forecast.quantile;
    business_location = w.spec.forecast.business_timezone;
  }

  unfoldable pub fit : String → List (Sample W) → Request W → Result TrainError Trained
  fit engine points request = or_fail fit_failed (
      if str_eq engine "xgboost"
      then world.train_xgboost points request
      else if str_eq engine "gru"
      then world.train_gru points request
      else describe (resolve_model engine))

  abbrev pub metrics_of : List (Sample W) → ℕ → Option Report → Request W → TrainingMetrics W
  metrics_of points reserved report request = record {
    sample_count = length points;
    holdout_sample_count = reserved;
    history_repair = report;
    operational_quantile = forecast_operational_quantile request;
    promotion = record {
      promote = false;
      reason = "awaiting_shared_artifact_evaluation";
      reference = "";
    };
  }

  -- The candidate for the points `p ∷ ps`.
  unfoldable pub candidate_of :
      String
      → SamplingWorkload W
      → Sample W
      → List (Sample W)
      → ℕ
      → Option Report
      → Trained
      → ModelCandidate W
  candidate_of cluster w p ps reserved report trained = record {
    cluster_id = cluster;
    workload_id = w.id;
    source_fingerprint = w.spec.source_fingerprint;
    engine = trained.engine;
    feature_schema = feature_schema_for trained.engine;
    training_window_start = p.observed_at;
    training_window_end = (last_of p ps).observed_at;
    dataset_fingerprint = world.dataset_digest (p ∷ ps);
    hyperparameters = contract_for w period;
    validation_metrics = metrics_of (p ∷ ps) reserved report (request_for w);
    artifact = trained.artifact;
    artifact_sha256 = world.artifact_digest trained.artifact;
  }

  abbrev pub mark_success : String → ℕ → Logged W (Unit {0})
  mark_success id count =
      (succeeded id count ∷ [], if world.mark_succeeded id count then ok tt else err not_marked)

  abbrev pub store_candidate : ModelCandidate W → ℕ → Logged W (Unit {0})
  store_candidate candidate count =
      and_then (created candidate ∷ [], or_fail store_failed (world.create_candidate candidate))
        (λ id. mark_success id count)

  -- Publication of the fit; the split leaves a point at least.
  abbrev pub publish :
      String
      → SamplingWorkload W
      → List (Sample W)
      → ℕ
      → Option Report
      → Trained
      → Logged W (Unit {0})
  publish cluster w [] reserved report trained = ([], err short_history)
  publish cluster w (p ∷ ps) reserved report trained =
      store_candidate (candidate_of cluster w p ps reserved report trained) (length (p ∷ ps))

  abbrev pub or_engine : String → SamplingWorkload W → String
  or_engine engine w = if str_eq engine "" then w.spec.forecast.model_engine else engine

  -- Fitting and publishing the points of a workload.
  unfoldable pub fit_and_publish :
      String
      → String
      → SamplingWorkload W
      → Option Report
      → List (Sample W) × ℕ
      → Logged W (Unit {0})
  unfolding fit candidate_of
  fit_and_publish cluster engine w report (points, reserved) =
      and_then
        (note_fit (or_engine engine w) points, fit (or_engine engine w) points (request_for w))
        (publish cluster w points reserved report)

  -- The run after it is marked as running.
  unfoldable pub train : String → String → String → Time → Logged W (Unit {0})
  unfolding claimed_workload training_points fit_and_publish
  train cluster id engine now =
      and_then ([], claimed_workload id)
        (λ w.
          let stop = truncate now w.spec.forecast.sampling_interval in
          let start = add_time stop (neg w.spec.forecast.training_window) in
          and_then (repair_history w start stop) (λ report.
            and_then ([], training_points w start stop) (fit_and_publish cluster engine w report)))

  abbrev pub close_run : Logged W (Unit {0}) → Logged W (Unit {0})
  close_run (log, ok u) = (running ∷ log, ok u)
  close_run (log, err e) = (running ∷ log ++ failed e ∷ [], err e)

  unfoldable pub run : String → String → String → Time → Logged W (Unit {0})
  unfolding train
  run cluster id engine now =
      if not s.configured
      then ([], err not_configured)
      else if not world.mark_running
      then (running ∷ [], err not_running)
      else close_run (train cluster id engine now)
