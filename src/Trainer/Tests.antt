-- ===== src/Trainer/Tests.antt =====
-- A run of the trainer: ten points a minute apart, seasons of five minutes, one point held out.
use keda_replica_sense.Prelude.{
  ℕ, ◌*◌, pos, [], ◌∷◌, map, true, false, none, some, ok, ◌≡◌, refl, Time, Every, truncate,
  mod_floor, quot, rem, ◌-ℤ◌, trim_space, wrap64, sub_time, mul_dur,
}
use keda_replica_sense.Prelude.Billionths.{Billionths, billionths, milli}
use keda_replica_sense.Dataset.{Sample, same_slot, keep_latest}
use keda_replica_sense.Dataset.Training.{
  training_segment, dedupe_from, longest_from, next_slot, newest_run,
}
use keda_replica_sense.Dataset.Quality.{validate, validate_loop, validate_from, maximum_gap}
use keda_replica_sense.Forecast.Seasonal.{resolve_model}
use keda_replica_sense.Training.Fixtures.{workload}
use keda_replica_sense.Trainer.{
  Service, World, run, train, claimed_workload, find_workload, training_points, split_holdout,
  reserved_points, fit, fit_and_publish, candidate_of, forecast_operational_quantile,
}
use keda_replica_sense.Trainer.Holdout.{IsHonest, run-IsHonest}
use keda_replica_sense.Trainer.Closed.{IsClosed, run-IsClosed}

abbrev service : Service
service = record {
  configured = true;
  expected_policy_revision = "rev-1";
  seasonal_period = pos 300000000000;
  max_gap_intervals = pos 0;
  holdout = pos 60000000000;
  has_history = false;
}

abbrev point : ℕ → Sample Billionths
point n = record {
  cluster_id = "east";
  workload_id = "w1";
  source_fingerprint = "fp";
  observed_at = pos (n * 60000000000);
  observed_value = milli n;
}

abbrev world : World Billionths
world = record {
  mark_running = true;
  workloads = some (workload ∷ []);
  repair = λ w start stop. none;
  samples = λ w start stop. some (map point (1 ∷ 2 ∷ 3 ∷ 4 ∷ 5 ∷ 6 ∷ 7 ∷ 8 ∷ 9 ∷ 10 ∷ []));
  has_location = λ zone. true;
  train_xgboost = λ points request. none;
  train_gru = λ points request. none;
  dataset_digest = λ points. "points";
  artifact_digest = λ artifact. "digest";
  create_candidate = λ c. some "m1";
  mark_succeeded = λ id count. true;
}

abbrev now : Time
now = pos 660000000000

run-IsHonest_example :
    Every (IsHonest service world) (run service world "east" "w1" "holt-winters" now).0
run-IsHonest_example = run-IsHonest service world "east" "w1" "holt-winters" now

run-IsClosed_example : IsClosed service world (run service world "east" "w1" "holt-winters" now)
run-IsClosed_example = run-IsClosed service world "east" "w1" "holt-winters" now

run_succeeds : (run service world "east" "w1" "holt-winters" now).1 ≡ ok tt
unfolding run train claimed_workload find_workload training_points training_segment dedupe_from
    same_slot truncate mod_floor longest_from next_slot newest_run keep_latest validate billionths
    split_holdout reserved_points quot rem ◌-ℤ◌ fit resolve_model trim_space fit_and_publish
    candidate_of forecast_operational_quantile wrap64 sub_time validate_loop validate_from
    maximum_gap mul_dur
run_succeeds = refl
