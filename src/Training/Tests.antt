-- ===== src/Training/Tests.antt =====
-- Runs and instances of the promotion gates, of an evaluation and of a pass of the scheduler.
use keda_replica_sense.Prelude.{
  if◌then◌else◌, str_eq, ℕ, pos, wrap64, ◌*ℤ◌, ◌+ℤ◌, ◌-ℤ◌, Time, String, true, Option, none, some,
  [], ◌∷◌, ◌≡◌, ◌↔◌, refl, quot, sub_time, add_time, add_dur, mul_dur, mod_floor,
}
use keda_replica_sense.Prelude.Billionths.{Billionths, billionths, milli}
use keda_replica_sense.Domain.{decision_horizon}
use keda_replica_sense.Dataset.{Sample, last_of}
use keda_replica_sense.Training.{
  ValidationMetrics, EvaluationPolicy, EvaluationContract, EvaluationReport, Comparison,
  default_evaluation_policy, evaluate_artifact_promotion, refuse, valid_policy, safe_metrics,
  valid_metrics, regresses, same_contract, comparable_contract, fresh_evaluation_evidence,
}
use keda_replica_sense.Training.Fixtures.{workload}
use keda_replica_sense.Training.Gates.{IsEarned, evaluate_artifact_promotion-IsEarned}
use keda_replica_sense.Training.Evaluate.{
  EvaluationModel, EvaluationWorld, EvaluationService, acquired, contract_for, evaluate, conclude,
  judge_candidate, opening_report,
}
use keda_replica_sense.Training.Evaluate.Actions.{IsJustified, evaluate-IsJustified}
use keda_replica_sense.Training.Scheduler.{Scheduler, ClaimWorld, granted, run_once}
use keda_replica_sense.Training.Scheduler.Claimed.{Follows, run_once-Follows}

abbrev metrics_with : ℕ → ValidationMetrics Billionths
metrics_with loss = record {
  windows = pos 72;
  coverage = milli 950;
  underprediction_rate = milli 50;
  mean_absolute_error = milli 1000;
  pinball_loss_p95 = milli loss;
  mean_underprediction = milli 10;
  max_relative_underprediction = milli 100;
  peak_mean_underprediction = milli 20;
  excess_replica_minutes = milli 3000;
}

abbrev policy : EvaluationPolicy Billionths
policy = default_evaluation_policy

promoted :
    (evaluate_artifact_promotion policy
      (milli 950)
      (metrics_with 500)
      (some (metrics_with 1000))
      (metrics_with 2000)).promote
    ≡ true
unfolding evaluate_artifact_promotion default_evaluation_policy billionths valid_policy safe_metrics
    valid_metrics regresses
promoted = refl

evaluate_artifact_promotion-IsEarned_example :
    ((evaluate_artifact_promotion policy
        (milli 950)
        (metrics_with 500)
        (some (metrics_with 1000))
        (metrics_with 2000)).promote
      ≡ true)
    ↔ IsEarned policy (milli 950) (metrics_with 500) (some (metrics_with 1000)) (metrics_with 2000)
evaluate_artifact_promotion-IsEarned_example =
    evaluate_artifact_promotion-IsEarned policy (milli 950) (metrics_with 500)
      (some (metrics_with 1000)) (metrics_with 2000)

abbrev service : EvaluationService Billionths
service = record {
  configured = true;
  policy = policy;
  seasonal_period = pos 86400000000000;
  notifies = true;
}

-- Ten days after the zero time.
abbrev now : Time
now = pos 864000000000000

abbrev no_evidence : Comparison Billionths
no_evidence = record {
  start = pos 0;
  end = pos 0;
  fingerprint = "";
  eligible_windows = pos 0;
  metrics = λ name. none;
}

abbrev contract : EvaluationContract Billionths
contract = contract_for workload (pos 86400000000000)

abbrev empty_report : EvaluationReport Billionths
empty_report = record {
  version = "";
  at = pos 0;
  action = "";
  reason = "";
  detail = "";
  expected_active_id = "";
  previous_model_id = "";
  contract = contract;
  policy = policy;
  evidence = no_evidence;
  decision = refuse "" "";
}

-- A candidate trained four days ago.
abbrev candidate : EvaluationModel Billionths
candidate = record {
  id = "m2";
  engine = "gru";
  artifact = "bytes";
  activated_at = pos 0;
  status = "candidate";
  trained_until = pos 518400000000000;
  created_at = pos 691200000000000;
  contract = contract;
  report = empty_report;
  artifact_sha256 = "bytes";
}

abbrev evidence : Comparison Billionths
evidence = record {
  start = pos 691200000000000;
  end = pos 863940000000000;
  fingerprint = "sha";
  eligible_windows = pos 100;
  metrics = λ name. some (metrics_with 500);
}

abbrev newest : Sample Billionths
newest = record {
  cluster_id = "east";
  workload_id = "w1";
  source_fingerprint = "fp";
  observed_at = pos 863940000000000;
  observed_value = milli 5000;
}

abbrev metrics_of : String → Option (ValidationMetrics Billionths)
metrics_of name =
    if str_eq name "candidate"
    then some (metrics_with 500)
    else if str_eq name "baseline"
    then some (metrics_with 1000)
    else none

-- There is no champion, and the baseline's loss is twice the candidate's.
abbrev world : EvaluationWorld Billionths
world = record {
  lock = acquired;
  models = some (candidate ∷ []);
  digest = λ artifact. artifact;
  load = λ model. some none;
  samples = λ start end. some (newest ∷ []);
  has_location = λ zone. true;
  compare = λ models samples after. (record evidence { metrics = metrics_of }, none);
  complete = λ model report. true;
}

abbrev stored : Option (EvaluationModel Billionths × EvaluationReport Billionths)
stored = (evaluate service world workload now).stored

abbrev report_or_empty :
    Option (EvaluationModel Billionths × EvaluationReport Billionths) → EvaluationReport Billionths
report_or_empty none = empty_report
report_or_empty (some (target, report)) = report

promotes : (report_or_empty stored).action ≡ "promote"
unfolding evaluate valid_policy default_evaluation_policy billionths same_contract
    comparable_contract contract_for decision_horizon add_dur wrap64 sub_time mul_dur last_of
    fresh_evaluation_evidence add_time conclude evaluate_artifact_promotion regresses safe_metrics
    valid_metrics ◌*ℤ◌ ◌+ℤ◌ ◌-ℤ◌ quot mod_floor judge_candidate opening_report
promotes = refl

stored_candidate : stored ≡ some (candidate, report_or_empty stored)
unfolding evaluate valid_policy default_evaluation_policy billionths same_contract
    comparable_contract contract_for decision_horizon add_dur wrap64 sub_time mul_dur last_of
    fresh_evaluation_evidence add_time conclude
stored_candidate = refl

evaluate-IsJustified_example : IsJustified policy now (report_or_empty stored)
evaluate-IsJustified_example =
    evaluate-IsJustified service world workload now candidate (report_or_empty stored)
      stored_candidate

abbrev scheduler : Scheduler
scheduler = record {
  configured = true;
  cluster_id = "east";
  training_interval = pos 86400000000000;
}

abbrev claims : ClaimWorld Billionths
claims = record {
  workloads = some (workload ∷ []);
  claim = λ kind claim. granted "run-1";
  create = λ job. true;
  mark_failed = λ run. true;
  fnv = λ text. 12345;
  sha = λ text. 67890;
}

run_once-Follows_example : Follows scheduler claims now none (run_once scheduler claims now).0
run_once-Follows_example = run_once-Follows scheduler claims now
