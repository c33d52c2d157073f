-- ===== src/Training.antt =====
-- internal/training: how a trained artifact is judged, promoted, revalidated and rolled back, and
-- when training runs are started; with the metrics of internal/forecast/evaluation.go.
pub mod Gates
pub mod Evaluate
pub mod Scheduler
pub mod Fixtures
mod Tests
use keda_replica_sense.Prelude.{
  ℕ, ℤ, pos, ltb_ℤ, leb_ℤ, eqb_ℤ, String, str_eq, Time, Duration, sub_time, add_time, add_dur,
  mul_dur, wrap64, ◌+ℤ◌, ◌*ℤ◌, Bool, true, false, ◌&&◌, ◌||◌, not, if◌then◌else◌, Option, none,
  some, Float64, neg,
}
use keda_replica_sense.Dataset.{is_finite}

pub record ValidationMetrics (W : Type 0) : Type 0 where
  pub windows : ℤ
  pub coverage : W
  pub underprediction_rate : W
  pub mean_absolute_error : W
  pub pinball_loss_p95 : W
  pub mean_underprediction : W
  pub max_relative_underprediction : W
  pub peak_mean_underprediction : W
  pub excess_replica_minutes : W

pub record EvaluationContract (W : Type 0) : Type 0 where
  pub version : String
  pub policy_revision : String
  pub horizon_seconds : ℤ
  pub sampling_seconds : ℤ
  pub seasonal_seconds : ℤ
  pub quantile : W
  pub timezone : String

pub record EvaluationPolicy (W : Type 0) : Type 0 where
  pub mode : String
  pub window : Duration
  pub min_duration : Duration
  pub min_windows : ℤ
  pub max_windows : ℤ
  pub coverage_tolerance : W
  pub minimum_improvement : W
  pub max_relative_underprediction : W
  pub rollback : Bool

pub record PromotionDecision : Type 0 where
  pub promote : Bool
  pub reason : String
  pub reference : String

-- `forecast.Comparison`. A metric set may be missing.
pub record Comparison (W : Type 0) : Type 0 where
  pub start : Time
  pub end : Time
  pub fingerprint : String
  pub eligible_windows : ℤ
  pub metrics : String → Option (ValidationMetrics W)

pub record EvaluationReport (W : Type 0) : Type 0 where
  pub version : String
  pub at : Time
  pub action : String
  pub reason : String
  pub detail : String
  pub expected_active_id : String
  pub previous_model_id : String
  pub contract : EvaluationContract W
  pub policy : EvaluationPolicy W
  pub evidence : Comparison W
  pub decision : PromotionDecision

abbrev pub evaluation_version : String
evaluation_version = "artifact-comparison-v1"

abbrev pub refuse : String → String → PromotionDecision
refuse reason reference = record { promote = false; reason = reason; reference = reference }

abbrev pub accept : String → String → PromotionDecision
accept reason reference = record { promote = true; reason = reason; reference = reference }

module _ {W : Type 0} ⦃f : Float64 W⦄ where
  abbrev pub zero_float : W
  zero_float = f.of_int (pos 0)

  abbrev pub one_float : W
  one_float = f.of_int (pos 1)

  -- 1e-9.
  abbrev pub epsilon : W
  epsilon = f.ratio 1 1000000000

  unfoldable pub default_evaluation_policy : EvaluationPolicy W
  default_evaluation_policy = record {
    mode = "automatic";
    window = pos 172800000000000;
    min_duration = pos 86400000000000;
    min_windows = pos 72;
    max_windows = pos 288;
    coverage_tolerance = f.ratio 3 100;
    minimum_improvement = f.ratio 3 100;
    max_relative_underprediction = f.ratio 1 2;
    rollback = false;
  }

  -- `Validate() == nil`.
  unfoldable pub valid_policy : EvaluationPolicy W → Bool
  valid_policy p =
      (str_eq p.mode "automatic" || str_eq p.mode "shadow")
      && not (leb_ℤ p.min_duration (pos 0))
      && not (ltb_ℤ p.window p.min_duration)
      && not (ltb_ℤ p.min_windows (pos 2))
      && not (ltb_ℤ p.max_windows p.min_windows)
      && not (ltb_ℤ (pos 4096) p.max_windows)
      && is_finite p.coverage_tolerance
      && not (f.lt p.coverage_tolerance zero_float)
      && not (f.le (f.ratio 1 2) p.coverage_tolerance)
      && is_finite p.minimum_improvement
      && not (f.lt p.minimum_improvement zero_float)
      && not (f.le one_float p.minimum_improvement)
      && is_finite p.max_relative_underprediction
      && not (f.le p.max_relative_underprediction zero_float)
      && not (f.lt one_float p.max_relative_underprediction)

  unfoldable pub valid_metrics : ValidationMetrics W → Bool
  valid_metrics m =
      ltb_ℤ (pos 0) m.windows
      && f.le zero_float m.coverage
      && f.le m.coverage one_float
      && f.le zero_float m.underprediction_rate
      && f.le m.underprediction_rate one_float
      && f.lt (f.abs (f.sub (f.add m.coverage m.underprediction_rate) one_float)) epsilon
      && is_finite m.mean_absolute_error
      && f.le zero_float m.mean_absolute_error
      && is_finite m.pinball_loss_p95
      && f.le zero_float m.pinball_loss_p95

  unfoldable pub safe_metrics : EvaluationPolicy W → W → ValidationMetrics W → Bool
  safe_metrics p q m =
      valid_metrics m
      && leb_ℤ p.min_windows m.windows
      && f.le (f.sub q p.coverage_tolerance) m.coverage
      && is_finite m.mean_underprediction
      && f.le zero_float m.mean_underprediction
      && is_finite m.max_relative_underprediction
      && f.le zero_float m.max_relative_underprediction
      && f.le m.max_relative_underprediction p.max_relative_underprediction
      && is_finite m.peak_mean_underprediction
      && f.le zero_float m.peak_mean_underprediction
      && is_finite m.excess_replica_minutes
      && f.le zero_float m.excess_replica_minutes

  abbrev pub valid_quantile : W → Bool
  valid_quantile q = is_finite q && not (f.le q zero_float) && not (f.le one_float q)

  unfoldable pub can_revalidate :
      EvaluationPolicy W → W → ValidationMetrics W → ValidationMetrics W → Bool
  can_revalidate p q active baseline =
      valid_policy p
      && is_finite q
      && f.lt zero_float q
      && f.lt q one_float
      && safe_metrics p q active
      && valid_metrics baseline
      && eqb_ℤ baseline.windows active.windows
      && f.le active.pinball_loss_p95
          (f.add (f.mul baseline.pinball_loss_p95 (f.ratio 11 10)) epsilon)

  -- `candidate` underpredicts more than `reference` by one of the three measures.
  unfoldable pub regresses : ValidationMetrics W → ValidationMetrics W → Bool
  regresses candidate reference =
      f.lt (f.add reference.mean_underprediction epsilon) candidate.mean_underprediction
      || f.lt (f.add reference.peak_mean_underprediction epsilon)
          candidate.peak_mean_underprediction
      || f.lt (f.add reference.underprediction_rate epsilon) candidate.underprediction_rate

  abbrev pub reference_of : Option (ValidationMetrics W) → ValidationMetrics W → ValidationMetrics W
  reference_of none baseline = baseline
  reference_of (some champion) baseline = champion

  abbrev pub reference_name : Option (ValidationMetrics W) → String
  reference_name none = "deterministic_baseline"
  reference_name (some champion) = "active_champion"

  abbrev pub is_absent : Option (ValidationMetrics W) → Bool
  is_absent none = true
  is_absent (some champion) = false

  -- `reference.PinballLossP95*(1-p.MinimumImprovement)-1e-9`.
  abbrev pub loss_target : EvaluationPolicy W → ValidationMetrics W → W
  loss_target p reference =
      f.sub (f.mul reference.pinball_loss_p95 (f.sub one_float p.minimum_improvement)) epsilon

  unfoldable pub evaluate_artifact_promotion :
      EvaluationPolicy W
      → W
      → ValidationMetrics W
      → Option (ValidationMetrics W)
      → ValidationMetrics W
      → PromotionDecision
  evaluate_artifact_promotion p q candidate champion baseline =
      let reference = reference_of champion baseline in
      let name = reference_name champion in
      if not (valid_policy p) || not (valid_quantile q)
      then refuse "invalid_policy" ""
      else if not (safe_metrics p q candidate)
      then refuse "candidate_safety_gate_failed" ""
      else if not (valid_metrics reference) || not (eqb_ℤ reference.windows candidate.windows)
      then refuse "incomparable_reference" ""
      else if regresses candidate reference
      then refuse "underprediction_regression" name
      else if is_absent champion
          && f.le candidate.pinball_loss_p95 epsilon
          && f.le reference.pinball_loss_p95 epsilon
      then accept "safe_baseline_equivalent" name
      else if f.le (loss_target p reference) candidate.pinball_loss_p95
      then refuse "insufficient_loss_improvement" name
      else accept "paired_evaluation_passed" name

  -- `comparableContract`: equal but for the policy revision.
  unfoldable pub comparable_contract : EvaluationContract W → EvaluationContract W → Bool
  comparable_contract a b =
      str_eq a.version b.version
      && eqb_ℤ a.horizon_seconds b.horizon_seconds
      && eqb_ℤ a.sampling_seconds b.sampling_seconds
      && eqb_ℤ a.seasonal_seconds b.seasonal_seconds
      && f.eq a.quantile b.quantile
      && str_eq a.timezone b.timezone

  -- `a == b`.
  unfoldable pub same_contract : EvaluationContract W → EvaluationContract W → Bool
  same_contract a b = comparable_contract a b && str_eq a.policy_revision b.policy_revision

  -- `(HorizonSeconds + 3*SamplingSeconds) * time.Second`.
  abbrev pub maximum_age : EvaluationContract W → Duration
  maximum_age c =
      mul_dur (wrap64 (c.horizon_seconds +ℤ wrap64 (pos 3 *ℤ c.sampling_seconds))) (pos 1000000000)

  unfoldable pub fresh_evaluation_evidence : EvaluationReport W → Time → Bool
  fresh_evaluation_evidence r now =
      valid_policy r.policy
      && str_eq r.version evaluation_version
      && not (leb_ℤ r.contract.horizon_seconds (pos 0))
      && not (leb_ℤ r.contract.sampling_seconds (pos 0))
      && not (str_eq r.evidence.fingerprint "")
      && not (ltb_ℤ r.at r.evidence.end)
      && leb_ℤ r.policy.min_duration (sub_time r.evidence.end r.evidence.start)
      && leb_ℤ (sub_time r.at r.evidence.end) (maximum_age r.contract)
      && not (ltb_ℤ r.at (add_time now (neg (pos 600000000000))))
      && not (ltb_ℤ (add_time now (pos 60000000000)) r.at)
