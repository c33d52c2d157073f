-- ===== src/Forecaster/Service.antt =====
-- internal/forecaster/service.go, `Forecast`: one inference over the stored observations, with the
-- budget of internal/forecaster/budget.go. What the stores, the model and the cluster answer is an
-- argument. The quality counter and the availability callback only observe, and the reason that the
-- latter is given is `failure_reason` of the error.
pub mod Types
pub mod Input
pub mod Guarded
unfoldable pub use Types.*
unfoldable pub use Input.*
use Prim.Native.String.{◌++◌ as ◌+ₛ◌}
use keda_replica_sense.Prelude.{
  ℕ, ◌+◌, ◌-◌, ℤ, pos, pos_part, ltb_ℤ, leb_ℤ, ltb, quot, wrap64, neg, String, decimal, str_eq,
  Time, Duration, truncate, add_time, List, [], ◌∷◌, length, drop, ◌==◌, Bool, true, false, ◌&&◌,
  ◌||◌, not, if◌then◌else◌, Option, none, some, is_some, Result, ok, err, ◌>>=◌, Float64,
}
use keda_replica_sense.Domain.{SamplingWorkload, decision_horizon}
use keda_replica_sense.Dataset.{Sample, is_finite, is_demand, last_of}
use keda_replica_sense.Dataset.Quality.{
  QualityPolicy, QualityError, validate_fresh, validate, most_recent_contiguous,
}
use keda_replica_sense.Dataset.Inference.{
  InferenceHistory, InferenceError, prepare_inference_history, real_contiguous_suffix,
}
use keda_replica_sense.Safety.{SurgePolicy, SurgeResult, GuardrailInput, apply_guardrails, no_surge}
use keda_replica_sense.Scaler.{ForecastSnapshot}
use keda_replica_sense.Forecaster.Detect.{detect_sample_surge, surge_lead_time}

module _ {W : Type 0} ⦃f : Float64 W⦄ (s : Service W) where
  -- Raw demand, surge demand and reason.
  pub record Demand : Type 0 where
    pub raw : W
    pub surge_demand : W
    pub reason : String

  unfoldable pub demand_of : Inference W → SurgeResult W → Demand
  demand_of i surge =
      if surge.triggered && f.lt i.prediction.p95 surge.demand
      then record { raw = surge.demand; surge_demand = surge.demand; reason = surge.reason }
      else record {
        raw = i.prediction.p95;
        surge_demand = f.of_int (pos 0);
        reason =
            if i.input.used_contiguous_suffix
            then "baseline_replicas;recovered_after_source_gap"
            else "baseline_replicas";
      }

  abbrev pub surge_of : SamplingWorkload W → List (Sample W) → Option (SurgeResult W)
  surge_of w observed =
      let interval = w.spec.forecast.sampling_interval in
      if s.disable_surge_detection
      then some no_surge
      else detect_sample_surge (real_contiguous_suffix observed interval) interval
          (surge_lead_time w.spec.forecast) s.surge_policy

  abbrev pub current_of : SamplingWorkload W → Option W
  current_of w = elim s.current_replicas [ none ↦ some (f.of_int (pos 0)) | some read ↦ read w ]

  abbrev pub has_estimates : Inference W → Bool
  has_estimates i = ltb 0 i.input.estimated_count

  abbrev positive_or : W → W → W
  positive_or x fallback = if f.le x (f.of_int (pos 0)) then fallback else x

  -- The guardrail input: estimated inputs neither ask for less than runs, nor for more than one
  -- replica or a quarter more.
  unfoldable pub guardrail_input : SamplingWorkload W → Inference W → W → W → GuardrailInput W
  guardrail_input w i raw current =
      let wanted = f.ceil (f.div raw w.spec.source.threshold) in
      let desired = if has_estimates i then f.max wanted current else wanted in
      let step = positive_or s.max_absolute_step (f.of_int (pos 3)) in
      let percent = positive_or s.max_percent_increase (f.of_int (pos 100)) in
      record {
        desired = desired;
        current = current;
        max_replicas = w.spec.bounds.max;
        max_absolute_step = if has_estimates i then f.min step (f.of_int (pos 1)) else step;
        max_percent_increase =
            if has_estimates i then f.min percent (f.of_int (pos 25)) else percent;
        cluster_healthy = elim s.cluster_healthy [ none ↦ true | some healthy ↦ healthy ];
        capacity_allowed = elim s.predictive_allowed [
          | none ↦ true
          | some allowed ↦ allowed w current desired
        ];
      }

  abbrev estimate_note : Inference W → String
  estimate_note i =
      if has_estimates i
      then ";inference_interpolated_points="
        +ₛ (decimal (i.input.estimated_count + 1) i.input.estimated_count
            +ₛ ";conservative_gap_recovery")
      else ""

  unfoldable pub snapshot_of :
      SamplingWorkload W → Time → Inference W → Demand → W → ForecastSnapshot W
  unfolding guardrail_input
  snapshot_of w now i d current =
      let (safe, guard_reason) = apply_guardrails (guardrail_input w i d.raw current) in
      record {
        cluster_id = w.spec.key.cluster_id;
        workload_id = w.id;
        source_fingerprint = w.spec.source_fingerprint;
        generated_at = now;
        observed_at = i.newest;
        model_engine = i.engine;
        forecast_horizon = decision_horizon w.spec.forecast;
        forecast_p50 = i.prediction.p50;
        forecast_p95 = i.prediction.p95;
        surge_demand = d.surge_demand;
        safe_demand = safe;
        safety_reason = d.reason +ₛ (estimate_note i +ₛ (";" +ₛ guard_reason));
      }

  -- The second half of `Forecast`: the demand, the guardrails and the store.
  unfoldable pub decide :
      ForecastWorld W
      → SamplingWorkload W
      → Time
      → Inference W
      → Result ForecastError (ForecastSnapshot W)
  unfolding demand_of snapshot_of
  decide world w now i = do
    surge ← from_option index_panic (surge_of w i.observed)
    current ← from_option cluster_error (current_of w)
    observation ←
        ensure (not (has_estimates i) || is_some s.current_replicas) no_replica_observation
    let snapshot = snapshot_of w now i (demand_of i surge) current
    saved ← ensure (world.save snapshot) storage_error
    ok snapshot

  -- A snapshot that comes back is stored, and the forecast callback has heard it.
  unfoldable pub forecast :
      ForecastWorld W → SamplingWorkload W → Time → Result ForecastError (ForecastSnapshot W)
  unfolding infer decide
  forecast world w now = do i ← infer s world w now; decide world w now i
