-- ===== src/Forecaster/Service/Types.antt =====
-- The data of `Forecast` in internal/forecaster/service.go, its errors, and the budget guard of
-- internal/forecaster/budget.go.
use keda_replica_sense.Prelude.{
  ℤ, pos, pos_part, ltb_ℤ, quot, String, Time, Duration, List, Bool, true, false, ◌&&◌, ◌||◌, not,
  if◌then◌else◌, Option, none, some, Result, ok, err, Float64,
}
use keda_replica_sense.Domain.{SamplingWorkload}
use keda_replica_sense.Dataset.{Sample}
use keda_replica_sense.Dataset.Quality.{QualityError}
use keda_replica_sense.Dataset.Inference.{InferenceHistory, InferenceError}
use keda_replica_sense.Safety.{SurgePolicy}
use keda_replica_sense.Scaler.{ForecastSnapshot}

pub record Prediction (W : Type 0) : Type 0 where
  pub p50 : W
  pub p95 : W

pub record Request (W : Type 0) : Type 0 where
  pub horizon : Duration
  pub sampling_interval : Duration
  pub seasonal_period : Duration
  pub quantile : W
  pub business_location : String

-- `Model`; `inference_lookback` is there for an `InferenceLookbackModel` only, and
-- `operational_quantile` for an `UpperQuantileModel`.
pub record Model (W : Type 0) : Type 0 where
  pub engine : String
  pub inference_lookback : Option ℤ
  pub operational_quantile : Option W
  pub predict_samples : List (Sample W) → Request W → Option (Prediction W)

pub data ForecastError : Type 0 where
  invalid_configuration source_error model_unavailable : ForecastError
  stale_source : QualityError → ForecastError
  unreliable_inputs : InferenceError → ForecastError
  insufficient_history : QualityError → ForecastError
  unknown_timezone model_error invalid_prediction invalid_threshold index_panic : ForecastError
  cluster_error no_replica_observation storage_error : ForecastError

-- The reason that `OnUnavailable` is given with an error; a panic gives none.
unfoldable pub failure_reason : ForecastError → String
failure_reason invalid_configuration = "invalid_configuration"
failure_reason source_error = "source_error"
failure_reason model_unavailable = "model_unavailable"
failure_reason (stale_source e) = "stale_source"
failure_reason (unreliable_inputs e) = "unreliable_inputs"
failure_reason (insufficient_history e) = "insufficient_history"
failure_reason unknown_timezone = "insufficient_history"
failure_reason model_error = "model_error"
failure_reason invalid_prediction = "model_error"
failure_reason invalid_threshold = "model_error"
failure_reason index_panic = ""
failure_reason cluster_error = "cluster_error"
failure_reason no_replica_observation = "cluster_error"
failure_reason storage_error = "storage_error"

-- The fields of `Service`; a hook that is not set is `none`. `active_model` is what `Models`
-- answers, `none` without it.
pub record Service (W : Type 0) : Type 0 where
  pub configured : Bool
  pub seasonal_period : Duration
  pub minimum_samples : ℤ
  pub disable_short_gap_interpolation : Bool
  pub interpolation_max_gap : Duration
  pub max_absolute_step : W
  pub max_percent_increase : W
  pub disable_surge_detection : Bool
  pub surge_policy : SurgePolicy W
  pub active_model : SamplingWorkload W → Option (Model W)
  pub current_replicas : Option (SamplingWorkload W → Option W)
  pub cluster_healthy : Option Bool
  pub predictive_allowed : Option (SamplingWorkload W → W → W → Bool)

pub record ForecastWorld (W : Type 0) : Type 0 where
  pub list_samples : Time → Time → Option (List (Sample W))
  pub resolve_model : String → Option (Model W)
  pub has_location : String → Bool
  pub save : ForecastSnapshot W → Bool

-- What the inference part hands to the decision part.
pub record Inference (W : Type 0) : Type 0 where
  pub observed : List (Sample W)
  pub newest : Time
  pub input : InferenceHistory W
  pub engine : String
  pub prediction : Prediction W

-- A test that ends a call with an error.
abbrev pub ensure : Bool → ForecastError → Result ForecastError (Unit {0})
ensure true e = ok tt
ensure false e = err e

abbrev pub from_option : {A : Type 0} → ForecastError → Option A → Result ForecastError A
from_option e none = err e
from_option e (some a) = ok a

abbrev pub relabel : {E A : Type 0} → (E → ForecastError) → Result E A → Result ForecastError A
relabel g (err e) = err (g e)
relabel g (ok a) = ok a

abbrev pub default_zero : Option ℤ → ℤ
default_zero none = pos 0
default_zero (some n) = n

-- `minimum` and `lookback`, from the configured minimum and the model's own lookback.
unfoldable pub required_samples : ℤ → ℤ → Duration → Duration → ℤ × ℤ
required_samples configured own period interval =
    let fallback : ℤ = if ltb_ℤ own (pos 1) then quot period (pos_part interval) else own in
    let minimum = if ltb_ℤ configured (pos 1) then fallback else configured in
    (minimum, if ltb_ℤ (pos 0) own && ltb_ℤ own minimum then minimum else own)

module _ {W : Type 0} ⦃f : Float64 W⦄ where
  -- `SpeculativeBudgetGuard.Allows`, with what the reader projects.
  unfoldable pub allows : Bool → W → Option W → Bool
  allows configured max_additional projected =
      if not configured || f.le max_additional (f.of_int (pos 0))
      then false
      else (elim projected [ none ↦ false | some n ↦ f.le n max_additional ])
