-- ===== src/Forecaster/Service/Input.antt =====
-- The first half of `Forecast` in internal/forecaster/service.go: from the observations to the
-- prediction.
use keda_replica_sense.Prelude.{
  ◌-◌, ℤ, pos, pos_part, ltb_ℤ, leb_ℤ, wrap64, neg, Time, Duration, truncate, add_time, List, [],
  ◌∷◌, length, drop, ◌==◌, Bool, ◌&&◌, ◌||◌, not, if◌then◌else◌, Option, none, some, Result, ok,
  err, ◌>>=◌, Float64,
}
use keda_replica_sense.Domain.{SamplingWorkload, decision_horizon}
use keda_replica_sense.Dataset.{Sample, is_demand, last_of}
use keda_replica_sense.Dataset.Quality.{
  QualityPolicy, validate_fresh, validate, most_recent_contiguous,
}
use keda_replica_sense.Dataset.Inference.{InferenceHistory, prepare_inference_history}
use keda_replica_sense.Forecaster.Service.Types.{
  Prediction, Request, Model, ForecastError, Service, ForecastWorld, Inference, ensure, from_option,
  relabel, default_zero, required_samples, invalid_configuration, source_error, model_unavailable,
  stale_source, unreliable_inputs, insufficient_history, unknown_timezone, model_error,
  invalid_prediction, invalid_threshold,
}

module _ {W : Type 0} ⦃f : Float64 W⦄ (s : Service W) where
  abbrev pub period_of : Duration
  period_of = if leb_ℤ s.seasonal_period (pos 0) then pos 86400000000000 else s.seasonal_period

  -- The newest `lookback` of the samples, where there is a lookback.
  abbrev last_samples : ℤ → List (Sample W) → List (Sample W)
  last_samples lookback samples =
      if ltb_ℤ (pos 0) lookback && ltb_ℤ lookback (pos (length samples))
      then drop (length samples - pos_part lookback) samples
      else samples

  -- The input of the model.
  unfoldable pub model_input :
      List (Sample W) → QualityPolicy → ℤ → Result ForecastError (InferenceHistory W)
  model_input observed policy lookback =
      if s.disable_short_gap_interpolation
      then (let run = most_recent_contiguous observed policy in
          ok (record {
            samples = last_samples lookback run;
            estimated = [];
            estimated_count = 0;
            used_contiguous_suffix = not (length run == length observed);
          }))
      else relabel unreliable_inputs (
          prepare_inference_history observed (record {
            sampling_interval = policy.sampling_interval;
            max_gap = s.interpolation_max_gap;
            lookback = lookback;
          }))

  abbrev pub valid_prediction : Prediction W → Bool
  valid_prediction p = is_demand p.p50 && is_demand p.p95

  abbrev pub engine_model : ForecastWorld W → SamplingWorkload W → Option (Model W)
  engine_model world w = elim (s.active_model w) [
    | none ↦ world.resolve_model w.spec.forecast.model_engine
    | some m ↦ some m
  ]

  abbrev pub newest_of : List (Sample W) → Time
  newest_of [] = pos 0
  newest_of (x ∷ xs) = (last_of x xs).observed_at

  abbrev pub request_of : SamplingWorkload W → Request W
  request_of w = record {
    horizon = decision_horizon w.spec.forecast;
    sampling_interval = w.spec.forecast.sampling_interval;
    seasonal_period = period_of;
    quantile = w.spec.forecast.quantile;
    business_location = w.spec.forecast.business_timezone;
  }

  -- From the location to the test of the prediction and of the threshold.
  unfoldable pub predict :
      ForecastWorld W
      → SamplingWorkload W
      → Model W
      → List (Sample W)
      → InferenceHistory W
      → Result ForecastError (Inference W)
  predict world w model observed input = do
    located ← ensure (world.has_location w.spec.forecast.business_timezone) unknown_timezone
    prediction ← from_option model_error (model.predict_samples input.samples (request_of w))
    sound ← ensure (valid_prediction prediction) invalid_prediction
    above ← ensure (not (f.le w.spec.source.threshold (f.of_int (pos 0)))) invalid_threshold
    ok (record {
      observed = observed;
      newest = newest_of observed;
      input = input;
      engine = model.engine;
      prediction = prediction;
    })

  abbrev pub own_lookback : Model W → ℤ
  own_lookback model = default_zero model.inference_lookback

  unfoldable pub quality_policy : SamplingWorkload W → Model W → QualityPolicy
  unfolding required_samples
  quality_policy w model =
      let interval = w.spec.forecast.sampling_interval in
      record {
        min_samples =
            (required_samples s.minimum_samples (own_lookback model) period_of interval).0;
        sampling_interval = interval;
        max_gap_intervals = pos 2;
      }

  abbrev pub lookback_of : SamplingWorkload W → Model W → ℤ
  lookback_of w model =
      (required_samples s.minimum_samples (own_lookback model) period_of
        w.spec.forecast.sampling_interval).1

  -- From the observations and the model to the input.
  unfoldable pub infer_from :
      ForecastWorld W
      → SamplingWorkload W
      → Time
      → List (Sample W)
      → Model W
      → Result ForecastError (Inference W)
  unfolding model_input required_samples predict quality_policy
  infer_from world w end observed model =
      let policy = quality_policy w model in
      do
        fresh ← relabel stale_source (validate_fresh observed end policy)
        input ← model_input observed policy (lookback_of w model)
        enough ← relabel insufficient_history (validate input.samples policy)
        predict world w model observed input

  -- The first half of `Forecast`: up to the test of the prediction and of the threshold.
  unfoldable pub infer :
      ForecastWorld W → SamplingWorkload W → Time → Result ForecastError (Inference W)
  unfolding infer_from
  infer world w now =
      let interval = w.spec.forecast.sampling_interval in
      let end = truncate now interval in
      let start = add_time end (wrap64 (neg w.spec.forecast.training_window)) in
      if not s.configured || leb_ℤ interval (pos 0) then err invalid_configuration else do
        observed ← from_option source_error (world.list_samples start end)
        model ← from_option model_unavailable (engine_model world w)
        infer_from world w end observed model
