-- ===== src/Forecaster/Tests.antt =====
-- Runs and instances of the forecaster, on one observation per minute.
use mathlib.Core.List.{map}
use keda_replica_sense.Prelude.{
  ℕ, ◌+◌, ◌*◌, pos, minute, Time, truncate, true, false, none, some, List, [], ◌∷◌, Result, ok, err,
  ◌≡◌, ◌↔◌, refl, arith, mod_floor, ◌-ℤ◌, ◌+ℤ◌, ◌*ℤ◌, sub_time, add_time, add_dur, mul_dur, wrap64,
  quot, rem,
}
use keda_replica_sense.Prelude.Billionths.{Billionths, billionths, milli, Billionths-IsOrdered}
use keda_replica_sense.Domain.{SamplingWorkload}
use keda_replica_sense.Dataset.{Sample, last_of, same_slot}
use keda_replica_sense.Dataset.Inference.{
  real_contiguous_suffix, real_loop, real_step, gap_threshold,
}
use keda_replica_sense.Dataset.Quality.{
  validate_fresh, validate, validate_from, validate_loop, last_break, maximum_gap,
  most_recent_contiguous,
}
use keda_replica_sense.Forecaster.Detect.{detect_sample_surge, surge_lead_time}
use keda_replica_sense.Safety.{apply_guardrails, rate_limit, default_surge_policy}
use keda_replica_sense.Safety.Guardrails.{IsComputable}
use keda_replica_sense.Scaler.{ForecastSnapshot}
use keda_replica_sense.Forecaster.Service.{
  Model, Service, ForecastWorld, Inference, forecast, infer, decide, infer_from, predict,
  quality_policy, required_samples, model_input, demand_of, snapshot_of, guardrail_input,
}
use keda_replica_sense.Forecaster.Service.Guarded.{
  IsForecast, forecast-IsForecast, IsConservative, guarded, guarded-IsConservative,
}
use keda_replica_sense.Forecaster.Models.{StoredModel, ModelCache, model_for, refresh}
use keda_replica_sense.Forecaster.Models.Cached.{
  IsServed, model_for-IsServed, AllSourced, refresh-AllSourced,
}

abbrev at_minute : ℕ → Sample Billionths
at_minute n = record {
  cluster_id = "east";
  workload_id = "w1";
  source_fingerprint = "fp";
  observed_at = pos (n * 60000000000);
  observed_value = milli (100000 + n * 1000);
}

abbrev observed : List (Sample Billionths)
observed = map at_minute (16 ∷ 17 ∷ 18 ∷ 19 ∷ 20 ∷ [])

abbrev workload : SamplingWorkload Billionths
workload = record {
  id = "w1";
  spec = record {
    key = record {
      cluster_id = "east";
      namespace = "shop";
      scaled_object_name = "web";
      predictive_trigger_name = "forecast";
    };
    scale_target = "web";
    bounds = record { min = pos 1; max = pos 20 };
    source = record {
      trigger_name = "rps";
      server_address = "prom";
      query = "q";
      threshold = milli 10000;
    };
    forecast = record {
      horizon = pos 600000000000;
      quantile = milli 950;
      training_window = pos 604800000000000;
      sampling_interval = minute;
      model_engine = "gru";
      business_timezone = "UTC";
      startup_latency = pos 60000000000;
      safety_buffer = pos 60000000000;
      immediate_training = false;
      clear_old_models = false;
    };
    source_fingerprint = "fp";
    policy_revision = "rev-1";
  };
}

-- A quantile model that always expects 45.
abbrev model : Model Billionths
model = record {
  engine = "gru";
  inference_lookback = none;
  operational_quantile = some (milli 950);
  predict_samples = λ samples request. some (record { p50 = milli 30000; p95 = milli 45000 });
}

abbrev service : Service Billionths
service = record {
  configured = true;
  seasonal_period = pos 86400000000000;
  minimum_samples = pos 3;
  disable_short_gap_interpolation = true;
  interpolation_max_gap = pos 0;
  max_absolute_step = milli 0;
  max_percent_increase = milli 0;
  disable_surge_detection = false;
  surge_policy = default_surge_policy;
  active_model = λ w. some model;
  current_replicas = some (λ w. some (milli 4000));
  cluster_healthy = some true;
  predictive_allowed = none;
}

abbrev world : ForecastWorld Billionths
world = record {
  list_samples = λ start end. some observed;
  resolve_model = λ engine. none;
  has_location = λ zone. true;
  save = λ snapshot. true;
}

-- A minute after the newest observation.
abbrev now : Time
now = pos 1260000000000

abbrev empty_snapshot : ForecastSnapshot Billionths
empty_snapshot = record {
  cluster_id = "";
  workload_id = "";
  source_fingerprint = "";
  generated_at = pos 0;
  observed_at = pos 0;
  model_engine = "";
  forecast_horizon = pos 0;
  forecast_p50 = milli 0;
  forecast_p95 = milli 0;
  surge_demand = milli 0;
  safe_demand = milli 0;
  safety_reason = "";
}

abbrev snapshot_or_empty :
    {E : Type 0} → Result E (ForecastSnapshot Billionths) → ForecastSnapshot Billionths
snapshot_or_empty (ok snapshot) = snapshot
snapshot_or_empty (err e) = empty_snapshot

abbrev served : ForecastSnapshot Billionths
served = snapshot_or_empty (forecast service world workload now)

-- Five replicas are wanted for 45 over 10.
one_more : served.safe_demand ≡ milli 5000
unfolding forecast infer infer_from predict quality_policy required_samples model_input
    validate_fresh validate validate_from validate_loop last_break maximum_gap
    most_recent_contiguous truncate mod_floor ◌*ℤ◌ ◌+ℤ◌ ◌-ℤ◌ mul_dur add_time add_dur wrap64
    sub_time billionths last_of decide demand_of snapshot_of guardrail_input apply_guardrails
    rate_limit detect_sample_surge quot rem default_surge_policy real_contiguous_suffix real_loop
    real_step gap_threshold same_slot surge_lead_time
one_more = refl

forecast_served : forecast service world workload now ≡ ok served
unfolding forecast infer infer_from predict quality_policy required_samples model_input
    validate_fresh validate validate_from validate_loop last_break maximum_gap
    most_recent_contiguous truncate mod_floor ◌*ℤ◌ ◌+ℤ◌ ◌-ℤ◌ mul_dur add_time add_dur wrap64
    sub_time billionths last_of decide demand_of snapshot_of guardrail_input apply_guardrails
    rate_limit detect_sample_surge quot rem default_surge_policy real_contiguous_suffix real_loop
    real_step gap_threshold same_slot surge_lead_time
forecast_served = refl

forecast-IsForecast_example : IsForecast service world workload now served
forecast-IsForecast_example = forecast-IsForecast service world workload now served forecast_served

-- An input with one estimate.
abbrev inference : Inference Billionths
inference = record {
  observed = observed;
  newest = pos 1200000000000;
  input = record {
    samples = observed;
    estimated = [];
    estimated_count = 1;
    used_contiguous_suffix = false;
  };
  engine = "gru";
  prediction = record { p50 = milli 30000; p95 = milli 90000 };
}

computable : IsComputable (guardrail_input service workload inference (milli 90000) (milli 4000))
unfolding guardrail_input billionths
computable = ground arith

guarded-IsConservative_example :
    IsConservative Billionths-IsOrdered service workload inference
      (milli 90000)
      (milli 4000)
      (guarded Billionths-IsOrdered service workload inference (milli 90000) (milli 4000))
unfolding billionths
guarded-IsConservative_example =
    guarded-IsConservative Billionths-IsOrdered service workload inference (milli 90000)
      (milli 4000) refl refl refl refl computable refl

abbrev stored : StoredModel
stored = record {
  id = "m1";
  workload_id = "w1";
  source_fingerprint = "fp";
  engine = "gru";
  artifact = "bytes";
  activated_at = pos 600000000000;
}

abbrev cache : ModelCache Billionths
cache = record {
  cluster_id = "east";
  has_reader = true;
  max_age = pos 3600000000000;
  models = ("w1:fp", record { id = "m1"; model = model; activated_at = pos 600000000000 }) ∷ [];
}

model_for-IsServed_example :
    (model_for cache workload now ≡ some model) ↔ IsServed cache workload now model
model_for-IsServed_example = model_for-IsServed cache workload now model

refresh-AllSourced_example :
    AllSourced
      (λ item. some model)
      cache.models
      (stored ∷ [])
      (refresh (λ item. some model) cache (some (stored ∷ []))).0.models
refresh-AllSourced_example = refresh-AllSourced (λ item. some model) cache (stored ∷ []) refl refl
