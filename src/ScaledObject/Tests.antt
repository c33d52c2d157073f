-- ===== src/ScaledObject/Tests.antt =====
-- Runs and instances of the parser.
use keda_replica_sense.Prelude.{
  pos, ◌*ℤ◌, ◌+ℤ◌, trim_space, read_text, decimal, lookup, false, none, some, [], ◌∷◌, ◌≡◌, ◌↔◌,
  refl, InInt64, Duration, minute, add_dur, mul_dur, wrap64, mod_floor, quot, rem,
}
use keda_replica_sense.Prelude.Billionths.{Billionths, milli, billionths}
use keda_replica_sense.Domain.{WorkloadSpec, decision_horizon}
use keda_replica_sense.ScaledObject.Input.{ScaledObjectInput}
use keda_replica_sense.ScaledObject.Days.{
  day, replica_sense_duration, parse_int, strip_day, days_duration, replica_sense_duration-IsExact,
}
use keda_replica_sense.ScaledObject.Fields.{
  parse_duration, parse_non_negative_duration, parse_bool, parse_quantile, check_address,
  parse_prometheus_source, parse_forecast_config, parse_bounds, read_forecast, is_supported,
  read_bool, format_training_window,
}
use keda_replica_sense.ScaledObject.Parser.{
  parse_candidate, check_candidate, seen, seen_sources, named, select, predictive_triggers,
  is_replica_sense_trigger, is_address,
}
use keda_replica_sense.ScaledObject.Parser.Contract.{IsContract, parse_candidate-IsContract}
use keda_replica_sense.ScaledObject.Fixtures.{
  standard, standard-EncodesFinite, default-is_quantile, signal, predictive, input, options,
}

abbrev spec : WorkloadSpec Billionths
spec = record {
  key = record {
    cluster_id = "east";
    namespace = "shop";
    scaled_object_name = "web";
    predictive_trigger_name = "forecast";
  };
  scale_target = "web";
  bounds = record { min = pos 1; max = pos 100 };
  source = record {
    trigger_name = "rps";
    server_address = "http://prom";
    query = "q";
    threshold = milli 10000;
  };
  forecast = record {
    horizon = pos 600000000000;
    quantile = milli 950;
    training_window = pos 1209600000000000;
    sampling_interval = minute;
    model_engine = "xgboost";
    business_timezone = "UTC";
    startup_latency = pos 0;
    safety_buffer = pos 0;
    immediate_training = false;
    clear_old_models = false;
  };
  source_fingerprint = "http://prom q";
  policy_revision = "revision";
}

accepted : (parse_candidate standard input options predictive).spec ≡ some spec
unfolding parse_candidate check_candidate seen seen_sources named select predictive_triggers
    is_replica_sense_trigger is_address parse_prometheus_source parse_forecast_config parse_bounds
    read_forecast parse_duration parse_non_negative_duration parse_bool parse_quantile check_address
    is_supported read_bool replica_sense_duration parse_int strip_day days_duration trim_space
    read_text lookup decision_horizon add_dur mul_dur wrap64 mod_floor quot rem ◌*ℤ◌ ◌+ℤ◌ billionths
    format_training_window decimal
accepted = refl

parse_candidate-IsContract_example : IsContract standard input options spec
parse_candidate-IsContract_example =
    parse_candidate-IsContract standard input options predictive standard-EncodesFinite
      default-is_quantile accepted

-- Two triggers of one name are both refused.
twice : ScaledObjectInput
twice = record input { triggers = signal ∷ predictive ∷ predictive ∷ [] }

refused : (parse_candidate standard twice options predictive).spec ≡ none
unfolding twice parse_candidate check_candidate seen seen_sources named select predictive_triggers
    is_replica_sense_trigger is_address parse_prometheus_source parse_forecast_config parse_bounds
    read_forecast parse_duration parse_non_negative_duration parse_bool parse_quantile check_address
    is_supported read_bool replica_sense_duration parse_int strip_day days_duration trim_space
    read_text lookup decision_horizon add_dur mul_dur wrap64 mod_floor quot rem ◌*ℤ◌ ◌+ℤ◌ billionths
    format_training_window decimal
refused = refl

-- 213504 days wrap to some 25 minutes.
wrapped : replica_sense_duration standard "213504d" ≡ some (pos 1526290448384)
unfolding replica_sense_duration mul_dur wrap64 mod_floor ◌*ℤ◌ ◌+ℤ◌
wrapped = refl

strip_example : strip_day "213504d" ≡ some "213504"
unfolding strip_day
strip_example = refl

read_example : parse_int "213504" ≡ some (pos 213504)
unfolding parse_int
read_example = refl

replica_sense_duration-IsExact_example :
    (duration : Duration) × (replica_sense_duration standard "213504d" ≡ some duration)
    × ((duration ≡ pos 213504 *ℤ day) ↔ InInt64 (pos 213504 *ℤ day))
replica_sense_duration-IsExact_example =
    replica_sense_duration-IsExact standard "213504d" "213504" (pos 213504) strip_example
      read_example
