-- ===== src/ScaledObject/Fields.antt =====
-- The fields of a trigger in internal/scaledobject/parser.go: each reader adds its violations.
pub mod Known
use Prim.Native.String.{◌++◌ as ◌+ₛ◌}
use keda_replica_sense.Prelude.{
  ℕ, suc, ◌/◌, ℤ, pos, pos_part, ltb_ℤ, leb_ℤ, eqb_ℤ, quot, rem, add_dur, Duration, minute, String,
  str_eq, trim_space, read_text, decimal, lookup, Bool, true, false, not, ◌&&◌, ◌||◌, Option, none,
  some, if◌then◌else◌, Float64, ◌≡◌, refl, List, [], ◌∷◌, ◌++◌,
}
use keda_replica_sense.Domain.{ReplicaBounds, PrometheusSource, ForecastConfig, decision_horizon}
use keda_replica_sense.ScaledObject.Input.{
  Standard, TriggerInput, ScaledObjectInput, ParserOptions, Violation, Url, Checked, ◌>>=◌, ◌>>◌,
  pure, demand, value_or, violation, demand_all,
}
use keda_replica_sense.ScaledObject.Days.{replica_sense_duration}

abbrev pub is_blank : String → Bool
is_blank s = str_eq (trim_space s) ""

abbrev pub default_training_window : Duration
default_training_window = pos 2592000000000000

abbrev pub default_minimum_training_window : Duration
default_minimum_training_window = pos 604800000000000

-- `strconv.ParseBool`; `none` is an error.
unfoldable pub read_bool : String → Option Bool
read_bool s =
    if str_eq s "1"
      || str_eq s "t"
      || str_eq s "T"
      || str_eq s "TRUE"
      || str_eq s "true"
      || str_eq s "True"
    then some true
    else if str_eq s "0"
        || str_eq s "f"
        || str_eq s "F"
        || str_eq s "FALSE"
        || str_eq s "false"
        || str_eq s "False"
    then some false
    else none

abbrev pub or_false : Option Bool → Bool
or_false none = false
or_false (some b) = b

abbrev pub is_given {ℓ} : {A : Type ℓ} → Option A → Bool
is_given none = false
is_given (some a) = true

unfoldable pub parse_bool : String → String → Checked Bool
unfolding read_bool
parse_bool raw field =
    if is_blank raw
    then pure false
    else value_or (is_given (read_bool (trim_space raw))) (or_false (read_bool (trim_space raw)))
        (or_false (read_bool (trim_space raw))) field "must be true or false"

abbrev pub or_zero : Option Duration → Duration
or_zero none = pos 0
or_zero (some d) = d

-- `%dd` for whole days, and otherwise `Duration.String`.
unfoldable pub format_training_window : {W : Type 0} → Standard W → Duration → String
format_training_window std value =
    let days = pos_part (quot value 86400000000000) in
    if eqb_ℤ (rem value 86400000000000) (pos 0)
    then decimal (suc days) days +ₛ "d"
    else std.print_duration value

module _ {W : Type 0} (std : Standard W) where
  unfoldable pub parse_non_negative_duration : String → String → Checked Duration
  parse_non_negative_duration raw field =
      let read = replica_sense_duration std raw in
      if is_blank raw
      then pure (pos 0)
      else value_or (is_given read && not (ltb_ℤ (or_zero read) (pos 0))) (or_zero read) (pos 0)
          field "must be a non-negative duration, for example 45s or 2m"

  unfoldable pub parse_duration : String → Duration → String → Checked Duration
  parse_duration raw fallback field =
      let read = replica_sense_duration std (trim_space raw) in
      if is_blank raw
      then pure fallback
      else value_or (is_given read && not (leb_ℤ (or_zero read) (pos 0))) (or_zero read) fallback
          field "must be a positive duration, for example 10m or 30d"

-- `min` and `max` replicas, from the object or else from the options.
abbrev pub or_default : Option ℤ → ℤ → ℤ
or_default none d = d
or_default (some n) d = n

unfoldable pub parse_bounds : ScaledObjectInput → ParserOptions → Checked ReplicaBounds
parse_bounds input options = do
  let low = or_default input.min_replica_count options.default_min_replica_count
  let high = or_default input.max_replica_count options.default_max_replica_count
  demand (not (ltb_ℤ low (pos 0))) "spec.minReplicaCount" "must not be negative"
  demand (not (leb_ℤ high (pos 0))) "spec.maxReplicaCount" "must be positive"
  demand (not (ltb_ℤ high low)) "spec" "minReplicaCount must not exceed maxReplicaCount"
  pure (record { min = low; max = high })

abbrev pub engine_of : String → String
engine_of raw = if str_eq (trim_space raw) "" then "xgboost" else trim_space raw

abbrev pub zone_of : String → String
zone_of raw = if str_eq (trim_space raw) "" then "UTC" else trim_space raw

unfoldable pub is_supported : String → Bool
is_supported engine =
    str_eq engine "xgboost"
    || str_eq engine "seasonal-baseline"
    || str_eq engine "rolling-quantile"
    || str_eq engine "holt-winters"
    || str_eq engine "xgboost"
    || str_eq engine "gru"

abbrev pub minimum_window : ParserOptions → Duration
minimum_window options =
    if leb_ℤ options.minimum_training_window (pos 0)
    then default_minimum_training_window
    else options.minimum_training_window

abbrev pub whole_seconds : Duration → Bool
whole_seconds d = eqb_ℤ (rem d 1000000000) (pos 0)

-- `a % b == 0` for a positive `b`.
abbrev pub is_multiple : Duration → Duration → Bool
is_multiple a b = eqb_ℤ (rem a (pos_part b)) (pos 0)

abbrev pub ninety_days : Duration
ninety_days = pos 7776000000000000

abbrev pub is_quantile : {W : Type 0} ⦃f : Float64 W⦄ → W → Bool
is_quantile ⦃f⦄ x = not (f.le x (f.of_int (pos 0))) && not (f.le (f.of_int (pos 1)) x)

abbrev pub or_nought : {W : Type 0} ⦃f : Float64 W⦄ → Option W → W
or_nought ⦃f⦄ none = f.of_int (pos 0)
or_nought ⦃f⦄ (some x) = x

abbrev pub is_http : Option Url → Bool
is_http none = false
is_http (some url) =
    (str_eq url.scheme "http" || str_eq url.scheme "https")
    && not (str_eq url.host "")
    && not url.has_user
    && str_eq url.fragment ""

abbrev pub is_threshold : {W : Type 0} ⦃f : Float64 W⦄ → Option W → Bool
is_threshold ⦃f⦄ read = is_given read && not (f.le (or_nought read) (f.of_int (pos 0)))

abbrev pub default_quantile : {W : Type 0} ⦃f : Float64 W⦄ → W
default_quantile ⦃f⦄ = f.ratio 95 100

module _ {W : Type 0} ⦃f : Float64 W⦄ (std : Standard W) where
  unfoldable pub parse_quantile : String → Checked W
  parse_quantile raw =
      let read = std.parse_float (trim_space raw) in
      if is_blank raw
      then pure default_quantile
      else value_or (is_given read && is_quantile (or_nought read)) (or_nought read)
          default_quantile "metadata.quantile" "must be greater than 0 and less than 1"

  unfoldable pub check_address : String → Checked (Unit {0})
  check_address address =
      if str_eq address ""
      then (tt, violation "source.metadata.serverAddress" "is required")
      else demand (is_http (std.parse_request_uri address)) "source.metadata.serverAddress"
          "must be an absolute http(s) URL without credentials or fragment"

  unfoldable pub parse_prometheus_source : TriggerInput → Checked (PrometheusSource W)
  parse_prometheus_source trigger = do
    let address = trim_space (read_text "serverAddress" trigger.metadata)
    let query = trim_space (read_text "query" trigger.metadata)
    let threshold = std.parse_float (trim_space (read_text "threshold" trigger.metadata))
    check_address address
    demand (not (str_eq query "")) "source.metadata.query" "is required"
    demand (is_threshold threshold) "source.metadata.threshold" "must be a positive number"
    pure (record {
      trigger_name = trigger.name;
      server_address = address;
      query = query;
      threshold = or_nought threshold;
    })

  -- The fields in the order of the source, with the violations that reading them adds.
  unfoldable pub read_forecast : TriggerInput → Checked (ForecastConfig W)
  read_forecast trigger = do
    let text = λ (key : String). read_text key trigger.metadata
    horizon ←
        parse_duration std (text "forecastHorizon") (pos 600000000000) "metadata.forecastHorizon"
    window ←
        parse_duration std (text "trainingWindow") default_training_window "metadata.trainingWindow"
    interval ← parse_duration std (text "samplingInterval") minute "metadata.samplingInterval"
    latency ← parse_non_negative_duration std (text "startupLatency") "metadata.startupLatency"
    buffer ← parse_non_negative_duration std (text "safetyBuffer") "metadata.safetyBuffer"
    immediate ← parse_bool (text "immediateTraining") "metadata.immediateTraining"
    clear ← parse_bool (text "clearOldModels") "metadata.clearOldModels"
    quantile ← parse_quantile (text "quantile")
    pure (record {
      horizon = horizon;
      quantile = quantile;
      training_window = window;
      sampling_interval = interval;
      model_engine = engine_of (text "modelEngine");
      business_timezone = zone_of (text "businessTimezone");
      startup_latency = latency;
      safety_buffer = buffer;
      immediate_training = immediate;
      clear_old_models = clear;
    })

  -- The tests on what was read, in order.
  abbrev pub forecast_checks : Duration → ForecastConfig W → List (Bool × String × String)
  forecast_checks minimum c =
      (
        is_supported c.model_engine,
        "metadata.modelEngine",
        "unsupported model engine " +ₛ std.quote c.model_engine,
      )
      ∷ (
        not (ltb_ℤ c.training_window minimum) && not (ltb_ℤ ninety_days c.training_window),
        "metadata.trainingWindow",
        "must be between " +ₛ format_training_window std minimum +ₛ " and 90d",
      )
      ∷ (
        whole_seconds c.training_window,
        "metadata.trainingWindow",
        "must be an exact number of seconds",
      )
      ∷ (
        whole_seconds c.sampling_interval,
        "metadata.samplingInterval",
        "must be an exact number of seconds",
      )
      ∷ (
        not (ltb_ℤ (pos 0) c.sampling_interval)
            || is_multiple c.training_window c.sampling_interval,
        "metadata.trainingWindow",
        "must be a whole number of sampling intervals",
      )
      ∷ (
        not (leb_ℤ c.sampling_interval (pos 0))
            && not (leb_ℤ (decision_horizon c) (pos 0))
            && is_multiple (decision_horizon c) c.sampling_interval,
        "metadata.forecastHorizon",
        "plus startupLatency and safetyBuffer must be a positive multiple of samplingInterval",
      )
      ∷ (whole_seconds c.horizon, "metadata.forecastHorizon", "must be an exact number of seconds")
      ∷ (
        std.has_location c.business_timezone,
        "metadata.businessTimezone",
        "must be a valid IANA timezone, for example Europe/Istanbul",
      )
      ∷ []

  unfoldable pub parse_forecast_config : TriggerInput → ParserOptions → Checked (ForecastConfig W)
  parse_forecast_config trigger options = do
    c ← read_forecast trigger
    demand_all (forecast_checks (minimum_window options) c)
    pure c
