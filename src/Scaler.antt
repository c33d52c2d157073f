-- ===== src/Scaler.antt =====
-- internal/scaler: the external-scaler endpoint that KEDA asks, and the cache of snapshots behind
-- it; with the snapshot of internal/domain/forecast.go and the key of internal/forecast/repository.go.
-- A clock reading is an argument of the call that makes it. What the observer is told is part of the
-- result.
pub mod Cache
pub mod Freshness
mod Tests
use keda_replica_sense.Prelude.{
  ℤ, pos, ltb_ℤ, leb_ℤ, String, str_eq, Time, Duration, sub_time, trim_space, read_text, Bool, true,
  false, ◌&&◌, ◌||◌, if◌then◌else◌, Option, none, some, List, [], ◌∷◌, Result, ok, err, Float64,
  minute,
}

pub record ForecastSnapshot (W : Type 0) : Type 0 where
  pub cluster_id : String
  pub workload_id : String
  pub source_fingerprint : String
  pub generated_at : Time
  pub observed_at : Time
  pub model_engine : String
  pub forecast_horizon : Duration
  pub forecast_p50 : W
  pub forecast_p95 : W
  pub surge_demand : W
  pub safe_demand : W
  pub safety_reason : String

pub record Lookup : Type 0 where
  pub cluster_id : String
  pub namespace : String
  pub scaled_object : String
  pub source_trigger : String

-- The fields of KEDA's request that the server reads.
pub record ScaledObjectRef : Type 0 where
  pub name : String
  pub namespace : String
  pub scaler_metadata : List (String × String)

pub record GetMetricsRequest : Type 0 where
  pub scaled_object_ref : Option ScaledObjectRef
  pub metric_name : String

abbrev pub metric_name : String
metric_name = "replicasense_predictive"

pub data ScalerError : Type 0 where
  reference_required unknown_metric names_required : ScalerError

-- The reader answers with `none` where `LatestSnapshot` returns an error.
pub record Server (W : Type 0) : Type 0 where
  pub cluster_id : String
  pub snapshot_reader : Option (Lookup → Option (ForecastSnapshot W))
  pub snapshot_max_age : Duration
  pub source_max_age : Duration
  pub observed : Bool

-- One call of `RecordRequest`.
pub record Recorded : Type 0 where
  pub method : String
  pub served : Bool
  pub age : Duration

unfoldable pub snapshot_fresh : Time → Time → Duration → Bool
snapshot_fresh generated_at now max_age =
    if ltb_ℤ now generated_at then false else leb_ℤ (sub_time now generated_at) max_age

-- `if d <= 0 { d = fallback }`.
abbrev pub or_default : Duration → Duration → Duration
or_default d fallback = if leb_ℤ d (pos 0) then fallback else d

abbrev pub two_minutes : Duration
two_minutes = pos 120000000000

abbrev pub source_trigger : ScaledObjectRef → String
source_trigger r = trim_space (read_text "sourceTrigger" r.scaler_metadata)

module _ {W : Type 0} where
  abbrev pub key_of : Server W → ScaledObjectRef → Lookup
  key_of s r = record {
    cluster_id = s.cluster_id;
    namespace = r.namespace;
    scaled_object = r.name;
    source_trigger = source_trigger r;
  }

  abbrev pub max_age : Server W → Duration
  max_age s = or_default s.snapshot_max_age two_minutes

  abbrev pub max_source_age : Server W → Duration
  max_source_age s = or_default s.source_max_age (max_age s)

  -- The snapshot that the reader has, if any, and whether it may be served.
  abbrev found : Server W → Time → Option (ForecastSnapshot W) → Option (ForecastSnapshot W) × Bool
  found s now none = (none, false)
  found s now (some snapshot) = (
    some snapshot,
    snapshot_fresh snapshot.generated_at now (max_age s)
        && snapshot_fresh snapshot.observed_at now (max_source_age s),
  )

  unfoldable pub read_snapshot :
      Server W → Option ScaledObjectRef → Time → Option (ForecastSnapshot W) × Bool
  read_snapshot s none now = (none, false)
  read_snapshot s (some r) now = elim s.snapshot_reader [
    | none ↦ (none, false)
    | some latest ↦
        if str_eq s.cluster_id "" || str_eq (source_trigger r) ""
        then (none, false)
        else found s now (latest (key_of s r))
  ]

  abbrev age_at : Option (ForecastSnapshot W) → Time → Duration
  age_at none later = pos 0
  age_at (some snapshot) later = sub_time later snapshot.generated_at

  unfoldable pub record_request :
      Server W → String → Option (ForecastSnapshot W) → Bool → Time → Option Recorded
  record_request s method snapshot served later =
      if s.observed
      then some (record { method = method; served = served; age = age_at snapshot later })
      else none

module _ {W : Type 0} ⦃f : Float64 W⦄ where
  abbrev pub demand_if : Option (ForecastSnapshot W) × Bool → W
  demand_if (some snapshot, true) = snapshot.safe_demand
  demand_if _ = f.of_int (pos 0)

  abbrev positive_if : Option (ForecastSnapshot W) × Bool → Bool
  positive_if (some snapshot, true) = f.lt (f.of_int (pos 0)) snapshot.safe_demand
  positive_if _ = false

  unfoldable pub is_active :
      Server W → Option ScaledObjectRef → Time → Time → Bool × Option Recorded
  is_active s r now later =
      let read = read_snapshot s r now in
      (positive_if read, record_request s "is_active" read.0 read.1 later)

  unfoldable pub get_metrics :
      Server W → Option GetMetricsRequest → Time → Time → Result ScalerError W × Option Recorded
  get_metrics s none now later = (err reference_required, none)
  get_metrics s (some request) now later = elim request.scaled_object_ref [
    | none ↦ (err reference_required, none)
    | some r ↦
        let read = read_snapshot s (some r) now in
        if str_eq request.metric_name metric_name
        then (ok (demand_if read), record_request s "get_metrics" read.0 read.1 later)
        else (err unknown_metric, none)
  ]

-- The one metric that the server offers, with its target.
unfoldable pub get_metric_spec : Option ScaledObjectRef → Result ScalerError (String × ℤ)
get_metric_spec none = err names_required
get_metric_spec (some r) =
    if str_eq (trim_space r.name) "" || str_eq (trim_space r.namespace) ""
    then err names_required
    else ok (metric_name, pos 1)

-- Every message that the push stream sends.
pub stream_is_active : Option ScaledObjectRef → List Bool
stream_is_active r = false ∷ []
