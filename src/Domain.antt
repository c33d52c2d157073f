-- ===== src/Domain.antt =====
-- internal/domain/workload.go, and the sampling view of a workload in internal/workloadstore.
use keda_replica_sense.Prelude.{String, Duration, add_dur, ℤ, Bool}

pub record WorkloadKey : Type 0 where
  pub cluster_id : String
  pub namespace : String
  pub scaled_object_name : String
  pub predictive_trigger_name : String

-- int32 bounds.
pub record ReplicaBounds : Type 0 where
  pub min : ℤ
  pub max : ℤ

pub record PrometheusSource (W : Type 0) : Type 0 where
  pub trigger_name : String
  pub server_address : String
  pub query : String
  pub threshold : W

pub record ForecastConfig (W : Type 0) : Type 0 where
  pub horizon : Duration
  pub quantile : W
  pub training_window : Duration
  pub sampling_interval : Duration
  pub model_engine : String
  pub business_timezone : String
  pub startup_latency : Duration
  pub safety_buffer : Duration
  pub immediate_training : Bool
  pub clear_old_models : Bool

unfoldable pub decision_horizon : {W : Type 0} → ForecastConfig W → Duration
decision_horizon f = add_dur (add_dur f.horizon f.startup_latency) f.safety_buffer

pub record WorkloadSpec (W : Type 0) : Type 0 where
  pub key : WorkloadKey
  pub scale_target : String
  pub bounds : ReplicaBounds
  pub source : PrometheusSource W
  pub forecast : ForecastConfig W
  pub source_fingerprint : String
  pub policy_revision : String

pub record SamplingWorkload (W : Type 0) : Type 0 where
  pub id : String
  pub spec : WorkloadSpec W
