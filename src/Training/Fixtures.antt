-- ===== src/Training/Fixtures.antt =====
-- A workload for the runs of the training and of the trainer.
use keda_replica_sense.Prelude.{pos, minute, true, false}
use keda_replica_sense.Prelude.Billionths.{Billionths, billionths, milli}
use keda_replica_sense.Domain.{SamplingWorkload}

abbrev pub workload : SamplingWorkload Billionths
workload = record {
  id = "w1";
  spec = record {
    key = record {
      cluster_id = "east";
      namespace = "shop";
      scaled_object_name = "web";
      predictive_trigger_name = "forecast";
    };
    scale_target = "web";
    bounds = record { min = pos 1; max = pos 20 };
    source = record {
      trigger_name = "rps";
      server_address = "prom";
      query = "q";
      threshold = milli 10000;
    };
    forecast = record {
      horizon = pos 600000000000;
      quantile = milli 950;
      training_window = pos 604800000000000;
      sampling_interval = minute;
      model_engine = "gru";
      business_timezone = "UTC";
      startup_latency = pos 60000000000;
      safety_buffer = pos 60000000000;
      immediate_training = true;
      clear_old_models = false;
    };
    source_fingerprint = "fp";
    policy_revision = "rev-1";
  };
}
