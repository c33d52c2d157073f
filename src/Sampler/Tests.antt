-- ===== src/Sampler/Tests.antt =====
-- Runs and instances of the sampler.
use mathlib.Core.List.{reverse}
use mathlib.Core.List.Perm
use keda_replica_sense.Prelude.{
  ◌++◌, ◌%◌, quot, truncate, rem, ◌==◌, if◌then◌else◌, none, ◌/◌, pos, ◌+ℤ◌, ◌-ℤ◌, ◌*ℤ◌, minute,
  add_time, mul_dur, wrap64, mod_floor, true, false, some, [], ◌∷◌, ◌≡◌, ◌↔◌, refl, arith,
}
use keda_replica_sense.Prelude.Billionths.{Billionths, milli}
use keda_replica_sense.Domain.{SamplingWorkload}
use keda_replica_sense.Sampler.Backfill.{Backfiller, chunk_span, query_and_store, fetch_from}
use keda_replica_sense.Sampler.Backfill.Chunks.{IsComplete, query_and_store-IsComplete}
use keda_replica_sense.Sampler.Run.{Service, Marks, World, not_recovered, unix_second, run_once}
use keda_replica_sense.Sampler.Due.{is_due}
use keda_replica_sense.Sampler.Due.Seconds.{delay, is_due-delay}

abbrev workload : SamplingWorkload Billionths
workload = record {
  id = "w1";
  spec = record {
    key = record {
      cluster_id = "east";
      namespace = "shop";
      scaled_object_name = "web";
      predictive_trigger_name = "forecast";
    };
    scale_target = "web";
    bounds = record { min = pos 1; max = pos 20 };
    source = record {
      trigger_name = "rps";
      server_address = "prom";
      query = "q";
      threshold = milli 10000;
    };
    forecast = record {
      horizon = pos 600000000000;
      quantile = milli 950;
      training_window = pos 604800000000000;
      sampling_interval = minute;
      model_engine = "gru";
      business_timezone = "UTC";
      startup_latency = pos 60000000000;
      safety_buffer = pos 60000000000;
      immediate_training = false;
      clear_old_models = false;
    };
    source_fingerprint = "fp";
    policy_revision = "rev-1";
  };
}

-- The source has one value for each range.
abbrev backfiller : Backfiller Billionths
backfiller = record {
  configured = true;
  coverage = λ start stop.
      some (record { oldest_observed_at = pos 0; newest_observed_at = pos 0; count = pos 0 });
  query_range = λ start stop. some (record { observed_at = stop; value = milli 1000 } ∷ []);
  upsert = λ samples. true;
  recovery_window = pos 0;
}

-- Ten thousand minutes take two chunks.
two_chunks :
    (query_and_store backfiller workload (pos 0) (pos 600000000000000)).0
    ≡ (pos 0, pos 599940000000000) ∷ (pos 599940000000000, pos 600000000000000) ∷ []
unfolding query_and_store fetch_from chunk_span mul_dur wrap64 mod_floor add_time ◌+ℤ◌ ◌-ℤ◌ ◌*ℤ◌
two_chunks = refl

query_and_store-IsComplete_example :
    IsComplete
      (chunk_span minute)
      (pos 0)
      (pos 600000000000000)
      (query_and_store backfiller workload (pos 0) (pos 600000000000000))
unfolding chunk_span mul_dur wrap64 mod_floor ◌*ℤ◌ ◌+ℤ◌
query_and_store-IsComplete_example =
    query_and_store-IsComplete backfiller workload (pos 0) (pos 600000000000000) (ground arith)
      (ground arith)

is_due-delay_example :
    (is_due (pos 0) (pos 60000000000) 12345 (pos 1700000025) ≡ true)
    ↔ (1700000025 % (60000000000 / 1000000000) ≡ delay 60000000000 12345)
is_due-delay_example =
    is_due-delay 60000000000 12345 1700000025 (ground arith) (ground arith) (ground arith)

-- The source answers at the second attempt.
abbrev service : Service
service = record {
  configured = true;
  max_retries = pos 2;
  initial_backoff = pos 1000000;
  jitter_window = pos 1000000000;
  has_backfiller = true;
}

abbrev world : World Billionths
world = record {
  listed = some (workload ∷ []);
  ensure_history = λ w. true;
  hash = λ id. 0;
  admitted = λ w. true;
  answer = λ w attempt. if attempt == 1 then some (milli 1000) else none;
  sleeps = λ duration. true;
  recover = λ w. false;
  upsert = λ samples. true;
  completion = reverse;
  merged = λ unlocked locked. unlocked ++ locked;
}

abbrev failed_before : Marks
failed_before = record { bootstrapped = []; failed = "w1:fp" ∷ [] }

-- The sample is kept although its history is not recovered.
kept_sample :
    (run_once service world (pos 62135596800000000000) failed_before).failures
    ≡ not_recovered "w1" ∷ []
unfolding run_once is_due quot unix_second ◌-ℤ◌ truncate mod_floor wrap64 rem mul_dur ◌*ℤ◌
kept_sample = refl
