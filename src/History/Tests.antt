-- ===== src/History/Tests.antt =====
-- Runs and instances of the repair.
use keda_replica_sense.Prelude.{
  ℕ, ℤ, pos, ◌+ℤ◌, ◌-ℤ◌, ◌*ℤ◌, minute, add_time, sub_time, mul_dur, wrap64, mod_floor, truncate,
  saturate64, quot, rem, true, false, some, [], ◌∷◌, List, get_elem?, ◌≡◌, ◌⊎◌, refl,
}
use keda_replica_sense.Prelude.Billionths.{Billionths, milli, billionths}
use keda_replica_sense.Domain.{SamplingWorkload}
use keda_replica_sense.Dataset.{Sample}
use keda_replica_sense.Sampler.Backfill.{TimedValue, build_sample}
use keda_replica_sense.History.Plan.{max_points, plan_for, plan_runs}
use keda_replica_sense.History.Plan.Covered.{Asked, Ascends}
use keda_replica_sense.History.Plan.Shards.{plan_for-covers}
use keda_replica_sense.History.Repair.{
  World, Progress, go, stop, asked, submitted, cancelled, default_policy, repair, slot_of,
  round_time, query_for, is_point, mark_present, count_missing, accept_values, try_query,
  store_values, repair_part, repair_parts, is_seen,
}
use keda_replica_sense.History.Repair.Complete.{IsFull, repair-IsComplete}
use keda_replica_sense.History.Repair.Additive.{OnStep, IsAdditive, repair-IsAdditive}

abbrev workload : SamplingWorkload Billionths
workload = record {
  id = "w1";
  spec = record {
    key = record {
      cluster_id = "east";
      namespace = "shop";
      scaled_object_name = "web";
      predictive_trigger_name = "forecast";
    };
    scale_target = "web";
    bounds = record { min = pos 1; max = pos 20 };
    source = record {
      trigger_name = "rps";
      server_address = "http://prom";
      query = "q";
      threshold = milli 10000;
    };
    forecast = record {
      horizon = pos 600000000000;
      quantile = milli 950;
      training_window = pos 240000000000;
      sampling_interval = minute;
      model_engine = "gru";
      business_timezone = "UTC";
      startup_latency = pos 0;
      safety_buffer = pos 0;
      immediate_training = false;
      clear_old_models = false;
    };
    source_fingerprint = "fp";
    policy_revision = "rev-1";
  };
}

abbrev start : ℤ
start = pos 6000000000000

abbrev finish : ℤ
finish = pos 6240000000000

abbrev value_at : ℕ → TimedValue Billionths
value_at slot = record { observed_at = start +ℤ pos 60000000000 *ℤ pos slot; value = milli 4000 }

abbrev point : ℕ → Sample Billionths
unfolding build_sample
point slot = build_sample workload (value_at slot)

-- Slots 1 and 2 of four are missing; the source knows them, 400 microseconds late.
abbrev late : ℕ → TimedValue Billionths
late slot = record {
  observed_at = start +ℤ pos 60000000000 *ℤ pos slot +ℤ pos 400000;
  value = milli 4000;
}

abbrev world : World Billionths
world = record {
  first_listing = some (point 0 ∷ point 3 ∷ []);
  last_listing = some (point 0 ∷ point 1 ∷ point 2 ∷ point 3 ∷ []);
  is_cancelled = λ n. false;
  answer = λ n. some (late 1 ∷ late 2 ∷ []);
  insert = λ n samples. some (pos 2);
}

abbrev repaired : Progress Billionths
repaired = record {
  report = record {
    start = start;
    stop = finish;
    expected = 4;
    missing_before = 2;
    missing_after = 0;
    inserted = pos 2;
    requests = 1;
  };
  log =
      submitted (point 1 ∷ point 2 ∷ [])
      ∷ asked (record {
        server_address = "http://prom";
        query = "q";
        start = pos 6060000000000;
        stop = pos 6120000000000;
        step = minute;
      })
      ∷ [];
}

run : repair workload start finish world default_policy true ≡ go repaired tt
unfolding repair plan_for plan_runs slot_of round_time query_for is_point mark_present count_missing
    accept_values try_query store_values repair_part repair_parts is_seen default_policy billionths
    build_sample ◌+ℤ◌ ◌-ℤ◌ ◌*ℤ◌ add_time sub_time mul_dur wrap64 mod_floor truncate saturate64 quot
    rem
run = refl

repair-IsComplete_example :
    (repaired.report.missing_after ≡ 0)
    × ((listing : List (Sample Billionths)) × ((world.first_listing ≡ some listing)
          ⊎ (world.last_listing ≡ some listing))
        × IsFull workload start finish listing)
repair-IsComplete_example = repair-IsComplete workload start finish world default_policy true run

repair-IsAdditive_example :
    OnStep
      (IsAdditive workload start finish world)
      (repair workload start finish world default_policy true)
repair-IsAdditive_example = repair-IsAdditive workload start finish world default_policy true

plan_for-covers_example :
    ((k : ℕ)
      → get_elem? (true ∷ false ∷ true ∷ []) k ≡ some true
      → Asked k (plan_for (true ∷ false ∷ true ∷ [])))
    × Ascends max_points 0 3 (plan_for (true ∷ false ∷ true ∷ []))
plan_for-covers_example = plan_for-covers (true ∷ false ∷ true ∷ [])

-- A cancelled context stops the repair before its first request.
cancelled_run :
    repair workload start finish (record world { is_cancelled = λ n. true }) default_policy true
    ≡ stop
        (record {
          report = record repaired.report { missing_after = 2; inserted = pos 0; requests = 0 };
          log = [];
        })
        cancelled
unfolding repair plan_for plan_runs slot_of round_time query_for is_point mark_present count_missing
    accept_values try_query store_values repair_part repair_parts is_seen default_policy billionths
    build_sample ◌+ℤ◌ ◌-ℤ◌ ◌*ℤ◌ add_time sub_time mul_dur wrap64 mod_floor truncate saturate64 quot
    rem
cancelled_run = refl
