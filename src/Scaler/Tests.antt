-- ===== src/Scaler/Tests.antt =====
-- Runs and instances of the scaler endpoint.
use keda_replica_sense.Prelude.{
  Time, trim_space, read_text, pos, minute, ◌≡◌, refl, ◌⊎◌, some, List, [], ◌∷◌, ok, true, arith,
  sub_time,
}
use keda_replica_sense.Prelude.Billionths.{Billionths, billionths, milli, Billionths-IsOrdered}
use keda_replica_sense.Scaler.{
  ForecastSnapshot, Server, ScaledObjectRef, GetMetricsRequest, get_metrics, is_active,
  read_snapshot, metric_name, snapshot_fresh,
}
use keda_replica_sense.Scaler.Freshness.{IsServable, get_metrics-IsServable, is_active-get_metrics}
use keda_replica_sense.Scaler.Cache.{
  SnapshotCache, SnapshotWithLookup, refresh, latest_snapshot, last_with, latest_snapshot-refresh,
}

abbrev forecast_of_five : ForecastSnapshot Billionths
forecast_of_five = record {
  cluster_id = "east";
  workload_id = "w1";
  source_fingerprint = "fp";
  generated_at = pos 1000000000000;
  observed_at = pos 990000000000;
  model_engine = "gru";
  forecast_horizon = minute;
  forecast_p50 = milli 4000;
  forecast_p95 = milli 5000;
  surge_demand = milli 0;
  safe_demand = milli 5000;
  safety_reason = "rate_limited";
}

abbrev server : Server Billionths
server = record {
  cluster_id = "east";
  snapshot_reader = some (λ key. some forecast_of_five);
  snapshot_max_age = pos 0;
  source_max_age = pos 0;
  observed = true;
}

abbrev reference : ScaledObjectRef
reference = record {
  name = "web";
  namespace = "shop";
  scaler_metadata = ("sourceTrigger", " rps ") ∷ [];
}

abbrev request : GetMetricsRequest
request = record { scaled_object_ref = some reference; metric_name = metric_name }

-- A minute after the forecast.
abbrev soon : Time
soon = pos 1060000000000

served : (get_metrics server (some request) soon soon).0 ≡ ok (milli 5000)
unfolding get_metrics read_snapshot trim_space read_text snapshot_fresh billionths sub_time
served = refl

-- Three minutes after it.
unserved :
    (get_metrics server (some request) (pos 1180000000000) (pos 1180000000000)).0 ≡ ok (milli 0)
unfolding get_metrics read_snapshot trim_space read_text snapshot_fresh billionths sub_time
unserved = refl

get_metrics-IsServable_example :
    (milli 5000 ≡ billionths.of_int (pos 0))
    ⊎ ((snapshot : ForecastSnapshot Billionths) × IsServable server reference soon snapshot
        × (milli 5000 ≡ snapshot.safe_demand))
get_metrics-IsServable_example =
    get_metrics-IsServable server (ground arith) (ground arith) request reference soon soon
      (milli 5000) refl served

is_active-get_metrics_example :
    (is_active server (some reference) soon soon).0
    ≡ billionths.lt (billionths.of_int (pos 0)) (milli 5000)
is_active-get_metrics_example =
    is_active-get_metrics server Billionths-IsOrdered request reference soon soon (milli 5000) refl
      served

abbrev cache : SnapshotCache Billionths
cache = record { cluster_id = "east"; has_lister = true; entries = [] }

abbrev listed : List (SnapshotWithLookup Billionths)
listed =
    record {
      key = record {
        cluster_id = "east";
        namespace = "shop";
        scaled_object = "web";
        source_trigger = "rps";
      };
      snapshot = forecast_of_five;
    }
    ∷ []

latest_snapshot-refresh_example :
    latest_snapshot (refresh cache (some listed)).0 (record {
      cluster_id = "east";
      namespace = "shop";
      scaled_object = "web";
      source_trigger = "rps";
    })
    ≡ last_with
        (record {
          cluster_id = "east";
          namespace = "shop";
          scaled_object = "web";
          source_trigger = "rps";
        })
        listed
unfolding refresh
latest_snapshot-refresh_example =
    latest_snapshot-refresh cache listed
      (record {
        cluster_id = "east";
        namespace = "shop";
        scaled_object = "web";
        source_trigger = "rps";
      })
      refl
