-- ===== src/Controller/Recovery/Tests.antt =====
-- Runs and instances of the HPA recovery.
use keda_replica_sense.Prelude.{
  add_time, String, ◌-◌, ◌*◌, ◌^◌, pos, ◌+ℤ◌, ◌≤ℤ◌, ◌≡◌, refl, some, List, [], ◌∷◌, true, false,
  arith,
}
use Prim.Native.Nat.{min}
use keda_replica_sense.Controller.Recovery.{
  Key, ScaledObject, Hpa, World, HpaRecovery, Scan, found, repair, check, attempt, state_at,
  put_state, probe_all, visit_all, visit, expected_metrics, owned_recovery_hpa, missing_hpa_metrics,
  candidate_metrics, has_metric, metric_at, same_key,
}
use keda_replica_sense.Controller.Recovery.Backoff.{double_up, backoff, backoff-eq-min, longest}
use keda_replica_sense.Controller.Recovery.Throttle.{
  IsJustified, repair-IsJustified, requests_apart,
}
use keda_replica_sense.Controller.Recovery.Accounts.{IsAccounted, check-IsAccounted}

abbrev web : Key
web = record { namespace = "shop"; name = "web" }

abbrev web_object : ScaledObject
web_object = record {
  key = web;
  uid = "object-1";
  deleting = false;
  paused = false;
  using_modifiers = false;
  trigger_names = "rps" ∷ "forecast" ∷ [];
  candidates = record { trigger_name = "forecast"; has_spec = true } ∷ [];
  configured_hpa_name = "";
  status_hpa_name = "";
}

-- The HPA that KEDA made without the predictive metric.
abbrev web_hpa : Hpa
web_hpa = record {
  name = "keda-hpa-web";
  uid = "hpa-1";
  deleting = false;
  controller = some (record {
    api_version = "keda.sh/v1alpha1";
    kind = "ScaledObject";
    name = "web";
    uid = "object-1";
  });
  metrics = some "s0-rps" ∷ [];
}

abbrev calm_world : World
calm_world = record {
  get_hpa = λ namespace name. found web_hpa;
  probe = λ key metric. true;
  patch = λ hpa. true;
}

abbrev recovery : HpaRecovery
recovery = record { interval = pos 30000000000; observed = true; scheme = "keda.sh/v1alpha1" }

abbrev start : Scan
start = record { states = []; seen = []; requested = 0; failures = []; log = [] }

abbrev lacking : List String
lacking = "s1-replicasense_predictive" ∷ []

check_requests : (check recovery calm_world (pos 1000) [] (web_object ∷ [])).requested ≡ 1
unfolding check visit_all visit expected_metrics owned_recovery_hpa missing_hpa_metrics repair
    attempt probe_all candidate_metrics has_metric metric_at
check_requests = refl

first_request : (repair recovery calm_world (pos 1000) web web_hpa lacking start).requested ≡ 1
unfolding repair attempt probe_all
first_request = refl

repair-IsJustified_example :
    IsJustified recovery calm_world
      (pos 1000)
      web
      web_hpa
      lacking
      start
      (repair recovery calm_world (pos 1000) web web_hpa lacking start)
repair-IsJustified_example =
    repair-IsJustified recovery calm_world (pos 1000) web web_hpa lacking start first_request

-- The next scan half a minute later.
abbrev half_minute : Scan
half_minute = record start {
  states = (repair recovery calm_world (pos 1000) web web_hpa lacking start).states;
}

second_request :
    (repair recovery calm_world (pos 30000001000) web web_hpa lacking half_minute).requested ≡ 1
unfolding repair attempt probe_all state_at put_state backoff same_key add_time ◌+ℤ◌ double_up
second_request = refl

requests_apart_example : (pos 1000 +ℤ pos 30000000000) ≤ℤ pos 30000001000
requests_apart_example =
    requests_apart recovery calm_world calm_world (pos 1000) (pos 30000001000) 30000000000 refl
      (ground arith) (ground arith) web web_hpa web_hpa lacking lacking start half_minute
      first_request refl refl second_request

backoff-eq-min_example :
    backoff (pos 30000000000) 4 ≡ pos (min (30000000000 * 2 ^ (4 - 1)) (longest 30000000000))
backoff-eq-min_example = backoff-eq-min 30000000000 4 (ground arith) (ground arith)

check-IsAccounted_example : IsAccounted (check recovery calm_world (pos 1000) [] (web_object ∷ []))
check-IsAccounted_example = check-IsAccounted recovery calm_world (pos 1000) [] (web_object ∷ [])
