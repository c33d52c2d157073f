-- ===== src/Safety/Tests.antt =====
-- Runs and instances of the safety controls on decimal numbers.
use keda_replica_sense.Prelude.{pos, ◌≡◌, refl, true, false, arith, ◌≼◌, ◌↔◌}
use keda_replica_sense.Prelude.Billionths.{Billionths, billionths, milli, Billionths-IsOrdered}
use keda_replica_sense.Safety.{
  SurgeInput, SurgePolicy, GuardrailInput, apply_guardrails, detect_surge, rate_limit,
  is_surge_candidate, surge_demand, normalized_surge_policy,
}
use keda_replica_sense.Safety.Surge.{DefaultsAboveOne, IsSurge, detect_surge-IsSurge, surge-le-cap}
use keda_replica_sense.Safety.Guardrails.{
  IsComputable, IsGuarded, apply_guardrails-IsGuarded, current-le-apply_guardrails,
}

-- 10 replicas wanted, 4 running, 3 at a time at most.
abbrev scale_up : GuardrailInput Billionths
scale_up = record {
  desired = milli 10000;
  current = milli 4000;
  max_replicas = pos 8;
  max_absolute_step = milli 3000;
  max_percent_increase = milli 100000;
  cluster_healthy = true;
  capacity_allowed = true;
}

scale_up_limited : apply_guardrails scale_up ≡ (milli 7000, "rate_limited")
unfolding apply_guardrails billionths rate_limit
scale_up_limited = refl

scale_up_withheld :
    apply_guardrails (record scale_up { capacity_allowed = false })
    ≡ (milli 4000, "capacity_unavailable")
unfolding apply_guardrails
scale_up_withheld = refl

scale_up-IsComputable : IsComputable scale_up
unfolding billionths
scale_up-IsComputable = ground arith

apply_guardrails-IsGuarded_example :
    (scale_up.cluster_healthy ≡ false → (apply_guardrails scale_up).0 ≡ scale_up.current)
    × (scale_up.capacity_allowed ≡ false → (apply_guardrails scale_up).0 ≡ scale_up.current)
    × (scale_up.cluster_healthy ≡ true
        → scale_up.capacity_allowed ≡ true
        → IsGuarded scale_up (apply_guardrails scale_up).0)
apply_guardrails-IsGuarded_example =
    apply_guardrails-IsGuarded Billionths-IsOrdered scale_up scale_up-IsComputable

current-le-apply_guardrails_example : milli 4000 ≼ (apply_guardrails scale_up).0
unfolding billionths
current-le-apply_guardrails_example =
    current-le-apply_guardrails Billionths-IsOrdered scale_up scale_up-IsComputable refl refl

-- Demand doubles within two minutes over a flat baseline.
abbrev spike : SurgeInput Billionths
spike = record {
  current_value = milli 200000;
  recent_baseline = milli 100000;
  current_slope_per_minute = milli 50000;
  historical_slope_p95 = milli 2000;
  lead_time_minutes = milli 3000;
}

abbrev no_policy : SurgePolicy Billionths
no_policy = record {
  slope_multiplier = milli 0;
  baseline_multiplier = milli 0;
  confirmation_samples = pos 0;
  max_multiplier = milli 0;
}

spike_capped : (detect_surge spike no_policy).demand ≡ milli 300000
unfolding detect_surge normalized_surge_policy billionths is_surge_candidate surge_demand
spike_capped = refl

above_one : DefaultsAboveOne Billionths
unfolding billionths
above_one = ground arith

detect_surge-IsSurge_example :
    ((detect_surge spike no_policy).triggered ≡ true) ↔ IsSurge spike no_policy
detect_surge-IsSurge_example = detect_surge-IsSurge above_one spike no_policy

surge-le-cap_example :
    (detect_surge spike no_policy).demand
    ≼ billionths.mul (milli 200000) (normalized_surge_policy no_policy).max_multiplier
unfolding detect_surge normalized_surge_policy billionths is_surge_candidate
surge-le-cap_example =
    surge-le-cap above_one Billionths-IsOrdered spike no_policy refl refl refl refl
