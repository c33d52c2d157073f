-- ===== src/Safety.antt =====
-- internal/safety/safety.go: the deterministic controls around an untrusted forecast, which are the
-- surge detector and the guardrails.
mod Surge
pub mod Guardrails
mod Tests
use keda_replica_sense.Prelude.{
  ℤ, pos, ltb_ℤ, String, Bool, true, false, ◌&&◌, ◌||◌, if◌then◌else◌, Float64,
}

pub record SurgeInput (W : Type 0) : Type 0 where
  pub current_value : W
  pub recent_baseline : W
  pub current_slope_per_minute : W
  pub historical_slope_p95 : W
  pub lead_time_minutes : W

pub record SurgePolicy (W : Type 0) : Type 0 where
  pub slope_multiplier : W
  pub baseline_multiplier : W
  pub confirmation_samples : ℤ
  pub max_multiplier : W

pub record SurgeResult (W : Type 0) : Type 0 where
  pub triggered : Bool
  pub demand : W
  pub reason : String

pub record GuardrailInput (W : Type 0) : Type 0 where
  pub desired : W
  pub current : W
  pub max_replicas : ℤ
  pub max_absolute_step : W
  pub max_percent_increase : W
  pub cluster_healthy : Bool
  pub capacity_allowed : Bool

module _ {W : Type 0} ⦃f : Float64 W⦄ where
  unfoldable pub default_surge_policy : SurgePolicy W
  default_surge_policy = record {
    slope_multiplier = f.of_int (pos 3);
    baseline_multiplier = f.ratio 3 2;
    confirmation_samples = pos 2;
    max_multiplier = f.ratio 3 2;
  }

  -- `if x <= 1 { x = fallback }`.
  unfoldable pub above_one : W → W → W
  above_one x fallback = if f.le x (f.of_int (pos 1)) then fallback else x

  unfoldable pub normalized_surge_policy : SurgePolicy W → SurgePolicy W
  unfolding default_surge_policy above_one
  normalized_surge_policy policy = record {
    slope_multiplier = above_one policy.slope_multiplier default_surge_policy.slope_multiplier;
    baseline_multiplier =
        above_one policy.baseline_multiplier default_surge_policy.baseline_multiplier;
    confirmation_samples =
        if ltb_ℤ policy.confirmation_samples (pos 1)
        then default_surge_policy.confirmation_samples
        else policy.confirmation_samples;
    max_multiplier = above_one policy.max_multiplier default_surge_policy.max_multiplier;
  }

  -- The two tests of `IsSurgeCandidate`, on a normalized policy.
  abbrev pub slope_abnormal : SurgeInput W → SurgePolicy W → Bool
  slope_abnormal i policy =
      f.le i.historical_slope_p95 (f.of_int (pos 0))
      || f.le (f.mul i.historical_slope_p95 policy.slope_multiplier) i.current_slope_per_minute

  abbrev pub baseline_abnormal : SurgeInput W → SurgePolicy W → Bool
  baseline_abnormal i policy =
      f.le (f.mul i.recent_baseline policy.baseline_multiplier) i.current_value

  unfoldable pub is_surge_candidate : SurgeInput W → SurgePolicy W → Bool
  is_surge_candidate i raw =
      let policy = normalized_surge_policy raw in
      if f.le i.current_slope_per_minute (f.of_int (pos 0))
        || f.le i.recent_baseline (f.of_int (pos 0))
      then false
      else slope_abnormal i policy && baseline_abnormal i policy

  abbrev pub no_surge : SurgeResult W
  no_surge = record { triggered = false; demand = f.of_int (pos 0); reason = "" }

  -- The demand at the end of the lead time, capped by the policy.
  unfoldable pub surge_demand : SurgeInput W → SurgePolicy W → W
  surge_demand i policy =
      let demand =
        f.add i.current_value
          (f.mul (f.max (f.of_int (pos 0)) i.current_slope_per_minute) i.lead_time_minutes) in
      if f.lt (f.of_int (pos 1)) policy.max_multiplier
      then f.min demand (f.mul i.current_value policy.max_multiplier)
      else demand

  unfoldable pub detect_surge : SurgeInput W → SurgePolicy W → SurgeResult W
  detect_surge i raw =
      let policy = normalized_surge_policy raw in
      if f.le i.lead_time_minutes (f.of_int (pos 0))
      then no_surge
      else if is_surge_candidate i policy
      then record {
        triggered = true;
        demand = surge_demand i policy;
        reason = "sustained_abnormal_slope_and_baseline";
      }
      else no_surge

  -- The two rate limits on a scale-up to `desired`.
  unfoldable pub rate_limit : GuardrailInput W → W → W
  rate_limit g desired =
      let limit =
        if f.lt (f.of_int (pos 0)) g.max_absolute_step
        then f.min desired (f.add g.current g.max_absolute_step)
        else desired in
      if f.lt (f.of_int (pos 0)) g.max_percent_increase && f.lt (f.of_int (pos 0)) g.current
      then f.min limit (
          f.mul g.current
            (f.add (f.of_int (pos 1)) (f.div g.max_percent_increase (f.of_int (pos 100)))))
      else limit

  unfoldable pub apply_guardrails : GuardrailInput W → W × String
  apply_guardrails g =
      let desired = f.min g.desired (f.of_int g.max_replicas) in
      if g.cluster_healthy
      then (if g.capacity_allowed
          then (if f.le desired g.current
              then (desired, "no_predictive_scale_up")
              else (rate_limit g desired, "rate_limited"))
          else (g.current, "capacity_unavailable"))
      else (g.current, "cluster_unhealthy")
