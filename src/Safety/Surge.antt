-- ===== src/Safety/Surge.antt =====
-- What a detected surge means, and that normalizing a policy twice changes nothing.
use keda_replica_sense.Prelude.{
  pos, ◌≡◌, ◌⊎◌, refl, sym, ◌∙◌, Bool-cases, inl, inr, true, false, ◌↔◌, arith, Float64, IsOrdered,
  ◌≼◌, IsNumber,
}
use keda_replica_sense.Safety.{
  SurgeInput, SurgePolicy, normalized_surge_policy, is_surge_candidate, detect_surge, surge_demand,
  slope_abnormal, baseline_abnormal, above_one,
}

-- The two multipliers of the default policy, 3 and 1.5, are above 1.
pub record DefaultsAboveOne (W : Type 0) ⦃f : Float64 W⦄ : Type 0 where
  pub three_above : f.le (f.of_int (pos 3)) (f.of_int (pos 1)) ≡ false
  pub half_above : f.le (f.ratio 3 2) (f.of_int (pos 1)) ≡ false
  pub half_number : IsNumber (f.ratio 3 2)

module _ {W : Type 0} ⦃f : Float64 W⦄ where
  -- `m` is the configured multiplier where that is above one, and otherwise the default.
  pub record IsMultiplier (configured default m : W) : Type 0 where
    pub of_default : f.le configured (f.of_int (pos 1)) ≡ true → m ≡ default
    pub of_configured : f.le configured (f.of_int (pos 1)) ≡ false → m ≡ configured

  -- The growth is abnormal by the slope multiplier, or by any slope over a history that does not
  -- grow, and the value by the baseline multiplier.
  pub record IsSurge (i : SurgeInput W) (p : SurgePolicy W) : Type 0 where
    pub lead : f.le i.lead_time_minutes (f.of_int (pos 0)) ≡ false
    pub growing : f.le i.current_slope_per_minute (f.of_int (pos 0)) ≡ false
    pub based : f.le i.recent_baseline (f.of_int (pos 0)) ≡ false
    pub slope : W
    pub slope_multiplier : IsMultiplier p.slope_multiplier (f.of_int (pos 3)) slope
    pub steep :
        (i.historical_slope_p95 ≼ f.of_int (pos 0))
        ⊎ (f.mul i.historical_slope_p95 slope ≼ i.current_slope_per_minute)
    pub level : W
    pub level_multiplier : IsMultiplier p.baseline_multiplier (f.ratio 3 2) level
    pub high : f.mul i.recent_baseline level ≼ i.current_value

  -- The tests of the code, on a policy that is normalized.
  record PassesTests (i : SurgeInput W) (p : SurgePolicy W) : Type 0 where
    lead : f.le i.lead_time_minutes (f.of_int (pos 0)) ≡ false
    growing : f.le i.current_slope_per_minute (f.of_int (pos 0)) ≡ false
    based : f.le i.recent_baseline (f.of_int (pos 0)) ≡ false
    steep : slope_abnormal i p ≡ true
    high : baseline_abnormal i p ≡ true

  IsMultiplier-unique :
      (configured default m n : W)
      → IsMultiplier configured default m
      → IsMultiplier configured default n
      → m ≡ n
  IsMultiplier-unique configured default m n a b =
      elim (Bool-cases (f.le configured (f.of_int (pos 1)))) [
        | inl e ↦ a.of_default e ∙ sym (b.of_default e)
        | inr e ↦ a.of_configured e ∙ sym (b.of_configured e)
      ]

  above_one-IsMultiplier :
      (configured default : W) → IsMultiplier configured default (above_one configured default)
  unfolding above_one
  above_one-IsMultiplier configured default = record {
    of_default = λ e. rw e refl;
    of_configured = λ e. rw e refl;
  }

module _ {W : Type 0} ⦃f : Float64 W⦄ (d : DefaultsAboveOne W) where
  -- Where the default multipliers are above one, normalizing a policy a second time changes
  -- nothing.
  normalized_surge_policy_idem :
      (p : SurgePolicy W)
      → normalized_surge_policy (normalized_surge_policy p) ≡ normalized_surge_policy p
  unfolding normalized_surge_policy
  normalized_surge_policy_idem p = ground (arith, d.three_above, d.half_above)

  candidate-normalized :
      (i : SurgeInput W) (p : SurgePolicy W)
      → is_surge_candidate i (normalized_surge_policy p) ≡ is_surge_candidate i p
  unfolding is_surge_candidate
  candidate-normalized i p = ground (arith, normalized_surge_policy_idem p)

  demand-of_surge :
      (i : SurgeInput W) (p : SurgePolicy W)
      → (detect_surge i p).triggered ≡ true
      → (detect_surge i p).demand ≡ surge_demand i (normalized_surge_policy p)
  unfolding detect_surge
  demand-of_surge i p h = ground arith

  triggered_tests :
      (i : SurgeInput W) (p : SurgePolicy W)
      → (detect_surge i p).triggered ≡ true
      → PassesTests i (normalized_surge_policy p)
  unfolding detect_surge is_surge_candidate
  triggered_tests i p h = ground (arith, normalized_surge_policy_idem p)

  tests_trigger :
      (i : SurgeInput W) (p : SurgePolicy W)
      → PassesTests i (normalized_surge_policy p)
      → (detect_surge i p).triggered ≡ true
  unfolding detect_surge is_surge_candidate
  tests_trigger i p t = ground (arith, normalized_surge_policy_idem p)

  IsMultiplier-normalized :
      (p : SurgePolicy W)
      → IsMultiplier p.slope_multiplier
          (f.of_int (pos 3))
          (normalized_surge_policy p).slope_multiplier
        × IsMultiplier p.baseline_multiplier
            (f.ratio 3 2)
            (normalized_surge_policy p).baseline_multiplier
  unfolding normalized_surge_policy
  IsMultiplier-normalized p = (
    above_one-IsMultiplier p.slope_multiplier (f.of_int (pos 3)),
    above_one-IsMultiplier p.baseline_multiplier (f.ratio 3 2),
  )

  IsSurge-tests :
      (i : SurgeInput W) (p : SurgePolicy W)
      → PassesTests i (normalized_surge_policy p)
      → IsSurge i p
  IsSurge-tests i p t = record {
    lead = t.lead;
    growing = t.growing;
    based = t.based;
    slope = (normalized_surge_policy p).slope_multiplier;
    slope_multiplier = (IsMultiplier-normalized p).0;
    steep = ground (arith, t.steep);
    level = (normalized_surge_policy p).baseline_multiplier;
    level_multiplier = (IsMultiplier-normalized p).1;
    high = t.high;
  }

  tests-IsSurge :
      (i : SurgeInput W) (p : SurgePolicy W)
      → IsSurge i p
      → PassesTests i (normalized_surge_policy p)
  tests-IsSurge i p s =
      let slope = IsMultiplier-unique _ _ _ _ s.slope_multiplier (IsMultiplier-normalized p).0 in
      let level = IsMultiplier-unique _ _ _ _ s.level_multiplier (IsMultiplier-normalized p).1 in
      let steep = rw slope at s.steep in
      record {
        lead = s.lead;
        growing = s.growing;
        based = s.based;
        steep = ground (arith, steep);
        high = rw level at s.high;
      }

  -- Where the default multipliers are above one, a surge is reported exactly when the lead time,
  -- the slope and the baseline are not at or below nought, the slope is at least its historical
  -- 95th percentile times the slope multiplier or that percentile is at or below nought, and the
  -- value is at least the baseline times the baseline multiplier. A multiplier that is at most one
  -- stands for its default.
  pub detect_surge-IsSurge :
      (i : SurgeInput W) (p : SurgePolicy W) → ((detect_surge i p).triggered ≡ true) ↔ IsSurge i p
  detect_surge-IsSurge i p =
      (λ h. IsSurge-tests i p (triggered_tests i p h), λ s. tests_trigger i p (tests-IsSurge i p s))

  multiplier_above :
      (o : IsOrdered W) (p : SurgePolicy W)
      → IsNumber p.max_multiplier
      → f.lt (f.of_int (pos 1)) (normalized_surge_policy p).max_multiplier ≡ true
  unfolding normalized_surge_policy
  multiplier_above o p n = ground (
    arith,
    d.half_above,
    o.lt-eq-not-le (f.of_int (pos 1)) (f.ratio 3 2) (o.of_int_number (pos 1)) d.half_number,
    o.lt-eq-not-le (f.of_int (pos 1)) p.max_multiplier (o.of_int_number (pos 1)) n,
  )

  -- Where the default multipliers are above one and the numbers computed are not NaN, the demand
  -- of a reported surge is at most the current value times the normalized cap, whatever the slope
  -- and the lead time.
  pub surge-le-cap :
      (o : IsOrdered W) (i : SurgeInput W) (p : SurgePolicy W)
      → (detect_surge i p).triggered ≡ true
      → IsNumber p.max_multiplier
      → IsNumber (
          f.add i.current_value
            (f.mul (f.max (f.of_int (pos 0)) i.current_slope_per_minute) i.lead_time_minutes))
      → IsNumber (f.mul i.current_value (normalized_surge_policy p).max_multiplier)
      → (detect_surge i p).demand ≼ f.mul i.current_value (normalized_surge_policy p).max_multiplier
  unfolding surge_demand
  surge-le-cap o i p t n a m =
      rw (demand-of_surge i p t) (ground (arith, multiplier_above o p n, o.min-le_right _ _ a m))
