-- ===== src/Safety/Guardrails.antt =====
-- What the guardrails promise of the value that they pass on.
use keda_replica_sense.Prelude.{
  pos, ◌≡◌, ◌⊎◌, true, false, arith, Float64, IsOrdered, ◌≼◌, IsNumber,
}
use keda_replica_sense.Safety.{GuardrailInput, rate_limit, apply_guardrails}

module _ {W : Type 0} ⦃f : Float64 W⦄ where
  -- The ceiling that the percentage sets.
  abbrev pub percent_ceiling : GuardrailInput W → W
  percent_ceiling g =
      f.mul g.current (f.add (f.of_int (pos 1)) (f.div g.max_percent_increase (f.of_int (pos 100))))

  -- No number that the guardrails compute overflows to NaN.
  pub record IsComputable (g : GuardrailInput W) : Type 0 where
    pub desired_number : IsNumber g.desired
    pub current_number : IsNumber g.current
    pub step_number : IsNumber (f.add g.current g.max_absolute_step)
    pub percent_number : IsNumber (percent_ceiling g)

  pub record IsGuarded (g : GuardrailInput W) (v : W) : Type 0 where
    pub within_desired : v ≼ g.desired
    pub within_bounds : v ≼ f.of_int g.max_replicas
    pub within_step :
        f.lt (f.of_int (pos 0)) g.max_absolute_step ≡ true
        → (v ≼ g.current) ⊎ (v ≼ f.add g.current g.max_absolute_step)
    pub within_percent :
        f.lt (f.of_int (pos 0)) g.max_percent_increase ≡ true
        → f.lt (f.of_int (pos 0)) g.current ≡ true
        → (v ≼ g.current) ⊎ (v ≼ percent_ceiling g)

module _ {W : Type 0} ⦃f : Float64 W⦄ (o : IsOrdered W) (g : GuardrailInput W)
    (c : IsComputable g) where
  min-IsNumber : (x y : W) → IsNumber x → IsNumber y → IsNumber (f.min x y)
  min-IsNumber x y h k = (o.refl_of_le _ _ (o.min-le_left x y h k)).0

  rate_limit_bounds :
      (d : W)
      → IsNumber d
      → (rate_limit g d ≼ d)
        × (f.lt (f.of_int (pos 0)) g.max_absolute_step ≡ true
            → rate_limit g d ≼ f.add g.current g.max_absolute_step)
        × (f.lt (f.of_int (pos 0)) g.max_percent_increase ≡ true
            → f.lt (f.of_int (pos 0)) g.current ≡ true
            → rate_limit g d ≼ percent_ceiling g)
  unfolding rate_limit
  rate_limit_bounds d h =
      let step : W = f.add g.current g.max_absolute_step in
      let m : W = f.min d step in
      let mn : IsNumber m = min-IsNumber d step h c.step_number in
      ground (
        arith,
        o.min-le_left d step h c.step_number,
        o.min-le_right d step h c.step_number,
        o.min-le_left m (percent_ceiling g) mn c.percent_number,
        o.min-le_right m (percent_ceiling g) mn c.percent_number,
        o.min-le_left d (percent_ceiling g) h c.percent_number,
        o.min-le_right d (percent_ceiling g) h c.percent_number,
        o.le_trans (f.min m (percent_ceiling g)) m d,
        o.le_trans (f.min m (percent_ceiling g)) m step,
        h,
      )

  -- Where the numbers computed are not NaN, the value passed on is the current count when the
  -- cluster is unhealthy or has no room, and otherwise stays within the forecast, the replica
  -- bound and both rate limits; a limit that a scale-down meets does not bind it.
  pub apply_guardrails-IsGuarded :
      (g.cluster_healthy ≡ false → (apply_guardrails g).0 ≡ g.current)
      × (g.capacity_allowed ≡ false → (apply_guardrails g).0 ≡ g.current)
      × (g.cluster_healthy ≡ true → g.capacity_allowed ≡ true → IsGuarded g (apply_guardrails g).0)
  unfolding apply_guardrails
  apply_guardrails-IsGuarded =
      let bound : W = f.of_int g.max_replicas in
      let d : W = f.min g.desired bound in
      let bound_number : IsNumber bound = o.of_int_number g.max_replicas in
      let d_number : IsNumber d = min-IsNumber g.desired bound c.desired_number bound_number in
      let below : d ≼ g.desired = o.min-le_left g.desired bound c.desired_number bound_number in
      let inside : d ≼ bound = o.min-le_right g.desired bound c.desired_number bound_number in
      ground (
        arith,
        rate_limit_bounds d d_number,
        o.le_trans (rate_limit g d) d g.desired,
        o.le_trans (rate_limit g d) d bound,
        below,
        inside,
      )

  le_of_lt : (x y : W) → f.lt x y ≡ true → x ≼ y
  le_of_lt x y h =
      let (nx, ny) = o.number_of_lt x y h in
      ground (arith, o.lt-eq-not-le x y nx ny, o.le_total x y nx ny)

  step_above :
      f.lt (f.of_int (pos 0)) g.max_absolute_step ≡ true
      → g.current ≼ f.add g.current g.max_absolute_step
  step_above h = o.le-add_nonneg g.current g.max_absolute_step (le_of_lt _ _ h) c.step_number

  percent_above :
      f.lt (f.of_int (pos 0)) g.max_percent_increase ≡ true
      → f.lt (f.of_int (pos 0)) g.current ≡ true
      → g.current ≼ percent_ceiling g
  percent_above h k =
      let factor : W = f.div g.max_percent_increase (f.of_int (pos 100)) in
      let whole = (o.number_of_mul _ _ c.percent_number).1 in
      o.le-mul_ge_one g.current (f.add (f.of_int (pos 1)) factor) (le_of_lt _ _ k)
        (o.le-add_nonneg (f.of_int (pos 1)) factor
          (o.div_nonneg _ _ (le_of_lt _ _ h) (o.of_int_pos 99) (o.number_of_add _ _ whole).1) whole)
        c.percent_number

  -- Where the numbers computed are not NaN, a scale-up is limited but never turned into a scale-
  -- down: at a forecast that is at least the current count, with the current count within the
  -- bound, so is the value passed on.
  pub current-le-apply_guardrails :
      g.current ≼ g.desired
      → g.current ≼ f.of_int g.max_replicas
      → g.current ≼ (apply_guardrails g).0
  unfolding apply_guardrails rate_limit
  current-le-apply_guardrails h k =
      let bound : W = f.of_int g.max_replicas in
      let d : W = f.min g.desired bound in
      let step : W = f.add g.current g.max_absolute_step in
      let above : g.current ≼ d = o.le-min g.desired bound g.current h k in
      ground (
        arith,
        above,
        step_above,
        percent_above,
        o.le-min d step g.current,
        o.le-min d (percent_ceiling g) g.current,
        o.le-min (f.min d step) (percent_ceiling g) g.current,
        c.current_number,
      )
