-- ===== src/Forecaster/Service/Guarded.antt =====
-- What a stored forecast rests on, and what it may ask for.
use keda_replica_sense.Prelude.{
  sym, subst, pos, leb_ℤ, wrap64, neg, Time, truncate, add_time, List, Bool, true, false, ◌||◌, not,
  Option, none, some, is_some, Result, ok, err, >>=-eq-ok, ok_injective, ◌≡◌, refl, ◌⊎◌, inl, inr,
  arith, Bool-cases, Float64, IsOrdered, ◌≼◌, IsNumber,
}
use keda_replica_sense.Domain.{SamplingWorkload}
use keda_replica_sense.Dataset.{Sample}
use keda_replica_sense.Dataset.Quality.{validate_fresh, validate}
use keda_replica_sense.Dataset.Quality.Valid.{
  IsFresh, validate_fresh-IsFresh, IsValid, validate-IsValid,
}
use keda_replica_sense.Dataset.Inference.{InferenceHistory}
use keda_replica_sense.Safety.{SurgeResult, GuardrailInput, apply_guardrails}
use keda_replica_sense.Safety.Guardrails.{
  IsComputable, IsGuarded, apply_guardrails-IsGuarded, current-le-apply_guardrails,
}
use keda_replica_sense.Scaler.{ForecastSnapshot}
use keda_replica_sense.Forecaster.Service.{
  Service, ForecastWorld, Inference, ForecastError, ensure, from_option, relabel, infer, decide,
  forecast, snapshot_of, demand_of, surge_of, current_of, has_estimates, guardrail_input,
  model_input, valid_prediction, quality_policy, lookback_of, request_of, newest_of, predict,
  infer_from, model_error, model_unavailable, source_error, unknown_timezone, invalid_prediction,
  invalid_threshold, Model, engine_model, stale_source, insufficient_history,
}

ensure_ok : (b : Bool) (e : ForecastError) (u : Unit {0}) → ensure b e ≡ ok u → b ≡ true
ensure_ok true e u h = refl
ensure_ok false e u h = cc

from_option_ok :
    {A : Type 0} (e : ForecastError) (o : Option A) (a : A) → from_option e o ≡ ok a → o ≡ some a
from_option_ok e none a h = cc
from_option_ok e (some b) a h = cc

relabel_ok :
    {E A : Type 0} (g : E → ForecastError) (r : Result E A) (a : A) → relabel g r ≡ ok a → r ≡ ok a
relabel_ok g (err e) a h = cc
relabel_ok g (ok b) a h = cc

module _ {W : Type 0} ⦃f : Float64 W⦄ (s : Service W) (world : ForecastWorld W)
    (w : SamplingWorkload W) (now : Time) where
  abbrev pub window_end : Time
  window_end = truncate now w.spec.forecast.sampling_interval

  abbrev pub window_start : Time
  window_start = add_time window_end (wrap64 (neg w.spec.forecast.training_window))

  -- The evidence that an inference has passed.
  pub record IsInferred (i : Inference W) : Type 0 where
    pub model : Model W
    pub chosen : engine_model s world w ≡ some model
    pub listed : world.list_samples window_start window_end ≡ some i.observed
    pub fresh : IsFresh window_end (quality_policy s w model) i.observed
    pub input :
        model_input s i.observed (quality_policy s w model) (lookback_of s w model) ≡ ok i.input
    pub valid : IsValid (quality_policy s w model) i.input.samples
    pub predicted : model.predict_samples i.input.samples (request_of s w) ≡ some i.prediction
    pub demand : valid_prediction s i.prediction ≡ true
    pub newest : i.newest ≡ newest_of s i.observed

  -- What the prediction adds.
  record IsPredicted (model : Model W) (observed : List (Sample W)) (input : InferenceHistory W)
      (i : Inference W) : Type 0 where
    same_observed : i.observed ≡ observed
    same_input : i.input ≡ input
    predicted : model.predict_samples input.samples (request_of s w) ≡ some i.prediction
    demand : valid_prediction s i.prediction ≡ true
    newest : i.newest ≡ newest_of s observed

  predict-IsPredicted :
      (model : Model W) (observed : List (Sample W)) (input : InferenceHistory W) (i : Inference W)
      → predict s world w model observed input ≡ ok i
      → IsPredicted model observed input i
  unfolding predict
  predict-IsPredicted model observed input i e =
      let (u, l, e1) =
        >>=-eq-ok (ensure (world.has_location w.spec.forecast.business_timezone) unknown_timezone) _
          e in
      let (prediction, p, e2) =
        >>=-eq-ok (from_option model_error (model.predict_samples input.samples (request_of s w))) _
          e1 in
      let (u2, q, e3) =
        >>=-eq-ok (ensure (valid_prediction s prediction) invalid_prediction) _ e2 in
      let (u3, t, e4) =
        >>=-eq-ok (ensure (not (f.le w.spec.source.threshold (f.of_int (pos 0)))) invalid_threshold)
          _ e3 in
      subst (IsPredicted model observed input) (ok_injective e4) (record {
        same_observed = refl;
        same_input = refl;
        predicted = from_option_ok _ _ prediction p;
        demand = ensure_ok _ _ u2 q;
        newest = refl;
      })

  infer_from-IsInferred :
      (model : Model W) (observed : List (Sample W)) (i : Inference W)
      → engine_model s world w ≡ some model
      → world.list_samples window_start window_end ≡ some observed
      → infer_from s world w window_end observed model ≡ ok i
      → IsInferred i
  unfolding infer_from
  infer_from-IsInferred model observed i m o e =
      let policy = quality_policy s w model in
      let (u, c, e1) =
        >>=-eq-ok (relabel stale_source (validate_fresh observed window_end policy)) _ e in
      let (input, d, e2) = >>=-eq-ok (model_input s observed policy (lookback_of s w model)) _ e1 in
      let (u', v, e3) =
        >>=-eq-ok (relabel insufficient_history (validate input.samples policy)) _ e2 in
      let p = predict-IsPredicted model observed input i e3 in
      let same = p.same_observed in
      let input_same = p.same_input in
      record {
        model = model;
        chosen = m;
        listed = rw same o;
        fresh =
            rw same (
              (validate_fresh-IsFresh observed window_end policy).0
                (relabel_ok stale_source _ u c));
        input = rw (same, input_same) d;
        valid =
            rw input_same
              ((validate-IsValid policy input.samples).0 (relabel_ok insufficient_history _ u' v));
        predicted = rw input_same p.predicted;
        demand = p.demand;
        newest = rw same p.newest;
      }

  infer-IsInferred : (i : Inference W) → infer s world w now ≡ ok i → IsInferred i
  unfolding infer
  infer-IsInferred i e =
      let passed : (not s.configured || leb_ℤ w.spec.forecast.sampling_interval (pos 0)) ≡ false =
        ground arith in
      let (observed, a, e1) =
        >>=-eq-ok (from_option source_error (world.list_samples window_start window_end)) _
          (rw passed at e) in
      let (model, b, e2) =
        >>=-eq-ok (from_option model_unavailable (engine_model s world w)) _ e1 in
      infer_from-IsInferred model observed i (from_option_ok _ _ model b)
        (from_option_ok _ _ observed a) e2

  -- A stored forecast and what it rests on.
  pub record IsForecast (snapshot : ForecastSnapshot W) : Type 0 where
    pub inference : Inference W
    pub inferred : IsInferred inference
    pub surge : SurgeResult W
    pub current : W
    pub read : current_of s w ≡ some current
    pub observable : (not (has_estimates s inference) || is_some s.current_replicas) ≡ true
    pub built : snapshot ≡ snapshot_of s w now inference (demand_of s inference surge) current
    pub stored : world.save snapshot ≡ true

  -- A forecast that comes back is stored, and rests on the observations of the window, of which the
  -- newest is no later than the window's end and no older than the maximum gap; on a model input made
  -- of them that passes the quality rules; on predictions of the chosen model for that input which
  -- are finite and not negative; and on a current count, observed where the input has estimates.
  pub forecast-IsForecast :
      (snapshot : ForecastSnapshot W) → forecast s world w now ≡ ok snapshot → IsForecast snapshot
  unfolding forecast decide
  forecast-IsForecast snapshot e =
      let (i, a, e1) = >>=-eq-ok (infer s world w now) _ e in
      let (surge, b, e2) = >>=-eq-ok (from_option _ (surge_of s w i.observed)) _ e1 in
      let (current, c, e3) = >>=-eq-ok (from_option _ (current_of s w)) _ e2 in
      let (u, d, e4) = >>=-eq-ok (ensure _ _) _ e3 in
      let built = snapshot_of s w now i (demand_of s i surge) current in
      let (u', v, e5) = >>=-eq-ok (ensure (world.save built) _) _ e4 in
      record {
        inference = i;
        inferred = infer-IsInferred i a;
        surge = surge;
        current = current;
        read = from_option_ok _ _ current c;
        observable = ensure_ok _ _ u d;
        built = sym (ok_injective e5);
        stored = rw (← ok_injective e5) (ensure_ok _ _ u' v);
      }

module _ {W : Type 0} ⦃f : Float64 W⦄ (o : IsOrdered W) where
  min-IsNumber : (x y : W) → IsNumber x → IsNumber y → IsNumber (f.min x y)
  min-IsNumber x y h k = (o.refl_of_le _ _ (o.min-le_left x y h k)).0

  lt-min : (z x y : W) → f.lt z x ≡ true → f.lt z y ≡ true → f.lt z (f.min x y) ≡ true
  lt-min z x y h k =
      let (nz, nx) = o.number_of_lt z x h in
      let ny : IsNumber y = (o.number_of_lt z y k).1 in
      let nm : IsNumber (f.min x y) = min-IsNumber x y nx ny in
      ground (
        arith,
        o.lt-eq-not-le z x nz nx,
        o.lt-eq-not-le z y nz ny,
        o.lt-eq-not-le z (f.min x y) nz nm,
        o.le_total x y nx ny,
        o.le-min x y x,
        o.le-min x y y,
        o.le_trans x (f.min x y) z,
        o.le_trans y (f.min x y) z,
        nx,
        ny,
      )

module _ {W : Type 0} ⦃f : Float64 W⦄ (o : IsOrdered W) (s : Service W) (w : SamplingWorkload W)
    (i : Inference W) (raw current : W) where
  -- What a guarded value from estimated inputs may ask for, and under which limits.
  pub record IsConservative (safe : W) : Type 0 where
    pub no_scale_down : current ≼ safe
    pub small_step :
        (safe ≼ current)
        ⊎ (safe ≼ f.add current (guardrail_input s w i raw current).max_absolute_step)
    pub one_replica : (guardrail_input s w i raw current).max_absolute_step ≼ f.of_int (pos 1)
    pub one_quarter : (guardrail_input s w i raw current).max_percent_increase ≼ f.of_int (pos 25)

  abbrev pub guarded : W
  guarded = (apply_guardrails (guardrail_input s w i raw current)).0

  -- The step that estimates leave is positive and at most one.
  step_bounds :
      has_estimates s i ≡ true
      → IsNumber s.max_absolute_step
      → (f.lt (f.of_int (pos 0)) (guardrail_input s w i raw current).max_absolute_step ≡ true)
        × ((guardrail_input s w i raw current).max_absolute_step ≼ f.of_int (pos 1))
  unfolding guardrail_input
  step_bounds e n =
      let zero : W = f.of_int (pos 0) in
      let one : W = f.of_int (pos 1) in
      let three : W = f.of_int (pos 3) in
      let x : W = s.max_absolute_step in
      ground (
        arith,
        o.lt-eq-not-le zero x (o.of_int_number (pos 0)) n,
        lt-min o zero x one,
        lt-min o zero three one,
        o.of_int_pos 0,
        o.of_int_pos 2,
        o.min-le_right x one n (o.of_int_number (pos 1)),
        o.min-le_right three one (o.of_int_number (pos 3)) (o.of_int_number (pos 1)),
      )

  percent_bound :
      has_estimates s i ≡ true
      → IsNumber s.max_percent_increase
      → (guardrail_input s w i raw current).max_percent_increase ≼ f.of_int (pos 25)
  unfolding guardrail_input
  percent_bound e n = ground (
    arith,
    o.of_int_number (pos 100),
    o.min-le_right s.max_percent_increase (f.of_int (pos 25)) n (o.of_int_number (pos 25)),
    o.min-le_right (f.of_int (pos 100)) (f.of_int (pos 25)) (o.of_int_number (pos 100))
        (o.of_int_number (pos 25)),
  )

  step_or_current :
      (g : GuardrailInput W)
      → (g.cluster_healthy ≡ false → (apply_guardrails g).0 ≡ g.current)
        × (g.capacity_allowed ≡ false → (apply_guardrails g).0 ≡ g.current)
        × (g.cluster_healthy ≡ true
            → g.capacity_allowed ≡ true
            → IsGuarded g (apply_guardrails g).0)
      → f.lt (f.of_int (pos 0)) g.max_absolute_step ≡ true
      → IsNumber g.current
      → ((apply_guardrails g).0 ≼ g.current)
        ⊎ ((apply_guardrails g).0 ≼ f.add g.current g.max_absolute_step)
  step_or_current g (sick, full, free) positive n = elim (Bool-cases g.cluster_healthy) [
    | inr e ↦ inl (rw (sick e) n)
    | inl e ↦ elim (Bool-cases g.capacity_allowed) [
      | inr e' ↦ inl (rw (full e') n)
      | inl e' ↦ (free e e').within_step positive
    ]
  ]

  -- Where the numbers computed are not NaN and the current count is within the bound, the value
  -- passed on for an input with estimates is at least the current count, and at most the current
  -- count or one step above it; the step is at most one replica and the percentage limit at most a
  -- quarter.
  pub guarded-IsConservative :
      has_estimates s i ≡ true
      → IsNumber s.max_absolute_step
      → IsNumber s.max_percent_increase
      → IsNumber (f.ceil (f.div raw w.spec.source.threshold))
      → IsComputable (guardrail_input s w i raw current)
      → current ≼ f.of_int w.spec.bounds.max
      → IsConservative guarded
  unfolding guardrail_input
  guarded-IsConservative e n m wanted c below =
      let g = guardrail_input s w i raw current in
      let (positive, one) = step_bounds e n in
      let kept : current ≼ g.desired = rw e (
        o.le-max_right (f.ceil (f.div raw w.spec.source.threshold)) current wanted
          c.current_number) in
      record {
        no_scale_down = current-le-apply_guardrails o g c kept below;
        small_step = step_or_current g (apply_guardrails-IsGuarded o g c) positive c.current_number;
        one_replica = one;
        one_quarter = percent_bound e m;
      }
