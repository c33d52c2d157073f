-- ===== src/ScaledObject/Parser/Contract.antt =====
-- What a workload that the parser lets through satisfies.
use mathlib.Core.List.{cons-ne-nil}
use keda_replica_sense.Prelude.{
  ◌≢◌, inl, inr, ltb, ◌==◌, String, str_eq, Bool, true, false, ◌||◌, Option, none, some, Result, ok,
  err, Float64, List, [], ◌∷◌, length, ◌≡◌, refl, Bool-cases, ap, subst, Result-cases,
}
use keda_replica_sense.Domain.{ReplicaBounds, PrometheusSource, ForecastConfig, WorkloadSpec}
use keda_replica_sense.Dataset.{is_finite}
use keda_replica_sense.ScaledObject.Input.{
  Standard, TriggerInput, ScaledObjectInput, ParserOptions, Checked, demand, demand_all,
  EncodesFinite,
}
use keda_replica_sense.ScaledObject.Parser.{
  parse_source, parse_candidate, check_candidate, name_checks, has_names, source_name, named, seen,
  seen_sources, close_candidate, with_fingerprint, with_revision, key_of, spec_of,
}
use keda_replica_sense.ScaledObject.Fields.{
  is_quantile, default_quantile, minimum_window, parse_forecast_config, parse_bounds,
}
use keda_replica_sense.ScaledObject.Fields.Known.{
  append-eq-nil, demand_met, demand_all_met, false_of_not, not_one, IsForecast, IsSource, IsBounded,
  parse_forecast_config-IsForecast, parse_prometheus_source-IsSource, parse_bounds-IsBounded,
}

some_injective {ℓ} : {A : Type ℓ} {a b : A} → Path (Option A) (some a) (some b) → a ≡ b
some_injective h = cc

none-ne-some {ℓ} : {A : Type ℓ} {a : A} → none ≢ some a
none-ne-some h = cc

or_right : (a b : Bool) → a ≡ false → (a || b) ≡ true → b ≡ true
or_right false b e h = h
or_right true b e h = cc

module _ {W : Type 0} ⦃f : Float64 W⦄ (std : Standard W) where
  -- What a workload of the input satisfies.
  pub record IsContract (input : ScaledObjectInput) (options : ParserOptions)
      (spec : WorkloadSpec W) : Type 0 where
    pub cluster : spec.key.cluster_id ≡ options.cluster_id
    pub namespace : spec.key.namespace ≡ input.namespace
    pub object : spec.key.scaled_object_name ≡ input.name
    pub target : spec.scale_target ≡ input.scale_target_name
    pub names_given : has_names input options ≡ true
    pub trigger_given : str_eq spec.key.predictive_trigger_name "" ≡ false
    pub source : IsSource std spec.source
    pub forecast : IsForecast std (minimum_window options) spec.forecast
    pub bounds : IsBounded spec.bounds
    pub finite_threshold : is_finite spec.source.threshold ≡ true
    pub finite_quantile : is_finite spec.forecast.quantile ≡ true

  -- The source is known where exactly one trigger has its name.
  parse_source-IsSource :
      (triggers : List TriggerInput)
      → (length triggers == 1) ≡ true
      → (parse_source std triggers).1 ≡ []
      → IsSource std (parse_source std triggers).0
  parse_source-IsSource [] one h = cc
  parse_source-IsSource (t ∷ []) one h = elim (Bool-cases (str_eq t.kind "prometheus")) [
    | inl e ↦ rw (e, parse_source) (parse_prometheus_source-IsSource std t (rw e at h))
    | inr e ↦ absurd (cons-ne-nil _ _ (rw e at h))
  ]
  parse_source-IsSource (t ∷ u ∷ ts) one h = absurd (not_one _ one)

  module _ (input : ScaledObjectInput) (options : ParserOptions) (trigger : TriggerInput) where
    with_revision-some :
        (source : PrometheusSource W) (forecast : ForecastConfig W) (bounds : ReplicaBounds)
        (fingerprint : String) (r : Result String String) {spec : WorkloadSpec W}
        → (with_revision std input options trigger source forecast bounds fingerprint r).spec
          ≡ some spec
        → (revision : String) × (r ≡ ok revision)
          × (spec_of std input options trigger source forecast bounds fingerprint revision ≡ spec)
    with_revision-some source forecast bounds fingerprint (err e) h = cc
    with_revision-some source forecast bounds fingerprint (ok revision) h =
        (revision, refl, some_injective h)

    -- A candidate has a workload only where no violation was found.
    close_candidate-some :
        (c : Checked (PrometheusSource W × ForecastConfig W × ReplicaBounds))
        {spec : WorkloadSpec W}
        → (close_candidate std input options trigger c).spec ≡ some spec
        → (c.1 ≡ [])
          × ((fingerprint : String) × (revision : String) × (std.policy_revision fingerprint
                  c.0.0.threshold c.0.2 c.0.1
                ≡ ok revision)
              × (spec_of std input options trigger c.0.0 c.0.1 c.0.2 fingerprint revision ≡ spec))
    close_candidate-some (read, v ∷ vs) h = cc
    close_candidate-some ((source, forecast, bounds), []) h =
        elim (Result-cases (std.source_fingerprint source.server_address source.query)) [
          | inl (fingerprint, e) ↦
              let (revision, answered, same) =
                with_revision-some source forecast bounds fingerprint
                  (std.policy_revision fingerprint source.threshold bounds forecast)
                  (rw (e, with_fingerprint) at h) in
              (refl, (fingerprint, revision, answered, same))
          | inr (message, e) ↦ absurd (none-ne-some (rw (e, with_fingerprint) at h))
        ]

    check_candidate-IsContract :
        EncodesFinite std
        → is_quantile (default_quantile {W = W}) ≡ true
        → (check_candidate std input options trigger).1 ≡ []
        → (fingerprint revision : String)
        → std.policy_revision fingerprint
            (check_candidate std input options trigger).0.0.threshold
            (check_candidate std input options trigger).0.2
            (check_candidate std input options trigger).0.1
          ≡ ok revision
        → IsContract input options (
            spec_of std input options trigger
              (check_candidate std input options trigger).0.0
              (check_candidate std input options trigger).0.1
              (check_candidate std input options trigger).0.2
              fingerprint
              revision)
    unfolding check_candidate
    check_candidate-IsContract encodes default h fingerprint revision answered =
        let sources = named (source_name trigger) input.triggers in
        let forecast = parse_forecast_config std trigger options in
        let bounds = parse_bounds input options in
        let (named_well, h1) =
          append-eq-nil (demand_all (name_checks input options trigger)).1 _ h in
        let (sourced, h2) = append-eq-nil (parse_source std sources).1 _ h1 in
        let (forecast_ok, h3) = append-eq-nil forecast.1 _ h2 in
        let (bounded, h4) = append-eq-nil bounds.1 _ h3 in
        let (top, _) =
          append-eq-nil
            (demand (has_names input options) "scaledObject"
              "has required top-level fields missing").1
            _ h4 in
        let (trigger_ok, (unique, (source_ok, (single, (one, _))))) =
          demand_all_met (name_checks input options trigger) named_well in
        record {
          cluster = refl;
          namespace = refl;
          object = refl;
          target = refl;
          names_given = demand_met _ _ _ top;
          trigger_given = false_of_not _ trigger_ok;
          source =
              parse_source-IsSource sources (or_right _ _ (false_of_not _ source_ok) one) sourced;
          forecast = parse_forecast_config-IsForecast std trigger options default forecast_ok;
          bounds = parse_bounds-IsBounded input options bounded;
          finite_threshold = encodes.finite_threshold _ _ _ _ _ answered;
          finite_quantile = encodes.finite_quantile _ _ _ _ _ answered;
        }

    -- A workload that the parser makes of a trigger is keyed by its object and trigger, which have
    -- names; has a source that can be asked, with a positive finite threshold; has bounds in order;
    -- and has positive whole intervals that fit its horizon and its training window, which lies
    -- between the minimum and 90 days. This rests on JSON having no number that is not finite, and on
    -- the default quantile lying between 0 and 1.
    pub parse_candidate-IsContract :
        EncodesFinite std
        → is_quantile (default_quantile {W = W}) ≡ true
        → {spec : WorkloadSpec W} → (parse_candidate std input options trigger).spec ≡ some spec
        → IsContract input options spec
    unfolding parse_candidate
    parse_candidate-IsContract encodes default h =
        let (clean, (fingerprint, revision, answered, same)) =
          close_candidate-some (check_candidate std input options trigger) h in
        subst (IsContract input options) same
          (check_candidate-IsContract encodes default clean fingerprint revision answered)

    -- Its names passed their tests, and its key is that of the trigger.
    pub parse_candidate-named :
        {spec : WorkloadSpec W}
        → (parse_candidate std input options trigger).spec ≡ some spec
        → (ltb 1 (seen options input.triggers trigger.name) ≡ false)
          × (ltb 1 (seen_sources options input.triggers (source_name trigger)) ≡ false)
          × (key_of input options trigger ≡ spec.key)
    unfolding parse_candidate check_candidate
    parse_candidate-named h =
        let (clean, (fingerprint, revision, answered, same)) =
          close_candidate-some (check_candidate std input options trigger) h in
        let (named_well, _) =
          append-eq-nil (demand_all (name_checks input options trigger)).1 _ clean in
        let (trigger_ok, (unique, (source_ok, (single, _)))) =
          demand_all_met (name_checks input options trigger) named_well in
        (false_of_not _ unique, false_of_not _ single, ap (λ (s : WorkloadSpec W). s.key) same)
