-- ===== src/ScaledObject/Fields/Known.antt =====
-- What the fields of a trigger satisfy where reading them adds no violation.
use mathlib.Core.List.{cons-ne-nil}
use keda_replica_sense.Prelude.{
  ◌≢◌, inl, inr, ℕ, suc, ◌==◌, ℤ, pos, pos_part, ◌≤ℤ◌, ◌<ℤ◌, ltb_ℤ, leb_ℤ, eqb_ℤ, rem, Duration,
  String, str_eq, trim_space, read_text, Bool, true, false, not, ◌&&◌, ◌||◌, Float64, List, [], ◌∷◌,
  ◌++◌, ◌≡◌, refl, arith, Bool-cases, if_both, eq_of_parts,
}
use keda_replica_sense.Domain.{ReplicaBounds, PrometheusSource, ForecastConfig, decision_horizon}
use keda_replica_sense.ScaledObject.Input.{
  Standard, TriggerInput, ScaledObjectInput, ParserOptions, Checked, demand, demand_all, value_or,
}
use keda_replica_sense.ScaledObject.Days.{replica_sense_duration}
use keda_replica_sense.ScaledObject.Fields.{
  is_blank, is_given, or_zero, or_nought, is_quantile, default_quantile, is_http, is_threshold,
  is_supported, minimum_window, is_multiple, ninety_days, parse_duration,
  parse_non_negative_duration, parse_quantile, check_address, parse_prometheus_source,
  parse_forecast_config, parse_bounds, read_forecast, forecast_checks,
}

pub append-eq-nil {ℓ} : {A : Type ℓ} (xs ys : List A) → xs ++ ys ≡ [] → (xs ≡ []) × (ys ≡ [])
append-eq-nil [] ys h = (refl, h)
append-eq-nil (x ∷ xs) ys h = cc

pub demand_met : (b : Bool) (field message : String) → (demand b field message).1 ≡ [] → b ≡ true
demand_met true field message h = refl
demand_met false field message h = cc

-- Every test of the list is met.
abbrev pub AllMet : List (Bool × String × String) → Type 0
AllMet [] = Unit
AllMet ((test, field, message) ∷ checks) = (test ≡ true) × AllMet checks

pub demand_all_met :
    (checks : List (Bool × String × String)) → (demand_all checks).1 ≡ [] → AllMet checks
demand_all_met [] h = tt
demand_all_met ((true, field, message) ∷ checks) h = (refl, demand_all_met checks h)
demand_all_met ((false, field, message) ∷ checks) h = cc

eq_of_test : (a b : ℤ) → eqb_ℤ a b ≡ true → a ≡ b
eq_of_test a b h = eq_of_parts a b (ground arith)

value_or_good :
    {A : Type 0} (P : A → Type 0) (good : Bool) (value fallback : A) (field message : String)
    → (good ≡ true → P value)
    → P fallback
    → P (value_or good value fallback field message).0
value_or_good P true value fallback field message h k = h refl
value_or_good P false value fallback field message h k = k

pub not_one : (n : ℕ) → (suc (suc n) == 1) ≢ true
not_one n h = ground arith

positive_of_test : (d : ℤ) (b : Bool) → b && not (leb_ℤ d (pos 0)) ≡ true → pos 0 <ℤ d
positive_of_test d b h = ground arith

nonneg_of_test : (d : ℤ) (b : Bool) → b && not (ltb_ℤ d (pos 0)) ≡ true → pos 0 ≤ℤ d
nonneg_of_test d b h = ground arith

and_left : (a b : Bool) → (a && b) ≡ true → a ≡ true
and_left true b h = refl
and_left false b h = cc

pub and_right : (a b : Bool) → (a && b) ≡ true → b ≡ true
and_right true b h = h
and_right false b h = cc

le_of_tests : (a b c : ℤ) → (not (ltb_ℤ b a) && not (ltb_ℤ c b)) ≡ true → (a ≤ℤ b) × (b ≤ℤ c)
le_of_tests a b c h = ground arith

horizon_of_tests :
    (i d : ℤ) (m : Bool)
    → (not (leb_ℤ i (pos 0)) && not (leb_ℤ d (pos 0)) && m) ≡ true
    → (pos 0 <ℤ i) × (pos 0 <ℤ d) × (m ≡ true)
horizon_of_tests i d m h = ground arith

slots_of_tests : (d : ℤ) (b : Bool) → (not (ltb_ℤ (pos 0) d) || b) ≡ true → pos 0 <ℤ d → b ≡ true
slots_of_tests d b h k = ground arith

pub false_of_not : (b : Bool) → not b ≡ true → b ≡ false
false_of_not false h = refl
false_of_not true h = cc

module _ {W : Type 0} (std : Standard W) where
  parse_duration_positive :
      (raw : String) (fallback : Duration) (field : String)
      → pos 0 <ℤ fallback
      → pos 0 <ℤ (parse_duration std raw fallback field).0
  unfolding parse_duration
  parse_duration_positive raw fallback field h =
      let read = replica_sense_duration std (trim_space raw) in
      if_both (λ (c : Checked Duration). pos 0 <ℤ c.0) (is_blank raw) (λ _. h)
        (λ _.
          value_or_good (λ d. pos 0 <ℤ d) (is_given read && not (leb_ℤ (or_zero read) (pos 0)))
            (or_zero read) fallback field "must be a positive duration, for example 10m or 30d"
            (positive_of_test (or_zero read) (is_given read)) h)

  parse_non_negative_duration_nonneg :
      (raw field : String) → pos 0 ≤ℤ (parse_non_negative_duration std raw field).0
  unfolding parse_non_negative_duration
  parse_non_negative_duration_nonneg raw field =
      let read = replica_sense_duration std raw in
      if_both (λ (c : Checked Duration). pos 0 ≤ℤ c.0) (is_blank raw) (λ _. omega arith)
        (λ _.
          value_or_good (λ d. pos 0 ≤ℤ d) (is_given read && not (ltb_ℤ (or_zero read) (pos 0)))
            (or_zero read) (pos 0) field "must be a non-negative duration, for example 45s or 2m"
            (nonneg_of_test (or_zero read) (is_given read)) (omega arith))

module _ {W : Type 0} ⦃f : Float64 W⦄ (std : Standard W) where
  -- The forecast part of a workload, at the minimum training window.
  pub record IsForecast (minimum : Duration) (c : ForecastConfig W) : Type 0 where
    pub horizon_positive : pos 0 <ℤ c.horizon
    pub horizon_seconds : rem c.horizon 1000000000 ≡ pos 0
    pub interval_positive : pos 0 <ℤ c.sampling_interval
    pub interval_seconds : rem c.sampling_interval 1000000000 ≡ pos 0
    pub window_minimum : minimum ≤ℤ c.training_window
    pub window_maximum : c.training_window ≤ℤ ninety_days
    pub window_seconds : rem c.training_window 1000000000 ≡ pos 0
    pub window_slots : rem c.training_window (pos_part c.sampling_interval) ≡ pos 0
    pub latency_nonneg : pos 0 ≤ℤ c.startup_latency
    pub buffer_nonneg : pos 0 ≤ℤ c.safety_buffer
    pub decision_positive : pos 0 <ℤ decision_horizon c
    pub decision_slots : rem (decision_horizon c) (pos_part c.sampling_interval) ≡ pos 0
    pub quantile_below_one : is_quantile c.quantile ≡ true
    pub engine_supported : is_supported c.model_engine ≡ true
    pub zone_known : std.has_location c.business_timezone ≡ true

  parse_quantile-is_quantile :
      (raw : String)
      → (is_quantile (default_quantile {W = W}) ≡ true)
      → is_quantile (parse_quantile std raw).0 ≡ true
  unfolding parse_quantile
  parse_quantile-is_quantile raw d =
      let read = std.parse_float (trim_space raw) in
      if_both (λ (c : Checked W). is_quantile c.0 ≡ true) (is_blank raw) (λ _. d)
        (λ _.
          value_or_good (λ x. is_quantile x ≡ true) (is_given read && is_quantile (or_nought read))
            (or_nought read) default_quantile "metadata.quantile"
            "must be greater than 0 and less than 1"
            (and_right (is_given read) (is_quantile (or_nought read))) d)

  pub parse_forecast_config-IsForecast :
      (trigger : TriggerInput) (options : ParserOptions)
      → is_quantile (default_quantile {W = W}) ≡ true
      → (parse_forecast_config std trigger options).1 ≡ []
      → IsForecast (minimum_window options) (parse_forecast_config std trigger options).0
  unfolding parse_forecast_config read_forecast
  parse_forecast_config-IsForecast trigger options default h =
      let c = (read_forecast std trigger).0 in
      let (read, rest) =
        append-eq-nil (read_forecast std trigger).1
          ((demand_all (forecast_checks std (minimum_window options) c)).1 ++ []) h in
      let (checks, _) =
        append-eq-nil (demand_all (forecast_checks std (minimum_window options) c)).1 [] rest in
      let (engine, (window, (seconds, (interval, (slots, (decision, (horizon, (zone, _)))))))) =
        demand_all_met (forecast_checks std (minimum_window options) c) checks in
      let ahead =
        horizon_of_tests c.sampling_interval (decision_horizon c)
          (is_multiple (decision_horizon c) c.sampling_interval) decision in
      record {
        horizon_positive = parse_duration_positive std _ (pos 600000000000) _ (omega arith);
        horizon_seconds = eq_of_test _ _ horizon;
        interval_positive = ahead.0;
        interval_seconds = eq_of_test _ _ interval;
        window_minimum =
            (le_of_tests (minimum_window options) c.training_window ninety_days window).0;
        window_maximum =
            (le_of_tests (minimum_window options) c.training_window ninety_days window).1;
        window_seconds = eq_of_test _ _ seconds;
        window_slots = eq_of_test _ _ (slots_of_tests c.sampling_interval _ slots ahead.0);
        latency_nonneg = parse_non_negative_duration_nonneg std _ _;
        buffer_nonneg = parse_non_negative_duration_nonneg std _ _;
        decision_positive = ahead.1;
        decision_slots = eq_of_test _ _ ahead.2;
        quantile_below_one = parse_quantile-is_quantile _ default;
        engine_supported = engine;
        zone_known = zone;
      }

  -- A signal that Prometheus can be asked for.
  pub record IsSource (s : PrometheusSource W) : Type 0 where
    pub address_given : str_eq s.server_address "" ≡ false
    pub address_http : is_http (std.parse_request_uri s.server_address) ≡ true
    pub query_given : str_eq s.query "" ≡ false
    pub threshold_positive : f.le s.threshold (f.of_int (pos 0)) ≡ false

  check_address_met :
      (address : String)
      → (check_address std address).1 ≡ []
      → (str_eq address "" ≡ false) × (is_http (std.parse_request_uri address) ≡ true)
  unfolding check_address
  check_address_met address h = elim (Bool-cases (str_eq address "")) [
    | inl e ↦ absurd (cons-ne-nil _ _ (rw e at h))
    | inr e ↦ (e, demand_met (is_http (std.parse_request_uri address)) _ _ (rw e at h))
  ]

  pub parse_prometheus_source-IsSource :
      (trigger : TriggerInput)
      → (parse_prometheus_source std trigger).1 ≡ []
      → IsSource (parse_prometheus_source std trigger).0
  unfolding parse_prometheus_source
  parse_prometheus_source-IsSource trigger h =
      let address = trim_space (read_text "serverAddress" trigger.metadata) in
      let query = trim_space (read_text "query" trigger.metadata) in
      let threshold = std.parse_float (trim_space (read_text "threshold" trigger.metadata)) in
      let (addressed, h1) = append-eq-nil (check_address std address).1 _ h in
      let (queried, h2) =
        append-eq-nil (demand (not (str_eq query "")) "source.metadata.query" "is required").1 _
          h1 in
      let (bounded, _) =
        append-eq-nil
          (demand (is_threshold threshold) "source.metadata.threshold"
            "must be a positive number").1
          _ h2 in
      let (given, http) = check_address_met address addressed in
      record {
        address_given = given;
        address_http = http;
        query_given = false_of_not _ (demand_met _ _ _ queried);
        threshold_positive =
            false_of_not _
              (and_right (is_given threshold) _ (demand_met (is_threshold threshold) _ _ bounded));
      }

pub record IsBounded (b : ReplicaBounds) : Type 0 where
  pub min_nonneg : pos 0 ≤ℤ b.min
  pub max_positive : pos 0 <ℤ b.max
  pub min_le_max : b.min ≤ℤ b.max

pub parse_bounds-IsBounded :
    (input : ScaledObjectInput) (options : ParserOptions)
    → (parse_bounds input options).1 ≡ []
    → IsBounded (parse_bounds input options).0
unfolding parse_bounds
parse_bounds-IsBounded input options h = ground arith
