-- ===== src/ScaledObject/Parser.antt =====
-- `Parse` and `parseCandidate` of internal/scaledobject/parser.go. The maps of the triggers by name and
-- of the names in use are read as searches through the triggers.
pub mod Contract
use keda_replica_sense.Prelude.{
  ℕ, suc, ◌+◌, leb, ltb, ◌==◌, ℤ, pos, String, str_eq, trim_space, read_text, Bool, true, false,
  not, ◌&&◌, ◌||◌, Option, none, some, if◌then◌else◌, Result, ok, err, Float64, List, [], ◌∷◌, ◌++◌,
  length,
}
use keda_replica_sense.Domain.{
  ReplicaBounds, PrometheusSource, ForecastConfig, WorkloadKey, WorkloadSpec,
}
use keda_replica_sense.ScaledObject.Input.{
  Standard, TriggerInput, ScaledObjectInput, ParserOptions, Violation, Candidate, ParseResult,
  Checked, ◌>>=◌, ◌>>◌, pure, demand, demand_all, violation,
}
use keda_replica_sense.ScaledObject.Fields.{
  is_blank, parse_prometheus_source, parse_forecast_config, parse_bounds,
}

-- `options.ScalerAddresses[address]` is there.
unfoldable pub is_address : String → List String → Bool
is_address a [] = false
is_address a (b ∷ bs) = str_eq b a || is_address a bs

unfoldable pub is_replica_sense_trigger : ParserOptions → TriggerInput → Bool
is_replica_sense_trigger options trigger =
    str_eq trigger.kind "external"
    && is_address (trim_space (read_text "scalerAddress" trigger.metadata)) options.scaler_addresses

abbrev pub source_name : TriggerInput → String
source_name trigger = trim_space (read_text "sourceTrigger" trigger.metadata)

-- The triggers that pass a test, in order.
unfoldable pub select : (TriggerInput → Bool) → List TriggerInput → List TriggerInput
select test [] = []
select test (t ∷ ts) = let rest = select test ts in if test t then t ∷ rest else rest

unfoldable pub predictive_triggers : ParserOptions → List TriggerInput → List TriggerInput
predictive_triggers options = select (is_replica_sense_trigger options)

-- `named[name]`: a trigger without a name is not there.
unfoldable pub named : String → List TriggerInput → List TriggerInput
named name = select (λ t. not (str_eq t.name "") && str_eq t.name name)

-- `seen[name]` and `seenSources[source]`.
unfoldable pub seen : ParserOptions → List TriggerInput → String → ℕ
seen options triggers name =
    length (select (λ t. str_eq t.name name) (predictive_triggers options triggers))

unfoldable pub seen_sources : ParserOptions → List TriggerInput → String → ℕ
seen_sources options triggers source = length (
    select (λ t. not (str_eq (source_name t) "") && str_eq (source_name t) source)
      (predictive_triggers options triggers))

-- The tests on the names of a trigger and of its source.
abbrev pub name_checks :
    ScaledObjectInput → ParserOptions → TriggerInput → List (Bool × String × String)
name_checks input options trigger =
    (
      not (str_eq trigger.name ""),
      "triggers[].name",
      "is required for a ReplicaSense predictive trigger",
    )
    ∷ (
      not (ltb 1 (seen options input.triggers trigger.name)),
      "triggers[].name",
      "must be unique among ReplicaSense predictive triggers",
    )
    ∷ (not (str_eq (source_name trigger) ""), "triggers[].metadata.sourceTrigger", "is required")
    ∷ (
      not (ltb 1 (seen_sources options input.triggers (source_name trigger))),
      "triggers[].metadata.sourceTrigger",
      "must be used by only one ReplicaSense predictive trigger",
    )
    ∷ (
      str_eq (source_name trigger) "" || length (named (source_name trigger) input.triggers) == 1,
      "triggers[].metadata.sourceTrigger",
      "must resolve to exactly one trigger",
    )
    ∷ []

abbrev pub has_names : ScaledObjectInput → ParserOptions → Bool
has_names input options = not (
    is_blank options.cluster_id
    || is_blank input.namespace
    || is_blank input.name
    || is_blank input.scale_target_name)

abbrev pub key_of : ScaledObjectInput → ParserOptions → TriggerInput → WorkloadKey
key_of input options trigger = record {
  cluster_id = options.cluster_id;
  namespace = input.namespace;
  scaled_object_name = input.name;
  predictive_trigger_name = trigger.name;
}

abbrev pub refuse_candidate : {W : Type 0} → TriggerInput → List Violation → Candidate W
refuse_candidate trigger violations = record {
  predictive_trigger_name = trigger.name;
  spec = none;
  violations = violations;
}

abbrev pub required : String → String → List Violation
required value field = if is_blank value then violation field "is required" else []

module _ {W : Type 0} ⦃f : Float64 W⦄ (std : Standard W) where
  -- `domain.PrometheusSource{}`.
  abbrev pub no_source : PrometheusSource W
  no_source = record {
    trigger_name = "";
    server_address = "";
    query = "";
    threshold = f.of_int (pos 0);
  }

  abbrev pub parse_source : List TriggerInput → Checked (PrometheusSource W)
  parse_source (t ∷ []) = if str_eq t.kind "prometheus" then parse_prometheus_source std t else (
    no_source,
    violation "triggers[].metadata.sourceTrigger" "must reference a prometheus trigger",
  )
  parse_source ts = pure no_source

  -- What `parseCandidate` reads before it looks at the violations.
  unfoldable pub check_candidate :
      ScaledObjectInput
      → ParserOptions
      → TriggerInput
      → Checked (PrometheusSource W × ForecastConfig W × ReplicaBounds)
  check_candidate input options trigger = do
    demand_all (name_checks input options trigger)
    source ← parse_source (named (source_name trigger) input.triggers)
    forecast ← parse_forecast_config std trigger options
    bounds ← parse_bounds input options
    demand (has_names input options) "scaledObject" "has required top-level fields missing"
    pure (source, forecast, bounds)

  module _ (input : ScaledObjectInput) (options : ParserOptions) (trigger : TriggerInput) where
    abbrev pub spec_of :
        PrometheusSource W → ForecastConfig W → ReplicaBounds → String → String → WorkloadSpec W
    spec_of source forecast bounds fingerprint revision = record {
      key = key_of input options trigger;
      scale_target = input.scale_target_name;
      bounds = bounds;
      source = source;
      forecast = forecast;
      source_fingerprint = fingerprint;
      policy_revision = revision;
    }

    abbrev pub with_revision :
        PrometheusSource W
        → ForecastConfig W
        → ReplicaBounds
        → String
        → Result String String
        → Candidate W
    with_revision source forecast bounds fingerprint (err e) =
        refuse_candidate trigger (violation "policyRevision" e)
    with_revision source forecast bounds fingerprint (ok revision) = record {
      predictive_trigger_name = trigger.name;
      spec = some (spec_of source forecast bounds fingerprint revision);
      violations = [];
    }

    abbrev pub with_fingerprint :
        PrometheusSource W → ForecastConfig W → ReplicaBounds → Result String String → Candidate W
    with_fingerprint source forecast bounds (err e) =
        refuse_candidate trigger (violation "sourceFingerprint" e)
    with_fingerprint source forecast bounds (ok fingerprint) =
        with_revision source forecast bounds fingerprint
          (std.policy_revision fingerprint source.threshold bounds forecast)

    abbrev pub close_candidate :
        Checked (PrometheusSource W × ForecastConfig W × ReplicaBounds) → Candidate W
    close_candidate (read, v ∷ vs) = refuse_candidate trigger (v ∷ vs)
    close_candidate ((source, forecast, bounds), []) =
        with_fingerprint source forecast bounds
          (std.source_fingerprint source.server_address source.query)

    unfoldable pub parse_candidate : Candidate W
    parse_candidate = close_candidate (check_candidate input options trigger)

  unfoldable pub parse_triggers :
      ScaledObjectInput → ParserOptions → List TriggerInput → List (Candidate W)
  parse_triggers input options [] = []
  parse_triggers input options (t ∷ ts) =
      let rest = parse_triggers input options ts in
      if is_replica_sense_trigger options t then parse_candidate input options t ∷ rest else rest

  unfoldable pub parse : ScaledObjectInput → ParserOptions → ParseResult W
  parse input options = record {
    candidates = parse_triggers input options input.triggers;
    violations =
        required options.cluster_id "clusterID"
        ++ required input.namespace "metadata.namespace"
        ++ required input.name "metadata.name"
        ++ required input.scale_target_name "spec.scaleTargetRef.name";
  }
