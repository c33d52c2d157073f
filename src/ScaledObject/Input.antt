-- ===== src/ScaledObject/Input.antt =====
-- internal/scaledobject/input.go, and the functions of the standard library that the parser calls and
-- that read or print what the model leaves open: numbers, URLs, time zones, JSON and hashes.
use keda_replica_sense.Prelude.{
  String, Duration, ℤ, Bool, true, List, [], ◌∷◌, ◌++◌, Option, Result, Float64, if◌then◌else◌, ok,
  ◌≡◌,
}
use keda_replica_sense.Domain.{ReplicaBounds, ForecastConfig, WorkloadSpec}
use keda_replica_sense.Dataset.{is_finite}

pub record TriggerInput : Type 0 where
  pub kind : String
  pub name : String
  pub metadata : List (String × String)

pub record ScaledObjectInput : Type 0 where
  pub namespace : String
  pub name : String
  pub uid : String
  pub generation : ℤ
  pub scale_target_name : String
  pub min_replica_count : Option ℤ
  pub max_replica_count : Option ℤ
  pub triggers : List TriggerInput

pub record ParserOptions : Type 0 where
  pub cluster_id : String
  pub scaler_addresses : List String
  pub default_min_replica_count : ℤ
  pub default_max_replica_count : ℤ
  pub minimum_training_window : Duration

pub record Violation : Type 0 where
  pub field : String
  pub message : String

pub record Candidate (W : Type 0) : Type 0 where
  pub predictive_trigger_name : String
  pub spec : Option (WorkloadSpec W)
  pub violations : List Violation

pub record ParseResult (W : Type 0) : Type 0 where
  pub candidates : List (Candidate W)
  pub violations : List Violation

pub record Url : Type 0 where
  pub scheme : String
  pub host : String
  pub fragment : String
  pub has_user : Bool

-- `strconv.ParseFloat`, `time.ParseDuration`, `url.ParseRequestURI`, `time.LoadLocation` succeeds,
-- `%q`, `Duration.String`, and the two calls of `identity.Fingerprint`, which encodes JSON and hashes.
pub record Standard (W : Type 0) : Type 0 where
  pub parse_float : String → Option W
  pub parse_duration : String → Option Duration
  pub parse_request_uri : String → Option Url
  pub has_location : String → Bool
  pub quote : String → String
  pub print_duration : Duration → String
  pub source_fingerprint : String → String → Result String String
  pub policy_revision : String → W → ReplicaBounds → ForecastConfig W → Result String String

-- JSON has no number for NaN or an infinity: their encoding is an error.
pub record EncodesFinite {W : Type 0} ⦃f : Float64 W⦄ (std : Standard W) : Type 0 where
  pub finite_threshold :
      (source : String) (threshold : W) (bounds : ReplicaBounds) (forecast : ForecastConfig W)
      (revision : String)
      → std.policy_revision source threshold bounds forecast ≡ ok revision
      → is_finite threshold ≡ true
  pub finite_quantile :
      (source : String) (threshold : W) (bounds : ReplicaBounds) (forecast : ForecastConfig W)
      (revision : String)
      → std.policy_revision source threshold bounds forecast ≡ ok revision
      → is_finite forecast.quantile ≡ true

-- A value and the violations that reading it has added.
abbrev pub Checked : Type 0 → Type 0
Checked A = A × List Violation

infixl 5 ◌>>=◌ ◌>>◌
abbrev pub ◌>>=◌ : {A B : Type 0} → Checked A → (A → Checked B) → Checked B
m >>= k = ((k m.0).0, m.1 ++ (k m.0).1)

abbrev pub ◌>>◌ : {B : Type 0} → Checked (Unit {0}) → Checked B → Checked B
m >> k = m >>= λ _. k

abbrev pub pure : {A : Type 0} → A → Checked A
pure a = (a, [])

abbrev pub violation : String → String → List Violation
violation field message = record { field = field; message = message } ∷ []

-- `if !test { add(field, message) }`.
abbrev pub demand : Bool → String → String → Checked (Unit {0})
demand test field message = (tt, if test then [] else violation field message)

-- `if bad { add(field, message); return fallback }`.
abbrev pub value_or : {A : Type 0} → Bool → A → A → String → String → Checked A
value_or good value fallback field message =
    (if good then value else fallback, if good then [] else violation field message)

-- Successive tests, each with its violation.
abbrev pub demand_all : List (Bool × String × String) → Checked (Unit {0})
demand_all [] = (tt, [])
demand_all ((test, field, message) ∷ checks) =
    (tt, (if test then [] else violation field message) ++ (demand_all checks).1)
