-- ===== src/ScaledObject/Fixtures.antt =====
-- A small object with its options, and the outside functions that read it, for runs.
use Prim.Native.String.{◌++◌ as ◌+ₛ◌}
use keda_replica_sense.Prelude.{
  pos, ◌*ℤ◌, String, str_eq, Bool, true, false, ◌&&◌, none, some, if◌then◌else◌, Result, ok, err,
  [], ◌∷◌, ◌≡◌, refl,
}
use keda_replica_sense.Prelude.Billionths.{Billionths, milli, billionths}
use keda_replica_sense.Dataset.{is_finite}
use keda_replica_sense.ScaledObject.Input.{
  Standard, TriggerInput, ScaledObjectInput, ParserOptions, EncodesFinite,
}
use keda_replica_sense.ScaledObject.Fields.{is_quantile, default_quantile}

-- A reader that knows a few texts, and a hash that names what it hashes.
abbrev pub revision_of : Bool → Result String String
revision_of finite = if finite then ok "revision" else err "json: unsupported value"

abbrev pub standard : Standard Billionths
standard = record {
  parse_float = λ s. if str_eq s "10" then some (milli 10000) else none;
  parse_duration = λ s.
      if str_eq s "10m"
      then some (pos 600000000000)
      else if str_eq s "1m"
      then some (pos 60000000000)
      else none;
  parse_request_uri = λ s.
      if str_eq s "http://prom"
      then some (record { scheme = "http"; host = "prom"; fragment = ""; has_user = false })
      else none;
  has_location = λ s. str_eq s "UTC";
  quote = λ s. "\"" +ₛ s +ₛ "\"";
  print_duration = λ d. "duration";
  source_fingerprint = λ address query. ok (address +ₛ " " +ₛ query);
  policy_revision = λ source threshold bounds forecast.
      revision_of (is_finite threshold && is_finite forecast.quantile);
}

both_of_revision :
    (a b : Bool) {revision : String} → revision_of (a && b) ≡ ok revision → (a ≡ true) × (b ≡ true)
both_of_revision true true h = (refl, refl)
both_of_revision true false h = cc
both_of_revision false b h = cc

pub standard-EncodesFinite : EncodesFinite standard
standard-EncodesFinite = record {
  finite_threshold = λ source threshold bounds forecast revision h.
      (both_of_revision (is_finite threshold) (is_finite forecast.quantile) h).0;
  finite_quantile = λ source threshold bounds forecast revision h.
      (both_of_revision (is_finite threshold) (is_finite forecast.quantile) h).1;
}

pub default-is_quantile : is_quantile (default_quantile {W = Billionths}) ≡ true
unfolding billionths ◌*ℤ◌
default-is_quantile = refl

abbrev pub signal : TriggerInput
signal = record {
  kind = "prometheus";
  name = "rps";
  metadata = ("serverAddress", "http://prom") ∷ ("query", "q") ∷ ("threshold", "10") ∷ [];
}

abbrev pub predictive : TriggerInput
predictive = record {
  kind = "external";
  name = "forecast";
  metadata =
      ("scalerAddress", "scaler:9090")
      ∷ ("sourceTrigger", "rps")
      ∷ ("forecastHorizon", "10m")
      ∷ ("trainingWindow", "14d")
      ∷ [];
}

abbrev pub input : ScaledObjectInput
input = record {
  namespace = "shop";
  name = "web";
  uid = "u1";
  generation = pos 1;
  scale_target_name = "web";
  min_replica_count = some (pos 1);
  max_replica_count = none;
  triggers = signal ∷ predictive ∷ [];
}

abbrev pub options : ParserOptions
options = record {
  cluster_id = "east";
  scaler_addresses = "scaler:9090" ∷ [];
  default_min_replica_count = pos 0;
  default_max_replica_count = pos 100;
  minimum_training_window = pos 0;
}
