-- ===== src/Training/Evaluate/Versions.antt =====
-- The data of `Evaluate` in internal/training/evaluation.go, the versions of a lineage by their
-- status, and which of them is due.
use keda_replica_sense.Prelude.{
  ltb_ℤ, quot, String, str_eq, Time, Duration, Bool, ◌||◌, not, if◌then◌else◌, Option, none, some,
  List, [], ◌∷◌,
}
use keda_replica_sense.Domain.{SamplingWorkload, decision_horizon}
use keda_replica_sense.Dataset.{Sample}
use keda_replica_sense.Training.{
  EvaluationContract, EvaluationPolicy, Comparison, EvaluationReport, evaluation_version,
}

pub record EvaluationModel (W : Type 0) : Type 0 where
  pub id : String
  pub engine : String
  pub artifact : String
  pub activated_at : Time
  pub status : String
  pub trained_until : Time
  pub created_at : Time
  pub contract : EvaluationContract W
  pub report : EvaluationReport W
  pub artifact_sha256 : String

pub data Lock : Type 0 where
  lock_failed held_elsewhere acquired : Lock

pub data EvaluationError : Type 0 where
  invalid_policy not_configured lock_error models_error samples_error store_error : EvaluationError

-- The models to compare, by name.
abbrev pub Named : Type 0 → Type 0
Named W = List (String × EvaluationModel W)

-- What the evaluation is told from outside. `load` gives the artifact's own quantile if it has one.
pub record EvaluationWorld (W : Type 0) : Type 0 where
  pub lock : Lock
  pub models : Option (List (EvaluationModel W))
  pub digest : String → String
  pub load : EvaluationModel W → Option (Option W)
  pub samples : Time → Time → Option (List (Sample W))
  pub has_location : String → Bool
  pub compare : Named W → List (Sample W) → Time → Comparison W × Option String
  pub complete : EvaluationModel W → EvaluationReport W → Bool

pub record EvaluationService (W : Type 0) : Type 0 where
  pub configured : Bool
  pub policy : EvaluationPolicy W
  pub seasonal_period : Duration
  pub notifies : Bool

pub record Outcome (W : Type 0) : Type 0 where
  pub error : Option EvaluationError
  pub stored : Option (EvaluationModel W × EvaluationReport W)
  pub notified : Option (EvaluationReport W)
  pub released : Bool

-- The versions of a lineage by status; the last of each status counts.
pub record Lineage (W : Type 0) : Type 0 where
  pub active : Option (EvaluationModel W)
  pub candidate : Option (EvaluationModel W)
  pub previous : Option (EvaluationModel W)

-- What an evaluation comes to: nothing to do, an error, or a report on a model.
pub data Verdict (W : Type 0) : Type 0 where
  idle : Verdict W
  fails : EvaluationError → Verdict W
  finishes : EvaluationModel W → EvaluationReport W → Verdict W

abbrev pub max_dur : Duration → Duration → Duration
max_dur a b = if ltb_ℤ a b then b else a

-- `if later.After(after) { after = later }`.
abbrev pub later_of : Time → Time → Time
later_of after later = if ltb_ℤ after later then later else after

-- The models, the boundary and the detail after the champion was considered.
pub record Prepared (W : Type 0) : Type 0 where
  pub models : Named W
  pub after : Time
  pub detail : String

module _ {W : Type 0} where
  unfoldable pub add_version : Lineage W → EvaluationModel W → Lineage W
  add_version l v =
      if str_eq v.status "active"
      then record l { active = some v }
      else if str_eq v.status "candidate"
      then record l { candidate = some v }
      else if str_eq v.status "retired"
      then record l { previous = some v }
      else l

  unfoldable pub read_versions : Lineage W → List (EvaluationModel W) → Lineage W
  unfolding add_version
  read_versions l [] = l
  read_versions l (v ∷ vs) = read_versions (add_version l v) vs

  -- A candidate that is not newer than the champion, or whose report is, waits.
  abbrev pub waits : EvaluationModel W → EvaluationModel W → Bool
  waits active candidate =
      not (ltb_ℤ active.created_at candidate.created_at)
      || ltb_ℤ active.report.at candidate.report.at

  unfoldable pub due_candidate :
      Option (EvaluationModel W) → Option (EvaluationModel W) → Option (EvaluationModel W)
  due_candidate active none = none
  due_candidate none (some candidate) = some candidate
  due_candidate (some active) (some candidate) =
      if waits active candidate then none else some candidate

  abbrev pub or_else :
      Option (EvaluationModel W) → Option (EvaluationModel W) → Option (EvaluationModel W)
  or_else (some a) b = some a
  or_else none b = b

  abbrev pub id_of : Option (EvaluationModel W) → String
  id_of none = ""
  id_of (some v) = v.id

unfoldable pub contract_for : {W : Type 0} → SamplingWorkload W → Duration → EvaluationContract W
contract_for w period =
    let forecast = w.spec.forecast in
    record {
      version = evaluation_version;
      policy_revision = w.spec.policy_revision;
      horizon_seconds = quot (decision_horizon forecast) 1000000000;
      sampling_seconds = quot forecast.sampling_interval 1000000000;
      seasonal_seconds = quot period 1000000000;
      quantile = forecast.quantile;
      timezone = forecast.business_timezone;
    }
