-- ===== src/Controller/Reconcile.antt =====
-- internal/controller/scaledobject.go and repository_sink.go, with internal/scaledobject/
-- keda_adapter.go: what an event about a ScaledObject asks of the repository. The answers of the API
-- server and of the repository are arguments; the calls that change something are logged.
pub mod Distinct
pub mod Faithful
mod Tests
use keda_replica_sense.Prelude.{
  ℤ, pos, String, Bool, true, false, if◌then◌else◌, Option, none, some, Result, ok, err, Float64,
  List, [], ◌∷◌, ◌++◌,
}
use keda_replica_sense.Domain.{WorkloadSpec}
use keda_replica_sense.ScaledObject.Input.{
  Standard, TriggerInput, ScaledObjectInput, ParserOptions, Candidate, ParseResult,
}
use keda_replica_sense.ScaledObject.Parser.{parse}

-- The part of a KEDA ScaledObject that is read.
pub record KedaObject : Type 0 where
  pub namespace : String
  pub name : String
  pub uid : String
  pub generation : ℤ
  pub scale_target_ref : Option String
  pub min_replica_count : Option ℤ
  pub max_replica_count : Option ℤ
  pub triggers : List TriggerInput

abbrev pub or_no_target : Option String → String
or_no_target none = ""
or_no_target (some name) = name

-- `InputFromKEDA` of an object that is there.
unfoldable pub input_from_keda : KedaObject → ScaledObjectInput
input_from_keda object = record {
  namespace = object.namespace;
  name = object.name;
  uid = object.uid;
  generation = object.generation;
  scale_target_name = or_no_target object.scale_target_ref;
  min_replica_count = object.min_replica_count;
  max_replica_count = object.max_replica_count;
  triggers = object.triggers;
}

pub record ScaledObjectReference : Type 0 where
  pub cluster_id : String
  pub namespace : String
  pub scaled_object_name : String
  pub uid : String
  pub observed_generation : ℤ

pub record ParentKey : Type 0 where
  pub cluster_id : String
  pub namespace : String
  pub scaled_object_name : String

pub record Reconciliation (W : Type 0) : Type 0 where
  pub parent : ParentKey
  pub scaled_object_uid : String
  pub observed_generation : ℤ
  pub desired : List (WorkloadSpec W)

pub record Processor : Type 0 where
  pub options : ParserOptions
  pub has_sink : Bool
  pub has_trigger_config : Bool

-- The calls of the repository and of the observer of trigger configurations.
pub data Call (W : Type 0) : Type 0 where
  reconciled : Reconciliation W → Call W
  deactivated : ParentKey → Call W
  recorded : ScaledObjectReference → List TriggerInput → ParseResult W → Call W
  deleted : ScaledObjectReference → Call W

pub data ReconcileError : Type 0 where
  no_sink get_failed store_failed : ReconcileError

-- What `Get` answers.
pub data Fetched : Type 0 where
  found : KedaObject → Fetched
  not_found unavailable : Fetched

-- Whether the repository accepts a call.
pub record Repository (W : Type 0) : Type 0 where
  pub accepts : Reconciliation W → Bool
  pub accepts_parent : ParentKey → Bool

abbrev pub Handled : Type 0 → Type 0
Handled W = List (Call W) × Result ReconcileError (Unit {0})

unfoldable pub parent_key : ScaledObjectReference → ParentKey
parent_key r = record {
  cluster_id = r.cluster_id;
  namespace = r.namespace;
  scaled_object_name = r.scaled_object_name;
}

unfoldable pub reference : Processor → String → String → String → ℤ → ScaledObjectReference
reference p namespace name uid generation = record {
  cluster_id = p.options.cluster_id;
  namespace = namespace;
  scaled_object_name = name;
  uid = uid;
  observed_generation = generation;
}

module _ {W : Type 0} where
  abbrev pub add_spec : Option (WorkloadSpec W) → List (WorkloadSpec W) → List (WorkloadSpec W)
  add_spec none specs = specs
  add_spec (some s) specs = s ∷ specs

  -- The loop of `RepositorySink.Observe`: the workloads of the candidates that have one, in order.
  unfoldable pub desired_of : List (Candidate W) → List (WorkloadSpec W)
  desired_of [] = []
  desired_of (c ∷ cs) = add_spec c.spec (desired_of cs)

  -- What `RepositorySink.Observe` asks for.
  unfoldable pub reconciliation_of : ScaledObjectReference → ParseResult W → Reconciliation W
  reconciliation_of source result = record {
    parent = parent_key source;
    scaled_object_uid = source.uid;
    observed_generation = source.observed_generation;
    desired = desired_of result.candidates;
  }

  abbrev pub note : Bool → Call W → List (Call W)
  note test call = if test then call ∷ [] else []

module _ {W : Type 0} ⦃f : Float64 W⦄ (std : Standard W) (repository : Repository W)
    (p : Processor) where
  unfoldable pub observe_scaled_object : KedaObject → Handled W
  unfolding input_from_keda reference reconciliation_of parent_key
  observe_scaled_object object =
      let input = input_from_keda object in
      let source = reference p input.namespace input.name input.uid input.generation in
      let result : ParseResult W = parse std input p.options in
      let asked = reconciliation_of source result in
      if p.has_sink
      then if repository.accepts asked
        then (
          reconciled asked ∷ note p.has_trigger_config (recorded source input.triggers result),
          ok tt,
        )
        else (reconciled asked ∷ [], err store_failed)
      else ([], err no_sink)

  unfoldable pub deactivate_scaled_object : String → String → Handled W
  unfolding reference parent_key
  deactivate_scaled_object namespace name =
      let source = reference p namespace name "" (pos 0) in
      if p.has_sink
      then if repository.accepts_parent (parent_key source)
        then (deactivated (parent_key source) ∷ note p.has_trigger_config (deleted source), ok tt)
        else (deactivated (parent_key source) ∷ [], err store_failed)
      else ([], err no_sink)

  unfoldable pub reconcile : String → String → Fetched → Handled W
  reconcile namespace name (found object) = observe_scaled_object object
  reconcile namespace name not_found = deactivate_scaled_object namespace name
  reconcile namespace name unavailable = ([], err get_failed)
