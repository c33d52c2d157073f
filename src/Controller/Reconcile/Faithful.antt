-- ===== src/Controller/Reconcile/Faithful.antt =====
-- What an event about a ScaledObject changes in the repository.
use keda_replica_sense.Prelude.{pos, String, true, Float64, ◌≡◌, refl, arith, Every, if_both}
use keda_replica_sense.ScaledObject.Input.{Standard, EncodesFinite}
use keda_replica_sense.ScaledObject.Fields.{is_quantile, default_quantile}
use keda_replica_sense.ScaledObject.Parser.{parse}
use keda_replica_sense.ScaledObject.Parser.Contract.{IsContract, parse_candidate-IsContract}
use keda_replica_sense.Controller.Reconcile.{
  KedaObject, ParentKey, Reconciliation, Processor, Call, reconciled, deactivated, recorded,
  deleted, Fetched, found, not_found, unavailable, Repository, Handled, input_from_keda, reconcile,
  observe_scaled_object, deactivate_scaled_object, reference, reconciliation_of, parent_key,
}
use keda_replica_sense.Controller.Reconcile.Distinct.{
  AreDistinct, parse_triggers-AreDistinct, parse_triggers-Every,
}

-- The parent that an event is about.
abbrev pub parent_of : Processor → String → String → ParentKey
parent_of p namespace name = record {
  cluster_id = p.options.cluster_id;
  namespace = namespace;
  scaled_object_name = name;
}

module _ {W : Type 0} ⦃f : Float64 W⦄ (std : Standard W) (repository : Repository W)
    (p : Processor) where
  -- The workloads asked for keep the contract of the object, belong to it, and are distinct.
  abbrev pub IsDesired : KedaObject → Reconciliation W → Type 0
  IsDesired object r =
      (r.parent ≡ parent_of p object.namespace object.name)
      × (r.scaled_object_uid ≡ object.uid)
      × Every (IsContract std (input_from_keda object) p.options) r.desired
      × AreDistinct r.desired

  abbrev pub IsFaithful : String → String → Fetched → Call W → Type 0
  IsFaithful namespace name fetched (reconciled r) =
      (object : KedaObject) × (fetched ≡ found object) × IsDesired object r
  IsFaithful namespace name fetched (deactivated key) =
      (fetched ≡ not_found) × (key ≡ parent_of p namespace name)
  IsFaithful namespace name fetched (recorded r triggers result) =
      (object : KedaObject) × (fetched ≡ found object) × (r.uid ≡ object.uid)
  IsFaithful namespace name fetched (deleted r) = fetched ≡ not_found

  -- Whatever is answered, an event asks the repository for the workloads of the object that was
  -- found, all of which keep its contract, are keyed under it and differ in their triggers; and it
  -- deactivates the workloads of the object only where there is no such object.
  pub reconcile-IsFaithful :
      EncodesFinite std
      → is_quantile (default_quantile {W = W}) ≡ true
      → (namespace name : String) (fetched : Fetched)
      → Every
          (IsFaithful namespace name fetched)
          (reconcile std repository p namespace name fetched).0
  unfolding reconcile observe_scaled_object deactivate_scaled_object parse
  reconcile-IsFaithful encodes default namespace name (found object) =
      let input = input_from_keda object in
      let source = reference p input.namespace input.name input.uid input.generation in
      let asked = reconciliation_of source (parse std input p.options) in
      let desired : IsDesired object asked = (
        refl,
        refl,
        parse_triggers-Every std input p.options (IsContract std input p.options) input.triggers
            (λ t spec e. parse_candidate-IsContract std input p.options t encodes default e),
        parse_triggers-AreDistinct std input p.options input.triggers (λ n. omega arith),
      ) in
      let P = λ (h : Handled W). Every (IsFaithful namespace name (found object)) h.0 in
      if_both P p.has_sink
        (λ _.
          if_both P (repository.accepts asked)
            (λ _. (
              (object, refl, desired),
              if_both (Every (IsFaithful namespace name (found object))) p.has_trigger_config
                  (λ _. ((object, refl, refl), tt)) (λ _. tt),
            ))
            (λ _. ((object, refl, desired), tt)))
        (λ _. tt)
  reconcile-IsFaithful encodes default namespace name not_found =
      let P = λ (h : Handled W). Every (IsFaithful namespace name not_found) h.0 in
      let key = parent_key (reference p namespace name "" (pos 0)) in
      if_both P p.has_sink
        (λ _.
          if_both P (repository.accepts_parent key)
            (λ _. (
              (refl, refl),
              if_both (Every (IsFaithful namespace name not_found)) p.has_trigger_config
                  (λ _. (refl, tt)) (λ _. tt),
            ))
            (λ _. ((refl, refl), tt)))
        (λ _. tt)
  reconcile-IsFaithful encodes default namespace name unavailable = tt
