-- ===== src/Controller/Reconcile/Tests.antt =====
-- Runs and instances of the reconciliation.
use keda_replica_sense.Prelude.{pos, none, some, true, false, [], ◌∷◌, ◌≡◌, refl, Every}
use keda_replica_sense.Prelude.Billionths.{Billionths, billionths}
use keda_replica_sense.ScaledObject.Fixtures.{
  standard, standard-EncodesFinite, default-is_quantile, signal, predictive, options,
}
use keda_replica_sense.Controller.Reconcile.{
  KedaObject, Processor, Repository, found, not_found, reconcile, deactivate_scaled_object,
  deactivated,
}
use keda_replica_sense.Controller.Reconcile.Faithful.{IsFaithful, reconcile-IsFaithful, parent_of}

abbrev object : KedaObject
object = record {
  namespace = "shop";
  name = "web";
  uid = "u1";
  generation = pos 1;
  scale_target_ref = some "web";
  min_replica_count = none;
  max_replica_count = none;
  triggers = signal ∷ predictive ∷ [];
}

abbrev processor : Processor
processor = record { options = options; has_sink = true; has_trigger_config = false }

abbrev repository : Repository Billionths
repository = record { accepts = λ r. true; accepts_parent = λ key. true }

reconcile-IsFaithful_example :
    Every
      (IsFaithful standard repository processor "shop" "web" (found object))
      (reconcile standard repository processor "shop" "web" (found object)).0
reconcile-IsFaithful_example =
    reconcile-IsFaithful standard repository processor standard-EncodesFinite default-is_quantile
      "shop" "web" (found object)

gone :
    (reconcile standard repository processor "shop" "web" not_found).0
    ≡ deactivated (parent_of processor "shop" "web") ∷ []
unfolding reconcile deactivate_scaled_object
gone = refl
