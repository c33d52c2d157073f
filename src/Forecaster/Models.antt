-- ===== src/Forecaster/Models.antt =====
-- internal/forecaster/model_cache.go, and `StoredModel` of internal/forecast/model.go: the cache of
-- active models. Its map is an association list in which the latest write comes first; the loader of
-- artifacts is an argument.
pub mod Cached
use Prim.Native.String.{◌++◌ as ◌+ₛ◌}
use keda_replica_sense.Prelude.{
  ℕ, pos, ltb_ℤ, String, str_eq, lookup, Time, Duration, sub_time, is_zero_time, List, [], ◌∷◌,
  Bool, true, false, ◌&&◌, ◌||◌, not, if◌then◌else◌, Option, none, some, Float64,
}
use keda_replica_sense.Domain.{SamplingWorkload}
use keda_replica_sense.Forecaster.Service.{Model}

pub record StoredModel : Type 0 where
  pub id : String
  pub workload_id : String
  pub source_fingerprint : String
  pub engine : String
  pub artifact : String
  pub activated_at : Time

pub record CachedModel (W : Type 0) : Type 0 where
  pub id : String
  pub model : Model W
  pub activated_at : Time

pub record ModelCache (W : Type 0) : Type 0 where
  pub cluster_id : String
  pub has_reader : Bool
  pub max_age : Duration
  pub models : List (String × CachedModel W)

pub data RefreshError : Type 0 where
  not_configured list_failed : RefreshError
  -- The ids of the models that did not load, newest first.
  load_failed : List String → RefreshError

abbrev pub key_of : String → String → String
key_of workload_id fingerprint = workload_id +ₛ (":" +ₛ fingerprint)

abbrev pub item_key : StoredModel → String
item_key item = key_of item.workload_id item.source_fingerprint

-- The map that is built, and the ids that failed.
pub record Refreshing (W : Type 0) : Type 0 where
  pub next : List (String × CachedModel W)
  pub failed : List String

unfoldable pub new_model_cache : {W : Type 0} → String → Bool → Duration → ModelCache W
new_model_cache cluster_id has_reader max_age = record {
  cluster_id = cluster_id;
  has_reader = has_reader;
  max_age = max_age;
  models = [];
}

module _ {W : Type 0} (load : StoredModel → Option (Model W)) where
  -- An entry of an earlier refresh is kept under an unchanged id.
  unfoldable pub retained : List (String × CachedModel W) → StoredModel → Option (CachedModel W)
  unfolding lookup
  retained previous item = elim (lookup (item_key item) previous) [
    | none ↦ none
    | some cached ↦ if str_eq cached.id item.id then some cached else none
  ]

  abbrev pub put : StoredModel → Model W → Refreshing W → Refreshing W
  put item model r = record r {
    next =
        (item_key item, record { id = item.id; model = model; activated_at = item.activated_at })
        ∷ r.next;
  }

  abbrev pub put_loaded : StoredModel → Option (Model W) → Refreshing W → Refreshing W
  put_loaded item none r = record r { failed = item.id ∷ r.failed }
  put_loaded item (some model) r = put item model r

  abbrev pub put_item : StoredModel → Option (CachedModel W) → Refreshing W → Refreshing W
  put_item item (some cached) r = put item cached.model r
  put_item item none r = put_loaded item (load item) r

  -- The loop over the stored models.
  unfoldable pub refresh_from :
      List (String × CachedModel W) → List StoredModel → Refreshing W → Refreshing W
  unfolding retained
  refresh_from previous [] r = r
  refresh_from previous (item ∷ items) r =
      refresh_from previous items (put_item item (retained previous item) r)

  abbrev pub load_errors : List String → Option RefreshError
  load_errors [] = none
  load_errors (x ∷ xs) = some (load_failed (x ∷ xs))

  -- `Refresh`; the reader answers with the active models, or with an error.
  unfoldable pub refresh :
      ModelCache W → Option (List StoredModel) → ModelCache W × Option RefreshError
  unfolding refresh_from
  refresh c answer =
      if not c.has_reader || str_eq c.cluster_id ""
      then (c, some not_configured)
      else (elim answer [
        | none ↦ (c, some list_failed)
        | some stored ↦
            let r = refresh_from c.models stored (record { next = []; failed = [] }) in
            (record c { models = r.next }, load_errors r.failed)
      ])

module _ {W : Type 0} ⦃f : Float64 W⦄ where
  -- `time.Since` reads the clock at `now`.
  abbrev pub expired : Duration → CachedModel W → Time → Bool
  expired max_age cached now =
      ltb_ℤ (pos 0) max_age
      && (is_zero_time cached.activated_at || ltb_ℤ max_age (sub_time now cached.activated_at))

  abbrev quantile_off : W → Option W → Bool
  quantile_off configured none = false
  quantile_off configured (some own) = f.lt (f.ratio 1 1000000000) (f.abs (f.sub own configured))

  abbrev pub wrong_quantile : SamplingWorkload W → Model W → Bool
  wrong_quantile w m =
      let configured = w.spec.forecast.quantile in
      f.lt (f.of_int (pos 0)) configured
      && f.lt configured (f.of_int (pos 1))
      && quantile_off configured m.operational_quantile

  abbrev pub wrong_engine : SamplingWorkload W → Model W → Bool
  wrong_engine w m =
      not (str_eq w.spec.forecast.model_engine "")
      && not (str_eq m.engine w.spec.forecast.model_engine)

  unfoldable pub model_for : ModelCache W → SamplingWorkload W → Time → Option (Model W)
  unfolding lookup
  model_for c w now = elim (lookup (key_of w.id w.spec.source_fingerprint) c.models) [
    | none ↦ none
    | some cached ↦
        if expired c.max_age cached now
        then none
        else if wrong_engine w cached.model
        then none
        else if wrong_quantile w cached.model
        then none
        else some cached.model
  ]
