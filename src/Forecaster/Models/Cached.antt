-- ===== src/Forecaster/Models/Cached.antt =====
-- What a served model is, and where the entries of the cache come from.
use keda_replica_sense.Prelude.{
  pos, ◌<ℤ◌, ◌≤ℤ◌, sub_time, is_zero_time, String, str_eq, lookup, eq_iff, Time, ◌↔◌, List, [], ◌∷◌,
  true, false, Option, some, Option-cases, ◌≡◌, refl, ◌⊎◌, inl, inr, arith, Float64,
}
use keda_replica_sense.Domain.{SamplingWorkload}
use keda_replica_sense.Dataset.{Among}
use keda_replica_sense.Forecaster.Service.{Model}
use keda_replica_sense.Forecaster.Models.{
  StoredModel, CachedModel, ModelCache, Refreshing, key_of, item_key, retained, put_item,
  refresh_from, refresh, wrong_quantile, model_for,
}

module _ {W : Type 0} ⦃f : Float64 W⦄ where
  pub record IsServed (c : ModelCache W) (w : SamplingWorkload W) (now : Time) (m : Model W)
      : Type 0 where
    pub cached : CachedModel W
    pub found : lookup (key_of w.id w.spec.source_fingerprint) c.models ≡ some cached
    pub same : cached.model ≡ m
    pub unexpired :
        pos 0 <ℤ c.max_age
        → (is_zero_time cached.activated_at ≡ false)
          × (sub_time now cached.activated_at ≤ℤ c.max_age)
    pub right_engine :
        (w.spec.forecast.model_engine ≡ "") ⊎ (m.engine ≡ w.spec.forecast.model_engine)
    pub right_quantile :
        f.lt (f.of_int (pos 0)) w.spec.forecast.quantile ≡ true
        → f.lt w.spec.forecast.quantile (f.of_int (pos 1)) ≡ true
        → (own : W) → m.operational_quantile ≡ some own
        → f.lt (f.ratio 1 1000000000) (f.abs (f.sub own w.spec.forecast.quantile)) ≡ false

  right_quantile_iff :
      (w : SamplingWorkload W) (m : Model W)
      → (wrong_quantile w m ≡ false) ↔ (
          f.lt (f.of_int (pos 0)) w.spec.forecast.quantile ≡ true
          → f.lt w.spec.forecast.quantile (f.of_int (pos 1)) ≡ true
          → (own : W) → m.operational_quantile ≡ some own
          → f.lt (f.ratio 1 1000000000) (f.abs (f.sub own w.spec.forecast.quantile)) ≡ false)
  right_quantile_iff w m = elim (Option-cases m.operational_quantile) [
    | inl e ↦ (λ h low high own found. cc, λ h. ground arith)
    | inr (own, e) ↦ (
      λ h low high other found. ground arith,
      λ h.
          let close =
            λ (low : f.lt (f.of_int (pos 0)) w.spec.forecast.quantile ≡ true)
                (high : f.lt w.spec.forecast.quantile (f.of_int (pos 1)) ≡ true).
              h low high own e in
          ground (arith, close, e),
    )
  ]

  IsServed-of :
      (c : ModelCache W) (w : SamplingWorkload W) (now : Time) (m : Model W)
      → model_for c w now ≡ some m
      → IsServed c w now m
  unfolding model_for
  IsServed-of c w now m h =
      elim (Option-cases (lookup (key_of w.id w.spec.source_fingerprint) c.models)) [
        | inl e ↦ absurd (ground arith)
        | inr (cached, e) ↦
            let served : cached.model ≡ m = ground arith in
            record {
              cached = cached;
              found = e;
              same = ground arith;
              unexpired = ground arith;
              right_engine = ground (
                arith,
                eq_iff w.spec.forecast.model_engine "",
                eq_iff cached.model.engine w.spec.forecast.model_engine,
              );
              right_quantile = rw served at ((right_quantile_iff w cached.model).0 (ground arith));
            }
      ]

  -- A model is served exactly when the cache has it for the workload and its source, its
  -- activation is set and not older than the maximum age where that is positive, its engine is the
  -- one configured where one is, and where the configured quantile is strictly between nought and one
  -- and the model has a quantile of its own, the two differ by no more than 1e-9.
  pub model_for-IsServed :
      (c : ModelCache W) (w : SamplingWorkload W) (now : Time) (m : Model W)
      → (model_for c w now ≡ some m) ↔ IsServed c w now m
  unfolding model_for
  model_for-IsServed c w now m = (
    IsServed-of c w now m,
    λ s. ground (
      arith,
      s.found,
      s.same,
      s.unexpired,
      s.right_engine,
      (right_quantile_iff w m).1 s.right_quantile,
      eq_iff w.spec.forecast.model_engine "",
      eq_iff s.cached.model.engine w.spec.forecast.model_engine,
      eq_iff m.engine w.spec.forecast.model_engine,
    ),
  )

module _ {W : Type 0} (load : StoredModel → Option (Model W)) where
  -- An entry stems from a stored model of its key, with that model's id and activation. What it
  -- serves was loaded from it, or was cached before under that key and id.
  pub record IsSourced (previous : List (String × CachedModel W)) (stored : List StoredModel)
      (key : String) (entry : CachedModel W) : Type 0 where
    pub item : StoredModel
    pub among : Among item stored
    pub keyed : item_key item ≡ key
    pub named : item.id ≡ entry.id
    pub activated : item.activated_at ≡ entry.activated_at
    pub origin :
        (load item ≡ some entry.model)
        ⊎ ((old : CachedModel W) × (lookup key previous ≡ some old)
            × (old.id ≡ item.id)
            × (old.model ≡ entry.model))

  abbrev pub AllSourced :
      List (String × CachedModel W) → List StoredModel → List (String × CachedModel W) → Type 0
  AllSourced previous stored [] = Unit
  AllSourced previous stored ((key, entry) ∷ rest) =
      IsSourced previous stored key entry × AllSourced previous stored rest

  retained_found :
      (previous : List (String × CachedModel W)) (item : StoredModel) (cached : CachedModel W)
      → retained load previous item ≡ some cached
      → (lookup (item_key item) previous ≡ some cached) × (str_eq cached.id item.id ≡ true)
  unfolding retained
  retained_found previous item cached h = elim (Option-cases (lookup (item_key item) previous)) [
    | inl e ↦ absurd (ground arith)
    | inr (old, e) ↦ ground arith
  ]

  put_item-AllSourced :
      (previous : List (String × CachedModel W)) (stored : List StoredModel) (item : StoredModel)
      (r : Refreshing W)
      → Among item stored
      → AllSourced previous stored r.next
      → AllSourced previous stored (put_item load item (retained load previous item) r).next
  put_item-AllSourced previous stored item r a k =
      elim (Option-cases (retained load previous item)) [
        | inr (cached, e) ↦
            let (found, same) = retained_found previous item cached e in
            rw e (
              record {
                item = item;
                among = a;
                keyed = refl;
                named = refl;
                activated = refl;
                origin = inr (cached, found, (eq_iff cached.id item.id).0 same, refl);
              },
              k,
            )
        | inl e ↦ elim (Option-cases (load item)) [
          | inl missing ↦ rw (e, missing) k
          | inr (model, loaded) ↦
              rw (e, loaded)
                (
                  record {
                    item = item;
                    among = a;
                    keyed = refl;
                    named = refl;
                    activated = refl;
                    origin = inl loaded;
                  },
                  k,
                )
        ]
      ]

  -- Every model of a list is among it, seen from a longer list.
  unfoldable AllAmong : List StoredModel → List StoredModel → Type 0
  AllAmong [] stored = Unit
  AllAmong (x ∷ xs) stored = Among x stored × AllAmong xs stored

  AllAmong-cons :
      (xs stored : List StoredModel) (y : StoredModel)
      → AllAmong xs stored
      → AllAmong xs (y ∷ stored)
  unfolding AllAmong
  AllAmong-cons [] stored y a = tt
  AllAmong-cons (x ∷ xs) stored y a = (inr a.0, AllAmong-cons xs stored y a.1)

  AllAmong-refl : (xs : List StoredModel) → AllAmong xs xs
  unfolding AllAmong
  AllAmong-refl [] = tt
  AllAmong-refl (x ∷ xs) = (inl refl, AllAmong-cons xs xs x (AllAmong-refl xs))

  refresh_from-AllSourced :
      (previous : List (String × CachedModel W)) (stored items : List StoredModel)
      (r : Refreshing W)
      → AllAmong items stored
      → AllSourced previous stored r.next
      → AllSourced previous stored (refresh_from load previous items r).next
  unfolding refresh_from AllAmong
  refresh_from-AllSourced previous stored [] r a k = k
  refresh_from-AllSourced previous stored (item ∷ items) r a k =
      refresh_from-AllSourced previous stored items
        (put_item load item (retained load previous item) r) a.1
        (put_item-AllSourced previous stored item r a.0 k)

  -- A refresh of a configured cache that is given the active models leaves entries that stem from
  -- them only: each has the key, the id and the activation of one of them, and the model that loads
  -- from it or that was cached before under its key and id.
  pub refresh-AllSourced :
      (c : ModelCache W) (stored : List StoredModel)
      → c.has_reader ≡ true
      → str_eq c.cluster_id "" ≡ false
      → AllSourced c.models stored (refresh load c (some stored)).0.models
  unfolding refresh
  refresh-AllSourced c stored r n =
      rw (r, n)
        (refresh_from-AllSourced c.models stored stored (record { next = []; failed = [] })
          (AllAmong-refl stored) tt)
