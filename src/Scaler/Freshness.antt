-- ===== src/Scaler/Freshness.antt =====
-- What the scaler serves: a fresh snapshot's demand, or zero.
use keda_replica_sense.Prelude.{
  pos, ◌≤ℤ◌, ◌<ℤ◌, ◌-ℤ◌, -ℤ_parts, Time, Duration, sub_time, max_int64, ◌≡◌, refl, ◌↔◌, ◌⊎◌, inl,
  inr, ◌≢◌, Bool, true, false, Option, none, some, ok, arith, eq_iff, str_eq, Option-cases, sym,
  ◌∙◌, Float64, IsOrdered,
}
use keda_replica_sense.Scaler.{
  ForecastSnapshot, ScaledObjectRef, GetMetricsRequest, Server, snapshot_fresh, source_trigger,
  key_of, max_age, max_source_age, read_snapshot, is_active, get_metrics, demand_if, positive_if,
  Lookup,
}

-- The instant lies in the past, and not further back than the bound.
pub record IsRecent (at now : Time) (bound : Duration) : Type 0 where
  pub past : at ≤ℤ now
  pub young : now -ℤ at ≤ℤ bound

IsRecent-of_fresh :
    (at now : Time) (bound : Duration)
    → bound <ℤ max_int64
    → snapshot_fresh at now bound ≡ true
    → IsRecent at now bound
unfolding snapshot_fresh sub_time
IsRecent-of_fresh at now bound b h = ground (arith, -ℤ_parts now at)

fresh_of_recent :
    (at now : Time) (bound : Duration)
    → IsRecent at now bound
    → pos 0 ≤ℤ bound
    → snapshot_fresh at now bound ≡ true
unfolding snapshot_fresh sub_time
fresh_of_recent at now bound r z = ground (arith, -ℤ_parts now at)

-- For a bound that is not negative and is below the largest duration, the saturating test accepts
-- exactly the instants that lie in the past and within the bound.
snapshot_fresh-IsRecent :
    (at now : Time) (bound : Duration)
    → pos 0 ≤ℤ bound
    → bound <ℤ max_int64
    → (snapshot_fresh at now bound ≡ true) ↔ IsRecent at now bound
snapshot_fresh-IsRecent at now bound z b =
    (IsRecent-of_fresh at now bound b, λ r. fresh_of_recent at now bound r z)

module _ {W : Type 0} where
  -- A snapshot that may be served to `r` at `now`.
  pub record IsServable (s : Server W) (r : ScaledObjectRef) (now : Time)
      (snapshot : ForecastSnapshot W) : Type 0 where
    pub generated : IsRecent snapshot.generated_at now (max_age s)
    pub sourced : IsRecent snapshot.observed_at now (max_source_age s)
    pub cluster : s.cluster_id ≢ ""
    pub trigger : source_trigger r ≢ ""
    pub stored :
        (latest : Lookup → Option (ForecastSnapshot W)) × (s.snapshot_reader ≡ some latest)
        × (latest (key_of s r) ≡ some snapshot)

module _ {W : Type 0} (s : Server W) where
  fresh_parts :
      (r : ScaledObjectRef) (now : Time) (snapshot : ForecastSnapshot W)
      → read_snapshot s (some r) now ≡ (some snapshot, true)
      → (latest : Lookup → Option (ForecastSnapshot W)) → s.snapshot_reader ≡ some latest
      → (latest (key_of s r) ≡ some snapshot)
        × (str_eq s.cluster_id "" ≡ false)
        × (str_eq (source_trigger r) "" ≡ false)
        × (snapshot_fresh snapshot.generated_at now (max_age s) ≡ true)
        × (snapshot_fresh snapshot.observed_at now (max_source_age s) ≡ true)
  unfolding read_snapshot
  fresh_parts r now snapshot h latest e = ground arith

  no_reader :
      (r : ScaledObjectRef) (now : Time) (snapshot : ForecastSnapshot W)
      → read_snapshot s (some r) now ≡ (some snapshot, true)
      → s.snapshot_reader ≡ none
      → ⊥
  unfolding read_snapshot
  no_reader r now snapshot h e = ground arith

module _ {W : Type 0} (s : Server W) (young : max_age s <ℤ max_int64)
    (sound : max_source_age s <ℤ max_int64) where
  read_snapshot-IsServable :
      (r : ScaledObjectRef) (now : Time) (snapshot : ForecastSnapshot W)
      → read_snapshot s (some r) now ≡ (some snapshot, true)
      → IsServable s r now snapshot
  read_snapshot-IsServable r now snapshot h = elim (Option-cases s.snapshot_reader) [
    | inl e ↦ absurd (no_reader s r now snapshot h e)
    | inr (latest, e) ↦
        let (at_key, cluster, trigger, fresh, source) = fresh_parts s r now snapshot h latest e in
        record {
          generated = IsRecent-of_fresh _ _ _ young fresh;
          sourced = IsRecent-of_fresh _ _ _ sound source;
          cluster = λ c. cc (cluster, (eq_iff s.cluster_id "").1 c);
          trigger = λ c. cc (trigger, (eq_iff (source_trigger r) "").1 c);
          stored = (latest, e, at_key);
        }
  ]

module _ {W : Type 0} ⦃f : Float64 W⦄ (s : Server W) where
  demand_cases :
      (read : Option (ForecastSnapshot W) × Bool)
      → (demand_if read ≡ f.of_int (pos 0))
        ⊎ ((snapshot : ForecastSnapshot W) × (read ≡ (some snapshot, true))
            × (demand_if read ≡ snapshot.safe_demand))
  demand_cases (none, b) = inl refl
  demand_cases (some snapshot, true) = inr (snapshot, refl, refl)
  demand_cases (some snapshot, false) = inl refl

  demand_of_get_metrics :
      (request : GetMetricsRequest) (r : ScaledObjectRef) (now later : Time) (v : W)
      → request.scaled_object_ref ≡ some r
      → (get_metrics s (some request) now later).0 ≡ ok v
      → demand_if (read_snapshot s (some r) now) ≡ v
  unfolding get_metrics
  demand_of_get_metrics request r now later v e h = ground arith

  -- For age bounds below the largest duration, a value that is served is zero, or the safe demand
  -- of the snapshot that the reader has under the request's key, at which both the forecast and
  -- the observation behind it are recent, with a named cluster and source trigger.
  pub get_metrics-IsServable :
      max_age s <ℤ max_int64
      → max_source_age s <ℤ max_int64
      → (request : GetMetricsRequest) (r : ScaledObjectRef) (now later : Time) (v : W)
      → request.scaled_object_ref ≡ some r
      → (get_metrics s (some request) now later).0 ≡ ok v
      → (v ≡ f.of_int (pos 0))
        ⊎ ((snapshot : ForecastSnapshot W) × IsServable s r now snapshot
            × (v ≡ snapshot.safe_demand))
  get_metrics-IsServable young sound request r now later v e h =
      elim (demand_cases (read_snapshot s (some r) now)) [
        | inl nought ↦ inl (sym (demand_of_get_metrics request r now later v e h) ∙ nought)
        | inr (snapshot, fresh, demand) ↦ inr (
          snapshot,
          read_snapshot-IsServable s young sound r now snapshot fresh,
          sym (demand_of_get_metrics request r now later v e h) ∙ demand,
        )
      ]

  positive_demand :
      IsOrdered W
      → (read : Option (ForecastSnapshot W) × Bool)
      → positive_if read ≡ f.lt (f.of_int (pos 0)) (demand_if read)
  positive_demand o (some snapshot, true) = refl
  positive_demand o (some snapshot, false) =
      ground (arith, o.of_int_number (pos 0), o.lt-eq-not-le (f.of_int (pos 0)) (f.of_int (pos 0)))
  positive_demand o (none, b) =
      ground (arith, o.of_int_number (pos 0), o.lt-eq-not-le (f.of_int (pos 0)) (f.of_int (pos 0)))

  -- The two handlers agree: at one instant, where a metric is served for a reference, its trigger
  -- is active exactly when that metric is positive.
  pub is_active-get_metrics :
      IsOrdered W
      → (request : GetMetricsRequest) (r : ScaledObjectRef) (now later : Time) (v : W)
      → request.scaled_object_ref ≡ some r
      → (get_metrics s (some request) now later).0 ≡ ok v
      → (is_active s (some r) now later).0 ≡ f.lt (f.of_int (pos 0)) v
  unfolding is_active
  is_active-get_metrics o request r now later v e h = ground (
    arith,
    positive_demand o (read_snapshot s (some r) now),
    demand_of_get_metrics request r now later v e h,
  )
