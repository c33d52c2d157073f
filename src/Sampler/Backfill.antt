-- ===== src/Sampler/Backfill.antt =====
-- internal/sampler/backfill.go, with `BuildSample` of internal/sampler/contracts.go: range queries in
-- chunks. The loop runs on fuel, since a step that is not positive makes no progress. The ranges asked
-- for are logged; what the source and the store answer is an argument.
pub mod Chunks
use keda_replica_sense.Prelude.{
  ℕ, zero, suc, ℤ, pos, pos_part, ltb_ℤ, leb_ℤ, eqb_ℤ, quot, wrap64, neg, ◌-ℤ◌, Time, Duration,
  truncate, add_time, sub_time, mul_dur, is_zero_time, List, [], ◌∷◌, ◌++◌, map, Bool, true, false,
  not, ◌&&◌, ◌||◌, if◌then◌else◌, Option, none, some,
}
use keda_replica_sense.Domain.{SamplingWorkload}
use keda_replica_sense.Dataset.{Sample}

pub record TimedValue (W : Type 0) : Type 0 where
  pub observed_at : Time
  pub value : W

pub record SampleCoverage : Type 0 where
  pub oldest_observed_at : Time
  pub newest_observed_at : Time
  pub count : ℤ

-- What a range query answers, from `Start` to `End` at the sampling interval; `none` is an error.
abbrev pub RangeQuerier : Type 0 → Type 0
RangeQuerier W = Time → Time → Option (List (TimedValue W))

pub record Backfiller (W : Type 0) : Type 0 where
  pub configured : Bool
  pub coverage : Time → Time → Option SampleCoverage
  pub query_range : RangeQuerier W
  pub upsert : List (Sample W) → Bool
  pub recovery_window : Duration

-- How the loop ends.
pub data Fetched (W : Type 0) : Type 0 where
  exhausted failed : Fetched W
  fetched : List (Sample W) → Fetched W

-- How a call ends: with nothing to do, with the samples that are stored, or with an error.
pub data Filled (W : Type 0) : Type 0 where
  no_progress not_needed coverage_failed query_failed : Filled W
  stored store_failed : List (Sample W) → Filled W

abbrev pub Ranges : Type 0
Ranges = List (Time × Time)

-- `time.Duration(maxPoints-1) * interval`.
unfoldable pub chunk_span : Duration → Duration
chunk_span interval = mul_dur (pos 9999) interval

abbrev pub chunk_end : Time → Time → Duration → Time
chunk_end start stop span = if ltb_ℤ stop (add_time start span) then stop else add_time start span

-- Enough rounds for a positive step: a chunk spans a nanosecond at least.
abbrev pub fuel_for : Time → Time → ℕ
fuel_for start stop = suc (pos_part (stop -ℤ start))

abbrev recovery_start : SampleCoverage → Time → Duration → Time
recovery_start c start interval =
    if not (is_zero_time c.newest_observed_at) && ltb_ℤ start c.newest_observed_at
    then add_time c.newest_observed_at interval
    else start

unfoldable pub has_sufficient_history : SampleCoverage → Time → Time → Duration → Bool
has_sufficient_history c start stop interval =
    let minimum = wrap64 (quot (sub_time stop start) (pos_part interval) -ℤ pos 2) in
    if eqb_ℤ c.count (pos 0) || leb_ℤ interval (pos 0) || ltb_ℤ stop start
    then false
    else leb_ℤ (if ltb_ℤ minimum (pos 1) then pos 1 else minimum) c.count
      && not (ltb_ℤ (add_time start interval) c.oldest_observed_at)
      && not (ltb_ℤ c.newest_observed_at (add_time stop (mul_dur (neg (pos 2)) interval)))

module _ {W : Type 0} where
  unfoldable pub build_sample : SamplingWorkload W → TimedValue W → Sample W
  build_sample w v = record {
    cluster_id = w.spec.key.cluster_id;
    workload_id = w.id;
    source_fingerprint = w.spec.source_fingerprint;
    observed_at = v.observed_at;
    observed_value = v.value;
  }

  -- The rest of the loop after a chunk that was asked for.
  abbrev pub and_range : Time × Time → Ranges × Fetched W → Ranges × Fetched W
  and_range range (ranges, result) = (range ∷ ranges, result)

  unfoldable pub fetch_from :
      (TimedValue W → Sample W)
      → RangeQuerier W
      → Duration
      → Time
      → ℕ
      → Time
      → List (Sample W)
      → Ranges × Fetched W
  fetch_from build query span stop zero start samples = ([], exhausted)
  fetch_from build query span stop (suc fuel) start samples =
      let last = chunk_end start stop span in
      let rest = λ (values : List (TimedValue W)).
        fetch_from build query span stop fuel last (samples ++ map build values) in
      if ltb_ℤ stop start then ([], fetched samples) else (elim (query start last) [
        | none ↦ ((start, last) ∷ [], failed)
        | some values ↦
            if eqb_ℤ last stop
            then ((start, last) ∷ [], fetched (samples ++ map build values))
            else and_range (start, last) (rest values)
      ])

  abbrev pub store_samples : Backfiller W → List (Sample W) → Filled W
  store_samples b [] = not_needed
  store_samples b (s ∷ ss) = if b.upsert (s ∷ ss) then stored (s ∷ ss) else store_failed (s ∷ ss)

  abbrev pub filled_of : Backfiller W → Fetched W → Filled W
  filled_of b exhausted = no_progress
  filled_of b failed = query_failed
  filled_of b (fetched samples) = store_samples b samples

  unfoldable pub query_and_store :
      Backfiller W → SamplingWorkload W → Time → Time → Ranges × Filled W
  unfolding fetch_from
  query_and_store b w start stop =
      let r =
        fetch_from (build_sample w) b.query_range (chunk_span w.spec.forecast.sampling_interval)
          stop (fuel_for start stop) start [] in
      if not (ltb_ℤ start stop) then ([], not_needed) else (r.0, filled_of b r.1)

  unfoldable pub recover_recent_history :
      Backfiller W → SamplingWorkload W → Time → Ranges × Filled W
  unfolding query_and_store
  recover_recent_history b w now =
      let interval = w.spec.forecast.sampling_interval in
      let stop = truncate now interval in
      let window : Duration =
        if leb_ℤ b.recovery_window (pos 0) then pos 86400000000000 else b.recovery_window in
      let start = add_time stop (wrap64 (neg window)) in
      if not b.configured || leb_ℤ interval (pos 0)
      then ([], not_needed)
      else (elim (b.coverage start stop) [
        | none ↦ ([], coverage_failed)
        | some c ↦
            if ltb_ℤ (recovery_start c start interval) stop
            then query_and_store b w (recovery_start c start interval) stop
            else ([], not_needed)
      ])

  unfoldable pub ensure_history : Backfiller W → SamplingWorkload W → Time → Ranges × Filled W
  unfolding query_and_store has_sufficient_history
  ensure_history b w now =
      let interval = w.spec.forecast.sampling_interval in
      let stop = truncate now interval in
      let start = add_time stop (wrap64 (neg w.spec.forecast.training_window)) in
      elim (b.coverage start stop) [
        | none ↦ ([], coverage_failed)
        | some c ↦
            if has_sufficient_history c start stop interval
            then ([], not_needed)
            else query_and_store b w start stop
      ]
