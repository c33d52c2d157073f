-- ===== src/Forecaster/Detect.antt =====
-- internal/forecaster/service.go, `surgeLeadTime` and `detectSurge`: the evidence for a surge in the
-- newest real observations. `none` is the run-time panic on an index or a capacity out of range.
use keda_replica_sense.Prelude.{
  ℕ, zero, suc, ◌-◌, ℤ, pos, pos_part, ltb_ℤ, leb_ℤ, quot, rem, wrap64, ◌-ℤ◌, ◌+ℤ◌, Duration,
  add_dur, List, [], ◌∷◌, length, take, drop, get_elem?, Bool, true, ◌&&◌, ◌||◌, not, if◌then◌else◌,
  Option, none, some, Float64,
}
use keda_replica_sense.Domain.{ForecastConfig}
use keda_replica_sense.Dataset.{Sample}
use keda_replica_sense.Safety.{
  SurgePolicy, SurgeResult, SurgeInput, default_surge_policy, is_surge_candidate, detect_surge,
  no_surge,
}

-- `defaultSurgeLeadTime`.
abbrev pub default_surge_lead_time : Duration
default_surge_lead_time = pos 120000000000

unfoldable pub surge_lead_time : {W : Type 0} → ForecastConfig W → Duration
surge_lead_time c =
    let lead_time = add_dur c.startup_latency c.safety_buffer in
    if leb_ℤ lead_time (pos 0) then default_surge_lead_time else lead_time

abbrev pub baseline_samples : ℕ
baseline_samples = 5

module _ {W : Type 0} ⦃f : Float64 W⦄ where
  -- `d.Minutes()`.
  abbrev pub minutes_of : Duration → W
  minutes_of d =
      f.add (f.of_int (quot d 60000000000))
        (f.div (f.of_int (rem d 60000000000)) (f.of_int (pos 60000000000)))

  -- `sort.Float64s`: increasing, with NaN first.
  abbrev pub float_less : W → W → Bool
  float_less x y = f.lt x y || (f.is_nan x && not (f.is_nan y))

  unfoldable pub insert_float : W → List W → List W
  insert_float x [] = x ∷ []
  insert_float x (y ∷ ys) =
      let rest = insert_float x ys in if float_less y x then y ∷ rest else x ∷ y ∷ ys

  unfoldable pub sort_floats : List W → List W
  unfolding insert_float
  sort_floats [] = []
  sort_floats (x ∷ xs) = insert_float x (sort_floats xs)

  -- The slope of each step, per minute.
  unfoldable pub slopes_from : W → Sample W → List (Sample W) → List W
  slopes_from minutes previous [] = []
  slopes_from minutes previous (s ∷ ss) =
      f.div (f.sub s.observed_value previous.observed_value) minutes ∷ slopes_from minutes s ss

  unfoldable pub slopes : W → List (Sample W) → List W
  unfolding slopes_from
  slopes minutes [] = []
  slopes minutes (s ∷ ss) = slopes_from minutes s ss

  -- `slopes[int(math.Ceil(float64(len(slopes))*0.95))-1]`, sorted.
  unfoldable pub slope_p95 : List W → Option W
  unfolding sort_floats
  slope_p95 xs =
      let index = f.to_int (f.ceil (f.mul (f.of_int (pos (length xs))) (f.ratio 19 20))) -ℤ pos 1 in
      if ltb_ℤ index (pos 0) then none else get_elem? (sort_floats xs) (pos_part index)

  unfoldable pub sum_values : W → List (Sample W) → W
  sum_values acc [] = acc
  sum_values acc (s ∷ ss) = sum_values (f.add acc s.observed_value) ss

  -- The value at an index that the length test has put within the list.
  abbrev pub value_or_zero : Option (Sample W) → W
  value_or_zero none = f.of_int (pos 0)
  value_or_zero (some s) = s.observed_value

  abbrev pub value_at : List (Sample W) → ℕ → W
  value_at samples i = value_or_zero (get_elem? samples i)

  -- The mean of the five samples before index `candidate`.
  unfoldable pub mean_before : List (Sample W) → ℕ → W
  unfolding sum_values
  mean_before samples candidate =
      f.div
        (sum_values (f.of_int (pos 0))
          (take baseline_samples (drop (candidate - baseline_samples) samples)))
        (f.of_int (pos baseline_samples))

  -- The evidence at one index.
  unfoldable pub surge_input : List (Sample W) → Duration → Duration → W → ℕ → SurgeInput W
  unfolding mean_before
  surge_input samples interval lead_time p95 candidate = record {
    current_value = value_at samples candidate;
    recent_baseline = mean_before samples candidate;
    current_slope_per_minute =
        f.div (f.sub (value_at samples candidate) (value_at samples (candidate - 1)))
          (minutes_of interval);
    historical_slope_p95 = p95;
    lead_time_minutes = minutes_of lead_time;
  }

  -- The last `left` indices are all candidates.
  unfoldable pub confirmed : List (Sample W) → Duration → Duration → SurgePolicy W → W → ℕ → Bool
  unfolding surge_input
  confirmed samples interval lead_time policy p95 zero = true
  confirmed samples interval lead_time policy p95 (suc left) =
      is_surge_candidate (surge_input samples interval lead_time p95 (length samples - suc left))
        policy
      && confirmed samples interval lead_time policy p95 left

  abbrev pub confirmation_count : SurgePolicy W → ℤ
  confirmation_count policy =
      if ltb_ℤ policy.confirmation_samples (pos 1)
      then (default_surge_policy {W = W}).confirmation_samples
      else policy.confirmation_samples

  -- From the percentile on.
  unfoldable pub detect_confirmed :
      List (Sample W) → Duration → Duration → SurgePolicy W → ℕ → W → SurgeResult W
  unfolding confirmed surge_input
  detect_confirmed samples interval lead_time policy confirmation p95 =
      if confirmed samples interval lead_time policy p95 confirmation
      then detect_surge (surge_input samples interval lead_time p95 (length samples - 1)) policy
      else no_surge

  unfoldable pub detect_sample_surge :
      List (Sample W) → Duration → Duration → SurgePolicy W → Option (SurgeResult W)
  unfolding slopes slope_p95 detect_confirmed
  detect_sample_surge samples interval lead_time policy =
      let confirmation = confirmation_count policy in
      let count : ℤ = pos (length samples) in
      let history_end = wrap64 (count -ℤ confirmation) in
      let history = slopes (minutes_of interval) (take (pos_part history_end) samples) in
      if ltb_ℤ count (wrap64 (confirmation +ℤ pos baseline_samples))
        || leb_ℤ interval (pos 0)
        || f.le (minutes_of interval) (f.of_int (pos 0))
      then some no_surge
      else if leb_ℤ history_end (pos 0)
      then none
      else if leb_ℤ (pos (length history)) (pos 0)
      then some no_surge
      else (elim (slope_p95 history) [
        | none ↦ none
        | some p95 ↦
            some (detect_confirmed samples interval lead_time policy (pos_part confirmation) p95)
      ])
