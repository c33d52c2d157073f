-- ===== src/Forecast/Seasonal.antt =====
-- internal/forecast/baseline.go, with `SeasonalBaseline` and `ResolveModel` of
-- internal/forecast/model.go: the seasonal baseline. Steps are counted in sampling intervals.
pub mod Peak
use keda_replica_sense.Prelude.{
  ℕ, zero, suc, ◌+◌, ◌-◌, ◌%◌, ℤ, pos, pos_part, ltb, ltb_ℤ, leb_ℤ, eqb_ℤ, ◌==◌, quot, rem, String,
  str_eq, trim_space, List, [], ◌∷◌, map, length, get_elem?, Bool, true, false, ◌||◌, not,
  if◌then◌else◌, Option, none, some, Result, ok, err, ◌>>=◌, Float64,
}
use keda_replica_sense.Dataset.{Sample}
use keda_replica_sense.Forecaster.Service.{Prediction, Request}

pub data BaselineError : Type 0 where
  bad_period bad_horizon short_history not_positive not_whole : BaselineError

pub data Engine : Type 0 where
  seasonal_baseline rolling_quantile holt_winters : Engine

-- `ResolveModel`; `none` is an engine that needs an artifact or is not supported.
unfoldable pub resolve_model : String → Option Engine
unfolding trim_space
resolve_model engine =
    let name = trim_space engine in
    if str_eq name "" || str_eq name "seasonal-baseline"
    then some seasonal_baseline
    else if str_eq name "rolling-quantile"
    then some rolling_quantile
    else if str_eq name "holt-winters"
    then some holt_winters
    else none

module _ {W : Type 0} ⦃f : Float64 W⦄ where
  abbrev pub or_nought : Option W → W
  or_nought none = f.of_int (pos 0)
  or_nought (some x) = x

  -- `history[len(history)-m.PeriodSteps+step%m.PeriodSteps]`, which is in range where the history has
  -- a season.
  unfoldable pub season_value : List W → ℕ → ℕ → W
  season_value history period step =
      or_nought (get_elem? history ((length history - period) + step % period))

  -- The loop, from `step` on.
  unfoldable pub peak_from : (ℕ → W) → ℕ → ℕ → W → W
  peak_from value zero step maximum = maximum
  peak_from value (suc left) step maximum =
      let larger = peak_from value left (suc step) (value step) in
      let same = peak_from value left (suc step) maximum in
      if step == 0 || f.lt maximum (value step) then larger else same

  unfoldable pub predict_horizon_max : ℤ → List W → ℤ → Result BaselineError W
  unfolding peak_from season_value
  predict_horizon_max period history horizon =
      if ltb_ℤ period (pos 1)
      then err bad_period
      else if ltb_ℤ horizon (pos 1)
      then err bad_horizon
      else if ltb_ℤ (pos (length history)) period
      then err short_history
      else ok (
          peak_from (season_value history (pos_part period)) (pos_part horizon) 0
            (f.of_int (pos 0)))

  -- `SeasonalNaive.PredictSamples`.
  unfoldable pub predict_seasonal : List (Sample W) → Request W → Result BaselineError W
  unfolding predict_horizon_max
  predict_seasonal samples r =
      let interval = pos_part r.sampling_interval in
      if leb_ℤ r.horizon (pos 0)
        || leb_ℤ r.sampling_interval (pos 0)
        || leb_ℤ r.seasonal_period (pos 0)
      then err not_positive
      else if not (eqb_ℤ (rem r.horizon interval) (pos 0))
          || not (eqb_ℤ (rem r.seasonal_period interval) (pos 0))
      then err not_whole
      else predict_horizon_max (quot r.seasonal_period interval)
          (map (λ s. s.observed_value) samples) (quot r.horizon interval)

  -- `SeasonalBaseline.PredictSamples`.
  unfoldable pub predict_baseline :
      List (Sample W) → Request W → Result BaselineError (Prediction W)
  unfolding predict_seasonal
  predict_baseline samples r = do
    value ← predict_seasonal samples r
    ok (record { p50 = value; p95 = value })
