-- ===== src/Forecast/Tests.antt =====
-- An instance of the seasonal baseline.
use keda_replica_sense.Prelude.{pos, List, [], ◌∷◌, ok, ◌≡◌, refl}
use keda_replica_sense.Prelude.Billionths.{Billionths, billionths, milli, Billionths-IsOrdered}
use keda_replica_sense.Forecast.Seasonal.{season_value, peak_from, predict_horizon_max}
use keda_replica_sense.Forecast.Seasonal.Peak.{
  IsLargest, last_season, predict_horizon_max-IsLargest,
}

abbrev history : List Billionths
history = milli 9000 ∷ milli 1000 ∷ milli 5000 ∷ milli 3000 ∷ []

-- The last season of three has its largest value in the second of two steps.
peak_of_two : predict_horizon_max (pos 3) history (pos 2) ≡ ok (milli 5000)
unfolding predict_horizon_max season_value peak_from billionths
peak_of_two = refl

predict_horizon_max-IsLargest_example : IsLargest (milli 5000) (last_season 3 2 history)
unfolding billionths
predict_horizon_max-IsLargest_example =
    predict_horizon_max-IsLargest Billionths-IsOrdered (pos 3) (pos 2) history (milli 5000)
      (refl, (refl, (refl, (refl, tt)))) peak_of_two
