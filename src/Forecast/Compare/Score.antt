-- ===== src/Forecast/Compare/Score.antt =====
-- internal/forecast/comparison.go, `CompareArtifacts`: the scores of the models on the windows. The
-- models come in the order in which the map is ranged over.
use keda_replica_sense.Prelude.{
  ℕ, suc, ◌+◌, ◌-◌, ℤ, pos, pos_part, ltb_ℤ, leb_ℤ, ◌+ℤ◌, ◌-ℤ◌, quot, rem, wrap64, ltb, Duration,
  sub_time, mul_dur, String, str_eq, List, [], ◌∷◌, map, length, take, drop, get_or, Bool, not,
  ◌&&◌, ◌||◌, max_int64, if◌then◌else◌, Option, none, some, Result, ok, err, ◌>>=◌, ◌>>◌, guard,
  Float64,
}
use keda_replica_sense.Dataset.{Sample, is_finite}
use keda_replica_sense.Forecaster.Service.{Model, Request, Prediction}
use keda_replica_sense.Training.{ValidationMetrics, Comparison}
use keda_replica_sense.Forecast.Compare.{
  ComparisonOptions, CompareError, bad_contract, too_few_windows, short_evaluation, cancelled,
  not_evaluated, bad_prediction, nonfinite_score, index_panic, max_int, selected_windows, time_at,
  segment_starts, windows, valid_comparison, select_points, needed_history, largest, peak_cutoff,
}

-- A window to score: its cut and its observed maximum.
pub record Window (W : Type 0) : Type 0 where
  pub cut : ℕ
  pub actual : W

-- The observations, the windows and the cutoff that the models share.
pub record Plan (W : Type 0) : Type 0 where
  pub samples : List (Sample W)
  pub starts : List ℕ
  pub steps : ℕ
  pub history : ℕ
  pub indexes : List ℕ

abbrev pub or_error : {A : Type 0} → CompareError → Option A → Result CompareError A
or_error e none = err e
or_error e (some a) = ok a

abbrev pub last_index : ℕ → List ℕ → ℕ
last_index n [] = n
last_index n (i ∷ is) = last_index i is

module _ {W : Type 0} ⦃f : Float64 W⦄ where
  abbrev pub nought : W
  nought = f.of_int (pos 0)

  abbrev pub one : W
  one = f.of_int (pos 1)

  abbrev pub count_if : Bool → W → W
  count_if b x = if b then f.add x one else x

  -- `request.Horizon.Minutes()`.
  unfoldable pub minutes_of : Duration → W
  minutes_of d =
      f.add (f.of_int (quot d 60000000000))
        (f.div (f.of_int (rem d 60000000000)) (f.of_int (pos 60000000000)))

  abbrev pub no_metrics : ValidationMetrics W
  no_metrics = record {
    windows = pos 0;
    coverage = nought;
    underprediction_rate = nought;
    mean_absolute_error = nought;
    pinball_loss_p95 = nought;
    mean_underprediction = nought;
    max_relative_underprediction = nought;
    peak_mean_underprediction = nought;
    excess_replica_minutes = nought;
  }

  unfoldable pub operational_quantile : Request W → W
  operational_quantile r =
      if f.lt nought r.quantile && f.lt r.quantile one then r.quantile else f.ratio 95 100

  unfoldable pub pinball : W → W → W → W
  pinball q actual upper =
      if f.le upper actual
      then f.mul q (f.sub actual upper)
      else f.mul (f.sub one q) (f.sub upper actual)

  -- The metrics after one more window.
  unfoldable pub add_window : Request W → W → W → ValidationMetrics W → W → W → ValidationMetrics W
  unfolding operational_quantile
  add_window r threshold cutoff m actual upper =
      let shortfall = f.max nought (f.sub actual upper) in
      record {
        windows = m.windows +ℤ pos 1;
        coverage = count_if (not (f.lt nought shortfall)) m.coverage;
        underprediction_rate = count_if (f.lt nought shortfall) m.underprediction_rate;
        mean_absolute_error = f.add m.mean_absolute_error (f.abs (f.sub actual upper));
        pinball_loss_p95 = f.add m.pinball_loss_p95 (pinball (operational_quantile r) actual upper);
        mean_underprediction = f.add m.mean_underprediction shortfall;
        max_relative_underprediction =
            f.max m.max_relative_underprediction (f.div shortfall (f.max one actual));
        peak_mean_underprediction =
            if f.le cutoff actual
            then f.add m.peak_mean_underprediction shortfall
            else m.peak_mean_underprediction;
        excess_replica_minutes = f.add m.excess_replica_minutes (
            f.mul
              (f.max nought
                (f.sub (f.ceil (f.div upper threshold)) (f.ceil (f.div actual threshold))))
              (minutes_of r.horizon));
      }

  -- The means, of `peaks` peaks.
  unfoldable pub close_metrics : ValidationMetrics W → ℕ → ValidationMetrics W
  close_metrics m peaks =
      let n = f.of_int m.windows in
      record m {
        coverage = f.div m.coverage n;
        underprediction_rate = f.div m.underprediction_rate n;
        mean_absolute_error = f.div m.mean_absolute_error n;
        pinball_loss_p95 = f.div m.pinball_loss_p95 n;
        mean_underprediction = f.div m.mean_underprediction n;
        peak_mean_underprediction =
            if ltb 0 peaks
            then f.div m.peak_mean_underprediction (f.of_int (pos peaks))
            else m.peak_mean_underprediction;
      }

  -- Where the history of the window at `cut` starts.
  unfoldable pub history_start : Model W → Duration → Duration → List ℕ → ℕ → ℤ
  history_start m interval history_window starts cut =
      let windowed =
        if ltb_ℤ (pos 0) history_window
        then max_int (pos 0) (pos cut -ℤ quot history_window (pos_part interval))
        else pos 0 in
      let fixed : ℤ = elim m.inference_lookback [
        | none ↦ windowed
        | some n ↦ max_int (pos 0) (wrap64 (pos cut -ℤ n))
      ] in
      max_int fixed (pos (get_or starts (cut - 1) 0))

  unfoldable pub valid_prediction : Prediction W → Bool
  valid_prediction p =
      is_finite p.p50 && is_finite p.p95 && not (f.lt p.p50 nought) && not (f.lt p.p95 p.p50)

  module _ (r : Request W) (o : ComparisonOptions W) (plan : Plan W) (live : String → ℕ → Bool)
      (cutoff : W) where
    -- The checked prediction for one window.
    unfoldable pub predict_window : String → Model W → ℕ → Result CompareError (Prediction W)
    unfolding history_start valid_prediction
    predict_window name m cut = do
      guard (live name cut) cancelled
      let start = history_start m r.sampling_interval o.history_window plan.starts cut
      guard (leb_ℤ start (pos cut)) index_panic
      p ←
          or_error (not_evaluated name)
            (m.predict_samples (drop (pos_part start) (take cut plan.samples)) r)
      guard (valid_prediction p) (bad_prediction name)
      ok p

    -- The loop over the windows.
    unfoldable pub score_windows :
        String
        → Model W
        → List (Window W)
        → ValidationMetrics W
        → ℕ
        → Result CompareError (ValidationMetrics W × ℕ)
    unfolding predict_window add_window
    score_windows name m [] metrics peaks = ok (metrics, peaks)
    score_windows name m (w ∷ ws) metrics peaks = do
      p ← predict_window name m w.cut
      score_windows name m ws (add_window r o.threshold cutoff metrics w.actual p.p95)
          (if f.le cutoff w.actual then suc peaks else peaks)

    unfoldable pub score_model :
        List (Window W) → String → Model W → Result CompareError (ValidationMetrics W)
    unfolding score_windows close_metrics
    score_model ws name m = do
      (sums, peaks) ← score_windows name m ws no_metrics 0
      let metrics = close_metrics sums peaks
      guard
          (is_finite metrics.pinball_loss_p95
            && is_finite metrics.mean_absolute_error
            && is_finite metrics.excess_replica_minutes)
          (nonfinite_score name)
      ok metrics

    abbrev pub put_metrics :
        String
        → ValidationMetrics W
        → (String → Option (ValidationMetrics W))
        → String
        → Option (ValidationMetrics W)
    put_metrics name m metrics key = if str_eq key name then some m else metrics key

    -- The loop over the models: it keeps the scores from before an error.
    unfoldable pub score_models :
        List (Window W)
        → List (String × Option (Model W))
        → Comparison W
        → Comparison W × Option CompareError
    unfolding score_model
    score_models ws [] c = (c, none)
    score_models ws ((name, none) ∷ ms) c = (c, some CompareError.nil_model)
    score_models ws ((name, some m) ∷ ms) c = elim (score_model ws name m) [
      | err e ↦ (c, some e)
      | ok metrics ↦ score_models ws ms (record c { metrics = put_metrics name metrics c.metrics })
    ]

  -- The points, the steps and the history of a comparison.
  unfoldable pub prepare :
      List (String × Option (Model W))
      → List (Sample W)
      → Request W
      → ComparisonOptions W
      → Result CompareError (Plan W)
  unfolding select_points needed_history
  prepare models observed r o = do
    let interval = r.sampling_interval
    guard (valid_comparison (length models) r o) bad_contract
    samples ← select_points interval [] none observed
    let steps = quot r.horizon (pos_part interval)
    let season = quot r.seasonal_period (pos_part interval)
    history ← needed_history season season models
    guard (leb_ℤ (history +ℤ steps) max_int64) index_panic
    ok (record {
      samples = samples;
      starts = segment_starts interval samples;
      steps = pos_part steps;
      history = pos_part history;
      indexes = windows interval o.after (pos_part history) (pos_part steps) samples;
    })

  -- `actuals`, with their cuts.
  unfoldable pub window_at : Plan W → ℕ → Window W
  window_at plan cut = record {
    cut = cut;
    actual = largest nought (take plan.steps (drop cut plan.samples));
  }

  abbrev pub counted_of : Plan W → Comparison W → Comparison W
  counted_of plan c = record c { eligible_windows = pos (length plan.indexes) }

  abbrev pub dated_of : Plan W → Comparison W → Comparison W
  dated_of plan c = record (counted_of plan c) {
    start = time_at plan.samples (get_or plan.indexes 0 0 - 1);
    end = time_at plan.samples (last_index 0 plan.indexes + plan.steps - 1);
  }

  -- From the windows of the plan on.
  unfoldable pub compare_plan :
      (List (Sample W) → String)
      → List (String × Option (Model W))
      → Request W
      → ComparisonOptions W
      → (String → ℕ → Bool)
      → Plan W
      → Comparison W
      → Comparison W × Option CompareError
  unfolding score_models window_at
  compare_plan digest models r o live plan c =
      let n = length plan.indexes in
      let dated = dated_of plan c in
      if ltb_ℤ (pos n) o.min_windows
      then (counted_of plan c, some too_few_windows)
      else if ltb_ℤ (sub_time dated.end dated.start) o.min_duration
          || ltb_ℤ (mul_dur (pos n) r.horizon) (quot (mul_dur o.min_duration (pos 9)) 10)
      then (dated, some short_evaluation)
      else elim (selected_windows plan.indexes (pos_part o.max_windows)) [
        | err e ↦ (dated, some e)
        | ok chosen ↦
            let ws = map (window_at plan) chosen in
            let cutoff = peak_cutoff (map (λ w. w.actual) ws) in
            score_models r o plan live cutoff ws models
              (record dated { fingerprint = digest plan.samples })
      ]

  abbrev pub no_comparison : Comparison W
  no_comparison = record {
    start = pos 0;
    end = pos 0;
    fingerprint = "";
    eligible_windows = pos 0;
    metrics = λ name. none;
  }

  -- `CompareArtifacts`; what it has of the result is given with an error, too.
  unfoldable pub compare_artifacts :
      (List (Sample W) → String)
      → List (String × Option (Model W))
      → List (Sample W)
      → Request W
      → ComparisonOptions W
      → (String → ℕ → Bool)
      → Comparison W × Option CompareError
  unfolding prepare compare_plan
  compare_artifacts digest models observed r o live = elim (prepare models observed r o) [
    | err e ↦ (no_comparison, some e)
    | ok plan ↦ compare_plan digest models r o live plan no_comparison
  ]
