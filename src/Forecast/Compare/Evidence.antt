-- ===== src/Forecast/Compare/Evidence.antt =====
-- What a comparison that ends without an error rests on.
use keda_replica_sense.Prelude.{
  ℕ, suc, ◌+◌, ℤ, pos, pos_part, ltb_ℤ, ◌+ℤ◌, ◌≤ℤ◌, quot, sub_time, mul_dur, String, str_eq, List,
  [], ◌∷◌, map, length, Bool, true, false, ◌&&◌, ◌||◌, Option, none, some, ok, guard, Float64, ◌≡◌,
  ◌⊎◌, refl, sym, ap, ◌∙◌, arith, Bool-cases, Result-cases, inl, inr, Every, ok_injective,
  length-map, eq_iff, >>=-eq-ok, subst,
}
use keda_replica_sense.Dataset.{Sample, is_finite}
use keda_replica_sense.Forecaster.Service.{Model, Request}
use keda_replica_sense.Training.{ValidationMetrics, Comparison}
use keda_replica_sense.Forecast.Compare.{
  ComparisonOptions, CompareError, nonfinite_score, selected_windows, peak_cutoff,
}
use keda_replica_sense.Forecast.Compare.Score.{
  Window, Plan, add_window, close_metrics, score_windows, score_model, put_metrics, score_models,
  prepare, window_at, compare_plan, no_comparison, dated_of, compare_artifacts, predict_window,
  no_metrics,
}
use keda_replica_sense.Forecast.Compare.Complete.{IsComplete}
use keda_replica_sense.Forecast.Compare.Spread.{selected_windows-Every}
use keda_replica_sense.Forecast.Compare.Sound.{IsSound, prepare-IsSound}

one_more : (z : ℤ) (n : ℕ) → z ≡ pos n → z +ℤ pos 1 ≡ pos (suc n)
unfolding ◌+ℤ◌
one_more z n e = ground arith

true-ne-false : true ≡ false → ⊥
true-ne-false e = cc

some-ne-none : {A : Type 0} {a : A} → Path (Option A) (some a) none → ⊥
some-ne-none e = cc

le_of_not_ltb : (a b : ℤ) → ltb_ℤ a b ≡ false → b ≤ℤ a
le_of_not_ltb a b e = ground arith

module _ {W : Type 0} ⦃f : Float64 W⦄ where
  abbrev pub entry_name : String × Option (Model W) → String
  entry_name (name, m) = name

  -- The metrics of `name` count `n` windows.
  abbrev pub IsScored : Comparison W → ℕ → String → Type 0
  IsScored c n name = (m : ValidationMetrics W) × (c.metrics name ≡ some m) × (m.windows ≡ pos n)

  module _ (r : Request W) (o : ComparisonOptions W) (plan : Plan W) (live : String → ℕ → Bool)
      (cutoff : W) where
    score_windows-count :
        (name : String) (m : Model W) (ws : List (Window W)) (metrics sums : ValidationMetrics W)
        (peaks final : ℕ) (n : ℕ)
        → metrics.windows ≡ pos n
        → score_windows r o plan live cutoff name m ws metrics peaks ≡ ok (sums, final)
        → sums.windows ≡ pos (length ws + n)
    unfolding score_windows add_window
    score_windows-count name m [] metrics sums peaks final n e h =
        ap (λ (t : ValidationMetrics W × ℕ). t.0.windows) (sym (ok_injective h))
        ∙ e
        ∙ ap pos (omega arith)
    score_windows-count name m (w ∷ ws) metrics sums peaks final n e h =
        let (p, predicted, h1) = >>=-eq-ok (predict_window r o plan live cutoff name m w.cut) _ h in
        score_windows-count name m ws _ sums _ final (suc n) (one_more metrics.windows n e) h1
        ∙ ap pos (omega arith)

    score_model-count :
        (ws : List (Window W)) (name : String) (m : Model W) (metrics : ValidationMetrics W)
        → score_model r o plan live cutoff ws name m ≡ ok metrics
        → metrics.windows ≡ pos (length ws)
    unfolding score_model close_metrics
    score_model-count ws name m metrics h =
        let ((sums, peaks), scored, h1) =
          >>=-eq-ok (score_windows r o plan live cutoff name m ws no_metrics 0) _ h in
        let closed = close_metrics sums peaks in
        let (_, finite, h2) =
          >>=-eq-ok
            (guard
              (is_finite closed.pinball_loss_p95
                && is_finite closed.mean_absolute_error
                && is_finite closed.excess_replica_minutes)
              (nonfinite_score name))
            _ h1 in
        ap (λ (x : ValidationMetrics W). x.windows) (sym (ok_injective h2))
        ∙ score_windows-count name m ws no_metrics sums 0 peaks 0 refl scored
        ∙ ap pos (omega arith)

    put_metrics-IsScored :
        (c : Comparison W) (name key : String) (metrics : ValidationMetrics W) (n : ℕ)
        → metrics.windows ≡ pos n
        → (IsScored c n key ⊎ (str_eq key name ≡ true))
        → IsScored
            (record c { metrics = put_metrics r o plan live cutoff name metrics c.metrics })
            n
            key
    put_metrics-IsScored c name key metrics n e h = elim (Bool-cases (str_eq key name)) [
      | inl same ↦ (metrics, rw same refl, e)
      | inr other ↦ elim h [
        | inl (m, found, count) ↦ (m, rw other found, count)
        | inr same ↦ absurd (true-ne-false (sym same ∙ other))
      ]
    ]

    score_models-IsScored :
        (ws : List (Window W)) (ms : List (String × Option (Model W))) (c found : Comparison W)
        → score_models r o plan live cutoff ws ms c ≡ (found, none)
        → ((key : String) → IsScored c (length ws) key → IsScored found (length ws) key)
          × Every (λ entry. IsScored found (length ws) (entry_name entry)) ms
    unfolding score_models
    score_models-IsScored ws [] c found h = (
      subst (λ c'. (key : String) → IsScored c (length ws) key → IsScored c' (length ws) key)
          (ap (λ (t : Comparison W × Option CompareError). t.0) h) (λ key x. x),
      tt,
    )
    score_models-IsScored ws ((name, none) ∷ ms) c found h =
        absurd (some-ne-none (ap (λ (t : Comparison W × Option CompareError). t.1) h))
    score_models-IsScored ws ((name, some m) ∷ ms) c found h =
        elim (Result-cases (score_model r o plan live cutoff ws name m)) [
          | inl (metrics, e) ↦
              let put = λ (key : String).
                put_metrics-IsScored c name key metrics (length ws)
                  (score_model-count ws name m metrics e) in
              let (kept, all) =
                score_models-IsScored ws ms
                  (record c { metrics = put_metrics r o plan live cutoff name metrics c.metrics })
                  found (rw (e, score_models) at h) in
              (
                λ key x. kept key (put key (inl x)),
                (kept name (put name (inr ((eq_iff name name).1 refl))), all),
              )
          | inr (error, e) ↦ absurd (
              some-ne-none
                (ap (λ (t : Comparison W × Option CompareError). t.1) (rw (e, score_models) at h)))
        ]

  abbrev error_of : Comparison W × Option CompareError → Option CompareError
  error_of (c, error) = error

  compare_plan-IsScored :
      (digest : List (Sample W) → String) (models : List (String × Option (Model W)))
      (r : Request W) (o : ComparisonOptions W) (live : String → ℕ → Bool) (plan : Plan W)
      (start found : Comparison W)
      → compare_plan digest models r o live plan start ≡ (found, none)
      → (chosen : List ℕ) × (o.min_windows ≤ℤ pos (length plan.indexes))
        × (selected_windows plan.indexes (pos_part o.max_windows) ≡ ok chosen)
        × Every (λ entry. IsScored found (length chosen) (entry_name entry)) models
  unfolding compare_plan
  compare_plan-IsScored digest models r o live plan start found h =
      elim (Bool-cases (ltb_ℤ (pos (length plan.indexes)) o.min_windows)) [
        | inl few ↦ absurd (some-ne-none (ap error_of (rw (few, compare_plan) at h)))
        | inr enough ↦
            let dated = dated_of plan start in
            let short =
              ltb_ℤ (sub_time dated.end dated.start) o.min_duration
              || ltb_ℤ (mul_dur (pos (length plan.indexes)) r.horizon)
                  (quot (mul_dur o.min_duration (pos 9)) 10) in
            let h1 = rw (enough, compare_plan) at h in
            elim (Bool-cases short) [
              | inl e ↦ absurd (some-ne-none (ap error_of (rw e at h1)))
              | inr e ↦
                  let h2 = rw e at h1 in
                  elim (Result-cases (selected_windows plan.indexes (pos_part o.max_windows))) [
                    | inl (chosen, e') ↦
                        let ws = map (window_at plan) chosen in
                        let cutoff = peak_cutoff (map (λ w. w.actual) ws) in
                        let (_, all) =
                          score_models-IsScored r o plan live cutoff ws models _ found
                            (rw e' at h2) in
                        (
                          chosen,
                          le_of_not_ltb (pos (length plan.indexes)) o.min_windows enough,
                          e',
                          subst (λ n. Every (λ entry. IsScored found n (entry_name entry)) models)
                              (length-map chosen (window_at plan)) all,
                        )
                    | inr (error, e') ↦ absurd (some-ne-none (ap error_of (rw e' at h2)))
                  ]
            ]
      ]

  -- What evidence without an error consists of.
  abbrev pub IsEvidence :
      (List (Sample W) → String)
      → List (String × Option (Model W))
      → List (Sample W)
      → Request W
      → ComparisonOptions W
      → Comparison W
      → Type 0
  IsEvidence digest models observed r o c =
      (plan : Plan W) × (chosen : List ℕ) × (prepare models observed r o ≡ ok plan)
      × IsSound r o plan
      × (o.min_windows ≤ℤ pos (length plan.indexes))
      × (selected_windows plan.indexes (pos_part o.max_windows) ≡ ok chosen)
      × Every (IsComplete r.sampling_interval o.after plan.history plan.steps plan.samples) chosen
      × Every (λ entry. IsScored c (length chosen) (entry_name entry)) models

  -- A comparison that ends without an error rests on at least the required number of windows; they do
  -- not overlap, and each has a whole history and horizon of observed points in successive slots and
  -- an origin not before the bound. Every model given is scored, on all the windows chosen among them.
  pub compare_artifacts-IsEvidence :
      (digest : List (Sample W) → String) (models : List (String × Option (Model W)))
      (observed : List (Sample W)) (r : Request W) (o : ComparisonOptions W)
      (live : String → ℕ → Bool) (c : Comparison W)
      → compare_artifacts digest models observed r o live ≡ (c, none)
      → IsEvidence digest models observed r o c
  unfolding compare_artifacts compare_plan
  compare_artifacts-IsEvidence digest models observed r o live c h =
      elim (Result-cases (prepare models observed r o)) [
        | inl (plan, e) ↦
            let (chosen, enough, picked, scored) =
              compare_plan-IsScored digest models r o live plan no_comparison c
                (rw (e, compare_artifacts) at h) in
            let sound = prepare-IsSound models observed r o plan e in
            (
              plan,
              chosen,
              e,
              sound,
              enough,
              picked,
              selected_windows-Every _ plan.indexes _ chosen picked sound.2,
              scored,
            )
        | inr (error, e) ↦ absurd (
            some-ne-none (
              ap (λ (t : Comparison W × Option CompareError). t.1)
                (rw (e, compare_artifacts) at h)))
      ]
