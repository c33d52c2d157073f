-- ===== src/Forecast/Compare.antt =====
-- internal/forecast/comparison.go, up to the scores: which windows of the observations a comparison
-- of artifacts evaluates. Positions count points, oldest first.
pub mod Score
pub mod Complete
pub mod Spread
pub mod Sound
pub mod Evidence
mod Tests
use mathlib.Core.List.{reverse}
use keda_replica_sense.Prelude.{
  ℕ, zero, suc, ◌+◌, ◌-◌, ◌*◌, ◌/◌, ℤ, pos, pos_part, ltb_ℤ, leb_ℤ, eqb_ℤ, ◌*ℤ◌, quot, rem, wrap64,
  ltb, ◌==◌, str_eq, Time, Duration, is_zero_time, String, List, [], ◌∷◌, map, length, get_or,
  get_elem?, Bool, true, false, not, ◌&&◌, ◌||◌, if◌then◌else◌, Option, none, some, Result, ok, err,
  ◌>>=◌, Float64,
}
use keda_replica_sense.Dataset.{Sample, is_finite, is_demand, keep_latest}
use keda_replica_sense.Dataset.Training.{next_slot}
use keda_replica_sense.Forecaster.Service.{Model, Request}

pub record ComparisonOptions (W : Type 0) : Type 0 where
  pub after : Time
  pub min_duration : Duration
  pub min_windows : ℤ
  pub max_windows : ℤ
  pub threshold : W
  pub history_window : Duration

-- The last two are panics: a quotient by nought and an index out of range.
pub data CompareError : Type 0 where
  bad_contract bad_observations nil_model too_few_windows short_evaluation cancelled : CompareError
  not_evaluated bad_prediction nonfinite_score : String → CompareError
  divide_panic index_panic : CompareError

abbrev pub max_int : ℤ → ℤ → ℤ
max_int a b = if ltb_ℤ a b then b else a

-- `[start, start + 1, …]`.
abbrev pub count_from : ℕ → ℕ → List ℕ
count_from start zero = []
count_from start (suc n) = start ∷ count_from (suc start) n

-- The positions that an even choice of `most` of `indexes` keeps, at two or more of either.
unfoldable pub spread : List ℕ → ℕ → List ℕ
spread indexes most =
    map (λ i. get_or indexes (i * (length indexes - 1) / (most - 1)) 0) (count_from 0 most)

unfoldable pub selected_windows : List ℕ → ℕ → Result CompareError (List ℕ)
unfolding spread
selected_windows indexes most =
    if ltb most (length indexes)
    then (if most == 1 then err divide_panic else ok (spread indexes most))
    else ok indexes

abbrev pub fixed_history : ℤ → Option ℤ → ℤ
fixed_history history none = history
fixed_history history (some n) = max_int history n

abbrev pub two_seasons : String → ℤ → ℤ → ℤ
two_seasons engine season history =
    if str_eq engine "holt-winters" then max_int history (wrap64 (pos 2 *ℤ season)) else history

module _ {W : Type 0} where
  abbrev pub time_of : Option (Sample W) → Time
  time_of none = pos 0
  time_of (some s) = s.observed_at

  -- `samples[i].ObservedAt`, in range.
  abbrev pub time_at : List (Sample W) → ℕ → Time
  time_at samples i = time_of (get_elem? samples i)

  -- `gaps` behind the point `p`, of which it has seen `n`.
  unfoldable pub gaps_from : Duration → ℕ → Sample W → List (Sample W) → List ℕ
  gaps_from interval n p [] = []
  gaps_from interval n p (s ∷ ss) =
      let here = if next_slot interval p s then n else suc n in here ∷ gaps_from interval here s ss

  unfoldable pub gaps_of : Duration → List (Sample W) → List ℕ
  unfolding gaps_from
  gaps_of interval [] = []
  gaps_of interval (p ∷ ps) = 0 ∷ gaps_from interval 0 p ps

  -- `segmentStart` behind the point `p` at `i`, whose segment starts at `n`.
  unfoldable pub starts_from : Duration → ℕ → ℕ → Sample W → List (Sample W) → List ℕ
  starts_from interval i n p [] = []
  starts_from interval i n p (s ∷ ss) =
      let here = if next_slot interval p s then n else suc i in
      here ∷ starts_from interval (suc i) here s ss

  unfoldable pub segment_starts : Duration → List (Sample W) → List ℕ
  unfolding starts_from
  segment_starts interval [] = []
  segment_starts interval (p ∷ ps) = 0 ∷ starts_from interval 0 0 p ps

  module _ (after : Time) (history steps : ℕ) (samples : List (Sample W)) (gaps : List ℕ) where
    -- Whether the window at `cut` is skipped, where the last window that was not ends at `last`.
    abbrev pub is_skipped : ℕ → Time → Bool
    is_skipped cut last =
        ltb_ℤ (time_at samples (cut - 1)) after
        || (not (is_zero_time last) && ltb_ℤ (time_at samples (cut - 1)) last)
        || not (get_or gaps (cut + steps - 1) 0 == get_or gaps (cut - history) 0)

    -- The loop from `cut` on, for `left` rounds.
    unfoldable pub windows_from : ℕ → ℕ → Time → List ℕ
    windows_from zero cut last = []
    windows_from (suc left) cut last =
        let skipped = windows_from left (suc cut) last in
        let taken = cut ∷ windows_from left (suc cut) (time_at samples (cut + steps - 1)) in
        if is_skipped cut last then skipped else taken

  -- `indexes`, before the choice among them.
  unfoldable pub windows : Duration → Time → ℕ → ℕ → List (Sample W) → List ℕ
  unfolding windows_from gaps_of
  windows interval after history steps samples =
      windows_from after history steps samples (gaps_of interval samples)
        (suc (length samples) - (history + steps)) history (pos 0)

module _ {W : Type 0} ⦃f : Float64 W⦄ where
  unfoldable pub valid_comparison : ℕ → Request W → ComparisonOptions W → Bool
  valid_comparison models r o = not (
      leb_ℤ r.sampling_interval (pos 0)
      || leb_ℤ r.horizon (pos 0)
      || not (eqb_ℤ (rem r.horizon (pos_part r.sampling_interval)) (pos 0))
      || leb_ℤ r.seasonal_period (pos 0)
      || not (eqb_ℤ (rem r.seasonal_period (pos_part r.sampling_interval)) (pos 0))
      || models == 0
      || ltb_ℤ o.min_windows (pos 1)
      || ltb_ℤ o.max_windows o.min_windows
      || leb_ℤ o.min_duration (pos 0)
      || f.le o.threshold (f.of_int (pos 0))
      || not (is_finite o.threshold))

  -- The loop over the observations; the points are kept newest first.
  unfoldable pub select_points :
      Duration
      → List (Sample W)
      → Option (Sample W)
      → List (Sample W)
      → Result CompareError (List (Sample W))
  unfolding keep_latest
  select_points interval points previous [] = ok (reverse points)
  select_points interval points previous (s ∷ ss) =
      let rest = select_points interval (keep_latest interval points s) (some s) ss in
      let advances : Bool = elim previous [
        | none ↦ true
        | some p ↦ ltb_ℤ p.observed_at s.observed_at
      ] in
      if is_demand s.observed_value && advances then rest else err bad_observations

  -- `history`, over the models.
  unfoldable pub needed_history : ℤ → ℤ → List (String × Option (Model W)) → Result CompareError ℤ
  needed_history season history [] = ok history
  needed_history season history ((name, none) ∷ ms) = err nil_model
  needed_history season history ((name, some m) ∷ ms) =
      needed_history season
        (two_seasons m.engine season (fixed_history history m.inference_lookback)) ms

  abbrev pub largest : W → List (Sample W) → W
  largest m [] = m
  largest m (s ∷ ss) = largest (f.max m s.observed_value) ss

  abbrev pub insert : W → List W → List W
  insert x [] = x ∷ []
  insert x (y ∷ ys) = if f.lt y x then y ∷ insert x ys else x ∷ y ∷ ys

  -- `sort.Float64s`.
  abbrev pub sorted : List W → List W
  sorted [] = []
  sorted (x ∷ xs) = insert x (sorted xs)

  -- `peakCutoff`.
  unfoldable pub peak_cutoff : List W → W
  peak_cutoff actuals =
      get_or (sorted actuals)
        (pos_part (f.to_int (f.mul (f.of_int (pos (length actuals - 1))) (f.ratio 9 10))))
        (f.of_int (pos 0))
