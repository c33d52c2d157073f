-- ===== src/Dataset/Training.antt =====
-- internal/dataset/training.go: the newest real segment that is long enough to fit a model on.
pub mod Segment
use mathlib.Core.List.{reverse}
use keda_replica_sense.Prelude.{
  ℕ, zero, suc, ◌+◌, ℤ, pos, ltb_ℤ, leb_ℤ, eqb_ℤ, ltb, leb, Time, Duration, sub_time, truncate,
  List, [], ◌∷◌, length, Bool, true, false, ◌&&◌, ◌||◌, not, if◌then◌else◌, Result, ok, err, ◌>>=◌,
  Float64,
}
use keda_replica_sense.Dataset.{Sample, is_demand, keep_latest}

pub data SegmentError : Type 0 where
  bad_policy bad_observation insufficient : SegmentError

module _ {W : Type 0} where
  -- The next point lies in the slot after.
  unfoldable pub next_slot : Duration → Sample W → Sample W → Bool
  next_slot interval a b =
      eqb_ℤ (sub_time (truncate b.observed_at interval) (truncate a.observed_at interval)) interval

  -- `if i-start >= minimum { selected = points[start:i] }`; slices are kept newest first.
  abbrev pub take_run : ℤ → List (Sample W) → List (Sample W) → List (Sample W)
  take_run minimum run selected = if leb_ℤ minimum (pos (length run)) then run else selected

  -- The loop over the points: `p ∷ run` is points[start:i], newest first.
  unfoldable pub longest_from :
      Duration
      → ℤ
      → Sample W
      → List (Sample W)
      → List (Sample W)
      → List (Sample W)
      → List (Sample W)
  longest_from interval minimum p run selected [] = take_run minimum (p ∷ run) selected
  longest_from interval minimum p run selected (s ∷ ss) =
      let grown = longest_from interval minimum s (p ∷ run) selected ss in
      let fresh = longest_from interval minimum s [] (take_run minimum (p ∷ run) selected) ss in
      if next_slot interval p s then grown else fresh

  unfoldable pub newest_run : Duration → ℤ → List (Sample W) → List (Sample W)
  newest_run interval minimum [] = []
  newest_run interval minimum (p ∷ ps) = longest_from interval minimum p [] [] ps

  abbrev pub some_run : List (Sample W) → Result SegmentError (List (Sample W))
  some_run [] = err insufficient
  some_run (s ∷ ss) = ok (reverse (s ∷ ss))

module _ {W : Type 0} ⦃f : Float64 W⦄ where
  unfoldable pub dedupe_from :
      Duration
      → List (Sample W)
      → Sample W
      → List (Sample W)
      → Result SegmentError (List (Sample W))
  unfolding keep_latest
  dedupe_from interval points previous [] = ok points
  dedupe_from interval points previous (s ∷ ss) =
      let rest = dedupe_from interval (keep_latest interval points s) s ss in
      if is_demand s.observed_value && ltb_ℤ previous.observed_at s.observed_at
      then rest
      else err bad_observation

  unfoldable pub dedupe : Duration → List (Sample W) → Result SegmentError (List (Sample W))
  dedupe interval [] = ok []
  dedupe interval (s ∷ ss) =
      if is_demand s.observed_value then dedupe_from interval (s ∷ []) s ss else err bad_observation

  unfoldable pub training_segment :
      List (Sample W) → Duration → ℤ → Result SegmentError (List (Sample W))
  unfolding newest_run dedupe
  training_segment observed interval minimum =
      if leb_ℤ interval (pos 0) || ltb_ℤ minimum (pos 2) then err bad_policy else do
        points ← dedupe interval observed
        some_run (newest_run interval minimum (reverse points))
