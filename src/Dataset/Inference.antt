-- ===== src/Dataset/Inference.antt =====
-- internal/dataset/inference.go: the disposable input of a model, in which short gaps are bridged,
-- and the real suffix on which surges are detected.
pub mod Origins
pub mod Suffix
use mathlib.Core.List.{reverse}
use keda_replica_sense.Prelude.{
  ℕ, zero, suc, ◌+◌, ◌-◌, ℤ, pos, pos_part, ltb_ℤ, leb_ℤ, ltb, ◌+ℤ◌, quot, wrap64, neg, max_int64,
  Time, Duration, add_time, sub_time, add_dur, mul_dur, List, [], ◌∷◌, ◌++◌, length, drop, Bool,
  true, false, ◌&&◌, ◌||◌, not, if◌then◌else◌, Result, ok, err, ◌>>=◌, Float64,
}
use keda_replica_sense.Dataset.{Sample, is_demand, gap, last_of, same_slot, keep_latest}

pub record InferenceHistory (W : Type 0) : Type 0 where
  pub samples : List (Sample W)
  pub estimated : List Bool
  pub estimated_count : ℕ
  pub used_contiguous_suffix : Bool

pub record InterpolationPolicy : Type 0 where
  pub sampling_interval : Duration
  pub max_gap : Duration
  pub lookback : ℤ

pub data InferenceError : Type 0 where
  bad_interval lookback_too_large not_ordered mostly_estimated recently_estimated short_tail :
      InferenceError
  not_demand : ℕ → InferenceError

abbrev pub true_of : Bool → ℕ
true_of true = 1
true_of false = 0

-- How many inputs are estimated.
unfoldable pub count_true : List Bool → ℕ
count_true [] = 0
count_true (b ∷ bs) = true_of b + count_true bs

-- The length of the run of real inputs at the end, over the list newest first.
unfoldable pub real_run : List Bool → ℕ
real_run [] = 0
real_run (true ∷ bs) = 0
real_run (false ∷ bs) = suc (real_run bs)

-- `interval + interval/2`.
unfoldable pub gap_threshold : Duration → Duration
gap_threshold interval = add_dur interval (quot interval 2)

module _ {W : Type 0} where
  -- `for start < len(observed)-1 && observed[start].ObservedAt.Before(cutoff) { start++ }`.
  unfoldable pub drop_before : Time → List (Sample W) → List (Sample W)
  drop_before cutoff [] = []
  drop_before cutoff (s ∷ []) = s ∷ []
  drop_before cutoff (s ∷ t ∷ ss) =
      let rest = drop_before cutoff (t ∷ ss) in
      if ltb_ℤ s.observed_at cutoff then rest else s ∷ t ∷ ss

  unfoldable pub recent_window :
      InterpolationPolicy → List (Sample W) → Result InferenceError (List (Sample W))
  unfolding drop_before last_of
  recent_window p [] = ok []
  recent_window p (s ∷ ss) =
      let slots = wrap64 (p.lookback +ℤ pos 6) in
      if ltb_ℤ (pos 0) p.lookback
      then (if leb_ℤ slots (pos 0) || ltb_ℤ (quot max_int64 (pos_part p.sampling_interval)) slots
          then err lookback_too_large
          else ok (
              drop_before
                (add_time (last_of s ss).observed_at
                  (wrap64 (neg (mul_dur slots p.sampling_interval))))
                (s ∷ ss)))
      else ok (s ∷ ss)

  -- The loop that keeps the latest point of each slot, newest first; `previous` is
  -- `observed[index-1]`.
  unfoldable pub select_from :
      Duration
      → List (Sample W)
      → Sample W
      → List (Sample W)
      → Result InferenceError (List (Sample W))
  unfolding keep_latest
  select_from interval selected previous [] = ok selected
  select_from interval selected previous (s ∷ ss) =
      let rest = select_from interval (keep_latest interval selected s) s ss in
      if ltb_ℤ previous.observed_at s.observed_at then rest else err not_ordered

  unfoldable pub select : Duration → List (Sample W) → Result InferenceError (List (Sample W))
  select interval [] = ok []
  select interval (s ∷ ss) = select_from interval (s ∷ []) s ss

  -- `RealContiguousSuffix`, newest first.
  unfoldable pub real_step : Duration → List (Sample W) → Sample W → List (Sample W)
  real_step interval [] s = s ∷ []
  real_step interval (p ∷ ps) s =
      if same_slot interval p s
      then s ∷ ps
      else if leb_ℤ (gap_threshold interval) (gap p s)
      then s ∷ []
      else s ∷ p ∷ ps

  unfoldable pub real_loop : Duration → List (Sample W) → List (Sample W) → List (Sample W)
  real_loop interval real [] = real
  real_loop interval real (s ∷ ss) = real_loop interval (real_step interval real s) ss

  unfoldable pub real_contiguous_suffix : List (Sample W) → Duration → List (Sample W)
  real_contiguous_suffix observed interval =
      if leb_ℤ interval (pos 0) then [] else reverse (real_loop interval [] observed)

-- `float64(part)/float64(whole) > .05`.
abbrev pub above_share : (W : Type 0) ⦃f : Float64 W⦄ → ℕ → ℕ → Bool
above_share W ⦃f⦄ part whole =
    f.lt (f.ratio 1 20) (f.div (f.of_int (pos part)) (f.of_int (pos whole)))

module _ {W : Type 0} ⦃f : Float64 W⦄ where
  -- The rounded number of slots that a gap spans.
  abbrev pub steps_of : Duration → Duration → W
  steps_of g interval = f.round (f.div (f.of_int g) (f.of_int interval))

  -- The four tests by which a gap is bridged.
  unfoldable pub is_bridgeable : Duration → Duration → Sample W → Sample W → Bool
  is_bridgeable interval max_gap previous s =
      let g = gap previous s in
      let steps = steps_of g interval in
      let drift = f.abs (f.sub (f.of_int g) (f.mul steps (f.of_int interval))) in
      let scale = f.max (f.of_int (pos 1)) (f.max previous.observed_value s.observed_value) in
      let change = f.div (f.abs (f.sub s.observed_value previous.observed_value)) scale in
      not (ltb_ℤ (add_dur max_gap (quot interval 4)) g)
      && f.le drift (f.div (f.of_int interval) (f.of_int (pos 4)))
      && f.le change (f.ratio 1 4)
      && not (f.lt (f.of_int (pos 6)) steps)

  -- The point estimated at a step between two real ones.
  unfoldable pub estimate : Duration → Sample W → Sample W → ℕ → Sample W
  estimate interval previous s step =
      let at = add_time previous.observed_at (mul_dur (pos step) interval) in
      let weight =
        f.div (f.of_int (sub_time at previous.observed_at)) (f.of_int (gap previous s)) in
      record previous {
        observed_at = at;
        observed_value =
            f.add (f.mul (f.sub (f.of_int (pos 1)) weight) previous.observed_value)
              (f.mul weight s.observed_value);
      }

  -- `for step := 1; step < int(steps); step++`, over the rounds left.
  unfoldable pub bridge :
      Duration → Sample W → Sample W → ℕ → ℕ → InferenceHistory W → InferenceHistory W
  unfolding estimate
  bridge interval previous s zero step h = h
  bridge interval previous s (suc rounds) step h =
      bridge interval previous s rounds (step + 1) (record h {
        samples = h.samples ++ estimate interval previous s step ∷ [];
        estimated = h.estimated ++ true ∷ [];
      })

  abbrev pub append_real : Sample W → InferenceHistory W → InferenceHistory W
  append_real s h = record h {
    samples = h.samples ++ s ∷ [];
    estimated = h.estimated ++ false ∷ [];
  }

  -- What a long gap does: the input starts afresh after it.
  abbrev pub restart : InferenceHistory W → InferenceHistory W
  restart h = record h { samples = []; estimated = []; used_contiguous_suffix = true }

  unfoldable pub bridge_gap :
      Duration → Duration → Sample W → Sample W → InferenceHistory W → InferenceHistory W
  unfolding bridge is_bridgeable
  bridge_gap interval max_gap previous s h =
      if leb_ℤ (gap_threshold interval) (gap previous s)
      then (if is_bridgeable interval max_gap previous s
          then bridge interval previous s
              (pos_part (f.to_int (steps_of (gap previous s) interval)) - 1) 1 h
          else restart h)
      else h

  -- The rounds of the main loop from index `i`, after `previous`.
  unfoldable pub bridge_from :
      Duration
      → Duration
      → ℕ
      → Sample W
      → List (Sample W)
      → InferenceHistory W
      → Result InferenceError (InferenceHistory W)
  unfolding bridge_gap
  bridge_from interval max_gap i previous [] h = ok h
  bridge_from interval max_gap i previous (s ∷ ss) h =
      let rest =
        bridge_from interval max_gap (i + 1) s ss
          (append_real s (bridge_gap interval max_gap previous s h)) in
      if not (is_demand s.observed_value)
      then err (not_demand i)
      else if leb_ℤ (gap previous s) (pos 0)
      then err not_ordered
      else rest

  abbrev pub empty_history : InferenceHistory W
  empty_history = record {
    samples = [];
    estimated = [];
    estimated_count = 0;
    used_contiguous_suffix = false;
  }

  unfoldable pub bridge_all :
      Duration → Duration → List (Sample W) → Result InferenceError (InferenceHistory W)
  bridge_all interval max_gap [] = ok empty_history
  bridge_all interval max_gap (s ∷ ss) =
      if not (is_demand s.observed_value)
      then err (not_demand 0)
      else bridge_from interval max_gap 1 s ss (append_real s empty_history)

  -- The last `lookback` inputs, and the count of estimates among them.
  unfoldable pub trim : ℤ → InferenceHistory W → InferenceHistory W
  unfolding count_true
  trim lookback h =
      let excess : ℕ =
        if ltb_ℤ (pos 0) lookback && ltb_ℤ lookback (pos (length h.samples))
        then length h.samples - pos_part lookback
        else 0 in
      record h {
        samples = drop excess h.samples;
        estimated = drop excess h.estimated;
        estimated_count = count_true (drop excess h.estimated);
      }

  unfoldable pub check_estimates : InferenceHistory W → Result InferenceError (InferenceHistory W)
  unfolding count_true real_run
  check_estimates h =
      let recent : List Bool = drop (length h.estimated - 60) h.estimated in
      if ltb 0 h.estimated_count
      then (if above_share W h.estimated_count (length h.samples)
          then err mostly_estimated
          else if above_share W (count_true recent) (length recent)
          then err recently_estimated
          else if ltb (real_run (reverse h.estimated)) 2
          then err short_tail
          else ok h)
      else ok h

  unfoldable pub prepare_inference_history :
      List (Sample W) → InterpolationPolicy → Result InferenceError (InferenceHistory W)
  unfolding select recent_window
  prepare_inference_history observed p =
      let interval = p.sampling_interval in
      let max_gap : Duration = if leb_ℤ p.max_gap (pos 0) then pos 300000000000 else p.max_gap in
      if leb_ℤ interval (pos 0) then err bad_interval else do
        window ← recent_window p observed
        selected ← select interval window
        h ← bridge_all interval max_gap (reverse selected)
        check_estimates (trim p.lookback h)
