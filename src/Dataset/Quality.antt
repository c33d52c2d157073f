-- ===== src/Dataset/Quality.antt =====
-- internal/dataset/quality.go.
pub mod Contiguous
pub mod Valid
use keda_replica_sense.Prelude.{
  ℕ, zero, suc, ◌+◌, ℤ, pos, ltb_ℤ, leb_ℤ, ltb, Time, Duration, sub_time, mul_dur, List, [], ◌∷◌,
  length, drop, Bool, true, false, ◌||◌, not, if◌then◌else◌, Result, ok, err, Float64,
}
use keda_replica_sense.Dataset.{Sample, is_finite, gap, last_of}

pub record QualityPolicy : Type 0 where
  pub min_samples : ℤ
  pub sampling_interval : Duration
  pub max_gap_intervals : ℤ

pub data QualityError : Type 0 where
  no_samples future_dated too_old too_few bad_interval : QualityError
  not_finite not_ordered gap_too_large : ℕ → QualityError

unfoldable pub maximum_gap : QualityPolicy → Duration
maximum_gap p =
    let max_gap = mul_dur p.max_gap_intervals p.sampling_interval in
    if leb_ℤ max_gap (pos 0) then mul_dur (pos 2) p.sampling_interval else max_gap

module _ {W : Type 0} where
  -- The loop: the index after the last gap above the bound, from `start`.
  unfoldable pub last_break : Duration → ℕ → ℕ → Sample W → List (Sample W) → ℕ
  last_break max_gap i start previous [] = start
  last_break max_gap i start previous (s ∷ ss) =
      last_break max_gap (i + 1) (if ltb_ℤ max_gap (gap previous s) then i else start) s ss

  unfoldable pub most_recent_contiguous : List (Sample W) → QualityPolicy → List (Sample W)
  unfolding last_break
  most_recent_contiguous [] p = []
  most_recent_contiguous (s ∷ ss) p =
      if ltb (length (s ∷ ss)) 2 || leb_ℤ p.sampling_interval (pos 0)
      then s ∷ ss
      else drop (last_break (maximum_gap p) 1 0 s ss) (s ∷ ss)

  unfoldable pub validate_fresh :
      List (Sample W) → Time → QualityPolicy → Result QualityError (Unit {0})
  unfolding last_of
  validate_fresh [] now p = err no_samples
  validate_fresh (s ∷ ss) now p =
      let latest : Time = (last_of s ss).observed_at in
      if ltb_ℤ now latest
      then err future_dated
      else if ltb_ℤ (maximum_gap p) (sub_time now latest)
      then err too_old
      else ok tt

module _ {W : Type 0} ⦃f : Float64 W⦄ where
  -- The rounds of the loop of `Validate` from index `i`, after `previous`.
  unfoldable pub validate_from :
      Duration → ℕ → Sample W → List (Sample W) → Result QualityError (Unit {0})
  validate_from max_gap i previous [] = ok tt
  validate_from max_gap i previous (s ∷ ss) =
      let rest = validate_from max_gap (i + 1) s ss in
      if not (is_finite s.observed_value)
      then err (not_finite i)
      else if leb_ℤ (gap previous s) (pos 0)
      then err (not_ordered i)
      else if ltb_ℤ max_gap (gap previous s)
      then err (gap_too_large i)
      else rest

  unfoldable pub validate_loop : Duration → List (Sample W) → Result QualityError (Unit {0})
  validate_loop max_gap [] = ok tt
  validate_loop max_gap (s ∷ ss) =
      if not (is_finite s.observed_value) then err (not_finite 0) else validate_from max_gap 1 s ss

  unfoldable pub validate : List (Sample W) → QualityPolicy → Result QualityError (Unit {0})
  validate samples p =
      if ltb_ℤ (pos (length samples)) p.min_samples
      then err too_few
      else if leb_ℤ p.sampling_interval (pos 0)
      then err bad_interval
      else validate_loop (maximum_gap p) samples
