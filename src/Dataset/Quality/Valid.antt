-- ===== src/Dataset/Quality/Valid.antt =====
-- What `Validate` accepts, and what `ValidateFresh` does.
use keda_replica_sense.Prelude.{
  ℕ, ◌+◌, pos, ◌≤ℤ◌, ◌<ℤ◌, Time, Duration, sub_time, List, [], ◌∷◌, length, true, ◌≡◌, refl, ◌↔◌,
  ◌≢◌, ok, err, arith, Float64,
}
use keda_replica_sense.Dataset.{Sample, is_finite, gap, last_of}
use keda_replica_sense.Dataset.Quality.{
  QualityPolicy, maximum_gap, validate_from, validate_loop, validate, validate_fresh, gap_too_large,
  most_recent_contiguous,
}
use keda_replica_sense.Dataset.Quality.Contiguous.{IsContiguous, most_recent_contiguous_run}

module _ {W : Type 0} ⦃f : Float64 W⦄ where
  -- After `x`, every value is finite, and every gap is positive and at most the bound.
  abbrev pub Follows : Duration → Sample W → List (Sample W) → Type 0
  Follows m x [] = Unit
  Follows m x (y ∷ ys) =
      (is_finite y.observed_value ≡ true) × (pos 0 <ℤ gap x y) × (gap x y ≤ℤ m) × Follows m y ys

  abbrev pub IsRegular : Duration → List (Sample W) → Type 0
  IsRegular m [] = Unit
  IsRegular m (x ∷ xs) = (is_finite x.observed_value ≡ true) × Follows m x xs

  pub record IsValid (p : QualityPolicy) (samples : List (Sample W)) : Type 0 where
    pub enough : p.min_samples ≤ℤ pos (length samples)
    pub positive : pos 0 <ℤ p.sampling_interval
    pub regular : IsRegular (maximum_gap p) samples

  Follows-of_ok :
      (m : Duration) (i : ℕ) (x : Sample W) (ys : List (Sample W))
      → validate_from m i x ys ≡ ok tt
      → Follows m x ys
  unfolding validate_from
  Follows-of_ok m i x [] h = tt
  Follows-of_ok m i x (y ∷ ys) h = ground (arith, Follows-of_ok m (i + 1) y ys)

  ok_of_Follows :
      (m : Duration) (i : ℕ) (x : Sample W) (ys : List (Sample W))
      → Follows m x ys
      → validate_from m i x ys ≡ ok tt
  unfolding validate_from
  ok_of_Follows m i x [] h = refl
  ok_of_Follows m i x (y ∷ ys) h = ground (arith, ok_of_Follows m (i + 1) y ys h.3)

  IsValid-of_ok : (p : QualityPolicy) (xs : List (Sample W)) → validate xs p ≡ ok tt → IsValid p xs
  unfolding validate validate_loop
  IsValid-of_ok p [] h = ground arith
  IsValid-of_ok p (x ∷ xs) h = ground (arith, Follows-of_ok (maximum_gap p) 1 x xs)

  ok_of_valid : (p : QualityPolicy) (xs : List (Sample W)) → IsValid p xs → validate xs p ≡ ok tt
  unfolding validate validate_loop
  ok_of_valid p [] v = ground arith
  ok_of_valid p (x ∷ xs) v = ground (arith, ok_of_Follows (maximum_gap p) 1 x xs v.regular.1)

  -- A data set is accepted exactly when it has the samples required, the interval is positive, every
  -- value is finite, and every gap between neighbours is positive and at most the maximum.
  pub validate-IsValid :
      (p : QualityPolicy) (samples : List (Sample W))
      → (validate samples p ≡ ok tt) ↔ IsValid p samples
  validate-IsValid p samples = (IsValid-of_ok p samples, ok_of_valid p samples)

  contiguous_from :
      (m : Duration) (i j : ℕ) (x : Sample W) (ys : List (Sample W))
      → IsContiguous m (x ∷ ys)
      → validate_from m i x ys ≢ err (gap_too_large j)
  unfolding validate_from
  contiguous_from m i j x [] h e = cc
  contiguous_from m i j x (y ∷ ys) h e = ground (arith, contiguous_from m (i + 1) j y ys h.1)

  contiguous_validate :
      (p : QualityPolicy) (xs : List (Sample W)) (j : ℕ)
      → IsContiguous (maximum_gap p) xs
      → validate xs p ≢ err (gap_too_large j)
  unfolding validate validate_loop
  contiguous_validate p [] j h e = ground arith
  contiguous_validate p (x ∷ xs) j h e = ground (arith, contiguous_from (maximum_gap p) 1 j x xs h)

  -- At a positive interval, the suffix taken after the newest long gap is never refused for a long
  -- gap.
  pub validate-most_recent_contiguous :
      (p : QualityPolicy) (samples : List (Sample W)) (j : ℕ)
      → pos 0 <ℤ p.sampling_interval
      → validate (most_recent_contiguous samples p) p ≢ err (gap_too_large j)
  validate-most_recent_contiguous p samples j h =
      let (older, whole, contiguous, maximal) = most_recent_contiguous_run samples p h in
      contiguous_validate p (most_recent_contiguous samples p) j contiguous

-- The newest observation is neither in the future nor older than the maximum gap.
abbrev pub IsFresh : {W : Type 0} → Time → QualityPolicy → List (Sample W) → Type 0
IsFresh now p [] = ⊥
IsFresh now p (x ∷ xs) =
    ((last_of x xs).observed_at ≤ℤ now) × (sub_time now (last_of x xs).observed_at ≤ℤ maximum_gap p)

module _ {W : Type 0} where
  IsFresh-of_ok :
      (samples : List (Sample W)) (now : Time) (p : QualityPolicy)
      → validate_fresh samples now p ≡ ok tt
      → IsFresh now p samples
  unfolding validate_fresh
  IsFresh-of_ok [] now p h = cc
  IsFresh-of_ok (x ∷ xs) now p h = ground arith

  ok_of_fresh :
      (samples : List (Sample W)) (now : Time) (p : QualityPolicy)
      → IsFresh now p samples
      → validate_fresh samples now p ≡ ok tt
  unfolding validate_fresh
  ok_of_fresh [] now p h = absurd h
  ok_of_fresh (x ∷ xs) now p h = ground arith

  -- Freshness is accepted exactly when there is a newest observation, not in the future, and at most
  -- the maximum gap old.
  pub validate_fresh-IsFresh :
      (samples : List (Sample W)) (now : Time) (p : QualityPolicy)
      → (validate_fresh samples now p ≡ ok tt) ↔ IsFresh now p samples
  validate_fresh-IsFresh samples now p = (IsFresh-of_ok samples now p, ok_of_fresh samples now p)
