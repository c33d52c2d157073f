-- ===== src/Dataset.antt =====
-- internal/dataset and internal/domain/sample.go: the canonical observations of a workload, and what
-- the forecaster and the trainer require of them.
pub mod Points
pub mod Quality
pub mod Inference
pub mod Training
mod Tests
use keda_replica_sense.Prelude.{
  String, Time, Duration, List, [], ◌∷◌, Bool, not, ◌&&◌, Float64, ℤ, pos, eqb_ℤ, truncate,
  sub_time, ◌≡◌, ◌⊎◌, if◌then◌else◌,
}

pub record Sample (W : Type 0) : Type 0 where
  pub cluster_id : String
  pub workload_id : String
  pub source_fingerprint : String
  pub observed_at : Time
  pub observed_value : W

-- Neither NaN nor infinite.
abbrev pub is_finite : {W : Type 0} ⦃f : Float64 W⦄ → W → Bool
is_finite ⦃f⦄ x = not (f.is_nan x) && not (f.is_inf x)

-- `b.ObservedAt.Sub(a.ObservedAt)`.
abbrev pub gap : {W : Type 0} → Sample W → Sample W → Duration
gap a b = sub_time b.observed_at a.observed_at

-- The last of `x ∷ xs`.
unfoldable pub last_of {ℓ} : {A : Type ℓ} → A → List A → A
last_of x [] = x
last_of x (y ∷ ys) = last_of y ys

-- `a.ObservedAt.Truncate(interval).Equal(b.ObservedAt.Truncate(interval))`.
unfoldable pub same_slot : {W : Type 0} → Duration → Sample W → Sample W → Bool
same_slot interval a b = eqb_ℤ (truncate a.observed_at interval) (truncate b.observed_at interval)

-- A slice that grows at its end is kept newest first: the step that replaces its last point by one
-- of the same slot, and otherwise appends.
unfoldable pub keep_latest : {W : Type 0} → Duration → List (Sample W) → Sample W → List (Sample W)
keep_latest interval [] s = s ∷ []
keep_latest interval (p ∷ ps) s = if same_slot interval p s then s ∷ ps else s ∷ p ∷ ps

-- Finite demand that is not negative.
abbrev pub is_demand : {W : Type 0} ⦃f : Float64 W⦄ → W → Bool
is_demand ⦃f⦄ x = is_finite x && not (f.lt x (f.of_int (pos 0)))

-- `x` is one of the list.
abbrev pub Among : {A : Type 0} → A → List A → Type 0
Among x [] = ⊥
Among x (y ∷ ys) = (x ≡ y) ⊎ Among x ys
