-- ===== src/Training/Gates.antt =====
-- What a promotion and a revalidation rest on.
use keda_replica_sense.Prelude.{
  ℤ, pos, eqb_ℤ, leb_ℤ, ltb_ℤ, Bool, not, ◌&&◌, ◌≤ℤ◌, ◌<ℤ◌, true, false, ◌||◌, ◌≡◌, ◌↔◌, ◌⊎◌,
  Option, none, some, refl, inl, inr, arith, Float64, ◌≼◌, String, str_eq, eq_iff,
}
use keda_replica_sense.Dataset.{is_finite}
use keda_replica_sense.Training.{
  ValidationMetrics, EvaluationPolicy, valid_policy, valid_metrics, safe_metrics, regresses,
  reference_of, epsilon, valid_quantile, loss_target, evaluate_artifact_promotion,
}

all_fifteen :
    (a b c d e g h i j k l m n o q : Bool)
    → (a && b && c && d && e && g && h && i && j && k && l && m && n && o && q) ≡ true
    → (a ≡ true)
      × (b ≡ true)
      × (c ≡ true)
      × (d ≡ true)
      × (e ≡ true)
      × (g ≡ true)
      × (h ≡ true)
      × (i ≡ true)
      × (j ≡ true)
      × (k ≡ true)
      × (l ≡ true)
      × (m ≡ true)
      × (n ≡ true)
      × (o ≡ true)
      × (q ≡ true)
all_fifteen false b c d e g h i j k l m n o q w = cc
all_fifteen true false c d e g h i j k l m n o q w = cc
all_fifteen true true false d e g h i j k l m n o q w = cc
all_fifteen true true true false e g h i j k l m n o q w = cc
all_fifteen true true true true false g h i j k l m n o q w = cc
all_fifteen true true true true true false h i j k l m n o q w = cc
all_fifteen true true true true true true false i j k l m n o q w = cc
all_fifteen true true true true true true true false j k l m n o q w = cc
all_fifteen true true true true true true true true false k l m n o q w = cc
all_fifteen true true true true true true true true true false l m n o q w = cc
all_fifteen true true true true true true true true true true false m n o q w = cc
all_fifteen true true true true true true true true true true true false n o q w = cc
all_fifteen true true true true true true true true true true true true false o q w = cc
all_fifteen true true true true true true true true true true true true true false q w = cc
all_fifteen true true true true true true true true true true true true true true false w = cc
all_fifteen true true true true true true true true true true true true true true true w =
    (refl, refl, refl, refl, refl, refl, refl, refl, refl, refl, refl, refl, refl, refl, refl)

false_of_not : (b : Bool) → not b ≡ true → b ≡ false
false_of_not true e = cc
false_of_not false e = refl

above_of_not : (a b : ℤ) → not (leb_ℤ a b) ≡ true → b <ℤ a
above_of_not a b e = ground arith

least_of_not : (a b : ℤ) → not (ltb_ℤ a b) ≡ true → b ≤ℤ a
least_of_not a b e = ground arith

mode_of :
    (mode : String)
    → (str_eq mode "automatic" || str_eq mode "shadow") ≡ true
    → (mode ≡ "automatic") ⊎ (mode ≡ "shadow")
mode_of mode h = ground (arith, eq_iff mode "automatic", eq_iff mode "shadow")

module _ {W : Type 0} ⦃f : Float64 W⦄ where
  -- Finite and at least nought.
  pub record IsAmount (x : W) : Type 0 where
    pub finite : is_finite x ≡ true
    pub nonneg : f.of_int (pos 0) ≼ x

  -- A policy with a mode, an evaluation window, a number of windows and tolerances in their ranges.
  pub record IsPolicy (p : EvaluationPolicy W) : Type 0 where
    pub mode : (p.mode ≡ "automatic") ⊎ (p.mode ≡ "shadow")
    pub lasting : pos 0 <ℤ p.min_duration
    pub window : p.min_duration ≤ℤ p.window
    pub some_windows : pos 2 ≤ℤ p.min_windows
    pub window_range : p.min_windows ≤ℤ p.max_windows
    pub few_windows : p.max_windows ≤ℤ pos 4096
    pub tolerance_finite : is_finite p.coverage_tolerance ≡ true
    pub tolerance_low : f.lt p.coverage_tolerance (f.of_int (pos 0)) ≡ false
    pub tolerance_high : f.le (f.ratio 1 2) p.coverage_tolerance ≡ false
    pub improvement_finite : is_finite p.minimum_improvement ≡ true
    pub improvement_low : f.lt p.minimum_improvement (f.of_int (pos 0)) ≡ false
    pub improvement_high : f.le (f.of_int (pos 1)) p.minimum_improvement ≡ false
    pub relative_finite : is_finite p.max_relative_underprediction ≡ true
    pub relative_low : f.le p.max_relative_underprediction (f.of_int (pos 0)) ≡ false
    pub relative_high : f.lt (f.of_int (pos 1)) p.max_relative_underprediction ≡ false

  -- Metrics over a window at least, whose two rates are shares that add up to one within 1e-9.
  pub record IsMeasured (m : ValidationMetrics W) : Type 0 where
    pub windows : pos 0 <ℤ m.windows
    pub coverage_low : f.of_int (pos 0) ≼ m.coverage
    pub coverage_high : m.coverage ≼ f.of_int (pos 1)
    pub rate_low : f.of_int (pos 0) ≼ m.underprediction_rate
    pub rate_high : m.underprediction_rate ≼ f.of_int (pos 1)
    pub whole :
        f.lt
          (f.abs (f.sub (f.add m.coverage m.underprediction_rate) (f.of_int (pos 1))))
          (f.ratio 1 1000000000)
        ≡ true
    pub error : IsAmount m.mean_absolute_error
    pub loss : IsAmount m.pinball_loss_p95

  -- Measured, over enough windows, with the coverage and the underprediction that are allowed.
  pub record IsSafe (p : EvaluationPolicy W) (q : W) (m : ValidationMetrics W) : Type 0 where
    pub measured : IsMeasured m
    pub enough : p.min_windows ≤ℤ m.windows
    pub covered : f.sub q p.coverage_tolerance ≼ m.coverage
    pub mean : IsAmount m.mean_underprediction
    pub relative : IsAmount m.max_relative_underprediction
    pub relative_bound : m.max_relative_underprediction ≼ p.max_relative_underprediction
    pub peak : IsAmount m.peak_mean_underprediction
    pub excess : IsAmount m.excess_replica_minutes

  -- `x` is not above `y` by more than 1e-9.
  abbrev pub NotAbove : W → W → Type 0
  NotAbove x y = f.lt (f.add y (f.ratio 1 1000000000)) x ≡ false

  -- The evidence that a promotion needs.
  pub record IsEarned (p : EvaluationPolicy W) (q : W) (candidate : ValidationMetrics W)
      (champion : Option (ValidationMetrics W)) (baseline : ValidationMetrics W) : Type 0 where
    pub policy : IsPolicy p
    pub quantile_finite : is_finite q ≡ true
    pub quantile_low : f.le q (f.of_int (pos 0)) ≡ false
    pub quantile_high : f.le (f.of_int (pos 1)) q ≡ false
    pub safe : IsSafe p q candidate
    pub reference : ValidationMetrics W
    pub referred : ((champion ≡ none) × (reference ≡ baseline)) ⊎ (champion ≡ some reference)
    pub comparable : IsMeasured reference
    pub paired : (reference.windows ≤ℤ candidate.windows) × (candidate.windows ≤ℤ reference.windows)
    pub mean : NotAbove candidate.mean_underprediction reference.mean_underprediction
    pub peak : NotAbove candidate.peak_mean_underprediction reference.peak_mean_underprediction
    pub rate : NotAbove candidate.underprediction_rate reference.underprediction_rate
    pub better :
        ((champion ≡ none)
          × (candidate.pinball_loss_p95 ≼ f.ratio 1 1000000000)
          × (baseline.pinball_loss_p95 ≼ f.ratio 1 1000000000))
        ⊎ (f.le
              (f.sub
                (f.mul reference.pinball_loss_p95 (f.sub (f.of_int (pos 1)) p.minimum_improvement))
                (f.ratio 1 1000000000))
              candidate.pinball_loss_p95
            ≡ false)

  -- The tests of the code.
  record PassesTests (p : EvaluationPolicy W) (q : W) (candidate : ValidationMetrics W)
      (champion : Option (ValidationMetrics W)) (baseline : ValidationMetrics W) : Type 0 where
    policy : valid_policy p ≡ true
    quantile : valid_quantile q ≡ true
    safe : safe_metrics p q candidate ≡ true
    comparable : valid_metrics (reference_of champion baseline) ≡ true
    paired : eqb_ℤ (reference_of champion baseline).windows candidate.windows ≡ true
    no_regression : regresses candidate (reference_of champion baseline) ≡ false
    better :
        ((champion ≡ none)
          × (candidate.pinball_loss_p95 ≼ epsilon)
          × (baseline.pinball_loss_p95 ≼ epsilon))
        ⊎ (f.le (loss_target p (reference_of champion baseline)) candidate.pinball_loss_p95 ≡ false)

  IsPolicy-of_valid : (p : EvaluationPolicy W) → valid_policy p ≡ true → IsPolicy p
  unfolding valid_policy
  IsPolicy-of_valid p h =
      let (
        mode, lasting, window, some_windows, window_range, few_windows, tolerance_finite,
        tolerance_low, tolerance_high, improvement_finite, improvement_low, improvement_high,
        relative_finite, relative_low, relative_high,
      ) =
        all_fifteen _ _ _ _ _ _ _ _ _ _ _ _ _ _ _ h in
      record {
        mode = mode_of p.mode mode;
        lasting = above_of_not p.min_duration (pos 0) lasting;
        window = least_of_not p.window p.min_duration window;
        some_windows = least_of_not p.min_windows (pos 2) some_windows;
        window_range = least_of_not p.max_windows p.min_windows window_range;
        few_windows = least_of_not (pos 4096) p.max_windows few_windows;
        tolerance_finite = tolerance_finite;
        tolerance_low = false_of_not _ tolerance_low;
        tolerance_high = false_of_not _ tolerance_high;
        improvement_finite = improvement_finite;
        improvement_low = false_of_not _ improvement_low;
        improvement_high = false_of_not _ improvement_high;
        relative_finite = relative_finite;
        relative_low = false_of_not _ relative_low;
        relative_high = false_of_not _ relative_high;
      }

  valid_of_policy : (p : EvaluationPolicy W) → IsPolicy p → valid_policy p ≡ true
  unfolding valid_policy
  valid_of_policy p k = ground (arith, k, eq_iff p.mode "automatic", eq_iff p.mode "shadow")

  IsMeasured-of_valid : (m : ValidationMetrics W) → valid_metrics m ≡ true → IsMeasured m
  unfolding valid_metrics
  IsMeasured-of_valid m h = ground arith

  valid_of_measured : (m : ValidationMetrics W) → IsMeasured m → valid_metrics m ≡ true
  unfolding valid_metrics
  valid_of_measured m k = ground arith

  IsSafe-of_tests :
      (p : EvaluationPolicy W) (q : W) (m : ValidationMetrics W)
      → safe_metrics p q m ≡ true
      → IsSafe p q m
  unfolding safe_metrics
  IsSafe-of_tests p q m h = ground (arith, IsMeasured-of_valid m)

  tests-IsSafe :
      (p : EvaluationPolicy W) (q : W) (m : ValidationMetrics W)
      → IsSafe p q m
      → safe_metrics p q m ≡ true
  unfolding safe_metrics
  tests-IsSafe p q m k = ground (arith, valid_of_measured m)

  tests_of_promote :
      (p : EvaluationPolicy W) (q : W) (candidate : ValidationMetrics W)
      (champion : Option (ValidationMetrics W)) (baseline : ValidationMetrics W)
      → (evaluate_artifact_promotion p q candidate champion baseline).promote ≡ true
      → PassesTests p q candidate champion baseline
  unfolding evaluate_artifact_promotion
  tests_of_promote p q candidate none baseline h = ground arith
  tests_of_promote p q candidate (some champion) baseline h = ground arith

  promote_of_tests :
      (p : EvaluationPolicy W) (q : W) (candidate : ValidationMetrics W)
      (champion : Option (ValidationMetrics W)) (baseline : ValidationMetrics W)
      → PassesTests p q candidate champion baseline
      → (evaluate_artifact_promotion p q candidate champion baseline).promote ≡ true
  unfolding evaluate_artifact_promotion
  promote_of_tests p q candidate none baseline e = ground arith
  promote_of_tests p q candidate (some champion) baseline e = ground arith

  referred_to :
      (champion : Option (ValidationMetrics W)) (baseline : ValidationMetrics W)
      → ((champion ≡ none) × (reference_of champion baseline ≡ baseline))
        ⊎ (champion ≡ some (reference_of champion baseline))
  referred_to none baseline = inl (refl, refl)
  referred_to (some champion) baseline = inr refl

  reference_unique :
      (champion : Option (ValidationMetrics W)) (baseline reference : ValidationMetrics W)
      → ((champion ≡ none) × (reference ≡ baseline)) ⊎ (champion ≡ some reference)
      → reference ≡ reference_of champion baseline
  reference_unique none baseline reference (inl (e, same)) = same
  reference_unique none baseline reference (inr e) = cc
  reference_unique (some champion) baseline reference (inl (e, same)) = cc
  reference_unique (some champion) baseline reference (inr e) = cc

  no_worse :
      (candidate reference : ValidationMetrics W)
      → (regresses candidate reference ≡ false) ↔ (
          NotAbove candidate.mean_underprediction reference.mean_underprediction
          × NotAbove candidate.peak_mean_underprediction reference.peak_mean_underprediction
          × NotAbove candidate.underprediction_rate reference.underprediction_rate)
  unfolding regresses
  no_worse candidate reference = (λ h. ground arith, λ h. ground arith)

  IsEarned-tests :
      (p : EvaluationPolicy W) (q : W) (candidate : ValidationMetrics W)
      (champion : Option (ValidationMetrics W)) (baseline : ValidationMetrics W)
      → PassesTests p q candidate champion baseline
      → IsEarned p q candidate champion baseline
  IsEarned-tests p q candidate champion baseline t =
      let reference = reference_of champion baseline in
      let (mean, peak, rate) = (no_worse candidate reference).0 t.no_regression in
      record {
        policy = IsPolicy-of_valid p t.policy;
        quantile_finite = ground (arith, t.quantile);
        quantile_low = ground (arith, t.quantile);
        quantile_high = ground (arith, t.quantile);
        safe = IsSafe-of_tests p q candidate t.safe;
        reference = reference;
        referred = referred_to champion baseline;
        comparable = IsMeasured-of_valid reference t.comparable;
        paired = ground (arith, t.paired);
        mean = mean;
        peak = peak;
        rate = rate;
        better = t.better;
      }

  tests-IsEarned :
      (p : EvaluationPolicy W) (q : W) (candidate : ValidationMetrics W)
      (champion : Option (ValidationMetrics W)) (baseline : ValidationMetrics W)
      → IsEarned p q candidate champion baseline
      → PassesTests p q candidate champion baseline
  tests-IsEarned p q candidate champion baseline e =
      let same = reference_unique champion baseline e.reference e.referred in
      let comparable = rw same at (valid_of_measured e.reference e.comparable) in
      let regression = rw same at ((no_worse candidate e.reference).1 (e.mean, e.peak, e.rate)) in
      let paired = rw same at e.paired in
      record {
        policy = valid_of_policy p e.policy;
        quantile = ground (arith, e.quantile_finite, e.quantile_low, e.quantile_high);
        safe = tests-IsSafe p q candidate e.safe;
        comparable = comparable;
        paired = ground (arith, paired);
        no_regression = regression;
        better = rw same at e.better;
      }

  -- A candidate is promoted exactly when the policy is in range and the quantile a finite number
  -- strictly between nought and one, the candidate's metrics are sound, over enough windows, with a
  -- coverage of at least the quantile less the tolerance and a relative underprediction within the
  -- bound, those of its reference (the champion, or without one the baseline) are sound over as many
  -- windows, none of its three underprediction measures is above the reference's by more than 1e-9,
  -- and its loss is below the reference's less the required improvement and 1e-9, or there is no
  -- champion and both losses are at most 1e-9.
  pub evaluate_artifact_promotion-IsEarned :
      (p : EvaluationPolicy W) (q : W) (candidate : ValidationMetrics W)
      (champion : Option (ValidationMetrics W)) (baseline : ValidationMetrics W)
      → ((evaluate_artifact_promotion p q candidate champion baseline).promote ≡ true)
        ↔ IsEarned p q candidate champion baseline
  evaluate_artifact_promotion-IsEarned p q candidate champion baseline = (
    λ h.
        IsEarned-tests p q candidate champion baseline
          (tests_of_promote p q candidate champion baseline h),
    λ e.
        promote_of_tests p q candidate champion baseline
          (tests-IsEarned p q candidate champion baseline e),
  )
