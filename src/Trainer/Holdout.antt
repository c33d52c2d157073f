-- ===== src/Trainer/Holdout.antt =====
-- What a run fits on, and what it holds out.
use keda_replica_sense.Prelude.{
  or_false_both, err-ne-ok, ℕ, ◌-◌, ◌≤◌, ℤ, pos, pos_part, ltb_ℤ, eqb_ℤ, ◌+ℤ◌, ◌-ℤ◌, ◌≤ℤ◌, quot,
  wrap64, rem, negsuc, Time, Duration, add_time, truncate, String, str_eq, List, [], ◌∷◌, ◌++◌,
  length, take, drop, false, not, ◌||◌, Option, none, some, Result, ok, err, guard, Float64, ◌≡◌,
  refl, arith, Bool-cases, inl, inr, neg, sym, ap, ◌∙◌, take-append-drop, length-take, length-drop,
  Every, Every-append, >>=-eq-ok, ok_injective, if_both,
}
use keda_replica_sense.Domain.{SamplingWorkload}
use keda_replica_sense.Dataset.{Sample, last_of}
use keda_replica_sense.Dataset.Quality.{validate}
use keda_replica_sense.Dataset.Training.{training_segment}
use keda_replica_sense.History.Repair.{Report}
use keda_replica_sense.Trainer.{
  Service, Trained, World, TrainError, Event, running, repaired, fitted, created, succeeded, failed,
  Logged, and_then, or_fail, relabel, reserved_points, split_holdout, period, held_out,
  gap_intervals, minimum_points, training_points, fit_and_publish, publish, mark_success,
  candidate_of, train, run, close_run, claimed_workload, repair_history, note_fit, or_engine,
}

reserved_bounds :
    (holdout interval : Duration) (count : ℕ)
    → ltb_ℤ (reserved_points holdout interval count) (pos 1) ≡ false
    → (1 ≤ pos_part (reserved_points holdout interval count))
      × (pos_part (reserved_points holdout interval count) ≤ count)
      × (reserved_points holdout interval count
          ≡ pos (pos_part (reserved_points holdout interval count)))
unfolding reserved_points quot
reserved_bounds holdout interval count h = ground arith

-- A run of points with what was held out behind it.
abbrev pub IsSplit : {W : Type 0} → ℤ → List (Sample W) → List (Sample W) → List (Sample W) → Type 0
IsSplit minimum segment points held =
    (points ++ held ≡ segment) × (1 ≤ length held) × (minimum ≤ℤ pos (length points))

kept_points :
    (n : ℕ) (r minimum : ℤ)
    → r ≡ pos (pos_part r)
    → pos_part r ≤ n
    → ltb_ℤ (pos n -ℤ r) minimum ≡ false
    → minimum ≤ℤ pos (n - pos_part r)
unfolding ◌-ℤ◌
kept_points n (pos r) minimum e le h = ground arith
kept_points n (negsuc r) minimum e le h = cc

split_holdout-IsSplit :
    {W : Type 0} (holdout interval : Duration) (minimum : ℤ) (samples points : List (Sample W))
    (reserved : ℕ)
    → split_holdout holdout interval minimum samples ≡ ok (points, reserved)
    → (held : List (Sample W)) × IsSplit minimum samples points held × (length held ≡ reserved)
unfolding split_holdout
split_holdout-IsSplit holdout interval minimum samples points reserved h =
    let n = length samples in
    let r = reserved_points holdout interval n in
    elim (Bool-cases (ltb_ℤ r (pos 1) || ltb_ℤ (pos n -ℤ r) minimum)) [
      | inl e ↦ absurd (err-ne-ok (rw e at h))
      | inr e ↦
          let (first, second) = or_false_both (ltb_ℤ r (pos 1)) (ltb_ℤ (pos n -ℤ r) minimum) e in
          let (some_held, fits, signless) = reserved_bounds holdout interval n first in
          let same = ok_injective (rw e at h) in
          let points_eq : take (n - pos_part r) samples ≡ points =
            ap (λ (t : List _ × ℕ). t.0) same in
          let held_eq : pos_part r ≡ reserved = ap (λ (t : List _ × ℕ). t.1) same in
          let kept : length points ≡ n - pos_part r =
            ap length (sym points_eq) ∙ omega (arith, length-take (n - pos_part r) samples) in
          (
            drop (n - pos_part r) samples,
            (
              rw (← points_eq) (take-append-drop (n - pos_part r) samples),
              omega (arith, length-drop (n - pos_part r) samples),
              rw kept (kept_points n r minimum signless fits second),
            ),
            omega (arith, length-drop (n - pos_part r) samples, held_eq),
          )
    ]

and_then-Every :
    {W A B : Type 0} (P : Event W → Type 0) (m : Logged W A) (k : A → Logged W B)
    → Every P m.0
    → ((a : A) → m.1 ≡ ok a → Every P (k a).0)
    → Every P (and_then m k).0
and_then-Every P (log, err e) k h next = h
and_then-Every P (log, ok a) k h next = Every-append P log (k a).0 h (next a refl)

relabel-eq-ok :
    {E A : Type 0} (g : E → TrainError) (r : Result E A) {a : A} → relabel g r ≡ ok a → r ≡ ok a
relabel-eq-ok g (ok a) h = ap ok (ok_injective h)
relabel-eq-ok g (err e) h = cc

or_fail-eq-ok :
    {A : Type 0} (e : TrainError) (o : Option A) {a : A} → or_fail e o ≡ ok a → o ≡ some a
or_fail-eq-ok e none h = cc
or_fail-eq-ok e (some a) h = ap some (ok_injective h)

module _ {W : Type 0} ⦃f : Float64 W⦄ (s : Service) (world : World W) where
  -- The points are a segment of the listed observations without what is held out behind them.
  abbrev pub IsHeld : List (Sample W) → ℕ → Type 0
  IsHeld points reserved =
      (w : SamplingWorkload W) × (start : Time) × (stop : Time) × (observed : List (Sample W))
      × (segment : List (Sample W)) × (held : List (Sample W)) × (world.samples w start stop
          ≡ some observed)
      × (training_segment observed w.spec.forecast.sampling_interval
            (wrap64 (minimum_points s world w +ℤ quot (minimum_points s world w) 4))
          ≡ ok segment)
      × IsSplit (minimum_points s world w) segment points held
      × (length held ≡ reserved)

  training_points-IsHeld :
      (w : SamplingWorkload W) (start stop : Time) (points : List (Sample W)) (reserved : ℕ)
      → training_points s world w start stop ≡ ok (points, reserved)
      → IsHeld points reserved
  unfolding training_points
  training_points-IsHeld w start stop points reserved h =
      let before = add_time stop (negsuc 0) in
      let interval = w.spec.forecast.sampling_interval in
      let (observed, listed, h1) =
        >>=-eq-ok (or_fail TrainError.samples_failed (world.samples w start before)) _ h in
      let (_, season, h2) =
        >>=-eq-ok
          (guard (eqb_ℤ (rem (period s world) (pos_part interval)) (pos 0)) TrainError.bad_season) _
          h1 in
      let minimum = minimum_points s world w in
      let (segment, found, h3) =
        >>=-eq-ok
          (relabel TrainError.bad_segment
            (training_segment observed interval (wrap64 (minimum +ℤ quot minimum 4))))
          _ h2 in
      let (_, valid, h4) =
        >>=-eq-ok
          (relabel TrainError.bad_quality (
            validate segment (record {
              min_samples = minimum;
              sampling_interval = interval;
              max_gap_intervals = gap_intervals s world;
            })))
          _ h3 in
      let (_, zone, h5) =
        >>=-eq-ok
          (guard (world.has_location w.spec.forecast.business_timezone) TrainError.unknown_zone) _
          h4 in
      let (held, isSplit, count) =
        split_holdout-IsSplit (held_out s world) interval minimum segment points reserved h5 in
      (
        w,
        start,
        before,
        observed,
        segment,
        held,
        or_fail-eq-ok TrainError.samples_failed (world.samples w start before) listed,
        relabel-eq-ok TrainError.bad_segment _ found,
        isSplit,
        count,
      )

  -- What is fitted and what is stored is fitted on held points, and says so.
  abbrev pub IsHonest : Event W → Type 0
  IsHonest running = Unit
  IsHonest (repaired start stop) = Unit
  IsHonest (fitted engine points) = (reserved : ℕ) × IsHeld points reserved
  IsHonest (created c) =
      (p : Sample W) × (ps : List (Sample W)) × (reserved : ℕ) × IsHeld (p ∷ ps) reserved
      × (c.training_window_start ≡ p.observed_at)
      × (c.training_window_end ≡ (last_of p ps).observed_at)
      × (c.dataset_fingerprint ≡ world.dataset_digest (p ∷ ps))
      × (c.validation_metrics.sample_count ≡ length (p ∷ ps))
      × (c.validation_metrics.holdout_sample_count ≡ reserved)
  IsHonest (succeeded id count) = Unit
  IsHonest (failed e) = Unit

  publish-Every :
      (cluster : String) (w : SamplingWorkload W) (points : List (Sample W)) (reserved : ℕ)
      (report : Option Report) (trained : Trained)
      → IsHeld points reserved
      → Every IsHonest (publish s world cluster w points reserved report trained).0
  unfolding candidate_of
  publish-Every cluster w [] reserved report trained held = tt
  publish-Every cluster w (p ∷ ps) reserved report trained held =
      and_then-Every IsHonest
        (created (candidate_of s world cluster w p ps reserved report trained) ∷ [], _)
        (λ id. mark_success s world id (length (p ∷ ps)))
        ((p, ps, reserved, held, refl, refl, refl, refl, refl), tt) (λ id e. (tt, tt))

  fit_and_publish-Every :
      (cluster engine : String) (w : SamplingWorkload W) (report : Option Report)
      (points : List (Sample W)) (reserved : ℕ)
      → IsHeld points reserved
      → Every IsHonest (fit_and_publish s world cluster engine w report (points, reserved)).0
  unfolding fit_and_publish
  fit_and_publish-Every cluster engine w report points reserved held =
      and_then-Every IsHonest (note_fit (or_engine s world engine w) points, _)
        (publish s world cluster w points reserved report)
        (if_both (Every IsHonest)
          (str_eq (or_engine s world engine w) "xgboost"
            || str_eq (or_engine s world engine w) "gru")
          (λ _. ((reserved, held), tt)) (λ _. tt))
        (λ trained e. publish-Every cluster w points reserved report trained held)

  repair_history-Every :
      (w : SamplingWorkload W) (start stop : Time)
      → Every IsHonest (repair_history s world w start stop).0
  repair_history-Every w start stop =
      if_both (λ (m : Logged W (Option Report)). Every IsHonest m.0) s.has_history (λ _. (tt, tt))
        (λ _. tt)

  train-Every :
      (cluster id engine : String) (now : Time)
      → Every IsHonest (train s world cluster id engine now).0
  unfolding train
  train-Every cluster id engine now =
      and_then-Every IsHonest ([], claimed_workload s world id) _ tt
        (λ w e.
          let stop = truncate now w.spec.forecast.sampling_interval in
          let start = add_time stop (neg w.spec.forecast.training_window) in
          and_then-Every IsHonest (repair_history s world w start stop) _
            (repair_history-Every w start stop)
            (λ report e'.
              and_then-Every IsHonest ([], training_points s world w start stop)
                (fit_and_publish s world cluster engine w report) tt
                (λ (points, reserved) given.
                  fit_and_publish-Every cluster engine w report points reserved
                    (training_points-IsHeld w start stop points reserved given))))

  close_run-Every :
      (m : Logged W (Unit {0})) → Every IsHonest m.0 → Every IsHonest (close_run s world m).0
  close_run-Every (log, ok u) h = (tt, h)
  close_run-Every (log, err e) h = (tt, Every-append IsHonest log (failed e ∷ []) h (tt, tt))

  -- Whatever a run fits a native model on, or stores a candidate for, is a contiguous training segment
  -- of the listed observations without a non-empty tail, at least one season of it; a candidate's
  -- window, digest and counts are those of these points, and the held out count is the tail's length.
  pub run-IsHonest :
      (cluster id engine : String) (now : Time)
      → Every IsHonest (run s world cluster id engine now).0
  unfolding run
  run-IsHonest cluster id engine now =
      let P = λ (m : Logged W (Unit {0})). Every IsHonest m.0 in
      if_both P (not s.configured) (λ _. tt)
        (λ _.
          if_both P (not world.mark_running) (λ _. (tt, tt))
            (λ _.
              close_run-Every (train s world cluster id engine now)
                (train-Every cluster id engine now)))
