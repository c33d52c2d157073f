-- ===== src/Dataset/Training/Segment.antt =====
-- What a training segment is.
use mathlib.Core.List.{reverse}
use keda_replica_sense.Prelude.{
  ℤ, pos, leb_ℤ, ltb_ℤ, ◌≤ℤ◌, Duration, List, [], ◌∷◌, length, true, false, ◌||◌, ◌≡◌, refl, inl,
  inr, ok, arith, Bool-cases, ok_injective, >>=-eq-ok, subst, sym, Float64,
}
use keda_replica_sense.Dataset.{Sample, keep_latest}
use keda_replica_sense.Dataset.Points.{
  Within, Within-mono, Within-refl, Within-reverse, keep_latest-Within,
}
use keda_replica_sense.Dataset.Training.{
  next_slot, take_run, longest_from, newest_run, dedupe_from, dedupe, some_run, training_segment,
}

module _ {W : Type 0} where
  -- Newest first, each point lies in the slot after the one before.
  abbrev pub IsSequence : Duration → List (Sample W) → Type 0
  IsSequence interval [] = Unit
  IsSequence interval (x ∷ []) = Unit
  IsSequence interval (x ∷ y ∷ r) = (next_slot interval y x ≡ true) × IsSequence interval (y ∷ r)

  -- A run that may be selected: none, or one that is long enough and skips no slot.
  pub record IsRun (interval : Duration) (minimum : ℤ) (obs run : List (Sample W)) : Type 0 where
    pub long : minimum ≤ℤ pos (length run)
    pub sequence : IsSequence interval run
    pub within : Within run obs

  abbrev pub NoneOrRun : Duration → ℤ → List (Sample W) → List (Sample W) → Type 0
  NoneOrRun interval minimum obs [] = Unit
  NoneOrRun interval minimum obs (x ∷ xs) = IsRun interval minimum obs (x ∷ xs)

  take_run-NoneOrRun :
      (interval : Duration) (minimum : ℤ) (obs : List (Sample W)) (p : Sample W)
      (run selected : List (Sample W))
      → IsSequence interval (p ∷ run)
      → Within (p ∷ run) obs
      → NoneOrRun interval minimum obs selected
      → NoneOrRun interval minimum obs (take_run minimum (p ∷ run) selected)
  take_run-NoneOrRun interval minimum obs p run selected s w n =
      elim (Bool-cases (leb_ℤ minimum (pos (length (p ∷ run))))) [
        | inl e ↦ rw e (record { long = ground arith; sequence = s; within = w })
        | inr e ↦ rw e n
      ]

  longest_from-NoneOrRun :
      (interval : Duration) (minimum : ℤ) (obs : List (Sample W)) (p : Sample W)
      (run selected ss : List (Sample W))
      → IsSequence interval (p ∷ run)
      → Within (p ∷ run) obs
      → NoneOrRun interval minimum obs selected
      → Within ss obs
      → NoneOrRun interval minimum obs (longest_from interval minimum p run selected ss)
  unfolding longest_from
  longest_from-NoneOrRun interval minimum obs p run selected [] s w n v =
      take_run-NoneOrRun interval minimum obs p run selected s w n
  longest_from-NoneOrRun interval minimum obs p run selected (t ∷ ts) s w n v =
      elim (Bool-cases (next_slot interval p t)) [
        | inl e ↦ rw e (
            longest_from-NoneOrRun interval minimum obs t (p ∷ run) selected ts (e, s) (v.0, w) n
              v.1)
        | inr e ↦ rw e (
            longest_from-NoneOrRun interval minimum obs t [] (take_run minimum (p ∷ run) selected)
              ts tt (v.0, tt) (take_run-NoneOrRun interval minimum obs p run selected s w n) v.1)
      ]

  newest_run-NoneOrRun :
      (interval : Duration) (minimum : ℤ) (obs points : List (Sample W))
      → Within points obs
      → NoneOrRun interval minimum obs (newest_run interval minimum points)
  unfolding newest_run
  newest_run-NoneOrRun interval minimum obs [] w = tt
  newest_run-NoneOrRun interval minimum obs (p ∷ ps) w =
      longest_from-NoneOrRun interval minimum obs p [] [] ps tt (w.0, tt) tt w.1

  IsRun-of_some :
      (interval : Duration) (minimum : ℤ) (obs run segment : List (Sample W))
      → NoneOrRun interval minimum obs run
      → some_run run ≡ ok segment
      → (segment ≡ reverse run) × IsRun interval minimum obs run
  IsRun-of_some interval minimum obs [] segment n e = cc
  IsRun-of_some interval minimum obs (x ∷ xs) segment n e = (sym (ok_injective e), n)

module _ {W : Type 0} ⦃f : Float64 W⦄ where
  dedupe_from-Within :
      (interval : Duration) (points : List (Sample W)) (previous : Sample W)
      (ss obs ps : List (Sample W))
      → Within points obs
      → Within ss obs
      → dedupe_from interval points previous ss ≡ ok ps
      → Within ps obs
  unfolding dedupe_from
  dedupe_from-Within interval points previous [] obs ps v w e =
      subst (λ t. Within t obs) (ok_injective e) v
  dedupe_from-Within interval points previous (s ∷ ss) obs ps v w e =
      dedupe_from-Within interval (keep_latest interval points s) s ss obs ps
        (keep_latest-Within interval points obs s w.0 v) w.1 (ground arith)

  dedupe-Within :
      (interval : Duration) (ss ps : List (Sample W)) → dedupe interval ss ≡ ok ps → Within ps ss
  unfolding dedupe
  dedupe-Within interval [] ps e = subst (λ t. Within t []) (ok_injective e) tt
  dedupe-Within interval (s ∷ ss) ps e =
      dedupe_from-Within interval (s ∷ []) s ss (s ∷ ss) ps (inl refl, tt)
        (Within-mono ss ss s (Within-refl ss)) (ground arith)

  -- A segment that is handed on has at least the minimum of points, all of them observations, and
  -- each point lies in the sampling slot after the one before.
  pub training_segment-IsRun :
      (observed : List (Sample W)) (interval : Duration) (minimum : ℤ) (segment : List (Sample W))
      → training_segment observed interval minimum ≡ ok segment
      → (run : List (Sample W)) × (segment ≡ reverse run) × IsRun interval minimum observed run
  unfolding training_segment
  training_segment-IsRun observed interval minimum segment e =
      let sound : (leb_ℤ interval (pos 0) || ltb_ℤ minimum (pos 2)) ≡ false = ground arith in
      let (points, d, e₁) = >>=-eq-ok (dedupe interval observed) _ (rw sound at e) in
      let run : List (Sample W) = newest_run interval minimum (reverse points) in
      let (same, long) =
        IsRun-of_some interval minimum observed run segment
          (newest_run-NoneOrRun interval minimum observed (reverse points)
            (Within-reverse points observed (dedupe-Within interval observed points d)))
          e₁ in
      (run, same, long)
