-- ===== src/Dataset/Inference/Origins.antt =====
-- Where the inputs of a model come from.
use mathlib.Core.List.{reverse}
use keda_replica_sense.Prelude.{
  ℕ, zero, suc, ◌+◌, ◌-◌, ◌≤◌, ◌<◌, ℤ, pos, pos_part, ltb_ℤ, leb_ℤ, ◌<ℤ◌, Duration, Time, wrap64,
  ◌+ℤ◌, quot, max_int64, ◌||◌, if◌then◌else◌, length-drop, ◌≤ℤ◌, List, [], ◌∷◌, ◌++◌, length, drop,
  Bool, true, false, ◌≡◌, refl, inl, inr, ok, arith, Float64, Bool-cases, ok_injective, >>=-eq-ok,
  ap, subst,
}
use keda_replica_sense.Dataset.{Sample, Among, keep_latest, gap}
use keda_replica_sense.Dataset.Points.{
  Within, Within-mono, Within-refl, Within-trans, Within-reverse, keep_latest-Within,
}
use keda_replica_sense.Dataset.Inference.{
  InferenceHistory, InterpolationPolicy, count_true, bridge, bridge_gap, bridge_from, bridge_all,
  append_real, empty_history, trim, check_estimates, select, select_from, recent_window,
  drop_before, prepare_inference_history, estimate, real_run, gap_threshold, is_bridgeable,
  steps_of,
}

module _ {W : Type 0} where
  -- Each input has a mark, and one that is not marked as estimated is an observation.
  abbrev pub Marked : List (Sample W) → List (Sample W) → List Bool → Type 0
  Marked obs [] [] = Unit
  Marked obs [] (b ∷ bs) = ⊥
  Marked obs (s ∷ ss) [] = ⊥
  Marked obs (s ∷ ss) (true ∷ bs) = Marked obs ss bs
  Marked obs (s ∷ ss) (false ∷ bs) = Among s obs × Marked obs ss bs

  Marked-snoc_real :
      (obs ss : List (Sample W)) (bs : List Bool) (s : Sample W)
      → Among s obs
      → Marked obs ss bs
      → Marked obs (ss ++ s ∷ []) (bs ++ false ∷ [])
  Marked-snoc_real obs [] [] s a m = (a, tt)
  Marked-snoc_real obs [] (b ∷ bs) s a m = absurd m
  Marked-snoc_real obs (t ∷ ss) [] s a m = absurd m
  Marked-snoc_real obs (t ∷ ss) (true ∷ bs) s a m = Marked-snoc_real obs ss bs s a m
  Marked-snoc_real obs (t ∷ ss) (false ∷ bs) s a m = (m.0, Marked-snoc_real obs ss bs s a m.1)

  Marked-snoc_estimated :
      (obs ss : List (Sample W)) (bs : List Bool) (s : Sample W)
      → Marked obs ss bs
      → Marked obs (ss ++ s ∷ []) (bs ++ true ∷ [])
  Marked-snoc_estimated obs [] [] s m = tt
  Marked-snoc_estimated obs [] (b ∷ bs) s m = absurd m
  Marked-snoc_estimated obs (t ∷ ss) [] s m = absurd m
  Marked-snoc_estimated obs (t ∷ ss) (true ∷ bs) s m = Marked-snoc_estimated obs ss bs s m
  Marked-snoc_estimated obs (t ∷ ss) (false ∷ bs) s m = (m.0, Marked-snoc_estimated obs ss bs s m.1)

  Marked-drop :
      (obs ss : List (Sample W)) (bs : List Bool) (n : ℕ)
      → Marked obs ss bs
      → Marked obs (drop n ss) (drop n bs)
  Marked-drop obs ss bs zero m = m
  Marked-drop obs [] [] (suc n) m = tt
  Marked-drop obs [] (b ∷ bs) (suc n) m = absurd m
  Marked-drop obs (s ∷ ss) [] (suc n) m = absurd m
  Marked-drop obs (s ∷ ss) (true ∷ bs) (suc n) m = Marked-drop obs ss bs n m
  Marked-drop obs (s ∷ ss) (false ∷ bs) (suc n) m = Marked-drop obs ss bs n m.1

  length-Marked :
      (obs ss : List (Sample W)) (bs : List Bool) → Marked obs ss bs → length bs ≡ length ss
  length-Marked obs [] [] m = refl
  length-Marked obs [] (b ∷ bs) m = absurd m
  length-Marked obs (s ∷ ss) [] m = absurd m
  length-Marked obs (s ∷ ss) (true ∷ bs) m = ap suc (length-Marked obs ss bs m)
  length-Marked obs (s ∷ ss) (false ∷ bs) m = ap suc (length-Marked obs ss bs m.1)

module _ {W : Type 0} ⦃f : Float64 W⦄ where
  abbrev pub IsMarked : List (Sample W) → InferenceHistory W → Type 0
  IsMarked obs h = Marked obs h.samples h.estimated

  bridge-IsMarked :
      (obs : List (Sample W)) (interval : Duration) (previous s : Sample W) (rounds step : ℕ)
      (h : InferenceHistory W)
      → IsMarked obs h
      → IsMarked obs (bridge interval previous s rounds step h)
  unfolding bridge
  bridge-IsMarked obs interval previous s zero step h m = m
  bridge-IsMarked obs interval previous s (suc rounds) step h m =
      bridge-IsMarked obs interval previous s rounds (step + 1) _
        (Marked-snoc_estimated obs h.samples h.estimated (estimate interval previous s step) m)

  bridge_gap-IsMarked :
      (obs : List (Sample W)) (interval max_gap : Duration) (previous s : Sample W)
      (h : InferenceHistory W)
      → IsMarked obs h
      → IsMarked obs (bridge_gap interval max_gap previous s h)
  unfolding bridge_gap
  bridge_gap-IsMarked obs interval max_gap previous s h m =
      let rounds = pos_part (f.to_int (steps_of (gap previous s) interval)) - 1 in
      let bridged = bridge-IsMarked obs interval previous s rounds 1 h m in
      elim (Bool-cases (leb_ℤ (gap_threshold interval) (gap previous s))) [
        | inl e ↦ rw e (elim (Bool-cases (is_bridgeable interval max_gap previous s)) [
          | inl b ↦ rw b bridged
          | inr b ↦ rw b tt
        ])
        | inr e ↦ rw e m
      ]

  bridge_from-IsMarked :
      (obs : List (Sample W)) (interval max_gap : Duration) (i : ℕ) (previous : Sample W)
      (ss : List (Sample W)) (h h' : InferenceHistory W)
      → Within ss obs
      → IsMarked obs h
      → bridge_from interval max_gap i previous ss h ≡ ok h'
      → IsMarked obs h'
  unfolding bridge_from
  bridge_from-IsMarked obs interval max_gap i previous [] h h' w m e =
      subst (λ t. IsMarked obs t) (ok_injective e) m
  bridge_from-IsMarked obs interval max_gap i previous (s ∷ ss) h h' w m e =
      bridge_from-IsMarked obs interval max_gap (i + 1) s ss
        (append_real s (bridge_gap interval max_gap previous s h)) h' w.1
        (Marked-snoc_real obs (bridge_gap interval max_gap previous s h).samples
          (bridge_gap interval max_gap previous s h).estimated s w.0
          (bridge_gap-IsMarked obs interval max_gap previous s h m))
        (ground arith)

  bridge_all-IsMarked :
      (interval max_gap : Duration) (ss obs : List (Sample W)) (h : InferenceHistory W)
      → Within ss obs
      → bridge_all interval max_gap ss ≡ ok h
      → IsMarked obs h
  unfolding bridge_all
  bridge_all-IsMarked interval max_gap [] obs h w e =
      subst (λ t. IsMarked obs t) (ok_injective e) tt
  bridge_all-IsMarked interval max_gap (s ∷ ss) obs h w e =
      bridge_from-IsMarked obs interval max_gap 1 s ss (append_real s empty_history) h w.1 (w.0, tt)
        (ground arith)

  trim-IsMarked :
      (obs : List (Sample W)) (lookback : ℤ) (h : InferenceHistory W)
      → IsMarked obs h
      → IsMarked obs (trim lookback h)
  unfolding trim
  trim-IsMarked obs lookback h m = Marked-drop obs h.samples h.estimated _ m

  trim_count :
      (lookback : ℤ) (h : InferenceHistory W)
      → (trim lookback h).estimated_count ≡ count_true (trim lookback h).estimated
  unfolding trim
  trim_count lookback h = refl

  length-trim :
      (lookback : ℤ) (h : InferenceHistory W)
      → pos 0 <ℤ lookback
      → pos (length (trim lookback h).samples) ≤ℤ lookback
  unfolding trim
  length-trim lookback h p =
      ground (arith, length-drop (length h.samples - pos_part lookback) h.samples)

  check_estimates_same : (h g : InferenceHistory W) → check_estimates h ≡ ok g → h ≡ g
  unfolding check_estimates
  check_estimates_same h g e = ground arith

  check_estimates_tail :
      (h g : InferenceHistory W)
      → check_estimates h ≡ ok g
      → 0 < h.estimated_count
      → 2 ≤ real_run (reverse h.estimated)
  unfolding check_estimates
  check_estimates_tail h g e p = ground arith

module _ {W : Type 0} where
  drop_before-Within : (cutoff : Time) (ss : List (Sample W)) → Within (drop_before cutoff ss) ss
  unfolding drop_before
  drop_before-Within cutoff [] = tt
  drop_before-Within cutoff (s ∷ []) = (inl refl, tt)
  drop_before-Within cutoff (s ∷ t ∷ ss) = elim (Bool-cases (ltb_ℤ s.observed_at cutoff)) [
    | inl e ↦ rw e (Within-mono _ (t ∷ ss) s (drop_before-Within cutoff (t ∷ ss)))
    | inr e ↦ rw e (Within-refl (s ∷ t ∷ ss))
  ]

  recent_window-Within :
      (p : InterpolationPolicy) (ss ws : List (Sample W))
      → recent_window p ss ≡ ok ws
      → Within ws ss
  unfolding recent_window
  recent_window-Within p [] ws e = subst (λ t. Within t []) (ok_injective e) tt
  recent_window-Within p (s ∷ ss) ws e = elim (Bool-cases (ltb_ℤ (pos 0) p.lookback)) [
    | inr n ↦ subst (λ t. Within t (s ∷ ss)) (shorter n) (Within-refl (s ∷ ss))
    | inl l ↦
        elim (Bool-cases
          (leb_ℤ slots (pos 0) || ltb_ℤ (quot max_int64 (pos_part p.sampling_interval)) slots)) [
            | inl big ↦ absurd (cc (rw (l, big) at e))
            | inr fits ↦
                subst (λ t. Within t (s ∷ ss)) (ok_injective (rw (l, fits) at e))
                  (drop_before-Within _ (s ∷ ss))
          ]
  ]
    where
      slots : ℤ
      slots = wrap64 (p.lookback +ℤ pos 6)

      shorter : ltb_ℤ (pos 0) p.lookback ≡ false → s ∷ ss ≡ ws
      shorter n = ok_injective (rw n at e)

  select_from-Within :
      (interval : Duration) (points : List (Sample W)) (previous : Sample W)
      (ss obs ps : List (Sample W))
      → Within points obs
      → Within ss obs
      → select_from interval points previous ss ≡ ok ps
      → Within ps obs
  unfolding select_from
  select_from-Within interval points previous [] obs ps v w e =
      subst (λ t. Within t obs) (ok_injective e) v
  select_from-Within interval points previous (s ∷ ss) obs ps v w e =
      select_from-Within interval (keep_latest interval points s) s ss obs ps
        (keep_latest-Within interval points obs s w.0 v) w.1 (ground arith)

  select-Within :
      (interval : Duration) (ss ps : List (Sample W)) → select interval ss ≡ ok ps → Within ps ss
  unfolding select
  select-Within interval [] ps e = subst (λ t. Within t []) (ok_injective e) tt
  select-Within interval (s ∷ ss) ps e =
      select_from-Within interval (s ∷ []) s ss (s ∷ ss) ps (inl refl, tt)
        (Within-mono ss ss s (Within-refl ss)) e

module _ {W : Type 0} ⦃f : Float64 W⦄ where
  -- What `PrepareInferenceHistory` promises of an input that it hands on.
  pub record IsPrepared (observed : List (Sample W)) (p : InterpolationPolicy)
      (h : InferenceHistory W) : Type 0 where
    pub marked : Marked observed h.samples h.estimated
    pub counted : h.estimated_count ≡ count_true h.estimated
    pub bounded : pos 0 <ℤ p.lookback → pos (length h.samples) ≤ℤ p.lookback
    pub tail : 0 < h.estimated_count → 2 ≤ real_run (reverse h.estimated)

  -- An input handed on has one mark for each point; every point not marked as estimated is an
  -- observation; the estimates are counted; the input is no longer than a positive lookback; and
  -- if anything is estimated, the two newest points are real.
  pub prepare_inference_history-IsPrepared :
      (observed : List (Sample W)) (p : InterpolationPolicy) (h : InferenceHistory W)
      → prepare_inference_history observed p ≡ ok h
      → IsPrepared observed p h
  unfolding prepare_inference_history
  prepare_inference_history-IsPrepared observed p h e =
      let positive : leb_ℤ p.sampling_interval (pos 0) ≡ false = ground arith in
      let max_gap : Duration = if leb_ℤ p.max_gap (pos 0) then pos 300000000000 else p.max_gap in
      let (window, w, e₁) = >>=-eq-ok (recent_window p observed) _ (rw positive at e) in
      let (selected, s, e₂) = >>=-eq-ok (select p.sampling_interval window) _ e₁ in
      let (bridged, b, e₃) =
        >>=-eq-ok (bridge_all p.sampling_interval max_gap (reverse selected)) _ e₂ in
      let points : Within selected observed =
        Within-trans selected window observed (select-Within p.sampling_interval window selected s)
          (recent_window-Within p observed window w) in
      let marked =
        bridge_all-IsMarked p.sampling_interval max_gap (reverse selected) observed bridged
          (Within-reverse selected observed points) b in
      subst (IsPrepared observed p) (check_estimates_same _ h e₃) (record {
        marked = trim-IsMarked observed p.lookback bridged marked;
        counted = trim_count p.lookback bridged;
        bounded = length-trim p.lookback bridged;
        tail = check_estimates_tail _ h e₃;
      })
