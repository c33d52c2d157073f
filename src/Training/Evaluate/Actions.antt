-- ===== src/Training/Evaluate/Actions.antt =====
-- What the action of a stored report rests on.
use keda_replica_sense.Prelude.{
  subst, pos, add_time, sub_time, ltb_ℤ, is_zero_time, mul_dur, wrap64, neg, String, str_eq, Time,
  Bool, true, false, ◌&&◌, ◌||◌, not, ◌≡◌, refl, inl, inr, Option, none, some, is_some, List, [],
  ◌∷◌, ◌++◌, arith, if◌then◌else◌, Bool-cases, Option-cases, if_both, ◌∙◌, Float64, leb_ℤ,
}
use keda_replica_sense.Domain.{SamplingWorkload}
use keda_replica_sense.Dataset.{Sample}
use keda_replica_sense.Training.{
  EvaluationPolicy, EvaluationReport, PromotionDecision, evaluate_artifact_promotion,
  fresh_evaluation_evidence, can_revalidate, refuse, same_contract,
}
use keda_replica_sense.Training.Gates.{IsEarned, evaluate_artifact_promotion-IsEarned}
use keda_replica_sense.Training.Evaluate.{
  EvaluationModel, EvaluationWorld, EvaluationService, Lineage, Verdict, idle, fails, finishes,
  Named, Prepared, judge_candidate, judge_active, judge_rollback, conclude, compare_and_conclude,
  observe, examine, consider_rollback, judge, evaluate, or_zero, rollback_policy, later_of, max_dur,
  rollback_target, outcome_of, contract_for, is_legacy, expiry, opening_report, prepare, loads,
  read_versions, due_candidate, or_else, after_previous, is_stale,
}

-- An action that a mode writes is read back.
not_shadow : (b : Bool) → str_eq (if b then "shadow" else "promote") "promote" ≡ true → b ≡ false
not_shadow true h = cc
not_shadow false h = refl

not_shadow_rollback :
    (b : Bool) → str_eq (if b then "shadow_rollback" else "rollback") "rollback" ≡ true → b ≡ false
not_shadow_rollback true h = cc
not_shadow_rollback false h = refl

no_rollback : (b : Bool) → str_eq (if b then "shadow" else "promote") "rollback" ≡ true → ⊥
no_rollback true h = cc
no_rollback false h = cc

no_promotion :
    (b : Bool) → str_eq (if b then "shadow_rollback" else "rollback") "promote" ≡ true → ⊥
no_promotion true h = cc
no_promotion false h = cc

module _ {W : Type 0} ⦃f : Float64 W⦄ where
  -- A report that promotes, in a mode that may, rests on fresh evidence that earns the promotion; a
  -- report that rolls back rests on fresh evidence that the active model fails revalidation and
  -- that the model before it earns its place under the stricter rollback policy.
  pub record IsJustified (policy : EvaluationPolicy W) (now : Time) (r : EvaluationReport W)
      : Type 0 where
    pub promotion :
        str_eq r.action "promote" ≡ true
        → IsEarned policy r.contract.quantile
            (or_zero (r.evidence.metrics "candidate"))
            (r.evidence.metrics "champion")
            (or_zero (r.evidence.metrics "baseline"))
          × (str_eq policy.mode "shadow" ≡ false)
          × (fresh_evaluation_evidence r now ≡ true)
    pub rollback :
        str_eq r.action "rollback" ≡ true
        → IsEarned
            (rollback_policy policy)
            r.contract.quantile
            (or_zero (r.evidence.metrics "previous"))
            (some (or_zero (r.evidence.metrics "candidate")))
            (or_zero (r.evidence.metrics "baseline"))
          × (can_revalidate policy r.contract.quantile
                (or_zero (r.evidence.metrics "candidate"))
                (or_zero (r.evidence.metrics "baseline"))
              ≡ false)
          × (str_eq policy.mode "shadow" ≡ false)
          × (fresh_evaluation_evidence r now ≡ true)

  -- Freshness reads nothing that the decision writes.
  fresh_kept :
      (now : Time) (r : EvaluationReport W) (action reason previous : String)
      (decision : PromotionDecision)
      → fresh_evaluation_evidence
          (record r {
            action = action;
            reason = reason;
            previous_model_id = previous;
            decision = decision;
          })
          now
        ≡ fresh_evaluation_evidence r now
  unfolding fresh_evaluation_evidence
  fresh_kept now r action reason previous decision = refl

  judge_candidate-IsJustified :
      (policy : EvaluationPolicy W) (expected : String) (now : Time) (r : EvaluationReport W)
      → fresh_evaluation_evidence r now ≡ true
      → IsJustified policy now (judge_candidate policy expected r)
  unfolding judge_candidate
  judge_candidate-IsJustified policy expected now r fresh =
      let decision =
        evaluate_artifact_promotion policy r.contract.quantile
          (or_zero (r.evidence.metrics "candidate")) (r.evidence.metrics "champion")
          (or_zero (r.evidence.metrics "baseline")) in
      let shadow : Bool = str_eq policy.mode "shadow" in
      if_both (IsJustified policy now) decision.promote
        (λ e. record {
          promotion = λ h. (
            (evaluate_artifact_promotion-IsEarned _ _ _ _ _).0 e,
            not_shadow shadow h,
            fresh_kept now r (if shadow then "shadow" else "promote") r.reason expected decision
                ∙ fresh,
          );
          rollback = λ h. absurd (no_rollback shadow h);
        })
        (λ e. record { promotion = λ h. cc; rollback = λ h. cc })

  -- An action that is neither a promotion nor a rollback needs no ground.
  calm :
      (policy : EvaluationPolicy W) (now : Time) (r : EvaluationReport W)
      → str_eq r.action "promote" ≡ false
      → str_eq r.action "rollback" ≡ false
      → IsJustified policy now r
  calm policy now r p q = record { promotion = λ h. cc; rollback = λ h. cc }

  -- The reason of a report and its detail are no part of its grounds.
  with_reason :
      (policy : EvaluationPolicy W) (now : Time) (r : EvaluationReport W) (reason : String)
      → IsJustified policy now r
      → IsJustified policy now (record r { reason = reason })
  unfolding fresh_evaluation_evidence
  with_reason policy now r reason j = record { promotion = j.promotion; rollback = j.rollback }

  judge_rollback-IsJustified :
      (policy : EvaluationPolicy W) (active previous : EvaluationModel W) (now : Time)
      (r : EvaluationReport W)
      → fresh_evaluation_evidence r now ≡ true
      → can_revalidate policy r.contract.quantile
          (or_zero (r.evidence.metrics "candidate"))
          (or_zero (r.evidence.metrics "baseline"))
        ≡ false
      → str_eq r.action "promote" ≡ false
      → str_eq r.action "rollback" ≡ false
      → IsJustified policy now (judge_rollback policy active previous r).1
  unfolding judge_rollback
  judge_rollback-IsJustified policy active previous now r fresh failed p q =
      let decision =
        evaluate_artifact_promotion (rollback_policy policy) r.contract.quantile
          (or_zero (r.evidence.metrics "previous"))
          (some (or_zero (r.evidence.metrics "candidate")))
          (or_zero (r.evidence.metrics "baseline")) in
      let shadow : Bool = str_eq policy.mode "shadow" in
      if_both {A = EvaluationModel W × EvaluationReport W} (λ p. IsJustified policy now p.1)
        decision.promote
        (λ e. record {
          promotion = λ h. absurd (no_promotion shadow h);
          rollback = λ h. (
            (evaluate_artifact_promotion-IsEarned _ _ _ _ _).0 e,
            failed,
            not_shadow_rollback shadow h,
            fresh_kept now r (if shadow then "shadow_rollback" else "rollback") r.reason active.id
                  decision
                ∙ fresh,
          );
        })
        (λ e. calm policy now (record r { decision = decision }) p q)

  conclude-IsJustified :
      (policy : EvaluationPolicy W) (candidate rollback : Option (EvaluationModel W))
      (target : EvaluationModel W) (now : Time) (r : EvaluationReport W)
      → fresh_evaluation_evidence r now ≡ true
      → IsJustified policy now (conclude policy candidate rollback target r).1
  unfolding conclude judge_active fresh_evaluation_evidence
  conclude-IsJustified policy (some candidate) rollback target now r fresh =
      judge_candidate-IsJustified policy r.expected_active_id now r fresh
  conclude-IsJustified policy none none target now r fresh =
      elim (Bool-cases (
        can_revalidate policy r.contract.quantile (or_zero (r.evidence.metrics "candidate"))
          (or_zero (r.evidence.metrics "baseline")))) [
            | inl e ↦ rw e (
                calm policy now
                  (record r {
                    previous_model_id = target.report.previous_model_id;
                    action = "revalidated";
                    decision = refuse "active_revalidation_passed" "deterministic_baseline";
                  })
                  refl refl)
            | inr e ↦ rw e (
                calm policy now
                  (record r {
                    previous_model_id = target.report.previous_model_id;
                    action = "degraded";
                    decision = refuse "active_revalidation_failed" "deterministic_baseline";
                  })
                  refl refl)
          ]
  conclude-IsJustified policy none (some previous) target now r fresh =
      elim (Bool-cases (
        can_revalidate policy r.contract.quantile (or_zero (r.evidence.metrics "candidate"))
          (or_zero (r.evidence.metrics "baseline")))) [
            | inl e ↦ rw e (
                calm policy now
                  (record r {
                    previous_model_id = target.report.previous_model_id;
                    action = "revalidated";
                    decision = refuse "active_revalidation_passed" "deterministic_baseline";
                  })
                  refl refl)
            | inr e ↦ rw e (
                judge_rollback-IsJustified policy target previous now
                  (record r {
                    previous_model_id = target.report.previous_model_id;
                    action = "degraded";
                    decision = refuse "active_revalidation_failed" "deterministic_baseline";
                  })
                  fresh e refl refl)
          ]

-- What holds of the report of a verdict, if it has one.
abbrev OnReport : {W : Type 0} → (EvaluationReport W → Type 0) → Verdict W → Type 0
OnReport P idle = Unit
OnReport P (fails e) = Unit
OnReport P (finishes target r) = P r

module _ {W : Type 0} ⦃f : Float64 W⦄ (s : EvaluationService W) (world : EvaluationWorld W)
    (w : SamplingWorkload W) (now : Time) where
  -- The report of a verdict is justified.
  unfoldable IsSound : Verdict W → Type 0
  IsSound v = OnReport (IsJustified s.policy now) v

  compare_and_conclude-IsSound :
      (candidate rollback : Option (EvaluationModel W)) (target : EvaluationModel W)
      (r : EvaluationReport W) (models : Named W) (observed : List (Sample W)) (after : Time)
      → str_eq r.action "promote" ≡ false
      → str_eq r.action "rollback" ≡ false
      → IsSound
          (compare_and_conclude s world w now candidate rollback target r models observed after)
  unfolding compare_and_conclude IsSound
  compare_and_conclude-IsSound candidate rollback target r models observed after p q =
      let found = record r { evidence = (world.compare models observed after).0 } in
      let conclusion = conclude s.policy candidate rollback target found in
      elim (Option-cases (world.compare models observed after).1) [
        | inl e ↦
            rw (e, compare_and_conclude)
              (if_both (λ v. IsSound v) (fresh_evaluation_evidence found now)
                (λ fresh.
                  with_reason s.policy now conclusion.1 conclusion.1.decision.reason
                    (conclude-IsJustified s.policy candidate rollback target now found fresh))
                (λ stale.
                  calm s.policy now (record found { reason = "evaluation_not_current" }) p q))
        | inr (detail, e) ↦
            rw (e, compare_and_conclude)
              (calm s.policy now
                (record found { detail = detail; reason = "insufficient_or_invalid_evidence" }) p q)
      ]

  observe-IsSound :
      (candidate rollback : Option (EvaluationModel W)) (target : EvaluationModel W)
      (r : EvaluationReport W) (models : Named W) (boundary : Time)
      → str_eq r.action "promote" ≡ false
      → str_eq r.action "rollback" ≡ false
      → IsSound (observe s world w now candidate rollback target r models boundary)
  unfolding observe IsSound
  observe-IsSound candidate rollback target r models boundary p q =
      let after : Time = later_of boundary (add_time now (wrap64 (neg s.policy.window))) in
      let sampling = w.spec.forecast.sampling_interval in
      let lookback = max_dur w.spec.forecast.training_window (mul_dur (pos 2) s.seasonal_period) in
      let held : (reason : String) → IsJustified s.policy now (record r { reason = reason }) =
        λ reason. calm s.policy now (record r { reason = reason }) p q in
      if_both (λ v. IsSound v) (leb_ℤ sampling (pos 0)) (λ e. held "invalid_contract")
        (λ e. elim (Option-cases (world.samples (add_time after (wrap64 (neg lookback))) now)) [
          | inl missing ↦ rw (missing, observe) tt
          | inr (observed, found) ↦
              rw (found, observe)
                (if_both (λ v. IsSound v) (is_stale now sampling observed)
                  (λ stale. held "stale_source")
                  (λ recent.
                    if_both (λ v. IsSound v) (not (world.has_location r.contract.timezone))
                      (λ unknown. held "invalid_contract")
                      (λ known.
                        compare_and_conclude-IsSound candidate rollback target r models observed
                          after p q)))
        ])

  consider_rollback-IsSound :
      (l : Lineage W) (candidate : Option (EvaluationModel W)) (target : EvaluationModel W)
      (r : EvaluationReport W) (prepared : Prepared W) (previous : Option (EvaluationModel W))
      → str_eq r.action "promote" ≡ false
      → str_eq r.action "rollback" ≡ false
      → IsSound (consider_rollback s world w now l candidate target r prepared previous)
  unfolding consider_rollback IsSound
  consider_rollback-IsSound l candidate target r prepared none p q =
      observe-IsSound candidate none target r prepared.models prepared.after p q
  consider_rollback-IsSound l candidate target r prepared (some previous) p q =
      if_both (λ v. IsSound v) (loads world r.contract previous)
        (λ loaded.
          observe-IsSound candidate (some previous) target r
            (prepared.models ++ ("previous", previous) ∷ [])
            (after_previous l.active previous prepared.after) p q)
        (λ broken. calm s.policy now _ p q)

  -- A guard that ends with a report which does nothing.
  guarded :
      (b : Bool) (target : EvaluationModel W) (r : EvaluationReport W) (v : Verdict W)
      → str_eq r.action "promote" ≡ false
      → str_eq r.action "rollback" ≡ false
      → IsSound v
      → IsSound (if b then finishes target r else v)
  unfolding IsSound
  guarded true target r v p q j = calm s.policy now _ p q
  guarded false target r v p q j = j

  examine-IsSound :
      (l : Lineage W) (candidate : Option (EvaluationModel W)) (target : EvaluationModel W)
      → IsSound (examine s world w now l candidate target)
  unfolding examine opening_report
  examine-IsSound l candidate target =
      let contract = contract_for w s.seasonal_period in
      let report = opening_report s world w now l target in
      let prepared = prepare s world w now l candidate target in
      let told : String → EvaluationReport W = λ reason. record report { reason = reason } in
      guarded (not (same_contract target.contract contract) && not (is_legacy s world w now target))
        target (told "incompatible_contract") _ refl refl
        (guarded (is_zero_time target.trained_until || ltb_ℤ now target.trained_until) target
          (told "invalid_training_boundary") _ refl refl
          (guarded
            (is_some candidate && ltb_ℤ (expiry s world w now) (sub_time now target.created_at))
            target (told "candidate_expired") _ refl refl
            (guarded (not (loads world contract target)) target (told "invalid_artifact") _ refl
              refl
              (consider_rollback-IsSound l candidate target
                (record report { detail = prepared.detail }) prepared
                (rollback_target candidate l.active l.previous contract s.policy) refl refl))))

  judge-IsSound : (versions : List (EvaluationModel W)) → IsSound (judge s world w now versions)
  unfolding judge IsSound
  judge-IsSound versions =
      let l : Lineage W =
        read_versions (record { active = none; candidate = none; previous = none }) versions in
      let candidate = due_candidate l.active l.candidate in
      elim (Option-cases (or_else candidate l.active)) [
        | inl e ↦ rw (e, judge) tt
        | inr (target, e) ↦ rw (e, judge) (examine-IsSound l candidate target)
      ]

  stored_report :
      (chosen : EvaluationModel W) (found : EvaluationReport W) (target : EvaluationModel W)
      (r : EvaluationReport W)
      → (outcome_of s world w now (finishes chosen found)).stored ≡ some (target, r)
      → found ≡ r
  stored_report chosen found target r h = ground arith

  -- What an evaluation stores comes from its verdict.
  stored_of :
      (v : Verdict W) (target : EvaluationModel W) (r : EvaluationReport W)
      → IsSound v
      → (outcome_of s world w now v).stored ≡ some (target, r)
      → IsJustified s.policy now r
  unfolding IsSound
  stored_of idle target r j h = cc
  stored_of (fails e) target r j h = cc
  stored_of (finishes chosen found) target r j h =
      subst (λ x. IsJustified s.policy now x) (stored_report chosen found target r h) j

  -- Whatever the answers from outside, a stored report that promotes does so outside the shadow
  -- mode, on fresh evidence by which the candidate earns its place; a stored report that rolls
  -- back does so outside the shadow mode, on fresh evidence by which the active model fails
  -- revalidation and the model before it earns its place against it under the stricter rollback
  -- policy.
  pub evaluate-IsJustified :
      (target : EvaluationModel W) (r : EvaluationReport W)
      → (evaluate s world w now).stored ≡ some (target, r)
      → IsJustified s.policy now r
  unfolding evaluate
  evaluate-IsJustified target r h = elim (Option-cases world.models) [
    | inl e ↦ ground arith
    | inr (versions, e) ↦
        stored_of (judge s world w now versions) target r (judge-IsSound versions) (ground arith)
  ]
