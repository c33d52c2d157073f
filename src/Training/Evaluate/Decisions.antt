-- ===== src/Training/Evaluate/Decisions.antt =====
-- The decisions of `Evaluate` in internal/training/evaluation.go: which artifacts load, and what
-- action the metrics lead to.
use keda_replica_sense.Prelude.{
  pos, ltb_ℤ, String, str_eq, Time, Duration, sub_time, mul_dur, Bool, true, false, ◌&&◌, ◌||◌, not,
  if◌then◌else◌, Option, none, some, List, [], ◌∷◌, ◌++◌, Float64,
}
use keda_replica_sense.Dataset.{Sample, last_of}
use keda_replica_sense.Training.{
  ValidationMetrics, EvaluationContract, EvaluationPolicy, EvaluationReport, can_revalidate, refuse,
  epsilon, evaluate_artifact_promotion, comparable_contract, same_contract,
}
use keda_replica_sense.Training.Evaluate.Versions.{
  EvaluationModel, EvaluationWorld, Verdict, finishes, later_of, Prepared,
}

module _ {W : Type 0} ⦃f : Float64 W⦄ where
  abbrev quantile_fits : Option W → W → Bool
  quantile_fits none q = true
  quantile_fits (some own) q = not (f.lt epsilon (f.abs (f.sub own q)))

  -- `load(...) == nil`: the checksum, the loader, and the artifact's own quantile.
  unfoldable pub loads : EvaluationWorld W → EvaluationContract W → EvaluationModel W → Bool
  loads world contract v =
      str_eq (world.digest v.artifact) v.artifact_sha256
      && (elim (world.load v) [ none ↦ false | some own ↦ quantile_fits own contract.quantile ])

  unfoldable pub add_champion :
      EvaluationWorld W
      → EvaluationContract W
      → EvaluationModel W
      → Option (EvaluationModel W)
      → Prepared W
      → Prepared W
  unfolding loads
  add_champion world contract target none prepared = prepared
  add_champion world contract target (some active) prepared =
      if str_eq active.engine target.engine
        && (str_eq active.contract.version "" || comparable_contract active.contract contract)
      then (if loads world contract active
          then record prepared {
            models = prepared.models ++ ("champion", active) ∷ [];
            after = later_of prepared.after active.trained_until;
          }
          else record prepared {
            detail = "active artifact unavailable; deterministic baseline reference";
          })
      else record prepared {
        detail = "active artifact target contract differs; deterministic baseline reference";
      }

  abbrev pub rollback_target :
      Option (EvaluationModel W)
      → Option (EvaluationModel W)
      → Option (EvaluationModel W)
      → EvaluationContract W
      → EvaluationPolicy W
      → Option (EvaluationModel W)
  rollback_target none (some active) (some previous) contract policy =
      if policy.rollback
        && str_eq previous.id active.report.previous_model_id
        && same_contract previous.contract contract
      then some previous
      else none
  rollback_target _ _ _ contract policy = none

  abbrev pub after_previous : Option (EvaluationModel W) → EvaluationModel W → Time → Time
  after_previous none previous after = later_of after previous.trained_until
  after_previous (some active) previous after =
      later_of (later_of after previous.trained_until) active.activated_at

  abbrev zero_metrics : ValidationMetrics W
  zero_metrics = record {
    windows = pos 0;
    coverage = f.of_int (pos 0);
    underprediction_rate = f.of_int (pos 0);
    mean_absolute_error = f.of_int (pos 0);
    pinball_loss_p95 = f.of_int (pos 0);
    mean_underprediction = f.of_int (pos 0);
    max_relative_underprediction = f.of_int (pos 0);
    peak_mean_underprediction = f.of_int (pos 0);
    excess_replica_minutes = f.of_int (pos 0);
  }

  -- A read of the metrics map: the zero value on a missing name.
  abbrev pub or_zero : Option (ValidationMetrics W) → ValidationMetrics W
  or_zero none = zero_metrics
  or_zero (some m) = m

  -- `max(.10, rollbackPolicy.MinimumImprovement)`.
  abbrev pub rollback_policy : EvaluationPolicy W → EvaluationPolicy W
  rollback_policy p = record p { minimum_improvement = f.max (f.ratio 1 10) p.minimum_improvement }

  -- The decision on a candidate.
  unfoldable pub judge_candidate :
      EvaluationPolicy W → String → EvaluationReport W → EvaluationReport W
  judge_candidate policy expected report =
      let metrics = report.evidence.metrics in
      let decision =
        evaluate_artifact_promotion policy report.contract.quantile (or_zero (metrics "candidate"))
          (metrics "champion") (or_zero (metrics "baseline")) in
      if decision.promote
      then record report {
        decision = decision;
        action = if str_eq policy.mode "shadow" then "shadow" else "promote";
        previous_model_id = expected;
      }
      else record report { decision = decision; action = "rejected" }

  -- The decision on the active model alone.
  unfoldable pub judge_active :
      EvaluationPolicy W → EvaluationModel W → EvaluationReport W → EvaluationReport W
  judge_active policy active report =
      let metrics = report.evidence.metrics in
      if can_revalidate policy report.contract.quantile (or_zero (metrics "candidate"))
        (or_zero (metrics "baseline"))
      then record report {
        previous_model_id = active.report.previous_model_id;
        action = "revalidated";
        decision = refuse "active_revalidation_passed" "deterministic_baseline";
      }
      else record report {
        previous_model_id = active.report.previous_model_id;
        action = "degraded";
        decision = refuse "active_revalidation_failed" "deterministic_baseline";
      }

  -- A degraded champion may give way to the model before it.
  unfoldable pub judge_rollback :
      EvaluationPolicy W
      → EvaluationModel W
      → EvaluationModel W
      → EvaluationReport W
      → EvaluationModel W × EvaluationReport W
  judge_rollback policy active previous report =
      let metrics = report.evidence.metrics in
      let decision =
        evaluate_artifact_promotion (rollback_policy policy) report.contract.quantile
          (or_zero (metrics "previous")) (some (or_zero (metrics "candidate")))
          (or_zero (metrics "baseline")) in
      if decision.promote
      then (
        previous,
        record report {
          decision = decision;
          action = if str_eq policy.mode "shadow" then "shadow_rollback" else "rollback";
          previous_model_id = active.id;
        },
      )
      else (active, record report { decision = decision })

  abbrev pub with_rollback :
      EvaluationPolicy W
      → EvaluationModel W
      → Option (EvaluationModel W)
      → EvaluationReport W
      → EvaluationModel W × EvaluationReport W
  with_rollback policy active none report = (active, report)
  with_rollback policy active (some previous) report =
      if str_eq report.action "degraded"
      then judge_rollback policy active previous report
      else (active, report)

  -- The last part of `Evaluate`, from the evidence on.
  unfoldable pub conclude :
      EvaluationPolicy W
      → Option (EvaluationModel W)
      → Option (EvaluationModel W)
      → EvaluationModel W
      → EvaluationReport W
      → EvaluationModel W × EvaluationReport W
  unfolding judge_candidate judge_active judge_rollback
  conclude policy (some candidate) rollback target report =
      (target, judge_candidate policy report.expected_active_id report)
  conclude policy none rollback active report =
      with_rollback policy active rollback (judge_active policy active report)

  abbrev pub is_stale : Time → Duration → List (Sample W) → Bool
  is_stale now sampling [] = true
  is_stale now sampling (s ∷ ss) =
      ltb_ℤ (mul_dur (pos 3) sampling) (sub_time now (last_of s ss).observed_at)
      || ltb_ℤ now (last_of s ss).observed_at

  abbrev pub finish : EvaluationModel W → EvaluationReport W → String → Verdict W
  finish target report reason = finishes target (record report { reason = reason })
