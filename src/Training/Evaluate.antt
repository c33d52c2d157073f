-- ===== src/Training/Evaluate.antt =====
-- internal/training/evaluation.go, `Evaluate`: one bounded evaluation of a workload's artifacts. The
-- answers of storage, of the artifact loader and of the paired comparison are an argument; the
-- report that is stored, the notification and the release of the lock are the result.
pub mod Versions
pub mod Decisions
pub mod Actions
unfoldable pub use Versions.*
unfoldable pub use Decisions.*
use keda_replica_sense.Prelude.{
  ℕ, ℤ, pos, ltb_ℤ, leb_ℤ, eqb_ℤ, quot, String, str_eq, Time, Duration, sub_time, add_time, add_dur,
  mul_dur, wrap64, neg, is_zero_time, Bool, true, false, ◌&&◌, ◌||◌, not, if◌then◌else◌, Option,
  none, some, is_some, List, [], ◌∷◌, ◌++◌, Float64,
}
use keda_replica_sense.Domain.{SamplingWorkload, decision_horizon}
use keda_replica_sense.Dataset.{Sample, last_of}
use keda_replica_sense.Training.{
  ValidationMetrics, EvaluationContract, EvaluationPolicy, PromotionDecision, Comparison,
  EvaluationReport, evaluation_version, valid_policy, can_revalidate, refuse, epsilon,
  evaluate_artifact_promotion, comparable_contract, same_contract, fresh_evaluation_evidence,
}

module _ {W : Type 0} ⦃f : Float64 W⦄ (s : EvaluationService W) (world : EvaluationWorld W)
    (w : SamplingWorkload W) (now : Time) where
  -- From the observations to the decision.
  unfoldable pub compare_and_conclude :
      Option (EvaluationModel W)
      → Option (EvaluationModel W)
      → EvaluationModel W
      → EvaluationReport W
      → Named W
      → List (Sample W)
      → Time
      → Verdict W
  compare_and_conclude candidate rollback target report models observed after =
      let (evidence, error) = world.compare models observed after in
      let found = record report { evidence = evidence } in
      let (chosen, final) = conclude s.policy candidate rollback target found in
      elim error [
        | some detail ↦
            finish target (record found { detail = detail }) "insufficient_or_invalid_evidence"
        | none ↦
            if fresh_evaluation_evidence found now
            then finish chosen final final.decision.reason
            else finish target found "evaluation_not_current"
      ]

  -- From the boundary of the comparison to the observations.
  unfoldable pub observe :
      Option (EvaluationModel W)
      → Option (EvaluationModel W)
      → EvaluationModel W
      → EvaluationReport W
      → Named W
      → Time
      → Verdict W
  unfolding compare_and_conclude
  observe candidate rollback target report models boundary =
      let after : Time = later_of boundary (add_time now (wrap64 (neg s.policy.window))) in
      let sampling = w.spec.forecast.sampling_interval in
      let lookback = max_dur w.spec.forecast.training_window (mul_dur (pos 2) s.seasonal_period) in
      if leb_ℤ sampling (pos 0)
      then finish target report "invalid_contract"
      else (elim (world.samples (add_time after (wrap64 (neg lookback))) now) [
        | none ↦ fails samples_error
        | some observed ↦
            if is_stale now sampling observed
            then finish target report "stale_source"
            else if not (world.has_location report.contract.timezone)
            then finish target report "invalid_contract"
            else compare_and_conclude candidate rollback target report models observed after
      ])

  -- The model before a degraded champion, if there is one to fall back to.
  unfoldable pub consider_rollback :
      Lineage W
      → Option (EvaluationModel W)
      → EvaluationModel W
      → EvaluationReport W
      → Prepared W
      → Option (EvaluationModel W)
      → Verdict W
  unfolding observe loads
  consider_rollback l candidate target checked prepared none =
      observe candidate none target checked prepared.models prepared.after
  consider_rollback l candidate target checked prepared (some previous) =
      if loads world checked.contract previous
      then observe candidate (some previous) target checked
          (prepared.models ++ ("previous", previous) ∷ [])
          (after_previous l.active previous prepared.after)
      else finish target checked "invalid_rollback_artifact"

  -- An active artifact from before the contracts, which is certified afresh.
  abbrev pub is_legacy : EvaluationModel W → Bool
  is_legacy target =
      str_eq target.status "active"
      && str_eq target.contract.version ""
      && str_eq target.engine w.spec.forecast.model_engine

  -- The report that an evaluation starts with: nothing is done.
  unfoldable pub opening_report : Lineage W → EvaluationModel W → EvaluationReport W
  opening_report l target = record {
    version = evaluation_version;
    at = now;
    action = "withheld";
    reason = "";
    detail =
        if is_legacy target
        then "legacy active artifact requires fresh serving-contract certification; original training metadata is unchanged"
        else "";
    expected_active_id = id_of l.active;
    previous_model_id = "";
    contract = contract_for w s.seasonal_period;
    policy = s.policy;
    evidence = record {
      start = pos 0;
      end = pos 0;
      fingerprint = "";
      eligible_windows = pos 0;
      metrics = λ _. none;
    };
    decision = refuse "" "";
  }

  -- The candidate and, where it can serve as the reference, the champion.
  unfoldable pub prepare : Lineage W → Option (EvaluationModel W) → EvaluationModel W → Prepared W
  unfolding add_champion opening_report
  prepare l candidate target =
      let start : Prepared W = record {
        models = ("candidate", target) ∷ [];
        after = target.trained_until;
        detail = (opening_report l target).detail;
      } in
      if is_some candidate
      then add_champion world (contract_for w s.seasonal_period) target l.active start
      else start

  -- `72 * time.Hour`, or the window and the duration of the policy where that is longer.
  abbrev pub expiry : Duration
  expiry = max_dur (pos 259200000000000) (add_dur s.policy.window s.policy.min_duration)

  -- From the target to the boundary: contract, training boundary, expiry and artifacts.
  unfoldable pub examine : Lineage W → Option (EvaluationModel W) → EvaluationModel W → Verdict W
  unfolding consider_rollback opening_report prepare loads
  examine l candidate target =
      let contract = contract_for w s.seasonal_period in
      let report = opening_report l target in
      let prepared = prepare l candidate target in
      let checked = record report { detail = prepared.detail } in
      if not (same_contract target.contract contract) && not (is_legacy target)
      then finish target report "incompatible_contract"
      else if is_zero_time target.trained_until || ltb_ℤ now target.trained_until
      then finish target report "invalid_training_boundary"
      else if is_some candidate && ltb_ℤ expiry (sub_time now target.created_at)
      then finish target report "candidate_expired"
      else if not (loads world contract target)
      then finish target report "invalid_artifact"
      else consider_rollback l candidate target checked prepared
          (rollback_target candidate l.active l.previous contract s.policy)

  unfoldable pub judge : List (EvaluationModel W) → Verdict W
  unfolding read_versions due_candidate examine
  judge versions =
      let l : Lineage W =
        read_versions (record { active = none; candidate = none; previous = none }) versions in
      let candidate = due_candidate l.active l.candidate in
      elim (or_else candidate l.active) [ none ↦ idle | some target ↦ examine l candidate target ]

  abbrev outcome_of : Verdict W → Outcome W
  outcome_of idle = record { error = none; stored = none; notified = none; released = true }
  outcome_of (fails e) = record { error = some e; stored = none; notified = none; released = true }
  outcome_of (finishes target report) =
      if world.complete target report
      then record {
        error = none;
        stored = some (target, report);
        notified = if s.notifies then some report else none;
        released = true;
      }
      else record { error = some store_error; stored = none; notified = none; released = true }

  abbrev without_lock : Option EvaluationError → Outcome W
  without_lock e = record { error = e; stored = none; notified = none; released = false }

  unfoldable pub evaluate : Outcome W
  unfolding judge
  evaluate =
      if not (valid_policy s.policy)
      then without_lock (some invalid_policy)
      else if not s.configured || leb_ℤ s.seasonal_period (pos 0)
      then without_lock (some not_configured)
      else (elim world.lock [
        | lock_failed ↦ without_lock (some lock_error)
        | held_elsewhere ↦ without_lock none
        | acquired ↦ (elim world.models [
          | none ↦ record {
            error = some models_error;
            stored = none;
            notified = none;
            released = true;
          }
          | some versions ↦ outcome_of (judge versions)
        ])
      ])
