-- ===== src/Training/Scheduler.antt =====
-- internal/training/scheduler.go: one pass of the scheduler over the active workloads. The claims,
-- the jobs and their outcomes are logged in order, and a pass ends at its first error. What the claim
-- store and the job creator answer is an argument, as are the two hashes.
pub mod Claimed
pub mod Slots
use keda_replica_sense.Prelude.{
  ℕ, ◌%◌, ℤ, pos, pos_part, ltb_ℤ, leb_ℤ, quot, wrap64, neg, String, str_eq, Time, Duration,
  mul_dur, add_time, truncate, List, [], ◌∷◌, ◌++◌, Bool, true, false, ◌||◌, not, if◌then◌else◌,
  Option, none, some,
}
use keda_replica_sense.Domain.{SamplingWorkload}

pub record Claim : Type 0 where
  pub cluster_id : String
  pub workload_id : String
  pub slot : Time
  pub engine : String
  pub training_window_from : Time
  pub training_window_to : Time
  pub exclusive_since : Time

pub record TrainingJob : Type 0 where
  pub run_id : String
  pub cluster_id : String
  pub workload_id : String
  pub engine : String
  pub policy_revision : String

-- An error, no claim, or the claim under the id of its run.
pub data ClaimAnswer : Type 0 where
  claim_failed declined : ClaimAnswer
  granted : String → ClaimAnswer

pub data Kind : Type 0 where
  immediate scheduled : Kind

pub data SchedulerError : Type 0 where
  not_configured list_failed claim_error create_error mark_error : SchedulerError

pub data Event : Type 0 where
  claimed : Kind → Claim → Event
  created refused : TrainingJob → Event
  marked : String → Event

pub record ClaimWorld (W : Type 0) : Type 0 where
  pub workloads : Option (List (SamplingWorkload W))
  pub claim : Kind → Claim → ClaimAnswer
  pub create : TrainingJob → Bool
  pub mark_failed : String → Bool
  -- `fnv.New64a` of the workload's id, and the first eight bytes of the policy's SHA-256.
  pub fnv : String → ℕ
  pub sha : String → ℕ

pub record Scheduler : Type 0 where
  pub configured : Bool
  pub cluster_id : String
  pub training_interval : Duration

-- The log of a part of the pass, and the error that ends it.
abbrev pub Pass : Type 0
Pass = List Event × Option SchedulerError

abbrev pub and_then : Pass → Pass → Pass
and_then (es, some e) next = (es, some e)
and_then (es, none) next = (es ++ next.0, next.1)

-- 1 January 2500 in UTC.
abbrev pub year_2500 : Time
year_2500 = pos 78860822400000000000

-- `immediateSlot`, from the hash of the policy revision.
unfoldable pub immediate_slot : ℕ → Time
immediate_slot hash = add_time year_2500 (mul_dur (pos (hash % 3153600000)) (pos 1000000000))

-- `offset`, from the hash of the workload's id.
unfoldable pub offset : ℕ → Duration → Duration
offset hash interval =
    let seconds = quot interval 1000000000 in
    if leb_ℤ seconds (pos 1)
    then pos 0
    else mul_dur (pos (hash % pos_part seconds)) (pos 1000000000)

unfoldable pub interval_of : Scheduler → Duration
interval_of s =
    if leb_ℤ s.training_interval (pos 0) then pos 86400000000000 else s.training_interval

module _ {W : Type 0} (s : Scheduler) (world : ClaimWorld W) (now : Time) where
  unfoldable pub immediate_claim : SamplingWorkload W → Claim
  immediate_claim w =
      let end = truncate now w.spec.forecast.sampling_interval in
      record {
        cluster_id = s.cluster_id;
        workload_id = w.id;
        slot = immediate_slot (world.sha w.spec.policy_revision);
        engine = w.spec.forecast.model_engine;
        training_window_from = add_time end (wrap64 (neg w.spec.forecast.training_window));
        training_window_to = end;
        exclusive_since = pos 0;
      }

  abbrev pub slot_of : Time
  slot_of = truncate now (interval_of s)

  unfoldable pub scheduled_claim : SamplingWorkload W → Claim
  scheduled_claim w = record {
    cluster_id = s.cluster_id;
    workload_id = w.id;
    slot = slot_of;
    engine = w.spec.forecast.model_engine;
    training_window_from = add_time now (wrap64 (neg w.spec.forecast.training_window));
    training_window_to = now;
    exclusive_since = slot_of;
  }

  abbrev pub job_of : SamplingWorkload W → String → TrainingJob
  job_of w run = record {
    run_id = run;
    cluster_id = s.cluster_id;
    workload_id = w.id;
    engine = w.spec.forecast.model_engine;
    policy_revision = w.spec.policy_revision;
  }

  -- The job of a granted claim; a run whose job is refused is marked as failed.
  unfoldable pub after_claim : SamplingWorkload W → ClaimAnswer → Pass
  after_claim w claim_failed = ([], some claim_error)
  after_claim w declined = ([], none)
  after_claim w (granted run) =
      let job = job_of w run in
      if world.create job
      then (created job ∷ [], none)
      else if world.mark_failed run
      then (refused job ∷ marked run ∷ [], some create_error)
      else (refused job ∷ marked run ∷ [], some mark_error)

  abbrev pub claim_and_create : Kind → Claim → SamplingWorkload W → Pass
  claim_and_create kind claim w =
      and_then (claimed kind claim ∷ [], none) (after_claim w (world.claim kind claim))

  abbrev pub is_early : SamplingWorkload W → Bool
  is_early w = ltb_ℤ now (add_time slot_of (offset (world.fnv w.id) (interval_of s)))

  unfoldable pub schedule : SamplingWorkload W → Pass
  unfolding after_claim immediate_claim scheduled_claim
  schedule w =
      and_then
        (if w.spec.forecast.immediate_training
          then claim_and_create immediate (immediate_claim w) w
          else ([], none))
        (if is_early w then ([], none) else claim_and_create scheduled (scheduled_claim w) w)

  unfoldable pub schedule_all : List (SamplingWorkload W) → Pass
  unfolding schedule
  schedule_all [] = ([], none)
  schedule_all (w ∷ ws) = and_then (schedule w) (schedule_all ws)

  unfoldable pub run_once : Pass
  unfolding schedule_all
  run_once =
      if not s.configured || str_eq s.cluster_id ""
      then ([], some not_configured)
      else (elim world.workloads [ none ↦ ([], some list_failed) | some ws ↦ schedule_all ws ])
