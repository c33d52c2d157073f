-- ===== src/Training/Scheduler/Claimed.antt =====
-- What the scheduler's log holds: every job rests on a claim of its own.
use keda_replica_sense.Prelude.{
  ◌≤ℤ◌, String, str_eq, Time, add_time, List, [], ◌∷◌, ◌++◌, not, ◌||◌, Option, none, some,
  Option-cases, ◌≡◌, refl, inl, inr, arith, append_assoc, if_both, sym,
}
use keda_replica_sense.Domain.{SamplingWorkload}
use keda_replica_sense.Training.Scheduler.{
  Claim, TrainingJob, ClaimAnswer, claim_failed, declined, granted, Kind, immediate, scheduled,
  SchedulerError, Event, claimed, created, refused, marked, ClaimWorld, Scheduler, Pass, and_then,
  offset, immediate_claim, slot_of, scheduled_claim, after_claim, claim_and_create, is_early,
  job_of, create_error, mark_error, schedule, interval_of, schedule_all, run_once,
}

module _ {W : Type 0} (s : Scheduler) (world : ClaimWorld W) (now : Time) where
  -- The claim that an answer grants, with the id of its run.
  abbrev pub grant : Claim → ClaimAnswer → Option (Claim × String)
  grant c (granted run) = some (c, run)
  grant c claim_failed = none
  grant c declined = none

  -- A job is for the run and the workload of the claim that precedes it.
  abbrev pub Answers : Claim × String → TrainingJob → Type 0
  Answers (c, run) job =
      (job.run_id ≡ run)
      × (job.workload_id ≡ c.workload_id)
      × (job.cluster_id ≡ c.cluster_id)
      × (job.engine ≡ c.engine)

  -- A claim of the schedule is for the current slot, and is made once the workload's offset has
  -- passed.
  abbrev pub IsDue : Kind → Claim → Type 0
  IsDue immediate c = Unit
  IsDue scheduled c =
      (c.slot ≡ slot_of s world now)
      × (c.exclusive_since ≡ slot_of s world now)
      × (add_time (slot_of s world now) (offset (world.fnv c.workload_id) (interval_of s)) ≤ℤ now)

  -- A log after a grant that no job has used yet, if there is one.
  abbrev pub Follows : Option (Claim × String) → List Event → Type 0
  Follows open_grant [] = Unit
  Follows open_grant (claimed kind c ∷ es) =
      IsDue kind c × Follows (grant c (world.claim kind c)) es
  Follows none (created job ∷ es) = ⊥
  Follows (some g) (created job ∷ es) = Answers g job × Follows none es
  Follows none (refused job ∷ es) = ⊥
  Follows (some g) (refused job ∷ []) = ⊥
  Follows (some g) (refused job ∷ marked run ∷ es) =
      Answers g job × (run ≡ job.run_id) × Follows none es
  Follows (some g) (refused job ∷ claimed kind c ∷ es) = ⊥
  Follows (some g) (refused job ∷ created j ∷ es) = ⊥
  Follows (some g) (refused job ∷ refused j ∷ es) = ⊥
  Follows open_grant (marked run ∷ es) = ⊥

  -- A part of the log that opens with no grant and leaves none open may be continued.
  record IsClosed (p : Pass) : Type 0 where
    alone : Follows none p.0
    continued : (es : List Event) → Follows none es → Follows none (p.0 ++ es)

  and_then-IsClosed : (p q : Pass) → IsClosed p → IsClosed q → IsClosed (and_then p q)
  and_then-IsClosed (es, some e) q c d = c
  and_then-IsClosed (es, none) q c d = record {
    alone = c.continued q.0 d.alone;
    continued =
        λ rest k. rw (append_assoc es q.0 rest) (c.continued (q.0 ++ rest) (d.continued rest k));
  }

  answered :
      (kind : Kind) (c : Claim) (w : SamplingWorkload W)
      → IsDue kind c
      → c.workload_id ≡ w.id
      → c.cluster_id ≡ s.cluster_id
      → c.engine ≡ w.spec.forecast.model_engine
      → (answer : ClaimAnswer) → world.claim kind c ≡ answer
      → IsClosed (and_then (claimed kind c ∷ [], none) (after_claim s world now w answer))
  unfolding after_claim
  answered kind c w due a b e claim_failed q = record {
    alone = (due, tt);
    continued = λ es k. (due, rw q k);
  }
  answered kind c w due a b e declined q = record {
    alone = (due, tt);
    continued = λ es k. (due, rw q k);
  }
  answered kind c w due a b e (granted run) q =
      let job = job_of s world now w run in
      let told : Answers (c, run) job = (refl, sym a, sym b, sym e) in
      let opened : Pass → Pass = λ p. and_then (claimed kind c ∷ [], none) p in
      let unfolded : (error : Option SchedulerError)
          → IsClosed (opened (refused job ∷ marked run ∷ [], error)) =
        λ error. record {
          alone = (due, rw q (told, refl, tt));
          continued = λ es k. (due, rw q (told, refl, k));
        } in
      if_both {A = Pass} (λ p. IsClosed (opened p)) (world.create job)
        (λ yes. record {
          alone = (due, rw q (told, tt));
          continued = λ es k. (due, rw q (told, k));
        })
        (λ no.
          if_both {A = Pass} (λ p. IsClosed (opened p)) (world.mark_failed run)
            (λ yes. unfolded (some create_error)) (λ no. unfolded (some mark_error)))

  claim_and_create-IsClosed :
      (kind : Kind) (c : Claim) (w : SamplingWorkload W)
      → IsDue kind c
      → c.workload_id ≡ w.id
      → c.cluster_id ≡ s.cluster_id
      → c.engine ≡ w.spec.forecast.model_engine
      → IsClosed (claim_and_create s world now kind c w)
  claim_and_create-IsClosed kind c w due a b e =
      answered kind c w due a b e (world.claim kind c) refl

  schedule-IsClosed : (w : SamplingWorkload W) → IsClosed (schedule s world now w)
  unfolding schedule immediate_claim scheduled_claim
  schedule-IsClosed w =
      let empty : IsClosed ([], none) = record { alone = tt; continued = λ es k. k } in
      and_then-IsClosed _ _
        (if_both {A = Pass} IsClosed w.spec.forecast.immediate_training
          (λ yes.
            claim_and_create-IsClosed immediate (immediate_claim s world now w) w tt refl refl refl)
          (λ no. empty))
        (if_both {A = Pass} IsClosed (is_early s world now w) (λ early. empty)
          (λ due.
            claim_and_create-IsClosed scheduled (scheduled_claim s world now w) w
              (refl, refl, ground arith) refl refl refl))

  schedule_all-IsClosed : (ws : List (SamplingWorkload W)) → IsClosed (schedule_all s world now ws)
  unfolding schedule_all
  schedule_all-IsClosed [] = record { alone = tt; continued = λ es k. k }
  schedule_all-IsClosed (w ∷ ws) =
      and_then-IsClosed _ _ (schedule-IsClosed w) (schedule_all-IsClosed ws)

  -- In the log of a pass every job, created or refused, comes right after a claim that was granted,
  -- and is for the run, the workload and the engine of that claim, so that no claim gives two jobs;
  -- the run of a refused job is marked as failed at once; and a claim of the schedule is for the
  -- current slot and made no earlier than the workload's offset into it.
  pub run_once-Follows : Follows none (run_once s world now).0
  unfolding run_once
  run_once-Follows =
      if_both {A = Pass} (λ p. Follows none p.0) (not s.configured || str_eq s.cluster_id "")
        (λ missing. tt)
        (λ there. elim (Option-cases world.workloads) [
          | inl e ↦ rw (e, run_once) tt
          | inr (ws, e) ↦ rw (e, run_once) (schedule_all-IsClosed ws).alone
        ])
