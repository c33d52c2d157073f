-- ===== src/Trainer/Closed.antt =====
-- How a run ends: with a stored candidate and a success, or with a failure that is reported last.
use keda_replica_sense.Prelude.{
  ℕ, Time, truncate, neg, add_time, String, str_eq, List, [], ◌∷◌, ◌++◌, true, not, ◌||◌, Option,
  some, ◌⊎◌, ok, err, Float64, ◌≡◌, refl, inl, inr, append_assoc, Every, Every-append, Every-mono,
  if_both, Bool-cases, Option-cases,
}
use keda_replica_sense.Domain.{SamplingWorkload}
use keda_replica_sense.Dataset.{Sample}
use keda_replica_sense.History.Repair.{Report}
use keda_replica_sense.Trainer.{
  Service, Trained, ModelCandidate, World, TrainError, not_configured, not_running, Event, running,
  repaired, fitted, created, succeeded, failed, Logged, and_then, fit_and_publish, publish,
  store_candidate, candidate_of, train, run, close_run, claimed_workload, repair_history, note_fit,
  or_engine, training_points,
}

module _ {W : Type 0} where
  -- The work before anything is published.
  abbrev pub IsWork : Event W → Type 0
  IsWork running = ⊥
  IsWork (repaired start stop) = Unit
  IsWork (fitted engine points) = Unit
  IsWork (created c) = ⊥
  IsWork (succeeded id count) = ⊥
  IsWork (failed e) = ⊥

  -- The work and the publication.
  abbrev pub IsOpen : Event W → Type 0
  IsOpen running = ⊥
  IsOpen (repaired start stop) = Unit
  IsOpen (fitted engine points) = Unit
  IsOpen (created c) = Unit
  IsOpen (succeeded id count) = Unit
  IsOpen (failed e) = ⊥

  IsWork-IsOpen : (e : Event W) → IsWork e → IsOpen e
  IsWork-IsOpen running h = absurd h
  IsWork-IsOpen (repaired start stop) h = tt
  IsWork-IsOpen (fitted engine points) h = tt
  IsWork-IsOpen (created c) h = absurd h
  IsWork-IsOpen (succeeded id count) h = absurd h
  IsWork-IsOpen (failed e) h = absurd h

module _ {W : Type 0} ⦃f : Float64 W⦄ (s : Service) (world : World W) where
  -- The log of a success: work, one stored candidate, and the success with its id and its point count.
  abbrev pub IsPublished : List (Event W) → Type 0
  IsPublished log =
      (work : List (Event W)) × (c : ModelCandidate W) × (model : String) × (log
        ≡ work ++ created c ∷ succeeded model c.validation_metrics.sample_count ∷ [])
      × Every IsWork work
      × (world.create_candidate c ≡ some model)
      × (world.mark_succeeded model c.validation_metrics.sample_count ≡ true)

  abbrev pub IsOutcome : Logged W (Unit {0}) → Type 0
  IsOutcome (log, ok u) = IsPublished log
  IsOutcome (log, err e) = Every IsOpen log

  after_work :
      (work : List (Event W)) (m : Logged W (Unit {0}))
      → Every IsWork work
      → IsOutcome m
      → IsOutcome (work ++ m.0, m.1)
  after_work work (log, ok u) h (rest, c, model, same, all, stored, marked) = (
    work ++ rest,
    c,
    model,
    rw (same, append_assoc work rest _) refl,
    Every-append IsWork work rest h all,
    stored,
    marked,
  )
  after_work work (log, err e) h all =
      Every-append IsOpen work log (Every-mono work IsWork-IsOpen h) all

  and_then-IsOutcome :
      {A : Type 0} (m : Logged W A) (k : A → Logged W (Unit {0}))
      → Every IsWork m.0
      → ((a : A) → IsOutcome (k a))
      → IsOutcome (and_then m k)
  and_then-IsOutcome (log, err e) k h next = Every-mono log IsWork-IsOpen h
  and_then-IsOutcome (log, ok a) k h next = after_work log (k a) h (next a)

  store_candidate-IsOutcome :
      (c : ModelCandidate W)
      → IsOutcome (store_candidate s world c c.validation_metrics.sample_count)
  store_candidate-IsOutcome c = elim (Option-cases (world.create_candidate c)) [
    | inl e ↦ rw e (tt, tt)
    | inr (model, e) ↦
        let count = c.validation_metrics.sample_count in
        elim (Bool-cases (world.mark_succeeded model count)) [
          | inl marked ↦ rw (e, marked) ([], c, model, refl, tt, e, marked)
          | inr marked ↦ rw (e, marked) (tt, (tt, tt))
        ]
  ]

  publish-IsOutcome :
      (cluster : String) (w : SamplingWorkload W) (points : List (Sample W)) (reserved : ℕ)
      (report : Option Report) (trained : Trained)
      → IsOutcome (publish s world cluster w points reserved report trained)
  unfolding candidate_of
  publish-IsOutcome cluster w [] reserved report trained = tt
  publish-IsOutcome cluster w (p ∷ ps) reserved report trained =
      store_candidate-IsOutcome (candidate_of s world cluster w p ps reserved report trained)

  note_fit-IsWork :
      (engine : String) (points : List (Sample W)) → Every IsWork (note_fit engine points)
  note_fit-IsWork engine points =
      if_both (Every IsWork) (str_eq engine "xgboost" || str_eq engine "gru") (λ _. (tt, tt))
        (λ _. tt)

  repair_history-IsWork :
      (w : SamplingWorkload W) (start stop : Time)
      → Every IsWork (repair_history s world w start stop).0
  repair_history-IsWork w start stop =
      if_both (λ (m : Logged W (Option Report)). Every IsWork m.0) s.has_history (λ _. (tt, tt))
        (λ _. tt)

  train-IsOutcome :
      (cluster id engine : String) (now : Time) → IsOutcome (train s world cluster id engine now)
  unfolding train fit_and_publish
  train-IsOutcome cluster id engine now =
      and_then-IsOutcome ([], claimed_workload s world id) _ tt
        (λ w.
          let stop = truncate now w.spec.forecast.sampling_interval in
          let start = add_time stop (neg w.spec.forecast.training_window) in
          and_then-IsOutcome (repair_history s world w start stop) _
            (repair_history-IsWork w start stop)
            (λ report.
              and_then-IsOutcome ([], training_points s world w start stop)
                (fit_and_publish s world cluster engine w report) tt
                (λ (points, reserved).
                  and_then-IsOutcome (note_fit (or_engine s world engine w) points, _)
                    (publish s world cluster w points reserved report)
                    (note_fit-IsWork (or_engine s world engine w) points)
                    (λ trained. publish-IsOutcome cluster w points reserved report trained))))

  -- A failed run: nothing done, only the mark refused, or the failure reported once and last.
  abbrev pub IsReported : TrainError → List (Event W) → Type 0
  IsReported e log =
      ((log ≡ []) × (e ≡ not_configured))
      ⊎ ((log ≡ running ∷ []) × (e ≡ not_running))
      ⊎ ((work : List (Event W)) × (log ≡ running ∷ work ++ failed e ∷ []) × Every IsOpen work)

  abbrev pub IsClosed : Logged W (Unit {0}) → Type 0
  IsClosed (log, ok u) = (rest : List (Event W)) × (log ≡ running ∷ rest) × IsPublished rest
  IsClosed (log, err e) = IsReported e log

  close_run-IsClosed : (m : Logged W (Unit {0})) → IsOutcome m → IsClosed (close_run s world m)
  close_run-IsClosed (log, ok u) h = (log, refl, h)
  close_run-IsClosed (log, err e) h = inr (inr (log, refl, h))

  -- Every run ends closed: a success marked the run as running, stored exactly one candidate and then
  -- marked the success with the id of that candidate and its point count; a failure did nothing for a
  -- service that is not configured, stopped at the refused mark, or reported its error once, last.
  pub run-IsClosed :
      (cluster id engine : String) (now : Time) → IsClosed (run s world cluster id engine now)
  unfolding run
  run-IsClosed cluster id engine now =
      if_both IsClosed (not s.configured) (λ _. inl (refl, refl))
        (λ _.
          if_both IsClosed (not world.mark_running) (λ _. inr (inl (refl, refl)))
            (λ _.
              close_run-IsClosed (train s world cluster id engine now)
                (train-IsOutcome cluster id engine now)))
