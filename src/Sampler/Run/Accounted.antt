-- ===== src/Sampler/Run/Accounted.antt =====
-- What a pass of the sampler stores and reports.
use mathlib.Core.List.{Perm}
use keda_replica_sense.Prelude.{
  ℕ, suc, ◌≤◌, ◌<◌, pos, ◌<ℤ◌, Duration, Time, List, [], ◌∷◌, ◌++◌, Bool, true, false, Option, none,
  some, ◌≡◌, ◌⊎◌,
}
use keda_replica_sense.Domain.{SamplingWorkload}
use keda_replica_sense.Dataset.{Sample}
use keda_replica_sense.Sampler.Run.{
  Service, World, Failure, not_configured, not_listed, cancelled, not_stored, not_bootstrapped,
  not_sampled, not_recovered, Round, attempts_of, retry_backoff, sample_of, due_now, interrupted,
}

module _ {W : Type 0} where
  -- The value is the answer of the first attempt that has one, among those from `low` up to `high`.
  abbrev pub IsFirstAnswer : (ℕ → Option W) → ℕ → ℕ → W → Type 0
  IsFirstAnswer answer low high value =
      (k : ℕ) × (low ≤ k)
      × (k < high)
      × (answer k ≡ some value)
      × ((j : ℕ) → low ≤ j → j < k → answer j ≡ none)

  -- No attempt from `low` up to `high` has an answer, or the pause after one of them, which is not the
  -- last and none up to which has an answer, is interrupted.
  abbrev pub IsUnanswered :
      Duration → (ℕ → Option W) → (Duration → Bool) → Failure → ℕ → ℕ → Failure → Type 0
  IsUnanswered initial answer sleeps failure low high e =
      ((e ≡ failure) × ((j : ℕ) → low ≤ j → j < high → answer j ≡ none))
      ⊎ ((e ≡ interrupted)
          × (k : ℕ) × (suc k < high)
          × ((j : ℕ) → low ≤ j → j < suc k → answer j ≡ none)
          × (pos 0 <ℤ retry_backoff initial k)
          × (sleeps (retry_backoff initial k) ≡ false))

  module _ (s : Service) (world : World W) (now : Time) where
    -- What a goroutine comes to: it is not admitted before the end of the context; or its sample is
    -- that of the first answer, and at most the recovery of its history has failed; or no attempt had
    -- an answer before the last or an interrupted pause, and this is its failure.
    abbrev pub IsVisited : SamplingWorkload W → Round W → Type 0
    IsVisited w r =
        ((world.admitted w ≡ false) × (r.samples ≡ []) × (r.failures ≡ cancelled ∷ []))
        ⊎ ((value : W) × IsFirstAnswer (world.answer w) 0 (attempts_of s.max_retries) value
            × (r.samples ≡ sample_of s world now w value ∷ [])
            × ((r.failures ≡ [])
                ⊎ ((r.failures ≡ not_recovered w.id ∷ [])
                    × (s.has_backfiller ≡ true)
                    × (world.recover w ≡ false))))
        ⊎ ((failure : Failure) × IsUnanswered s.initial_backoff (world.answer w) world.sleeps
              (not_sampled w.id) 0 (attempts_of s.max_retries) failure
            × (r.samples ≡ [])
            × (r.failures ≡ failure ∷ []))

    -- The samples and failures are those of the goroutines, in the order in which they end.
    abbrev pub AreVisited : List (SamplingWorkload W) → List (Sample W) → List Failure → Type 0
    AreVisited [] samples failures = (samples ≡ []) × (failures ≡ [])
    AreVisited (w ∷ ws) samples failures =
        (r : Round W) × (more : List (Sample W)) × (others : List Failure) × IsVisited w r
        × (samples ≡ r.samples ++ more)
        × (failures ≡ r.failures ++ others)
        × AreVisited ws more others

    -- In the order of the listing, a workload whose history cannot be fetched gives a failure, and of
    -- the others those that are due are started.
    abbrev pub AreLaunched :
        List (SamplingWorkload W) → List (SamplingWorkload W) → List Failure → Type 0
    AreLaunched [] started failures = (started ≡ []) × (failures ≡ [])
    AreLaunched (w ∷ ws) started failures =
        (more : List (SamplingWorkload W)) × (others : List Failure) × AreLaunched ws more others
        × (((s.has_backfiller ≡ true)
              × (world.ensure_history w ≡ false)
              × (started ≡ more)
              × (failures ≡ not_bootstrapped w.id ∷ others))
            ⊎ ((due_now s world now w ≡ false) × (started ≡ more) × (failures ≡ others))
            ⊎ ((due_now s world now w ≡ true) × (started ≡ w ∷ more) × (failures ≡ others)))

    -- What a pass stores and reports, by what it is configured with and what the store answers.
    abbrev pub IsPass : Round W → Type 0
    IsPass r =
        ((s.configured ≡ false) × (r.samples ≡ []) × (r.failures ≡ not_configured ∷ []))
        ⊎ ((world.listed ≡ none) × (r.samples ≡ []) × (r.failures ≡ not_listed ∷ []))
        ⊎ ((ws started ended : List (SamplingWorkload W)) × (unlocked locked : List Failure)
            × (world.listed ≡ some ws)
            × AreLaunched ws started unlocked
            × Perm started ended
            × AreVisited ended r.samples locked
            × (((world.upsert r.samples ≡ true) × (r.failures ≡ world.merged unlocked locked))
                ⊎ ((world.upsert r.samples ≡ false)
                    × (r.failures ≡ world.merged unlocked locked ++ not_stored ∷ []))))
