-- ===== src/Controller/Tests.antt =====
-- An instance of the clean-up of trainer Jobs.
use keda_replica_sense.Prelude.{◌≡◌, refl, pos, none, some, List, [], ◌∷◌, true, not, str_eq}
use keda_replica_sense.Controller.Jobs.{
  Job, TrainerJobCleaner, cleanup, clean_from, Clears, cleanup-Clears,
}

abbrev cleaner : TrainerJobCleaner
cleaner = record { has_reader = true; has_writer = true; namespace = "replicasense" }

-- One Job is done, one runs, and the last one cannot be deleted.
abbrev jobs : List Job
jobs =
    record { name = "train-a"; completion_time = some (pos 10) }
    ∷ record { name = "train-b"; completion_time = none }
    ∷ record { name = "train-c"; completion_time = some (pos 20) }
    ∷ []

one_deleted : (cleanup cleaner (some jobs) (λ job. not (str_eq job.name "train-c"))).deleted ≡ 1
unfolding cleanup clean_from
one_deleted = refl

cleanup-Clears_example :
    Clears 0 [] jobs (cleanup cleaner (some jobs) (λ job. not (str_eq job.name "train-c")))
cleanup-Clears_example =
    cleanup-Clears cleaner jobs (λ job. not (str_eq job.name "train-c")) refl refl refl
