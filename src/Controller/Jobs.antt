-- ===== src/Controller/Jobs.antt =====
-- internal/controller/trainer_job_cleanup.go: deletes the trainer Jobs that have a completion time, in the order of the
-- listing, and stops at the first delete that fails.
use keda_replica_sense.Prelude.{
  ℕ, ◌+◌, String, ◌≡◌, refl, Bool, true, false, not, ◌||◌, if◌then◌else◌, Option, none, some, List,
  [], ◌∷◌, ◌++◌, arith, length, Time, str_eq, Option-cases, Bool-cases, inl, inr, ◌∙◌, append_assoc,
  length-append,
}

pub record Job : Type 0 where
  pub name : String
  pub completion_time : Option Time

pub record TrainerJobCleaner : Type 0 where
  pub has_reader : Bool
  pub has_writer : Bool
  pub namespace : String

pub data CleanError : Type 0 where
  incomplete list_failed : CleanError
  delete_failed : String → CleanError

-- The count of deletions, the error if any, and the Jobs that are gone.
pub record Cleaned : Type 0 where
  pub deleted : ℕ
  pub error : Option CleanError
  pub gone : List Job

-- `delete` is the API server's answer; false is an error.
unfoldable pub clean_from : (Job → Bool) → ℕ → List Job → List Job → Cleaned
clean_from delete deleted gone [] = record { deleted = deleted; error = none; gone = gone }
clean_from delete deleted gone (job ∷ jobs) =
    let skipped = clean_from delete deleted gone jobs in
    let removed = clean_from delete (deleted + 1) (gone ++ job ∷ []) jobs in
    elim job.completion_time [
      | none ↦ skipped
      | some _ ↦
          if delete job
          then removed
          else record { deleted = deleted; error = some (delete_failed job.name); gone = gone }
    ]

-- `listed` is the answer to the list call for the trainer label; `none` is an error.
unfoldable pub cleanup : TrainerJobCleaner → Option (List Job) → (Job → Bool) → Cleaned
cleanup c listed delete =
    if not c.has_reader || not c.has_writer || str_eq c.namespace ""
    then record { deleted = 0; error = some incomplete; gone = [] }
    else (elim listed [
      | none ↦ record { deleted = 0; error = some list_failed; gone = [] }
      | some jobs ↦ clean_from delete 0 [] jobs
    ])

abbrev is_completed : Job → Bool
is_completed job = elim job.completion_time [ none ↦ false | some _ ↦ true ]

-- The Jobs of a listing that have a completion time, in its order. Kubernetes sets it on success only.
abbrev pub completed : List Job → List Job
completed [] = []
completed (job ∷ jobs) = if is_completed job then job ∷ completed jobs else completed jobs

-- What a run of the loop from `n` deletions has done to a listing.
abbrev pub Clears : ℕ → List Job → List Job → Cleaned → Type 0
Clears n gone jobs c =
    (rest : List Job) × (c.gone ++ rest ≡ gone ++ completed jobs)
    × (c.deleted + length gone ≡ n + length c.gone)
    × (c.error ≡ none → rest ≡ [])

module _ (delete : Job → Bool) (n : ℕ) (gone jobs : List Job) (job : Job) where
  skipped_job :
      job.completion_time ≡ none
      → (clean_from delete n gone (job ∷ jobs) ≡ clean_from delete n gone jobs)
        × (completed (job ∷ jobs) ≡ completed jobs)
  unfolding clean_from
  skipped_job e = ground arith

  removed_job :
      (t : Time)
      → job.completion_time ≡ some t
      → delete job ≡ true
      → (clean_from delete n gone (job ∷ jobs) ≡ clean_from delete (n + 1) (gone ++ job ∷ []) jobs)
        × (completed (job ∷ jobs) ≡ job ∷ completed jobs)
  unfolding clean_from
  removed_job t e d = ground arith

  refused_job :
      delete job ≡ false
      → (t : Time) → job.completion_time ≡ some t
      → clean_from delete n gone (job ∷ jobs)
        ≡ record { deleted = n; error = some (delete_failed job.name); gone = gone }
  unfolding clean_from
  refused_job d t e = ground arith

clean_from-Clears :
    (delete : Job → Bool) (n : ℕ) (gone jobs : List Job)
    → Clears n gone jobs (clean_from delete n gone jobs)
clean_from-Clears delete n gone [] = unfold clean_from in ([], refl, omega arith, λ e. refl)
clean_from-Clears delete n gone (job ∷ jobs) = elim (Option-cases job.completion_time) [
  | inl e ↦
      let (same, kept) = skipped_job delete n gone jobs job e in
      rw (same, kept) (clean_from-Clears delete n gone jobs)
  | inr (t, e) ↦ elim (Bool-cases (delete job)) [
    | inl d ↦
        let (same, kept) = removed_job delete n gone jobs job t e d in
        let (rest, order, count, all) = clean_from-Clears delete (n + 1) (gone ++ job ∷ []) jobs in
        rw (same, kept)
          (
            rest,
            order ∙ append_assoc gone (job ∷ []) (completed jobs),
            omega (arith, count, length-append gone (job ∷ [])),
            all,
          )
    | inr d ↦
        rw (refused_job delete n gone jobs job d t e)
          (completed (job ∷ jobs), refl, omega arith, λ h. absurd (cc h))
  ]
]

-- With a configured cleaner and a listing, only Jobs with a completion time are deleted, in the order
-- of the listing, and the count is right: what is gone is a prefix of those Jobs, and all of them when
-- no error is reported. A Job without a completion time, such as a failed one, is never deleted.
pub cleanup-Clears :
    (c : TrainerJobCleaner) (jobs : List Job) (delete : Job → Bool)
    → c.has_reader ≡ true
    → c.has_writer ≡ true
    → str_eq c.namespace "" ≡ false
    → Clears 0 [] jobs (cleanup c (some jobs) delete)
unfolding cleanup
cleanup-Clears c jobs delete h k e = rw (h, k, e) (clean_from-Clears delete 0 [] jobs)
