-- ===== src/Sampler/Run.antt =====
-- internal/sampler/service.go: a pass over the active workloads, with the retries of a query. The loop
-- starts a goroutine for each workload that is due; they end in the order `completion`, in which their
-- samples and errors are appended under the lock. The loop appends its own errors to the same slice
-- without the lock, so that what the slice holds where both do is `merged`, an argument. What the
-- store, the source and the backfill answer is an argument.
pub mod Accounted
use Prim.Native.String.{◌++◌ as ◌+ₛ◌}
use keda_replica_sense.Prelude.{
  ℕ, zero, suc, ◌+◌, ◌^◌, ℤ, pos, pos_part, ltb_ℤ, leb_ℤ, ◌+ℤ◌, ◌-ℤ◌, quot, wrap64, mul_dur, second,
  Time, Duration, truncate, String, str_eq, List, [], ◌∷◌, ◌++◌, Bool, true, false, ◌&&◌, ◌||◌, not,
  if◌then◌else◌, Option, none, some, Result, ok, err, ltb,
}
use keda_replica_sense.Domain.{SamplingWorkload}
use keda_replica_sense.Dataset.{Sample}
use keda_replica_sense.Sampler.Backfill.{TimedValue, build_sample}
use keda_replica_sense.Sampler.Due.{is_due}

pub record Service : Type 0 where
  pub configured : Bool
  pub max_retries : ℤ
  pub initial_backoff : Duration
  pub jitter_window : Duration
  pub has_backfiller : Bool

-- The keys that `bootstrapped` and `failed` hold.
pub record Marks : Type 0 where
  pub bootstrapped : List String
  pub failed : List String

pub data Failure : Type 0 where
  not_configured not_listed cancelled interrupted not_stored : Failure
  not_bootstrapped not_sampled not_recovered : String → Failure

-- The answers from outside; `none` and `false` are errors. A query is answered by its attempt.
pub record World (W : Type 0) : Type 0 where
  pub listed : Option (List (SamplingWorkload W))
  pub ensure_history : SamplingWorkload W → Bool
  pub hash : String → ℕ
  pub admitted : SamplingWorkload W → Bool
  pub answer : SamplingWorkload W → ℕ → Option W
  pub sleeps : Duration → Bool
  pub recover : SamplingWorkload W → Bool
  pub upsert : List (Sample W) → Bool
  pub completion : List (SamplingWorkload W) → List (SamplingWorkload W)
  pub merged : List Failure → List Failure → List Failure

-- What the loop over the listing comes to: the goroutines started, and the errors without the lock.
pub record Launch (W : Type 0) : Type 0 where
  pub marks : Marks
  pub started : List (SamplingWorkload W)
  pub unlocked : List Failure

-- What a goroutine, all of them, or a pass comes to.
pub record Round (W : Type 0) : Type 0 where
  pub marks : Marks
  pub samples : List (Sample W)
  pub failures : List Failure

abbrev pub contains : List String → String → Bool
contains [] key = false
contains (k ∷ ks) key = str_eq k key || contains ks key

abbrev pub without : List String → String → List String
without [] key = []
without (k ∷ ks) key = if str_eq k key then without ks key else k ∷ without ks key

-- `observedAt.UTC().Unix()`.
unfoldable pub unix_second : Time → ℤ
unix_second t = quot (truncate t second -ℤ pos 62135596800000000000) 1000000000

-- `s.InitialBackoff * time.Duration(1<<attempt)`.
unfoldable pub retry_backoff : Duration → ℕ → Duration
retry_backoff initial attempt = mul_dur initial (wrap64 (pos (2 ^ attempt)))

-- `attempts`.
unfoldable pub attempts_of : ℤ → ℕ
attempts_of max_retries =
    let attempts = wrap64 (max_retries +ℤ pos 1) in
    if ltb_ℤ attempts (pos 1) then 1 else pos_part attempts

module _ {W : Type 0} where
  abbrev pub source_key : SamplingWorkload W → String
  source_key w = w.id +ₛ (":" +ₛ w.spec.source_fingerprint)

  -- The loop from `attempt` on, with `left` attempts behind it.
  unfoldable pub retry_from :
      Duration → (ℕ → Option W) → (Duration → Bool) → Failure → ℕ → ℕ → Result Failure W
  unfolding retry_backoff
  retry_from initial answer sleeps failure zero attempt = elim (answer attempt) [
    | some value ↦ ok value
    | none ↦ err failure
  ]
  retry_from initial answer sleeps failure (suc left) attempt =
      let rest = retry_from initial answer sleeps failure left (suc attempt) in
      elim (answer attempt) [
        | some value ↦ ok value
        | none ↦
            if ltb_ℤ (pos 0) (retry_backoff initial attempt)
              && not (sleeps (retry_backoff initial attempt))
            then err interrupted
            else rest
      ]

  module _ (s : Service) (world : World W) (now : Time) where
    unfoldable pub query_with_retry : SamplingWorkload W → Result Failure W
    unfolding retry_from attempts_of
    query_with_retry w =
        retry_from s.initial_backoff (world.answer w) world.sleeps (not_sampled w.id)
          (pos_part (pos (attempts_of s.max_retries) -ℤ pos 1)) 0

    unfoldable pub ensure_bootstrap : Marks → SamplingWorkload W → Marks × Bool
    ensure_bootstrap marks w =
        if not s.has_backfiller || contains marks.bootstrapped (source_key w)
        then (marks, true)
        else if world.ensure_history w
        then (record marks { bootstrapped = source_key w ∷ marks.bootstrapped }, true)
        else (marks, false)

    abbrev pub sample_of : SamplingWorkload W → W → Sample W
    sample_of w value = build_sample w (record { observed_at = now; value = value })

    abbrev pub recovery_failure : Marks → SamplingWorkload W → List Failure
    recovery_failure marks w =
        if contains marks.failed (source_key w) && s.has_backfiller && not (world.recover w)
        then not_recovered w.id ∷ []
        else []

    -- The end of a goroutine.
    unfoldable pub close_visit : Marks → SamplingWorkload W → Result Failure W → Round W
    close_visit marks w (err failure) = record {
      marks = record marks { failed = source_key w ∷ marks.failed };
      samples = [];
      failures = failure ∷ [];
    }
    close_visit marks w (ok value) = record {
      marks = record marks { failed = without marks.failed (source_key w) };
      samples = sample_of w value ∷ [];
      failures = recovery_failure marks w;
    }

    abbrev pub due_now : SamplingWorkload W → Bool
    due_now w =
        is_due s.jitter_window w.spec.forecast.sampling_interval (world.hash w.id) (unix_second now)

    -- One round of the loop before the rest of it.
    abbrev pub launch_booted : SamplingWorkload W → Bool → Launch W → Launch W
    launch_booted w false rest = record rest { unlocked = not_bootstrapped w.id ∷ rest.unlocked }
    launch_booted w true rest =
        if not (due_now w) then rest else record rest { started = w ∷ rest.started }

    -- The loop.
    unfoldable pub launch_all : Marks → List (SamplingWorkload W) → Launch W
    unfolding ensure_bootstrap
    launch_all marks [] = record { marks = marks; started = []; unlocked = [] }
    launch_all marks (w ∷ ws) =
        launch_booted w (ensure_bootstrap marks w).1 (launch_all (ensure_bootstrap marks w).0 ws)

    -- A goroutine.
    unfoldable pub visit : Marks → SamplingWorkload W → Round W
    unfolding close_visit query_with_retry
    visit marks w =
        if not (world.admitted w)
        then record { marks = marks; samples = []; failures = cancelled ∷ [] }
        else close_visit marks w (query_with_retry w)

    -- The goroutines, in the order in which they end.
    unfoldable pub visit_all : Marks → List (SamplingWorkload W) → Round W
    unfolding visit
    visit_all marks [] = record { marks = marks; samples = []; failures = [] }
    visit_all marks (w ∷ ws) =
        let first = visit marks w in
        let rest = visit_all first.marks ws in
        record {
          marks = rest.marks;
          samples = first.samples ++ rest.samples;
          failures = first.failures ++ rest.failures;
        }

    -- The pass up to the store.
    unfoldable pub sample_all : Marks → List (SamplingWorkload W) → Round W
    unfolding launch_all visit_all
    sample_all marks ws =
        let launch = launch_all marks ws in
        let round = visit_all launch.marks (world.completion launch.started) in
        record round { failures = world.merged launch.unlocked round.failures }

    abbrev pub store_round : Round W → Round W
    store_round r =
        if world.upsert r.samples then r else record r { failures = r.failures ++ not_stored ∷ [] }

    abbrev pub fail_pass : Marks → Failure → Round W
    fail_pass marks failure = record { marks = marks; samples = []; failures = failure ∷ [] }

    -- A pass over what the store lists.
    unfoldable pub run_listed : Marks → Option (List (SamplingWorkload W)) → Round W
    unfolding sample_all
    run_listed marks none = fail_pass marks not_listed
    run_listed marks (some ws) = store_round (sample_all marks ws)

    -- `RunOnce`: the marks afterwards, the samples that the store was given and the joined errors.
    unfoldable pub run_once : Marks → Round W
    unfolding run_listed
    run_once marks =
        if not s.configured then fail_pass marks not_configured else run_listed marks world.listed
