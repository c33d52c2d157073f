-- ===== src/Lib.antt =====
-- Verification library of ReplicaSense, the predictive extension of KEDA.
--
-- The program. The controller turns ScaledObjects into workloads and asks KEDA to rebuild an HPA that
-- lacks its predictive metric. The sampler stores one observation of each workload per interval. The
-- scheduler claims training runs and starts trainer Jobs, which store model artifacts. The evaluator
-- compares artifacts and promotes, revalidates or rolls back. The forecaster reads the observations,
-- asks a model for the demand over the decision horizon, adds a surge guard and the safety controls,
-- and stores a snapshot. The scaler answers KEDA from a cache of snapshots. The parts meet in the
-- store: each reads what the others wrote, so each is modelled with the answers of the store, of the
-- cluster and of the other parts as arguments.
--
-- Files and the code that they model (paths from the repository's root):
--   Prelude           Go's integers, durations, times and texts, float64, and lemmas on them
--   Domain            internal/domain/workload.go, internal/workloadstore/repository.go
--   Dataset           internal/domain/sample.go; Quality, Inference and Training are
--                     internal/dataset/quality.go, inference.go and training.go
--   Safety            internal/safety/safety.go
--   Forecaster        internal/forecaster: Detect and Service are service.go (Types with budget.go,
--                     Input up to the prediction), and Models is model_cache.go
--   Scaler            internal/scaler/server.go, and Cache is cache.go; the snapshot is that of
--                     internal/domain/forecast.go, the lookup that of internal/forecast/repository.go
--   History           Plan and Repair are internal/history/repair.go
--   ScaledObject      internal/scaledobject: Input is input.go; Days, Fields and Parser are parser.go
--   Controller        Recovery is internal/controller/hpa_recovery.go, with its backoff in
--                     Recovery/Backoff; Jobs is internal/controller/trainer_job_cleanup.go;
--                     Reconcile is internal/controller/scaledobject.go and repository_sink.go,
--                     with internal/scaledobject/keda_adapter.go
--   Training          internal/training/decision.go and the policy and gates of
--                     internal/training/evaluation.go; Evaluate is its Evaluate (Versions,
--                     Decisions); Scheduler is internal/training/scheduler.go
--   Trainer           internal/trainer/service.go, with the candidate of internal/training/scheduler.go
--   Sampler           Backfill is internal/sampler/backfill.go; Due is isDue and jitterFor of
--                     internal/sampler/service.go, and Run its RunOnce with the retries
--   Forecast          Seasonal is internal/forecast/baseline.go, with ResolveModel of
--                     internal/forecast/model.go; Compare is internal/forecast/comparison.go, with
--                     its scores in Compare/Score
-- Below each of these the other files hold the proofs, named for what they prove, and Tests the runs
-- and the instances at concrete inputs.
--
-- Correspondence. A Go function keeps its name in this library's spelling. A method takes its receiver
-- first. Parts of a long function are functions of their own, composed as the code composes them: infer
-- and decide make Forecast, and examine, observe and compare_and_conclude make Evaluate. A clock reading
-- is an argument of the call that makes it. A collaborator's answers are fields of a World record or
-- arguments. Calls that change something outside are results or events of a log. An error is a
-- constructor of an error type, and a missing answer is none. A slice that grows at its end in a loop is
-- kept newest first where the comment says so. A map is an association list.
--
-- Numbers. int and int64 are integers. Where the code can overflow, the wrap to 64 bits is written out
-- (wrap64), and Time.Sub saturates. A time counts nanoseconds from Go's zero time. float64 is an
-- interface (Prelude.Float) whose operations the definitions use; proofs that need laws take IsOrdered,
-- which states IEEE 754 facts on numbers that are not NaN. Prelude.Billionths is an instance that
-- computes, on which the laws are proved and the tests run.
--
-- Bounds. Loops are structural recursion on their lists. The doubling loop of the backoff runs on the
-- number of attempts. decimal prints with one digit for each unit of fuel, and is given the number plus
-- one, which is enough. The backfill runs on one round for each nanosecond of its range and one more,
-- which is enough where a chunk spans a positive time; running out stands for the loop that does not end
-- where it does not.
--
-- Not modelled: SQL, HTTP, the Kubernetes client, the metrics and the configuration, which are input and
-- output; the neural and boosted models, whose predictions are arguments; the loops that call the
-- services on a ticker; the other statistical models, whose
-- answers are arguments where a part here needs them.
pub mod Prelude
pub mod Domain
pub mod Dataset
pub mod Safety
pub mod Forecaster
pub mod Scaler
pub mod Controller
pub mod Training
pub mod Sampler
pub mod Forecast
pub mod History
pub mod ScaledObject
pub mod Trainer
