-- ===== src/Controller/Recovery.antt =====
-- internal/controller/hpa_recovery.go: the periodic check that asks KEDA to rebuild an HPA which
-- lacks a predictive metric. The answers of the API server and of the probe are an argument, and the
-- calls made are logged in order. The parser's candidates come with each object.
pub mod Backoff
mod Throttle
mod States
mod Accounts
mod Tests
use Backoff.{backoff}
use keda_replica_sense.Prelude.{
  decimal, ℕ, zero, suc, ◌+◌, ◌/◌, ◌%◌, ℤ, pos, ltb_ℤ, leb_ℤ, ltb, ◌==◌, String, str_eq, lookup,
  Time, Duration, add_time, Bool, true, false, not, ◌&&◌, ◌||◌, if◌then◌else◌, Option, none, some,
  is_some, List, [], ◌∷◌, ◌++◌, length,
}
use Prim.Native.Char.{Char}
use Prim.Native.String.{◌++◌ as ◌+ₛ◌}

pub record Key : Type 0 where
  pub namespace : String
  pub name : String

unfoldable pub same_key : Key → Key → Bool
same_key a b = str_eq a.namespace b.namespace && str_eq a.name b.name

pub record HpaRecoveryState : Type 0 where
  pub uid : String
  pub attempts : ℕ
  pub next_attempt : Time

-- A candidate of the parser: its trigger's name, and whether it has a spec.
pub record Candidate : Type 0 where
  pub trigger_name : String
  pub has_spec : Bool

pub record ScaledObject : Type 0 where
  pub key : Key
  pub uid : String
  pub deleting : Bool
  pub paused : Bool
  pub using_modifiers : Bool
  pub trigger_names : List String
  pub candidates : List Candidate
  pub configured_hpa_name : String
  pub status_hpa_name : String

pub record Owner : Type 0 where
  pub api_version : String
  pub kind : String
  pub name : String
  pub uid : String

-- A metric has a name if it is external.
pub record Hpa : Type 0 where
  pub name : String
  pub uid : String
  pub deleting : Bool
  pub controller : Option Owner
  pub metrics : List (Option String)

pub data HpaAnswer : Type 0 where
  found : Hpa → HpaAnswer
  not_found : HpaAnswer
  failed : HpaAnswer

pub data Event : Type 0 where
  missing_recorded : Key → ℕ → Event
  probed : Key → String → Event
  patched : Key → Hpa → Event
  outcome : String → Event
  deleted : Key → Event

pub data Failure : Type 0 where
  read_hpa probe_metric patch_hpa : Key → Failure

-- What the check is told from outside.
pub record World : Type 0 where
  pub get_hpa : String → String → HpaAnswer
  pub probe : Key → String → Bool
  pub patch : Hpa → Bool

pub record HpaRecovery : Type 0 where
  pub interval : Duration
  pub observed : Bool
  pub scheme : String

-- The variables of the loop of `Check`.
pub record Scan : Type 0 where
  pub states : List (Key × HpaRecoveryState)
  pub seen : List Key
  pub requested : ℕ
  pub failures : List Failure
  pub log : List Event

unfoldable pub metric_at : ℕ → String
unfolding decimal
metric_at index = "s" +ₛ (decimal (suc index) index +ₛ "-replicasense_predictive")

-- The first trigger with the candidate's name gives the metric's index.
unfoldable pub index_of : String → ℕ → List String → Option ℕ
index_of name i [] = none
index_of name i (t ∷ ts) = if str_eq t name then some i else index_of name (i + 1) ts

unfoldable pub candidate_metrics : List String → List Candidate → List String
unfolding index_of
candidate_metrics triggers [] = []
candidate_metrics triggers (c ∷ cs) =
    if c.has_spec
    then (elim (index_of c.trigger_name 0 triggers) [
      | none ↦ candidate_metrics triggers cs
      | some i ↦ metric_at i ∷ candidate_metrics triggers cs
    ])
    else candidate_metrics triggers cs

unfoldable pub expected_metrics : ScaledObject → List String
expected_metrics object =
    if object.deleting || object.paused || object.using_modifiers
    then []
    else candidate_metrics object.trigger_names object.candidates

unfoldable pub recovery_hpa_name : ScaledObject → String
recovery_hpa_name object =
    if not (str_eq object.configured_hpa_name "")
    then object.configured_hpa_name
    else if not (str_eq object.status_hpa_name "")
    then object.status_hpa_name
    else "keda-hpa-" +ₛ object.key.name

abbrev owned_by : String → Option Owner → ScaledObject → Bool
owned_by scheme none object = false
owned_by scheme (some owner) object =
    str_eq owner.api_version scheme
    && str_eq owner.kind "ScaledObject"
    && str_eq owner.name object.key.name
    && str_eq owner.uid object.uid

unfoldable pub owned_recovery_hpa : String → Hpa → ScaledObject → Bool
owned_recovery_hpa scheme hpa object =
    not hpa.deleting && not (str_eq object.uid "") && owned_by scheme hpa.controller object

unfoldable pub has_metric : String → List (Option String) → Bool
has_metric name [] = false
has_metric name (none ∷ ms) = has_metric name ms
has_metric name (some m ∷ ms) = str_eq m name || has_metric name ms

unfoldable pub missing_hpa_metrics : Hpa → List String → List String
missing_hpa_metrics hpa [] = []
missing_hpa_metrics hpa (name ∷ names) =
    if has_metric name hpa.metrics
    then missing_hpa_metrics hpa names
    else name ∷ missing_hpa_metrics hpa names

abbrev pub fresh_state : String → HpaRecoveryState
fresh_state uid = record { uid = uid; attempts = 0; next_attempt = pos 0 }

-- `r.states[key]`: the zero state on a missing key.
unfoldable pub state_at : Key → List (Key × HpaRecoveryState) → HpaRecoveryState
state_at key [] = fresh_state ""
state_at key ((k, s) ∷ m) = if same_key k key then s else state_at key m

-- `r.states[key] = state`.
unfoldable pub put_state :
    Key → HpaRecoveryState → List (Key × HpaRecoveryState) → List (Key × HpaRecoveryState)
put_state key state [] = (key, state) ∷ []
put_state key state ((k, s) ∷ m) =
    if same_key k key then (key, state) ∷ m else (k, s) ∷ put_state key state m

abbrev note : Bool → List Event → List Event
note observed es = if observed then es else []

-- The loop of `probe`: the calls made, and whether all passed.
unfoldable pub probe_all : (Key → String → Bool) → Key → List String → List Event × Bool
probe_all probe key [] = ([], true)
probe_all probe key (m ∷ ms) =
    let rest = probe_all probe key ms in
    if probe key m then (probed key m ∷ rest.0, rest.1) else (probed key m ∷ [], false)

-- `if state.attempts < 10 { state.attempts++ }`.
abbrev pub next_attempts : ℕ → ℕ
next_attempts n = if ltb n 10 then n + 1 else n

-- The state of this HPA: a replaced one starts afresh.
abbrev pub current_state : Hpa → HpaRecoveryState → HpaRecoveryState
current_state hpa state = if str_eq state.uid hpa.uid then state else fresh_state hpa.uid

module _ (r : HpaRecovery) (world : World) (now : Time) where
  -- The body of the loop once the probe of an attempt is due.
  unfoldable pub attempt : Key → Hpa → List String → HpaRecoveryState → Scan → Scan
  unfolding put_state probe_all backoff
  attempt key hpa missing state scan =
      let attempts = next_attempts state.attempts in
      let tried = record state {
        attempts = attempts;
        next_attempt = add_time now (backoff r.interval attempts);
      } in
      let states = put_state key tried scan.states in
      let (calls, healthy) = probe_all world.probe key missing in
      if not healthy
      then record scan {
        states = states;
        failures = scan.failures ++ probe_metric key ∷ [];
        log = scan.log ++ (calls ++ note r.observed (outcome "probe_failed" ∷ []));
      }
      else if not (world.patch hpa)
      then record scan {
        states = states;
        failures = scan.failures ++ patch_hpa key ∷ [];
        log =
            scan.log
            ++ (calls ++ (patched key hpa ∷ note r.observed (outcome "patch_failed" ∷ [])));
      }
      else record scan {
        states = states;
        requested = scan.requested + 1;
        log = scan.log ++ (calls ++ (patched key hpa ∷ note r.observed (outcome "requested" ∷ [])));
      }

  -- The body of the loop at an HPA that KEDA owns for the object.
  unfoldable pub repair : Key → Hpa → List String → Scan → Scan
  unfolding state_at put_state
  repair key hpa missing before =
      let scan = record before {
        seen = key ∷ before.seen;
        log = before.log ++ note r.observed (missing_recorded key (length missing) ∷ []);
      } in
      let state = current_state hpa (state_at key scan.states) in
      elim missing [
        | [] ↦ record scan {
          states = put_state key (fresh_state hpa.uid) scan.states;
          log = scan.log ++ note (r.observed && ltb 0 state.attempts) (outcome "restored" ∷ []);
        }
        | m ∷ ms ↦
            if ltb_ℤ now state.next_attempt then scan else attempt key hpa (m ∷ ms) state scan
      ]

  unfoldable pub visit : Scan → ScaledObject → Scan
  unfolding expected_metrics owned_recovery_hpa missing_hpa_metrics
  visit scan object = elim (expected_metrics object) [
    | [] ↦ scan
    | m ∷ ms ↦ elim (world.get_hpa object.key.namespace (recovery_hpa_name object)) [
      | not_found ↦ scan
      | failed ↦ record scan { failures = scan.failures ++ read_hpa object.key ∷ [] }
      | found hpa ↦
          if owned_recovery_hpa r.scheme hpa object
          then repair object.key hpa (missing_hpa_metrics hpa (m ∷ ms)) scan
          else scan
    ]
  ]

  unfoldable pub visit_all : Scan → List ScaledObject → Scan
  visit_all scan [] = scan
  visit_all scan (object ∷ objects) = visit_all (visit scan object) objects

unfoldable pub is_seen : Key → List Key → Bool
is_seen key [] = false
is_seen key (k ∷ ks) = same_key k key || is_seen key ks

-- The closing loop: the states of objects that were not seen are dropped, and their metrics deleted.
unfoldable pub keep_seen : List Key → List (Key × HpaRecoveryState) → List (Key × HpaRecoveryState)
keep_seen seen [] = []
keep_seen seen ((k, s) ∷ m) = if is_seen k seen then (k, s) ∷ keep_seen seen m else keep_seen seen m

unfoldable pub dropped : List Key → List (Key × HpaRecoveryState) → List Event
dropped seen [] = []
dropped seen ((k, s) ∷ m) = if is_seen k seen then dropped seen m else deleted k ∷ dropped seen m

-- `Check`, from the states of the last one; `listed` is the answer to the list call.
unfoldable pub check :
    HpaRecovery → World → Time → List (Key × HpaRecoveryState) → List ScaledObject → Scan
unfolding visit_all keep_seen dropped
check r world now states objects =
    let scan =
      visit_all r world now
        (record { states = states; seen = []; requested = 0; failures = []; log = [] }) objects in
    record scan {
      states = keep_seen scan.seen scan.states;
      log = scan.log ++ note r.observed (dropped scan.seen scan.states);
    }

pub data CheckError : Type 0 where
  not_configured list_failed : CheckError

-- `validate`, the list call (`none` is its error), and the scan.
unfoldable pub run_check :
    Bool
    → HpaRecovery
    → World
    → Time
    → List (Key × HpaRecoveryState)
    → Option (List ScaledObject)
    → (Option Scan) × Option CheckError
run_check configured r world now states none =
    (none, some (if configured then list_failed else not_configured))
run_check configured r world now states (some objects) =
    if configured
    then (some (check r world now states objects), none)
    else (none, some not_configured)
