-- ===== src/History/Plan.antt =====
-- The request plan of `Repair` in internal/history/repair.go: the spans of slots that are asked for. A
-- slot is `true` where it is missing. The size of a request is an argument of the parts.
pub mod Covered
pub mod Shards
use mathlib.Core.Option
use keda_replica_sense.Prelude.{
  ℕ, zero, suc, ◌+◌, ◌-◌, ltb, List, [], ◌∷◌, length, take, drop, Bool, true, false, ◌&&◌,
  if◌then◌else◌, Option, none, some, ◌≡◌, refl,
}

pub record Span : Type 0 where
  pub first : ℕ
  pub last : ℕ

abbrev pub max_points : ℕ
max_points = 10000

-- The loop over the slots, at slot `i` with the run that is open there, if one is: a run ends before
-- a slot that is present, or when it is full.
unfoldable pub plan_runs : ℕ → ℕ → Option ℕ → List Bool → List Span
plan_runs size i none [] = []
plan_runs size i (some first) [] = record { first = first; last = i - 1 } ∷ []
plan_runs size i none (m ∷ ms) = plan_runs size (suc i) (if m then some i else none) ms
plan_runs size i (some first) (m ∷ ms) =
    let longer = plan_runs size (suc i) (some first) ms in
    let next = plan_runs size (suc i) (if m then some i else none) ms in
    if m && ltb (i - first) size then longer else record { first = first; last = i - 1 } ∷ next

-- The first and the last missing slot of a shard.
unfoldable pub first_missing : List Bool → Option ℕ
first_missing [] = none
first_missing (true ∷ ms) = some 0
first_missing (false ∷ ms) = Option.map (λ i. suc i) (first_missing ms)

abbrev pub or_here : Bool → Option ℕ → Option ℕ
or_here m (some i) = some (suc i)
or_here true none = some 0
or_here false none = none

unfoldable pub last_missing : List Bool → Option ℕ
last_missing [] = none
last_missing (m ∷ ms) = or_here m (last_missing ms)

abbrev pub add_shard : ℕ → Option ℕ → Option ℕ → List Span → List Span
add_shard first (some a) (some b) spans = record { first = first + a; last = first + b } ∷ spans
add_shard first _ _ spans = spans

-- The loop over the shards from slot `first` on, with a shard for each unit of fuel at most.
unfoldable pub shards : ℕ → ℕ → ℕ → List Bool → List Span
shards size zero first ms = []
shards size (suc fuel) first [] = []
shards size (suc fuel) first (m ∷ ms) =
    let shard = take size (m ∷ ms) in
    add_shard first (first_missing shard) (last_missing shard)
      (shards size fuel (first + size) (drop size (m ∷ ms)))

unfoldable pub plan_for : List Bool → List Span
plan_for missing =
    let plan = plan_runs max_points 0 none missing in
    if ltb 128 (length plan) then shards max_points (length missing) 0 missing else plan

-- Two runs, the first of which fills a request.
three_requests :
    plan_runs 2 0 none (true ∷ true ∷ true ∷ false ∷ true ∷ [])
    ≡ record { first = 0; last = 1 }
      ∷ record { first = 2; last = 2 }
      ∷ record { first = 4; last = 4 }
      ∷ []
unfolding plan_runs
three_requests = refl

two_shards :
    shards 2 5 0 (true ∷ true ∷ false ∷ false ∷ true ∷ [])
    ≡ record { first = 0; last = 1 } ∷ record { first = 4; last = 4 } ∷ []
unfolding shards first_missing last_missing
two_shards = refl
