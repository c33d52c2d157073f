-- ===== src/History/Plan/Covered.antt =====
-- The plan covers what is missing, in spans that ascend and that one request can answer.
use keda_replica_sense.Prelude.{
  ℕ, zero, suc, ◌+◌, ◌-◌, ◌≤◌, ◌<◌, ltb, List, [], ◌∷◌, length, get_elem?, Bool, true, false, ◌&&◌,
  if◌then◌else◌, Option, none, some, ◌≡◌, ◌⊎◌, inl, inr, refl, arith, Bool-cases, subst,
}
use keda_replica_sense.History.Plan.{Span, plan_runs}

-- Slot `k` is asked for.
abbrev pub Asked : ℕ → List Span → Type 0
Asked k [] = ⊥
Asked k (s ∷ ss) = (s.first ≤ k) × (k ≤ s.last) ⊎ Asked k ss

-- Spans that ascend from `low` on, below `high`, none of them above `size` slots.
abbrev pub Ascends : ℕ → ℕ → ℕ → List Span → Type 0
Ascends size low high [] = Unit
Ascends size low high (s ∷ ss) =
    (low ≤ s.first)
    × (s.first ≤ s.last)
    × (s.last < high)
    × (s.last < s.first + size)
    × Ascends size (suc s.last) high ss

-- The slots before `i` that the open run holds.
abbrev pub Held : Option ℕ → ℕ → ℕ → Type 0
Held none i k = ⊥
Held (some first) i k = (first ≤ k) × (k < i)

abbrev pub IsOpen : ℕ → ℕ → ℕ → Option ℕ → Type 0
IsOpen size low i none = low ≤ i
IsOpen size low i (some first) = (low ≤ first) × (first < i) × (i ≤ first + size)

suc_moves : (i n : ℕ) → i + suc n ≡ suc i + n
suc_moves i n = omega arith

plan_runs-Held :
    (size i : ℕ) (open_run : Option ℕ) (ms : List Bool) (k : ℕ)
    → Held open_run i k
    → Asked k (plan_runs size i open_run ms)
unfolding plan_runs
plan_runs-Held size i none ms k h = absurd h
plan_runs-Held size i (some first) [] k h = inl (h.0, omega arith)
plan_runs-Held size i (some first) (m ∷ ms) k h = elim (Bool-cases (m && ltb (i - first) size)) [
  | inl e ↦ rw e (plan_runs-Held size (suc i) (some first) ms k (h.0, omega arith))
  | inr e ↦ rw e (inl (h.0, omega arith))
]

abbrev pub Precedes : Option ℕ → ℕ → Type 0
Precedes none i = Unit
Precedes (some first) i = first ≤ i

-- A missing slot of `m ∷ ms`, from the recursion on `ms` in the state that follows.
step-covers :
    (size i : ℕ) (open_run : Option ℕ) (m : Bool) (ms : List Bool) (k : ℕ)
    → Held open_run (suc i) i ⊎ (m ≡ false)
    → ((j : ℕ)
        → get_elem? ms j ≡ some true
        → Asked (suc i + j) (plan_runs size (suc i) open_run ms))
    → get_elem? (m ∷ ms) k ≡ some true
    → Asked (i + k) (plan_runs size (suc i) open_run ms)
step-covers size i open_run m ms zero (inl held) ih h =
    subst (λ t. Asked t (plan_runs size (suc i) open_run ms)) (omega arith)
      (plan_runs-Held size (suc i) open_run ms i held)
step-covers size i open_run m ms zero (inr absent) ih h = cc
step-covers size i open_run m ms (suc k) held ih h =
    subst (λ t. Asked t (plan_runs size (suc i) open_run ms)) (omega arith) (ih k h)

opened : (i : ℕ) (m : Bool) → Held (if m then some i else none) (suc i) i ⊎ (m ≡ false)
opened i true = inl (omega arith)
opened i false = inr refl

opened-Precedes : (i : ℕ) (m : Bool) → Precedes (if m then some i else none) (suc i)
opened-Precedes i true = omega arith
opened-Precedes i false = tt

pub plan_runs-covers :
    (size i : ℕ) (open_run : Option ℕ) (ms : List Bool) (k : ℕ)
    → Precedes open_run i
    → get_elem? ms k ≡ some true
    → Asked (i + k) (plan_runs size i open_run ms)
unfolding plan_runs
plan_runs-covers size i open_run [] k p h = cc
plan_runs-covers size i none (m ∷ ms) k p h =
    step-covers size i (if m then some i else none) m ms k (opened i m)
      (λ j g.
        plan_runs-covers size (suc i) (if m then some i else none) ms j (opened-Precedes i m) g)
      h
plan_runs-covers size i (some first) (m ∷ ms) k p h =
    elim (Bool-cases (m && ltb (i - first) size)) [
      | inl e ↦ rw e (
          step-covers size i (some first) m ms k (inl (p, omega arith))
            (λ j g. plan_runs-covers size (suc i) (some first) ms j (omega arith) g) h)
      | inr e ↦ rw e (
          inr (
            step-covers size i (if m then some i else none) m ms k (opened i m)
              (λ j g.
                plan_runs-covers size (suc i) (if m then some i else none) ms j
                  (opened-Precedes i m) g)
              h))
    ]

IsOpen-opened :
    (size low i : ℕ) (m : Bool)
    → 0 < size
    → low ≤ i
    → IsOpen size low (suc i) (if m then some i else none)
IsOpen-opened size low i true h k = omega arith
IsOpen-opened size low i false h k = omega arith

pub plan_runs-Ascends :
    (size low i : ℕ) (open_run : Option ℕ) (ms : List Bool)
    → 0 < size
    → IsOpen size low i open_run
    → Ascends size low (i + length ms) (plan_runs size i open_run ms)
unfolding plan_runs
plan_runs-Ascends size low i none [] h o = tt
plan_runs-Ascends size low i (some first) [] h o = omega arith
plan_runs-Ascends size low i none (m ∷ ms) h o = rw (suc_moves i (length ms)) (
    plan_runs-Ascends size low (suc i) (if m then some i else none) ms h
      (IsOpen-opened size low i m h o))
plan_runs-Ascends size low i (some first) (m ∷ ms) h o =
    rw (suc_moves i (length ms)) (elim (Bool-cases (m && ltb (i - first) size)) [
      | inl e ↦
          rw e
            (plan_runs-Ascends size low (suc i) (some first) ms h (o.0, omega arith, ground arith))
      | inr e ↦ rw e (
        o.0,
        omega arith,
        omega arith,
        omega arith,
        plan_runs-Ascends size (suc (i - 1)) (suc i) (if m then some i else none) ms h
            (IsOpen-opened size (suc (i - 1)) i m h (omega arith)),
      )
    ])
