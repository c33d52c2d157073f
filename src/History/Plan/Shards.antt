-- ===== src/History/Plan/Shards.antt =====
-- The shards of a fragmented history: each asks from its first to its last missing slot.
use keda_replica_sense.Prelude.{
  ℕ, zero, suc, ◌+◌, ◌-◌, ◌≤◌, ◌<◌, ltb, List, [], ◌∷◌, length, take, drop, get_elem?, Bool, true,
  false, Option, none, some, ◌≡◌, inl, inr, refl, arith, Bool-cases, length-drop, length-take,
  subst, Option-cases, ap, ◌∙◌,
}
use keda_replica_sense.History.Plan.{
  Span, max_points, plan_runs, first_missing, last_missing, add_shard, shards, plan_for,
}
use keda_replica_sense.History.Plan.Covered.{Asked, Ascends, plan_runs-covers, plan_runs-Ascends}

-- A missing slot lies between the first and the last that are missing.
first_missing-le :
    (ms : List Bool) (k : ℕ)
    → get_elem? ms k ≡ some true
    → (a : ℕ) × (first_missing ms ≡ some a) × (a ≤ k)
unfolding first_missing
first_missing-le [] k h = cc
first_missing-le (true ∷ ms) k h = (0, refl, omega arith)
first_missing-le (false ∷ ms) zero h = cc
first_missing-le (false ∷ ms) (suc k) h =
    let (a, e, le) = first_missing-le ms k h in (suc a, rw e, omega arith)

le-last_missing :
    (ms : List Bool) (k : ℕ)
    → get_elem? ms k ≡ some true
    → (b : ℕ) × (last_missing ms ≡ some b) × (k ≤ b)
unfolding last_missing
le-last_missing [] k h = cc
le-last_missing (true ∷ ms) zero h = elim (Option-cases (last_missing ms)) [
  | inl e ↦ (0, rw e, omega arith)
  | inr (b, e) ↦ (suc b, rw e, omega arith)
]
le-last_missing (false ∷ ms) zero h = cc
le-last_missing (m ∷ ms) (suc k) h =
    let (b, e, le) = le-last_missing ms k h in (suc b, rw e, omega arith)

get_elem?-take : (n : ℕ) (ms : List Bool) (k : ℕ) → k < n → get_elem? (take n ms) k ≡ get_elem? ms k
get_elem?-take zero ms k h = elim h [ ]
get_elem?-take (suc n) [] k h = refl
get_elem?-take (suc n) (m ∷ ms) zero h = refl
get_elem?-take (suc n) (m ∷ ms) (suc k) h = get_elem?-take n ms k (omega arith)

zero_plus : (k : ℕ) → zero + k ≡ k
zero_plus k = omega arith

suc_plus : (n k : ℕ) → suc n + k ≡ suc (n + k)
suc_plus n k = omega arith

get_elem?-drop : (n : ℕ) (ms : List Bool) (k : ℕ) → get_elem? (drop n ms) k ≡ get_elem? ms (n + k)
get_elem?-drop zero ms k = rw (zero_plus k)
get_elem?-drop (suc n) [] k = refl
get_elem?-drop (suc n) (m ∷ ms) k = rw (suc_plus n k) (get_elem?-drop n ms k)

last_missing-lt : (ms : List Bool) (b : ℕ) → last_missing ms ≡ some b → b < length ms
unfolding last_missing
last_missing-lt [] b h = cc
last_missing-lt (m ∷ ms) b h = elim (Option-cases (last_missing ms)) [
  | inl e ↦ ground (arith, e)
  | inr (c, e) ↦ ground (arith, e, last_missing-lt ms c e)
]

first_missing-get_elem? :
    (ms : List Bool) (a : ℕ) → first_missing ms ≡ some a → get_elem? ms a ≡ some true
unfolding first_missing
first_missing-get_elem? [] a h = cc
first_missing-get_elem? (true ∷ ms) a h = ground arith
first_missing-get_elem? (false ∷ ms) a h = elim (Option-cases (first_missing ms)) [
  | inl e ↦ ground (arith, e)
  | inr (c, e) ↦ ground (arith, e, first_missing-get_elem? ms c e)
]

-- A shard that misses slot `k` asks for it.
add_shard-covers :
    (first : ℕ) (ms : List Bool) (spans : List Span) (k : ℕ)
    → get_elem? ms k ≡ some true
    → Asked (first + k) (add_shard first (first_missing ms) (last_missing ms) spans)
add_shard-covers first ms spans k h =
    let (a, ea, la) = first_missing-le ms k h in
    let (b, eb, lb) = le-last_missing ms k h in rw (ea, eb) (inl (omega arith, omega arith))

Asked-add_shard :
    (first : ℕ) (a b : Option ℕ) (spans : List Span) (k : ℕ)
    → Asked k spans
    → Asked k (add_shard first a b spans)
Asked-add_shard first none b spans k h = h
Asked-add_shard first (some a) none spans k h = h
Asked-add_shard first (some a) (some b) spans k h = inr h

shards-covers :
    (size fuel first : ℕ) (ms : List Bool) (k : ℕ)
    → 0 < size
    → length ms ≤ fuel
    → get_elem? ms k ≡ some true
    → Asked (first + k) (shards size fuel first ms)
unfolding shards
shards-covers size fuel first [] k p enough h = cc
shards-covers size zero first (m ∷ ms) k p enough h = absurd (omega arith)
shards-covers size (suc fuel) first (m ∷ ms) k p enough h = elim (Bool-cases (ltb k size)) [
  | inl e ↦
      add_shard-covers first (take size (m ∷ ms)) _ k
        (get_elem?-take size (m ∷ ms) k (ground arith) ∙ h)
  | inr e ↦
      let shard = take size (m ∷ ms) in
      let rest = drop size (m ∷ ms) in
      Asked-add_shard first (first_missing shard) (last_missing shard) _ (first + k) (
        subst (λ t. Asked t (shards size fuel (first + size) rest)) (ground arith)
          (shards-covers size fuel (first + size) rest (k - size) p
            (omega (arith, length-drop size (m ∷ ms)))
            (get_elem?-drop size (m ∷ ms) (k - size) ∙ ap (get_elem? (m ∷ ms)) (ground arith) ∙ h)))
]

Ascends-le :
    (size low low' high : ℕ) (spans : List Span)
    → low ≤ low'
    → Ascends size low' high spans
    → Ascends size low high spans
Ascends-le size low low' high [] h a = tt
Ascends-le size low low' high (s ∷ ss) h a = (omega arith, a.1, a.2, a.3, a.4)

add_shard-Ascends :
    (size low high first : ℕ) (ms : List Bool) (spans : List Span)
    → low ≤ first
    → length ms ≤ size
    → length ms ≤ high - first
    → Ascends size (first + length ms) high spans
    → Ascends size low high (add_shard first (first_missing ms) (last_missing ms) spans)
add_shard-Ascends size low high first ms spans h small within a =
    elim (Option-cases (first_missing ms)) [
      | inl e ↦ rw e (Ascends-le size low (first + length ms) high spans (omega arith) a)
      | inr (i, e) ↦
          let (j, ej, le) = le-last_missing ms i (first_missing-get_elem? ms i e) in
          let lt = last_missing-lt ms j ej in
          rw (e, ej)
            (
              omega arith,
              omega arith,
              omega arith,
              omega arith,
              Ascends-le size (suc (first + j)) (first + length ms) high spans (omega arith) a,
            )
    ]

shards-Ascends :
    (size fuel low high first : ℕ) (ms : List Bool)
    → 0 < size
    → low ≤ first
    → length ms ≤ high - first
    → Ascends size low high (shards size fuel first ms)
unfolding shards
shards-Ascends size zero low high first ms p h within = tt
shards-Ascends size (suc fuel) low high first [] p h within = tt
shards-Ascends size (suc fuel) low high first (m ∷ ms) p h within =
    let shard = take size (m ∷ ms) in
    let rest = drop size (m ∷ ms) in
    add_shard-Ascends size low high first shard _ h (omega (arith, length-take size (m ∷ ms)))
      (omega (arith, length-take size (m ∷ ms)))
      (shards-Ascends size fuel (first + length shard) high (first + size) rest p
        (omega (arith, length-take size (m ∷ ms))) (omega (arith, length-drop size (m ∷ ms))))

-- The plan asks for every missing slot of the window, in spans that lie in the window, ascend without
-- an overlap and hold at most ten thousand slots each.
pub plan_for-covers :
    (missing : List Bool)
    → ((k : ℕ) → get_elem? missing k ≡ some true → Asked k (plan_for missing))
      × Ascends max_points 0 (length missing) (plan_for missing)
unfolding plan_for
plan_for-covers missing =
    elim (Bool-cases (ltb 128 (length (plan_runs max_points 0 none missing)))) [
      | inl e ↦ rw e (
        λ k h.
            subst (λ t. Asked t (shards max_points (length missing) 0 missing)) (omega arith)
              (shards-covers max_points (length missing) 0 missing k (omega arith) (omega arith) h),
        shards-Ascends max_points (length missing) 0 (length missing) 0 missing (omega arith)
            (omega arith) (omega arith),
      )
      | inr e ↦ rw e (
        λ k h.
            subst (λ t. Asked t (plan_runs max_points 0 none missing)) (omega arith)
              (plan_runs-covers max_points 0 none missing k tt h),
        subst (λ t. Ascends max_points 0 t (plan_runs max_points 0 none missing)) (omega arith)
            (plan_runs-Ascends max_points 0 0 none missing (omega arith) (omega arith)),
      )
    ]
