-- ===== src/History/Repair/Complete.antt =====
-- What a repair that succeeds has established.
use keda_replica_sense.Prelude.{
  ℕ, zero, suc, ◌<◌, ◌==◌, ltb, Time, List, [], ◌∷◌, length, get_elem?, set, replicate, Bool, true,
  false, not, if◌then◌else◌, Option, none, some, Result, ok, err, Float64, ◌≡◌, ◌⊎◌, inl, inr, refl,
  arith, Bool-cases, get_elem?-set_ne, length-set, length-replicate, ◌≢◌, ==_iff, ap, sym, ◌∙◌,
  ltb_ℤ, pos,
}
use keda_replica_sense.Domain.{SamplingWorkload}
use keda_replica_sense.Dataset.{Sample, Among}
use keda_replica_sense.History.Plan.{plan_for}
use keda_replica_sense.History.Repair.{
  Policy, World, Progress, Step, go, stop, and_then, slot_of, count_missing, slots, interval_of,
  is_observation, mark_present, or_bad, read_missing, repair_parts, close_repair, repair_missing,
  with_missing, begin, repair, valid_policy, valid_contract, RepairError,
}

pub stop-ne-go : {W A : Type 0} {p q : Progress W} {e : RepairError} {a : A} → stop p e ≢ go q a
stop-ne-go h = cc

pub go_injective :
    {W A : Type 0} {p q : Progress W} {a b : A} → Path (Step W A) (go p a) (go q b) → p ≡ q
go_injective h = cc

-- A test whose first branch stops has taken the second.
pub go_of_else :
    {W A : Type 0} (b : Bool) (p : Progress W) (e : RepairError) (m : Step W A) {q : Progress W}
    {a : A}
    → (if b then stop p e else m) ≡ go q a
    → m ≡ go q a
go_of_else true p e m h = cc
go_of_else false p e m h = h

pub and_then-eq-go :
    {W A B : Type 0} (m : Step W A) (k : Progress W → A → Step W B) {p : Progress W} {b : B}
    → and_then m k ≡ go p b
    → (q : Progress W) × (a : A) × (m ≡ go q a) × (k q a ≡ go p b)
and_then-eq-go (go q a) k h = (q, a, refl, h)
and_then-eq-go (stop q e) k h = cc

get_elem?-count_missing :
    (ms : List Bool) (k : ℕ) → count_missing ms ≡ 0 → k < length ms → get_elem? ms k ≡ some false
unfolding count_missing
get_elem?-count_missing [] k h lt = absurd (omega arith)
get_elem?-count_missing (true ∷ ms) k h lt = absurd (omega arith)
get_elem?-count_missing (false ∷ ms) zero h lt = refl
get_elem?-count_missing (false ∷ ms) (suc k) h lt =
    get_elem?-count_missing ms k (omega arith) (omega arith)

none-ne-some {ℓ} : {A : Type ℓ} {a : A} → none ≢ some a
none-ne-some h = cc

pub ne_of_test : (a b : ℕ) → (a == b) ≡ false → a ≢ b
ne_of_test a b h e = ground arith

pub or_bad-eq-ok :
    (o : Option (List Bool)) {missing : List Bool} → or_bad o ≡ ok missing → o ≡ some missing
or_bad-eq-ok none h = cc
or_bad-eq-ok (some m) h = cc

pub get_elem?-replicate : (n k : ℕ) → k < n → get_elem? (replicate n true) k ≡ some true
get_elem?-replicate zero k h = absurd (omega arith)
get_elem?-replicate (suc n) zero h = refl
get_elem?-replicate (suc n) (suc k) h = get_elem?-replicate n k (omega arith)

module _ {W : Type 0} ⦃f : Float64 W⦄ (w : SamplingWorkload W) (start stop_at : Time) where
  -- An observation of the list fills slot `k`.
  abbrev pub Fills : List (Sample W) → ℕ → Type 0
  Fills listing k =
      (s : Sample W) × Among s listing
      × (slot_of start (interval_of w) s.observed_at ≡ k)
      × (is_observation w start stop_at s ≡ true)

  pub mark_present-cons :
      (missing : List Bool) (p : Sample W) (ps : List (Sample W)) {missing' : List Bool}
      → mark_present w start stop_at missing (p ∷ ps) ≡ some missing'
      → (is_observation w start stop_at p ≡ true)
        × (mark_present w start stop_at
              (set missing (slot_of start (interval_of w) p.observed_at) false)
              ps
            ≡ some missing')
  unfolding mark_present
  mark_present-cons missing p ps h = elim (Bool-cases (is_observation w start stop_at p)) [
    | inl e ↦ (e, rw e at h)
    | inr e ↦ let h' = rw e at h in absurd (none-ne-some h')
  ]

  mark_present-Fills :
      (missing : List Bool) (ps : List (Sample W)) (missing' : List Bool) (k : ℕ)
      → mark_present w start stop_at missing ps ≡ some missing'
      → get_elem? missing k ≡ some true
      → get_elem? missing' k ≡ some false
      → Fills ps k
  unfolding mark_present
  mark_present-Fills missing [] missing' k h absent present = cc
  mark_present-Fills missing (p ∷ ps) missing' k h absent present =
      let slot = slot_of start (interval_of w) p.observed_at in
      let (good, rest) = mark_present-cons missing p ps h in
      elim (Bool-cases (slot == k)) [
        | inl same ↦ (p, inl refl, (==_iff slot k).0 same, good)
        | inr other ↦
            let (s, m, at, fine) =
              mark_present-Fills (set missing slot false) ps missing' k rest
                (get_elem?-set_ne missing false (λ e. ne_of_test slot k other e) ∙ absent)
                present in
            (s, inr m, at, fine)
      ]

  pub mark_present-length :
      (missing : List Bool) (ps : List (Sample W)) (missing' : List Bool)
      → mark_present w start stop_at missing ps ≡ some missing'
      → length missing' ≡ length missing
  mark_present-length missing [] missing' h = unfold mark_present in ground arith
  mark_present-length missing (p ∷ ps) missing' h =
      let slot = slot_of start (interval_of w) p.observed_at in
      let (good, rest) = mark_present-cons missing p ps h in
      mark_present-length (set missing slot false) ps missing' rest ∙ length-set missing slot false

  -- Every slot of the window holds one of the observations.
  abbrev pub IsFull : List (Sample W) → Type 0
  IsFull listing = (k : ℕ) → k < slots w start stop_at → Fills listing k

  pub read_missing-eq-ok :
      (answer : Option (List (Sample W))) {missing : List Bool}
      → read_missing w start stop_at answer ≡ ok missing
      → (listing : List (Sample W)) × (answer ≡ some listing)
        × (mark_present w start stop_at (replicate (slots w start stop_at) true) listing
            ≡ some missing)
  read_missing-eq-ok none h = cc
  read_missing-eq-ok (some listing) h = (listing, refl, or_bad-eq-ok _ h)

  read_missing-IsFull :
      (answer : Option (List (Sample W))) {missing : List Bool}
      → read_missing w start stop_at answer ≡ ok missing
      → count_missing missing ≡ 0
      → (listing : List (Sample W)) × (answer ≡ some listing) × IsFull listing
  read_missing-IsFull answer {missing} h none_missing =
      let n = slots w start stop_at in
      let (listing, given, marked) = read_missing-eq-ok answer h in
      let same : length missing ≡ n =
        mark_present-length (replicate n true) listing missing marked ∙ length-replicate n true in
      (
        listing,
        given,
        λ k lt.
            mark_present-Fills (replicate n true) listing missing k marked
              (get_elem?-replicate n k lt)
              (get_elem?-count_missing missing k none_missing (rw same lt)),
      )

  module _ (world : World W) where
    close_repair-IsFull :
        (p : Progress W) (r : Result RepairError (List Bool)) {q : Progress W}
        → close_repair p r ≡ go q tt
        → (missing : List Bool) × (r ≡ ok missing)
          × (count_missing missing ≡ 0)
          × (q.report.missing_after ≡ 0)
    close_repair-IsFull p (err e) h = cc
    close_repair-IsFull p (ok missing) h = elim (Bool-cases (ltb 0 (count_missing missing))) [
      | inl e ↦ absurd (stop-ne-go (rw e at h))
      | inr e ↦
          let h' = rw e at h in
          (
            missing,
            refl,
            ground arith,
            ap (λ (t : Progress W). t.report.missing_after) (sym (go_injective h'))
                ∙ (ground arith),
          )
    ]

    repair_missing-IsFull :
        (p : Progress W) (r : Result RepairError (List Bool)) {q : Progress W}
        → r ≡ read_missing w start stop_at world.first_listing
        → repair_missing w start stop_at world p r ≡ go q tt
        → (q.report.missing_after ≡ 0)
          × ((listing : List (Sample W)) × ((world.first_listing ≡ some listing)
                ⊎ (world.last_listing ≡ some listing))
              × IsFull listing)
    repair_missing-IsFull p (err e) r h = cc
    repair_missing-IsFull p (ok missing) r h = elim (Bool-cases (count_missing missing == 0)) [
      | inl e ↦
          let h' = rw e at h in
          let none_missing : count_missing missing ≡ 0 = (==_iff _ 0).0 e in
          let (listing, given, full) =
            read_missing-IsFull world.first_listing (sym r) none_missing in
          (
            ap (λ (t : Progress W). t.report.missing_after) (sym (go_injective h')) ∙ none_missing,
            (listing, inl given, full),
          )
      | inr e ↦
          let (q', u, ran, closed) =
            and_then-eq-go
              (repair_parts w start stop_at world missing (plan_for missing)
                (with_missing p (count_missing missing)))
              (λ p' _. close_repair p' (read_missing w start stop_at world.last_listing))
              (rw e at h) in
          let (left, read, none_missing, reported) = close_repair-IsFull q' _ closed in
          let (listing, given, full) = read_missing-IsFull world.last_listing read none_missing in
          (reported, (listing, inr given, full))
    ]

    -- A repair succeeds only where each slot of the window holds a stored observation: in the first
    -- listing, or in the one made after the missing slots were asked for. It then reports none missing.
    pub repair-IsComplete :
        (policy : Policy) (configured : Bool) {q : Progress W}
        → repair w start stop_at world policy configured ≡ go q tt
        → (q.report.missing_after ≡ 0)
          × ((listing : List (Sample W)) × ((world.first_listing ≡ some listing)
                ⊎ (world.last_listing ≡ some listing))
              × IsFull listing)
    unfolding repair
    repair-IsComplete policy configured h =
        let n = slots w start stop_at in
        let planned =
          repair_missing w start stop_at world (begin start stop_at n)
            (read_missing w start stop_at world.first_listing) in
        let budgeted =
          if ltb_ℤ policy.max_points (pos n)
          then stop (begin start stop_at n) RepairError.over_budget
          else planned in
        let agreed =
          if not (valid_contract w start stop_at configured)
          then stop (begin start stop_at 0) RepairError.bad_contract
          else budgeted in
        let ran =
          go_of_else (not (valid_policy policy)) (begin start stop_at 0) RepairError.bad_policy
            agreed h in
        let allowed =
          go_of_else (not (valid_contract w start stop_at configured)) (begin start stop_at 0)
            RepairError.bad_contract budgeted ran in
        let inner =
          go_of_else (ltb_ℤ policy.max_points (pos n)) (begin start stop_at n)
            RepairError.over_budget planned allowed in
        repair_missing-IsFull (begin start stop_at n)
          (read_missing w start stop_at world.first_listing) refl inner
