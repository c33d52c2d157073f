-- ===== src/Controller/Recovery/States.antt =====
-- What the states keep over a whole check: bounded attempts, no state of an object that was not seen,
-- and a count of requests that the log accounts for.
use keda_replica_sense.Prelude.{
  ◌≤◌, String, Time, ◌≡◌, refl, List, [], ◌∷◌, ◌++◌, arith, Bool-cases, inl, inr, ◌⊎◌, add_time,
  ltb_ℤ, length,
}
use keda_replica_sense.Controller.Recovery.Backoff.{backoff}
use keda_replica_sense.Controller.Recovery.{
  missing_recorded, note, read_hpa, Key, HpaRecoveryState, HpaRecovery, World, Hpa, HpaAnswer,
  found, not_found, failed, ScaledObject, Scan, state_at, put_state, fresh_state, current_state,
  next_attempts, attempt, repair, visit, visit_all, check, keep_seen, expected_metrics,
  owned_recovery_hpa, missing_hpa_metrics, recovery_hpa_name,
}

List-cases : {A : Type 0} (xs : List A) → (xs ≡ []) ⊎ ((x : A) × (r : List A) × (xs ≡ x ∷ r))
List-cases [] = inl refl
List-cases (x ∷ xs) = inr (x, xs, refl)

HpaAnswer-cases :
    (a : HpaAnswer) → ((a ≡ not_found) ⊎ (a ≡ failed)) ⊎ ((hpa : Hpa) × (a ≡ found hpa))
HpaAnswer-cases not_found = inl (inl refl)
HpaAnswer-cases failed = inl (inr refl)
HpaAnswer-cases (found hpa) = inr (hpa, refl)

abbrev pub States : Type 0
States = List (Key × HpaRecoveryState)

abbrev pub AllBounded : States → Type 0
AllBounded [] = Unit
AllBounded ((k, s) ∷ m) = (s.attempts ≤ 10) × AllBounded m

put_state-AllBounded :
    (key : Key) (s : HpaRecoveryState) (m : States)
    → s.attempts ≤ 10
    → AllBounded m
    → AllBounded (put_state key s m)
unfolding put_state
put_state-AllBounded key s [] h a = (h, tt)
put_state-AllBounded key s ((k, t) ∷ m) h a = ground (arith, put_state-AllBounded key s m h a.1)

state_at-le : (key : Key) (m : States) → AllBounded m → (state_at key m).attempts ≤ 10
unfolding state_at
state_at-le key [] a = omega arith
state_at-le key ((k, s) ∷ m) a = ground (arith, state_at-le key m a.1)

keep_seen-AllBounded : (seen : List Key) (m : States) → AllBounded m → AllBounded (keep_seen seen m)
unfolding keep_seen
keep_seen-AllBounded seen [] a = tt
keep_seen-AllBounded seen ((k, s) ∷ m) a = ground (arith, keep_seen-AllBounded seen m a.1)

module _ (r : HpaRecovery) (world : World) (now : Time) where
  abbrev tried : HpaRecoveryState → HpaRecoveryState
  tried state = record state {
    attempts = next_attempts state.attempts;
    next_attempt = add_time now (backoff r.interval (next_attempts state.attempts));
  }

  -- Whatever the probe and the patch answer, the attempt is recorded.
  attempt_states :
      (key : Key) (hpa : Hpa) (missing : List String) (state : HpaRecoveryState) (scan : Scan)
      → (attempt r world now key hpa missing state scan).states
        ≡ put_state key (tried state) scan.states
  unfolding attempt
  attempt_states key hpa missing state scan = ground arith

  attempt-AllBounded :
      (key : Key) (hpa : Hpa) (missing : List String) (state : HpaRecoveryState) (scan : Scan)
      → state.attempts ≤ 10
      → AllBounded scan.states
      → AllBounded (attempt r world now key hpa missing state scan).states
  attempt-AllBounded key hpa missing state scan h a =
      rw (attempt_states key hpa missing state scan)
        (put_state-AllBounded key (tried state) scan.states (ground arith) a)

  repair-AllBounded :
      (key : Key) (hpa : Hpa) (missing : List String) (scan : Scan)
      → AllBounded scan.states
      → AllBounded (repair r world now key hpa missing scan).states
  unfolding repair
  repair-AllBounded key hpa [] scan a =
      put_state-AllBounded key (fresh_state hpa.uid) scan.states (omega arith) a
  repair-AllBounded key hpa (m ∷ ms) before a =
      let state : HpaRecoveryState = current_state hpa (state_at key before.states) in
      let scan : Scan = record before {
        seen = key ∷ before.seen;
        log = before.log ++ note r.observed (missing_recorded key (length (m ∷ ms)) ∷ []);
      } in
      let small : state.attempts ≤ 10 = ground (arith, state_at-le key before.states a) in
      let step = attempt-AllBounded key hpa (m ∷ ms) state scan small a in
      elim (Bool-cases (ltb_ℤ now state.next_attempt)) [ inl e ↦ rw e a | inr e ↦ rw e step ]

  -- A visit does nothing, notes a failed read, or repairs an HPA that it has seen.
  pub visit_cases :
      (scan : Scan) (object : ScaledObject)
      → (visit r world now scan object ≡ scan)
        ⊎ (visit r world now scan object
            ≡ record scan { failures = scan.failures ++ read_hpa object.key ∷ [] })
        ⊎ ((hpa : Hpa) × (missing : List String) × (visit r world now scan object
              ≡ repair r world now object.key hpa missing scan))
  unfolding visit
  visit_cases scan object = elim (List-cases (expected_metrics object)) [
    | inl e ↦ inl (rw (e, visit))
    | inr (m, ms, e) ↦
        elim (HpaAnswer-cases (world.get_hpa object.key.namespace (recovery_hpa_name object))) [
          | inl (inl g) ↦ inl (rw (e, visit) (rw (g, visit)))
          | inl (inr g) ↦ inr (inl (rw (e, visit) (rw (g, visit))))
          | inr (hpa, g) ↦ elim (Bool-cases (owned_recovery_hpa r.scheme hpa object)) [
            | inl o ↦ inr (
                inr (
                  hpa,
                  missing_hpa_metrics hpa (m ∷ ms),
                  rw (e, visit) (rw (g, visit) (rw (o, visit))),
                ))
            | inr o ↦ inl (rw (e, visit) (rw (g, visit) (rw (o, visit))))
          ]
        ]
  ]

  visit-AllBounded :
      (scan : Scan) (object : ScaledObject)
      → AllBounded scan.states
      → AllBounded (visit r world now scan object).states
  visit-AllBounded scan object a = elim (visit_cases scan object) [
    | inl e ↦ rw e a
    | inr (inl e) ↦ rw e a
    | inr (inr (hpa, missing, e)) ↦ rw e (repair-AllBounded object.key hpa missing scan a)
  ]

  visit_all-AllBounded :
      (scan : Scan) (objects : List ScaledObject)
      → AllBounded scan.states
      → AllBounded (visit_all r world now scan objects).states
  unfolding visit_all
  visit_all-AllBounded scan [] a = a
  visit_all-AllBounded scan (object ∷ objects) a =
      visit_all-AllBounded (visit r world now scan object) objects (visit-AllBounded scan object a)

  -- No state ever counts more than ten attempts, after any check on states that do not.
  check-AllBounded :
      (states : States) (objects : List ScaledObject)
      → AllBounded states
      → AllBounded (check r world now states objects).states
  unfolding check
  check-AllBounded states objects a = keep_seen-AllBounded _ _ (visit_all-AllBounded _ objects a)
