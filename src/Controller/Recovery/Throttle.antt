-- ===== src/Controller/Recovery/Throttle.antt =====
-- When a reconciliation is requested, how far apart the requests lie, and what the states keep.
use keda_replica_sense.Prelude.{
  ℕ, suc, ◌<◌, ℤ, pos, ◌+ℤ◌, +ℤ_parts, ◌≤ℤ◌, ltb_ℤ, String, eq_iff, Time, add_time, ◌≡◌, refl, ◌≢◌,
  Bool, true, false, List, [], ◌∷◌, ◌++◌, arith, Bool-cases, inl, inr, length, ap, sym, subst, ◌∙◌,
  pos_part, neg_part,
}
use keda_replica_sense.Controller.Recovery.Backoff.{backoff, interval-le-backoff}
use keda_replica_sense.Controller.Recovery.{
  Key, same_key, HpaRecoveryState, HpaRecovery, World, Hpa, Scan, state_at, put_state,
  current_state, next_attempts, attempt, repair, probe_all, missing_recorded, note,
}

same_key_refl : (k : Key) → same_key k k ≡ true
unfolding same_key
same_key_refl k = ground (arith, eq_iff k.namespace k.namespace, eq_iff k.name k.name)

state_at-put_state :
    (k : Key) (s : HpaRecoveryState) (m : List (Key × HpaRecoveryState))
    → state_at k (put_state k s m) ≡ s
unfolding state_at put_state
state_at-put_state k s [] = ground (arith, same_key_refl k)
state_at-put_state k s ((j, t) ∷ m) = ground (arith, same_key_refl k, state_at-put_state k s m)

abbrev AllProbed : (Key → String → Bool) → Key → List String → Type 0
AllProbed probe key [] = Unit
AllProbed probe key (m ∷ ms) = (probe key m ≡ true) × AllProbed probe key ms

probe_all-AllProbed :
    (probe : Key → String → Bool) (key : Key) (ms : List String)
    → (probe_all probe key ms).1 ≡ true
    → AllProbed probe key ms
unfolding probe_all
probe_all-AllProbed probe key [] h = tt
probe_all-AllProbed probe key (m ∷ ms) h = elim (Bool-cases (probe key m)) [
  | inl e ↦ (e, probe_all-AllProbed probe key ms (ground arith))
  | inr e ↦ absurd (ground arith)
]

-- What a request for reconciliation rests on, and what it leaves behind.
pub record IsJustified (r : HpaRecovery) (world : World) (now : Time) (key : Key) (hpa : Hpa)
    (missing : List String) (before after : Scan) : Type 0 where
  pub lacking : missing ≢ []
  pub healthy : AllProbed world.probe key missing
  pub accepted : world.patch hpa ≡ true
  pub due : (current_state hpa (state_at key before.states)).next_attempt ≤ℤ now
  pub same_hpa : (state_at key after.states).uid ≡ hpa.uid
  pub next :
      (state_at key after.states).next_attempt
      ≡ add_time now (backoff r.interval (state_at key after.states).attempts)

module _ (r : HpaRecovery) (world : World) (now : Time) where
  attempt-IsJustified :
      (key : Key) (hpa : Hpa) (m : String) (ms : List String) (state : HpaRecoveryState)
      (scan : Scan)
      → (attempt r world now key hpa (m ∷ ms) state scan).requested ≡ suc scan.requested
      → AllProbed world.probe key (m ∷ ms)
        × (world.patch hpa ≡ true)
        × (state_at key (attempt r world now key hpa (m ∷ ms) state scan).states ≡ record state {
          attempts = next_attempts state.attempts;
          next_attempt = add_time now (backoff r.interval (next_attempts state.attempts));
        })
  unfolding attempt
  attempt-IsJustified key hpa m ms state scan h =
      let tried : HpaRecoveryState = record state {
        attempts = next_attempts state.attempts;
        next_attempt = add_time now (backoff r.interval (next_attempts state.attempts));
      } in
      let stored = state_at-put_state key tried scan.states in
      let (calls, healthy) = probe_all world.probe key (m ∷ ms) in
      ground (arith, stored, probe_all-AllProbed world.probe key (m ∷ ms))

  current_uid : (hpa : Hpa) (state : HpaRecoveryState) → (current_state hpa state).uid ≡ hpa.uid
  current_uid hpa state = ground (arith, eq_iff state.uid hpa.uid)

  abbrev noticed : Key → ℕ → Scan → Scan
  noticed key n before = record before {
    seen = key ∷ before.seen;
    log = before.log ++ note r.observed (missing_recorded key n ∷ []);
  }

  repair_waits :
      (key : Key) (hpa : Hpa) (m : String) (ms : List String) (before : Scan)
      → ltb_ℤ now (current_state hpa (state_at key before.states)).next_attempt ≡ true
      → repair r world now key hpa (m ∷ ms) before ≡ noticed key (length (m ∷ ms)) before
  unfolding repair
  repair_waits key hpa m ms before e = rw e

  repair_tries :
      (key : Key) (hpa : Hpa) (m : String) (ms : List String) (before : Scan)
      → ltb_ℤ now (current_state hpa (state_at key before.states)).next_attempt ≡ false
      → repair r world now key hpa (m ∷ ms) before
        ≡ attempt r world now key hpa
            (m ∷ ms)
            (current_state hpa (state_at key before.states))
            (noticed key (length (m ∷ ms)) before)
  unfolding repair
  repair_tries key hpa m ms before e = rw e

  repair_restored :
      (key : Key) (hpa : Hpa) (before : Scan)
      → (repair r world now key hpa [] before).requested ≡ before.requested
  unfolding repair
  repair_restored key hpa before = refl

  -- A request is counted only when the HPA lacks a metric, every missing metric was probed healthy,
  -- the patch was accepted and the wait of this HPA was over; the state then holds the next wait,
  -- which is the backoff for the attempts made.
  pub repair-IsJustified :
      (key : Key) (hpa : Hpa) (missing : List String) (scan : Scan)
      → (repair r world now key hpa missing scan).requested ≡ suc scan.requested
      → IsJustified r world now key hpa missing scan (repair r world now key hpa missing scan)
  repair-IsJustified key hpa [] scan h = absurd (omega (arith, repair_restored key hpa scan))
  repair-IsJustified key hpa (m ∷ ms) before h =
      let state = current_state hpa (state_at key before.states) in
      elim (Bool-cases (ltb_ℤ now state.next_attempt)) [
        | inl e ↦
            absurd
              (omega (arith, ap (λ (s : Scan). s.requested) (repair_waits key hpa m ms before e)))
        | inr e ↦
            let step = repair_tries key hpa m ms before e in
            let (healthy, accepted, stored) =
              attempt-IsJustified key hpa m ms state (noticed key (length (m ∷ ms)) before)
                (sym (ap (λ (s : Scan). s.requested) step) ∙ h) in
            rw step (record {
              lacking = λ c. cc;
              healthy = healthy;
              accepted = accepted;
              due = ground arith;
              same_hpa = rw stored (current_uid hpa (state_at key before.states));
              next = rw stored;
            })
      ]

-- At a positive interval that an int64 holds, two requests for one HPA, with the states carried
-- from the first to the second and no change of its state in between, lie at least one interval
-- apart.
pub requests_apart :
    (r : HpaRecovery) (first second : World) (t u : Time) (n : ℕ)
    → r.interval ≡ pos n
    → 0 < n
    → n < 9223372036854775808
    → (key : Key) (hpa later : Hpa) (missing lacking : List String) (scan next : Scan)
    → (repair r first t key hpa missing scan).requested ≡ suc scan.requested
    → next.states ≡ (repair r first t key hpa missing scan).states
    → later.uid ≡ hpa.uid
    → (repair r second u key later lacking next).requested ≡ suc next.requested
    → t +ℤ pos n ≤ℤ u
unfolding add_time
requests_apart r first second t u n e p b key hpa later missing lacking scan next h states uid k =
    let before = repair-IsJustified r first t key hpa missing scan h in
    let after = repair-IsJustified r second u key later lacking next k in
    let s : HpaRecoveryState = state_at key (repair r first t key hpa missing scan).states in
    let kept : current_state later (state_at key next.states) ≡ s =
      rw states (ground (arith, before.same_hpa, eq_iff s.uid later.uid)) in
    let due : s.next_attempt ≤ℤ u = rw kept at after.due in
    let wait : pos n ≤ℤ backoff r.interval s.attempts =
      subst (λ (i : ℤ). pos n ≤ℤ backoff i s.attempts) (sym e)
        (interval-le-backoff n s.attempts p b) in
    omega (
      arith,
      due,
      ap pos_part before.next,
      ap neg_part before.next,
      wait,
      +ℤ_parts t (backoff r.interval s.attempts),
      +ℤ_parts t (pos n),
    )
