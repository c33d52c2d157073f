-- ===== src/Controller/Recovery/Accounts.antt =====
-- The requests that a check counts, against the patches in its log; and which states outlive it.
use keda_replica_sense.Prelude.{
  ℕ, ◌+◌, String, Time, ◌≡◌, refl, Bool, true, List, [], ◌∷◌, ◌++◌, arith, Bool-cases, inl, inr,
  ltb_ℤ, length,
}
use keda_replica_sense.Controller.Recovery.States.{States, visit_cases}
use keda_replica_sense.Controller.Recovery.{
  Key, HpaRecoveryState, HpaRecovery, World, Hpa, ScaledObject, Scan, Event, missing_recorded,
  probed, patched, outcome, deleted, Failure, read_hpa, probe_metric, patch_hpa, state_at,
  current_state, attempt, repair, probe_all, visit, visit_all, check, is_seen, keep_seen, dropped,
  note,
}

abbrev patch_of : Event → ℕ
patch_of (patched k hpa) = 1
patch_of (probed k m) = 0
patch_of (missing_recorded k n) = 0
patch_of (outcome o) = 0
patch_of (deleted k) = 0

-- The patches sent.
abbrev pub patches : List Event → ℕ
patches [] = 0
patches (e ∷ es) = patch_of e + patches es

abbrev refusal_of : Failure → ℕ
refusal_of (patch_hpa k) = 1
refusal_of (read_hpa k) = 0
refusal_of (probe_metric k) = 0

-- The patches that the API server refused.
abbrev pub refusals : List Failure → ℕ
refusals [] = 0
refusals (x ∷ xs) = refusal_of x + refusals xs

patches-append : (xs ys : List Event) → patches (xs ++ ys) ≡ patches xs + patches ys
patches-append [] ys = omega arith
patches-append (x ∷ xs) ys = omega (arith, patches-append xs ys)

refusals-append : (xs ys : List Failure) → refusals (xs ++ ys) ≡ refusals xs + refusals ys
refusals-append [] ys = omega arith
refusals-append (x ∷ xs) ys = omega (arith, refusals-append xs ys)

patches-probe_all :
    (probe : Key → String → Bool) (key : Key) (ms : List String)
    → patches (probe_all probe key ms).0 ≡ 0
unfolding probe_all
patches-probe_all probe key [] = refl
patches-probe_all probe key (m ∷ ms) = ground (arith, patches-probe_all probe key ms)

patches-dropped : (seen : List Key) (m : States) → patches (dropped seen m) ≡ 0
unfolding dropped
patches-dropped seen [] = refl
patches-dropped seen ((k, s) ∷ m) = ground (arith, patches-dropped seen m)

-- Every patch sent was accepted and counted, or refused and reported.
abbrev pub IsAccounted : Scan → Type 0
IsAccounted scan = patches scan.log ≡ scan.requested + refusals scan.failures

module _ (r : HpaRecovery) (world : World) (now : Time) where
  attempt-IsAccounted :
      (key : Key) (hpa : Hpa) (missing : List String) (state : HpaRecoveryState) (scan : Scan)
      → IsAccounted scan
      → IsAccounted (attempt r world now key hpa missing state scan)
  unfolding attempt
  attempt-IsAccounted key hpa missing state scan h =
      grind (arith, patches-append, refusals-append, patches-probe_all world.probe key missing)

  repair-IsAccounted :
      (key : Key) (hpa : Hpa) (missing : List String) (scan : Scan)
      → IsAccounted scan
      → IsAccounted (repair r world now key hpa missing scan)
  unfolding repair
  repair-IsAccounted key hpa [] before h = grind (arith, patches-append)
  repair-IsAccounted key hpa (m ∷ ms) before h =
      let state : HpaRecoveryState = current_state hpa (state_at key before.states) in
      let scan : Scan = record before {
        seen = key ∷ before.seen;
        log = before.log ++ note r.observed (missing_recorded key (length (m ∷ ms)) ∷ []);
      } in
      let noted : IsAccounted scan = grind (arith, patches-append) in
      let step = attempt-IsAccounted key hpa (m ∷ ms) state scan noted in
      elim (Bool-cases (ltb_ℤ now state.next_attempt)) [ inl e ↦ rw e noted | inr e ↦ rw e step ]

  visit-IsAccounted :
      (scan : Scan) (object : ScaledObject)
      → IsAccounted scan
      → IsAccounted (visit r world now scan object)
  visit-IsAccounted scan object h = elim (visit_cases r world now scan object) [
    | inl e ↦ rw e h
    | inr (inl e) ↦
        rw e (omega (arith, h, refusals-append scan.failures (read_hpa object.key ∷ [])))
    | inr (inr (hpa, missing, e)) ↦ rw e (repair-IsAccounted object.key hpa missing scan h)
  ]

  visit_all-IsAccounted :
      (scan : Scan) (objects : List ScaledObject)
      → IsAccounted scan
      → IsAccounted (visit_all r world now scan objects)
  unfolding visit_all
  visit_all-IsAccounted scan [] h = h
  visit_all-IsAccounted scan (object ∷ objects) h =
      visit_all-IsAccounted (visit r world now scan object) objects
        (visit-IsAccounted scan object h)

  -- Over a whole check, the patches sent are the requests counted and the refusals reported.
  pub check-IsAccounted :
      (states : States) (objects : List ScaledObject)
      → IsAccounted (check r world now states objects)
  unfolding check
  check-IsAccounted states objects =
      let start : Scan = record {
        states = states;
        seen = [];
        requested = 0;
        failures = [];
        log = [];
      } in
      let scan : Scan = visit_all r world now start objects in
      let closing : List Event = note r.observed (dropped scan.seen scan.states) in
      let silent : patches closing ≡ 0 = ground (arith, patches-dropped scan.seen scan.states) in
      omega
        (arith, visit_all-IsAccounted start objects refl, patches-append scan.log closing, silent)

abbrev pub AllSeen : List Key → States → Type 0
AllSeen seen [] = Unit
AllSeen seen ((k, s) ∷ m) = (is_seen k seen ≡ true) × AllSeen seen m

keep_seen-AllSeen : (seen : List Key) (m : States) → AllSeen seen (keep_seen seen m)
unfolding keep_seen
keep_seen-AllSeen seen [] = tt
keep_seen-AllSeen seen ((k, s) ∷ m) = elim (Bool-cases (is_seen k seen)) [
  | inl e ↦ rw e (e, keep_seen-AllSeen seen m)
  | inr e ↦ rw e (keep_seen-AllSeen seen m)
]

-- A state outlives a check only if the check has seen its key.
check-AllSeen :
    (r : HpaRecovery) (world : World) (now : Time) (states : States) (objects : List ScaledObject)
    → let scan = check r world now states objects in AllSeen scan.seen scan.states
unfolding check
check-AllSeen r world now states objects = keep_seen-AllSeen _ _
