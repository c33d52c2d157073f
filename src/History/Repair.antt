-- ===== src/History/Repair.antt =====
-- internal/history/repair.go: the repair of a training window. The listings of the store, the answers
-- of the source and of the context, and what the store does with an insertion, are arguments; the
-- last three go by the number of requests made before. Requests and insertions are logged.
pub mod Complete
pub mod Additive
use keda_replica_sense.Prelude.{
  ℕ, zero, suc, ◌+◌, ◌-◌, ◌==◌, ℤ, pos, negsuc, pos_part, ltb, leb, ltb_ℤ, leb_ℤ, eqb_ℤ, quot, rem,
  ◌+ℤ◌, ◌-ℤ◌, mod_floor, Time, Duration, second, truncate, sub_time, add_time, mul_dur, String,
  str_eq, List, [], ◌∷◌, ◌++◌, length, get_or, set, replicate, Bool, true, false, not, ◌&&◌, ◌||◌,
  if◌then◌else◌, Option, none, some, Result, ok, err, Float64,
}
use keda_replica_sense.Domain.{SamplingWorkload}
use keda_replica_sense.Dataset.{Sample, is_demand}
use keda_replica_sense.Sampler.Backfill.{TimedValue, build_sample}
use keda_replica_sense.History.Plan.{Span, plan_for}

pub record Policy : Type 0 where
  pub timeout : Duration
  pub query_timeout : Duration
  pub max_points : ℤ

unfoldable pub default_policy : Policy
default_policy = record {
  timeout = pos 120000000000;
  query_timeout = pos 15000000000;
  max_points = pos 1000000;
}

-- `Validate() == nil`.
unfoldable pub valid_policy : Policy → Bool
valid_policy p = not (
    leb_ℤ p.timeout (pos 0)
    || ltb_ℤ (pos 1800000000000) p.timeout
    || leb_ℤ p.query_timeout (pos 0)
    || ltb_ℤ p.timeout p.query_timeout
    || ltb_ℤ (pos 120000000000) p.query_timeout
    || ltb_ℤ p.max_points (pos 1)
    || ltb_ℤ (pos 2000000) p.max_points)

pub data RepairError : Type 0 where
  bad_policy bad_contract over_budget list_failed bad_observation cancelled : RepairError
  requests_spent query_failed excess_points bad_point duplicate_slot : RepairError
  insert_failed incomplete : RepairError

pub record Report : Type 0 where
  pub start : Time
  pub stop : Time
  pub expected : ℕ
  pub missing_before : ℕ
  pub missing_after : ℕ
  pub inserted : ℤ
  pub requests : ℕ

pub record RangeQuery : Type 0 where
  pub server_address : String
  pub query : String
  pub start : Time
  pub stop : Time
  pub step : Duration

pub data Event (W : Type 0) : Type 0 where
  asked : RangeQuery → Event W
  submitted : List (Sample W) → Event W

-- The answers from outside; `none` is an error.
pub record World (W : Type 0) : Type 0 where
  pub first_listing : Option (List (Sample W))
  pub last_listing : Option (List (Sample W))
  pub is_cancelled : ℕ → Bool
  pub answer : ℕ → Option (List (TimedValue W))
  pub insert : ℕ → List (Sample W) → Option ℤ

-- The report so far, and the log, newest first.
pub record Progress (W : Type 0) : Type 0 where
  pub report : Report
  pub log : List (Event W)

pub data Step (W : Type 0) (A : Type 0) : Type 0 where
  go : Progress W → A → Step W A
  stop : Progress W → RepairError → Step W A

abbrev pub and_then : {W A B : Type 0} → Step W A → (Progress W → A → Step W B) → Step W B
and_then (go p a) k = k p a
and_then (stop p e) k = stop p e

-- `t.Round(d)` at a positive `d`.
unfoldable pub round_time : Time → Duration → Time
round_time t d =
    let r = mod_floor t (pos_part d) in
    if leb_ℤ d (pos 0)
    then t
    else if ltb (r + r) (pos_part d)
    then t -ℤ pos r
    else t +ℤ (d -ℤ pos r)

-- `int(t.Sub(start) / interval)`.
unfoldable pub slot_of : Time → Duration → Time → ℕ
slot_of start interval t = pos_part (quot (sub_time t start) (pos_part interval))

unfoldable pub count_missing : List Bool → ℕ
count_missing [] = 0
count_missing (m ∷ ms) = (if m then 1 else 0) + count_missing ms

-- `seen[slot]`.
unfoldable pub is_seen : ℕ → List ℕ → Bool
is_seen k [] = false
is_seen k (j ∷ js) = j == k || is_seen k js

abbrev pub ninety_days : Duration
ninety_days = pos 7776000000000000

abbrev pub interval_of : {W : Type 0} → SamplingWorkload W → Duration
interval_of w = w.spec.forecast.sampling_interval

abbrev pub or_bad : Option (List Bool) → Result RepairError (List Bool)
or_bad none = err bad_observation
or_bad (some missing) = ok missing

module _ {W : Type 0} where
  abbrev pub note_query : RangeQuery → Progress W → Progress W
  note_query query p = record {
    report = record p.report { requests = suc p.report.requests };
    log = asked query ∷ p.log;
  }

  abbrev pub note_insert : List (Sample W) → ℤ → Progress W → Progress W
  note_insert samples n p = record {
    report = record p.report { inserted = p.report.inserted +ℤ n };
    log = submitted samples ∷ p.log;
  }

  abbrev pub with_after : Progress W → ℕ → Progress W
  with_after p n = record p { report = record p.report { missing_after = n } }

  -- The end of the repair, from what the last listing leaves missing.
  abbrev pub close_repair : Progress W → Result RepairError (List Bool) → Step W (Unit {0})
  close_repair p (err e) = stop (with_after p 0) e
  close_repair p (ok missing) =
      if ltb 0 (count_missing missing)
      then stop (with_after p (count_missing missing)) incomplete
      else go (with_after p (count_missing missing)) tt

  abbrev pub with_missing : Progress W → ℕ → Progress W
  with_missing p n = record p { report = record p.report { missing_before = n; missing_after = n } }

  abbrev pub begin : Time → Time → ℕ → Progress W
  begin start stop_at expected = record {
    report = record {
      start = start;
      stop = stop_at;
      expected = expected;
      missing_before = 0;
      missing_after = 0;
      inserted = pos 0;
      requests = 0;
    };
    log = [];
  }

module _ {W : Type 0} ⦃f : Float64 W⦄ (w : SamplingWorkload W) (start stop_at : Time) where
  unfoldable pub valid_contract : Bool → Bool
  valid_contract configured = not (
      not configured
      || ltb_ℤ (interval_of w) second
      || not (eqb_ℤ (rem (interval_of w) 1000000000) (pos 0))
      || not (ltb_ℤ start stop_at)
      || ltb_ℤ ninety_days (sub_time stop_at start)
      || not (eqb_ℤ (sub_time stop_at start) w.spec.forecast.training_window)
      || not (eqb_ℤ (rem (sub_time stop_at start) (pos_part (interval_of w))) (pos 0))
      || not (eqb_ℤ start (truncate start (interval_of w)))
      || not (eqb_ℤ stop_at (truncate stop_at (interval_of w)))
      || str_eq w.spec.source.query ""
      || str_eq w.spec.source.server_address "")

  abbrev pub slots : ℕ
  slots = slot_of start (interval_of w) stop_at

  -- An observation of the window with finite demand that is not negative.
  abbrev pub is_observation : Sample W → Bool
  is_observation p =
      not (ltb_ℤ p.observed_at start) && ltb_ℤ p.observed_at stop_at && is_demand p.observed_value

  -- The loop of `read` over the stored observations.
  unfoldable pub mark_present : List Bool → List (Sample W) → Option (List Bool)
  mark_present missing [] = some missing
  mark_present missing (p ∷ ps) =
      let rest =
        mark_present (set missing (slot_of start (interval_of w) p.observed_at) false) ps in
      if is_observation p then rest else none

  abbrev pub read_missing : Option (List (Sample W)) → Result RepairError (List Bool)
  read_missing none = err list_failed
  read_missing (some listing) = or_bad (mark_present (replicate slots true) listing)

  unfoldable pub query_for : Span → RangeQuery
  query_for part = record {
    server_address = w.spec.source.server_address;
    query = w.spec.source.query;
    start = add_time start (mul_dur (pos part.first) (interval_of w));
    stop = add_time start (mul_dur (pos part.last) (interval_of w));
    step = interval_of w;
  }

  -- The point of the grid that a value of the source stands for.
  abbrev pub point_of : TimedValue W → Time
  point_of v = round_time v.observed_at (interval_of w)

  unfoldable pub is_point : RangeQuery → TimedValue W → Bool
  is_point query v =
      let delta = sub_time v.observed_at (point_of v) in
      not (ltb_ℤ delta (negsuc 999999))
      && not (ltb_ℤ (pos 1000000) delta)
      && not (ltb_ℤ (point_of v) query.start)
      && not (ltb_ℤ query.stop (point_of v))
      && is_demand v.value

  abbrev pub sample_of : TimedValue W → Sample W
  sample_of v = build_sample w (record { observed_at = point_of v; value = v.value })

  -- The loop over the values of an answer.
  unfoldable pub accept_values :
      List Bool
      → RangeQuery
      → List ℕ
      → List (Sample W)
      → List (TimedValue W)
      → Result RepairError (List (Sample W))
  accept_values missing query seen samples [] = ok samples
  accept_values missing query seen samples (v ∷ vs) =
      let slot = slot_of start (interval_of w) (point_of v) in
      let rest =
        accept_values missing query (slot ∷ seen)
          (if get_or missing slot false then samples ++ sample_of v ∷ [] else samples) vs in
      if not (is_point query v)
      then err bad_point
      else if is_seen slot seen
      then err duplicate_slot
      else rest

  module _ (world : World W) where
    -- The attempts at one request, at most two.
    unfoldable pub try_query : RangeQuery → ℕ → Progress W → Step W (List (TimedValue W))
    try_query query zero p = stop p query_failed
    try_query query (suc left) p =
        let again = try_query query left (note_query query p) in
        let answered : Step W (List (TimedValue W)) = elim (world.answer p.report.requests) [
          | none ↦ again
          | some values ↦ go (note_query query p) values
        ] in
        if world.is_cancelled p.report.requests
        then stop p cancelled
        else if leb 256 p.report.requests
        then stop p requests_spent
        else answered

    abbrev pub insert_samples : Progress W → List (Sample W) → Step W (Unit {0})
    insert_samples p [] = go p tt
    insert_samples p (s ∷ ss) = elim (world.insert p.report.requests (s ∷ ss)) [
      | none ↦ stop (record p { log = submitted (s ∷ ss) ∷ p.log }) insert_failed
      | some n ↦ go (note_insert (s ∷ ss) n p) tt
    ]

    abbrev pub insert_accepted :
        Progress W → Result RepairError (List (Sample W)) → Step W (Unit {0})
    insert_accepted p (err e) = stop p e
    insert_accepted p (ok samples) = insert_samples p samples

    unfoldable pub store_values :
        List Bool → Span → Progress W → List (TimedValue W) → Step W (Unit {0})
    store_values missing part p values =
        if ltb (suc (part.last - part.first)) (length values)
        then stop p excess_points
        else insert_accepted p (accept_values missing (query_for part) [] [] values)

    unfoldable pub repair_part : List Bool → Span → Progress W → Step W (Unit {0})
    repair_part missing part p =
        and_then (try_query (query_for part) 2 p) (store_values missing part)

    unfoldable pub repair_parts : List Bool → List Span → Progress W → Step W (Unit {0})
    repair_parts missing [] p = go p tt
    repair_parts missing (part ∷ parts) p =
        and_then (repair_part missing part p) (λ p' _. repair_parts missing parts p')

    -- The repair once the first listing is read.
    abbrev pub repair_missing : Progress W → Result RepairError (List Bool) → Step W (Unit {0})
    repair_missing p (err e) = stop p e
    repair_missing p (ok missing) =
        if count_missing missing == 0
        then go (with_missing p (count_missing missing)) tt
        else and_then
            (repair_parts missing (plan_for missing) (with_missing p (count_missing missing)))
            (λ p' _. close_repair p' (read_missing world.last_listing))

    unfoldable pub repair : Policy → Bool → Step W (Unit {0})
    unfolding valid_policy valid_contract
    repair policy configured =
        if not (valid_policy policy)
        then stop (begin start stop_at 0) bad_policy
        else if not (valid_contract configured)
        then stop (begin start stop_at 0) bad_contract
        else if ltb_ℤ policy.max_points (pos slots)
        then stop (begin start stop_at slots) over_budget
        else repair_missing (begin start stop_at slots) (read_missing world.first_listing)
