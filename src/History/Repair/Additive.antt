-- ===== src/History/Repair/Additive.antt =====
-- What a repair asks for and stores, however it ends.
use keda_replica_sense.Prelude.{
  ℕ, zero, suc, ◌+◌, ◌-◌, ◌≤◌, ◌<◌, ◌==◌, ltb, leb, Time, List, [], ◌∷◌, ◌++◌, length, get_elem?,
  get_or, set, replicate, Bool, true, false, not, if◌then◌else◌, Option, some, Result, ok, err,
  Float64, ◌≡◌, ◌≢◌, inl, inr, refl, arith, Option-cases, ap, sym, ◌∙◌, subst, Every, Every-append,
  Every-mono, if_both, length-replicate, ltb_ℤ, pos,
}
use keda_replica_sense.Domain.{SamplingWorkload}
use keda_replica_sense.Dataset.{Sample, Among}
use keda_replica_sense.Sampler.Backfill.{TimedValue, build_sample}
use keda_replica_sense.History.Plan.{Span, max_points, plan_for}
use keda_replica_sense.History.Plan.Covered.{Ascends}
use keda_replica_sense.History.Plan.Shards.{plan_for-covers}
use keda_replica_sense.History.Repair.Complete.{
  mark_present-cons, mark_present-length, read_missing-eq-ok,
}
use keda_replica_sense.History.Repair.{
  RepairError, RangeQuery, Event, asked, submitted, World, Progress, Step, go, stop, and_then,
  slot_of, is_seen, interval_of, slots, point_of, is_point, sample_of, query_for, accept_values,
  note_query, try_query, insert_samples, insert_accepted, store_values, repair_part, repair_parts,
  Policy, repair_missing, read_missing, mark_present, with_missing, begin, repair, close_repair,
  count_missing, valid_policy, valid_contract,
}

-- `P` holds of the progress that a step leaves, whether it goes on or stops.
abbrev pub OnStep : {W A : Type 0} → (Progress W → Type 0) → Step W A → Type 0
OnStep P (go p a) = P p
OnStep P (stop p e) = P p

and_then-OnStep :
    {W A B : Type 0} (P : Progress W → Type 0) (m : Step W A) (k : Progress W → A → Step W B)
    → OnStep P m
    → ((p : Progress W) (a : A) → m ≡ go p a → P p → OnStep P (k p a))
    → OnStep P (and_then m k)
and_then-OnStep P (go p a) k h next = next p a refl h
and_then-OnStep P (stop p e) k h next = h

abbrev OnOk : {E A : Type 0} → (A → Type 0) → Result E A → Type 0
OnOk P (ok a) = P a
OnOk P (err e) = Unit

some_injective {ℓ} : {A : Type ℓ} {a b : A} → Path (Option A) (some a) (some b) → a ≡ b
some_injective h = cc

not-false : {b : Bool} → not b ≡ false → b ≡ true
not-false {b = true} h = refl
not-false {b = false} h = cc

abbrev pub count_asked : {W : Type 0} → List (Event W) → ℕ
count_asked [] = 0
count_asked (asked q ∷ log) = suc (count_asked log)
count_asked (submitted s ∷ log) = count_asked log

module _ {W : Type 0} ⦃f : Float64 W⦄ (w : SamplingWorkload W) (start stop_at : Time) where
  -- The slots of one request, all of them in the window.
  abbrev pub IsPart : ℕ → Span → Type 0
  IsPart high part =
      (part.first ≤ part.last) × (part.last < high) × (part.last < part.first + max_points)

  module _ (world : World W) (missing : List Bool) where
    -- A value of the source at the slot's point of the grid, in a slot that is missing.
    abbrev pub IsRecovered : Sample W → Type 0
    IsRecovered s =
        (v : TimedValue W) × (part : Span) × (n : ℕ) × (values : List (TimedValue W))
        × (world.answer n ≡ some values)
        × Among v values
        × (is_point w start stop_at (query_for w start stop_at part) v ≡ true)
        × (s ≡ sample_of w start stop_at v)
        × (get_or missing (slot_of start (interval_of w) s.observed_at) false ≡ true)

    abbrev pub IsAllowed : Event W → Type 0
    IsAllowed (asked query) =
        (part : Span) × IsPart (length missing) part × (query ≡ query_for w start stop_at part)
    IsAllowed (submitted samples) = Every IsRecovered samples

    abbrev pub IsSound : Progress W → Type 0
    IsSound p =
        (p.report.requests ≤ 256) × (count_asked p.log ≡ p.report.requests) × Every IsAllowed p.log

    accept_values-Every :
        (P : Sample W → Type 0) (query : RangeQuery) (seen : List ℕ) (samples : List (Sample W))
        (vs : List (TimedValue W))
        → ((v : TimedValue W)
            → Among v vs
            → is_point w start stop_at query v ≡ true
            → get_or missing (slot_of start (interval_of w) (point_of w start stop_at v)) false
              ≡ true
            → P (sample_of w start stop_at v))
        → Every P samples
        → OnOk (Every P) (accept_values w start stop_at missing query seen samples vs)
    unfolding accept_values
    accept_values-Every P query seen samples [] each h = h
    accept_values-Every P query seen samples (v ∷ vs) each h =
        let slot = slot_of start (interval_of w) (point_of w start stop_at v) in
        if_both (OnOk (Every P)) (not (is_point w start stop_at query v)) (λ _. tt)
          (λ good.
            if_both (OnOk (Every P)) (is_seen slot seen) (λ _. tt)
              (λ _.
                accept_values-Every P query (slot ∷ seen)
                  (if get_or missing slot false
                    then samples ++ sample_of w start stop_at v ∷ []
                    else samples)
                  vs (λ u m. each u (inr m))
                  (if_both (Every P) (get_or missing slot false)
                    (λ absent.
                      Every-append P samples (sample_of w start stop_at v ∷ []) h
                        (each v (inl refl) (not-false good) absent, tt))
                    (λ _. h))))

    try_query-OnStep :
        (part : Span) (left : ℕ) (p : Progress W)
        → IsPart (length missing) part
        → IsSound p
        → OnStep IsSound (try_query w start stop_at world (query_for w start stop_at part) left p)
    unfolding try_query
    try_query-OnStep part zero p inside s = s
    try_query-OnStep part (suc left) p inside s =
        let query = query_for w start stop_at part in
        if_both (OnStep IsSound) (world.is_cancelled p.report.requests) (λ _. s)
          (λ _.
            if_both (OnStep IsSound) (leb 256 p.report.requests) (λ _. s)
              (λ below. elim (Option-cases (world.answer p.report.requests)) [
                | inl e ↦ rw e (
                    try_query-OnStep part left (note_query query p) inside
                      (ground arith, ap suc s.1, ((part, inside, refl), s.2)))
                | inr (values, e) ↦ rw e (ground arith, ap suc s.1, ((part, inside, refl), s.2))
              ]))

    -- What an attempt returns is an answer of the source.
    abbrev Answers : Step W (List (TimedValue W)) → Type 0
    Answers (go p values) = (n : ℕ) × (world.answer n ≡ some values)
    Answers (stop p e) = Unit

    try_query-Answers :
        (query : RangeQuery) (left : ℕ) (p : Progress W)
        → Answers (try_query w start stop_at world query left p)
    unfolding try_query
    try_query-Answers query zero p = tt
    try_query-Answers query (suc left) p =
        if_both Answers (world.is_cancelled p.report.requests) (λ _. tt)
          (λ _.
            if_both Answers (leb 256 p.report.requests) (λ _. tt)
              (λ below. elim (Option-cases (world.answer p.report.requests)) [
                | inl e ↦ rw e (try_query-Answers query left (note_query query p))
                | inr (values, e) ↦ rw e (p.report.requests, e)
              ]))

    insert_samples-OnStep :
        (p : Progress W) (samples : List (Sample W))
        → IsSound p
        → Every IsRecovered samples
        → OnStep IsSound (insert_samples w start stop_at world p samples)
    insert_samples-OnStep p [] s each = s
    insert_samples-OnStep p (x ∷ xs) s each =
        elim (Option-cases (world.insert p.report.requests (x ∷ xs))) [
          | inl e ↦ rw (e, insert_samples) (s.0, s.1, (each, s.2))
          | inr (n, e) ↦ rw (e, insert_samples) (s.0, s.1, (each, s.2))
        ]

    insert_accepted-OnStep :
        (p : Progress W) (r : Result RepairError (List (Sample W)))
        → IsSound p
        → OnOk (Every IsRecovered) r
        → OnStep IsSound (insert_accepted w start stop_at world p r)
    insert_accepted-OnStep p (err e) s each = s
    insert_accepted-OnStep p (ok samples) s each = insert_samples-OnStep p samples s each

    repair_part-OnStep :
        (part : Span) (p : Progress W)
        → IsPart (length missing) part
        → IsSound p
        → OnStep IsSound (repair_part w start stop_at world missing part p)
    unfolding repair_part store_values build_sample
    repair_part-OnStep part p inside s =
        let query = query_for w start stop_at part in
        and_then-OnStep IsSound (try_query w start stop_at world query 2 p) _
          (try_query-OnStep part 2 p inside s)
          (λ q values e s'.
            let answered : (n : ℕ) × (world.answer n ≡ some values) =
              subst Answers e (try_query-Answers query 2 p) in
            if_both (OnStep IsSound) (ltb (suc (part.last - part.first)) (length values)) (λ _. s')
              (λ _. insert_accepted-OnStep q _ s' (
                accept_values-Every IsRecovered query [] [] values
                  (λ v m good absent.
                    (v, part, answered.0, values, answered.1, m, good, refl, absent))
                  tt)))

    repair_parts-OnStep :
        (low : ℕ) (parts : List Span) (p : Progress W)
        → Ascends max_points low (length missing) parts
        → IsSound p
        → OnStep IsSound (repair_parts w start stop_at world missing parts p)
    unfolding repair_parts
    repair_parts-OnStep low [] p a s = s
    repair_parts-OnStep low (part ∷ parts) p a s =
        and_then-OnStep IsSound (repair_part w start stop_at world missing part p) _
          (repair_part-OnStep part p (a.1, a.2, a.3) s)
          (λ q u e s'. repair_parts-OnStep (suc part.last) parts q a.4 s')

  get_elem?-of_get_or :
      (ms : List Bool) (k : ℕ) → get_or ms k false ≡ true → get_elem? ms k ≡ some true
  get_elem?-of_get_or [] k h = cc
  get_elem?-of_get_or (m ∷ ms) zero h = ap some h
  get_elem?-of_get_or (m ∷ ms) (suc k) h = get_elem?-of_get_or ms k h

  set-absent : (ms : List Bool) (i : ℕ) → get_elem? (set ms i false) i ≢ some true
  set-absent [] i h = cc
  set-absent (m ∷ ms) zero h = cc
  set-absent (m ∷ ms) (suc i) h = set-absent ms i h

  set-keeps :
      (ms : List Bool) (i k : ℕ)
      → get_elem? ms k ≢ some true
      → get_elem? (set ms i false) k ≢ some true
  set-keeps [] i k absent h = absent h
  set-keeps (m ∷ ms) zero zero absent h = cc
  set-keeps (m ∷ ms) zero (suc k) absent h = absent h
  set-keeps (m ∷ ms) (suc i) zero absent h = absent h
  set-keeps (m ∷ ms) (suc i) (suc k) absent h = set-keeps ms i k absent h

  slots_kept :
      (listing : List (Sample W)) (missing : List Bool)
      → mark_present w start stop_at (replicate (slots w start stop_at) true) listing ≡ some missing
      → length missing ≡ slots w start stop_at
  slots_kept listing missing marked =
      let n = slots w start stop_at in
      mark_present-length w start stop_at (replicate n true) listing missing marked
      ∙ length-replicate n true

  -- A slot that is present stays so.
  mark_present-keeps :
      (missing : List Bool) (ps : List (Sample W)) (missing' : List Bool) (k : ℕ)
      → mark_present w start stop_at missing ps ≡ some missing'
      → get_elem? missing k ≢ some true
      → get_elem? missing' k ≢ some true
  mark_present-keeps missing [] missing' k h absent =
      unfold mark_present in subst (λ t. get_elem? t k ≢ some true) (some_injective h) absent
  mark_present-keeps missing (p ∷ ps) missing' k h absent =
      let slot = slot_of start (interval_of w) p.observed_at in
      let (good, rest) = mark_present-cons w start stop_at missing p ps h in
      mark_present-keeps (set missing slot false) ps missing' k rest
        (set-keeps missing slot k absent)

  mark_present-not-Among :
      (missing : List Bool) (ps : List (Sample W)) (missing' : List Bool) (o : Sample W)
      → mark_present w start stop_at missing ps ≡ some missing'
      → Among o ps
      → get_elem? missing' (slot_of start (interval_of w) o.observed_at) ≢ some true
  mark_present-not-Among missing [] missing' o h m = absurd m
  mark_present-not-Among missing (p ∷ ps) missing' o h (inl e) =
      let slot = slot_of start (interval_of w) p.observed_at in
      let (good, rest) = mark_present-cons w start stop_at missing p ps h in
      subst
        (λ (t : Sample W).
          get_elem? missing' (slot_of start (interval_of w) t.observed_at) ≢ some true)
        (sym e)
        (mark_present-keeps (set missing slot false) ps missing' slot rest
          (set-absent missing slot))
  mark_present-not-Among missing (p ∷ ps) missing' o h (inr m) =
      let slot = slot_of start (interval_of w) p.observed_at in
      let (good, rest) = mark_present-cons w start stop_at missing p ps h in
      mark_present-not-Among (set missing slot false) ps missing' o rest m

  module _ (world : World W) where
    -- A sample is the demand that an answer of the source gives within a millisecond of a point of
    -- the requested grid, and no observation of the first listing lies in its slot.
    abbrev pub IsNew : Sample W → Type 0
    IsNew s =
        ((v : TimedValue W) × (part : Span) × (n : ℕ) × (values : List (TimedValue W))
          × (world.answer n ≡ some values)
          × Among v values
          × (is_point w start stop_at (query_for w start stop_at part) v ≡ true)
          × (s ≡ sample_of w start stop_at v))
        × ((listing : List (Sample W)) (o : Sample W)
            → world.first_listing ≡ some listing
            → Among o listing
            → slot_of start (interval_of w) o.observed_at
              ≢ slot_of start (interval_of w) s.observed_at)

    abbrev pub IsLawful : Event W → Type 0
    IsLawful (asked query) =
        (part : Span) × IsPart (slots w start stop_at) part
        × (query ≡ query_for w start stop_at part)
    IsLawful (submitted samples) = Every IsNew samples

    abbrev pub IsAdditive : Progress W → Type 0
    IsAdditive p =
        (p.report.requests ≤ 256) × (count_asked p.log ≡ p.report.requests) × Every IsLawful p.log

    IsAllowed-IsLawful :
        (listing : List (Sample W)) (missing : List Bool)
        → world.first_listing ≡ some listing
        → mark_present w start stop_at (replicate (slots w start stop_at) true) listing
          ≡ some missing
        → (e : Event W) → IsAllowed world missing e
        → IsLawful e
    IsAllowed-IsLawful listing missing given marked (asked query) h =
        (h.0, subst (λ n. IsPart n h.0) (slots_kept listing missing marked) h.1, h.2)
    IsAllowed-IsLawful listing missing given marked (submitted samples) h =
        Every-mono samples
          (λ s (v, part, n, values, answered, m, good, e, absent). (
            (v, part, n, values, answered, m, good, e),
            λ listing' o given' m' same.
                mark_present-not-Among (replicate (slots w start stop_at) true) listing missing o
                  marked (subst (Among o) (some_injective (sym given' ∙ given)) m')
                  (subst (λ k. get_elem? missing k ≡ some true) (sym same)
                    (get_elem?-of_get_or missing _ absent)),
          ))
          h

    OnStep-IsAdditive :
        {A : Type 0} (listing : List (Sample W)) (missing : List Bool) (m : Step W A)
        → world.first_listing ≡ some listing
        → mark_present w start stop_at (replicate (slots w start stop_at) true) listing
          ≡ some missing
        → OnStep (IsSound world missing) m
        → OnStep IsAdditive m
    OnStep-IsAdditive listing missing (go p a) given marked s =
        (s.0, s.1, Every-mono p.log (IsAllowed-IsLawful listing missing given marked) s.2)
    OnStep-IsAdditive listing missing (stop p e) given marked s =
        (s.0, s.1, Every-mono p.log (IsAllowed-IsLawful listing missing given marked) s.2)

    close_repair-OnStep :
        (p : Progress W) (r : Result RepairError (List Bool))
        → IsAdditive p
        → OnStep IsAdditive (close_repair p r)
    close_repair-OnStep p (err e) s = s
    close_repair-OnStep p (ok missing) s =
        if_both (OnStep IsAdditive) (ltb 0 (count_missing missing)) (λ _. s) (λ _. s)

    repair_missing-OnStep :
        (n : ℕ) (r : Result RepairError (List Bool))
        → read_missing w start stop_at world.first_listing ≡ r
        → OnStep IsAdditive (repair_missing w start stop_at world (begin start stop_at n) r)
    repair_missing-OnStep n (err e) given = (omega arith, refl, tt)
    repair_missing-OnStep n (ok missing) given =
        let p = with_missing (begin start stop_at n) (count_missing missing) in
        let (listing, first, marked) =
          read_missing-eq-ok w start stop_at world.first_listing given in
        if_both (OnStep IsAdditive) (count_missing missing == 0) (λ _. (omega arith, refl, tt))
          (λ _.
            and_then-OnStep IsAdditive
              (repair_parts w start stop_at world missing (plan_for missing) p) _
              (OnStep-IsAdditive listing missing _ first marked (
                repair_parts-OnStep world missing 0 (plan_for missing) p (plan_for-covers missing).1
                  (omega arith, refl, tt)))
              (λ q u e s.
                close_repair-OnStep q (read_missing w start stop_at world.last_listing) s))

    -- However a repair ends: it has made at most 256 requests, each for at most ten thousand slots of
    -- the window; and each sample that it has submitted to the store is demand that the source
    -- answered for that point of the grid, within a millisecond, in a slot in which the first listing
    -- has no observation.
    pub repair-IsAdditive :
        (policy : Policy) (configured : Bool)
        → OnStep IsAdditive (repair w start stop_at world policy configured)
    unfolding repair
    repair-IsAdditive policy configured =
        if_both (OnStep IsAdditive) (not (valid_policy policy)) (λ _. (omega arith, refl, tt))
          (λ _.
            if_both (OnStep IsAdditive) (not (valid_contract w start stop_at configured))
              (λ _. (omega arith, refl, tt))
              (λ _.
                if_both (OnStep IsAdditive) (ltb_ℤ policy.max_points (pos (slots w start stop_at)))
                  (λ _. (omega arith, refl, tt))
                  (λ _. repair_missing-OnStep (slots w start stop_at) _ refl)))
