-- ===== src/Sampler/Backfill/Chunks.antt =====
-- Which ranges the backfill asks for, and that it ends.
use keda_replica_sense.Prelude.{
  ℕ, zero, suc, ℤ, pos, pos_part, ltb_ℤ, eqb_ℤ, ◌-ℤ◌, ◌+ℤ◌, ◌≤ℤ◌, ◌<ℤ◌, Time, Duration, add_time,
  List, [], ◌∷◌, ◌++◌, map, true, false, Option-cases, Bool-cases, ◌≡◌, ◌≢◌, ◌⊎◌, refl, inl, inr,
  arith,
}
use keda_replica_sense.Domain.{SamplingWorkload}
use keda_replica_sense.Dataset.{Sample}
use keda_replica_sense.Sampler.Backfill.{
  TimedValue, RangeQuerier, Fetched, exhausted, failed, fetched, Ranges, chunk_end, and_range,
  fetch_from, Filled, no_progress, query_failed, Backfiller, build_sample, chunk_span,
  store_samples, filled_of, query_and_store,
}

-- The ranges run from `start` to `stop`, each from where the one before ends and no wider than a
-- chunk.
abbrev pub Covers : Duration → Time → Time → Ranges → Type 0
Covers span start stop [] = ⊥
Covers span start stop ((a, b) ∷ []) = (a ≡ start) × (b ≡ stop) × (b ≤ℤ (a +ℤ span))
Covers span start stop ((a, b) ∷ r ∷ rs) =
    (a ≡ start) × (b ≤ℤ (a +ℤ span)) × Covers span b stop (r ∷ rs)

-- The step of the loop: a chunk that does not reach the end leaves less to ask for.
next_bound :
    (start stop span : ℤ) (fuel : ℕ)
    → pos 0 <ℤ span
    → (stop -ℤ start) ≤ℤ pos (suc fuel)
    → eqb_ℤ (chunk_end start stop span) stop ≡ false
    → (stop -ℤ chunk_end start stop span) ≤ℤ pos fuel
unfolding ◌-ℤ◌ ◌+ℤ◌ add_time
next_bound start stop span fuel p h e = ground arith

last_chunk :
    (start stop span : ℤ)
    → pos 0 <ℤ span
    → (stop -ℤ start) ≤ℤ pos 0
    → eqb_ℤ (chunk_end start stop span) stop ≡ true
unfolding ◌-ℤ◌ ◌+ℤ◌ add_time
last_chunk start stop span p h = ground arith

chunk_width : (start stop span : ℤ) → pos 0 <ℤ span → chunk_end start stop span ≤ℤ (start +ℤ span)
unfolding ◌-ℤ◌ ◌+ℤ◌ add_time
chunk_width start stop span p = ground arith

chunk_end-le : (start stop span : ℤ) → (stop <ℤ chunk_end start stop span) → ⊥
unfolding ◌+ℤ◌ add_time
chunk_end-le start stop span h = ground arith

eq_of_eqb : (a b : ℤ) → eqb_ℤ a b ≡ true → a ≡ b
eq_of_eqb a b h = ground arith

module _ {W : Type 0} (build : TimedValue W → Sample W) (query : RangeQuerier W) (span : Duration)
    (stop : Time) (positive : pos 0 <ℤ span) where
  -- How a loop from `start` may end: it has asked for ranges that cover the rest, or a query failed.
  abbrev pub Ends : Time → Ranges × Fetched W → Type 0
  Ends start (ranges, exhausted) = ⊥
  Ends start (ranges, failed) = Unit
  Ends start (ranges, fetched samples) = (stop <ℤ start) ⊎ Covers span start stop ranges

  Ends-and_range :
      (start : Time) (r : Ranges × Fetched W)
      → eqb_ℤ (chunk_end start stop span) stop ≡ false
      → Ends (chunk_end start stop span) r
      → Ends start (and_range (start, chunk_end start stop span) r)
  Ends-and_range start (ranges, exhausted) e k = k
  Ends-and_range start (ranges, failed) e k = tt
  Ends-and_range start ([], fetched samples) e k = elim k [
    | inl beyond ↦ absurd (chunk_end-le start stop span beyond)
    | inr hole ↦ absurd hole
  ]
  Ends-and_range start (r ∷ rs, fetched samples) e k = elim k [
    | inl beyond ↦ absurd (chunk_end-le start stop span beyond)
    | inr rest ↦ inr (refl, chunk_width start stop span positive, rest)
  ]

  fetch_from-step :
      (fuel : ℕ) (start : Time) (samples : List (Sample W))
      → (eqb_ℤ (chunk_end start stop span) stop ≡ false
          → (values : List (TimedValue W))
          → Ends (chunk_end start stop span) (
              fetch_from build query span stop fuel
                (chunk_end start stop span)
                (samples ++ map build values)))
      → Ends start (fetch_from build query span stop (suc fuel) start samples)
  unfolding fetch_from
  fetch_from-step fuel start samples rest = elim (Bool-cases (ltb_ℤ stop start)) [
    | inl beyond ↦ rw (beyond, fetch_from) (inl (ground arith))
    | inr within ↦ elim (Option-cases (query start (chunk_end start stop span))) [
      | inl broken ↦ rw (within, broken, fetch_from) tt
      | inr (values, answered) ↦ elim (Bool-cases (eqb_ℤ (chunk_end start stop span) stop)) [
        | inl done ↦
            rw (within, answered, done, fetch_from)
              (inr (refl, eq_of_eqb _ _ done, chunk_width start stop span positive))
        | inr more ↦
            rw (within, answered, more, fetch_from) (Ends-and_range start _ more (rest more values))
      ]
    ]
  ]

  -- With a positive step the loop ends within a round for each nanosecond and one more, and unless a
  -- query fails, the ranges asked for cover the time from `start` to `stop` without a hole, each no
  -- wider than a chunk.
  pub fetch_from-Ends :
      (fuel : ℕ) (start : Time) (samples : List (Sample W))
      → (stop -ℤ start) ≤ℤ pos fuel
      → Ends start (fetch_from build query span stop (suc fuel) start samples)
  fetch_from-Ends zero start samples h =
      fetch_from-step zero start samples
        (λ more values. absurd (cc (more, last_chunk start stop span positive h)))
  fetch_from-Ends (suc fuel) start samples h =
      fetch_from-step (suc fuel) start samples (λ more values.
        fetch_from-Ends fuel (chunk_end start stop span) (samples ++ map build values)
          (next_bound start stop span fuel positive h more))

-- What a whole fetch promises.
pub record IsComplete (span : Duration) (start stop : Time) {W : Type 0} (r : Ranges × Filled W)
    : Type 0 where
  pub progress : r.1 ≢ no_progress
  pub covered : (r.1 ≡ query_failed) ⊎ Covers span start stop r.0

module _ {W : Type 0} (b : Backfiller W) (w : SamplingWorkload W) where
  abbrev span_of : Duration
  span_of = chunk_span w.spec.forecast.sampling_interval

  store_samples-ne : (samples : List (Sample W)) → store_samples b samples ≢ no_progress
  store_samples-ne [] h = cc
  store_samples-ne (s ∷ ss) h = ground arith

  IsComplete-of_Ends :
      (start stop : Time) (p : pos 0 <ℤ span_of) (r : Ranges × Fetched W)
      → start <ℤ stop
      → Ends (build_sample w) b.query_range span_of stop p start r
      → IsComplete span_of start stop (r.0, filled_of b r.1)
  IsComplete-of_Ends start stop p (ranges, exhausted) s e = absurd e
  IsComplete-of_Ends start stop p (ranges, failed) s e = record {
    progress = λ h. cc;
    covered = inl refl;
  }
  IsComplete-of_Ends start stop p (ranges, fetched samples) s e = record {
    progress = store_samples-ne samples;
    covered = elim e [ inl beyond ↦ absurd (ground arith) | inr covers ↦ inr covers ];
  }

  -- Where a chunk spans a positive time, a fetch of a range that is not empty ends, and unless a query
  -- fails, the ranges that it asks for cover the range without a hole, each no wider than a chunk.
  pub query_and_store-IsComplete :
      (start stop : Time)
      → pos 0 <ℤ span_of
      → start <ℤ stop
      → IsComplete span_of start stop (query_and_store b w start stop)
  unfolding query_and_store
  query_and_store-IsComplete start stop p s =
      let ordered : ltb_ℤ start stop ≡ true = ground arith in
      rw (ordered, query_and_store)
        (IsComplete-of_Ends start stop p _ s (
          fetch_from-Ends (build_sample w) b.query_range span_of stop p (pos_part (stop -ℤ start))
            start [] (ground arith)))
