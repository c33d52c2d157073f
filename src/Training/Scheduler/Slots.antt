-- ===== src/Training/Scheduler/Slots.antt =====
-- Where the slots and the offsets of the scheduler lie.
use keda_replica_sense.Prelude.{
  ℕ, ◌%◌, ◌*◌, ◌/◌, ◌<◌, pos, negsuc, ◌≤ℤ◌, ◌<ℤ◌, ◌+ℤ◌, ◌*ℤ◌, quot, wrap64, wrap64_id, InInt64,
  mul_dur, add_time, truncate, Time, Duration, ◌≡◌, ◌≢◌, ◌≤◌, arith, ap, ◌∙◌, ◌-ℤ◌,
}
use keda_replica_sense.Training.Scheduler.{offset, immediate_slot, year_2500}

product : (n : ℕ) → (pos n *ℤ pos 1000000000) ≡ pos (n * 1000000000)
unfolding ◌*ℤ◌
product n = ground arith

-- Whole seconds in nanoseconds, where they fit in a duration.
seconds_exact :
    (k d : ℕ)
    → k * 1000000000 ≤ d
    → InInt64 (pos d)
    → mul_dur (pos k) (pos 1000000000) ≡ pos (k * 1000000000)
unfolding mul_dur
seconds_exact k d h b = ap wrap64 (product k) ∙ wrap64_id (pos (k * 1000000000)) (ground arith)

-- At a positive interval that an int64 holds, a workload's offset is not negative and is below the
-- interval.
offset_bounds :
    (hash : ℕ) (interval : Duration)
    → pos 0 <ℤ interval
    → InInt64 interval
    → (pos 0 ≤ℤ offset hash interval) × (offset hash interval <ℤ interval)
unfolding offset quot
offset_bounds hash (pos d) p b =
    let seconds : ℕ = d / 1000000000 in
    ground (arith, seconds_exact (hash % seconds) d, below seconds)
  where
    below : (n : ℕ) → 1 < n → n * 1000000000 ≤ d → hash % n * 1000000000 < d
    below n h k = omega arith
offset_bounds hash (negsuc d) p b = ground arith

-- The slot of an immediate run lies in the hundred years of 365 days after 2500.
immediate_slot_bounds :
    (hash : ℕ)
    → (year_2500 ≤ℤ immediate_slot hash)
      × (immediate_slot hash <ℤ (year_2500 +ℤ pos 3153600000000000000))
unfolding immediate_slot add_time ◌+ℤ◌
immediate_slot_bounds hash = ground (arith, seconds_exact (hash % 3153600000) 3153600000000000000)

-- Before the year 2500 the slot of a schedule is never that of an immediate run.
immediate_slot-ne-truncate :
    (hash : ℕ) (now : Time) (interval : Duration)
    → now <ℤ year_2500
    → truncate now interval ≢ immediate_slot hash
unfolding truncate ◌+ℤ◌ ◌-ℤ◌
immediate_slot-ne-truncate hash now interval h e = ground (arith, immediate_slot_bounds hash)
