-- ===== src/Sampler/Due.antt =====
-- internal/sampler/service.go: the second of each interval at which a workload is sampled. The hash
-- of a workload's id is an argument.
pub mod Seconds
use keda_replica_sense.Prelude.{
  ℕ, zero, suc, ◌%◌, ◌^◌, ℤ, pos, pos_part, ltb_ℤ, leb_ℤ, eqb_ℤ, quot, rem, wrap64, ◌+ℤ◌, ◌-ℤ◌,
  mul_dur, Duration, Bool, true, false, ◌&&◌, ◌||◌, not, if◌then◌else◌,
}

-- `jitterFor`, from the window of the service, the interval and the hash.
unfoldable pub jitter_for : Duration → Duration → ℕ → Duration
jitter_for configured interval hash =
    let window =
      if ltb_ℤ (pos 0) interval && (leb_ℤ configured (pos 0) || ltb_ℤ interval configured)
      then interval
      else configured in
    let seconds = quot window 1000000000 in
    if leb_ℤ window (pos 0)
    then pos 0
    else if ltb_ℤ seconds (pos 1)
    then pos 0
    else mul_dur (pos (hash % pos_part seconds)) (pos 1000000000)

-- `isDue`, at the Unix time `second`.
unfoldable pub is_due : Duration → Duration → ℕ → ℤ → Bool
unfolding jitter_for
is_due configured interval hash second =
    let interval_seconds = quot interval 1000000000 in
    let cycle_start = second -ℤ rem second (pos_part interval_seconds) in
    if leb_ℤ interval (pos 0)
    then false
    else if ltb_ℤ interval_seconds (pos 1)
    then false
    else eqb_ℤ second
        (wrap64 (cycle_start +ℤ quot (jitter_for configured interval hash) 1000000000))
