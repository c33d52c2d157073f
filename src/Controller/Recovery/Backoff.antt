-- ===== src/Controller/Recovery/Backoff.antt =====
-- The exponential backoff of hpa_recovery.go, and that it is the capped power of two.
use Prim.Native.Nat.{min, max}
use native.Mathlib.Nat.{pow-suc}
use keda_replica_sense.Prelude.{
  ℕ, zero, suc, ◌-◌, ◌*◌, ◌/◌, ◌^◌, ◌≤◌, ◌<◌, pos, ltb_ℤ, ◌≤ℤ◌, quot, Duration, mul_dur, ◌≡◌,
  if◌then◌else◌, arith, wrap64_id, ◌*ℤ◌,
}

abbrev pub default_interval : Duration
default_interval = pos 30000000000

abbrev pub five_minutes : Duration
five_minutes = pos 300000000000

-- `r.interval()`.
unfoldable pub scan_interval : Duration → Duration
scan_interval interval = if ltb_ℤ (pos 0) interval then interval else default_interval

-- The loop of `backoff`, over the rounds left.
unfoldable pub double_up : ℕ → Duration → Duration → Duration
double_up zero delay maximum = delay
double_up (suc rounds) delay maximum =
    let rest = double_up rounds (mul_dur delay (pos 2)) maximum in
    if ltb_ℤ delay maximum then (if ltb_ℤ (quot maximum 2) delay then maximum else rest) else delay

unfoldable pub backoff : Duration → ℕ → Duration
unfolding scan_interval
backoff interval attempt =
    let delay = scan_interval interval in
    let maximum = if ltb_ℤ five_minutes delay then delay else five_minutes in
    double_up (attempt - 1) delay maximum

pow_pos : (n : ℕ) → 0 < 2 ^ n
pow_pos zero = omega arith
pow_pos (suc n) = rw (pow-suc 2 n) (omega (arith, pow_pos n))

double_exact :
    (d m : ℕ) → m < 9223372036854775808 → d ≤ m / 2 → mul_dur (pos d) (pos 2) ≡ pos (d * 2)
unfolding mul_dur ◌*ℤ◌
double_exact d m h k =
    let exact : pos d *ℤ pos 2 ≡ pos (d * 2) = ground arith in
    rw exact (wrap64_id (pos (d * 2)) (omega arith))

product_above : (d p : ℕ) → 0 < p → d ≤ d * p
product_above d p h = grind arith

-- The loop doubles the delay until it would pass the maximum.
double_up-eq-min :
    (rounds d m : ℕ)
    → 0 < d
    → d ≤ m
    → m < 9223372036854775808
    → double_up rounds (pos d) (pos m) ≡ pos (min (d * 2 ^ rounds) m)
unfolding double_up quot
double_up-eq-min zero d m p h b = ground arith
double_up-eq-min (suc rounds) d m p h b =
    let power : d * 2 ^ suc rounds ≡ d * 2 * 2 ^ rounds = rw (pow-suc 2 rounds) (grind arith) in
    ground (
      arith,
      power,
      pow_pos rounds,
      double_exact d m b,
      double_up-eq-min rounds (d * 2) m,
      product_above (d * 2) (2 ^ rounds) (pow_pos rounds),
    )

-- The longest wait: five minutes, or the scan interval where that is longer.
abbrev pub longest : ℕ → ℕ
longest interval = max 300000000000 interval

-- At a positive interval that an int64 holds, the wait after the n-th attempt is the interval
-- doubled n - 1 times, cut at five minutes or at the interval where that is longer, so that the
-- doubling never overflows.
pub backoff-eq-min :
    (interval attempt : ℕ)
    → 0 < interval
    → interval < 9223372036854775808
    → backoff (pos interval) attempt ≡ pos (min (interval * 2 ^ (attempt - 1)) (longest interval))
unfolding backoff
backoff-eq-min interval attempt p b =
    ground (arith, double_up-eq-min (attempt - 1) interval (longest interval))

pub interval-le-backoff :
    (interval attempt : ℕ)
    → 0 < interval
    → interval < 9223372036854775808
    → pos interval ≤ℤ backoff (pos interval) attempt
interval-le-backoff interval attempt p b =
    rw (backoff-eq-min interval attempt p b)
      (omega (arith, product_above interval (2 ^ (attempt - 1)) (pow_pos (attempt - 1))))
