-- ===== src/Sampler/Due/Seconds.antt =====
-- At which seconds a workload is due.
use keda_replica_sense.Prelude.{
  ℕ, ◌%◌, ◌*◌, ◌/◌, ◌+◌, ◌-◌, ◌<◌, ◌≤◌, pos, ltb_ℤ, leb_ℤ, quot, rem, mul_dur, wrap64, wrap64_id,
  InInt64, ◌*ℤ◌, ◌+ℤ◌, ◌-ℤ◌, true, false, ◌≡◌, ◌↔◌, ap, ◌∙◌, arith, eqb_ℤ,
}
use keda_replica_sense.Sampler.Due.{jitter_for, is_due}

-- The delay in seconds at a positive interval of `d` nanoseconds and a window that is no bound.
abbrev pub delay : ℕ → ℕ → ℕ
delay d hash = hash % (d / 1000000000)

product : (n : ℕ) → (pos n *ℤ pos 1000000000) ≡ pos (n * 1000000000)
unfolding ◌*ℤ◌
product n = ground arith

seconds_exact :
    (k d : ℕ)
    → k * 1000000000 ≤ d
    → InInt64 (pos d)
    → mul_dur (pos k) (pos 1000000000) ≡ pos (k * 1000000000)
unfolding mul_dur
seconds_exact k d h b = ap wrap64 (product k) ∙ wrap64_id (pos (k * 1000000000)) (ground arith)

below : (hash n d : ℕ) → 1 ≤ n → n * 1000000000 ≤ d → hash % n * 1000000000 ≤ d
below hash n d h k = omega arith

jitter_exact :
    (d hash : ℕ)
    → 1000000000 ≤ d
    → InInt64 (pos d)
    → jitter_for (pos 0) (pos d) hash ≡ pos (delay d hash * 1000000000)
unfolding jitter_for quot
jitter_exact d hash p b = ground (
  arith,
  seconds_exact (delay d hash) d (below hash (d / 1000000000) d (omega arith) (omega arith)) b,
)

-- The start of the cycle and the delay in it.
cycle_sum :
    (second q j : ℕ) → ((pos second -ℤ pos (second % q)) +ℤ pos j) ≡ pos (second - second % q + j)
unfolding ◌-ℤ◌ ◌+ℤ◌
cycle_sum second q j = ground (arith, mod_le second q)
  where
    mod_le : (m n : ℕ) → m % n ≤ m
    mod_le m n = omega arith

due_second :
    (second q j : ℕ)
    → j < q
    → second % q ≤ second
    → (eqb_ℤ (pos second) (pos (second - second % q + j)) ≡ true) ↔ (second % q ≡ j)
due_second second q j h k = (λ e. ground arith, λ e. ground arith)

-- Without a configured window, and where an int64 holds the interval and the times, a workload
-- whose interval is at least a second is due exactly at the seconds that leave its delay modulo
-- the interval in whole seconds.
pub is_due-delay :
    (d hash second : ℕ)
    → 1000000000 ≤ d
    → InInt64 (pos d)
    → InInt64 (pos (second + d))
    → (is_due (pos 0) (pos d) hash (pos second) ≡ true) ↔ (second % (d / 1000000000) ≡ delay d hash)
unfolding is_due quot rem
is_due-delay d hash second p b c =
    let q : ℕ = d / 1000000000 in
    let small : delay d hash < q = omega arith in
    let quarter : (delay d hash * 1000000000) / 1000000000 ≡ delay d hash = omega arith in
    let inside : wrap64 (pos (second - second % q + delay d hash))
        ≡ pos (second - second % q + delay d hash) =
      wrap64_id _ (ground arith) in
    let positive : ltb_ℤ (pos q) (pos 1) ≡ false = ground arith in
    let some_interval : leb_ℤ (pos d) (pos 0) ≡ false = ground arith in
    rw
      (
        some_interval,
        positive,
        jitter_exact d hash p b,
        quarter,
        cycle_sum second q (delay d hash),
        inside,
        is_due,
      )
      (due_second second q (delay d hash) small (omega arith))
