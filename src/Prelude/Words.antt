-- ===== src/Prelude/Words.antt =====
-- Go's `int64`, `time.Duration` and `time.Time`. A duration is an int64 count of nanoseconds whose
-- arithmetic wraps. A time is an integer count of nanoseconds since Go's zero time (1 January of
-- year 1), which is what `Truncate` rounds against; `Sub` saturates at the ends of a duration.
use Prim.Native.Nat.{ℕ}
use mathlib.Core.Path.{◌≡◌}
use mathlib.Core.Bool.{Bool}
use native.Mathlib.Omega.{arith}
use keda_replica_sense.Prelude.Tests.{if◌then◌else◌}
use keda_replica_sense.Prelude.Int.{
  ℤ, pos, negsuc, pos_part, sub_ℕ, ◌+ℤ◌, ◌-ℤ◌, ◌*ℤ◌, ◌≤ℤ◌, ltb_ℤ, leb_ℤ, eqb_ℤ, mod_floor,
}

abbrev pub Duration : Type 0
Duration = ℤ

abbrev pub Time : Type 0
Time = ℤ

abbrev pub two_63 : ℕ
two_63 = 9223372036854775808

abbrev pub max_int64 : ℤ
max_int64 = pos 9223372036854775807

abbrev pub min_int64 : ℤ
min_int64 = negsuc 9223372036854775807

-- The value that an int64 holds after an operation whose exact result is `z`.
unfoldable pub wrap64 : ℤ → ℤ
unfolding mod_floor ◌+ℤ◌
wrap64 z = sub_ℕ (mod_floor (z +ℤ pos two_63) 18446744073709551616) two_63

abbrev pub InInt64 : ℤ → Type 0
InInt64 z = (min_int64 ≤ℤ z) × (z ≤ℤ max_int64)

pub wrap64_id : (z : ℤ) → InInt64 z → wrap64 z ≡ z
unfolding wrap64
wrap64_id z h = ground arith

pub wrap64-InInt64 : (z : ℤ) → InInt64 (wrap64 z)
unfolding wrap64
wrap64-InInt64 z = ground arith

-- Duration arithmetic.
unfoldable pub add_dur : Duration → Duration → Duration
add_dur a b = wrap64 (a +ℤ b)

unfoldable pub mul_dur : Duration → Duration → Duration
mul_dur a b = wrap64 (a *ℤ b)

-- `t.Add(d)`, `t.Sub(u)`.
unfoldable pub add_time : Time → Duration → Time
add_time t d = t +ℤ d

unfoldable pub saturate64 : ℤ → ℤ
saturate64 z = if ltb_ℤ max_int64 z then max_int64 else if ltb_ℤ z min_int64 then min_int64 else z

unfoldable pub sub_time : Time → Time → Duration
unfolding saturate64
sub_time t u = saturate64 (t -ℤ u)

-- `t.Truncate(d)`: rounds down to a multiple of `d`, and leaves `t` alone at `d <= 0`.
unfoldable pub truncate : Time → Duration → Time
truncate t d = if leb_ℤ d (pos 0) then t else t -ℤ pos (mod_floor t (pos_part d))

-- `t.IsZero()`.
abbrev pub is_zero_time : Time → Bool
is_zero_time t = eqb_ℤ t (pos 0)

abbrev pub second : Duration
second = pos 1000000000

abbrev pub minute : Duration
minute = pos 60000000000

abbrev pub hour : Duration
hour = pos 3600000000000
