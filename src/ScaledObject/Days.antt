-- ===== src/ScaledObject/Days.antt =====
-- `parseReplicaSenseDuration` of internal/scaledobject/parser.go, with the `strconv.ParseInt` that it
-- calls.
use mathlib.Core.Option
use Prim.Native.Char.{code}
use keda_replica_sense.Prelude.{
  ℕ, ◌+◌, ◌-◌, ◌*◌, leb, ◌==◌, ℤ, pos, negsuc, ◌*ℤ◌, sub_ℕ, wrap64, wrap64_id, wrap64-InInt64,
  InInt64, mul_dur, hour, Duration, String, Bool, true, false, ◌&&◌, Option, none, some,
  if◌then◌else◌, ◌≡◌, ◌↔◌, refl, arith, subst, ap,
}
use keda_replica_sense.ScaledObject.Input.{Standard}

unfoldable pub read_digits : String → ℕ → Option ℕ
read_digits String.[] n = some n
read_digits (String.◌∷◌ c s) n =
    let rest = read_digits s (n * 10 + (code c - 48)) in
    if leb 48 (code c) && leb (code c) 57 then rest else none

unfoldable pub read_unsigned : String → Option ℕ
unfolding read_digits
read_unsigned String.[] = none
read_unsigned (String.◌∷◌ c s) = read_digits (String.◌∷◌ c s) 0

-- A magnitude under its sign, where an int64 holds it.
abbrev pub in_range : Bool → ℕ → Option ℤ
in_range negative n =
    if leb n (if negative then 9223372036854775808 else 9223372036854775807)
    then some (if negative then sub_ℕ 0 n else pos n)
    else none

abbrev pub signed : Bool → Option ℕ → Option ℤ
signed negative none = none
signed negative (some n) = in_range negative n

-- `strconv.ParseInt(s, 10, 64)`; `none` is an error.
unfoldable pub parse_int : String → Option ℤ
unfolding read_unsigned
parse_int String.[] = none
parse_int (String.◌∷◌ c s) =
    if code c == 45
    then signed true (read_unsigned s)
    else if code c == 43
    then signed false (read_unsigned s)
    else signed false (read_unsigned (String.◌∷◌ c s))

-- The text before a final `d`.
unfoldable pub strip_day : String → Option String
strip_day String.[] = none
strip_day (String.◌∷◌ c String.[]) = if code c == 100 then some String.[] else none
strip_day (String.◌∷◌ c (String.◌∷◌ d s)) =
    Option.map (λ t. String.◌∷◌ c t) (strip_day (String.◌∷◌ d s))

-- `time.Duration(days) * 24 * time.Hour`.
unfoldable pub days_duration : ℤ → Duration
days_duration days = mul_dur (mul_dur days (pos 24)) hour

abbrev pub or_standard : {W : Type 0} → Standard W → String → Option String → Option Duration
or_standard std raw none = std.parse_duration raw
or_standard std raw (some days) = Option.map days_duration (parse_int days)

unfoldable pub replica_sense_duration : {W : Type 0} → Standard W → String → Option Duration
unfolding parse_int strip_day days_duration
replica_sense_duration std raw = or_standard std raw (strip_day raw)

week :
    {W : Type 0} (std : Standard W) → replica_sense_duration std "7d" ≡ some (pos 604800000000000)
unfolding replica_sense_duration mul_dur wrap64 ◌*ℤ◌
week std = refl

bad_days : {W : Type 0} (std : Standard W) → replica_sense_duration std "1.5d" ≡ none
unfolding replica_sense_duration
bad_days std = refl

abbrev pub day : Duration
day = pos 86400000000000

*ℤ_pos : (n k : ℕ) → pos n *ℤ pos k ≡ pos (n * k)
unfolding ◌*ℤ◌
*ℤ_pos n k = grind arith

*ℤ_negsuc : (n k : ℕ) → negsuc n *ℤ pos (k + 1) ≡ negsuc (n * (k + 1) + k)
unfolding ◌*ℤ◌
*ℤ_negsuc n k = grind arith

days_duration_exact : (days : ℤ) → InInt64 (days *ℤ day) → days_duration days ≡ days *ℤ day
unfolding days_duration mul_dur
days_duration_exact (pos n) h =
    let h' : InInt64 (pos (n * 86400000000000)) = subst InInt64 (*ℤ_pos n 86400000000000) h in
    rw (*ℤ_pos n 24) (
      rw (wrap64_id (pos (n * 24)) (omega arith)) (
        rw (*ℤ_pos (n * 24) 3600000000000, *ℤ_pos n 86400000000000)
          (rw (wrap64_id (pos (n * 24 * 3600000000000)) (omega arith)) (ap pos (omega arith)))))
days_duration_exact (negsuc n) h =
    let h' : InInt64 (negsuc (n * 86400000000000 + 86399999999999)) =
      subst InInt64 (*ℤ_negsuc n 86399999999999) h in
    rw (*ℤ_negsuc n 23) (
      rw (wrap64_id (negsuc (n * 24 + 23)) (omega arith)) (
        rw (*ℤ_negsuc (n * 24 + 23) 3599999999999, *ℤ_negsuc n 86399999999999)
          (rw (wrap64_id (negsuc ((n * 24 + 23) * 3600000000000 + 3599999999999)) (omega arith))
            (ap negsuc (omega arith)))))

days_duration-InInt64 : (days : ℤ) → InInt64 (days_duration days)
unfolding days_duration mul_dur
days_duration-InInt64 days = wrap64-InInt64 _

-- A text of whole days is read as that many times 24 hours exactly when an int64 holds the
-- nanoseconds; otherwise it is read, without an error, as another duration.
pub replica_sense_duration-IsExact :
    {W : Type 0} (std : Standard W) (raw text : String) (days : ℤ)
    → strip_day raw ≡ some text
    → parse_int text ≡ some days
    → (duration : Duration) × (replica_sense_duration std raw ≡ some duration)
      × ((duration ≡ days *ℤ day) ↔ InInt64 (days *ℤ day))
unfolding replica_sense_duration
replica_sense_duration-IsExact std raw text days stripped read = (
  days_duration days,
  rw (stripped, read),
  ((λ e. subst InInt64 e (days_duration-InInt64 days)), days_duration_exact days),
)
