-- ===== src/Prelude/Billionths.antt =====
-- Numbers in billionths, with `none` for NaN: a `Float64` that runs, on which the laws hold.
use Prim.Native.Nat.{ℕ, zero, suc, ◌≤◌, ◌+◌, ◌*◌, ◌/◌}
use mathlib.Core.Path.{◌≡◌}
use mathlib.Core.Bool.{Bool, true, false}
use mathlib.Core.Option.{Option, none, some}
use native.Mathlib.Omega.{arith}
use keda_replica_sense.Prelude.Tests.{if◌then◌else◌}
use keda_replica_sense.Prelude.Int.{
  ℤ, pos, negsuc, pos_part, neg_part, ◌+ℤ◌, ◌-ℤ◌, ◌*ℤ◌, ltb_ℤ, leb_ℤ, eqb_ℤ, quot, neg,
}
use keda_replica_sense.Prelude.Float.{Float64, IsOrdered, ◌≼◌}

abbrev pub Billionths : Type 0
Billionths = Option ℤ

abbrev on_two : (ℤ → ℤ → ℤ) → Billionths → Billionths → Billionths
on_two g (some a) (some b) = some (g a b)
on_two g _ _ = none

abbrev test_two : (ℤ → ℤ → Bool) → Billionths → Billionths → Bool
test_two g (some a) (some b) = g a b
test_two g _ _ = false

-- Division truncates to a whole billionth; by nought it is NaN.
abbrev div_int : ℤ → ℤ → Billionths
div_int a (pos zero) = none
div_int a b = some (
    if ltb_ℤ b (pos 0)
    then neg (quot (a *ℤ pos 1000000000) (neg_part b))
    else quot (a *ℤ pos 1000000000) (pos_part b))

abbrev div_two : Billionths → Billionths → Billionths
div_two (some a) (some b) = div_int a b
div_two _ _ = none

abbrev floor_to : ℤ → ℤ
floor_to (pos n) = pos (n / 1000000000 * 1000000000)
floor_to (negsuc n) = negsuc (n / 1000000000 * 1000000000 + 999999999)

abbrev on_one : (ℤ → ℤ) → Billionths → Billionths
on_one g (some a) = some (g a)
on_one g none = none

abbrev whole : Billionths → ℤ
whole (some a) = quot a 1000000000
whole none = pos 0

abbrev missing : Billionths → Bool
missing (some a) = false
missing none = true

instance unfoldable pub billionths : Float64 Billionths
unfolding quot ◌*ℤ◌ ◌+ℤ◌ ◌-ℤ◌
billionths = record {
  of_int = λ n. some (n *ℤ pos 1000000000);
  ratio = λ n d. some (pos (n * 1000000000 / d));
  add = on_two ◌+ℤ◌;
  sub = on_two ◌-ℤ◌;
  mul = on_two (λ a b. quot (a *ℤ b) 1000000000);
  div = div_two;
  min = on_two (λ a b. if leb_ℤ a b then a else b);
  max = on_two (λ a b. if leb_ℤ a b then b else a);
  ceil = on_one (λ a. neg (floor_to (neg a)));
  round = on_one (λ a. floor_to (a +ℤ pos 500000000));
  abs = on_one (λ a. if ltb_ℤ a (pos 0) then neg a else a);
  to_int = whole;
  le = test_two leb_ℤ;
  lt = test_two ltb_ℤ;
  eq = test_two eqb_ℤ;
  is_nan = missing;
  is_inf = λ _. false;
}

-- A number given in thousandths.
abbrev pub milli : ℕ → Billionths
milli n = some (pos (n * 1000000))

mul_ge_one : (a m : ℕ) → 1000000000 ≤ m → a ≤ a * m / 1000000000
mul_ge_one a m h = omega (arith, scaled)
  where
    scaled : a * 1000000000 ≤ a * m
    scaled = grind arith

le-mul_ge_one :
    (x m : ℤ)
    → leb_ℤ (pos 0) x ≡ true
    → leb_ℤ (pos 1000000000) m ≡ true
    → leb_ℤ x (quot (x *ℤ m) 1000000000) ≡ true
unfolding quot ◌*ℤ◌
le-mul_ge_one (pos a) (pos m) h k = ground (arith, mul_ge_one a m)
le-mul_ge_one (pos a) (negsuc m) h k = ground arith
le-mul_ge_one (negsuc a) m h k = ground arith

le-mul_ge_one_all :
    (x m : Billionths)
    → billionths.of_int (pos 0) ≼ x
    → billionths.of_int (pos 1) ≼ m
    → x ≼ billionths.mul x m
unfolding billionths
le-mul_ge_one_all (some x) (some m) h k = le-mul_ge_one x m h (ground arith)
le-mul_ge_one_all none m h k = cc
le-mul_ge_one_all (some x) none h k = cc

div_nonneg :
    (x y : Billionths)
    → billionths.of_int (pos 0) ≼ x
    → billionths.lt (billionths.of_int (pos 0)) y ≡ true
    → billionths.of_int (pos 0) ≼ billionths.div x y
unfolding billionths
div_nonneg (some (pos a)) (some (pos zero)) h k = ground arith
div_nonneg (some (pos a)) (some (pos (suc b))) h k = ground arith
div_nonneg x y h k = ground arith

pub Billionths-IsOrdered : IsOrdered Billionths
unfolding billionths
Billionths-IsOrdered = record {
  of_int_number = λ n. ground arith;
  refl_of_le = λ x y h. ground arith;
  le_trans = λ x y z h k. ground arith;
  le_total = λ x y h k. ground arith;
  lt-eq-not-le = λ x y h k. ground arith;
  number_of_lt = λ x y h. ground arith;
  min-le_left = λ x y h k. ground arith;
  min-le_right = λ x y h k. ground arith;
  le-min = λ x y z h k. ground arith;
  le-max_left = λ x y h k. ground arith;
  le-max_right = λ x y h k. ground arith;
  max-le = λ x y z h k. ground arith;
  le-add_nonneg = λ x y h k. ground arith;
  le-mul_ge_one = λ x m h k _. le-mul_ge_one_all x m h k;
  div_nonneg = λ x y h k _. div_nonneg x y h k;
  number_of_add = λ x y h. ground arith;
  number_of_mul = λ x y h. ground arith;
  of_int_pos = λ n. ground arith;
}
