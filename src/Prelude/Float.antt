-- ===== src/Prelude/Float.antt =====
-- What the code does with a `float64`. The type and its operations are an interface; the laws that
-- the proofs use are IEEE 754 facts away from NaN. `Billionths` shows that they can be met.
use Prim.Native.Nat.{ℕ, suc}
use mathlib.Core.Path.{◌≡◌}
use mathlib.Core.Logic.{◌⊎◌}
use mathlib.Core.Bool.{Bool, true, not}
use keda_replica_sense.Prelude.Int.{ℤ, pos}

pub record Float64 (W : Type 0) : Type 0 where
  -- `float64(n)`, and a decimal constant n / d of the source.
  pub of_int : ℤ → W
  pub ratio : ℕ → ℕ → W
  pub add : W → W → W
  pub sub : W → W → W
  pub mul : W → W → W
  pub div : W → W → W
  -- `math.Min`, `math.Max`, `math.Ceil`, `math.Round`, `math.Abs`.
  pub min : W → W → W
  pub max : W → W → W
  pub ceil : W → W
  pub round : W → W
  pub abs : W → W
  -- `int(x)`.
  pub to_int : W → ℤ
  pub le : W → W → Bool
  pub lt : W → W → Bool
  pub eq : W → W → Bool
  pub is_nan : W → Bool
  pub is_inf : W → Bool

infix 4 ◌≼◌
abbrev pub ◌≼◌ : {W : Type 0} ⦃f : Float64 W⦄ → W → W → Type 0
◌≼◌ ⦃f⦄ x y = f.le x y ≡ true

-- A value that is not NaN is `<=` itself.
abbrev pub IsNumber : {W : Type 0} ⦃f : Float64 W⦄ → W → Type 0
IsNumber x = x ≼ x

pub record IsOrdered (W : Type 0) ⦃f : Float64 W⦄ : Type 0 where
  pub of_int_number : (n : ℤ) → IsNumber (f.of_int n)
  pub refl_of_le : (x y : W) → x ≼ y → IsNumber x × IsNumber y
  pub le_trans : (x y z : W) → x ≼ y → y ≼ z → x ≼ z
  pub le_total : (x y : W) → IsNumber x → IsNumber y → (x ≼ y) ⊎ (y ≼ x)
  pub lt-eq-not-le : (x y : W) → IsNumber x → IsNumber y → f.lt x y ≡ not (f.le y x)
  pub number_of_lt : (x y : W) → f.lt x y ≡ true → IsNumber x × IsNumber y
  pub min-le_left : (x y : W) → IsNumber x → IsNumber y → f.min x y ≼ x
  pub min-le_right : (x y : W) → IsNumber x → IsNumber y → f.min x y ≼ y
  pub le-min : (x y z : W) → z ≼ x → z ≼ y → z ≼ f.min x y
  pub le-max_left : (x y : W) → IsNumber x → IsNumber y → x ≼ f.max x y
  pub le-max_right : (x y : W) → IsNumber x → IsNumber y → y ≼ f.max x y
  pub max-le : (x y z : W) → x ≼ z → y ≼ z → f.max x y ≼ z
  pub le-add_nonneg : (x y : W) → f.of_int (pos 0) ≼ y → IsNumber (f.add x y) → x ≼ f.add x y
  pub le-mul_ge_one :
      (x m : W) → f.of_int (pos 0) ≼ x → f.of_int (pos 1) ≼ m → IsNumber (f.mul x m) → x ≼ f.mul x m
  pub div_nonneg :
      (x y : W)
      → f.of_int (pos 0) ≼ x
      → f.lt (f.of_int (pos 0)) y ≡ true
      → IsNumber (f.div x y)
      → f.of_int (pos 0) ≼ f.div x y
  pub number_of_add : (x y : W) → IsNumber (f.add x y) → IsNumber x × IsNumber y
  pub number_of_mul : (x y : W) → IsNumber (f.mul x y) → IsNumber x × IsNumber y
  pub of_int_pos : (n : ℕ) → f.lt (f.of_int (pos 0)) (f.of_int (pos (suc n))) ≡ true
