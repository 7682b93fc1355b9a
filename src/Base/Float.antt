-- ===== src/Base/Float.antt =====
-- Go's float64 as its 64-bit IEEE 754 pattern (`math.Float64bits`). The order is computed from the
-- pattern; the rounded arithmetic is hardware, and the modules that use it take it as `FloatOps`.
use momu_llmgateway.Base.Tests.{ltb, Bool-cases, if◌then◌else◌}
use momu_llmgateway.Base.Int.{ℤ, pos, sub_ℕ, ltb_ℤ, leb_ℤ}
use Prim.Native.Nat.{ℕ, ◌%◌}
use mathlib.Core.Path.{◌≡◌, refl}
use mathlib.Core.Logic.{◌⊎◌, inl, inr}
use native.Mathlib.Omega.{arith}
use mathlib.Core.Bool.{Bool, true, false, ◌&&◌}

abbrev pub Float64 : Type 0
Float64 = ℕ

-- The sign bit.
sign_bit : ℕ
sign_bit = 9223372036854775808

-- The exponent bits, all set: the pattern of infinity.
exponent_bits : ℕ
exponent_bits = 9218868437227405312

magnitude : Float64 → ℕ
unfolding sign_bit
magnitude x = x % sign_bit

pub is_nan : Float64 → Bool
unfolding magnitude exponent_bits
is_nan x = ltb exponent_bits (magnitude x)

-- The patterns of one sign are ordered as their magnitudes, and the two zeros are equal.
unfoldable pub order_key : Float64 → ℤ
unfolding magnitude sign_bit
order_key x = if ltb x sign_bit then pos (magnitude x) else sub_ℕ 0 (magnitude x)

-- `x < y` and `x >= y`: false where one of the two is not a number.
unfoldable pub float_lt : Float64 → Float64 → Bool
unfolding is_nan order_key
float_lt x y =
    if is_nan x then false else if is_nan y then false else ltb_ℤ (order_key x) (order_key y)

unfoldable pub float_ge : Float64 → Float64 → Bool
unfolding is_nan order_key
float_ge x y =
    if is_nan x then false else if is_nan y then false else leb_ℤ (order_key y) (order_key x)

-- The arithmetic of float64.
pub record FloatOps : Type 0 where
  pub add : Float64 → Float64 → Float64
  pub mul : Float64 → Float64 → Float64
  pub div : Float64 → Float64 → Float64
  pub sqrt : Float64 → Float64

-- The patterns of 0 and 2.
abbrev pub float_zero : Float64
float_zero = 0

abbrev pub float_two : Float64
float_two = 4611686018427387904

-- `x == y`: false where one of the two is not a number.
unfoldable pub float_eq : Float64 → Float64 → Bool
unfolding float_ge
float_eq x y = float_ge x y && float_ge y x

-- `>=` is transitive, and compares any two numbers.
pub float_ge_trans :
    (x y z : Float64) → float_ge x y ≡ true → float_ge y z ≡ true → float_ge x z ≡ true
unfolding float_ge
float_ge_trans x y z h g = ground (arith, h, g)

pub float_ge_total :
    (x y t : Float64)
    → float_ge x y ≡ false
    → float_ge y t ≡ true
    → float_ge x t ≡ false ⊎ (float_ge y x ≡ true)
unfolding float_ge
float_ge_total x y t h g = elim (Bool-cases (is_nan x)) [
  | inl nan ↦ inl (rw nan refl)
  | inr number ↦ inr (ground (arith, h, g, number))
]

-- What is compared with success is a number, so it is at least itself.
pub float_ge_self : (x y : Float64) → float_ge x y ≡ true → float_ge x x ≡ true
unfolding float_ge
float_ge_self x y h = ground (arith, h)
