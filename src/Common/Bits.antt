-- ===== src/Common/Bits.antt =====
-- Masks at a variable: a test against the union of two masks.
use Prim.Native.Nat.{
  ℕ, zero, suc, ◌+◌, ◌*◌, ◌/◌, ◌%◌, ◌≤◌, min, max, bit_and, bit_or, digits, bit_and-bitwise,
  bit_or-bitwise,
}
use mathlib.Core.Path.{◌≡◌, refl, ap}
use mathlib.Core.Bool.{◌||◌, not}
use native.Mathlib.Omega.{arith}
use ouge_net_lib.Common.Tests.{◌==◌}

-- The digit recursion does not depend on its fuel, once there is enough.
digits-fuel :
    (z : ℕ → ℕ) (f : ℕ → ℕ → ℕ) (n m a b : ℕ) → a ≤ n → a ≤ m → digits z f n a b ≡ digits z f m a b
digits-fuel z f zero zero a b h g = refl
digits-fuel z f zero (suc m) zero b h g = refl
digits-fuel z f zero (suc m) (suc a) b h g = absurd (omega arith)
digits-fuel z f (suc n) zero zero b h g = refl
digits-fuel z f (suc n) zero (suc a) b h g = absurd (omega arith)
digits-fuel z f (suc n) (suc m) zero b h g = refl
digits-fuel z f (suc n) (suc m) (suc a) b h g =
    omega (arith, digits-fuel z f n m (suc a / 2) (b / 2) (omega arith) (omega arith))

and_zero : (b : ℕ) → bit_and 0 b ≡ 0
and_zero b = bit_and-bitwise 0 b

or_zero : (b : ℕ) → bit_or 0 b ≡ b
or_zero b = bit_or-bitwise 0 b

and-digit : (a b : ℕ) → bit_and a b ≡ bit_and (a / 2) (b / 2) * 2 + min (a % 2) (b % 2)
and-digit zero b = omega (arith, and_zero b, and_zero (b / 2))
and-digit (suc a) b = omega (
  arith,
  bit_and-bitwise (suc a) b,
  bit_and-bitwise (suc a / 2) (b / 2),
  digits-fuel (λ b. zero) min a (suc a / 2) (suc a / 2) (b / 2) (omega arith) (omega arith),
)

or-digit : (a b : ℕ) → bit_or a b ≡ bit_or (a / 2) (b / 2) * 2 + max (a % 2) (b % 2)
or-digit zero b = omega (arith, or_zero b, or_zero (b / 2))
or-digit (suc a) b = omega (
  arith,
  bit_or-bitwise (suc a) b,
  bit_or-bitwise (suc a / 2) (b / 2),
  digits-fuel (λ b. b) max a (suc a / 2) (suc a / 2) (b / 2) (omega arith) (omega arith),
)

half-or : (a b : ℕ) → bit_or a b / 2 ≡ bit_or (a / 2) (b / 2)
half-or a b = omega (arith, or-digit a b)

-- A number meets a union of masks exactly where it meets one of them.
and-or :
    (n ev a b : ℕ)
    → ev ≤ n
    → (bit_and ev (bit_or a b) ≡ 0 → (bit_and ev a ≡ 0) × (bit_and ev b ≡ 0))
      × (bit_and ev a ≡ 0 → bit_and ev b ≡ 0 → bit_and ev (bit_or a b) ≡ 0)
and-or n zero a b h = omega (arith, and_zero a, and_zero b, and_zero (bit_or a b))
and-or zero (suc ev) a b h = absurd (omega arith)
and-or (suc n) (suc ev) a b h =
    let half = suc ev / 2 in
    let (fwd, bwd) = and-or n half (a / 2) (b / 2) (omega arith) in
    let whole = and-digit (suc ev) (bit_or a b) in
    let left = and-digit (suc ev) a in
    let right = and-digit (suc ev) b in
    let shift = ap (bit_and half) (half-or a b) in
    (
      λ z.
          let parts = fwd (omega (arith, whole, shift)) in
          (
            omega (arith, parts.0, z, whole, left, or-digit a b),
            omega (arith, parts.1, z, whole, right, or-digit a b),
          ),
      λ p q.
          let z = bwd (omega (arith, left)) (omega (arith, right)) in
          omega (arith, z, whole, left, right, shift, or-digit a b),
    )

-- The same of the test `ev & (a | b)`.
pub has-or :
    (ev a b : ℕ)
    → not (bit_and ev (bit_or a b) == 0) ≡ (not (bit_and ev a == 0) || not (bit_and ev b == 0))
has-or ev a b = ground (arith, and-or ev ev a b (omega arith))
