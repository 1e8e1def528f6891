-- ===== src/Prelude/Digits.antt =====
-- The binary digits of bytes, and what the operations on bytes do to them.
use Prim.Native.Nat.{
  ℕ, zero, suc, ◌+◌, ◌*◌, ◌/◌, ◌%◌, ◌^◌, ◌≤◌, ◌<◌, min, max, digits, bit_and, bit_or,
  bit_and-bitwise, bit_or-bitwise,
}
use mathlib.Core.Path.{◌≡◌, refl}
use mathlib.Core.Bool.{Bool, false, not, ◌&&◌, ◌||◌}
use native.Mathlib.Omega.{arith}
use native.Mathlib.Nat.{pow-suc}
use dovecot_ceph_plugin.Prelude.Tests.{◌==◌}

-- Whether the digit at a place, counted from the lowest, is 1.
unfoldable pub has_bit : ℕ → ℕ → Bool
has_bit zero n = n % 2 == 1
has_bit (suc k) n = has_bit k (n / 2)

module _ (z : ℕ → ℕ) (f : ℕ → ℕ → ℕ) where
  -- More rounds than the first number needs change nothing.
  digits_enough : (n m a b : ℕ) → a ≤ n → a ≤ m → digits z f n a b ≡ digits z f m a b
  digits_enough zero zero a b p q = refl
  digits_enough zero (suc m) zero b p q = refl
  digits_enough zero (suc m) (suc a) b p q = absurd (omega arith)
  digits_enough (suc n) zero zero b p q = refl
  digits_enough (suc n) zero (suc a) b p q = absurd (omega arith)
  digits_enough (suc n) (suc m) zero b p q = refl
  digits_enough (suc n) (suc m) (suc a) b p q =
      omega (arith, digits_enough n m (suc a / 2) (b / 2) (omega arith) (omega arith))

and_step : (a b : ℕ) → bit_and a b ≡ bit_and (a / 2) (b / 2) * 2 + min (a % 2) (b % 2)
and_step zero b = omega (arith, bit_and-bitwise 0 b, bit_and-bitwise 0 (b / 2))
and_step (suc a) b = omega (
  arith,
  bit_and-bitwise (suc a) b,
  bit_and-bitwise (suc a / 2) (b / 2),
  digits_enough (λ b. zero) min a (suc a / 2) (suc a / 2) (b / 2) (omega arith) (omega arith),
)

or_step : (a b : ℕ) → bit_or a b ≡ bit_or (a / 2) (b / 2) * 2 + max (a % 2) (b % 2)
or_step zero b = omega (arith, bit_or-bitwise 0 b, bit_or-bitwise 0 (b / 2))
or_step (suc a) b = omega (
  arith,
  bit_or-bitwise (suc a) b,
  bit_or-bitwise (suc a / 2) (b / 2),
  digits_enough (λ b. b) max a (suc a / 2) (suc a / 2) (b / 2) (omega arith) (omega arith),
)

pub has_bit-and : (k a b : ℕ) → has_bit k (bit_and a b) ≡ (has_bit k a && has_bit k b)
unfolding has_bit
has_bit-and zero a b = ground (arith, and_step a b)
has_bit-and (suc k) a b =
    let halves : bit_and a b / 2 ≡ bit_and (a / 2) (b / 2) = omega (arith, and_step a b) in
    rw halves (has_bit-and k (a / 2) (b / 2))

pub has_bit-or : (k a b : ℕ) → has_bit k (bit_or a b) ≡ (has_bit k a || has_bit k b)
unfolding has_bit
has_bit-or zero a b = ground (arith, or_step a b)
has_bit-or (suc k) a b =
    let halves : bit_or a b / 2 ≡ bit_or (a / 2) (b / 2) = omega (arith, or_step a b) in
    rw halves (has_bit-or k (a / 2) (b / 2))

-- Two numbers whose sum is a row of ones have opposite digits in that row.
pub has_bit_opposite : (k m a b : ℕ) → a + b + 1 ≡ 2 ^ m → k < m → has_bit k a ≡ not (has_bit k b)
unfolding has_bit
has_bit_opposite k zero a b e h = absurd (omega arith)
has_bit_opposite zero (suc m) a b e h = ground (arith, pow-suc 2 m)
has_bit_opposite (suc k) (suc m) a b e h =
    has_bit_opposite k m (a / 2) (b / 2) (omega (arith, pow-suc 2 m)) (omega arith)

-- A number below a power of two has no digit from that place on.
pub has_bit_large : (k m a : ℕ) → a < 2 ^ m → m ≤ k → has_bit k a ≡ false
unfolding has_bit
has_bit_large zero zero a h le = ground arith
has_bit_large zero (suc m) a h le = absurd (omega arith)
has_bit_large (suc k) zero a h le = has_bit_large k zero (a / 2) (omega arith) (omega arith)
has_bit_large (suc k) (suc m) a h le =
    has_bit_large k m (a / 2) (omega (arith, pow-suc 2 m)) (omega arith)
