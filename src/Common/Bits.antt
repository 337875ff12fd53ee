-- ===== src/Common/Bits.antt =====
-- Binary digits of the native numbers, and what Go's `&`, `|` and `&^` do to them.
use Prim.Native.Nat.{ℕ, zero, suc, ◌+◌, ◌-◌, ◌*◌, ◌/◌, ◌%◌, ◌^◌, ◌≤◌, ◌<◌, min, max}
use Prim.Native.Nat.{bit_and, bit_or, digits, bit_and-bitwise, bit_or-bitwise}
use mathlib.Core.Path.{◌≡◌, refl, ap}
use native.Mathlib.Nat.{le_refl, pow-suc}
use native.Mathlib.Omega.{arith}
use rendr.Common.Tests.{and_not}

-- The native operations stand for a recursion on digits with fuel; any fuel that suffices will do.
module _ (z : ℕ → ℕ) (f : ℕ → ℕ → ℕ) where
  more_fuel : (n m a b : ℕ) → a ≤ n → a ≤ m → digits z f n a b ≡ digits z f m a b
  more_fuel n m zero b p q = at_zero n m
    where
      at_zero : (n m : ℕ) → digits z f n zero b ≡ digits z f m zero b
      at_zero zero zero = refl
      at_zero zero (suc m) = refl
      at_zero (suc n) zero = refl
      at_zero (suc n) (suc m) = refl
  more_fuel zero m (suc a) b p q = absurd (omega arith)
  more_fuel (suc n) zero (suc a) b p q = absurd (omega arith)
  more_fuel (suc n) (suc m) (suc a) b p q =
      rw (more_fuel n m (suc a / 2) (b / 2) (omega arith) (omega arith))

  lowest_digit :
      (a b : ℕ)
      → digits z f (suc a) (suc a) b
        ≡ digits z f (suc a / 2) (suc a / 2) (b / 2) * 2 + f (suc a % 2) (b % 2)
  lowest_digit a b =
      omega (arith, more_fuel a (suc a / 2) (suc a / 2) (b / 2) (omega arith) (le_refl _))

pub bit_or_digit : (a b : ℕ) → bit_or a b ≡ bit_or (a / 2) (b / 2) * 2 + max (a % 2) (b % 2)
bit_or_digit zero b = simp bit_or-bitwise (omega arith)
bit_or_digit (suc a) b = simp bit_or-bitwise (lowest_digit (λ y. y) max a b)

pub bit_and_digit : (a b : ℕ) → bit_and a b ≡ bit_and (a / 2) (b / 2) * 2 + min (a % 2) (b % 2)
bit_and_digit zero b = simp bit_and-bitwise (omega arith)
bit_and_digit (suc a) b = simp bit_and-bitwise (lowest_digit (λ y. 0) min a b)

-- Binary digit `i`.
unfoldable pub bit : ℕ → ℕ → ℕ
bit a zero = a % 2
bit a (suc i) = bit (a / 2) i

pub bit-le-one : (a i : ℕ) → bit a i ≤ 1
unfolding bit
bit-le-one a zero = omega arith
bit-le-one a (suc i) = bit-le-one (a / 2) i

pub bit-bit_or : (a b i : ℕ) → bit (bit_or a b) i ≡ max (bit a i) (bit b i)
unfolding bit
bit-bit_or a b zero = omega (arith, bit_or_digit a b)
bit-bit_or a b (suc i) = rw (half a b) (bit-bit_or (a / 2) (b / 2) i)
  where
    half : (a b : ℕ) → bit_or a b / 2 ≡ bit_or (a / 2) (b / 2)
    half a b = omega (arith, bit_or_digit a b)

bit_and_half : (a b : ℕ) → bit_and a b / 2 ≡ bit_and (a / 2) (b / 2)
bit_and_half a b = omega (arith, bit_and_digit a b)

bit_and_below : (k a b : ℕ) → a ≤ k → bit_and a b ≤ a
bit_and_below k zero b h = omega (arith, zero_case b)
  where
    zero_case : (b : ℕ) → bit_and 0 b ≡ 0
    zero_case b = bit_and-bitwise 0 b
bit_and_below zero (suc a) b h = absurd (omega arith)
bit_and_below (suc k) (suc a) b h =
    omega (arith, bit_and_digit (suc a) b, bit_and_below k (suc a / 2) (b / 2) (omega arith))

pub bit_and-le : (a b : ℕ) → bit_and a b ≤ a
bit_and-le a b = bit_and_below a a b (le_refl a)

pub bit-and_not : (a b i : ℕ) → bit (and_not a b) i ≡ bit a i - bit b i
unfolding bit
bit-and_not a b zero = omega (arith, bit_and_digit a b, bit_and-le (a / 2) (b / 2))
bit-and_not a b (suc i) = rw (half a b) (bit-and_not (a / 2) (b / 2) i)
  where
    half : (a b : ℕ) → and_not a b / 2 ≡ and_not (a / 2) (b / 2)
    half a b = omega (arith, bit_and_digit a b, bit_and-le (a / 2) (b / 2))

-- A number is decided by its digits, so one with no digit set is 0.
zero_bit_and : (b : ℕ) → bit_and 0 b ≡ 0
zero_bit_and b = bit_and-bitwise 0 b

bit_and_zero_below : (k a : ℕ) → a ≤ k → bit_and a 0 ≡ 0
bit_and_zero_below k zero h = zero_bit_and 0
bit_and_zero_below zero (suc a) h = absurd (omega arith)
bit_and_zero_below (suc k) (suc a) h =
    omega (arith, bit_and_digit (suc a) 0, bit_and_zero_below k (suc a / 2) (omega arith))

pub bit_and-zero : (a : ℕ) → bit_and a 0 ≡ 0
bit_and-zero a = bit_and_zero_below a a (le_refl a)

pub bit_and-one : (a : ℕ) → bit_and a 1 ≡ a % 2
bit_and-one a = omega (arith, bit_and_digit a 1, bit_and-zero (a / 2))

bit_or_zero_below : (k a : ℕ) → a ≤ k → bit_or a 0 ≡ a
bit_or_zero_below k zero h = omega (arith, bit_or-bitwise 0 0)
bit_or_zero_below zero (suc a) h = absurd (omega arith)
bit_or_zero_below (suc k) (suc a) h =
    omega (arith, bit_or_digit (suc a) 0, bit_or_zero_below k (suc a / 2) (omega arith))

pub bit_or-zero : (a : ℕ) → bit_or a 0 ≡ a
bit_or-zero a = bit_or_zero_below a a (le_refl a)

-- Two numbers without a digit in common: `|` adds them.
pub bit_or_disjoint : (k a b : ℕ) → b < 2 ^ k → bit_or (a * 2 ^ k) b ≡ a * 2 ^ k + b
bit_or_disjoint zero a zero h = rw (mul_one a, bit_or-zero a) (omega arith)
  where
    mul_one : (a : ℕ) → a * 2 ^ 0 ≡ a
    mul_one a = omega arith
bit_or_disjoint zero a (suc b) h = absurd (omega arith)
bit_or_disjoint (suc k) a b h = omega (
  arith,
  bit_or_digit (a * 2 ^ suc k) b,
  ap (λ t. bit_or t (b / 2)) (half a k),
  half a k,
  even a k,
  bit_or_disjoint k a (b / 2) (omega (arith, pow-suc 2 k)),
  double a k,
)
  where
    double : (a k : ℕ) → a * 2 ^ suc k ≡ a * 2 ^ k * 2
    double a k = rw (pow-suc 2 k) (omega arith)

    half : (a k : ℕ) → a * 2 ^ suc k / 2 ≡ a * 2 ^ k
    half a k = rw (double a k) (omega arith)

    even : (a k : ℕ) → a * 2 ^ suc k % 2 ≡ 0
    even a k = rw (double a k) (omega arith)

-- The mask of seven digits is a remainder.
pub bit_and-127 : (s : ℕ) → bit_and s 127 ≡ s % 128
bit_and-127 s = omega (
  arith,
  bit_and_digit s 127,
  bit_and_digit (s / 2) 63,
  bit_and_digit (s / 2 / 2) 31,
  bit_and_digit (s / 2 / 2 / 2) 15,
  bit_and_digit (s / 2 / 2 / 2 / 2) 7,
  bit_and_digit (s / 2 / 2 / 2 / 2 / 2) 3,
  bit_and-one (s / 2 / 2 / 2 / 2 / 2 / 2),
)
