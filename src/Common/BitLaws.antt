-- ===== src/Common/BitLaws.antt =====
-- Digits of shifted, cut and masked numbers.
use Prim.Native.Nat.{ℕ, zero, suc, ◌+◌, ◌-◌, ◌*◌, ◌/◌, ◌%◌, ◌^◌, ◌<◌, bit_and}
use mathlib.Core.Path.{◌≡◌, refl, sym, ap, ◌∙◌}
use native.Mathlib.Nat.{
  pow-suc, pow-succ', div-div-eq-div-mul, mul_assoc, mul_left_comm, mul-add-mod_self_left,
  mod-eq_of_lt, mod-lt, div-add-mod,
}
use native.Mathlib.Omega.{arith}
use rendr.Common.Tests.{ltb, ◌==◌, if◌then◌else◌}
use rendr.Common.Bits.{bit, bit_and_digit, bit_and-zero, bit_and-one}

pub pow_pos : (k : ℕ) → 0 < 2 ^ k
pow_pos zero = omega arith
pow_pos (suc k) = omega (arith, pow-suc 2 k, pow_pos k)

pub zero_bit : (i : ℕ) → bit 0 i ≡ 0
unfolding bit
zero_bit zero = refl
zero_bit (suc i) = zero_bit i

-- The single digit of a power of two.
pub bit-pow : (o i : ℕ) → bit (2 ^ o) i ≡ (if i == o then 1 else 0)
unfolding bit
bit-pow zero zero = refl
bit-pow zero (suc i) = zero_bit i ∙ ground arith
bit-pow (suc o) zero = even o ∙ ground arith
  where
    even : (o : ℕ) → 2 ^ suc o % 2 ≡ 0
    even o = rw (pow-suc 2 o) (omega arith)
bit-pow (suc o) (suc i) = rw (half o) (bit-pow o i ∙ ground arith)
  where
    half : (o : ℕ) → 2 ^ suc o / 2 ≡ 2 ^ o
    half o = rw (pow-suc 2 o) (omega arith)

-- A run of ones.
pub bit-ones : (n i : ℕ) → bit (2 ^ n - 1) i ≡ (if ltb i n then 1 else 0)
unfolding bit
bit-ones zero i = zero_bit i ∙ ground arith
bit-ones (suc n) zero = low n ∙ ground arith
  where
    low : (n : ℕ) → (2 ^ suc n - 1) % 2 ≡ 1
    low n = omega (arith, pow-suc 2 n, pow_pos n)
bit-ones (suc n) (suc i) = ap (λ t. bit t i) (half n) ∙ bit-ones n i ∙ ground arith
  where
    half : (n : ℕ) → (2 ^ suc n - 1) / 2 ≡ 2 ^ n - 1
    half n = omega (arith, pow-suc 2 n, pow_pos n)

-- `x >> s`.
pub bit-shr : (s a i : ℕ) → bit (a / 2 ^ s) i ≡ bit a (s + i)
unfolding bit
bit-shr zero a i =
    ap (λ t. bit t i) {x = a / 2 ^ 0} {y = a} (omega arith)
    ∙ ap (bit a) {x = i} {y = 0 + i} (omega arith)
bit-shr (suc s) a i =
    ap (λ t. bit t i) (halves a s)
    ∙ bit-shr s (a / 2) i
    ∙ ap (λ t. bit a t) {x = suc (s + i)} {y = suc s + i} (omega arith)
  where
    halves : (a s : ℕ) → a / 2 ^ suc s ≡ a / 2 / 2 ^ s
    halves a s = rw (pow-succ' 2 s) (sym (div-div-eq-div-mul a 2 (2 ^ s)))

-- `x << o`, before it is cut to a word.
pub bit-shl : (o a i : ℕ) → bit (a * 2 ^ o) i ≡ (if ltb i o then 0 else bit a (i - o))
unfolding bit
bit-shl zero a i =
    ap (λ t. bit t i) {x = a * 2 ^ 0} {y = a} (omega arith)
    ∙ ap (bit a) {x = i} {y = i - 0} (omega arith)
    ∙ ground arith
bit-shl (suc o) a zero = even a o ∙ ground arith
  where
    even : (a o : ℕ) → a * 2 ^ suc o % 2 ≡ 0
    even a o = rw (pow-suc 2 o) (omega (arith, mul_assoc a (2 ^ o) 2))
bit-shl (suc o) a (suc i) = ap (λ t. bit t i) (half a o) ∙ bit-shl o a i ∙ ground arith
  where
    half : (a o : ℕ) → a * 2 ^ suc o / 2 ≡ a * 2 ^ o
    half a o = rw (pow-suc 2 o) (omega (arith, mul_assoc a (2 ^ o) 2))

-- The remainder by an even number, digit by digit.
pub mod_twice : (a p : ℕ) → 0 < p → a % (2 * p) ≡ 2 * (a / 2 % p) + a % 2
mod_twice a p h =
    ap (λ t. t % (2 * p)) split
    ∙ mul-add-mod_self_left (2 * p) (a / 2 / p) (2 * (a / 2 % p) + a % 2)
    ∙ mod-eq_of_lt (omega (arith, mod-lt (a / 2) h))
  where
    split : a ≡ 2 * p * (a / 2 / p) + (2 * (a / 2 % p) + a % 2)
    split = omega (arith, div-add-mod (a / 2) p, mul_assoc 2 p (a / 2 / p))

-- A number cut to `n` digits.
pub bit-mod : (n a i : ℕ) → i < n → bit (a % 2 ^ n) i ≡ bit a i
unfolding bit
bit-mod zero a i h = absurd (omega arith)
bit-mod (suc n) a zero h = low a n
  where
    low : (a n : ℕ) → a % 2 ^ suc n % 2 ≡ a % 2
    low a n = rw (pow-succ' 2 n, mod_twice a (2 ^ n) (pow_pos n)) (omega arith)
bit-mod (suc n) a (suc i) h = ap (λ t. bit t i) (half a n) ∙ bit-mod n (a / 2) i (omega arith)
  where
    half : (a n : ℕ) → a % 2 ^ suc n / 2 ≡ a / 2 % 2 ^ n
    half a n = rw (pow-succ' 2 n, mod_twice a (2 ^ n) (pow_pos n)) (omega arith)

-- A mask of `n` digits is a remainder.
pub bit_and-mask : (n a : ℕ) → bit_and a (2 ^ n - 1) ≡ a % 2 ^ n
bit_and-mask zero a = bit_and-zero a ∙ omega arith
bit_and-mask (suc n) a =
    rw (pow-succ' 2 n, mod_twice a (2 ^ n) (pow_pos n))
      (omega (
        arith,
        bit_and_digit a (2 * 2 ^ n - 1),
        ap (bit_and (a / 2)) {x = (2 * 2 ^ n - 1) / 2} {y = 2 ^ n - 1} (omega arith),
        bit_and-mask n (a / 2),
        pow_pos n,
      ))

-- A mask of one digit.
pub bit_and-pow : (o a : ℕ) → bit_and a (2 ^ o) ≡ bit a o * 2 ^ o
unfolding bit
bit_and-pow zero a = omega (arith, bit_and-one a)
bit_and-pow (suc o) a = rw (pow-succ' 2 o) (
    omega (
      arith,
      bit_and_digit a (2 * 2 ^ o),
      ap (bit_and (a / 2)) {x = 2 * 2 ^ o / 2} {y = 2 ^ o} (omega arith),
      bit_and-pow o (a / 2),
      mul_left_comm (bit (a / 2) o) 2 (2 ^ o),
    ))
