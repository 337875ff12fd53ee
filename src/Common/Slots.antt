-- ===== src/Common/Slots.antt =====
-- The eight slots of a window and the byte that says which of them are taken.
use Prim.Native.Nat.{ℕ, zero, suc, ◌*◌, ◌^◌, ◌≤◌, ◌<◌, bit_and, bit_or}
use mathlib.Core.Path.{◌≡◌, refl, ap}
use mathlib.Core.Logic.{◌≢◌}
use mathlib.Core.Bool.{Bool, true, false, not}
use mathlib.Core.List.{List, [], ◌∷◌}
use native.Mathlib.Omega.{arith}
use rendr.Common.Tests.{◌==◌, if◌then◌else◌, and_not, ne→==, eq→==}
use rendr.Common.Lists.{length, get_or, set}
use rendr.Common.Bits.{bit, bit-le-one, bit-bit_or, bit-and_not}
use rendr.Common.BitLaws.{pow_pos, zero_bit, bit-pow, bit_and-pow}

module _ {ℓ} {A : Type ℓ} where
  pub length-set : (xs : List A) (i : ℕ) (v : A) → length (set xs i v) ≡ length xs
  length-set [] i v = refl
  length-set (x ∷ xs) zero v = refl
  length-set (x ∷ xs) (suc i) v = ap suc (length-set xs i v)

  pub get_or-set : (xs : List A) (i : ℕ) (v d : A) → i < length xs → get_or (set xs i v) i d ≡ v
  get_or-set [] i v d h = absurd (omega arith)
  get_or-set (x ∷ xs) zero v d h = refl
  get_or-set (x ∷ xs) (suc i) v d h = get_or-set xs i v d (omega arith)

  pub get_or-set_other :
      (xs : List A) (i j : ℕ) (v d : A) → i ≢ j → get_or (set xs i v) j d ≡ get_or xs j d
  get_or-set_other [] i j v d ne = refl
  get_or-set_other (x ∷ xs) zero zero v d ne = absurd (ne refl)
  get_or-set_other (x ∷ xs) zero (suc j) v d ne = refl
  get_or-set_other (x ∷ xs) (suc i) zero v d ne = refl
  get_or-set_other (x ∷ xs) (suc i) (suc j) v d ne =
      get_or-set_other xs i j v d (λ e. ne (ap suc e))

-- `mask & (1 << i) != 0`.
unfoldable pub taken : ℕ → ℕ → Bool
taken mask i = not (bit_and mask (2 ^ i) == 0)

pub taken-bit : (mask i : ℕ) → taken mask i ≡ (bit mask i == 1)
unfolding taken
taken-bit mask i =
    rw (bit_and-pow i mask) (ground (arith, by_cases (bit mask i) (bit-le-one mask i)))
  where
    by_cases : (b : ℕ) → b ≤ 1 → not (b * 2 ^ i == 0) ≡ (b == 1)
    by_cases zero h = rw (eq→== (0 * 2 ^ i) 0 (omega arith)) refl
    by_cases (suc zero) h = rw (ne→== (1 * 2 ^ i) 0 (omega (arith, pow_pos i))) refl
    by_cases (suc (suc b)) h = absurd (omega arith)

-- `mask |= 1 << i` and `mask &^= 1 << i`.
pub taken-bit_or :
    (mask i j : ℕ) → taken (bit_or mask (2 ^ i)) j ≡ (if j == i then true else taken mask j)
taken-bit_or mask i j =
    rw (taken-bit (bit_or mask (2 ^ i)) j, taken-bit mask j, bit-bit_or mask (2 ^ i) j, bit-pow i j)
      (ground (arith, bit-le-one mask j))

pub taken-and_not :
    (mask i j : ℕ) → taken (and_not mask (2 ^ i)) j ≡ (if j == i then false else taken mask j)
taken-and_not mask i j =
    rw
      (
        taken-bit (and_not mask (2 ^ i)) j,
        taken-bit mask j,
        bit-and_not mask (2 ^ i) j,
        bit-pow i j,
      )
      (ground (arith, bit-le-one mask j))

pub taken_none : (j : ℕ) → taken 0 j ≡ false
taken_none j = rw (taken-bit 0 j, zero_bit j) refl
