-- ===== src/Wire/Window/Ring.antt =====
-- The circular bitmap of the anti-replay window (clearRing, setRing and markRing of
-- internal/wire/window.go).
use rendr.Common.{
  ℕ, zero, suc, ◌+◌, ◌-◌, ◌/◌, ◌%◌, ◌^◌, ◌≤◌, ◌<◌, min, bit_and, bit_or, ◌≡◌, refl, sym, ap, ◌∙◌,
  ◌≢◌, inl, inr, false, List, [], ◌∷◌, arith, ◌==◌, Bool-cases, ==-ne, eq→==, ne→==, bit_and_digit,
  bit, bit-le-one, bit-bit_or, bit_and-127, zero_bit, bit-pow, bit-ones, length, get_or, replicate,
  set,
}
use rendr.Wire.Window.{
  window_duplicate, word_index, clear_word, clear_rounds, clear_ring, set_ring, mark_ring,
}

enough :
    (fuel more n : ℕ) (bits : List ℕ) (from : ℕ)
    → n ≤ fuel
    → n ≤ more
    → clear_rounds fuel bits from n ≡ clear_rounds more bits from n
unfolding clear_rounds
enough zero zero n bits from h k = refl
enough zero (suc more) n bits from h k = rw (eq→== n 0 (omega arith)) refl
enough (suc fuel) zero n bits from h k = rw (eq→== n 0 (omega arith)) refl
enough (suc fuel) (suc more) n bits from h k = elim (Bool-cases (n == 0)) [
  | inl e ↦ rw e refl
  | inr e ↦
      let c = min (64 - from % 64) n in
      rw e (
        enough fuel more (n - c) (clear_word bits from c) ((from + c) % 2 ^ 64) (progress fuel e h)
          (progress more e k))
]
  where
    progress : (m : ℕ) → (n == 0) ≡ false → n ≤ suc m → n - min (64 - from % 64) n ≤ m
    progress m e h = omega (arith, ==-ne n 0 e)

-- With at least as many rounds as there are bits to clear, the fuel makes no difference.
pub clear_rounds_enough :
    (fuel n : ℕ) (bits : List ℕ) (from : ℕ)
    → n ≤ fuel
    → clear_rounds fuel bits from n ≡ clear_ring bits from n
unfolding clear_ring
clear_rounds_enough fuel n bits from h = enough fuel n n bits from h (omega arith)

pub length-set : (xs : List ℕ) (i v : ℕ) → length (set xs i v) ≡ length xs
length-set [] i v = refl
length-set (x ∷ xs) zero v = refl
length-set (x ∷ xs) (suc i) v = ap (λ t. suc t) (length-set xs i v)

pub get-set : (xs : List ℕ) (i v : ℕ) → i < length xs → get_or (set xs i v) i 0 ≡ v
get-set [] i v h = absurd (omega arith)
get-set (x ∷ xs) zero v h = refl
get-set (x ∷ xs) (suc i) v h = get-set xs i v (omega arith)

bit-bit_and : (a b i : ℕ) → bit (bit_and a b) i ≡ min (bit a i) (bit b i)
unfolding bit
bit-bit_and a b zero = omega (arith, bit_and_digit a b)
bit-bit_and a b (suc i) =
    ap (λ t. bit t i) {x = bit_and a b / 2} {y = bit_and (a / 2) (b / 2)}
      (omega (arith, bit_and_digit a b))
    ∙ bit-bit_and (a / 2) (b / 2) i

-- A word in which digit `o` is set meets the mask of that digit.
meets : (a o : ℕ) → bit a o ≡ 1 → bit_and a (2 ^ o) ≢ 0
meets a o h e = absurd (omega (arith, one, sym zero_there))
  where
    one : bit (bit_and a (2 ^ o)) o ≡ 1
    one = rw (bit-bit_and a (2 ^ o) o, h, bit-pow o o) (ground arith)

    zero_there : bit (bit_and a (2 ^ o)) o ≡ 0
    zero_there = rw e (zero_bit o)

pub length-clear_rounds :
    (fuel : ℕ) (bits : List ℕ) (from n : ℕ) → length (clear_rounds fuel bits from n) ≡ length bits
unfolding clear_rounds clear_word
length-clear_rounds zero bits from n = refl
length-clear_rounds (suc fuel) bits from n = elim (Bool-cases (n == 0)) [
  | inl e ↦ rw e refl
  | inr e ↦ rw e (length-clear_rounds fuel _ _ _ ∙ length-set bits (word_index bits from) _)
]

pub length-clear_ring : (bits : List ℕ) (from n : ℕ) → length (clear_ring bits from n) ≡ length bits
unfolding clear_ring
length-clear_ring bits from n = length-clear_rounds n bits from n

pub length-set_ring : (bits : List ℕ) (i : ℕ) → length (set_ring bits i) ≡ length bits
unfolding set_ring
length-set_ring bits i = length-set bits (word_index bits i) _

module _ (bits : List ℕ) (n : length bits ≡ 128) (f : ℕ) where
  pub index-lt : word_index bits f < length bits
  index-lt = rw n (rw (bit_and-127 (f / 64)) (omega arith))

  -- A frame whose bit was set is a duplicate.
  pub mark_ring-set_ring : mark_ring (set_ring bits f) f ≡ (window_duplicate, set_ring bits f)
  unfolding mark_ring set_ring
  mark_ring-set_ring =
      rw
        (
          length-set bits (word_index bits f)
              (bit_or (get_or bits (word_index bits f) 0) (2 ^ (f % 64))),
          get-set bits (word_index bits f)
              (bit_or (get_or bits (word_index bits f) 0) (2 ^ (f % 64))) index-lt,
          ne→== _ 0
              (meets (bit_or (get_or bits (word_index bits f) 0) (2 ^ (f % 64))) (f % 64) set_bit),
        )
        refl
    where
      set_bit : bit (bit_or (get_or bits (word_index bits f) 0) (2 ^ (f % 64))) (f % 64) ≡ 1
      set_bit =
          rw
            (
              bit-bit_or (get_or bits (word_index bits f) 0) (2 ^ (f % 64)) (f % 64),
              bit-pow (f % 64) (f % 64),
              eq→== (f % 64) (f % 64) refl,
            )
            (omega (arith, bit-le-one (get_or bits (word_index bits f) 0) (f % 64)))

pub get-replicate : (n i v : ℕ) → i < n → get_or (replicate n v) i 0 ≡ v
get-replicate zero i v h = absurd (omega arith)
get-replicate (suc n) zero v h = refl
get-replicate (suc n) (suc i) v h = get-replicate n i v (omega arith)

-- Every bit of the first window is set.
pub mark_ring-ones :
    (f : ℕ)
    → mark_ring (replicate 128 (2 ^ 64 - 1)) f ≡ (window_duplicate, replicate 128 (2 ^ 64 - 1))
unfolding mark_ring
mark_ring-ones f =
    rw
      (
        get-replicate 128 (word_index (replicate 128 (2 ^ 64 - 1)) f) (2 ^ 64 - 1)
            (index-lt (replicate 128 (2 ^ 64 - 1)) refl f),
        ne→== _ 0 (meets (2 ^ 64 - 1) (f % 64) (bit-ones 64 (f % 64) ∙ ground arith)),
      )
      refl
