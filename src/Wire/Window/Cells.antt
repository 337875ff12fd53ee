-- ===== src/Wire/Window/Cells.antt =====
-- What clearRing and setRing do to the bits of a circular bitmap (internal/wire/window.go).
use rendr.Common.{
  ℕ, zero, suc, ◌+◌, ◌-◌, ◌*◌, ◌/◌, ◌%◌, ◌^◌, ◌≤◌, ◌<◌, max, bit_and, bit_or, ◌≡◌, refl, sym, ap,
  ap₂, ◌∙◌, ◌≢◌, inl, inr, List, [], ◌∷◌, arith, ◌==◌, if◌then◌else◌, and_not, Bool-cases, ==-eq,
  ==-ne, eq→==, ne→==, bit, bit-le-one, bit-bit_or, bit-and_not, pow_pos, zero_bit, bit-pow,
  bit-ones, bit_and-mask, bit_and-pow, length, get_or, replicate, set,
}
use native.Mathlib.Nat.{mod-lt, add-mod_right}
use rendr.Wire.Window.{word_index, clear_word, set_ring, mark_ring, window_new, window_duplicate}
use native.Mathlib.Decide.{dec_lt}
use rendr.Wire.Window.Words.{distinct, off_run, mask_bit, product}
use rendr.Wire.Window.Ring.{length-set, get-set, get-replicate}

-- Bit `j` of the bitmap, which repeats after its width.
unfoldable pub ring : List ℕ → ℕ → ℕ
ring bits j = bit (get_or bits (word_index bits j) 0) (j % 64)

get-set_other : (xs : List ℕ) (i j v : ℕ) → i ≢ j → get_or (set xs i v) j 0 ≡ get_or xs j 0
get-set_other [] i j v h = refl
get-set_other (x ∷ xs) zero zero v h = absurd (h refl)
get-set_other (x ∷ xs) zero (suc j) v h = refl
get-set_other (x ∷ xs) (suc i) zero v h = refl
get-set_other (x ∷ xs) (suc i) (suc j) v h = get-set_other xs i j v (omega arith)

module _ (m : ℕ) (bits : List ℕ) (n : length bits ≡ 2 ^ m) where
  pub index : (j : ℕ) → word_index bits j ≡ j / 64 % 2 ^ m
  index j = rw n (bit_and-mask m (j / 64))

  index-lt : (j : ℕ) → word_index bits j < length bits
  index-lt j = rw n (rw (bit_and-mask m (j / 64)) (mod-lt (j / 64) (pow_pos m)))

  -- The bitmap with one word changed, read at `j`.
  ring-set :
      (i j v : ℕ)
      → ring (set bits (word_index bits i) v) j
        ≡ (if word_index bits i == word_index bits j then bit v (j % 64) else ring bits j)
  unfolding ring
  ring-set i j v =
      ap (λ t. bit (get_or (set bits (word_index bits i) v) (bit_and (j / 64) (t - 1)) 0) (j % 64))
        (length-set bits (word_index bits i) v)
      ∙ elim (Bool-cases (word_index bits i == word_index bits j)) [
        | inl e ↦ rw e (
            ap (λ t. bit (get_or (set bits (word_index bits i) v) t 0) (j % 64)) (sym (==-eq _ _ e))
            ∙ ap (λ t. bit t (j % 64)) (get-set bits (word_index bits i) v (index-lt i)))
        | inr e ↦ rw e (ap (λ t. bit t (j % 64)) (get-set_other bits _ _ v (==-ne _ _ e)))
      ]

  pub ring-period : (j : ℕ) → ring bits (j + 64 * 2 ^ m) ≡ ring bits j
  unfolding ring
  ring-period j = ap₂ (λ w o. bit (get_or bits w 0) o) same_word same_bit
    where
      same_word : word_index bits (j + 64 * 2 ^ m) ≡ word_index bits j
      same_word =
          index (j + 64 * 2 ^ m)
          ∙ ap (λ t. t % 2 ^ m) {x = (j + 64 * 2 ^ m) / 64} {y = j / 64 + 2 ^ m} (omega arith)
          ∙ add-mod_right (j / 64) (2 ^ m)
          ∙ sym (index j)

      same_bit : (j + 64 * 2 ^ m) % 64 ≡ j % 64
      same_bit = omega arith

  -- setRing sets the bit of its number.
  pub ring-set_ring : (i : ℕ) → ring (set_ring bits i) i ≡ 1
  unfolding ring set_ring
  ring-set_ring i =
      rw
        (
          length-set bits (word_index bits i)
              (bit_or (get_or bits (word_index bits i) 0) (2 ^ (i % 64))),
          get-set bits (word_index bits i)
              (bit_or (get_or bits (word_index bits i) 0) (2 ^ (i % 64))) (index-lt i),
          bit-bit_or (get_or bits (word_index bits i) 0) (2 ^ (i % 64)) (i % 64),
          bit-pow (i % 64) (i % 64),
          eq→== (i % 64) (i % 64) refl,
        )
        (omega (arith, bit-le-one (get_or bits (word_index bits i) 0) (i % 64)))

  same_word_index :
      (i j : ℕ) → word_index bits i ≡ word_index bits j → i / 64 % 2 ^ m ≡ j / 64 % 2 ^ m
  same_word_index i j e = sym (index i) ∙ e ∙ index j

  digits_differ :
      (i j : ℕ)
      → i ≢ j
      → i < j + 64 * 2 ^ m
      → j < i + 64 * 2 ^ m
      → word_index bits i ≡ word_index bits j
      → i % 64 ≢ j % 64
  digits_differ i j ne near far e = elim (dec_lt j i) [
    | yes lt ↦ distinct (2 ^ m) i j (pow_pos m) lt near (same_word_index i j e)
    | no ge ↦ λ q.
        distinct (2 ^ m) j i (pow_pos m) (omega arith) far (sym (same_word_index i j e)) (sym q)
  ]

  -- No other number within a width of it is touched.
  pub ring-set_ring_other :
      (i j : ℕ)
      → i ≢ j
      → i < j + 64 * 2 ^ m
      → j < i + 64 * 2 ^ m
      → ring (set_ring bits i) j ≡ ring bits j
  unfolding set_ring
  ring-set_ring_other i j ne near far = ring-set i j v ∙ rest
    where
      v : ℕ
      v = bit_or (get_or bits (word_index bits i) 0) (2 ^ (i % 64))

      rest :
          (if word_index bits i == word_index bits j then bit v (j % 64) else ring bits j)
          ≡ ring bits j
      rest = elim (Bool-cases (word_index bits i == word_index bits j)) [
        | inl e ↦ rw e (
            bit-bit_or (get_or bits (word_index bits i) 0) (2 ^ (i % 64)) (j % 64)
            ∙ ap₂ max (ap (λ w. bit (get_or bits w 0) (j % 64)) (==-eq _ _ e)) (
                bit-pow (i % 64) (j % 64)
                ∙ ap (λ t. if t then 1 else 0)
                    (ne→== (j % 64) (i % 64)
                      (λ q. digits_differ i j ne near far (==-eq _ _ e) (sym q))))
            ∙ unfold ring in omega arith)
        | inr e ↦ rw e refl
      ]

  -- The mask of one round of clearRing.
  abbrev run_mask : ℕ → ℕ → ℕ
  run_mask i k = (2 ^ 64 - 1) / 2 ^ (64 - k) * 2 ^ (i % 64) % 2 ^ 64

  cleared :
      (i k j : ℕ)
      → ring (clear_word bits i k) j ≡ (
          if word_index bits i == word_index bits j
          then bit (get_or bits (word_index bits i) 0) (j % 64) - bit (run_mask i k) (j % 64)
          else ring bits j)
  unfolding clear_word
  cleared i k j =
      ring-set i j (and_not (get_or bits (word_index bits i) 0) (run_mask i k))
      ∙ ap (λ t. if word_index bits i == word_index bits j then t else ring bits j)
          (bit-and_not (get_or bits (word_index bits i) 0) (run_mask i k) (j % 64))

  -- One round of clearRing clears its run of bits,
  pub ring-clear_word :
      (i k j : ℕ) → 1 ≤ k → i % 64 + k ≤ 64 → i ≤ j → j < i + k → ring (clear_word bits i k) j ≡ 0
  ring-clear_word i k j one fits ge lt =
      cleared i k j
      ∙ rw
          (
            eq→== (word_index bits i) (word_index bits j) here,
            mask_bit (i % 64) k (j % 64) fits one (omega arith),
          )
          (ground (arith, bit-le-one (get_or bits (word_index bits i) 0) (j % 64)))
    where
      here : word_index bits i ≡ word_index bits j
      here = index i ∙ ap (λ t. t % 2 ^ m) {x = i / 64} {y = j / 64} (omega arith) ∙ sym (index j)

  -- and no other within a width from its start.
  pub ring-clear_word_other :
      (i k j : ℕ)
      → 1 ≤ k
      → i % 64 + k ≤ 64
      → i + k ≤ j
      → j < i + 64 * 2 ^ m
      → ring (clear_word bits i k) j ≡ ring bits j
  ring-clear_word_other i k j one fits ge lt =
      cleared i k j ∙ elim (Bool-cases (word_index bits i == word_index bits j)) [
        | inl e ↦ rw e (
            ap (λ t. bit (get_or bits (word_index bits i) 0) (j % 64) - t) (no_mask (==-eq _ _ e))
            ∙ ap (λ w. bit (get_or bits w 0) (j % 64) - 0) (==-eq _ _ e)
            ∙ unfold ring in omega arith)
        | inr e ↦ rw e refl
      ]
    where
      no_mask : word_index bits i ≡ word_index bits j → bit (run_mask i k) (j % 64) ≡ 0
      no_mask e =
          mask_bit (i % 64) k (j % 64) fits one (omega arith)
          ∙ ap (λ t. if t then 1 else 0)
              (off_run (2 ^ m) i k j (pow_pos m) fits ge lt (same_word_index i j e))

get_zeros : (n i : ℕ) → ◌≡◌ {A = ℕ} (get_or (replicate n 0) i 0) 0
get_zeros zero i = refl
get_zeros (suc n) zero = refl
get_zeros (suc n) (suc i) = get_zeros n i

-- In an empty bitmap every bit is 0.
pub ring-zeros : (n j : ℕ) → ring (replicate n 0) j ≡ 0
unfolding ring
ring-zeros n j = rw (get_zeros n (word_index (replicate n 0) j)) (zero_bit (j % 64))

-- In a full bitmap every bit is 1.
pub ring-ones : (j : ℕ) → ring (replicate 128 (2 ^ 64 - 1)) j ≡ 1
unfolding ring
ring-ones j =
    rw
      (get-replicate 128 (word_index (replicate 128 (2 ^ 64 - 1)) j) (2 ^ 64 - 1)
        (index-lt 7 (replicate 128 (2 ^ 64 - 1)) refl j))
      (bit-ones 64 (j % 64) ∙ ground arith)

pub length-clear_word : (bits : List ℕ) (i k : ℕ) → length (clear_word bits i k) ≡ length bits
unfolding clear_word
length-clear_word bits i k = length-set bits (word_index bits i) _

-- markRing answers by the bit of its number.
pub mark_ring-ring :
    (bits : List ℕ) (i : ℕ)
    → mark_ring bits i
      ≡ (if ring bits i == 0 then (window_new, set_ring bits i) else (window_duplicate, bits))
unfolding mark_ring ring
mark_ring-ring bits i =
    rw
      (
        bit_and-pow (i % 64) (get_or bits (word_index bits i) 0),
        product (bit (get_or bits (word_index bits i) 0) (i % 64)) (2 ^ (i % 64))
            (bit-le-one (get_or bits (word_index bits i) 0) (i % 64)) (pow_pos (i % 64)),
      )
      (ground arith)
