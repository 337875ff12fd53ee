-- ===== src/Wire/Window/Words.antt =====
-- Word and bit positions in a circular bitmap of 64-bit words (internal/wire/window.go).
use rendr.Common.{
  ℕ, zero, suc, ◌+◌, ◌-◌, ◌*◌, ◌/◌, ◌%◌, ◌^◌, ◌≤◌, ◌<◌, ◌≡◌, sym, ap, ◌∙◌, ◌≢◌, ◌⊎◌, inl, inr,
  false, ◌&&◌, arith, ltb, leb, ◌==◌, if◌then◌else◌, eq→==, ne→==, bit, bit-ones, bit-shr, bit-shl,
  bit-mod,
}
use native.Mathlib.Nat.{mod-lt, mod-add-mod, mod-eq_of_lt, mod-eq-sub-mod}
use native.Mathlib.Decide.{dec_lt}

-- Two numbers at most `m` apart with one remainder are equal or `m` apart.
apart_by : (m x e : ℕ) → 0 < m → e ≤ m → (x + e) % m ≡ x % m → (e ≡ 0) ⊎ (e ≡ m)
apart_by m x e p le same = elim (dec_lt (x % m + e) m) [
  | yes small ↦
      let r : (x % m + e) % m ≡ x % m + e = mod-eq_of_lt small in
      inl (omega (arith, mod-add-mod x m e))
  | no large ↦
      let r : (x % m + e) % m ≡ (x % m + e - m) % m = mod-eq-sub-mod (omega arith) in
      elim (dec_lt e m) [
        | yes less ↦
            let s : (x % m + e - m) % m ≡ x % m + e - m =
              mod-eq_of_lt (omega (arith, mod-lt x p)) in
            inl (omega (arith, mod-add-mod x m e))
        | no more ↦ inr (omega arith)
      ]
]

-- The mask of `k` bits from bit `off` on.
pub mask_bit :
    (off k i : ℕ)
    → off + k ≤ 64
    → 1 ≤ k
    → i < 64
    → bit ((2 ^ 64 - 1) / 2 ^ (64 - k) * 2 ^ off % 2 ^ 64) i
      ≡ (if leb off i && ltb i (off + k) then 1 else 0)
mask_bit off k i h one lt =
    bit-mod 64 ((2 ^ 64 - 1) / 2 ^ (64 - k) * 2 ^ off) i lt
    ∙ bit-shl off ((2 ^ 64 - 1) / 2 ^ (64 - k)) i
    ∙ ap (λ t. if ltb i off then 0 else t)
        (bit-shr (64 - k) (2 ^ 64 - 1) (i - off) ∙ bit-ones 64 (64 - k + (i - off)))
    ∙ ground arith

-- Two different numbers less than a width apart whose words agree differ in their last six bits.
pub distinct :
    (m i j : ℕ) → 0 < m → j < i → i < j + 64 * m → i / 64 % m ≡ j / 64 % m → i % 64 ≢ j % 64
distinct m i j p lt near same eq =
    elim (apart_by m (j / 64) (i / 64 - j / 64) p (omega arith) shifted) [
      | inl z ↦ omega arith
      | inr w ↦ omega arith
    ]
  where
    shifted : (j / 64 + (i / 64 - j / 64)) % m ≡ j / 64 % m
    shifted = ap (λ t. t % m) {x = j / 64 + (i / 64 - j / 64)} {y = i / 64} (omega arith) ∙ same

-- Where a number behind a run of `k` bits falls in the same word as the run's start.
pub off_run :
    (m i k j : ℕ)
    → 0 < m
    → i % 64 + k ≤ 64
    → i + k ≤ j
    → j < i + 64 * m
    → i / 64 % m ≡ j / 64 % m
    → (leb (i % 64) (j % 64) && ltb (j % 64) (i % 64 + k)) ≡ false
off_run m i k j p fits after near same =
    elim (apart_by m (i / 64) (j / 64 - i / 64) p (omega arith) shifted) [
      | inl z ↦ let late : i % 64 + k ≤ j % 64 = omega arith in ground arith
      | inr w ↦ let early : j % 64 < i % 64 = omega arith in ground arith
    ]
  where
    shifted : (i / 64 + (j / 64 - i / 64)) % m ≡ i / 64 % m
    shifted = ap (λ t. t % m) {x = i / 64 + (j / 64 - i / 64)} {y = j / 64} (omega arith) ∙ sym same

pub product : (b p : ℕ) → b ≤ 1 → 0 < p → (b * p == 0) ≡ (b == 0)
product zero p h q = eq→== (0 * p) 0 (omega arith)
product (suc zero) p h q = ne→== (1 * p) 0 (omega arith)
product (suc (suc b)) p h q = absurd (omega arith)
