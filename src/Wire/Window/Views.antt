-- ===== src/Wire/Window/Views.antt =====
-- A bitmap as the set of numbers it holds of the width that ends at the newest.
use rendr.Common.{
  ℕ, ◌+◌, ◌*◌, ◌^◌, ◌≤◌, ◌<◌, max, ◌≡◌, refl, sym, ap, ◌∙◌, ◌≢◌, inl, inr, Bool, false, ◌||◌, List,
  [], ◌∷◌, arith, ltb, ◌==◌, if◌then◌else◌, Bool-cases, lt→ltb, le→ltb, ==-eq, ==-ne, ne→==, length,
}
use native.Mathlib.Decide.{dec_lt}
use rendr.Wire.Window.{set_ring}
use rendr.Wire.Window.Cells.{ring, ring-period, ring-set_ring, ring-set_ring_other}

-- The abstract window: the numbers accepted, latest first.
abbrev pub holds : List ℕ → ℕ → Bool
holds [] j = false
holds (x ∷ xs) j = j == x || holds xs j

abbrev pub newest : List ℕ → ℕ
newest [] = 0
newest (x ∷ xs) = max x (newest xs)

-- A set with one number more.
abbrev pub with_one : ℕ → (ℕ → Bool) → ℕ → Bool
with_one i seen j = j == i || seen j

-- Within a width of the newest number the bits are set exactly for the numbers that were seen.
abbrev pub Views : ℕ → List ℕ → ℕ → (ℕ → Bool) → Type 0
Views m bits top seen =
    (j : ℕ) → j ≤ top → top < j + 64 * 2 ^ m → ring bits j ≡ (if seen j then 1 else 0)

-- Nothing beyond the newest number was seen.
abbrev pub Below : ℕ → (ℕ → Bool) → Type 0
Below top seen = (j : ℕ) → top < j → seen j ≡ false

module _ (m : ℕ) (seen : ℕ → Bool) where
  -- The window moves forward by less than a width, over the bits that were cleared.
  pub forward-Views :
      (bits cleared : List ℕ) (top i : ℕ)
      → length bits ≡ 2 ^ m
      → length cleared ≡ 2 ^ m
      → ((j : ℕ)
          → top < j
          → j ≤ top + 64 * 2 ^ m
          → ring cleared j ≡ (if ltb j (i + 1) then 0 else ring bits j))
      → Views m bits top seen
      → Below top seen
      → top < i
      → i < top + 64 * 2 ^ m
      → Views m (set_ring cleared i) i (with_one i seen)
  forward-Views bits cleared top i len len_c clears views below lt near j le in_window =
      elim (Bool-cases (j == i)) [
        | inl e ↦
            rw e (ap (ring (set_ring cleared i)) (==-eq j i e) ∙ ring-set_ring m cleared len_c i)
        | inr e ↦ rw e (
            ring-set_ring_other m cleared len_c i j (λ q. ==-ne j i e (sym q)) in_window
              (omega arith)
            ∙ old (==-ne j i e))
      ]
    where
      old : j ≢ i → ring cleared j ≡ (if seen j then 1 else 0)
      old ne = elim (dec_lt top j) [
        | yes after ↦
            clears j after (omega arith) ∙ rw (lt→ltb j (i + 1) (omega arith), below j after) refl
        | no before ↦
            sym (ring-period m cleared len_c j)
            ∙ clears (j + 64 * 2 ^ m) (omega arith) (omega arith)
            ∙ rw (le→ltb (j + 64 * 2 ^ m) (i + 1) (omega arith)) (ring-period m bits len j)
            ∙ views j (omega arith) (omega arith)
      ]

  -- It starts, or moves forward by a width or more, over an empty bitmap.
  pub far-Views :
      (cleared : List ℕ) (i : ℕ)
      → length cleared ≡ 2 ^ m
      → ((j : ℕ) → ring cleared j ≡ 0)
      → ((j : ℕ) → i < j + 64 * 2 ^ m → seen j ≡ false)
      → Views m (set_ring cleared i) i (with_one i seen)
  far-Views cleared i len_c clears unseen j le in_window = elim (Bool-cases (j == i)) [
    | inl e ↦ rw e (ap (ring (set_ring cleared i)) (==-eq j i e) ∙ ring-set_ring m cleared len_c i)
    | inr e ↦
        rw (e, unseen j in_window)
          (ring-set_ring_other m cleared len_c i j (λ q. ==-ne j i e (sym q)) in_window
              (omega arith)
            ∙ clears j)
  ]

  -- A number inside the window is marked.
  pub inside-Views :
      (bits : List ℕ) (top i : ℕ)
      → length bits ≡ 2 ^ m
      → Views m bits top seen
      → i ≤ top
      → top < i + 64 * 2 ^ m
      → Views m (set_ring bits i) top (with_one i seen)
  inside-Views bits top i len views le_i in_i j le in_window = elim (Bool-cases (j == i)) [
    | inl e ↦ rw e (ap (ring (set_ring bits i)) (==-eq j i e) ∙ ring-set_ring m bits len i)
    | inr e ↦ rw e (
        ring-set_ring_other m bits len i j (λ q. ==-ne j i e (sym q)) (omega arith) (omega arith)
        ∙ views j le in_window)
  ]

  pub forward-Below : (top i : ℕ) → Below top seen → top < i → Below i (with_one i seen)
  forward-Below top i below lt j after = rw (ne→== j i (omega arith)) (below j (omega arith))

  pub inside-Below : (top i : ℕ) → Below top seen → i ≤ top → Below top (with_one i seen)
  inside-Below top i below le j after = rw (ne→== j i (omega arith)) (below j after)
