-- ===== src/Wire/Window/Sweep.antt =====
-- The whole of clearRing, as it changes the bits of a circular bitmap (internal/wire/window.go).
use rendr.Common.{
  ℕ, zero, suc, ◌+◌, ◌-◌, ◌*◌, ◌%◌, ◌^◌, ◌≤◌, ◌<◌, min, ◌≡◌, refl, sym, ap, ◌∙◌, inl, inr, List,
  arith, ltb, ◌==◌, if◌then◌else◌, Bool-cases, ltb→lt, ltb→le, ==-ne, length,
}
use rendr.Wire.Window.{clear_word, clear_rounds, clear_ring}
use native.Mathlib.Decide.{dec_lt}
use rendr.Wire.Window.Ring.{clear_rounds_enough, length-clear_rounds}
use rendr.Wire.Window.Cells.{
  ring, ring-period, ring-clear_word, ring-clear_word_other, length-clear_word,
}

-- The run of clearRing, on any fuel that is enough: the bits that it passes are cleared, and the
-- rest of a width behind them keeps its value.
module _ (m : ℕ) where
  nothing_left : (fuel : ℕ) (bits : List ℕ) (from : ℕ) → clear_rounds fuel bits from 0 ≡ bits
  unfolding clear_rounds
  nothing_left zero bits from = refl
  nothing_left (suc fuel) bits from = refl

  word_step :
      (bits : List ℕ) (from c j : ℕ)
      → length bits ≡ 2 ^ m
      → 1 ≤ c
      → from % 64 + c ≤ 64
      → from ≤ j
      → j < from + 64 * 2 ^ m
      → ring (clear_word bits from c) j ≡ (if ltb j (from + c) then 0 else ring bits j)
  word_step bits from c j len one fits ge lt = elim (Bool-cases (ltb j (from + c))) [
    | inl e ↦ rw e (ring-clear_word m bits len from c j one fits ge (ltb→lt _ _ e))
    | inr e ↦ rw e (ring-clear_word_other m bits len from c j one fits (ltb→le _ _ e) lt)
  ]

  -- What the rounds after the first make of the first round's result `bits`, and the whole of it.
  later_rounds :
      (old bits rest : List ℕ) (from c n j : ℕ)
      → length bits ≡ 2 ^ m
      → length rest ≡ 2 ^ m
      → c < n
      → n ≤ 64 * 2 ^ m
      → from ≤ j
      → j < from + 64 * 2 ^ m
      → (ring bits j ≡ (if ltb j (from + c) then 0 else ring old j))
      → ((i : ℕ)
          → from + c ≤ i
          → i < from + c + 64 * 2 ^ m
          → ring rest i ≡ (if ltb i (from + n) then 0 else ring bits i))
      → ring rest j ≡ (if ltb j (from + n) then 0 else ring old j)
  later_rounds old bits rest from c n j len len_rest less narrow ge lt first ih =
      elim (Bool-cases (ltb j (from + c))) [
        | inl e ↦
            let front : j < from + c = ltb→lt _ _ e in
            let zero_here : ring bits j ≡ 0 = first ∙ rw e refl in
            let around : ring rest (j + 64 * 2 ^ m) ≡ ring bits (j + 64 * 2 ^ m) =
              ih (j + 64 * 2 ^ m) (omega arith) (omega arith) ∙ ground arith in
            sym (ring-period m rest len_rest j)
            ∙ around
            ∙ ring-period m bits len j
            ∙ zero_here
            ∙ ground arith
        | inr e ↦
            let behind : from + c ≤ j = ltb→le _ _ e in
            let same : ring bits j ≡ ring old j = first ∙ rw e refl in
            ih j behind (omega arith) ∙ ap (λ t. if ltb j (from + n) then 0 else t) same
      ]

  rounds_clear :
      (fuel : ℕ) (bits : List ℕ) (from n j : ℕ)
      → length bits ≡ 2 ^ m
      → n ≤ fuel
      → n ≤ 64 * 2 ^ m
      → from + n ≤ 2 ^ 64
      → from ≤ j
      → j < from + 64 * 2 ^ m
      → ring (clear_rounds fuel bits from n) j ≡ (if ltb j (from + n) then 0 else ring bits j)
  unfolding clear_rounds
  rounds_clear zero bits from n j len enough narrow fits ge lt = ground arith
  rounds_clear (suc fuel) bits from n j len enough narrow fits ge lt = elim (Bool-cases (n == 0)) [
    | inl e ↦ rw e (ground arith)
    | inr e ↦
        let some_left : 0 < n = omega (arith, ==-ne n 0 e) in
        let c : ℕ = min (64 - from % 64) n in
        let next : List ℕ = clear_word bits from c in
        let len_next : length next ≡ 2 ^ m = length-clear_word bits from c ∙ len in
        let first = word_step bits from c j len (omega arith) (omega arith) ge lt in
        rw e (elim (dec_lt c n) [
          | no all ↦
              ap (λ t. ring (clear_rounds fuel next ((from + c) % 2 ^ 64) t) j) {x = n - c} {y = 0}
                (omega arith)
              ∙ ap (λ t. ring t j) (nothing_left fuel next ((from + c) % 2 ^ 64))
              ∙ first
              ∙ ap (λ t. if ltb j t then 0 else ring bits j) {x = from + c} {y = from + n}
                  (omega arith)
          | yes more ↦
              later_rounds bits next (clear_rounds fuel next ((from + c) % 2 ^ 64) (n - c)) from c n
                j len_next (length-clear_rounds fuel next ((from + c) % 2 ^ 64) (n - c) ∙ len_next)
                more narrow ge lt first
                (λ i lo hi.
                  ap (λ t. ring (clear_rounds fuel next t (n - c)) i) {x = (from + c) % 2 ^ 64}
                    {y = from + c} (omega arith)
                  ∙ rounds_clear fuel next (from + c) (n - c) i len_next (omega arith) (omega arith)
                      (omega arith) lo hi
                  ∙ ap (λ t. if ltb i t then 0 else ring next i) {x = from + c + (n - c)}
                      {y = from + n} (omega arith))
        ])
  ]

  -- clearRing, for at most a width of bits that does not run past the largest uint64.
  pub ring-clear_ring :
      (bits : List ℕ) (from n j : ℕ)
      → length bits ≡ 2 ^ m
      → n ≤ 64 * 2 ^ m
      → from + n ≤ 2 ^ 64
      → from ≤ j
      → j < from + 64 * 2 ^ m
      → ring (clear_ring bits from n) j ≡ (if ltb j (from + n) then 0 else ring bits j)
  unfolding clear_ring
  ring-clear_ring bits from n j len narrow fits ge lt =
      rounds_clear n bits from n j len (omega arith) narrow fits ge lt

  -- For a bitmap of 2^m words and at most its width of bits to clear, which do not run past the
  -- largest uint64: on any fuel of at least that many rounds, the loop of clearRing has cleared
  -- all those bits, every other bit of a width from the first on has the value it had, and more
  -- rounds change nothing.
  pub clear_rounds_lem :
      (fuel more : ℕ) (bits : List ℕ) (from n j : ℕ)
      → length bits ≡ 2 ^ m
      → n ≤ fuel
      → n ≤ 64 * 2 ^ m
      → from + n ≤ 2 ^ 64
      → from ≤ j
      → j < from + 64 * 2 ^ m
      → (ring (clear_rounds fuel bits from n) j ≡ (if ltb j (from + n) then 0 else ring bits j))
        × (clear_rounds (fuel + more) bits from n ≡ clear_rounds fuel bits from n)
  clear_rounds_lem fuel more bits from n j len enough narrow fits ge lt = (
    rounds_clear fuel bits from n j len enough narrow fits ge lt,
    clear_rounds_enough (fuel + more) n bits from (omega arith)
        ∙ sym (clear_rounds_enough fuel n bits from enough),
  )
