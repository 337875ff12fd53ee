-- ===== src/Carrier/Receiver/Order/Moves.antt =====
-- The moves of the receiver, each with the invariant it keeps.
use rendr.Common.{
  ℕ, ◌+◌, ◌-◌, ◌%◌, ◌^◌, ◌≤◌, ◌<◌, bit_or, ◌≡◌, refl, sym, ap, ◌∙◌, ◌≢◌, inl, inr, Bool, true,
  false, ◌||◌, List, arith, leb, ◌==◌, if◌then◌else◌, and_not, Bool-cases, ==-eq, ==-ne, eq→==,
  ne→==, le→leb, length, get_or, take, set, take_all,
}
use native.Mathlib.Decide.{dec_lt}
use rendr.Common.Slots.{
  taken, taken-bit_or, taken-and_not, length-set, get_or-set, get_or-set_other,
}
use rendr.Carrier.Receiver.{RelReceiver, nothing_held, hold, rel_advance}
use rendr.Carrier.Receiver.Order.{Inv}

-- One number more.
abbrev pub joined : ℕ → (ℕ → Bool) → ℕ → Bool
joined k seen j = if j == k then true else seen j

pub joined_other : (k : ℕ) (seen : ℕ → Bool) (j : ℕ) → (j == k) ≡ false → joined k seen j ≡ seen j
joined_other k seen j e = rw e refl

-- A number that is there already.
pub joined_same : (k : ℕ) (seen : ℕ → Bool) → seen k ≡ true → (j : ℕ) → seen j ≡ joined k seen j
joined_same k seen is j = elim (Bool-cases (j == k)) [
  | inl e ↦ rw (e, ==-eq j k e) is
  | inr e ↦ rw e refl
]

pub slot_of : (first k : ℕ) → (first + k) % 2 ^ 32 % 8 ≡ (first + k) % 8
slot_of first k = omega arith

-- Two frames of a window have different slots.
apart :
    (first n j k : ℕ)
    → n < j
    → j ≤ n + 8
    → n < k
    → k ≤ n + 8
    → j ≢ k
    → (first + j) % 8 ≢ (first + k) % 8
apart first n j k a b c d ne e = ne (omega arith)

module _ {S : Type 0} (first : ℕ) (payload : ℕ → List ℕ) {seen : ℕ → Bool} {n : ℕ}
    {r : RelReceiver S} (v : Inv first payload seen n r) where
  -- The distance that relOnRel computes.
  pub distance_old :
      (k : ℕ)
      → k ≤ n
      → (((first + k) % 2 ^ 32 + 2 ^ 32 - r.cum) % 2 ^ 32 == 0
          || leb (2 ^ 31) (((first + k) % 2 ^ 32 + 2 ^ 32 - r.cum) % 2 ^ 32))
        ≡ true
  distance_old k le = rw (v.cum_is) (elim (dec_lt k n) [
    | yes p ↦
        rw
          (le→leb (2 ^ 31) (((first + k) % 2 ^ 32 + 2 ^ 32 - (first + n) % 2 ^ 32) % 2 ^ 32)
            (omega (arith, v.reach)))
          (ground arith)
    | no q ↦
        rw (eq→== (((first + k) % 2 ^ 32 + 2 ^ 32 - (first + n) % 2 ^ 32) % 2 ^ 32) 0 (omega arith))
          refl
  ])

  pub distance_ahead :
      (k : ℕ) → n < k → k < 2 ^ 31 → ((first + k) % 2 ^ 32 + 2 ^ 32 - r.cum) % 2 ^ 32 ≡ k - n
  distance_ahead k lt near = rw (v.cum_is) (omega arith)

  -- A frame is held.
  pub hold-Inv :
      (k fseq : ℕ)
      → n + 1 < k
      → k ≤ n + 8
      → k < 2 ^ 31
      → length (payload k) ≤ 275
      → Inv first payload (joined k seen) n (hold r ((first + k) % 2 ^ 32) (payload k) fseq)
  unfolding hold
  hold-Inv k fseq lt le near small = record {
    reach = v.reach;
    cum_is = v.cum_is;
    slots = length-set r.held _ _ ∙ v.slots;
    marks = marks';
    kept = kept';
    before = λ j p q. rw (ne→== j k (omega arith)) (v.before j p q);
    beyond = λ j p. rw (ne→== j k (omega arith)) (v.beyond j p);
    near = near';
  }
    where
      near' : (j : ℕ) → joined k seen j ≡ true → j < 2 ^ 31
      near' j h = elim (Bool-cases (j == k)) [
        | inl e ↦ omega (arith, ==-eq j k e)
        | inr e ↦ v.near j (rw e at h)
      ]

      marks' :
          (j : ℕ)
          → n < j
          → j ≤ n + 8
          → taken (bit_or r.held_mask (2 ^ ((first + k) % 2 ^ 32 % 8))) ((first + j) % 8)
            ≡ joined k seen j
      marks' j p q =
          rw (slot_of first k, taken-bit_or r.held_mask ((first + k) % 8) ((first + j) % 8))
            (elim (Bool-cases (j == k)) [
              | inl e ↦
                  rw
                    (
                      e,
                      eq→== ((first + j) % 8) ((first + k) % 8)
                          (ap (λ t. (first + t) % 8) (==-eq j k e)),
                    )
                    refl
              | inr e ↦
                  rw
                    (
                      e,
                      ne→== ((first + j) % 8) ((first + k) % 8)
                          (apart first n j k p q (omega arith) le (==-ne j k e)),
                    )
                    (v.marks j p q)
            ])

      kept' :
          (j : ℕ)
          → n < j
          → j ≤ n + 8
          → joined k seen j ≡ true
          → (get_or
              (set r.held
                ((first + k) % 2 ^ 32 % 8)
                (record { bytes = take 275 (payload k); fseq = fseq }))
              ((first + j) % 8)
              nothing_held).bytes
            ≡ payload j
      kept' j p q h = rw (slot_of first k) (elim (Bool-cases (j == k)) [
        | inl e ↦
            rw
              (
                ==-eq j k e,
                get_or-set r.held ((first + k) % 8)
                    (record { bytes = take 275 (payload k); fseq = fseq }) nothing_held
                    (omega (arith, v.slots)),
              )
              (take_all 275 (payload k) small)
        | inr e ↦
            rw
              (get_or-set_other r.held ((first + k) % 8) ((first + j) % 8)
                (record { bytes = take 275 (payload k); fseq = fseq }) nothing_held
                (apart first n k j (omega arith) le p q (λ x. ==-ne j k e (sym x))))
              (v.kept j p q (rw e at h))
      ])

module _ {S : Type 0} (first : ℕ) (payload : ℕ → List ℕ) where
  -- The next frame is dispatched, and what holds behind the advance.
  pub advance-Inv :
      {seen seen' : ℕ → Bool} {n : ℕ} {r : RelReceiver S}
      → Inv first payload seen n r
      → ((j : ℕ) → seen' j ≡ joined (n + 1) seen j)
      → n + 1 < 2 ^ 31
      → (rest : S) (dropped : ℕ)
      → Inv first payload seen'
          (n + 1)
          (rel_advance (record r { rest = rest; dropped = dropped }) ((first + (n + 1)) % 2 ^ 32))
  unfolding rel_advance
  advance-Inv {seen = seen} {seen' = seen'} {n = n} {r = r} v agree near rest dropped = record {
    reach = near;
    cum_is = refl;
    slots = v.slots;
    marks = marks';
    kept = λ j p q h. v.kept j (omega arith) (within j p q h) (was j p h);
    before = before';
    beyond = λ j p. agree j ∙ rw (ne→== j (n + 1) (omega arith)) (v.beyond j (omega arith));
    near = near';
  }
    where
      was : (j : ℕ) → n + 1 < j → seen' j ≡ true → seen j ≡ true
      was j p h =
          sym (joined_other (n + 1) seen j (ne→== j (n + 1) (omega arith))) ∙ sym (agree j) ∙ h

      within : (j : ℕ) → n + 1 < j → j ≤ n + 1 + 8 → seen' j ≡ true → j ≤ n + 8
      within j p q h = elim (dec_lt (n + 8) j) [
        | yes far ↦ cc (was j p h, v.beyond j far)
        | no q ↦ omega arith
      ]

      before' : (j : ℕ) → 0 < j → j ≤ n + 1 → seen' j ≡ true
      before' j p q = agree j ∙ elim (Bool-cases (j == n + 1)) [
        | inl e ↦ rw e refl
        | inr e ↦ rw e (v.before j p (omega (arith, ==-ne j (n + 1) e)))
      ]

      near' : (j : ℕ) → seen' j ≡ true → j < 2 ^ 31
      near' j h = elim (Bool-cases (j == n + 1)) [
        | inl e ↦ omega (arith, ==-eq j (n + 1) e)
        | inr e ↦ v.near j (sym (joined_other (n + 1) seen j e) ∙ sym (agree j) ∙ h)
      ]

      marks' :
          (j : ℕ)
          → n + 1 < j
          → j ≤ n + 1 + 8
          → taken (and_not r.held_mask (2 ^ ((first + (n + 1)) % 2 ^ 32 % 8))) ((first + j) % 8)
            ≡ seen' j
      marks' j p q =
          rw
            (
              slot_of first (n + 1),
              taken-and_not r.held_mask ((first + (n + 1)) % 8) ((first + j) % 8),
              agree j,
              ne→== j (n + 1) (omega arith),
            )
            (elim (dec_lt (n + 8) j) [
              | yes far ↦
                  rw (eq→== ((first + j) % 8) ((first + (n + 1)) % 8) (omega arith))
                    (sym (v.beyond j far))
              | no in_window ↦
                  rw
                    (ne→== ((first + j) % 8) ((first + (n + 1)) % 8) (
                      apart first n j (n + 1) (omega arith) (omega arith) (omega arith)
                        (omega arith) (omega arith)))
                    (v.marks j (omega arith) (omega arith))
            ])
