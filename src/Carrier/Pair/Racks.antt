-- ===== src/Carrier/Pair/Racks.antt =====
-- The RACK of a receiver names frames that it took.
use rendr.Common.{
  ℕ, zero, suc, ◌+◌, ◌/◌, ◌%◌, ◌^◌, ◌≤◌, ◌<◌, bit_or, ◌≡◌, refl, sym, ap, ap₂, ◌∙◌, subst, ◌⊎◌, inl,
  inr, Bool, true, false, some, List, arith, ltb, ◌==◌, if◌then◌else◌, Bool-cases, lt→ltb, ltb→lt,
  ==-eq, all_below, all_below_sound, bit_or_digit, bit_or-zero, take, replicate, ok,
}
use native.Mathlib.Nat.{pow-succ'}
use rendr.Wire.Payload.Pack.{put_rack, parse_rack, parse_rack-put_rack}
use rendr.Common.Slots.{taken, taken-bit_or, taken_none}
use rendr.Carrier.Receiver.{RelReceiver, rack, sack_bits}
use rendr.Carrier.Receiver.Order.{Inv}

bit_or-lt : (n a b : ℕ) → a < 2 ^ n → b < 2 ^ n → bit_or a b < 2 ^ n
bit_or-lt zero a b p q =
    subst (λ t. t < 2 ^ 0)
      (sym (ap₂ bit_or {x = a} {y = 0} {u = b} {v = 0} (omega arith) (omega arith)))
      (subst (λ t. t < 2 ^ 0) (sym (bit_or-zero 0)) (omega arith))
bit_or-lt (suc n) a b p q = rw (pow-succ' 2 n) (
    omega (
      arith,
      bit_or_digit a b,
      pow-succ' 2 n,
      bit_or-lt n (a / 2) (b / 2) (omega (arith, pow-succ' 2 n)) (omega (arith, pow-succ' 2 n)),
    ))

pow_small : (i : ℕ) → i < 7 → 2 ^ i < 2 ^ 7
unfolding all_below
pow_small i h = ltb→lt (2 ^ i) 128 (all_below_sound 7 (λ j. ltb (2 ^ j) 128) i refl h)

sack_bits-lt :
    (mask cum sack i n : ℕ) → i + n ≤ 7 → sack < 2 ^ 7 → sack_bits mask cum sack i n < 2 ^ 7
unfolding sack_bits
sack_bits-lt mask cum sack i zero le small = small
sack_bits-lt mask cum sack i (suc n) le small =
    sack_bits-lt mask cum
      (if taken mask ((cum + 2 + i) % 2 ^ 32 % 8) then bit_or sack (2 ^ i) else sack) (i + 1) n
      (omega arith) (added (taken mask ((cum + 2 + i) % 2 ^ 32 % 8)))
  where
    added : (b : Bool) → (if b then bit_or sack (2 ^ i) else sack) < 2 ^ 7
    added true = bit_or-lt 7 sack (2 ^ i) small (pow_small i (omega arith))
    added false = small

bit_or-taken :
    (sack i j : ℕ) (b : Bool)
    → taken (if b then bit_or sack (2 ^ i) else sack) j ≡ true
    → (taken sack j ≡ true) ⊎ ((j ≡ i) × (b ≡ true))
bit_or-taken sack i j false e = inl e
bit_or-taken sack i j true e = elim (Bool-cases (j == i)) [
  | inl s ↦ inr (==-eq j i s, refl)
  | inr s ↦ inl (sym (taken-bit_or sack i j ∙ rw s refl) ∙ e)
]

sack_bits-taken :
    (mask cum sack i n j : ℕ)
    → taken (sack_bits mask cum sack i n) j ≡ true
    → (taken sack j ≡ true)
      ⊎ ((i ≤ j) × (j < i + n) × (taken mask ((cum + 2 + j) % 2 ^ 32 % 8) ≡ true))
unfolding sack_bits
sack_bits-taken mask cum sack i zero j e = inl e
sack_bits-taken mask cum sack i (suc n) j e = choose (
    sack_bits-taken mask cum
      (if taken mask ((cum + 2 + i) % 2 ^ 32 % 8) then bit_or sack (2 ^ i) else sack) (i + 1) n j e)
  where
    choose :
        (taken (if taken mask ((cum + 2 + i) % 2 ^ 32 % 8) then bit_or sack (2 ^ i) else sack) j
            ≡ true)
          ⊎ ((i + 1 ≤ j) × (j < i + 1 + n) × (taken mask ((cum + 2 + j) % 2 ^ 32 % 8) ≡ true))
        → (taken sack j ≡ true)
          ⊎ ((i ≤ j) × (j < i + suc n) × (taken mask ((cum + 2 + j) % 2 ^ 32 % 8) ≡ true))
    choose (inr (a, b, t)) = inr (omega arith, omega arith, t)
    choose (inl t) = elim (bit_or-taken sack i j (taken mask ((cum + 2 + i) % 2 ^ 32 % 8)) t) [
      | inl old ↦ inl old
      | inr (same, set_now) ↦ inr (
        omega arith,
        omega arith,
        ap (λ k. taken mask ((cum + 2 + k) % 2 ^ 32 % 8)) same ∙ set_now,
      )
    ]

module _ {S : Type 0} {first : ℕ} {payload : ℕ → List ℕ} {seen : ℕ → Bool} {n : ℕ}
    {r : RelReceiver S} (v : Inv first payload seen n r) where
  -- What the receiver's RACK says, as its peer reads it.
  pub rack_read :
      (p : List ℕ)
      → put_rack (replicate 8 0) (rack r) ≡ some (8, p)
      → parse_rack (take 8 p) ≡ ok (record { cum_ack = (first + n) % 2 ^ 32; sack = (rack r).sack })
  unfolding rack
  rack_read p e =
      let (d, written, read, rest) =
        parse_rack-put_rack (replicate 8 0) (rack r) fits (omega (arith, small)) (omega arith) in
      subst
        (λ x.
          parse_rack (take 8 x)
          ≡ ok (record { cum_ack = (first + n) % 2 ^ 32; sack = (rack r).sack }))
        (cc (written, e)) (read ∙ rw (lt→ltb (rack r).sack 128 small, v.cum_is) refl)
    where
      small : (rack r).sack < 2 ^ 7
      small = sack_bits-lt r.held_mask r.cum 0 0 7 (omega arith) (omega arith)

      fits : r.cum < 2 ^ 32
      fits = rw (v.cum_is) (omega arith)

  -- PutRack has room for it.
  pub rack_written : (p : List ℕ) × (put_rack (replicate 8 0) (rack r) ≡ some (8, p))
  unfolding rack
  rack_written =
      let (d, written, read, rest) =
        parse_rack-put_rack (replicate 8 0) (rack r) (rw (v.cum_is) (omega arith))
          (omega (arith, sack_bits-lt r.held_mask r.cum 0 0 7 (omega arith) (omega arith)))
          (omega arith) in
      (d, written)

  pub rack_names : (j : ℕ) → taken (rack r).sack j ≡ true → seen (n + 2 + j) ≡ true
  unfolding rack
  rack_names j e = elim (sack_bits-taken r.held_mask r.cum 0 0 7 j e) [
    | inl t ↦ cc (t, taken_none j)
    | inr (a, b, t) ↦
        sym (v.marks (n + 2 + j) (omega arith) (omega arith)) ∙ ap (taken r.held_mask) slot ∙ t
  ]
    where
      slot : (first + (n + 2 + j)) % 8 ≡ (r.cum + 2 + j) % 2 ^ 32 % 8
      slot = rw (v.cum_is) (omega arith)
