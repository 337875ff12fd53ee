-- ===== src/Wire/Frame/Serial.antt =====
-- The order of wrapping counters (SeqLess of internal/wire/frame.go).
use rendr.Common.{ℕ, ◌+◌, ◌%◌, ◌^◌, ◌<◌, ◌≡◌, ◌≢◌, ◌⊎◌, true, false, ◌&&◌, arith, ltb}
use rendr.Wire.Frame.{seq_less}

-- Of two different counters less than half the range apart exactly one comes before the other, and
-- two that are half the range apart are not ordered.
pub seq_less_trichotomy :
    (a b : ℕ)
    → a < 2 ^ 32
    → b < 2 ^ 32
    → a ≢ b
    → ((seq_less a b ≡ true) × (seq_less b a ≡ false))
      ⊎ (((seq_less a b ≡ false) × (seq_less b a ≡ true))
          ⊎ ((seq_less a b ≡ false) × (seq_less b a ≡ false) × ((a + 2 ^ 31) % 2 ^ 32 ≡ b)))
unfolding seq_less
seq_less_trichotomy a b ha hb ne = ground arith

-- A counter comes before those that follow it by 1 to 2^31 - 1 steps, wrapping or not, and before
-- no other.
pub seq_less_step :
    (a k : ℕ)
    → a < 2 ^ 32
    → k < 2 ^ 32
    → seq_less a ((a + k) % 2 ^ 32) ≡ (ltb 0 k && ltb k (2 ^ 31))
unfolding seq_less
seq_less_step a k ha hk = ground arith
