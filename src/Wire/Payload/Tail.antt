-- ===== src/Wire/Payload/Tail.antt =====
-- The exact-length check that the payload parsers share (exactTail of internal/wire/payload.go).
use rendr.Common.{ℕ, ◌≡◌, Option, none, some, arith, ltb, if◌then◌else◌}
use rendr.Wire.Errors.{Error, err_short, err_trailing}

-- Fewer bytes than wanted are ErrShort, more are ErrTrailing, and `none` is Go's `nil`.
unfoldable pub exact_tail : ℕ → ℕ → Option Error
exact_tail have want =
    if ltb have want then some err_short else if ltb want have then some err_trailing else none

pub exact_tail-eq : (have want : ℕ) → exact_tail have want ≡ none → have ≡ want
unfolding exact_tail
exact_tail-eq have want h = ground arith

pub exact_tail_self : (n k : ℕ) → n ≡ k → exact_tail n k ≡ none
unfolding exact_tail
exact_tail_self n k h = ground arith
