-- ===== src/Wire/Window/Fseq.antt =====
-- What is asked of FseqWindow, as a set of unbounded frame numbers (internal/wire/window.go).
mod Step
pub mod Run
use rendr.Common.{
  ℕ, ◌+◌, ◌-◌, ◌%◌, ◌^◌, ◌≤◌, ◌<◌, Bool, false, List, [], ◌∷◌, ltb, leb, if◌then◌else◌,
}
use native.Mathlib.Decide.{dec_lt}
use rendr.Wire.Window.{
  WindowVerdict, window_new, window_duplicate, window_late, window_ahead, FseqWindow, accept,
  accept_inside, init, jump, mark_ring, set_ring, clear_ring, word_index,
}
use rendr.Wire.Window.Views.{
  with_one, Views, Below, forward-Views, far-Views, inside-Views, forward-Below, inside-Below,
}

-- The frames of one direction, numbered without wrapping: the newest, and those that count as
-- accepted.
pub record Taken : Type 0 where
  pub newest : ℕ
  pub seen : ℕ → Bool

-- What is asked of the window for frame `f`.
unfoldable pub offer_frame : Taken → ℕ → WindowVerdict × Taken
offer_frame t f =
    if ltb t.newest f
    then (if leb 8192 (f - t.newest)
        then (window_ahead, t)
        else (window_new, record { newest = f; seen = with_one f t.seen }))
    else if leb 8192 (t.newest - f)
    then (window_late, t)
    else if t.seen f
    then (window_duplicate, t)
    else (window_new, record { newest = t.newest; seen = with_one f t.seen })

abbrev none_seen : ℕ → Bool
none_seen j = false

-- A direction starts at `first`: all before it counts as accepted.
abbrev pub from_first : ℕ → Taken
from_first first = record { newest = first - 1; seen = λ j. ltb j first }

-- A jump to `f` leaves `f` alone accepted.
abbrev pub jump_frame : ℕ → Taken
jump_frame f = record { newest = f; seen = with_one f none_seen }

-- The caller offers a frame, or takes a forward jump.
pub data Event : Type 0 where
  offered : (f : ℕ) → Event
  jumped : (f : ℕ) → Event

abbrev pub verdicts : Taken → List Event → List WindowVerdict
verdicts t [] = []
verdicts t (offered f ∷ rest) = (offer_frame t f).0 ∷ verdicts (offer_frame t f).1 rest
verdicts t (jumped f ∷ rest) = verdicts (jump_frame f) rest

-- The window sees the low 32 bits of every number.
abbrev pub accepts : FseqWindow → List Event → List WindowVerdict
accepts w [] = []
accepts w (offered f ∷ rest) = (accept w (f % 2 ^ 32)).0 ∷ accepts (accept w (f % 2 ^ 32)).1 rest
accepts w (jumped f ∷ rest) = accepts (jump w (f % 2 ^ 32)) rest

-- Every frame offered is less than half the range of a uint32 from the newest of its time.
abbrev pub InReach : Taken → List Event → Type 0
InReach t [] = Unit {0}
InReach t (offered f ∷ rest) =
    (f < t.newest + 2 ^ 31) × (t.newest ≤ f + 2 ^ 31) × InReach (offer_frame t f).1 rest
InReach t (jumped f ∷ rest) = InReach (jump_frame f) rest
