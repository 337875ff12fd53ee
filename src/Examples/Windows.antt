-- ===== src/Examples/Windows.antt =====
-- Runs of the two windows.
use rendr.Common.{
  ℕ, ◌+◌, ◌-◌, ◌*◌, ◌%◌, ◌^◌, ◌<◌, ◌≡◌, refl, some, List, [], ◌∷◌, arith, ltb, if◌then◌else◌,
  replicate, All,
}
use rendr.Wire.Window.{SeqWindow, clear_rounds, init, seq_init}
use rendr.Wire.Window.Sweep.{clear_rounds_lem}
use rendr.Wire.Window.Cells.{ring}
use rendr.Wire.Window.Seq.{offers, seq_accepts, seq_accepts-offers}
use rendr.Wire.Window.Fseq.{
  Event, offered, jumped, from_first, verdicts, accepts, InReach, offer_frame,
}
use rendr.Wire.Window.Fseq.Run.{accepts-verdicts}

-- The bits 8190 to 8259 are cleared, over the end of the ring, and bit 8300 is not.
clear_rounds_lem_example :
    (ring (clear_rounds 200 (replicate 128 (2 ^ 64 - 1)) 8190 70) 8300
      ≡ (if ltb 8300 (8190 + 70) then 0 else ring (replicate 128 (2 ^ 64 - 1)) 8300))
    × (clear_rounds (200 + 5) (replicate 128 (2 ^ 64 - 1)) 8190 70
        ≡ clear_rounds 200 (replicate 128 (2 ^ 64 - 1)) 8190 70)
clear_rounds_lem_example =
    clear_rounds_lem 7 200 5 (replicate 128 (2 ^ 64 - 1)) 8190 70 8300 refl (omega arith)
      (omega arith) (omega arith) (omega arith) (omega arith)

abbrev numbers : List ℕ
numbers = 5 ∷ 3 ∷ 5 ∷ 2000 ∷ 5 ∷ []

numbers_fit : All (λ s. s < 2 ^ 64) numbers
numbers_fit = (omega arith, (omega arith, (omega arith, (omega arith, (omega arith, tt)))))

seq_accepts-offers_example :
    (w : SeqWindow) × (seq_init (replicate 16 0) ≡ some w)
    × (seq_accepts w numbers ≡ offers (2 ^ 4 * 64) [] numbers)
seq_accepts-offers_example =
    seq_accepts-offers 4 (replicate 16 0) numbers (omega arith) refl numbers_fit

abbrev frames : List Event
frames = offered 4 ∷ offered 2 ∷ offered 4 ∷ jumped 9000 ∷ offered 9000 ∷ offered 4 ∷ []

frames-InReach : InReach (from_first 1) frames
unfolding offer_frame
frames-InReach = (
  omega arith,
  omega arith,
  (
    omega arith,
    omega arith,
    (omega arith, omega arith, (omega arith, omega arith, (omega arith, omega arith, tt))),
  ),
)

accepts-verdicts_example : accepts (init (1 % 2 ^ 32)) frames ≡ verdicts (from_first 1) frames
accepts-verdicts_example = accepts-verdicts 1 frames (omega arith) frames-InReach
