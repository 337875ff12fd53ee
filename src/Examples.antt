-- ===== src/Examples.antt =====
-- Shared data of the test runs: a checksum, a session ID, and a test for lists of bytes.
mod Frames
mod Payloads
mod Rules
mod Scheduling
mod Windows
mod Receiving
mod Redialling
mod Rel
mod Closing
mod Deciding
use rendr.Common.{
  ℕ, ◌+◌, ◌%◌, ◌^◌, ◌<◌, ◌≡◌, Bool, true, ◌&&◌, List, [], ◌∷◌, arith, ltb, replicate, All, IsByte,
}
use rendr.Wire.Checksum.{Checksum}

abbrev pub sum : List ℕ → ℕ
sum [] = 0
sum (x ∷ xs) = (x + sum xs) % 2 ^ 32

pub sum-fits : (b : List ℕ) → sum b < 2 ^ 32
sum-fits [] = omega arith
sum-fits (x ∷ xs) = omega arith

abbrev pub sum32 : Checksum
sum32 = record { crc = sum; crc_fits = sum-fits }

abbrev pub id16 : List ℕ
id16 = replicate 16 1

abbrev pub all_bytes : List ℕ → Bool
all_bytes [] = true
all_bytes (x ∷ xs) = ltb x 256 && all_bytes xs

pub bytes : (p : List ℕ) → all_bytes p ≡ true → All IsByte p
bytes [] h = tt
bytes (x ∷ xs) h = ground (arith, bytes xs)
