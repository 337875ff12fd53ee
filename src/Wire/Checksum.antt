-- ===== src/Wire/Checksum.antt =====
-- CRC32C of hash/crc32, which the codec only calls: a function of the bytes into uint32.
use rendr.Common.{ℕ, ◌^◌, ◌<◌, List}

pub record Checksum : Type 0 where
  pub crc : List ℕ → ℕ
  pub crc_fits : (b : List ℕ) → crc b < 2 ^ 32
