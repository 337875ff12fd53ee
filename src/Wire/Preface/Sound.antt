-- ===== src/Wire/Preface/Sound.antt =====
-- The checks common to both prefaces (checkPreface of internal/wire/preface.go).
use rendr.Common.{
  ℕ, ◌≡◌, none, some, List, arith, ◌==◌, if◌then◌else◌, eq→==, length, take, byte, uint32,
}
use rendr.Wire.Checksum.{Checksum}
use rendr.Wire.Errors.{err_malformed}
use rendr.Wire.Preface.{check_preface}

-- The bytes on which the common checks depend.
pub record Sound (c : Checksum) (b : List ℕ) : Type 0 where
  pub size : length b ≡ 40
  pub is_r : byte b 0 ≡ b'R'
  pub is_n : byte b 1 ≡ b'N'
  pub is_d : byte b 2 ≡ b'D'
  pub is_two : byte b 3 ≡ b'2'
  pub sum : c.crc (take 36 b) ≡ uint32 b 36
  pub version : byte b 4 ≡ 2

pub check_preface-Sound :
    (c : Checksum) (b : List ℕ) (want : ℕ)
    → Sound c b
    → check_preface c b want ≡ (if byte b 7 == want then none else some err_malformed)
unfolding check_preface
check_preface-Sound c b want s =
    rw (s.size, s.is_r, s.is_n, s.is_d, s.is_two, eq→== _ _ s.sum, s.version) (ground arith)

pub Sound-check_preface :
    (c : Checksum) (b : List ℕ) (want : ℕ)
    → check_preface c b want ≡ none
    → Sound c b × (byte b 7 ≡ want)
unfolding check_preface
Sound-check_preface c b want h = (
  record {
    size = ground arith;
    is_r = ground arith;
    is_n = ground arith;
    is_d = ground arith;
    is_two = ground arith;
    sum = ground arith;
    version = ground arith;
  },
  ground arith,
)
