-- ===== src/Wire/Preface.antt =====
-- PREFACE and PREFACE_ACK, and the optional features they negotiate (internal/wire/preface.go,
-- IsPreface of dgram.go).
mod Sound
pub mod Written
pub mod Parsed
pub mod Options
use rendr.Common.{
  ℕ, ◌^◌, ◌≤◌, ◌<◌, bit_and, ◌≡◌, ◌≢◌, ◌⊎◌, Bool, true, false, not, ◌&&◌, ◌||◌, Option, none, some,
  List, [], ◌∷◌, ◌++◌, ltb, leb, ◌==◌, if◌then◌else◌, and_not, length, take, All, IsByte, byte,
  slice, uint32, put_uint32, put_front, all_zero, fail_if, ok,
}
use rendr.Wire.Const
use rendr.Wire.Checksum.{Checksum}
use rendr.Wire.Errors.{
  Error, Decoded, err_short, err_trailing, err_magic, err_crc, err_major, err_malformed,
}

pub record Preface : Type 0 where
  pub minor : ℕ
  pub kind : ℕ
  pub req : ℕ
  pub opt : ℕ
  pub instance_id : List ℕ
  pub carrier_id : ℕ

pub record PrefaceAck : Type 0 where
  pub minor : ℕ
  pub status : ℕ
  pub req : ℕ
  pub opt : ℕ
  pub instance_id : List ℕ
  pub carrier_id : ℕ

-- "RND2".
abbrev pub magic : List ℕ
magic = b'R' ∷ b'N' ∷ b'D' ∷ b'2' ∷ []

-- Bytes 0 to 35, which the CRC covers; byte 6 is the kind or the status.
unfoldable pub covered : ℕ → ℕ → ℕ → ℕ → ℕ → List ℕ → ℕ → List ℕ
covered minor b6 role req opt inst id =
    magic
    ++ Const.major
      ∷ minor
      ∷ b6
      ∷ role
      ∷ (put_uint32 req ++ (put_uint32 opt ++ (inst ++ put_uint32 id)))

unfoldable pub layout_preface : Checksum → ℕ → ℕ → ℕ → ℕ → ℕ → List ℕ → ℕ → List ℕ
layout_preface c minor b6 role req opt inst id =
    let body = covered minor b6 role req opt inst id in body ++ put_uint32 (c.crc body)

-- `none` is the panic on a buffer of less than 40 bytes.
unfoldable pub put_preface : Checksum → List ℕ → Preface → Option (ℕ × List ℕ)
put_preface c b p =
    put_front b
      (layout_preface c p.minor p.kind Const.role_dialer p.req p.opt p.instance_id p.carrier_id)

unfoldable pub put_preface_ack : Checksum → List ℕ → PrefaceAck → Option (ℕ × List ℕ)
put_preface_ack c b a =
    put_front b
      (layout_preface c a.minor a.status Const.role_passive a.req a.opt a.instance_id a.carrier_id)

-- The fseq of the first frame in the direction that a preface opens: its CRC field.
unfoldable pub preface_fseq : List ℕ → ℕ
preface_fseq b = uint32 b 36

-- `none` is Go's `nil`.
unfoldable pub check_preface : Checksum → List ℕ → ℕ → Option Error
check_preface c b role =
    if ltb (length b) Const.preface_len
    then some err_short
    else if ltb Const.preface_len (length b)
    then some err_trailing
    else if not (byte b 0 == b'R')
        || (not (byte b 1 == b'N') || (not (byte b 2 == b'D') || not (byte b 3 == b'2')))
    then some err_magic
    else if not (c.crc (take 36 b) == uint32 b 36)
    then some err_crc
    else if not (byte b 4 == Const.major)
    then some err_major
    else if not (byte b 7 == role)
    then some err_malformed
    else none

-- The pair of a value and an error: ErrFeature comes with the decoded value, every other error
-- with the zero value.
pub data Answer {ℓ} (A : Type ℓ) : Type ℓ where
  parsed : A → Answer A
  lacks_feature : A → Answer A
  failed : Error → Answer A

abbrev pub unless_failed {ℓ} : {A : Type ℓ} → Option Error → Answer A → Answer A
unless_failed (some e) rest = failed e
unless_failed none rest = rest

abbrev pub fail_when {ℓ} : {A : Type ℓ} → Bool → Error → Answer A → Answer A
fail_when true e rest = failed e
fail_when false e rest = rest

unfoldable pub read_preface : List ℕ → Preface
read_preface b = record {
  minor = byte b 5;
  kind = byte b 6;
  req = uint32 b 8;
  opt = uint32 b 12;
  instance_id = slice b 16 16;
  carrier_id = uint32 b 32;
}

unfoldable pub judge_preface : Preface → Answer Preface
judge_preface p =
    fail_when (not (p.kind == Const.kind_stream) && not (p.kind == Const.kind_datagram))
      err_malformed
      (fail_when (all_zero p.instance_id || p.carrier_id == 0) err_malformed
        (if not (and_not p.req Const.known_required == 0) then lacks_feature p else parsed p))

unfoldable pub parse_preface : Checksum → List ℕ → Answer Preface
parse_preface c b =
    unless_failed (check_preface c b Const.role_dialer) (judge_preface (read_preface b))

unfoldable pub read_preface_ack : List ℕ → PrefaceAck
read_preface_ack b = record {
  minor = byte b 5;
  status = byte b 6;
  req = uint32 b 8;
  opt = uint32 b 12;
  instance_id = slice b 16 16;
  carrier_id = uint32 b 32;
}

unfoldable pub judge_preface_ack : PrefaceAck → Answer PrefaceAck
judge_preface_ack a = fail_when (ltb Const.preface_capacity a.status) err_malformed (
    fail_when (all_zero a.instance_id || a.carrier_id == 0) err_malformed
      (if not (and_not a.req Const.known_required == 0) then lacks_feature a else parsed a))

unfoldable pub parse_preface_ack : Checksum → List ℕ → Answer PrefaceAck
parse_preface_ack c b =
    unless_failed (check_preface c b Const.role_passive) (judge_preface_ack (read_preface_ack b))

-- The optional bits of the PREFACE that the passive implements.
unfoldable pub echo_opt : ℕ → ℕ
echo_opt offered = bit_and offered Const.known_optional

unfoldable pub mux_negotiated : ℕ → ℕ → Decoded Bool
mux_negotiated sent answered =
    fail_if (not (bit_and answered Const.opt_mux == 0) && bit_and sent Const.opt_mux == 0)
      err_malformed (ok (not (bit_and (bit_and sent answered) Const.opt_mux == 0)))

-- A datagram's bytes start with a PREFACE or PREFACE_ACK candidate.
unfoldable pub is_preface : List ℕ → Bool
is_preface b =
    leb Const.preface_len (length b)
    && (byte b 0 == b'R' && (byte b 1 == b'N' && (byte b 2 == b'D' && byte b 3 == b'2')))

-- The fields of a preface as values of their types, with the instance and carrier IDs that are
-- never zero.
pub record Fits (minor b6 req opt : ℕ) (inst : List ℕ) (id : ℕ) : Type 0 where
  pub minor_fits : minor < 256
  pub b6_fits : b6 < 256
  pub req_fits : req < 2 ^ 32
  pub opt_fits : opt < 2 ^ 32
  pub inst_length : length inst ≡ 16
  pub inst_bytes : All IsByte inst
  pub id_fits : id < 2 ^ 32

abbrev pub IsValid : Preface → Type 0
IsValid p =
    Fits p.minor p.kind p.req p.opt p.instance_id p.carrier_id
    × ((p.kind ≡ 1) ⊎ (p.kind ≡ 2))
    × (all_zero p.instance_id ≡ false)
    × (p.carrier_id ≢ 0)

abbrev pub IsValidAck : PrefaceAck → Type 0
IsValidAck a =
    Fits a.minor a.status a.req a.opt a.instance_id a.carrier_id
    × (a.status ≤ 4)
    × (all_zero a.instance_id ≡ false)
    × (a.carrier_id ≢ 0)
