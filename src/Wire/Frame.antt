-- ===== src/Wire/Frame.antt =====
-- Frame headers and whole frames, and serial-number order (internal/wire/frame.go).
pub mod HeaderLaws
pub mod RoundTrip
pub mod Serial
use rendr.Common.{
  ℕ, ◌+◌, ◌-◌, ◌*◌, ◌/◌, ◌%◌, ◌^◌, ◌≤◌, ◌<◌, ◌≡◌, ◌⊎◌, Bool, true, false, not, ◌&&◌, ◌||◌, Option,
  none, List, ◌∷◌, ◌++◌, ltb, ◌==◌, if◌then◌else◌, and_not, length, take, replicate, byte, slice,
  uint32, put_uint32, put_front, fail_if, ◌>>=◌, ok,
}
use mathlib.Core.Option
use rendr.Wire.Const
use rendr.Wire.Checksum.{Checksum}
use rendr.Wire.Errors.{Decoded, err_short, err_length, err_type, err_flags, err_handle, err_crc}
use rendr.Wire.FrameType.{extension, known, allowed_flags, payload_bounds, handle_ok}

pub record Header : Type 0 where
  pub type : ℕ
  pub flags : ℕ
  pub len : ℕ
  pub fseq : ℕ
  pub handle : ℕ

unfoldable pub layout_header : Header → List ℕ
layout_header h =
    h.type
    ∷ h.flags
    ∷ h.len / 65536 % 256
    ∷ h.len / 256 % 256
    ∷ h.len % 256
    ∷ (put_uint32 h.fseq ++ put_uint32 h.handle)

-- `none` is the panic on a length beyond MaxFramePayload, or on a buffer that is too small.
unfoldable pub put_header : List ℕ → Header → Option (ℕ × List ℕ)
put_header b h = if ltb Const.max_frame_payload h.len then none else put_front b (layout_header h)

unfoldable pub read_header : List ℕ → Header
read_header b = record {
  type = byte b 0;
  flags = byte b 1;
  len = byte b 2 * 65536 + byte b 3 * 256 + byte b 4;
  fseq = uint32 b 5;
  handle = uint32 b 9;
}

-- The checks of ParseHeader behind the length of its input, in the source's order.
unfoldable pub check_header : Header → Decoded Header
check_header h =
    let bounds = payload_bounds h.type in
    fail_if (ltb Const.max_frame_payload h.len) err_length (
      if extension h.type
      then ok h
      else fail_if (not (known h.type)) err_type (
          fail_if (not (and_not h.flags (allowed_flags h.type) == 0)) err_flags (
            fail_if (not (handle_ok h.type h.handle)) err_handle
              (fail_if (ltb h.len bounds.0 || ltb bounds.1 h.len) err_length (ok h)))))

unfoldable pub parse_header : List ℕ → Decoded Header
parse_header b = fail_if (ltb (length b) Const.header_len) err_short (check_header (read_header b))

pub record Frame : Type 0 where
  pub header : Header
  pub payload : List ℕ

-- `PutTrailer` behind the bytes it covers.
unfoldable pub with_trailer : Checksum → List ℕ → List ℕ
with_trailer c body = body ++ put_uint32 (c.crc body)

-- `none` is the panic on a payload beyond MaxFramePayload. The header is written into the 13 bytes
-- that the grown slice has behind `dst`.
unfoldable pub append_frame : Checksum → List ℕ → Header → List ℕ → Option (List ℕ)
append_frame c dst h payload =
    if ltb Const.max_frame_payload (length payload)
    then none
    else Option.map (λ r. dst ++ with_trailer c (r.1 ++ payload))
        (put_header (replicate Const.header_len 0) (record h { len = length payload }))

-- The frame at the front of `b`, and the number of bytes it takes. Behind ParseHeader `b` has 13
-- bytes at least, so `len(b)-TrailerLen` is not negative.
unfoldable pub decode_frame : Checksum → List ℕ → Decoded (Frame × ℕ)
decode_frame c b = parse_header b >>= λ h.
    let end = Const.header_len + h.len in
    fail_if (ltb (length b - Const.trailer_len) end) err_short (
      fail_if (not (c.crc (take end b) == uint32 b end)) err_crc (
        ok (
          record { header = h; payload = slice b Const.header_len h.len },
          end + Const.trailer_len,
        )))

-- `a != b && int32(b-a) > 0` on uint32.
unfoldable pub seq_less : ℕ → ℕ → Bool
seq_less a b = let d = (b + 2 ^ 32 - a) % 2 ^ 32 in not (a == b) && (ltb 0 d && ltb d (2 ^ 31))

-- The header is one that ParseHeader takes: its fields are values of their types and obey the
-- rules of its frame type.
pub record IsValid (h : Header) : Type 0 where
  pub type_fits : h.type < 256
  pub flags_fits : h.flags < 256
  pub fseq_fits : h.fseq < 2 ^ 32
  pub handle_fits : h.handle < 2 ^ 32
  pub len_fits : h.len ≤ 2 ^ 20
  pub rules :
      (extension h.type ≡ true)
      ⊎ ((extension h.type ≡ false)
          × (known h.type ≡ true)
          × (and_not h.flags (allowed_flags h.type) ≡ 0)
          × (handle_ok h.type h.handle ≡ true)
          × ((payload_bounds h.type).0 ≤ h.len)
          × (h.len ≤ (payload_bounds h.type).1))
