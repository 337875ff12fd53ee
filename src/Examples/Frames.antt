-- ===== src/Examples/Frames.antt =====
-- Runs of the frame and preface codecs.
use rendr.Common.{
  ℕ, ◌+◌, ◌≡◌, refl, inl, inr, true, some, List, [], ◌∷◌, ◌++◌, arith, length, take, drop,
  replicate, all_zero, ok, err,
}
use rendr.Examples.{sum32, id16, bytes}
use rendr.Wire.Frame.{
  Header, IsValid, layout_header, append_frame, decode_frame, parse_header, check_header,
  read_header, with_trailer,
}
use rendr.Wire.Frame.RoundTrip.{decode_frame-append_frame, with_trailer-decode_frame}
use rendr.Wire.FrameType.{extension, carrier_level, known, allowed_flags, handle_ok, payload_bounds}
use rendr.Wire.Errors.{err_short, err_length, err_malformed}
use rendr.Wire.Preface.{
  Preface, IsValid as IsValidPreface, layout_preface, put_preface, parse_preface, parse_preface_ack,
  preface_fseq, parsed, failed, check_preface, read_preface, judge_preface, is_preface,
}
use rendr.Wire.Preface.Written.{parse_preface-put_preface}
use rendr.Wire.Preface.Parsed.{layout_preface-parse_preface}
use rendr.Wire.Preface.Options.{is_preface-parse_header}

-- An ACK of 16 bytes on handle 5, with FIN_DELIVERED.
abbrev ack_header : Header
ack_header = record { type = 0x11; flags = 1; len = 16; fseq = 7; handle = 5 }

abbrev ack_payload : List ℕ
ack_payload = replicate 16 3

ack_header-IsValid : IsValid ack_header
unfolding extension known allowed_flags handle_ok carrier_level payload_bounds
ack_header-IsValid = record {
  type_fits = omega arith;
  flags_fits = omega arith;
  fseq_fits = omega arith;
  handle_fits = omega arith;
  len_fits = omega arith;
  rules = inr (refl, refl, refl, refl, omega arith, omega arith);
}

decode_frame-append_frame_example :
    (f : List ℕ) × (append_frame sum32 (9 ∷ []) ack_header (replicate 16 3) ≡ some ((9 ∷ []) ++ f))
    × (length f ≡ 33)
    × (decode_frame sum32 (f ++ (1 ∷ 2 ∷ []))
        ≡ ok (record { header = ack_header; payload = replicate 16 3 }, length f))
    × (decode_frame sum32 (take 32 f) ≡ err err_short)
decode_frame-append_frame_example =
    decode_frame-append_frame sum32 (9 ∷ []) ack_header (replicate 16 3) (1 ∷ 2 ∷ []) 32
      ack_header-IsValid (omega arith)

abbrev ack_frame : List ℕ
ack_frame =
    0x11
    ∷ 1
    ∷ 0
    ∷ 0
    ∷ 16
    ∷ 0
    ∷ 0
    ∷ 0
    ∷ 7
    ∷ 0
    ∷ 0
    ∷ 0
    ∷ 5
    ∷ (replicate 16 3 ++ 0 ∷ 0 ∷ 0 ∷ 94 ∷ 8 ∷ [])

ack_frame-decoded :
    decode_frame sum32 ack_frame ≡ ok (record { header = ack_header; payload = replicate 16 3 }, 33)
unfolding decode_frame parse_header check_header read_header extension known allowed_flags handle_ok
    carrier_level payload_bounds
ack_frame-decoded = refl

with_trailer-decode_frame_example :
    IsValid ack_header
    × (ack_header.len ≡ length ack_payload)
    × (33 ≡ 17 + length ack_payload)
    × (with_trailer sum32 (layout_header ack_header ++ replicate 16 3) ++ 8 ∷ [] ≡ ack_frame)
with_trailer-decode_frame_example =
    with_trailer-decode_frame sum32 ack_frame
      (record { header = ack_header; payload = replicate 16 3 }) 33 (bytes ack_frame refl)
      ack_frame-decoded

abbrev dialer : Preface
dialer = record { minor = 0; kind = 1; req = 0; opt = 1; instance_id = id16; carrier_id = 6 }

dialer-IsValid : IsValidPreface dialer
unfolding all_zero
dialer-IsValid = (
  record {
    minor_fits = omega arith;
    b6_fits = omega arith;
    req_fits = omega arith;
    opt_fits = omega arith;
    inst_length = refl;
    inst_bytes = bytes id16 refl;
    id_fits = omega arith;
  },
  inl refl,
  refl,
  omega arith,
)

parse_preface-put_preface_example :
    (d : List ℕ) × (put_preface sum32 (replicate 41 7) dialer ≡ some (40, d))
    × (parse_preface sum32 (take 40 d) ≡ parsed dialer)
    × (parse_preface_ack sum32 (take 40 d) ≡ failed err_malformed)
    × (preface_fseq (take 40 d) ≡ sum32.crc (take 36 (take 40 d)))
    × (drop 40 d ≡ 7 ∷ [])
parse_preface-put_preface_example =
    parse_preface-put_preface sum32 (replicate 41 7) dialer dialer-IsValid (omega arith)

abbrev dialer_bytes : List ℕ
dialer_bytes =
    82
    ∷ 78
    ∷ 68
    ∷ 50
    ∷ 2
    ∷ 0
    ∷ 1
    ∷ 1
    ∷ (replicate 7 0 ++ 1 ∷ (id16 ++ 0 ∷ 0 ∷ 0 ∷ 6 ∷ 0 ∷ 0 ∷ 1 ∷ 49 ∷ []))

dialer_bytes-parsed : parse_preface sum32 dialer_bytes ≡ parsed dialer
unfolding parse_preface check_preface read_preface judge_preface all_zero
dialer_bytes-parsed = refl

layout_preface-parse_preface_example :
    IsValidPreface dialer
    × (dialer.req ≡ 0)
    × (layout_preface sum32 0 1 1 0 1 id16 6 ≡ dialer_bytes)
layout_preface-parse_preface_example =
    layout_preface-parse_preface sum32 dialer_bytes dialer (bytes dialer_bytes refl)
      dialer_bytes-parsed

is_preface-dialer_bytes : is_preface dialer_bytes ≡ true
unfolding is_preface
is_preface-dialer_bytes = refl

is_preface-parse_header_example : parse_header dialer_bytes ≡ err err_length
is_preface-parse_header_example = is_preface-parse_header dialer_bytes is_preface-dialer_bytes
