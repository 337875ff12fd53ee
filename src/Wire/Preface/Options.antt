-- ===== src/Wire/Preface/Options.antt =====
-- Which optional features a carrier ends up with, and prefaces among frames.
use rendr.Common.{
  ℕ, ◌+◌, ◌*◌, ◌/◌, ◌%◌, ◌^◌, ◌≤◌, min, bit_and, ◌≡◌, ◌∙◌, true, false, List, arith, ◌==◌,
  if◌then◌else◌, lt→ltb, le→ltb, bit_and_digit, bit_and-one, length, byte, ok, err,
}
use rendr.Wire.Errors.{err_malformed, err_length}
use rendr.Wire.Frame.{parse_header, read_header, check_header}
use rendr.Wire.Preface.{echo_opt, mux_negotiated, is_preface}

and_one-and : (a b : ℕ) → bit_and (bit_and a b) 1 ≡ min (a % 2) (b % 2)
and_one-and a b = omega (arith, bit_and-one (bit_and a b), bit_and_digit a b)

-- A carrier is a trunk exactly if both fields carry OptMux. An answer that carries it unasked is
-- ErrMalformed, and no other pair of fields is an error.
pub mux_negotiated_lem :
    (sent answered : ℕ)
    → mux_negotiated sent answered ≡ (
        if sent % 2 == 1
        then ok (answered % 2 == 1)
        else if answered % 2 == 1
        then err err_malformed
        else ok false)
unfolding mux_negotiated
mux_negotiated_lem sent answered =
    ground (arith, bit_and-one answered, bit_and-one sent, and_one-and sent answered)

and_three : (a : ℕ) → bit_and a 3 ≡ a % 4
and_three a = omega (arith, bit_and_digit a 3, bit_and-one (a / 2))

-- The echo that a passive answers keeps the two known bits and no other, and never makes the
-- negotiation fail: the carrier is a trunk exactly if the dialer offered mux.
pub mux_negotiated-echo_opt :
    (offered : ℕ)
    → (echo_opt offered ≡ offered % 4)
      × (mux_negotiated offered (echo_opt offered) ≡ ok (offered % 2 == 1))
unfolding echo_opt
mux_negotiated-echo_opt offered = (
  and_three offered,
  mux_negotiated_lem offered (bit_and offered 3) ∙ ground (arith, and_three offered),
)

magic_facts : (b : List ℕ) → is_preface b ≡ true → (40 ≤ length b) × (byte b 2 ≡ b'D')
unfolding is_preface
magic_facts b h = ground arith

-- No input that IsPreface takes for a preface candidate is the start of a frame: ParseHeader
-- answers ErrLength, since the magic reads as a length beyond the limit.
pub is_preface-parse_header : (b : List ℕ) → is_preface b ≡ true → parse_header b ≡ err err_length
unfolding parse_header read_header check_header
is_preface-parse_header b h =
    let (n, d) = magic_facts b h in
    rw (
      le→ltb (length b) 13 (omega arith),
      lt→ltb (2 ^ 20) (byte b 2 * 65536 + byte b 3 * 256 + byte b 4) (omega arith),
    )
