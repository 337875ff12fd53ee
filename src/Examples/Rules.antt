-- ===== src/Examples/Rules.antt =====
-- Runs of the payload codecs of the data path and of a carrier's control.
use rendr.Common.{ℕ, ◌≡◌, refl, List, [], ◌∷◌, ◌++◌, arith, ok}
use rendr.Examples.{bytes}
use rendr.Wire.FrameType.{
  wrappable, allowed_flags, handle_ok, payload_bounds, extension, carrier_level, type_close,
}
use rendr.Wire.Payload.Rel
use rendr.Wire.Payload.Dgram

abbrev closing : Rel.RelHead
closing = record { cseq = 5; type = type_close; flags = 0; handle = 0 }

closing-Fits : Rel.Fits closing
closing-Fits = record {
  cseq_fits = omega arith;
  type_fits = omega arith;
  flags_fits = omega arith;
  handle_fits = omega arith;
}

closing-Carries : Rel.Carries closing (1 ∷ [])
unfolding wrappable allowed_flags handle_ok payload_bounds extension carrier_level
closing-Carries = record {
  is_wrappable = refl;
  flags_allowed = refl;
  handle_fine = refl;
  long_enough = omega arith;
  short_enough = omega arith;
}

abbrev closing_bytes : List ℕ
closing_bytes = 0 ∷ 0 ∷ 0 ∷ 5 ∷ 0x32 ∷ 0 ∷ 0 ∷ 0 ∷ 0 ∷ 0 ∷ 1 ∷ []

closing_bytes-parsed : Rel.parse_rel closing_bytes ≡ ok (closing, 1 ∷ [])
unfolding Rel.parse_rel Rel.read_rel_head Rel.check_rel wrappable allowed_flags handle_ok
    payload_bounds extension carrier_level
closing_bytes-parsed = refl

layout_rel_head-parse_rel_example :
    Rel.Fits closing
    × Rel.Carries closing (1 ∷ [])
    × (Rel.layout_rel_head closing ++ 1 ∷ [] ≡ closing_bytes)
layout_rel_head-parse_rel_example =
    Rel.layout_rel_head-parse_rel closing_bytes closing (1 ∷ []) (bytes closing_bytes refl)
      closing_bytes-parsed

split_packet_window-packet_window_example :
    Dgram.split_packet_window (Dgram.packet_window 1200 1400) ≡ (1200, 1400)
split_packet_window-packet_window_example =
    Dgram.split_packet_window-packet_window 1200 1400 (omega arith) (omega arith)
