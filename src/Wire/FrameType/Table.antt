-- ===== src/Wire/FrameType/Table.antt =====
-- The tables of frame types agree (internal/wire/const.go, dgram.go).
use rendr.Common.{
  ℕ, ◌^◌, ◌≤◌, ◌<◌, ◌≡◌, refl, Bool, true, false, not, ◌&&◌, ◌||◌, arith, leb, ◌==◌, if◌then◌else◌,
  all_below, all_below_sound,
}
use rendr.Wire.FrameType.{extension, carrier_level, known, wrappable, payload_bounds}

-- One row of the tables, as a test.
row : ℕ → Bool
unfolding extension carrier_level known wrappable payload_bounds
row t =
    let b = payload_bounds t in
    leb b.0 b.1
    && (leb b.1 (2 ^ 20)
        && ((if known t || extension t then b.2 else not b.2)
            && (not (known t && extension t)
                && (not (carrier_level t && not (known t))
                    && not (wrappable t && (not (known t) || (t == 0x34 || t == 0x35)))))))

rows : all_below 256 row ≡ true
unfolding all_below row
rows = refl

-- For every type byte: the length bounds exist exactly for the core types and the extensions,
-- which are disjoint, and they are in order and within MaxFramePayload. Carrier-level types are
-- core types, and so is what a REL may carry, which is never a REL or a RACK.
pub payload_bounds_table :
    (t : ℕ)
    → t < 256
    → ((payload_bounds t).2 ≡ (known t || extension t))
      × ((known t && extension t) ≡ false)
      × ((payload_bounds t).0 ≤ (payload_bounds t).1)
      × ((payload_bounds t).1 ≤ 2 ^ 20)
      × ((carrier_level t && not (known t)) ≡ false)
      × ((wrappable t && (not (known t) || (t == 0x34 || t == 0x35))) ≡ false)
payload_bounds_table t h =
    let r = all_below_sound 256 row t rows h in
    unfold row in
    (ground arith, ground arith, ground arith, ground arith, ground arith, ground arith)
