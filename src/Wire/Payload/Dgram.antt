-- ===== src/Wire/Payload/Dgram.antt =====
-- DGRAM, the raw-UDP flow header and the packet window field (internal/wire/dgram.go).
use rendr.Common.{
  ℕ, ◌+◌, ◌*◌, ◌/◌, ◌%◌, ◌^◌, ◌≤◌, ◌<◌, bit_or, ◌≡◌, refl, ◌≢◌, ◌↔◌, not, ◌||◌, Option, none, some,
  List, ◌∷◌, ◌++◌, arith, ltb, ◌==◌, if◌then◌else◌, le→ltb, ne→==, bit_or_disjoint, length, take,
  drop, byte, uint64, put_uint64, put_front, read64, put_front_read, fail_if, ok,
}
use rendr.Wire.Const
use rendr.Wire.Errors.{Decoded, err_short, err_flow_header}

-- `none` is the panic on a buffer that is too small; PutDgramSeq returns no count.
unfoldable pub put_dgram_seq : List ℕ → ℕ → Option (ℕ × List ℕ)
put_dgram_seq dst seq = put_front dst (put_uint64 seq)

unfoldable pub parse_dgram : List ℕ → Decoded (ℕ × List ℕ)
parse_dgram p =
    fail_if (ltb (length p) Const.dgram_prefix_len) err_short
      (ok (uint64 p 0, drop Const.dgram_prefix_len p))

-- `none` is the panic on flow 0, or on a buffer that is too small.
unfoldable pub put_flow_header : List ℕ → ℕ → Option (ℕ × List ℕ)
put_flow_header dst flow =
    if flow == 0 then none else put_front dst (Const.flow_version ∷ put_uint64 flow)

unfoldable pub parse_flow_header : List ℕ → Decoded (ℕ × List ℕ)
parse_flow_header d =
    fail_if (ltb (length d) Const.flow_header_len || not (byte d 0 == Const.flow_version))
      err_flow_header
      (fail_if (uint64 d 1 == 0) err_flow_header (ok (uint64 d 1, drop Const.flow_header_len d)))

-- `uint32(pmtu)<<16 | uint32(cmtu)` of two uint16 values.
unfoldable pub packet_window : ℕ → ℕ → ℕ
packet_window pmtu cmtu = bit_or (pmtu * 65536) cmtu

-- `uint16(w >> 16), uint16(w)`.
unfoldable pub split_packet_window : ℕ → ℕ × ℕ
split_packet_window w = (w / 65536 % 65536, w % 65536)

-- A datagram's bytes behind the seq that PutDgramSeq wrote come back from ParseDgram with that
-- seq, whatever they are.
pub parse_dgram-put_dgram_seq :
    (dst body : List ℕ) (seq : ℕ)
    → seq < 2 ^ 64
    → 8 ≤ length dst
    → (d : List ℕ) × (put_dgram_seq dst seq ≡ some (8, d))
      × (parse_dgram (take 8 d ++ body) ≡ ok (seq, body))
      × (drop 8 d ≡ drop 8 dst)
unfolding put_dgram_seq parse_dgram
parse_dgram-put_dgram_seq dst body seq f h =
    put_front_read (λ p. parse_dgram (p ++ body)) dst (put_uint64 seq) 8 (ok (seq, body)) refl h
      (rw (le→ltb (length (put_uint64 seq ++ body)) 8 (omega arith))
        (λ i. ok (read64 seq f i, body)))

-- A flow header that PutFlowHeader wrote, for a flow that is not 0, is split off by
-- ParseFlowHeader from whatever bytes follow it.
pub parse_flow_header-put_flow_header :
    (dst body : List ℕ) (flow : ℕ)
    → flow ≢ 0
    → flow < 2 ^ 64
    → 9 ≤ length dst
    → (d : List ℕ) × (put_flow_header dst flow ≡ some (9, d))
      × (parse_flow_header (take 9 d ++ body) ≡ ok (flow, body))
      × (drop 9 d ≡ drop 9 dst)
unfolding put_flow_header
parse_flow_header-put_flow_header dst body flow nz f h = rw (ne→== flow 0 nz) (
    put_front_read (λ p. parse_flow_header (p ++ body)) dst (2 ∷ put_uint64 flow) 9
      (ok (flow, body)) refl h read)
  where
    read : parse_flow_header ((2 ∷ put_uint64 flow) ++ body) ≡ ok (flow, body)
    read =
        unfold parse_flow_header in
        rw (
          le→ltb (length ((2 ∷ put_uint64 flow) ++ body)) 9 (omega arith),
          flow_read,
          ne→== flow 0 nz,
        )
      where
        flow_read : uint64 ((2 ∷ put_uint64 flow) ++ body) 1 ≡ flow
        flow_read = read64 flow f

-- Exactly the datagrams of at least nine bytes with version 2 and a flow other than 0 are split.
pub parse_flow_header_iff :
    (p : List ℕ) (flow : ℕ) (rest : List ℕ)
    → (parse_flow_header p ≡ ok (flow, rest)) ↔ (
        (9 ≤ length p)
        × (byte p 0 ≡ 2)
        × (uint64 p 1 ≢ 0)
        × (uint64 p 1 ≡ flow)
        × (drop 9 p ≡ rest))
unfolding parse_flow_header
parse_flow_header_iff p flow rest = (λ h. ground arith, λ h. ground arith)

-- SplitPacketWindow undoes PacketWindow on any two uint16 values.
pub split_packet_window-packet_window :
    (pmtu cmtu : ℕ)
    → pmtu < 2 ^ 16
    → cmtu < 2 ^ 16
    → split_packet_window (packet_window pmtu cmtu) ≡ (pmtu, cmtu)
unfolding split_packet_window packet_window
split_packet_window-packet_window pmtu cmtu hp hc =
    rw (bit_or_disjoint 16 pmtu cmtu hc) (λ i. (high i, low i))
  where
    high : (pmtu * 2 ^ 16 + cmtu) / 65536 % 65536 ≡ pmtu
    high = omega arith

    low : (pmtu * 2 ^ 16 + cmtu) % 65536 ≡ cmtu
    low = omega arith
