-- ===== src/Wire/Payload/Pack.antt =====
-- The PACK and RACK payloads (internal/wire/dgram.go).
use rendr.Common.{
  ℕ, ◌-◌, ◌^◌, ◌≤◌, ◌<◌, ◌≡◌, refl, ap, ◌∙◌, not, ◌&&◌, Option, some, List, ◌++◌, arith, ltb, ◌==◌,
  if◌then◌else◌, and_not, bit_and-127, length, take, drop, uint32, uint64, put_uint32, put_uint64,
  put_front, read32, read64, put_front_read, fail_if, check, ok, err,
}
use rendr.Wire.Const
use rendr.Wire.Errors.{Decoded, err_reserved}
use rendr.Wire.Payload.Tail.{exact_tail, exact_tail_self}

pub record Pack : Type 0 where
  pub highest_seq : ℕ
  pub received : ℕ
  pub epoch_echo : ℕ

unfoldable pub layout_pack : Pack → List ℕ
layout_pack p = put_uint64 p.highest_seq ++ (put_uint64 p.received ++ put_uint32 p.epoch_echo)

-- HighestSeq goes out as 0 while Received is 0.
unfoldable pub canonical : Pack → Pack
canonical p = record p { highest_seq = if p.received == 0 then 0 else p.highest_seq }

unfoldable pub put_pack : List ℕ → Pack → Option (ℕ × List ℕ)
put_pack dst p = put_front dst (layout_pack (canonical p))

unfoldable pub check_pack : Pack → Decoded Pack
check_pack p = fail_if (p.received == 0 && not (p.highest_seq == 0)) err_reserved (ok p)

unfoldable pub read_pack : List ℕ → Pack
read_pack p = record { highest_seq = uint64 p 0; received = uint64 p 8; epoch_echo = uint32 p 16 }

unfoldable pub parse_pack : List ℕ → Decoded Pack
parse_pack p = check (exact_tail (length p) Const.pack_len) (check_pack (read_pack p))

pub record Rack : Type 0 where
  pub cum_ack : ℕ
  pub sack : ℕ

-- `1<<(RelWindow-1) - 1`: the sack bits that exist.
abbrev pub rack_sack_mask : ℕ
rack_sack_mask = 2 ^ (Const.rel_window - 1) - 1

unfoldable pub put_rack : List ℕ → Rack → Option (ℕ × List ℕ)
put_rack dst r = put_front dst (put_uint32 r.cum_ack ++ put_uint32 r.sack)

unfoldable pub check_rack : Rack → Decoded Rack
check_rack r = fail_if (not (and_not r.sack rack_sack_mask == 0)) err_reserved (ok r)

unfoldable pub parse_rack : List ℕ → Decoded Rack
parse_rack p =
    check (exact_tail (length p) Const.rack_len)
      (check_rack (record { cum_ack = uint32 p 0; sack = uint32 p 4 }))

pub record IsValid (p : Pack) : Type 0 where
  pub highest_seq_fits : p.highest_seq < 2 ^ 64
  pub received_fits : p.received < 2 ^ 64
  pub epoch_echo_fits : p.epoch_echo < 2 ^ 32

canonical-IsValid : (p : Pack) → IsValid p → IsValid (canonical p)
unfolding canonical
canonical-IsValid p v = ground arith

read_pack-layout : (p : Pack) → IsValid p → read_pack (layout_pack p) ≡ p
unfolding read_pack layout_pack
read_pack-layout p v = λ i. record {
  highest_seq = read64 p.highest_seq v.highest_seq_fits i;
  received = read64 p.received v.received_fits i;
  epoch_echo = read32 p.epoch_echo v.epoch_echo_fits i;
}

check_pack-canonical : (p : Pack) → check_pack (canonical p) ≡ ok (canonical p)
unfolding check_pack canonical
check_pack-canonical p = ground arith

length-layout_pack : (p : Pack) → length (layout_pack p) ≡ 20
unfolding layout_pack
length-layout_pack p = refl

-- Whatever HighestSeq it is given, PutPack writes 0 for it while Received is 0, and ParsePack
-- reads that form back; the rest of the buffer is unchanged.
pub parse_pack-put_pack :
    (dst : List ℕ) (p : Pack)
    → IsValid p
    → 20 ≤ length dst
    → (d : List ℕ) × (put_pack dst p ≡ some (20, d))
      × (parse_pack (take 20 d) ≡ ok (canonical p))
      × (drop 20 d ≡ drop 20 dst)
unfolding put_pack
parse_pack-put_pack dst p v h =
    put_front_read parse_pack dst (layout_pack (canonical p)) 20 (ok (canonical p))
      (length-layout_pack (canonical p)) h read
  where
    read : parse_pack (layout_pack (canonical p)) ≡ ok (canonical p)
    read =
        unfold parse_pack in
        rw
          (
            read_pack-layout (canonical p) (canonical-IsValid p v),
            exact_tail_self _ 20 (length-layout_pack (canonical p)),
          )
          (check_pack-canonical p)

check_rack_lem : (r : Rack) → check_rack r ≡ (if ltb r.sack 128 then ok r else err err_reserved)
unfolding check_rack
check_rack_lem r = ground (arith, bit_and-127 r.sack)

-- PutRack writes the two fields as given. ParseRack reads them back if only the sack bits of the
-- seven frames that a receiver can hold are set, and is ErrReserved if any other is.
pub parse_rack-put_rack :
    (dst : List ℕ) (r : Rack)
    → r.cum_ack < 2 ^ 32
    → r.sack < 2 ^ 32
    → 8 ≤ length dst
    → (d : List ℕ) × (put_rack dst r ≡ some (8, d))
      × (parse_rack (take 8 d) ≡ (if ltb r.sack 128 then ok r else err err_reserved))
      × (drop 8 d ≡ drop 8 dst)
unfolding put_rack
parse_rack-put_rack dst r hc hs h =
    put_front_read parse_rack dst (put_uint32 r.cum_ack ++ put_uint32 r.sack) 8
      (if ltb r.sack 128 then ok r else err err_reserved) refl h read
  where
    again : Rack
    again = record {
      cum_ack = uint32 (put_uint32 r.cum_ack) 0;
      sack = uint32 (put_uint32 r.sack) 0;
    }

    same : again ≡ r
    same = λ i. record { cum_ack = read32 r.cum_ack hc i; sack = read32 r.sack hs i }

    read :
        parse_rack (put_uint32 r.cum_ack ++ put_uint32 r.sack)
        ≡ (if ltb r.sack 128 then ok r else err err_reserved)
    read = unfold parse_rack exact_tail in ap check_rack same ∙ check_rack_lem r
