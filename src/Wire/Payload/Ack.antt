-- ===== src/Wire/Payload/Ack.antt =====
-- The ACK payload (internal/wire/payload.go).
use rendr.Common.{
  ℕ, ◌^◌, ◌≤◌, ◌<◌, ◌≡◌, refl, Option, some, List, ◌++◌, arith, length, take, drop, All, IsByte,
  uint32, uint64, put_uint32, put_uint64, put_front, uint32-lt, uint64-lt, read32, read64,
  put_front_read, uint32_field, uint64_field, no_more, check, check-ok, ok_subst, ok,
}
use rendr.Wire.Const.{ack_len}
use rendr.Wire.Errors.{Decoded}
use rendr.Wire.Payload.Tail.{exact_tail, exact_tail-eq}

pub record Ack : Type 0 where
  pub delivered : ℕ
  pub window : ℕ
  pub epoch_echo : ℕ

-- The fields are values of their Go types.
pub record IsValid (a : Ack) : Type 0 where
  pub delivered_fits : a.delivered < 2 ^ 64
  pub window_fits : a.window < 2 ^ 32
  pub epoch_echo_fits : a.epoch_echo < 2 ^ 32

unfoldable pub layout_ack : Ack → List ℕ
layout_ack a = put_uint64 a.delivered ++ put_uint32 a.window ++ put_uint32 a.epoch_echo

unfoldable pub put_ack : List ℕ → Ack → Option (ℕ × List ℕ)
unfolding layout_ack put_front
put_ack dst a = put_front dst (layout_ack a)

unfoldable pub parse_ack : List ℕ → Decoded Ack
unfolding exact_tail
parse_ack p =
    check (exact_tail (length p) ack_len)
      (ok (record { delivered = uint64 p 0; window = uint32 p 8; epoch_echo = uint32 p 12 }))

parse_ack-layout_ack : (a : Ack) → IsValid a → parse_ack (layout_ack a) ≡ ok a
unfolding parse_ack layout_ack
parse_ack-layout_ack a v = λ i. ok (record {
  delivered = read64 a.delivered v.delivered_fits i;
  window = read32 a.window v.window_fits i;
  epoch_echo = read32 a.epoch_echo v.epoch_echo_fits i;
})

-- In a buffer of at least AckLen bytes PutAck returns AckLen, ParseAck reads the same ACK back
-- from the bytes it wrote, and the rest of the buffer is unchanged.
pub parse_ack-put_ack :
    (dst : List ℕ) (a : Ack)
    → IsValid a
    → ack_len ≤ length dst
    → (d : List ℕ) × (put_ack dst a ≡ some (ack_len, d))
      × (parse_ack (take ack_len d) ≡ ok a)
      × (drop ack_len d ≡ drop ack_len dst)
unfolding put_ack
parse_ack-put_ack dst a v h =
    put_front_read parse_ack dst (layout_ack a) ack_len (ok a) refl h (parse_ack-layout_ack a v)

-- What ParseAck accepts is a valid ACK of exactly AckLen bytes, and PutAck writes those bytes for it.
pub layout_ack-parse_ack :
    (p : List ℕ) (a : Ack) → All IsByte p → parse_ack p ≡ ok a → IsValid a × (layout_ack a ≡ p)
unfolding parse_ack layout_ack
layout_ack-parse_ack p a b h =
    let (exact, built) = check-ok (exact_tail (length p) ack_len) _ h in
    let n : length p ≡ 16 = exact_tail-eq _ _ exact in
    ok_subst (λ x. IsValid x × (layout_ack x ≡ p)) built
      (
        record {
          delivered_fits = uint64-lt p 0 b (omega arith);
          window_fits = uint32-lt p 8 b (omega arith);
          epoch_echo_fits = uint32-lt p 12 b (omega arith);
        },
        uint64_field p 0 b (omega arith) (
            uint32_field p 8 b (omega arith)
              (uint32_field p 12 b (omega arith) (no_more p 16 (omega arith)))),
      )
