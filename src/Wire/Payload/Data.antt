-- ===== src/Wire/Payload/Data.antt =====
-- DATA offsets, and the FIN payload (internal/wire/payload.go).
use rendr.Common.{
  ℕ, ◌+◌, ◌-◌, ◌%◌, ◌^◌, ◌≤◌, ◌<◌, ◌≡◌, refl, ap, ◌↔◌, ◌||◌, Option, some, List, ◌++◌, arith, ltb,
  le→ltb, length, take, drop, uint64, put_uint64, put_front, read64, put_front_read, fail_if, check,
  ok, err,
}
use rendr.Wire.Const
use rendr.Wire.Errors.{Decoded, err_length, err_value}
use rendr.Wire.Payload.Tail.{exact_tail}

-- `none` is the panic on a buffer that is too small; PutDataOffset returns no count.
unfoldable pub put_data_offset : List ℕ → ℕ → Option (ℕ × List ℕ)
put_data_offset dst off = put_front dst (put_uint64 off)

-- The offset just past `n` bytes at `off`.
unfoldable pub data_end : ℕ → ℕ → Decoded ℕ
data_end off n =
    fail_if (ltb n 1 || ltb (Const.max_frame_payload - Const.data_prefix_len) n) err_length
      (fail_if (ltb (2 ^ 64 - 1 - n) off) err_value (ok ((off + n) % 2 ^ 64)))

abbrev and_then : Decoded ℕ → ℕ → Decoded ℕ
and_then (err e) off = err e
and_then (ok end) off = ok off

unfoldable pub parse_data_offset : List ℕ → Decoded ℕ
parse_data_offset p =
    fail_if (ltb (length p) Const.data_prefix_len) err_length
      (and_then (data_end (uint64 p 0) (length p - Const.data_prefix_len)) (uint64 p 0))

unfoldable pub put_fin : List ℕ → ℕ → Option (ℕ × List ℕ)
put_fin dst off = put_front dst (put_uint64 off)

unfoldable pub parse_fin : List ℕ → Decoded ℕ
parse_fin p = check (exact_tail (length p) Const.fin_len) (ok (uint64 p 0))

-- DataEnd succeeds exactly for the byte counts of one DATA frame whose end is a uint64, and then
-- the end is the sum: no wrap.
pub data_end_iff :
    (off n e : ℕ)
    → off < 2 ^ 64
    → (data_end off n ≡ ok e) ↔ ((1 ≤ n) × (n ≤ 2 ^ 20 - 8) × (off + n < 2 ^ 64) × (e ≡ off + n))
unfolding data_end
data_end_iff off n e h = (λ k. ground arith, λ k. ground arith)

data_end-fits :
    (off n : ℕ) → 1 ≤ n → n ≤ 2 ^ 20 - 8 → off + n < 2 ^ 64 → data_end off n ≡ ok (off + n)
data_end-fits off n h k f = (data_end_iff off n (off + n) (omega arith)).1 (h, k, f, refl)

-- A DATA payload is the offset and at least one byte. ParseDataOffset returns the offset that
-- PutDataOffset wrote in front of the bytes, when the end of the bytes is a uint64.
pub parse_data_offset-append :
    (off : ℕ) (body : List ℕ)
    → 1 ≤ length body
    → length body ≤ 2 ^ 20 - 8
    → off + length body < 2 ^ 64
    → parse_data_offset (put_uint64 off ++ body) ≡ ok off
unfolding parse_data_offset
parse_data_offset-append off body h k f =
    rw (le→ltb (length (put_uint64 off ++ body)) 8 (omega arith), start, whole) refl
  where
    start : uint64 (put_uint64 off ++ body) 0 ≡ off
    start = read64 off (omega arith)

    whole :
        data_end off (length (put_uint64 off ++ body) - 8)
        ≡ ok (off + (length (put_uint64 off ++ body) - 8))
    whole = data_end-fits off _ (omega arith) (omega arith) (omega arith)

-- In a buffer of at least FinLen bytes PutFin returns FinLen, ParseFin reads the offset back from
-- the bytes it wrote, and the rest of the buffer is unchanged.
pub parse_fin-put_fin :
    (dst : List ℕ) (off : ℕ)
    → off < 2 ^ 64
    → 8 ≤ length dst
    → (d : List ℕ) × (put_fin dst off ≡ some (8, d))
      × (parse_fin (take 8 d) ≡ ok off)
      × (drop 8 d ≡ drop 8 dst)
unfolding put_fin parse_fin exact_tail
parse_fin-put_fin dst off v h =
    put_front_read parse_fin dst (put_uint64 off) 8 (ok off) refl h (ap (λ t. ok t) (read64 off v))
