-- ===== src/Wire/Payload/Join.antt =====
-- The JOIN payload (internal/wire/payload.go).
use rendr.Common.{
  ℕ, ◌^◌, ◌≤◌, ◌<◌, ◌≡◌, refl, ◌∙◌, subst, false, ◌||◌, Option, some, List, ◌∷◌, ◌++◌, arith, ltb,
  length, take, drop, All, length-append, length-take, take-append, All-take, IsByte, byte, slice,
  uint64, put_uint64, put_front, uint64-lt, read64, byte-append, uint64-append, all_zero,
  put_front_read, byte_field, slice_field, uint64_field, no_more, fail_if, check, check-ok, ok,
}
use rendr.Wire.Const
use rendr.Wire.Errors.{Decoded, err_reserved, err_value}
use rendr.Wire.Payload.Tail.{exact_tail, exact_tail-eq, exact_tail_self}

pub record Join : Type 0 where
  pub sid : List ℕ
  pub mode : ℕ
  pub rx_next : ℕ

unfoldable pub layout_join : Join → List ℕ
layout_join j = j.sid ++ j.mode ∷ put_uint64 j.rx_next

unfoldable pub put_join : List ℕ → Join → Option (ℕ × List ℕ)
put_join dst j = put_front dst (layout_join j)

unfoldable pub check_join : Join → Decoded Join
check_join j =
    fail_if (all_zero j.sid) err_reserved
      (fail_if (ltb j.mode 1 || ltb Const.max_mode j.mode) err_value (ok j))

unfoldable pub read_join : List ℕ → Join
read_join p = record { sid = slice p 0 16; mode = byte p 16; rx_next = uint64 p 17 }

unfoldable pub parse_join : List ℕ → Decoded Join
parse_join p = check (exact_tail (length p) Const.join_len) (check_join (read_join p))

pub record IsValid (j : Join) : Type 0 where
  pub sid_length : length j.sid ≡ 16
  pub sid_bytes : All IsByte j.sid
  pub sid_nonzero : all_zero j.sid ≡ false
  pub mode_in : (1 ≤ j.mode) × (j.mode ≤ 3)
  pub rx_next_fits : j.rx_next < 2 ^ 64

check_join-eq : (j : Join) → IsValid j → check_join j ≡ ok j
unfolding check_join
check_join-eq j v = ground (arith, v.sid_nonzero)

length-layout_join : (j : Join) → length j.sid ≡ 16 → length (layout_join j) ≡ 25
unfolding layout_join
length-layout_join j h = omega (arith, length-append j.sid (j.mode ∷ put_uint64 j.rx_next))

read_join-layout : (j : Join) → IsValid j → read_join (layout_join j) ≡ j
unfolding read_join layout_join
read_join-layout j v = λ i. record {
  sid = take-append 16 j.sid r n i;
  mode = byte-append 16 j.sid r n 16 0 refl i;
  rx_next = (uint64-append 16 j.sid r n 17 1 refl ∙ read64 j.rx_next v.rx_next_fits) i;
}
  where
    r : List ℕ
    r = j.mode ∷ put_uint64 j.rx_next

    n : length j.sid ≡ 16
    n = v.sid_length

parse_join-layout : (j : Join) → IsValid j → parse_join (layout_join j) ≡ ok j
unfolding parse_join
parse_join-layout j v =
    rw (read_join-layout j v, exact_tail_self _ 25 (length-layout_join j v.sid_length))
      (check_join-eq j v)

-- In a buffer of at least JoinLen bytes PutJoin returns JoinLen, ParseJoin reads a valid JOIN
-- back from the bytes it wrote, and the rest of the buffer is unchanged.
pub parse_join-put_join :
    (dst : List ℕ) (j : Join)
    → IsValid j
    → 25 ≤ length dst
    → (d : List ℕ) × (put_join dst j ≡ some (25, d))
      × (parse_join (take 25 d) ≡ ok j)
      × (drop 25 d ≡ drop 25 dst)
unfolding put_join
parse_join-put_join dst j v h =
    put_front_read parse_join dst (layout_join j) 25 (ok j) (length-layout_join j v.sid_length) h
      (parse_join-layout j v)

check_join-ok :
    (j x : Join)
    → check_join j ≡ ok x
    → (all_zero j.sid ≡ false) × ((1 ≤ j.mode) × (j.mode ≤ 3)) × (j ≡ x)
unfolding check_join
check_join-ok j x h = ground arith

layout_join-read : (p : List ℕ) → All IsByte p → length p ≡ 25 → layout_join (read_join p) ≡ p
unfolding layout_join read_join
layout_join-read p b n =
    slice_field p 0 16 (
      byte_field p 16 (omega arith)
        (uint64_field p 17 b (omega arith) (no_more p 25 (omega arith))))

-- What ParseJoin accepts is a valid JOIN, and its bytes are those that PutJoin writes for it.
pub layout_join-parse_join :
    (p : List ℕ) (j : Join) → All IsByte p → parse_join p ≡ ok j → IsValid j × (layout_join j ≡ p)
unfolding parse_join
layout_join-parse_join p j b h =
    let (exact, h1) = check-ok (exact_tail (length p) 25) _ h in
    let (nonzero, mode, e) = check_join-ok (read_join p) j h1 in
    let n : length p ≡ 25 = exact_tail-eq _ _ exact in
    subst (λ x. IsValid x × (layout_join x ≡ p)) e (fields n nonzero mode, layout_join-read p b n)
  where
    fields :
        length p ≡ 25
        → all_zero (read_join p).sid ≡ false
        → (1 ≤ (read_join p).mode) × ((read_join p).mode ≤ 3)
        → IsValid (read_join p)
    fields n z m =
        unfold read_join in
        record {
          sid_length = omega (arith, length-take 16 p);
          sid_bytes = All-take IsByte 16 p b;
          sid_nonzero = z;
          mode_in = m;
          rx_next_fits = uint64-lt p 17 b (omega arith);
        }
