-- ===== src/Wire/Payload/JoinAck.antt =====
-- The JOIN_ACK payload, on a dedicated carrier and as a view's answer on a MUX trunk
-- (internal/wire/payload.go).
use rendr.Common.{
  ℕ, ◌/◌, ◌%◌, ◌^◌, ◌≤◌, ◌<◌, ◌≡◌, refl, subst, ◌⊎◌, inl, inr, not, ◌&&◌, Option, some, List, ◌∷◌,
  ◌++◌, arith, ltb, ◌==◌, if◌then◌else◌, Bool-cases, length, take, drop, All, IsByte, byte, uint64,
  put_uint64, put_front, put_front-fits, uint64-lt, read64, put_front_read, byte_field,
  uint64_field, no_more, fail_if, check, check-ok, ok,
}
use mathlib.Core.Option
use rendr.Wire.Const
use rendr.Wire.Errors.{Decoded, err_reserved, err_value}
use rendr.Wire.Payload.Tail.{exact_tail, exact_tail-eq, exact_tail_self}

pub record JoinAck : Type 0 where
  pub status : ℕ
  pub rx_next : ℕ

unfoldable pub layout_join_ack : JoinAck → List ℕ
layout_join_ack a = a.status ∷ put_uint64 a.rx_next

-- The RxNext field that goes out: 0 for every status but OK.
unfoldable pub canonical : JoinAck → JoinAck
canonical a = record a { rx_next = if not (a.status == Const.status_ok) then 0 else a.rx_next }

unfoldable pub put_join_ack : List ℕ → JoinAck → Option (ℕ × List ℕ)
put_join_ack dst a = put_front dst (layout_join_ack (canonical a))

unfoldable pub read_join_ack : List ℕ → JoinAck
read_join_ack p = record { status = byte p 0; rx_next = uint64 p 1 }

unfoldable pub check_join_ack : JoinAck → Decoded JoinAck
check_join_ack a =
    fail_if (ltb Const.status_going_away a.status) err_value
      (fail_if (not (a.status == Const.status_ok) && not (a.rx_next == 0)) err_reserved (ok a))

unfoldable pub parse_join_ack : List ℕ → Decoded JoinAck
parse_join_ack p =
    check (exact_tail (length p) Const.join_ack_len) (check_join_ack (read_join_ack p))

-- `binary.BigEndian.PutUint64(dst[1:9], code)` over what PutJoinAck left.
unfoldable pub overwrite_rx_next : ℕ → ℕ × List ℕ → ℕ × List ℕ
overwrite_rx_next code (n, d) = (n, take 1 d ++ (put_uint64 code ++ drop 9 d))

-- PutJoinAck, with the code in the RxNext field of a refusal.
unfoldable pub put_join_ack_mux : List ℕ → JoinAck → ℕ → Option (ℕ × List ℕ)
put_join_ack_mux dst a code =
    if not (a.status == Const.status_ok)
    then Option.map (overwrite_rx_next code) (put_join_ack dst a)
    else put_join_ack dst a

unfoldable pub check_join_ack_mux : JoinAck → Decoded (JoinAck × ℕ)
check_join_ack_mux a = fail_if (ltb Const.status_going_away a.status) err_value (
    if a.status == Const.status_ok
    then ok (a, 0)
    else fail_if (not (a.rx_next / 2 ^ 32 == 0)) err_reserved
        (ok (record a { rx_next = 0 }, a.rx_next % 2 ^ 32)))

unfoldable pub parse_join_ack_mux : List ℕ → Decoded (JoinAck × ℕ)
parse_join_ack_mux p =
    check (exact_tail (length p) Const.join_ack_len) (check_join_ack_mux (read_join_ack p))

pub record IsValid (a : JoinAck) : Type 0 where
  pub status_known : a.status ≤ 5
  pub rx_next_fits : a.rx_next < 2 ^ 64

read_join_ack-layout : (a : JoinAck) → a.rx_next < 2 ^ 64 → read_join_ack (layout_join_ack a) ≡ a
unfolding read_join_ack layout_join_ack
read_join_ack-layout a h = λ i. record { status = a.status; rx_next = read64 a.rx_next h i }

length-layout_join_ack : (a : JoinAck) → length (layout_join_ack a) ≡ 9
unfolding layout_join_ack
length-layout_join_ack a = refl

check_join_ack-canonical :
    (a : JoinAck) → IsValid a → check_join_ack (canonical a) ≡ ok (canonical a)
unfolding check_join_ack canonical
check_join_ack-canonical a v = ground arith

rx_next-canonical : (a : JoinAck) → IsValid a → (canonical a).rx_next < 2 ^ 64
unfolding canonical
rx_next-canonical a v = ground arith

-- PutJoinAck writes RxNext 0 for every status but OK, and ParseJoinAck reads that form back.
pub parse_join_ack-put_join_ack :
    (dst : List ℕ) (a : JoinAck)
    → IsValid a
    → 9 ≤ length dst
    → (d : List ℕ) × (put_join_ack dst a ≡ some (9, d))
      × (parse_join_ack (take 9 d) ≡ ok (canonical a))
      × (drop 9 d ≡ drop 9 dst)
unfolding put_join_ack
parse_join_ack-put_join_ack dst a v h =
    put_front_read parse_join_ack dst (layout_join_ack (canonical a)) 9 (ok (canonical a))
      (length-layout_join_ack (canonical a)) h read
  where
    read : parse_join_ack (layout_join_ack (canonical a)) ≡ ok (canonical a)
    read =
        unfold parse_join_ack in
        rw
          (
            read_join_ack-layout (canonical a) (rx_next-canonical a v),
            exact_tail_self _ 9 (length-layout_join_ack (canonical a)),
          )
          (check_join_ack-canonical a v)

check_join_ack-ok :
    (a x : JoinAck)
    → check_join_ack a ≡ ok x
    → (a.status ≤ 5) × ((a.status ≡ 0) ⊎ (a.rx_next ≡ 0)) × (a ≡ x)
unfolding check_join_ack
check_join_ack-ok a x h = ground arith

layout_join_ack-read :
    (p : List ℕ) → All IsByte p → length p ≡ 9 → layout_join_ack (read_join_ack p) ≡ p
unfolding layout_join_ack read_join_ack
layout_join_ack-read p b n =
    byte_field p 0 (omega arith) (uint64_field p 1 b (omega arith) (no_more p 9 (omega arith)))

read_join_ack-fits : (p : List ℕ) → All IsByte p → length p ≡ 9 → (read_join_ack p).rx_next < 2 ^ 64
unfolding read_join_ack
read_join_ack-fits p b n = uint64-lt p 1 b (omega arith)

-- What ParseJoinAck accepts is a valid answer whose RxNext is 0 unless its status is OK, and its
-- bytes are the layout of that answer.
pub layout_join_ack-parse_join_ack :
    (p : List ℕ) (a : JoinAck)
    → All IsByte p
    → parse_join_ack p ≡ ok a
    → IsValid a × ((a.status ≡ 0) ⊎ (a.rx_next ≡ 0)) × (layout_join_ack a ≡ p)
unfolding parse_join_ack
layout_join_ack-parse_join_ack p a b h =
    let (exact, h1) = check-ok (exact_tail (length p) 9) _ h in
    let (known, form, e) = check_join_ack-ok (read_join_ack p) a h1 in
    let n : length p ≡ 9 = exact_tail-eq _ _ exact in
    subst (λ x. IsValid x × ((x.status ≡ 0) ⊎ (x.rx_next ≡ 0)) × (layout_join_ack x ≡ p)) e
      (
        record { status_known = known; rx_next_fits = read_join_ack-fits p b n },
        form,
        layout_join_ack-read p b n,
      )

-- The answer that goes out on a trunk: the code of a refusal in the RxNext field.
abbrev answer : JoinAck → ℕ → JoinAck
answer a code = record a { rx_next = if a.status == Const.status_ok then a.rx_next else code }

put_join_ack_mux-answer :
    (dst : List ℕ) (a : JoinAck) (code : ℕ)
    → 9 ≤ length dst
    → put_join_ack_mux dst a code ≡ put_front dst (layout_join_ack (answer a code))
unfolding put_join_ack_mux put_join_ack overwrite_rx_next layout_join_ack canonical
put_join_ack_mux-answer dst a code h = elim (Bool-cases (a.status == 0)) [
  | inl e ↦ rw e
  | inr e ↦ rw (
    e,
    put_front-fits dst (a.status ∷ put_uint64 0) h,
    put_front-fits dst (a.status ∷ put_uint64 code) h,
  )
]

-- What the peer reads of such an answer: a refusal's code, apart from RxNext.
abbrev pub shown : JoinAck → ℕ → JoinAck × ℕ
shown a code = if a.status == Const.status_ok then (a, 0) else (record a { rx_next = 0 }, code)

check_join_ack_mux-answer :
    (a : JoinAck) (code : ℕ)
    → IsValid a
    → code < 2 ^ 32
    → check_join_ack_mux (answer a code) ≡ ok (shown a code)
unfolding check_join_ack_mux
check_join_ack_mux-answer a code v h = ground arith

-- On a trunk PutJoinAckMux carries a refusal's 32-bit code, and ParseJoinAckMux returns it with
-- RxNext 0; an OK answer keeps its RxNext and has code 0.
pub parse_join_ack_mux-put_join_ack_mux :
    (dst : List ℕ) (a : JoinAck) (code : ℕ)
    → IsValid a
    → code < 2 ^ 32
    → 9 ≤ length dst
    → (d : List ℕ) × (put_join_ack_mux dst a code ≡ some (9, d))
      × (parse_join_ack_mux (take 9 d) ≡ ok (shown a code))
      × (drop 9 d ≡ drop 9 dst)
parse_join_ack_mux-put_join_ack_mux dst a code v hc h = rw (put_join_ack_mux-answer dst a code h) (
    put_front_read parse_join_ack_mux dst (layout_join_ack (answer a code)) 9 (ok (shown a code))
      (length-layout_join_ack (answer a code)) h read)
  where
    fits : (answer a code).rx_next < 2 ^ 64
    fits = ground arith

    read : parse_join_ack_mux (layout_join_ack (answer a code)) ≡ ok (shown a code)
    read =
        unfold parse_join_ack_mux in
        rw
          (
            read_join_ack-layout (answer a code) fits,
            exact_tail_self _ 9 (length-layout_join_ack (answer a code)),
          )
          (check_join_ack_mux-answer a code v hc)
