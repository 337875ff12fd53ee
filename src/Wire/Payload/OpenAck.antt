-- ===== src/Wire/Payload/OpenAck.antt =====
-- The OPEN_ACK payload (internal/wire/payload.go).
use rendr.Common.{
  ℕ, ◌+◌, ◌-◌, ◌^◌, ◌≤◌, ◌<◌, ◌≡◌, refl, ap, ◌∙◌, subst, ◌≢◌, ◌⊎◌, not, ◌||◌, Option, none, some,
  List, [], ◌∷◌, ◌++◌, arith, ltb, ◌==◌, if◌then◌else◌, le→ltb, ltb→le, length, take, drop, All,
  length-drop, All-get_or, All-drop, IsByte, byte, uint32, put_uint32, put_front, uint32-lt, read32,
  put_front_read, byte_field, uint32_field, fail_if, fail_if-ok, check, check-ok, ok,
}
use rendr.Wire.Const
use rendr.Wire.Errors.{Decoded, err_short, err_reserved, err_value}
use rendr.Wire.Payload.Tail.{exact_tail, exact_tail-eq, exact_tail_self}

pub record OpenAck : Type 0 where
  pub status : ℕ
  pub window : ℕ
  pub code : ℕ
  pub msg : List ℕ

-- The fields as they go out: Window 0 unless OK, and Code 0 and no Msg for OK.
unfoldable pub canonical : OpenAck → OpenAck
canonical a =
    if a.status == Const.status_ok then record a { code = 0; msg = [] } else record a { window = 0 }

unfoldable pub layout_open_ack : OpenAck → List ℕ
layout_open_ack a =
    a.status ∷ (put_uint32 a.window ++ (put_uint32 a.code ++ (length a.msg ∷ a.msg)))

-- `none` is the panic on a message beyond MaxMsg, or on a buffer that is too small.
unfoldable pub put_open_ack : List ℕ → OpenAck → Option (ℕ × List ℕ)
put_open_ack dst a =
    if ltb Const.max_msg (length a.msg) then none else put_front dst (layout_open_ack (canonical a))

-- The status and the canonical zero fields.
unfoldable pub check_open_ack : OpenAck → ℕ → Decoded OpenAck
check_open_ack a mlen = fail_if (ltb Const.status_going_away a.status) err_value (
    if a.status == Const.status_ok
    then fail_if (not (a.code == 0) || not (mlen == 0)) err_reserved (ok a)
    else fail_if (not (a.window == 0)) err_reserved (ok a))

unfoldable pub read_open_ack : List ℕ → OpenAck
read_open_ack p = record {
  status = byte p 0;
  window = uint32 p 1;
  code = uint32 p 5;
  msg = drop Const.open_ack_fixed_len p;
}

unfoldable pub parse_open_ack : List ℕ → Decoded OpenAck
parse_open_ack p = fail_if (ltb (length p) Const.open_ack_fixed_len) err_short (
    check (exact_tail (length p - Const.open_ack_fixed_len) (byte p 9))
      (check_open_ack (read_open_ack p) (byte p 9)))

-- The fields are values of their types and the message is not too long.
pub record IsValid (a : OpenAck) : Type 0 where
  pub status_known : a.status ≤ 5
  pub window_fits : a.window < 2 ^ 32
  pub code_fits : a.code < 2 ^ 32
  pub msg_bytes : All IsByte a.msg
  pub msg_fits : length a.msg ≤ 255

-- The status decides which fields are zero.
abbrev pub IsCanonical : OpenAck → Type 0
IsCanonical a =
    ((a.status ≡ 0) × (a.code ≡ 0) × (length a.msg ≡ 0)) ⊎ ((a.status ≢ 0) × (a.window ≡ 0))

canonical-IsValid : (a : OpenAck) → IsValid a → IsValid (canonical a)
unfolding canonical
canonical-IsValid a v = ground arith

canonical-IsCanonical : (a : OpenAck) → IsCanonical (canonical a)
unfolding canonical
canonical-IsCanonical a = ground arith

length-canonical : (a : OpenAck) → length (canonical a).msg ≤ length a.msg
unfolding canonical
length-canonical a = ground arith

read_open_ack-layout : (a : OpenAck) → IsValid a → read_open_ack (layout_open_ack a) ≡ a
unfolding read_open_ack layout_open_ack
read_open_ack-layout a v = λ i. record {
  status = a.status;
  window = read32 a.window v.window_fits i;
  code = read32 a.code v.code_fits i;
  msg = a.msg;
}

check_open_ack-eq :
    (a : OpenAck) → IsValid a → IsCanonical a → check_open_ack a (length a.msg) ≡ ok a
unfolding check_open_ack
check_open_ack-eq a v c = ground arith

parse_open_ack-layout :
    (a : OpenAck) → IsValid a → IsCanonical a → parse_open_ack (layout_open_ack a) ≡ ok a
unfolding parse_open_ack
parse_open_ack-layout a v c =
    rw
      (
        read_open_ack-layout a v,
        le→ltb (length (layout_open_ack a)) 10 (unfold layout_open_ack in omega arith),
        shown,
        exact_tail_self (length (layout_open_ack a) - 10) (length a.msg)
            (unfold layout_open_ack in omega arith),
      )
      (check_open_ack-eq a v c)
  where
    shown : byte (layout_open_ack a) 9 ≡ length a.msg
    shown = unfold layout_open_ack in refl

-- Whatever fields it is given, PutOpenAck writes the canonical form of the answer and ParseOpenAck
-- reads that form back; the rest of the buffer is unchanged.
pub parse_open_ack-put_open_ack :
    (dst : List ℕ) (a : OpenAck)
    → IsValid a
    → 10 + length a.msg ≤ length dst
    → let n = 10 + length (canonical a).msg in
      (d : List ℕ) × (put_open_ack dst a ≡ some (n, d))
      × (parse_open_ack (take n d) ≡ ok (canonical a))
      × (drop n d ≡ drop n dst)
unfolding put_open_ack
parse_open_ack-put_open_ack dst a v h = rw (le→ltb 255 (length a.msg) v.msg_fits) (
    put_front_read parse_open_ack dst (layout_open_ack (canonical a)) _ (ok (canonical a))
      (unfold layout_open_ack in omega arith) (omega (arith, length-canonical a))
      (parse_open_ack-layout (canonical a) (canonical-IsValid a v) (canonical-IsCanonical a)))

check_open_ack-ok :
    (a x : OpenAck) (mlen : ℕ)
    → check_open_ack a mlen ≡ ok x
    → (a.status ≤ 5)
      × (((a.status ≡ 0) × (a.code ≡ 0) × (mlen ≡ 0)) ⊎ ((a.status ≢ 0) × (a.window ≡ 0)))
      × (a ≡ x)
unfolding check_open_ack
check_open_ack-ok a x mlen h = ground arith

layout_open_ack-read :
    (p : List ℕ)
    → All IsByte p
    → 10 ≤ length p
    → length p - 10 ≡ byte p 9
    → layout_open_ack (read_open_ack p) ≡ p
unfolding layout_open_ack read_open_ack
layout_open_ack-read p b h e = byte_field p 0 (omega arith) (
    uint32_field p 1 b (omega arith) (
      uint32_field p 5 b (omega arith)
        (ap (λ n. n ∷ drop 10 p) (length-drop 10 p ∙ e) ∙ byte_field p 9 (omega arith) refl)))

-- What ParseOpenAck accepts is a valid answer in canonical form, and its bytes are those that
-- PutOpenAck lays out for it.
pub layout_open_ack-parse_open_ack :
    (p : List ℕ) (a : OpenAck)
    → All IsByte p
    → parse_open_ack p ≡ ok a
    → IsValid a × IsCanonical a × (layout_open_ack a ≡ p)
unfolding parse_open_ack
layout_open_ack-parse_open_ack p a b h =
    let (long, h1) = fail_if-ok (ltb (length p) 10) _ _ h in
    let (exact, h2) = check-ok (exact_tail (length p - 10) (byte p 9)) _ h1 in
    let (known, form, e) = check_open_ack-ok (read_open_ack p) a _ h2 in
    let n : 10 ≤ length p = ltb→le _ _ long in
    let k = exact_tail-eq _ _ exact in
    subst (λ x. IsValid x × IsCanonical x × (layout_open_ack x ≡ p)) e
      (fields n k known, shape k form, layout_open_ack-read p b n k)
  where
    fields :
        10 ≤ length p
        → length p - 10 ≡ byte p 9
        → (read_open_ack p).status ≤ 5
        → IsValid (read_open_ack p)
    fields n k s =
        unfold read_open_ack in
        record {
          status_known = s;
          window_fits = uint32-lt p 1 b (omega arith);
          code_fits = uint32-lt p 5 b (omega arith);
          msg_bytes = All-drop IsByte 10 p b;
          msg_fits = omega (arith, length-drop 10 p, All-get_or IsByte 9 0 p b (omega arith));
        }

    shape :
        length p - 10 ≡ byte p 9
        → (((read_open_ack p).status ≡ 0) × ((read_open_ack p).code ≡ 0) × (byte p 9 ≡ 0))
          ⊎ (((read_open_ack p).status ≢ 0) × ((read_open_ack p).window ≡ 0))
        → IsCanonical (read_open_ack p)
    shape k f = unfold read_open_ack in ground (arith, length-drop 10 p)
