-- ===== src/Wire/Payload/Ping.antt =====
-- The PING and PONG payload and its zero padding (internal/wire/payload.go).
use rendr.Common.{
  ℕ, zero, suc, ◌+◌, ◌-◌, ◌*◌, ◌^◌, ◌≤◌, ◌<◌, ◌≡◌, refl, sym, ap, ◌∙◌, Bool, true, false, not,
  Option, none, some, List, [], ◌∷◌, ◌++◌, arith, ltb, ◌==◌, if◌then◌else◌, le→ltb, ltb→le, length,
  take, drop, replicate, All, length-drop, length-replicate, IsByte, uint32, uint64, put_uint32,
  put_uint64, put_front, uint32-lt, uint64-lt, read32, read64, all_zero, put_front_read,
  uint32_field, uint64_field, fail_if, fail_if-ok, check, check-ok, ok_subst, ok,
}
use rendr.Common.Int.{ℤ, pos, negsuc}
use rendr.Wire.Const
use rendr.Wire.Errors.{Error, Decoded, err_short, err_length, err_reserved}

pub record Ping : Type 0 where
  pub id : ℕ
  pub ts : ℕ
  pub nonce : ℕ
  pub pad : ℤ

-- `binary.LittleEndian.Uint64`.
abbrev little_endian : ℕ → ℕ → ℕ → ℕ → ℕ → ℕ → ℕ → ℕ → ℕ
little_endian a b c d e f g h =
    a + 256 * (b + 256 * (c + 256 * (d + 256 * (e + 256 * (f + 256 * (g + 256 * h))))))

-- The bytewise loop over what is left.
check_tail : List ℕ → Option Error
check_tail [] = none
check_tail (c ∷ rest) = if not (c == 0) then some err_reserved else check_tail rest

-- Eight bytes at a time while there are eight, then one at a time.
unfoldable pub check_pad : List ℕ → Option Error
unfolding check_tail
check_pad (a ∷ b ∷ c ∷ d ∷ e ∷ f ∷ g ∷ h ∷ rest) =
    let more = check_pad rest in
    if not (little_endian a b c d e f g h == 0) then some err_reserved else more
check_pad short = check_tail short

unfoldable pub layout_ping : Ping → ℕ → List ℕ
layout_ping p pad = put_uint32 p.id ++ (put_uint64 p.ts ++ (put_uint64 p.nonce ++ replicate pad 0))

-- `none` is the panic on a pad outside 0..MaxPingPad, or on a buffer that is too small.
put_padded : List ℕ → Ping → ℤ → Option (ℕ × List ℕ)
put_padded dst p (negsuc n) = none
put_padded dst p (pos pad) =
    if ltb Const.max_ping_pad pad then none else put_front dst (layout_ping p pad)

unfoldable pub put_ping : List ℕ → Ping → Option (ℕ × List ℕ)
unfolding put_padded layout_ping
put_ping dst p = put_padded dst p p.pad

unfoldable pub parse_ping : List ℕ → Decoded Ping
parse_ping p = fail_if (ltb (length p) Const.ping_fixed_len) err_short (
    fail_if (ltb Const.max_ping_pad (length p - Const.ping_fixed_len)) err_length (
      check (check_pad (drop Const.ping_fixed_len p)) (
        ok (record {
          id = uint32 p 0;
          ts = uint64 p 4;
          nonce = uint64 p 12;
          pad = pos (length p - Const.ping_fixed_len);
        }))))

check_tail-all_zero : (p : List ℕ) → check_tail p ≡ (if all_zero p then none else some err_reserved)
unfolding check_tail all_zero
check_tail-all_zero [] = refl
check_tail-all_zero (c ∷ rest) = ground (arith, check_tail-all_zero rest)

-- The wordwise check of CheckPad accepts exactly the paddings whose bytes are all zero.
pub check_pad-all_zero :
    (p : List ℕ) → check_pad p ≡ (if all_zero p then none else some err_reserved)
unfolding check_pad all_zero
check_pad-all_zero (a ∷ b ∷ c ∷ d ∷ e ∷ f ∷ g ∷ h ∷ rest) = ground (arith, check_pad-all_zero rest)
check_pad-all_zero p = check_tail-all_zero p

pub record IsValid (p : Ping) (pad : ℕ) : Type 0 where
  pub id_fits : p.id < 2 ^ 32
  pub ts_fits : p.ts < 2 ^ 64
  pub nonce_fits : p.nonce < 2 ^ 64
  pub pad_is : p.pad ≡ pos pad
  pub pad_fits : pad ≤ 65516

all_zero-replicate : (n : ℕ) → all_zero (replicate n 0) ≡ true
unfolding all_zero
all_zero-replicate zero = refl
all_zero-replicate (suc n) = all_zero-replicate n

all_zero-eq : (p : List ℕ) → all_zero p ≡ true → p ≡ replicate (length p) 0
unfolding all_zero
all_zero-eq [] h = refl
all_zero-eq (x ∷ p) h = ground (arith, all_zero-eq p)

parse_ping-layout : (p : Ping) (pad : ℕ) → IsValid p pad → parse_ping (layout_ping p pad) ≡ ok p
unfolding parse_ping layout_ping
parse_ping-layout p pad v =
    rw
      (
        le→ltb (length (layout_ping p pad)) 20 (omega arith),
        le→ltb 65516 (length (layout_ping p pad) - 20) (omega (arith, n, v.pad_fits)),
        check_pad-all_zero (replicate pad 0),
        all_zero-replicate pad,
      )
      (λ i. ok (record {
        id = read32 p.id v.id_fits i;
        ts = read64 p.ts v.ts_fits i;
        nonce = read64 p.nonce v.nonce_fits i;
        pad =
            (ap (λ t. pos t) {x = length (layout_ping p pad) - 20} {y = pad} (omega (arith, n))
                ∙ sym v.pad_is)
              i;
      }))
  where
    n : length (layout_ping p pad) ≡ 20 + pad
    n = omega (arith, length-replicate pad zero)

put_ping-layout :
    (dst : List ℕ) (p : Ping) (pad : ℕ)
    → IsValid p pad
    → put_ping dst p ≡ put_front dst (layout_ping p pad)
unfolding put_ping
put_ping-layout dst p pad v =
    ap (put_padded dst p) v.pad_is
    ∙ ap (λ t. if t then none else put_front dst (layout_ping p pad)) (le→ltb 65516 pad v.pad_fits)

-- PutPing writes a PING with its zero padding into a buffer that has room for it, ParsePing reads
-- it back from those bytes, pad length included, and the rest of the buffer is unchanged.
pub parse_ping-put_ping :
    (dst : List ℕ) (p : Ping) (pad : ℕ)
    → IsValid p pad
    → 20 + pad ≤ length dst
    → (d : List ℕ) × (put_ping dst p ≡ some (20 + pad, d))
      × (parse_ping (take (20 + pad) d) ≡ ok p)
      × (drop (20 + pad) d ≡ drop (20 + pad) dst)
parse_ping-put_ping dst p pad v h = rw (put_ping-layout dst p pad v) (
    put_front_read parse_ping dst (layout_ping p pad) (20 + pad) (ok p)
      (unfold layout_ping in omega (arith, length-replicate pad zero)) h
      (parse_ping-layout p pad v))

-- What ParsePing accepts is valid, and its bytes are the layout of it: the pad is all zeros.
pub layout_ping-parse_ping :
    (b : List ℕ) (p : Ping)
    → All IsByte b
    → parse_ping b ≡ ok p
    → IsValid p (length b - 20) × (layout_ping p (length b - 20) ≡ b)
unfolding parse_ping layout_ping
layout_ping-parse_ping b p a h =
    let (long, h1) = fail_if-ok (ltb (length b) 20) _ _ h in
    let (short, h2) = fail_if-ok (ltb 65516 (length b - 20)) _ _ h1 in
    let (zeros, e) = check-ok (check_pad (drop 20 b)) _ h2 in
    let n : 20 ≤ length b = ltb→le _ _ long in
    ok_subst (λ x. IsValid x (length b - 20) × (layout_ping x (length b - 20) ≡ b)) e
      (
        record {
          id_fits = uint32-lt b 0 a (omega arith);
          ts_fits = uint64-lt b 4 a (omega arith);
          nonce_fits = uint64-lt b 12 a (omega arith);
          pad_is = refl;
          pad_fits = ltb→le _ _ short;
        },
        uint32_field b 0 a (omega arith)
            (uint64_field b 4 a (omega arith) (uint64_field b 12 a (omega arith) (padding zeros))),
      )
  where
    padding : check_pad (drop 20 b) ≡ none → replicate (length b - 20) 0 ≡ drop 20 b
    padding z =
        ap (λ n. replicate n 0) (sym (length-drop 20 b))
        ∙ sym (
            all_zero-eq (drop 20 b)
              (zero_of (all_zero (drop 20 b)) (sym (check_pad-all_zero (drop 20 b)) ∙ z)))
      where
        zero_of : (t : Bool) → (if t then none else some err_reserved) ≡ none → t ≡ true
        zero_of true q = refl
        zero_of false q = cc
