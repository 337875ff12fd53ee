-- ===== src/Wire/Payload/Rst.antt =====
-- The RST payload (internal/wire/payload.go).
use rendr.Common.{
  ℕ, ◌+◌, ◌-◌, ◌^◌, ◌≤◌, ◌<◌, ◌≡◌, refl, ap, ◌∙◌, Option, none, some, List, ◌∷◌, ◌++◌, arith, ltb,
  if◌then◌else◌, le→ltb, ltb→le, length, take, drop, All, length-drop, All-get_or, All-drop, IsByte,
  byte, uint32, put_uint32, put_front, uint32-lt, read32, put_front_read, byte_field, uint32_field,
  fail_if, fail_if-ok, check, check-ok, ok_subst, ok,
}
use rendr.Wire.Const
use rendr.Wire.Errors.{Decoded, err_short}
use rendr.Wire.Payload.Tail.{exact_tail, exact_tail-eq, exact_tail_self}

pub record Rst : Type 0 where
  pub code : ℕ
  pub msg : List ℕ

unfoldable pub layout_rst : Rst → List ℕ
layout_rst r = put_uint32 r.code ++ (length r.msg ∷ r.msg)

-- `none` is the panic on a message beyond MaxMsg, or on a buffer that is too small.
unfoldable pub put_rst : List ℕ → Rst → Option (ℕ × List ℕ)
put_rst dst r = if ltb Const.max_msg (length r.msg) then none else put_front dst (layout_rst r)

unfoldable pub parse_rst : List ℕ → Decoded Rst
parse_rst p = fail_if (ltb (length p) Const.rst_fixed_len) err_short (
    check (exact_tail (length p - Const.rst_fixed_len) (byte p 4))
      (ok (record { code = uint32 p 0; msg = drop Const.rst_fixed_len p })))

pub record IsValid (r : Rst) : Type 0 where
  pub code_fits : r.code < 2 ^ 32
  pub msg_bytes : All IsByte r.msg
  pub msg_fits : length r.msg ≤ 255

parse_rst-layout : (r : Rst) → IsValid r → parse_rst (layout_rst r) ≡ ok r
unfolding parse_rst layout_rst
parse_rst-layout r v =
    rw
      (
        le→ltb (length (layout_rst r)) 5 (omega arith),
        exact_tail_self (length (layout_rst r) - 5) (length r.msg) (omega arith),
      )
      (λ i. ok (record { code = read32 r.code v.code_fits i; msg = r.msg }))

-- PutRst writes a valid RST into a buffer that has room for it, ParseRst reads it back from those
-- bytes, and the rest of the buffer is unchanged.
pub parse_rst-put_rst :
    (dst : List ℕ) (r : Rst)
    → IsValid r
    → 5 + length r.msg ≤ length dst
    → (d : List ℕ) × (put_rst dst r ≡ some (5 + length r.msg, d))
      × (parse_rst (take (5 + length r.msg) d) ≡ ok r)
      × (drop (5 + length r.msg) d ≡ drop (5 + length r.msg) dst)
unfolding put_rst
parse_rst-put_rst dst r v h = rw (le→ltb 255 (length r.msg) v.msg_fits) (
    put_front_read parse_rst dst (layout_rst r) _ (ok r) (unfold layout_rst in omega arith) h
      (parse_rst-layout r v))

-- What ParseRst accepts, whatever the code, is a valid RST, and its bytes are the layout of it.
pub layout_rst-parse_rst :
    (p : List ℕ) (r : Rst) → All IsByte p → parse_rst p ≡ ok r → IsValid r × (layout_rst r ≡ p)
unfolding parse_rst layout_rst
layout_rst-parse_rst p r b h =
    let (long, h1) = fail_if-ok (ltb (length p) 5) _ _ h in
    let (exact, built) = check-ok (exact_tail (length p - 5) (byte p 4)) _ h1 in
    let n : 5 ≤ length p = ltb→le _ _ long in
    let k = exact_tail-eq _ _ exact in
    ok_subst (λ x. IsValid x × (layout_rst x ≡ p)) built
      (
        record {
          code_fits = uint32-lt p 0 b (omega arith);
          msg_bytes = All-drop IsByte 5 p b;
          msg_fits = omega (arith, length-drop 5 p, All-get_or IsByte 4 0 p b (omega arith));
        },
        uint32_field p 0 b (omega arith)
            (ap (λ n. n ∷ drop 5 p) (length-drop 5 p ∙ k) ∙ byte_field p 4 (omega arith) refl),
      )
