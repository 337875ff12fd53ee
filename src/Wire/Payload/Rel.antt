-- ===== src/Wire/Payload/Rel.antt =====
-- The REL payload: a control frame wrapped for the reliable sublayer (internal/wire/dgram.go).
use rendr.Common.{
  ℕ, ◌^◌, ◌≤◌, ◌<◌, ◌≡◌, refl, subst, true, not, ◌||◌, Option, List, ◌∷◌, ◌++◌, arith, ltb, ◌==◌,
  and_not, le→ltb, ltb→le, eq→==, length, drop, All, All-get_or, IsByte, byte, uint32, put_uint32,
  put_front, uint32-lt, read32, byte_field, uint32_field, fail_if, fail_if-ok, ok-injective, ok,
}
use rendr.Wire.Const
use rendr.Wire.Errors.{Decoded, err_short, err_type, err_flags, err_handle, err_length}
use rendr.Wire.FrameType.{wrappable, allowed_flags, payload_bounds, handle_ok}

pub record RelHead : Type 0 where
  pub cseq : ℕ
  pub type : ℕ
  pub flags : ℕ
  pub handle : ℕ

unfoldable pub layout_rel_head : RelHead → List ℕ
layout_rel_head h = put_uint32 h.cseq ++ h.type ∷ h.flags ∷ put_uint32 h.handle

-- PutRelHead writes the head alone; the inner payload follows it in the frame.
unfoldable pub put_rel_head : List ℕ → RelHead → Option (ℕ × List ℕ)
put_rel_head dst h = put_front dst (layout_rel_head h)

unfoldable pub read_rel_head : List ℕ → RelHead
read_rel_head p = record {
  cseq = uint32 p 0;
  type = byte p 4;
  flags = byte p 5;
  handle = uint32 p 6;
}

unfoldable pub check_rel : RelHead → List ℕ → Decoded (RelHead × List ℕ)
check_rel h inner =
    let bounds = payload_bounds h.type in
    fail_if (not (wrappable h.type)) err_type (
      fail_if (not (and_not h.flags (allowed_flags h.type) == 0)) err_flags (
        fail_if (not (handle_ok h.type h.handle)) err_handle (
          fail_if (ltb (length inner) bounds.0 || ltb bounds.1 (length inner)) err_length
            (ok (h, inner)))))

unfoldable pub parse_rel : List ℕ → Decoded (RelHead × List ℕ)
parse_rel p =
    fail_if (ltb (length p) Const.rel_head_len) err_short
      (check_rel (read_rel_head p) (drop Const.rel_head_len p))

-- The fields are values of their Go types.
pub record Fits (h : RelHead) : Type 0 where
  pub cseq_fits : h.cseq < 2 ^ 32
  pub type_fits : h.type < 256
  pub flags_fits : h.flags < 256
  pub handle_fits : h.handle < 2 ^ 32

-- What a REL may carry: a control frame whose own header would be accepted.
pub record Carries (h : RelHead) (inner : List ℕ) : Type 0 where
  pub is_wrappable : wrappable h.type ≡ true
  pub flags_allowed : and_not h.flags (allowed_flags h.type) ≡ 0
  pub handle_fine : handle_ok h.type h.handle ≡ true
  pub long_enough : (payload_bounds h.type).0 ≤ length inner
  pub short_enough : length inner ≤ (payload_bounds h.type).1

check_rel-eq : (h : RelHead) (inner : List ℕ) → Carries h inner → check_rel h inner ≡ ok (h, inner)
unfolding check_rel
check_rel-eq h inner c = rw (
  c.is_wrappable,
  eq→== _ 0 c.flags_allowed,
  c.handle_fine,
  le→ltb _ _ c.long_enough,
  le→ltb _ _ c.short_enough,
)

check_rel-Carries :
    (h : RelHead) (inner : List ℕ) {x : RelHead × List ℕ}
    → check_rel h inner ≡ ok x
    → Carries h inner × ((h, inner) ≡ x)
unfolding check_rel
check_rel-Carries h inner e =
    let (a, e1) = fail_if-ok (not (wrappable h.type)) _ _ e in
    let (b, e2) = fail_if-ok (not (and_not h.flags (allowed_flags h.type) == 0)) _ _ e1 in
    let (c, e3) = fail_if-ok (not (handle_ok h.type h.handle)) _ _ e2 in
    let (d, e4) =
      fail_if-ok
        (ltb (length inner) (payload_bounds h.type).0
          || ltb (payload_bounds h.type).1 (length inner))
        _ _ e3 in
    (
      record {
        is_wrappable = ground arith;
        flags_allowed = ground arith;
        handle_fine = ground arith;
        long_enough = ground arith;
        short_enough = ground arith;
      },
      ok-injective e4,
    )

read_rel_head-layout :
    (h : RelHead) (inner : List ℕ) → Fits h → read_rel_head (layout_rel_head h ++ inner) ≡ h
unfolding read_rel_head layout_rel_head
read_rel_head-layout h inner f = λ i. record {
  cseq = read32 h.cseq f.cseq_fits i;
  type = h.type;
  flags = h.flags;
  handle = read32 h.handle f.handle_fits i;
}

-- A REL head that PutRelHead laid out in front of an inner payload is read back by ParseRel with
-- that payload, if the head names a wrappable type whose header rules the two obey.
pub parse_rel-layout_rel_head :
    (h : RelHead) (inner : List ℕ)
    → Fits h
    → Carries h inner
    → parse_rel (layout_rel_head h ++ inner) ≡ ok (h, inner)
unfolding parse_rel
parse_rel-layout_rel_head h inner f c =
    rw
      (
        le→ltb (length (layout_rel_head h ++ inner)) 10 (unfold layout_rel_head in omega arith),
        read_rel_head-layout h inner f,
        behind,
      )
      (check_rel-eq h inner c)
  where
    behind : drop 10 (layout_rel_head h ++ inner) ≡ inner
    behind = unfold layout_rel_head in refl

-- What ParseRel accepts is a wrappable frame that obeys its type's header rules, and the input is
-- the layout of the head followed by the inner payload.
pub layout_rel_head-parse_rel :
    (p : List ℕ) (h : RelHead) (inner : List ℕ)
    → All IsByte p
    → parse_rel p ≡ ok (h, inner)
    → Fits h × Carries h inner × (layout_rel_head h ++ inner ≡ p)
unfolding parse_rel
layout_rel_head-parse_rel p h inner b e =
    let (long, e1) = fail_if-ok (ltb (length p) 10) _ _ e in
    let (c, same) = check_rel-Carries (read_rel_head p) (drop 10 p) e1 in
    subst (λ x. Fits x.0 × Carries x.0 x.1 × (layout_rel_head x.0 ++ x.1 ≡ p)) same
      (fits (ltb→le _ _ long), c, whole (ltb→le _ _ long))
  where
    fits : 10 ≤ length p → Fits (read_rel_head p)
    fits n =
        unfold read_rel_head in
        record {
          cseq_fits = uint32-lt p 0 b (omega arith);
          type_fits = All-get_or IsByte 4 0 p b (omega arith);
          flags_fits = All-get_or IsByte 5 0 p b (omega arith);
          handle_fits = uint32-lt p 6 b (omega arith);
        }

    whole : 10 ≤ length p → layout_rel_head (read_rel_head p) ++ drop 10 p ≡ p
    whole n =
        unfold read_rel_head layout_rel_head in
        uint32_field p 0 b (omega arith) (
          byte_field p 4 (omega arith)
            (byte_field p 5 (omega arith) (uint32_field p 6 b (omega arith) refl)))
