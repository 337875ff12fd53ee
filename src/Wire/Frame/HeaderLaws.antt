-- ===== src/Wire/Frame/HeaderLaws.antt =====
-- Headers: what PutHeader writes ParseHeader reads, and what ParseHeader accepts.
use rendr.Common.{
  ℕ, ◌+◌, ◌*◌, ◌/◌, ◌%◌, ◌^◌, ◌≤◌, ◌<◌, ◌≡◌, refl, ap, ◌∙◌, subst, ◌⊎◌, inl, inr, true, false, some,
  List, ◌∷◌, ◌++◌, arith, ltb, and_not, le→ltb, ltb→le, eq→==, length, drop, All, length-append,
  drop-append, All-get_or, IsByte, byte, put_front-fits, uint32-lt, read32, byte_field,
  uint32_field, fail_if-ok, ok,
}
use rendr.Wire.FrameType.{extension, known, allowed_flags, payload_bounds, handle_ok}
use rendr.Wire.Frame.{
  Header, IsValid, layout_header, put_header, read_header, check_header, parse_header,
}

read_header-layout :
    (h : Header) (rest : List ℕ) → IsValid h → read_header (layout_header h ++ rest) ≡ h
unfolding read_header layout_header
read_header-layout h rest v = λ i. record {
  type = h.type;
  flags = h.flags;
  len = len24 i;
  fseq = read32 h.fseq v.fseq_fits i;
  handle = read32 h.handle v.handle_fits i;
}
  where
    len24 : h.len / 65536 % 256 * 65536 + h.len / 256 % 256 * 256 + h.len % 256 ≡ h.len
    len24 = omega (arith, v.len_fits)

check_header-eq : (h : Header) → IsValid h → check_header h ≡ ok h
unfolding check_header
check_header-eq h v = rw (le→ltb (2 ^ 20) h.len v.len_fits) (elim v.rules [
  | inl e ↦ rw e
  | inr (core, k, f, hd, lo, hi) ↦ rw (core, k, eq→== _ 0 f, hd, le→ltb _ _ lo, le→ltb _ _ hi)
])

pub length-layout_header : (h : Header) → length (layout_header h) ≡ 13
unfolding layout_header
length-layout_header h = refl

-- ParseHeader looks at the first 13 bytes only.
pub parse_header-layout_header :
    (h : Header) (rest : List ℕ) → IsValid h → parse_header (layout_header h ++ rest) ≡ ok h
unfolding parse_header
parse_header-layout_header h rest v =
    rw
      (
        read_header-layout h rest v,
        le→ltb (length (layout_header h ++ rest)) 13
            (omega (arith, length-append (layout_header h) rest, length-layout_header h)),
      )
      (check_header-eq h v)

-- PutHeader writes a valid header into a buffer of at least HeaderLen bytes, ParseHeader reads it
-- back there whatever follows, and the bytes behind it are unchanged.
pub parse_header-put_header :
    (b : List ℕ) (h : Header)
    → IsValid h
    → 13 ≤ length b
    → (d : List ℕ) × (put_header b h ≡ some (13, d))
      × (parse_header d ≡ ok h)
      × (drop 13 d ≡ drop 13 b)
unfolding put_header layout_header
parse_header-put_header b h v fits = rw (le→ltb (2 ^ 20) h.len v.len_fits) (
  layout_header h ++ drop 13 b,
  put_front-fits b (layout_header h) (omega (arith, length-layout_header h)),
  parse_header-layout_header h (drop 13 b) v,
  drop-append 13 (layout_header h) (drop 13 b) (length-layout_header h),
)

-- The rules that an accepted header obeys.
abbrev Rules : Header → Type 0
Rules h =
    (extension h.type ≡ true)
    ⊎ ((extension h.type ≡ false)
        × (known h.type ≡ true)
        × (and_not h.flags (allowed_flags h.type) ≡ 0)
        × (handle_ok h.type h.handle ≡ true)
        × ((payload_bounds h.type).0 ≤ h.len)
        × (h.len ≤ (payload_bounds h.type).1))

check_header-Rules : (h x : Header) → check_header h ≡ ok x → (h.len ≤ 2 ^ 20) × Rules h × (h ≡ x)
unfolding check_header
check_header-Rules h x e = ground arith

read_header-IsValid :
    (b : List ℕ)
    → All IsByte b
    → 13 ≤ length b
    → (read_header b).len ≤ 2 ^ 20
    → Rules (read_header b)
    → IsValid (read_header b)
unfolding read_header
read_header-IsValid b a n l r = record {
  type_fits = All-get_or IsByte 0 0 b a (omega arith);
  flags_fits = All-get_or IsByte 1 0 b a (omega arith);
  fseq_fits = uint32-lt b 5 a (omega arith);
  handle_fits = uint32-lt b 9 a (omega arith);
  len_fits = l;
  rules = r;
}

split24 :
    (x y z : ℕ) (t : List ℕ)
    → x < 256
    → y < 256
    → z < 256
    → (x * 65536 + y * 256 + z) / 65536 % 256
        ∷ (x * 65536 + y * 256 + z) / 256 % 256
        ∷ (x * 65536 + y * 256 + z) % 256
        ∷ t
      ≡ x ∷ y ∷ z ∷ t
split24 x y z t hx hy hz = ground arith

layout_header-read :
    (b : List ℕ) → All IsByte b → 13 ≤ length b → layout_header (read_header b) ++ drop 13 b ≡ b
unfolding read_header layout_header
layout_header-read b a n =
    ap (λ t. byte b 0 ∷ byte b 1 ∷ t)
      (split24 (byte b 2) (byte b 3) (byte b 4) _ (at 2 (omega arith)) (at 3 (omega arith))
        (at 4 (omega arith)))
    ∙ byte_field b 0 (omega arith) (
        byte_field b 1 (omega arith) (
          byte_field b 2 (omega arith) (
            byte_field b 3 (omega arith) (
              byte_field b 4 (omega arith)
                (uint32_field b 5 a (omega arith) (uint32_field b 9 a (omega arith) refl))))))
  where
    at : (k : ℕ) → k < length b → byte b k < 256
    at k hk = All-get_or IsByte k 0 b a hk

-- A header that ParseHeader accepts is valid, and its layout is the first 13 bytes of the input.
pub layout_header-parse_header :
    (b : List ℕ) (h : Header)
    → All IsByte b
    → parse_header b ≡ ok h
    → (13 ≤ length b) × IsValid h × (layout_header h ++ drop 13 b ≡ b)
unfolding parse_header
layout_header-parse_header b h a e =
    let (long, e1) = fail_if-ok (ltb (length b) 13) _ _ e in
    let (l, r, same) = check_header-Rules (read_header b) h e1 in
    let n : 13 ≤ length b = ltb→le _ _ long in
    subst (λ x. (13 ≤ length b) × IsValid x × (layout_header x ++ drop 13 b ≡ b)) same
      (n, read_header-IsValid b a n l r, layout_header-read b a n)
