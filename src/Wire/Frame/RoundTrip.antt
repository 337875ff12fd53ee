-- ===== src/Wire/Frame/RoundTrip.antt =====
-- Whole frames: one after another, cut short, and what DecodeFrame accepts.
use rendr.Common.{
  ℕ, ◌+◌, ◌-◌, ◌^◌, ◌≤◌, ◌<◌, ◌≡◌, refl, sym, ap, ◌∙◌, Bool, true, false, not, some, List, ◌++◌,
  arith, ltb, ◌==◌, lt→ltb, le→ltb, ltb→le, ==-eq, eq→==, length, take, drop, All, length-append,
  length-take, length-drop, take-append, drop-append, take-append-drop, take-append_more, IsByte,
  slice, uint32, put_uint32, put_front, read32, uint32-append, uint32_field, fail_if-ok, ok_subst,
  >>=-ok, ok, err,
}
use mathlib.Core.List.{append_assoc}
use native.Mathlib.Decide.{dec_lt}
use rendr.Wire.Checksum.{Checksum}
use rendr.Wire.Errors.{err_short}
use rendr.Wire.Frame.{
  Header, IsValid, Frame, layout_header, put_header, parse_header, with_trailer, append_frame,
  decode_frame,
}
use rendr.Wire.Frame.HeaderLaws.{
  length-layout_header, parse_header-layout_header, layout_header-parse_header,
}

module _ (c : Checksum) (h : Header) (payload : List ℕ) where
  -- A frame as it stands on the wire.
  abbrev encoded : List ℕ
  encoded = with_trailer c (layout_header h ++ payload)

  length-encoded : length encoded ≡ 17 + length payload
  unfolding with_trailer
  length-encoded = omega (
    arith,
    length-append (layout_header h ++ payload) (put_uint32 (c.crc (layout_header h ++ payload))),
    length-append (layout_header h) payload,
    length-layout_header h,
  )

  module _ (v : IsValid h) (whole : h.len ≡ length payload) (rest : List ℕ) where
    body : List ℕ
    body = layout_header h ++ payload

    tail : List ℕ
    unfolding body
    tail = put_uint32 (c.crc body) ++ rest

    length-body : length body ≡ 13 + h.len
    unfolding body
    length-body = omega (arith, length-append (layout_header h) payload, length-layout_header h)

    header_read : parse_header (body ++ tail) ≡ ok h
    unfolding body
    header_read =
        rw (append_assoc (layout_header h) payload tail)
          (parse_header-layout_header h (payload ++ tail) v)

    payload_read : slice (body ++ tail) 13 h.len ≡ payload
    unfolding body
    payload_read =
        ap (λ t. take h.len (drop 13 t)) (append_assoc (layout_header h) payload tail)
        ∙ ap (λ t. take h.len t)
            (drop-append 13 (layout_header h) (payload ++ tail) (length-layout_header h))
        ∙ take-append h.len payload tail (sym whole)

    trailer_read : uint32 (body ++ tail) (13 + h.len) ≡ c.crc body
    unfolding tail
    trailer_read =
        uint32-append (13 + h.len) body tail length-body (13 + h.len) 0 (omega arith)
        ∙ read32 (c.crc body) (c.crc_fits body)

    decode_frame-body :
        decode_frame c (body ++ tail)
        ≡ ok (record { header = h; payload = payload }, 13 + h.len + 4)
    unfolding decode_frame
    decode_frame-body = rw (
      header_read,
      take-append (13 + h.len) body tail length-body,
      trailer_read,
      payload_read,
      le→ltb (length (body ++ tail) - 4) (13 + h.len) long,
      eq→== (c.crc body) (c.crc body) refl,
    )
      where
        long : 13 + h.len ≤ length (body ++ tail) - 4
        long =
            unfold tail in
            omega (arith, length-append body (put_uint32 (c.crc body) ++ rest), length-body)

    decode_frame-encoded :
        decode_frame c (encoded ++ rest)
        ≡ ok (record { header = h; payload = payload }, length encoded)
    unfolding with_trailer body tail
    decode_frame-encoded =
        rw
          (append_assoc (layout_header h ++ payload)
            (put_uint32 (c.crc (layout_header h ++ payload))) rest)
          (decode_frame-body ∙ ap (λ n. ok (record { header = h; payload = payload }, n)) size)
      where
        size : 13 + h.len + 4 ≡ length encoded
        size = omega (arith, length-encoded)

  -- Where the header is there and the frame is not all there, DecodeFrame waits for more.
  short_body :
      (n : ℕ) (v : IsValid h)
      → h.len ≡ length payload
      → n < 4 + length payload
      → decode_frame c
          (layout_header h ++ take n (payload ++ put_uint32 (c.crc (layout_header h ++ payload))))
        ≡ err err_short
  unfolding decode_frame
  short_body n v whole less = rw (
    parse_header-layout_header h seen v,
    lt→ltb (length (layout_header h ++ seen) - 4) (13 + h.len) short,
  )
    where
      seen : List ℕ
      seen = take n (payload ++ put_uint32 (c.crc (layout_header h ++ payload)))

      short : length (layout_header h ++ seen) - 4 < 13 + h.len
      short = omega (
        arith,
        length-append (layout_header h) seen,
        length-layout_header h,
        length-take n (payload ++ put_uint32 (c.crc (layout_header h ++ payload))),
      )

-- The trailer stands behind the payload.
split_trailer :
    (c : Checksum) (h : Header) (payload : List ℕ)
    → encoded c h payload
      ≡ layout_header h ++ (payload ++ put_uint32 (c.crc (layout_header h ++ payload)))
unfolding with_trailer
split_trailer c h payload =
    append_assoc (layout_header h) payload (put_uint32 (c.crc (layout_header h ++ payload)))

no_header : (c : Checksum) (b : List ℕ) → length b < 13 → decode_frame c b ≡ err err_short
unfolding decode_frame parse_header
no_header c b n = rw (lt→ltb (length b) 13 n)

append_frame-encoded :
    (c : Checksum) (dst : List ℕ) (h : Header) (payload : List ℕ)
    → length payload ≤ 2 ^ 20
    → append_frame c dst h payload
      ≡ some (dst ++ encoded c (record h { len = length payload }) payload)
unfolding append_frame put_header layout_header put_front
append_frame-encoded c dst h payload fits = rw (le→ltb (2 ^ 20) (length payload) fits)

cut_short :
    (c : Checksum) (h : Header) (payload : List ℕ)
    → IsValid h
    → h.len ≡ length payload
    → (n : ℕ) → n < length (encoded c h payload)
    → decode_frame c (take n (encoded c h payload)) ≡ err err_short
cut_short c h payload v whole n less = elim (dec_lt n 13) [
  | yes few ↦
      no_header c (take n (encoded c h payload))
        (omega (arith, length-take n (encoded c h payload)))
  | no many ↦
      ap (decode_frame c) (front many)
      ∙ short_body c h payload (n - 13) v whole (omega (arith, length-encoded c h payload))
]
  where
    rest : List ℕ
    rest = payload ++ put_uint32 (c.crc (layout_header h ++ payload))

    front : ¬ (n < 13) → take n (encoded c h payload) ≡ layout_header h ++ take (n - 13) rest
    front many =
        ap (λ t. take n t) (split_trailer c h payload)
        ∙ ap (λ k. take k (layout_header h ++ rest)) {x = n} {y = 13 + (n - 13)} (omega arith)
        ∙ take-append_more (n - 13) 13 (layout_header h) rest (length-layout_header h)

-- A frame that AppendFrame encoded behind `dst`, of a header that is valid with the payload's length
-- (its fields in range, and an extension type, or a known type whose flags, handle and payload
-- length are allowed), takes 17 bytes more than its payload. DecodeFrame returns its header, its
-- payload and its size whatever bytes follow it, and answers ErrShort for every proper prefix of it.
pub decode_frame-append_frame :
    (c : Checksum) (dst : List ℕ) (h : Header) (payload rest : List ℕ) (n : ℕ)
    → IsValid (record h { len = length payload })
    → n < 17 + length payload
    → (f : List ℕ) × (append_frame c dst h payload ≡ some (dst ++ f))
      × (length f ≡ 17 + length payload)
      × (decode_frame c (f ++ rest)
          ≡ ok (record { header = record h { len = length payload }; payload = payload }, length f))
      × (decode_frame c (take n f) ≡ err err_short)
decode_frame-append_frame c dst h payload rest n v less =
    let h' : Header = record h { len = length payload } in
    let size = length-encoded c h' payload in
    (
      encoded c h' payload,
      append_frame-encoded c dst h payload v.len_fits,
      size,
      decode_frame-encoded c h' payload v refl rest,
      cut_short c h' payload v refl n (omega arith),
    )

not-false : (b : Bool) → not b ≡ false → b ≡ true
not-false true h = refl
not-false false h = cc

abbrev Accepted : Checksum → List ℕ → Frame × ℕ → Type 0
Accepted c b (f, n) =
    IsValid f.header
    × (f.header.len ≡ length f.payload)
    × (n ≡ 17 + length f.payload)
    × (with_trailer c (layout_header f.header ++ f.payload) ++ drop n b ≡ b)

accepted :
    (c : Checksum) (b : List ℕ) (h : Header)
    → All IsByte b
    → 13 ≤ length b
    → IsValid h
    → layout_header h ++ drop 13 b ≡ b
    → 13 + h.len ≤ length b - 4
    → c.crc (take (13 + h.len) b) ≡ uint32 b (13 + h.len)
    → Accepted c b (record { header = h; payload = slice b 13 h.len }, 13 + h.len + 4)
unfolding with_trailer
accepted c b h a n v front long sum = (v, sym size, omega (arith, size), whole)
  where
    m : ℕ
    m = 13 + h.len

    size : length (slice b 13 h.len) ≡ h.len
    size = omega (arith, length-take h.len (drop 13 b), length-drop 13 b)

    front_bytes : layout_header h ++ slice b 13 h.len ≡ take m b
    front_bytes =
        sym (take-append_more h.len 13 (layout_header h) (drop 13 b) (length-layout_header h))
        ∙ ap (λ t. take m t) front

    whole : with_trailer c (layout_header h ++ slice b 13 h.len) ++ drop (m + 4) b ≡ b
    whole =
        ap (λ t. (t ++ put_uint32 (c.crc t)) ++ drop (m + 4) b) front_bytes
        ∙ ap (λ t. (take m b ++ put_uint32 t) ++ drop (m + 4) b) sum
        ∙ append_assoc (take m b) (put_uint32 (uint32 b m)) (drop (m + 4) b)
        ∙ ap (λ t. take m b ++ t) (uint32_field b m a (omega arith) refl)
        ∙ take-append-drop m b

-- A frame that DecodeFrame accepts has a valid header whose length is that of its payload, and the
-- bytes it takes are the encoding of that header and payload.
pub with_trailer-decode_frame :
    (c : Checksum) (b : List ℕ) (f : Frame) (n : ℕ)
    → All IsByte b
    → decode_frame c b ≡ ok (f, n)
    → IsValid f.header
      × (f.header.len ≡ length f.payload)
      × (n ≡ 17 + length f.payload)
      × (with_trailer c (layout_header f.header ++ f.payload) ++ drop n b ≡ b)
unfolding decode_frame
with_trailer-decode_frame c b f n a e =
    let (h, header_ok, e1) = >>=-ok (parse_header b) _ e in
    let (valid_long, v, front) = layout_header-parse_header b h a header_ok in
    let (long, e2) = fail_if-ok (ltb (length b - 4) (13 + h.len)) _ _ e1 in
    let (sum, e3) =
      fail_if-ok (not (c.crc (take (13 + h.len) b) == uint32 b (13 + h.len))) _ _ e2 in
    ok_subst (Accepted c b) e3
      (accepted c b h a valid_long v front (ltb→le _ _ long) (==-eq _ _ (not-false _ sum)))
