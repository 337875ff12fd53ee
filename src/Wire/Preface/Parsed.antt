-- ===== src/Wire/Preface/Parsed.antt =====
-- Both prefaces as they are parsed (internal/wire/preface.go).
use rendr.Common.{
  ℕ, ◌≤◌, ◌≡◌, refl, sym, ap, ◌∙◌, subst, ◌≢◌, ◌⊎◌, false, Option, none, some, List, [], ◌∷◌, ◌++◌,
  arith, bit_and-zero, length, take, drop, All, length-append, length-take, length-drop,
  take-append, take-append-drop, All-get_or, All-take, All-drop, IsByte, byte, slice, uint32,
  put_uint32, uint32-lt, all_zero, byte_field, slice_field, uint32_field, no_more,
}
use mathlib.Core.List.{append_assoc}
use rendr.Wire.Checksum.{Checksum}
use rendr.Wire.Errors.{Error}
use rendr.Wire.Preface.{
  Preface, PrefaceAck, Fits, IsValid, IsValidAck, Answer, parsed, unless_failed, covered,
  layout_preface, check_preface, read_preface, judge_preface, parse_preface, read_preface_ack,
  judge_preface_ack, parse_preface_ack,
}
use rendr.Wire.Preface.Sound.{Sound, Sound-check_preface}

-- The covered bytes as they are read from `b`.
abbrev reread : List ℕ → List ℕ
reread b =
    covered (byte b 5) (byte b 6) (byte b 7) (uint32 b 8) (uint32 b 12) (slice b 16 16)
      (uint32 b 32)

-- Behind the magic and the major.
abbrev after_major : List ℕ → List ℕ
after_major b =
    byte b 5
    ∷ byte b 6
    ∷ byte b 7
    ∷ (put_uint32 (uint32 b 8)
        ++ (put_uint32 (uint32 b 12) ++ ((slice b 16 16 ++ put_uint32 (uint32 b 32)) ++ drop 36 b)))

after_major-drop : (b : List ℕ) → All IsByte b → length b ≡ 40 → after_major b ≡ drop 5 b
after_major-drop b a n = byte_field b 5 (omega arith) (
    byte_field b 6 (omega arith) (
      byte_field b 7 (omega arith) (
        uint32_field b 8 a (omega arith) (
          uint32_field b 12 a (omega arith) (
            append_assoc (slice b 16 16) (put_uint32 (uint32 b 32)) (drop 36 b)
            ∙ slice_field b 16 16 (uint32_field b 32 a (omega arith) refl))))))

reread-whole : (c : Checksum) (b : List ℕ) → All IsByte b → Sound c b → reread b ++ drop 36 b ≡ b
unfolding covered
reread-whole c b a s =
    (λ i.
      sym s.is_r i
      ∷ sym s.is_n i
      ∷ sym s.is_d i
      ∷ sym s.is_two i
      ∷ sym s.version i
      ∷ after_major-drop b a s.size i)
    ∙ byte_field b 0 (omega (arith, s.size)) (
        byte_field b 1 (omega (arith, s.size)) (
          byte_field b 2 (omega (arith, s.size))
            (byte_field b 3 (omega (arith, s.size)) (byte_field b 4 (omega (arith, s.size)) refl))))

length-reread : (b : List ℕ) → length b ≡ 40 → length (reread b) ≡ 36
unfolding covered
length-reread b n = omega (
  arith,
  length-append (slice b 16 16) (put_uint32 (uint32 b 32)),
  length-take 16 (drop 16 b),
  length-drop 16 b,
)

-- What passes the common checks is laid out like a preface.
layout_preface-Sound :
    (c : Checksum) (b : List ℕ)
    → All IsByte b
    → Sound c b
    → layout_preface c
        (byte b 5)
        (byte b 6)
        (byte b 7)
        (uint32 b 8)
        (uint32 b 12)
        (slice b 16 16)
        (uint32 b 32)
      ≡ b
unfolding layout_preface
layout_preface-Sound c b a s =
    ap (λ t. t ++ put_uint32 (c.crc t)) front
    ∙ ap (λ t. take 36 b ++ put_uint32 t) s.sum
    ∙ ap (λ t. take 36 b ++ t)
        (uint32_field b 36 {ys = []} a (omega (arith, s.size))
          (no_more b 40 (omega (arith, s.size))))
    ∙ take-append-drop 36 b
  where
    front : reread b ≡ take 36 b
    front =
        sym (take-append 36 (reread b) (drop 36 b) (length-reread b s.size))
        ∙ ap (λ t. take 36 t) (reread-whole c b a s)

Fits-Sound :
    (c : Checksum) (b : List ℕ)
    → All IsByte b
    → Sound c b
    → Fits (byte b 5) (byte b 6) (uint32 b 8) (uint32 b 12) (slice b 16 16) (uint32 b 32)
Fits-Sound c b a s = record {
  minor_fits = All-get_or IsByte 5 0 b a (omega (arith, s.size));
  b6_fits = All-get_or IsByte 6 0 b a (omega (arith, s.size));
  req_fits = uint32-lt b 8 a (omega (arith, s.size));
  opt_fits = uint32-lt b 12 a (omega (arith, s.size));
  inst_length = omega (arith, length-take 16 (drop 16 b), length-drop 16 b, s.size);
  inst_bytes = All-take IsByte 16 (drop 16 b) (All-drop IsByte 16 b a);
  id_fits = uint32-lt b 32 a (omega (arith, s.size));
}

unless_failed-parsed {ℓ} :
    {A : Type ℓ} (e : Option Error) (r : Answer A) {x : A}
    → unless_failed e r ≡ parsed x
    → (e ≡ none) × (r ≡ parsed x)
unless_failed-parsed (some e) r h = cc
unless_failed-parsed none r h = (refl, h)

judge_preface-parsed :
    (p x : Preface)
    → judge_preface p ≡ parsed x
    → ((p.kind ≡ 1) ⊎ (p.kind ≡ 2))
      × (all_zero p.instance_id ≡ false)
      × (p.carrier_id ≢ 0)
      × (p.req ≡ 0)
      × (p ≡ x)
unfolding judge_preface
judge_preface-parsed p x h = ground (arith, bit_and-zero p.req)

judge_preface_ack-parsed :
    (a x : PrefaceAck)
    → judge_preface_ack a ≡ parsed x
    → (a.status ≤ 4) × (all_zero a.instance_id ≡ false) × (a.carrier_id ≢ 0) × (a.req ≡ 0) × (a ≡ x)
unfolding judge_preface_ack
judge_preface_ack-parsed a x h = ground (arith, bit_and-zero a.req)

-- What ParsePreface accepts with no error is a valid PREFACE that requires no feature, and the
-- input is the 40 bytes that PutPreface writes for it.
pub layout_preface-parse_preface :
    (c : Checksum) (b : List ℕ) (p : Preface)
    → All IsByte b
    → parse_preface c b ≡ parsed p
    → IsValid p
      × (p.req ≡ 0)
      × (layout_preface c p.minor p.kind 1 p.req p.opt p.instance_id p.carrier_id ≡ b)
unfolding parse_preface read_preface
layout_preface-parse_preface c b p a h =
    let (checked, judged) =
      unless_failed-parsed (check_preface c b 1) (judge_preface (read_preface b)) h in
    let (s, role) = Sound-check_preface c b 1 checked in
    let (kind, inst, id, req, same) = judge_preface-parsed (read_preface b) p judged in
    subst
      (λ x.
        IsValid x
        × (x.req ≡ 0)
        × (layout_preface c x.minor x.kind 1 x.req x.opt x.instance_id x.carrier_id ≡ b))
      same ((Fits-Sound c b a s, kind, inst, id), req, rw role at (layout_preface-Sound c b a s))

-- The same of ParsePrefaceAck.
pub layout_preface-parse_preface_ack :
    (c : Checksum) (b : List ℕ) (p : PrefaceAck)
    → All IsByte b
    → parse_preface_ack c b ≡ parsed p
    → IsValidAck p
      × (p.req ≡ 0)
      × (layout_preface c p.minor p.status 2 p.req p.opt p.instance_id p.carrier_id ≡ b)
unfolding parse_preface_ack read_preface_ack
layout_preface-parse_preface_ack c b p a h =
    let (checked, judged) =
      unless_failed-parsed (check_preface c b 2) (judge_preface_ack (read_preface_ack b)) h in
    let (s, role) = Sound-check_preface c b 2 checked in
    let (status, inst, id, req, same) = judge_preface_ack-parsed (read_preface_ack b) p judged in
    subst
      (λ x.
        IsValidAck x
        × (x.req ≡ 0)
        × (layout_preface c x.minor x.status 2 x.req x.opt x.instance_id x.carrier_id ≡ b))
      same ((Fits-Sound c b a s, status, inst, id), req, rw role at (layout_preface-Sound c b a s))
