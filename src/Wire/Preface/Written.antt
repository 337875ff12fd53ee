-- ===== src/Wire/Preface/Written.antt =====
-- Both prefaces as they are written, and parsed again (internal/wire/preface.go).
use rendr.Common.{
  ℕ, ◌≤◌, ◌≡◌, refl, sym, ap, ◌∙◌, Option, none, some, List, ◌++◌, arith, ◌==◌, if◌then◌else◌,
  bit_and-zero, length, take, drop, length-append, take-append, byte, slice, uint32, put_uint32,
  put_front, read32, uint32-append, put_front_read,
}
use mathlib.Core.List.{append_assoc}
use rendr.Wire.Checksum.{Checksum}
use rendr.Wire.Errors.{Error, err_malformed}
use rendr.Wire.Preface.{
  Preface, PrefaceAck, Fits, IsValid, IsValidAck, parsed, lacks_feature, failed, unless_failed,
  covered, layout_preface, put_preface, put_preface_ack, preface_fseq, check_preface, read_preface,
  judge_preface, parse_preface, read_preface_ack, judge_preface_ack, parse_preface_ack,
}
use rendr.Wire.Preface.Sound.{Sound, check_preface-Sound}

module _ (c : Checksum) (minor b6 role req opt : ℕ) (inst : List ℕ) (id : ℕ)
    (f : Fits minor b6 req opt inst id) where
  whole : List ℕ
  whole = layout_preface c minor b6 role req opt inst id

  body : List ℕ
  body = covered minor b6 role req opt inst id

  trailer : List ℕ
  unfolding body
  trailer = put_uint32 (c.crc body)

  length-body : length body ≡ 36
  unfolding body covered
  length-body = omega (arith, length-append inst (put_uint32 id), f.inst_length)

  length-whole : length whole ≡ 40
  unfolding whole layout_preface body
  length-whole = length-append body (put_uint32 (c.crc body)) ∙ omega (arith, length-body)

  -- From byte 16 on: the instance, the carrier ID and the CRC.
  back : drop 16 whole ≡ inst ++ (put_uint32 id ++ trailer)
  unfolding whole layout_preface covered trailer body
  back = append_assoc inst (put_uint32 id) _

  id_read : uint32 whole 32 ≡ id
  unfolding whole layout_preface covered
  id_read =
      ap (λ t. uint32 t 16) (append_assoc inst (put_uint32 id) _)
      ∙ uint32-append 16 inst _ f.inst_length 16 0 refl
      ∙ read32 id f.id_fits

  crc_read : uint32 whole 36 ≡ c.crc (take 36 whole)
  unfolding whole layout_preface body
  crc_read =
      uint32-append 36 body (put_uint32 (c.crc body)) length-body 36 0 refl
      ∙ read32 (c.crc body) (c.crc_fits body)
      ∙ ap (λ t. c.crc t) (sym (take-append 36 body (put_uint32 (c.crc body)) length-body))

  inst_read : slice whole 16 16 ≡ inst
  inst_read = ap (λ t. take 16 t) back ∙ take-append 16 inst _ f.inst_length

  Sound-whole : Sound c whole
  unfolding whole layout_preface covered
  Sound-whole = record {
    size = length-whole;
    is_r = refl;
    is_n = refl;
    is_d = refl;
    is_two = refl;
    sum = sym crc_read;
    version = refl;
  }

  check_preface-whole :
      (want : ℕ) → check_preface c whole want ≡ (if role == want then none else some err_malformed)
  check_preface-whole want = check_preface-Sound c whole want Sound-whole ∙ role_read
    where
      role_read :
          ◌≡◌ {A = Option Error}
            (if byte whole 7 == want then none else some err_malformed)
            (if role == want then none else some err_malformed)
      role_read = unfold whole layout_preface covered in refl

  minor_read : byte whole 5 ≡ minor
  unfolding whole layout_preface covered
  minor_read = refl

  b6_read : byte whole 6 ≡ b6
  unfolding whole layout_preface covered
  b6_read = refl

  req_read : uint32 whole 8 ≡ req
  unfolding whole layout_preface covered
  req_read = read32 req f.req_fits

  opt_read : uint32 whole 12 ≡ opt
  unfolding whole layout_preface covered
  opt_read = read32 opt f.opt_fits

  -- PutPreface and PutPrefaceAck put these bytes at the front of a large enough buffer.
  written :
      (dst : List ℕ)
      → 40 ≤ length dst
      → (d : List ℕ) × (put_front dst (layout_preface c minor b6 role req opt inst id)
          ≡ some (40, d))
        × (take 40 d ≡ whole)
        × (drop 40 d ≡ drop 40 dst)
  unfolding whole
  written dst h =
      put_front_read (λ b. b) dst (layout_preface c minor b6 role req opt inst id) 40
        (layout_preface c minor b6 role req opt inst id) length-whole h refl

module _ (c : Checksum) (p : Preface) (v : IsValid p) where
  encoded : List ℕ
  encoded = whole c p.minor p.kind 1 p.req p.opt p.instance_id p.carrier_id v.0

  read_preface-encoded : read_preface encoded ≡ p
  unfolding read_preface encoded
  read_preface-encoded = λ i. record {
    minor = minor_read c p.minor p.kind 1 p.req p.opt p.instance_id p.carrier_id v.0 i;
    kind = b6_read c p.minor p.kind 1 p.req p.opt p.instance_id p.carrier_id v.0 i;
    req = req_read c p.minor p.kind 1 p.req p.opt p.instance_id p.carrier_id v.0 i;
    opt = opt_read c p.minor p.kind 1 p.req p.opt p.instance_id p.carrier_id v.0 i;
    instance_id = inst_read c p.minor p.kind 1 p.req p.opt p.instance_id p.carrier_id v.0 i;
    carrier_id = id_read c p.minor p.kind 1 p.req p.opt p.instance_id p.carrier_id v.0 i;
  }

  judge_preface-IsValid : judge_preface p ≡ (if p.req == 0 then parsed p else lacks_feature p)
  unfolding judge_preface
  judge_preface-IsValid = ground (arith, bit_and-zero p.req)

  parse_preface-encoded :
      parse_preface c encoded ≡ (if p.req == 0 then parsed p else lacks_feature p)
  unfolding parse_preface encoded
  parse_preface-encoded =
      ap (λ t. unless_failed t (judge_preface (read_preface encoded)))
        (check_preface-whole c p.minor p.kind 1 p.req p.opt p.instance_id p.carrier_id v.0 1)
      ∙ ap judge_preface read_preface-encoded
      ∙ judge_preface-IsValid

  parse_preface_ack-encoded : parse_preface_ack c encoded ≡ failed err_malformed
  unfolding parse_preface_ack encoded
  parse_preface_ack-encoded =
      ap (λ t. unless_failed t (judge_preface_ack (read_preface_ack encoded)))
        (check_preface-whole c p.minor p.kind 1 p.req p.opt p.instance_id p.carrier_id v.0 2)

module _ (c : Checksum) (a : PrefaceAck) (v : IsValidAck a) where
  encoded_ack : List ℕ
  encoded_ack = whole c a.minor a.status 2 a.req a.opt a.instance_id a.carrier_id v.0

  read_preface_ack-encoded : read_preface_ack encoded_ack ≡ a
  unfolding read_preface_ack encoded_ack
  read_preface_ack-encoded = λ i. record {
    minor = minor_read c a.minor a.status 2 a.req a.opt a.instance_id a.carrier_id v.0 i;
    status = b6_read c a.minor a.status 2 a.req a.opt a.instance_id a.carrier_id v.0 i;
    req = req_read c a.minor a.status 2 a.req a.opt a.instance_id a.carrier_id v.0 i;
    opt = opt_read c a.minor a.status 2 a.req a.opt a.instance_id a.carrier_id v.0 i;
    instance_id = inst_read c a.minor a.status 2 a.req a.opt a.instance_id a.carrier_id v.0 i;
    carrier_id = id_read c a.minor a.status 2 a.req a.opt a.instance_id a.carrier_id v.0 i;
  }

  judge_preface_ack-IsValid :
      judge_preface_ack a ≡ (if a.req == 0 then parsed a else lacks_feature a)
  unfolding judge_preface_ack
  judge_preface_ack-IsValid = ground (arith, bit_and-zero a.req)

  ack_parse_preface_ack :
      parse_preface_ack c encoded_ack ≡ (if a.req == 0 then parsed a else lacks_feature a)
  unfolding parse_preface_ack encoded_ack
  ack_parse_preface_ack =
      ap (λ t. unless_failed t (judge_preface_ack (read_preface_ack encoded_ack)))
        (check_preface-whole c a.minor a.status 2 a.req a.opt a.instance_id a.carrier_id v.0 2)
      ∙ ap judge_preface_ack read_preface_ack-encoded
      ∙ judge_preface_ack-IsValid

  ack_parse_preface : parse_preface c encoded_ack ≡ failed err_malformed
  unfolding parse_preface encoded_ack
  ack_parse_preface =
      ap (λ t. unless_failed t (judge_preface (read_preface encoded_ack)))
        (check_preface-whole c a.minor a.status 2 a.req a.opt a.instance_id a.carrier_id v.0 1)

-- The 40 bytes that PutPreface writes for a valid PREFACE are parsed as it by ParsePreface, with
-- ErrFeature beside it exactly if it requires a feature bit. The other direction's parser takes
-- them for malformed, and the direction's first fseq is the CRC of their first 36 bytes.
pub parse_preface-put_preface :
    (c : Checksum) (dst : List ℕ) (p : Preface)
    → IsValid p
    → 40 ≤ length dst
    → (d : List ℕ) × (put_preface c dst p ≡ some (40, d))
      × (parse_preface c (take 40 d) ≡ (if p.req == 0 then parsed p else lacks_feature p))
      × (parse_preface_ack c (take 40 d) ≡ failed err_malformed)
      × (preface_fseq (take 40 d) ≡ c.crc (take 36 (take 40 d)))
      × (drop 40 d ≡ drop 40 dst)
unfolding put_preface preface_fseq encoded
parse_preface-put_preface c dst p v h =
    let (d, e, t, r) =
      written c p.minor p.kind 1 p.req p.opt p.instance_id p.carrier_id v.0 dst h in
    (
      d,
      e,
      ap (λ b. parse_preface c b) t ∙ parse_preface-encoded c p v,
      ap (λ b. parse_preface_ack c b) t ∙ parse_preface_ack-encoded c p v,
      rw t (crc_read c p.minor p.kind 1 p.req p.opt p.instance_id p.carrier_id v.0),
      r,
    )

-- The same of PREFACE_ACK: its bytes are parsed as it by ParsePrefaceAck, and ParsePreface takes
-- them for malformed.
pub parse_preface_ack-put_preface_ack :
    (c : Checksum) (dst : List ℕ) (a : PrefaceAck)
    → IsValidAck a
    → 40 ≤ length dst
    → (d : List ℕ) × (put_preface_ack c dst a ≡ some (40, d))
      × (parse_preface_ack c (take 40 d) ≡ (if a.req == 0 then parsed a else lacks_feature a))
      × (parse_preface c (take 40 d) ≡ failed err_malformed)
      × (preface_fseq (take 40 d) ≡ c.crc (take 36 (take 40 d)))
      × (drop 40 d ≡ drop 40 dst)
unfolding put_preface_ack preface_fseq encoded_ack
parse_preface_ack-put_preface_ack c dst a v h =
    let (d, e, t, r) =
      written c a.minor a.status 2 a.req a.opt a.instance_id a.carrier_id v.0 dst h in
    (
      d,
      e,
      ap (λ b. parse_preface_ack c b) t ∙ ack_parse_preface_ack c a v,
      ap (λ b. parse_preface c b) t ∙ ack_parse_preface c a v,
      rw t (crc_read c a.minor a.status 2 a.req a.opt a.instance_id a.carrier_id v.0),
      r,
    )
