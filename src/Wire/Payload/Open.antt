-- ===== src/Wire/Payload/Open.antt =====
-- The OPEN payload (internal/wire/payload.go).
use rendr.Common.{
  ℕ, ◌+◌, ◌-◌, ◌^◌, ◌≤◌, ◌<◌, min, bit_and, ◌≡◌, refl, sym, ap, ◌∙◌, subst, ◌⊎◌, false, not, ◌&&◌,
  ◌||◌, Option, none, some, List, ◌∷◌, ◌++◌, arith, ltb, ◌==◌, if◌then◌else◌, and_not, le→ltb,
  ltb→le, bit_and-one, length, take, drop, All, length-append, length-take, length-drop,
  take-append, drop-append, drop-drop, All-take, All-drop, IsByte, byte, slice, uint16, uint32,
  put_uint16, put_uint32, put_front, uint16-lt, uint32-lt, read16, read32, byte-append,
  uint16-append, uint32-append, all_zero, put_front_read, byte_field, slice_field, uint16_field,
  uint32_field, fail_if, fail_if-ok, check, check-ok, ok,
}
use rendr.Common.Int.{ℤ, pos_part}
use rendr.Wire.Const
use rendr.Wire.Errors.{Decoded, err_short, err_length, err_reserved, err_value}
use rendr.Wire.Payload.Tail.{exact_tail, exact_tail-eq, exact_tail_self}

pub record Open : Type 0 where
  pub sid : List ℕ
  pub kind : ℕ
  pub mode : ℕ
  pub flags : ℕ
  pub retain_ms : ℕ
  pub window : ℕ
  pub pmtu : ℕ
  pub metadata : List ℕ

-- The bytes behind the session's ID.
abbrev behind_sid : Open → List ℕ
behind_sid o =
    o.kind
    ∷ o.mode
    ∷ (put_uint16 o.flags
        ++ (put_uint32 o.retain_ms
            ++ (put_uint32 o.window
                ++ (put_uint16 o.pmtu ++ (put_uint16 (length o.metadata) ++ o.metadata)))))

unfoldable pub layout_open : Open → List ℕ
layout_open o = o.sid ++ behind_sid o

-- The fields that follow the checked lengths, and the rules between them, in the source's order.
unfoldable pub check_open : Open → Decoded Open
unfolding all_zero
check_open o = fail_if (all_zero o.sid) err_reserved (
    fail_if (not (o.kind == Const.kind_stream) && not (o.kind == Const.kind_datagram)) err_value (
      fail_if (ltb o.mode 1 || ltb Const.max_mode o.mode) err_value (
        fail_if (not (and_not o.flags Const.open_flag_early == 0)) err_reserved (
          fail_if
            (not (bit_and o.flags Const.open_flag_early == 0) && not (o.kind == Const.kind_stream))
            err_reserved
            (fail_if (o.kind == Const.kind_stream && not (o.pmtu == 0)) err_reserved (
              fail_if
                (o.kind == Const.kind_datagram
                  && (ltb o.pmtu Const.min_packet_payload || ltb Const.max_packet_payload o.pmtu))
                err_value
                (fail_if
                  (o.kind == Const.kind_datagram
                    && (not (o.window == 0)
                        && (ltb o.window Const.min_frame_budget
                            || ltb Const.max_datagram o.window)))
                  err_value (ok o))))))))

-- `none` is the panic on metadata beyond MaxMetadata, or on a buffer that is too small.
unfoldable pub put_open : List ℕ → Open → Option (ℕ × List ℕ)
unfolding layout_open put_front
put_open dst o =
    if ltb Const.max_metadata (length o.metadata) then none else put_front dst (layout_open o)

-- The fixed fields and the metadata, where the lengths have been checked.
unfoldable pub read_open : List ℕ → Open
read_open p = record {
  sid = slice p 0 16;
  kind = byte p 16;
  mode = byte p 17;
  flags = uint16 p 18;
  retain_ms = uint32 p 20;
  window = uint32 p 24;
  pmtu = uint16 p 28;
  metadata = drop Const.open_fixed_len p;
}

-- `maxMeta` is an `int`, clamped to [0, MaxMetadata].
unfoldable pub parse_open : List ℕ → ℤ → Decoded Open
parse_open p max_meta = fail_if (ltb (length p) Const.open_fixed_len) err_short (
    fail_if (ltb (min (pos_part max_meta) Const.max_metadata) (uint16 p 30)) err_length (
      check (exact_tail (length p - Const.open_fixed_len) (uint16 p 30))
        (check_open (read_open p))))

pub record IsValid (o : Open) : Type 0 where
  pub sid_length : length o.sid ≡ 16
  pub sid_bytes : All IsByte o.sid
  pub sid_nonzero : all_zero o.sid ≡ false
  pub mode_in : (1 ≤ o.mode) × (o.mode ≤ 3)
  pub retain_fits : o.retain_ms < 2 ^ 32
  pub window_fits : o.window < 2 ^ 32
  pub metadata_bytes : All IsByte o.metadata
  pub metadata_fits : length o.metadata ≤ 65535
  pub by_kind :
      ((o.kind ≡ 1) × (o.flags ≤ 1) × (o.pmtu ≡ 0))
      ⊎ ((o.kind ≡ 2)
          × (o.flags ≡ 0)
          × (512 ≤ o.pmtu)
          × (o.pmtu ≤ 65507)
          × ((o.window ≡ 0) ⊎ ((537 ≤ o.window) × (o.window ≤ 65507))))

check_open-IsValid : (o : Open) → IsValid o → check_open o ≡ ok o
unfolding check_open
check_open-IsValid o v = ground (arith, v.sid_nonzero)

length-layout_open :
    (o : Open) → length o.sid ≡ 16 → length (layout_open o) ≡ 32 + length o.metadata
unfolding layout_open
length-layout_open o h = omega (arith, length-append o.sid _)

read_open-layout_open : (o : Open) → IsValid o → read_open (layout_open o) ≡ o
unfolding read_open layout_open
read_open-layout_open o v = λ i. record {
  sid = take-append 16 o.sid r n i;
  kind = byte-append 16 o.sid r n 16 0 refl i;
  mode = byte-append 16 o.sid r n 17 1 refl i;
  flags = (uint16-append 16 o.sid r n 18 2 refl ∙ read16 o.flags (ground arith)) i;
  retain_ms = (uint32-append 16 o.sid r n 20 4 refl ∙ read32 o.retain_ms v.retain_fits) i;
  window = (uint32-append 16 o.sid r n 24 8 refl ∙ read32 o.window v.window_fits) i;
  pmtu = (uint16-append 16 o.sid r n 28 12 refl ∙ read16 o.pmtu (ground arith)) i;
  metadata =
      (sym (drop-drop 16 16 (o.sid ++ r)) ∙ ap (λ t. drop 16 t) (drop-append 16 o.sid r n)) i;
}
  where
    r : List ℕ
    r = behind_sid o

    n : length o.sid ≡ 16
    n = v.sid_length

metadata_length : (o : Open) → IsValid o → uint16 (layout_open o) 30 ≡ length o.metadata
unfolding layout_open
metadata_length o v =
    uint16-append 16 o.sid (behind_sid o) v.sid_length 30 14 refl
    ∙ read16 (length o.metadata) (omega arith)

parse_open-layout_open :
    (o : Open) (max_meta : ℤ)
    → IsValid o
    → length o.metadata ≤ pos_part max_meta
    → parse_open (layout_open o) max_meta ≡ ok o
unfolding parse_open
parse_open-layout_open o m v h =
    let n = length-layout_open o v.sid_length in
    rw (
      metadata_length o v,
      read_open-layout_open o v,
      check_open-IsValid o v,
      le→ltb (length (layout_open o)) 32 (omega arith),
      le→ltb (min (pos_part m) 65535) (length o.metadata) (omega arith),
      exact_tail_self (length (layout_open o) - 32) (length o.metadata) (omega arith),
    )

abbrev Follows : Open → Type 0
Follows o =
    (all_zero o.sid ≡ false)
    × (1 ≤ o.mode)
    × (o.mode ≤ 3)
    × (((o.kind ≡ 1) × (and_not o.flags 1 ≡ 0) × (o.pmtu ≡ 0))
        ⊎ ((o.kind ≡ 2)
            × (and_not o.flags 1 ≡ 0)
            × (bit_and o.flags 1 ≡ 0)
            × (512 ≤ o.pmtu)
            × (o.pmtu ≤ 65507)
            × ((o.window ≡ 0) ⊎ ((537 ≤ o.window) × (o.window ≤ 65507)))))

check_open-Follows : (o x : Open) → check_open o ≡ ok x → Follows o × (o ≡ x)
unfolding check_open
check_open-Follows o x h = ground arith

-- PutOpen writes a valid OPEN into a buffer that has room for it, ParseOpen with a metadata limit
-- that admits it reads it back from those bytes, and the rest of the buffer is unchanged.
pub parse_open-put_open :
    (dst : List ℕ) (o : Open) (max_meta : ℤ)
    → IsValid o
    → length o.metadata ≤ pos_part max_meta
    → 32 + length o.metadata ≤ length dst
    → (d : List ℕ) × (put_open dst o ≡ some (32 + length o.metadata, d))
      × (parse_open (take (32 + length o.metadata) d) max_meta ≡ ok o)
      × (drop (32 + length o.metadata) d ≡ drop (32 + length o.metadata) dst)
unfolding put_open
parse_open-put_open dst o m v h fits = rw (le→ltb 65535 (length o.metadata) v.metadata_fits) (
    put_front_read (λ p. parse_open p m) dst (layout_open o) _ (ok o)
      (length-layout_open o v.sid_length) fits (parse_open-layout_open o m v h))

layout_open-read_open :
    (p : List ℕ)
    → All IsByte p
    → 32 ≤ length p
    → length p - 32 ≡ uint16 p 30
    → layout_open (read_open p) ≡ p
unfolding layout_open read_open
layout_open-read_open p b h e = slice_field p 0 16 (
    byte_field p 16 (omega arith) (
      byte_field p 17 (omega arith) (
        uint16_field p 18 b (omega arith) (
          uint32_field p 20 b (omega arith) (
            uint32_field p 24 b (omega arith) (
              uint16_field p 28 b (omega arith) (
                ap (λ n. put_uint16 n ++ drop 32 p) (length-drop 32 p ∙ e)
                ∙ uint16_field p 30 b (omega arith) refl)))))))

read_open-IsValid :
    (p : List ℕ)
    → All IsByte p
    → 32 ≤ length p
    → length p - 32 ≡ uint16 p 30
    → Follows (read_open p)
    → IsValid (read_open p)
unfolding read_open
read_open-IsValid p b h e f = record {
  sid_length = omega (arith, length-take 16 p);
  sid_bytes = All-take IsByte 16 p b;
  sid_nonzero = f.0;
  mode_in = (f.1, f.2);
  retain_fits = uint32-lt p 20 b (omega arith);
  window_fits = uint32-lt p 24 b (omega arith);
  metadata_bytes = All-drop IsByte 32 p b;
  metadata_fits = omega (arith, length-drop 32 p, uint16-lt p 30 b (omega arith));
  by_kind = ground (arith, f.3, bit_and-one (uint16 p 18));
}

-- What ParseOpen accepts is a valid OPEN whose metadata is within the limit, and PutOpen writes
-- for it the very bytes that were parsed.
pub layout_open-parse_open :
    (p : List ℕ) (max_meta : ℤ) (o : Open)
    → All IsByte p
    → parse_open p max_meta ≡ ok o
    → IsValid o × (length o.metadata ≤ pos_part max_meta) × (layout_open o ≡ p)
unfolding parse_open
layout_open-parse_open p m o b h =
    let (long, h1) = fail_if-ok (ltb (length p) 32) _ _ h in
    let (within, h2) = fail_if-ok (ltb (min (pos_part m) 65535) (uint16 p 30)) _ _ h1 in
    let (exact, h3) = check-ok (exact_tail (length p - 32) (uint16 p 30)) _ h2 in
    let (f, e) = check_open-Follows (read_open p) o h3 in
    let n : 32 ≤ length p = ltb→le _ _ long in
    let k = exact_tail-eq _ _ exact in
    subst (λ x. IsValid x × (length x.metadata ≤ pos_part m) × (layout_open x ≡ p)) e
      (read_open-IsValid p b n k f, limit n k (ltb→le _ _ within), layout_open-read_open p b n k)
  where
    limit :
        32 ≤ length p
        → length p - 32 ≡ uint16 p 30
        → uint16 p 30 ≤ min (pos_part m) 65535
        → length (read_open p).metadata ≤ pos_part m
    limit n k w = unfold read_open in omega (arith, length-drop 32 p)
