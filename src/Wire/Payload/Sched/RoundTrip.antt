-- ===== src/Wire/Payload/Sched/RoundTrip.antt =====
-- SCHED: the ID loop against the encoding of a list, and the two directions of the codec.
use rendr.Common.{
  ℕ, zero, suc, ◌+◌, ◌-◌, ◌*◌, ◌≤◌, ◌≡◌, refl, sym, ap, ◌∙◌, subst, ◌||◌, some, List, [], ◌∷◌, ◌++◌,
  arith, ltb, ◌==◌, le→ltb, ltb→le, ==-ne, ne→==, length, take, drop, replicate, All, length-append,
  length-take, length-replicate, take-append, drop-append, take-append-drop, IsByte, byte, uint32,
  put_uint32, put_uint64, uint32-lt, uint64-lt, read32, read64, uint32-append, put_front_read,
  byte_field, uint32_field, uint64_field, no_more, fail_if-ok, check-ok, ok-injective, ok_subst, ok,
  err,
}
use mathlib.Core.List.{append_assoc, append-nil}
use rendr.Wire.Payload.Sched.{
  Sched, IsValid, Distinct, IsId, Distinct-snoc, not_contained, contains, flat, length-flat,
  read_ids, with_ids, layout_sched, put_sched, parse_sched,
}
use rendr.Wire.Errors.{Decoded}
use rendr.Wire.Payload.Tail.{exact_tail, exact_tail-eq, exact_tail_self}

-- The loop reads a list of distinct IDs from its encoding, wherever that stands.
read_ids-flat :
    (xs front seen : List ℕ) (i : ℕ)
    → length front ≡ 29 + 4 * i
    → All IsId xs
    → Distinct (seen ++ xs)
    → read_ids (length xs) (front ++ flat xs) i seen ≡ ok (seen ++ xs)
unfolding read_ids flat
read_ids-flat [] front seen i n g d = ap (λ t. ok t) (sym (append-nil seen))
read_ids-flat (x ∷ xs) front seen i n g d =
    let again =
      read_ids-flat xs (front ++ put_uint32 x) (seen ++ x ∷ []) (i + 1)
        (omega (arith, length-append front (put_uint32 x))) g.1
        (rw (append_assoc seen (x ∷ []) xs) d) in
    rw (here, ne→== x 0 g.0.0, not_contained seen x xs d)
      (rw (append_assoc front (put_uint32 x) (flat xs), append_assoc seen (x ∷ []) xs) at again)
  where
    here : uint32 (front ++ (put_uint32 x ++ flat xs)) (29 + 4 * i) ≡ x
    here =
        uint32-append (29 + 4 * i) front (put_uint32 x ++ flat xs) n (29 + 4 * i) 0 (omega arith)
        ∙ read32 x g.0.1

-- The bytes in front of the carrier IDs.
abbrev fixed_part : Sched → List ℕ
fixed_part s =
    put_uint32 s.epoch
    ++ (put_uint64 s.death ++ (put_uint64 s.quality ++ (put_uint64 s.explicit ++ s.n ∷ [])))

length-taken : (s : Sched) → IsValid s → length (take s.n s.ids) ≡ s.n
length-taken s v = omega (arith, length-take s.n s.ids, v.n_in, v.ids_length)

read_ids-layout : (s : Sched) → IsValid s → read_ids s.n (layout_sched s) 0 [] ≡ ok (take s.n s.ids)
unfolding layout_sched
read_ids-layout s v =
    rw (length-taken s v) at
      (read_ids-flat (take s.n s.ids) (fixed_part s) [] 0 (omega arith) v.ids_good v.ids_distinct)

with_ids-layout : (s : Sched) → IsValid s → with_ids (layout_sched s) (ok (take s.n s.ids)) ≡ ok s
unfolding layout_sched
with_ids-layout s v = λ i. ok (record {
  epoch = read32 s.epoch v.epoch_fits i;
  death = read64 s.death v.death_fits i;
  quality = read64 s.quality v.quality_fits i;
  explicit = read64 s.explicit v.explicit_fits i;
  n = s.n;
  ids = (ap (λ t. take s.n s.ids ++ t) (sym v.ids_rest) ∙ take-append-drop s.n s.ids) i;
})

length-layout_sched : (s : Sched) → IsValid s → length (layout_sched s) ≡ 29 + 4 * s.n
unfolding layout_sched
length-layout_sched s v = omega (arith, length-flat (take s.n s.ids), length-taken s v)

parse_sched-layout : (s : Sched) → IsValid s → parse_sched (layout_sched s) ≡ ok s
unfolding parse_sched
parse_sched-layout s v = rw (
  count,
  read_ids-layout s v,
  with_ids-layout s v,
  le→ltb (length (layout_sched s)) 29 (omega (arith, length-layout_sched s v)),
  le→ltb s.n 1 v.n_in.0,
  le→ltb 16 s.n v.n_in.1,
  exact_tail_self (length (layout_sched s) - 29) (4 * s.n) (omega (arith, length-layout_sched s v)),
)
  where
    count : byte (layout_sched s) 28 ≡ s.n
    count = unfold layout_sched in refl

-- PutSched writes a valid SCHED into a buffer that has room for it, ParseSched reads it back from
-- those bytes with the same carrier IDs, and the rest of the buffer is unchanged.
pub parse_sched-put_sched :
    (dst : List ℕ) (s : Sched)
    → IsValid s
    → 29 + 4 * s.n ≤ length dst
    → (d : List ℕ) × (put_sched dst s ≡ some (29 + 4 * s.n, d))
      × (parse_sched (take (29 + 4 * s.n) d) ≡ ok s)
      × (drop (29 + 4 * s.n) d ≡ drop (29 + 4 * s.n) dst)
unfolding put_sched
parse_sched-put_sched dst s v h =
    rw (le→ltb s.n 1 v.n_in.0, le→ltb 16 s.n v.n_in.1)
      (put_front_read parse_sched dst (layout_sched s) _ (ok s) (length-layout_sched s v) h
        (parse_sched-layout s v))

-- What the ID loop returns: what it had seen and `k` more IDs, as they stand in the input.
record WasRead (k : ℕ) (p : List ℕ) (i : ℕ) (seen ids : List ℕ) : Type 0 where
  more : List ℕ
  joined : seen ++ more ≡ ids
  counted : length more ≡ k
  stands : flat more ++ drop (29 + 4 * (i + k)) p ≡ drop (29 + 4 * i) p
  good : All IsId more
  distinct : Distinct ids

read_ids-WasRead :
    (k : ℕ) (p : List ℕ) (i : ℕ) (seen ids : List ℕ)
    → All IsByte p
    → 29 + 4 * (i + k) ≤ length p
    → Distinct seen
    → read_ids k p i seen ≡ ok ids
    → WasRead k p i seen ids
unfolding read_ids flat
read_ids-WasRead zero p i seen ids b n d h = record {
  more = [];
  joined = append-nil seen ∙ ok-injective h;
  counted = refl;
  stands = ap (λ t. drop t p) {x = 29 + 4 * (i + 0)} {y = 29 + 4 * i} (omega arith);
  good = tt;
  distinct = subst Distinct (ok-injective h) d;
}
read_ids-WasRead (suc k) p i seen ids b n d h =
    let id = uint32 p (29 + 4 * i) in
    let (nonzero, h1) = fail_if-ok (id == 0) _ _ h in
    let (fresh, h2) = fail_if-ok (contains seen id) _ _ h1 in
    let w =
      read_ids-WasRead k p (i + 1) (seen ++ id ∷ []) ids b (omega arith)
        (Distinct-snoc seen id d fresh) h2 in
    record {
      more = id ∷ w.more;
      joined = sym (append_assoc seen (id ∷ []) w.more) ∙ w.joined;
      counted = ap suc w.counted;
      stands = uint32_field p (29 + 4 * i) b (omega arith) (
          ap (λ t. flat w.more ++ drop t p) {x = 29 + 4 * (i + suc k)} {y = 29 + 4 * (i + 1 + k)}
            (omega arith)
          ∙ w.stands
          ∙ ap (λ t. drop t p) {x = 29 + 4 * (i + 1)} {y = 29 + 4 * i + 4} (omega arith));
      good = ((==-ne _ _ nonzero, uint32-lt p (29 + 4 * i) b (omega arith)), w.good);
      distinct = w.distinct;
    }

-- The record that ParseSched builds is valid, and its layout is the input.
built :
    (p ids : List ℕ)
    → All IsByte p
    → 1 ≤ byte p 28
    → byte p 28 ≤ 16
    → length p ≡ 29 + 4 * byte p 28
    → WasRead (byte p 28) p 0 [] ids
    → (s : Sched) → with_ids p (ok ids) ≡ ok s
    → IsValid s × (layout_sched s ≡ p)
unfolding layout_sched
built p ids b lo hi n w s e =
    ok_subst (λ x. IsValid x × (layout_sched x ≡ p)) e
      (
        record {
          epoch_fits = uint32-lt p 0 b (omega arith);
          death_fits = uint64-lt p 4 b (omega arith);
          quality_fits = uint64-lt p 12 b (omega arith);
          explicit_fits = uint64-lt p 20 b (omega arith);
          n_in = (lo, hi);
          ids_length = omega (
            arith,
            length-append ids (replicate (16 - byte p 28) 0),
            length-replicate (16 - byte p 28) zero,
            counted,
          );
          ids_good = rw (taken, ← w.joined) w.good;
          ids_distinct = rw taken w.distinct;
          ids_rest = drop-append (byte p 28) ids _ counted;
        },
        uint32_field p 0 b (omega arith) (
            uint64_field p 4 b (omega arith) (
              uint64_field p 12 b (omega arith) (
                uint64_field p 20 b (omega arith) (
                  ap (λ t. byte p 28 ∷ flat t) (taken ∙ sym w.joined)
                  ∙ ap (λ t. byte p 28 ∷ t) ids_stand
                  ∙ byte_field p 28 (omega arith) refl)))),
      )
  where
    counted : length ids ≡ byte p 28
    counted = ap length (sym w.joined) ∙ w.counted

    taken : take (byte p 28) (ids ++ replicate (16 - byte p 28) 0) ≡ ids
    taken = take-append (byte p 28) ids _ counted

    ids_stand : flat w.more ≡ drop 29 p
    ids_stand =
        sym (append-nil (flat w.more))
        ∙ ap (λ t. flat w.more ++ t) (no_more p (29 + 4 * (0 + byte p 28)) (omega arith))
        ∙ w.stands

with_ids-cases :
    (p : List ℕ) (r : Decoded (List ℕ)) {s : Sched}
    → with_ids p r ≡ ok s
    → (ids : List ℕ) × (r ≡ ok ids)
with_ids-cases p (ok ids) e = (ids, refl)
with_ids-cases p (err x) e = cc

-- What ParseSched accepts is valid: 1 to 16 carrier IDs, non-zero and distinct, and zeros behind
-- them. Its bytes are those that PutSched writes for it.
pub layout_sched-parse_sched :
    (p : List ℕ) (s : Sched)
    → All IsByte p
    → parse_sched p ≡ ok s
    → IsValid s × (layout_sched s ≡ p)
unfolding parse_sched
layout_sched-parse_sched p s b h =
    let (long, h1) = fail_if-ok (ltb (length p) 29) _ _ h in
    let (count, h2) = fail_if-ok (ltb (byte p 28) 1 || ltb 16 (byte p 28)) _ _ h1 in
    let (exact, h3) = check-ok (exact_tail (length p - 29) (4 * byte p 28)) _ h2 in
    let (ids, e) = with_ids-cases p (read_ids (byte p 28) p 0 []) h3 in
    let n : 29 ≤ length p = ltb→le _ _ long in
    let k = exact_tail-eq _ _ exact in
    built p ids b (ground arith) (ground arith) (omega arith)
      (read_ids-WasRead (byte p 28) p 0 [] ids b (omega arith) tt e) s (rw e at h3)
