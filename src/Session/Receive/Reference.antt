-- ===== src/Session/Receive/Reference.antt =====
-- A frame kept by reference keeps the invariant of the receive side (keepRefLocked of
-- internal/session/recv.go).
use rendr.Common.{
  ℕ, suc, ◌+◌, ◌-◌, ◌≤◌, ◌<◌, max, ◌≡◌, refl, sym, ap, ap₂, ◌∙◌, subst, inl, inr, false, some, List,
  [], ◌∷◌, ◌++◌, arith, ltb, ◌==◌, Bool-cases, ==-eq, ==-ne, length, take, drop, length-take,
  take-append, drop-append, slice,
}
use rendr.Session.Segments.{Seg, seg_end, push, charges, cut}
use rendr.Session.Segments.Chain.{
  Agrees, Covers, Covers-push, Sound, Spread, Spread-push, Spread-le,
}
use rendr.Session.Receive.State.{Recv, Buf}
use rendr.Session.Receive.Loops.{charges-append, charges-push}
use rendr.Session.Receive.Merging.{Held, Spread-gap}
use rendr.Session.Receive.Moves.{Onward, Ready, promote-Onward, promote_first}
use rendr.Session.Receive.Placed.{merge_at-Onward}
use rendr.Session.Receive.Pieces.{charges-split, Gap-take, Gap-off, slice_size, slice-Agrees}
use rendr.Session.Receive.Range.{back-push, cut_lem, Stop, at_end, at_straddler, Within}
use rendr.Session.Receive.Place.{HeldRange, release_ooo_range, promote, merge_at, keep_ref}

nothing_between : (content : ℕ → ℕ) (tail : ℕ) (l : List Seg) → Spread content tail l tail → l ≡ []
nothing_between content tail [] s = refl
nothing_between content tail (sg ∷ l) s =
    absurd (omega (arith, s.0, s.1.0, Spread-le content (seg_end sg) tail l s.2))

module _ (content : ℕ → ℕ) (limit : ℕ) (st : Recv) (off : ℕ) (p : List ℕ) (buf : Buf)
    (h : HeldRange) (start : ℕ) (n left : ℕ) (held : Held content st)
    (agrees : Agrees content off p) (edge : off + length p ≤ st.right_edge)
    (ahead : st.r_tail ≤ start) (later : off ≤ start)
    (w : Within content st start (off + length p) h) (new : h.s0 < h.x) where
  -- The segment that refers to the frame's buffer.
  abbrev kept : Seg
  kept = record {
    off = h.s0;
    bytes = slice p (h.s0 - off) (h.x - h.s0);
    span = buf.span - (h.s0 - off);
    charge = buf.capacity;
    is_run = false;
  }

  kept_end : seg_end kept ≡ h.x
  kept_end = omega (
    arith,
    slice_size content off p h.s0 (h.x - h.s0) (omega (arith, w.starts, later))
        (omega (arith, w.below, new)),
    new,
  )

  kept-Sound : Sound content kept
  kept-Sound = (
    omega (arith, kept_end, new),
    slice-Agrees content off p h.s0 (h.x - h.s0) agrees (omega (arith, w.starts, later)),
  )

  abbrev remaining : List Seg
  remaining = take h.a st.ooq ++ drop w.k (drop h.a st.ooq)

  cut-remaining : cut st.ooq h.a h.b ≡ remaining
  cut-remaining = ap (λ x. cut st.ooq h.a x) w.inside ∙ cut_lem st.ooq h.a w.k

  remaining-charges : charges st.ooq ≡ h.charge + charges remaining
  remaining-charges = omega (
    arith,
    charges-split h.a st.ooq,
    charges-split w.k (drop h.a st.ooq),
    w.charged,
    charges-append (take h.a st.ooq) (drop w.k (drop h.a st.ooq)),
  )

  released : charges (take (h.b - h.a) (drop h.a st.ooq)) ≡ h.charge
  released =
      ap (λ x. charges (take x (drop h.a st.ooq))) {x = h.b - h.a} {y = w.k}
        (omega (arith, w.inside))
      ∙ sym w.charged

  take-remaining : take h.a remaining ≡ take h.a st.ooq
  take-remaining =
      take-append h.a (take h.a st.ooq) (drop w.k (drop h.a st.ooq))
        (omega (arith, length-take h.a st.ooq, w.fits))

  drop-remaining : drop h.a remaining ≡ drop w.k (drop h.a st.ooq)
  drop-remaining =
      drop-append h.a (take h.a st.ooq) (drop w.k (drop h.a st.ooq))
        (omega (arith, length-take h.a st.ooq, w.fits))

  -- Out of order: the reference replaces the segments inside its range.
  beyond_tail :
      st.r_tail < h.s0
      → Onward content st (
          merge_at
            (record st { ooo_cap = st.ooo_cap - h.charge + buf.capacity })
            (some kept)
            (push (take h.a st.ooq) kept)
            (drop w.k (drop h.a st.ooq))
            left)
  beyond_tail q =
      subst
        (λ x. Onward content st (
          merge_at (record st { ooo_cap = st.ooo_cap - h.charge + buf.capacity }) x
            (push (take h.a st.ooq) kept) (drop w.k (drop h.a st.ooq)) left))
        (back-push (take h.a st.ooq) kept)
        (merge_at-Onward content st (st.ooo_cap - h.charge + buf.capacity) h.x
          (push (take h.a st.ooq) kept) (drop w.k (drop h.a st.ooq)) left held
          (omega (arith, new, w.below, edge, q))
          (subst (λ x. Spread content (suc st.r_tail) (push (take h.a st.ooq) kept) x) kept_end
            (Spread-push content (suc st.r_tail) (take h.a st.ooq) kept
              (Spread-gap content st.r_tail h.s0 (take h.a st.ooq) w.before
                (Gap-take st.r_tail h.a st.ooq held.gap) q)
              kept-Sound))
          w.after_it
          (omega (
            arith,
            held.charged,
            remaining-charges,
            charges-append (take h.a st.ooq) (drop w.k (drop h.a st.ooq)),
            charges-push (take h.a st.ooq) kept,
          )))

  -- In order: no segment is before it, and what follows is promoted.
  abbrev taken : Recv
  taken = record st {
    inq = push st.inq kept;
    ooo_cap = st.ooo_cap - h.charge + buf.capacity;
    rx_bytes = st.rx_bytes + (h.x - h.s0);
    r_tail = h.x;
    ooq = remaining;
  }

  taken-Ready :
      h.s0 ≡ st.r_tail
      → (l : List Seg) → l ≡ remaining
      → Spread content h.x l st.right_edge
      → Ready content taken l
  taken-Ready q l e s = record {
    from = held.from;
    covered =
        subst (λ x. Covers content held.from (push st.inq kept) x) kept_end
          (Covers-push content held.from st.inq kept
            (subst (λ x. Covers content held.from st.inq x) (sym q) held.covered) kept-Sound);
    kept = held.kept;
    unread = omega (arith, held.unread, new, q);
    ahead = s;
    charged =
        omega
          (arith, ap (λ x. charges x) e, remaining-charges, held.charged, charges-push st.inq kept);
  }

  in_order :
      h.s0 ≡ st.r_tail
      → Onward content st (promote taken remaining left)
        × (off + length p ≤ (promote taken remaining left).r_tail)
  in_order q = with_rest (drop w.k (drop h.a st.ooq)) refl w.after_it w.stop
    where
      nothing_before : take h.a st.ooq ≡ []
      nothing_before =
          nothing_between content st.r_tail (take h.a st.ooq)
            (subst (λ x. Spread content st.r_tail (take h.a st.ooq) x) q w.before)

      stop_at :
          (l : List Seg)
          → Spread content h.x l st.right_edge
          → l ≡ remaining
          → Stop content (off + length p) l h.x
          → Onward content st (promote taken l left)
            × (off + length p ≤ (promote taken l left).r_tail)
      stop_at l s e (at_end x) =
          let z = promote-Onward content l taken left (taken-Ready q l e s) in
          (
            record {
              held = z.held;
              read = z.read;
              edge = z.edge;
              mode = z.mode;
              tail = omega (arith, z.tail, new, q);
            },
            omega (arith, z.tail, x),
          )
      stop_at l s e (at_straddler sg r f o g) =
          let z = promote-Onward content l taken left (taken-Ready q l e s) in
          (
            record {
              held = z.held;
              read = z.read;
              edge = z.edge;
              mode = z.mode;
              tail = omega (arith, z.tail, new, q);
            },
            subst (λ y. off + length p ≤ (promote taken y left).r_tail) (sym f)
                (omega (
                  arith,
                  g,
                  promote_first content sg r taken left
                      (subst (λ y. Ready content taken y) f (taken-Ready q l e s)) o,
                )),
          )

      same : (l : List Seg) → drop w.k (drop h.a st.ooq) ≡ l → remaining ≡ l
      same l e = ap₂ (λ u v. u ++ v) nothing_before e

      with_rest :
          (l : List Seg)
          → drop w.k (drop h.a st.ooq) ≡ l
          → Spread content h.x l st.right_edge
          → Stop content (off + length p) l h.x
          → Onward content st (promote taken remaining left)
            × (off + length p ≤ (promote taken remaining left).r_tail)
      with_rest l e s stop =
          subst
            (λ r.
              Onward content st (promote taken r left)
              × (off + length p ≤ (promote taken r left).r_tail))
            (sym (same l e)) (stop_at l s (sym (same l e)) stop)

  -- The frame is kept, or dropped because of the limit; in order it is always kept.
  pub keep_ref-Onward :
      Onward content st (keep_ref limit st off p buf h n left)
      × (off ≤ st.r_tail
          → start ≡ max off st.r_tail
          → off + length p ≤ (keep_ref limit st off p buf h n left).r_tail)
  unfolding keep_ref release_ooo_range merge_at
  keep_ref-Onward =
      rw (cut-remaining, released, take-remaining, drop-remaining)
        (elim (Bool-cases (h.s0 == st.r_tail)) [
          | inl e ↦ rw e (let (a, b) = in_order (==-eq h.s0 st.r_tail e) in (a, λ x y. b))
          | inr e ↦ rw e (elim (Bool-cases (ltb limit (st.ooo_cap - h.charge + buf.capacity))) [
            | inl g ↦ rw g (
              record {
                held = record {
                  from = held.from;
                  covered = held.covered;
                  kept = held.kept;
                  unread = held.unread;
                  ahead = held.ahead;
                  gap = held.gap;
                  charged = held.charged;
                };
                read = refl;
                edge = refl;
                mode = refl;
                tail = omega arith;
              },
              λ x y. absurd (not_tail e x y),
            )
            | inr g ↦ rw g (
              beyond_tail (omega (arith, ==-ne h.s0 st.r_tail e, w.starts, ahead)),
              λ x y. absurd (not_tail e x y),
            )
          ])
        ])
    where
      not_tail : (h.s0 == st.r_tail) ≡ false → off ≤ st.r_tail → start ≡ max off st.r_tail → ⊥
      not_tail e x y = absurd (
          ==-ne h.s0 st.r_tail e (
            w.unless_straddled (λ i k.
              omega (
                arith,
                x,
                y,
                Gap-off content st.r_tail st.right_edge i st.ooq held.ahead held.gap k,
              ))
            ∙ omega (arith, x, y)))
