-- ===== src/Session/Receive/Pieces.antt =====
-- A piece of a frame that is copied (insertCopyLocked and a round of copyPiecesLocked of
-- internal/session/recv.go) keeps the invariant of the receive side.
use rendr.Common.{
  ℕ, zero, suc, ◌+◌, ◌-◌, ◌≤◌, ◌<◌, ◌≡◌, refl, sym, ap, ◌∙◌, subst, inl, inr, Option, List, [], ◌∷◌,
  ◌++◌, arith, ◌==◌, Bool-cases, ==-eq, ==-ne, length, get_or, take, drop, length-take, length-drop,
  take-append-drop, slice,
}
use rendr.Session.Segments.{Seg, seg_end, no_seg, charges}
use rendr.Session.Segments.Chain.{
  Agrees, Agrees-drop, Agrees-take, Spread, Spread-weaken, Spread-append, Spread-le,
}
use rendr.Session.Receive.State.{Recv}
use rendr.Session.Receive.Loops.{charges-append}
use rendr.Session.Receive.Queues.{Inserted, placed, cut_off, insert_loop-Inserted}
use rendr.Session.Receive.Merging.{Gap, Held, Spread-gap}
use rendr.Session.Receive.Placed.{append_copy-Onward, replaced, merge_at-Onward}
use rendr.Session.Receive.Moves.{Onward, Advanced}
use rendr.Session.Receive.Place.{append_copy, inserted, insert_copy}
use rendr.Session.Receive.Data.{place_piece}

pub charges-split : (i : ℕ) (l : List Seg) → charges (take i l) + charges (drop i l) ≡ charges l
charges-split i l =
    sym (charges-append (take i l) (drop i l)) ∙ ap (λ x. charges x) (take-append-drop i l)

pub Gap-take : (tail i : ℕ) (l : List Seg) → Gap tail l → Gap tail (take i l)
Gap-take tail zero l g = tt
Gap-take tail (suc i) [] g = tt
Gap-take tail (suc i) (sg ∷ l) g = g

module _ (content : ℕ → ℕ) where
  pub none_before : (tail i : ℕ) (l : List Seg) → Spread content tail (take i l) tail → drop i l ≡ l
  none_before tail zero l s = refl
  none_before tail (suc i) [] s = refl
  none_before tail (suc i) (sg ∷ l) s =
      absurd (omega (arith, s.0, s.1.0, Spread-le content (seg_end sg) tail (take i l) s.2))

  off-le :
      (lo hi i : ℕ) (l : List Seg)
      → Spread content lo l hi
      → i < length l
      → lo ≤ Seg.off (get_or l i no_seg)
  off-le lo hi i [] s h = absurd (omega arith)
  off-le lo hi zero (sg ∷ l) s h = s.0
  off-le lo hi (suc i) (sg ∷ l) s h =
      omega (arith, s.0, off-le (seg_end sg) hi i l s.2 (omega arith))

  pub Gap-off :
      (tail hi i : ℕ) (l : List Seg)
      → Spread content tail l hi
      → Gap tail l
      → i < length l
      → tail < Seg.off (get_or l i no_seg)
  Gap-off tail hi i [] s g h = absurd (omega arith)
  Gap-off tail hi zero (sg ∷ l) s g h = g
  Gap-off tail hi (suc i) (sg ∷ l) s g h =
      omega (arith, g, off-le (seg_end sg) hi i l s.2 (omega arith))

  pub slice_size :
      (off : ℕ) (p : List ℕ) (pos n : ℕ)
      → off ≤ pos
      → pos + n ≤ off + length p
      → length (slice p (pos - off) n) ≡ n
  slice_size off p pos n o w =
      omega (arith, length-take n (drop (pos - off) p), length-drop (pos - off) p)

  pub slice-Agrees :
      (off : ℕ) (p : List ℕ) (pos n : ℕ)
      → Agrees content off p
      → off ≤ pos
      → Agrees content pos (slice p (pos - off) n)
  slice-Agrees off p pos n a o =
      subst (λ x. Agrees content x (slice p (pos - off) n)) {x = off + (pos - off)} (omega arith)
        (Agrees-take content (off + (pos - off)) (drop (pos - off) p) n
          (Agrees-drop content off p (pos - off) a))

  inserted-Onward :
      (st : Recv) (pos : ℕ) (q : List ℕ) (l : List Seg) (left : ℕ) {r : List Seg × ℕ × Option ℕ}
      → Held content st
      → st.r_tail < st.right_edge
      → Spread content (pos + length q) l st.right_edge
      → Inserted content (suc st.r_tail) pos q (charges st.inq + charges l) r
      → Onward content st (inserted st r.0 l r.1 r.2 left)
  unfolding inserted
  inserted-Onward st pos q l left h t s (placed before held p e) =
      merge_at-Onward content st held (pos + length q) before l left h t p s (omega (arith, e))
  inserted-Onward st pos q l left h t s (cut_off before held to n p w e) =
      replaced content st (before ++ l) held (st.ooo_dropped + n) h t
        (Spread-append content (suc st.r_tail) to st.right_edge before l p (
          Spread-weaken content (pos + length q) to st.right_edge st.right_edge l s w
            (omega arith)))
        (omega (arith, charges-append before l, e))

  insert_copy-Onward :
      (limit : ℕ) (st : Recv) (i pos : ℕ) (piece : List ℕ) (left : ℕ)
      → Held content st
      → st.r_tail < st.right_edge
      → Agrees content pos piece
      → Spread content (suc st.r_tail) (take i st.ooq) pos
      → Spread content (pos + length piece) (drop i st.ooq) st.right_edge
      → Onward content st (insert_copy limit st i pos piece left)
  unfolding insert_copy
  insert_copy-Onward limit st i pos piece left h t a s d =
      inserted-Onward st pos piece (drop i st.ooq) left h t d (
        insert_loop-Inserted content (suc st.r_tail) (length piece) limit (take i st.ooq) pos piece
          st.ooo_cap (charges st.inq + charges (drop i st.ooq)) s a (omega arith)
          (omega (arith, h.charged, charges-split i st.ooq)))

  -- A round of the copy: the invariant is kept, the position moves on, and no byte in order is
  -- skipped.
  pub record Stepped (st : Recv) (pos : ℕ) (r : Recv × ℕ) : Type 0 where
    pub onward : Onward content st r.0
    pub moves : pos < r.1
    pub taken : pos ≤ st.r_tail → r.1 ≤ r.0.r_tail

  pub place_piece-Stepped :
      (limit : ℕ) (st : Recv) (i off : ℕ) (p : List ℕ) (left pos stop : ℕ)
      → Held content st
      → Agrees content off p
      → off ≤ pos
      → st.r_tail ≤ pos
      → pos < stop
      → stop ≤ off + length p
      → off + length p ≤ st.right_edge
      → Spread content st.r_tail (take i st.ooq) pos
      → Spread content stop (drop i st.ooq) st.right_edge
      → Stepped st pos (place_piece limit st i off p left pos stop)
  unfolding place_piece
  place_piece-Stepped limit st i off p left pos stop h a o t m w e s d =
      elim (Bool-cases (pos == st.r_tail)) [
        | inl g ↦ rw g (at_tail (==-eq pos st.r_tail g))
        | inr g ↦ rw g (
            let q : st.r_tail < pos = omega (arith, ==-ne pos st.r_tail g) in
            record {
              onward =
                  insert_copy-Onward limit st i pos (slice p (pos - off) (stop - pos)) left h
                    (omega (arith, Spread-le content stop st.right_edge (drop i st.ooq) d))
                    (slice-Agrees off p pos (stop - pos) a o) (before_pos q)
                    (subst (λ x. Spread content x (drop i st.ooq) st.right_edge) (sym size) d);
              moves = m;
              taken = λ z. absurd (omega arith);
            })
      ]
    where
      size : pos + length (slice p (pos - off) (stop - pos)) ≡ stop
      size = omega (arith, slice_size off p pos (stop - pos) o (omega arith))

      before_pos : st.r_tail < pos → Spread content (suc st.r_tail) (take i st.ooq) pos
      before_pos q =
          Spread-gap content st.r_tail pos (take i st.ooq) s (Gap-take st.r_tail i st.ooq h.gap) q

      at_tail :
          pos ≡ st.r_tail
          → Stepped st pos (append_copy st pos (slice p (pos - off) (stop - pos)) left, stop)
      at_tail g =
          let z =
            append_copy-Onward content st (slice p (pos - off) (stop - pos)) left h
              (subst (λ x. Agrees content x (slice p (pos - off) (stop - pos))) g
                (slice-Agrees off p pos (stop - pos) a o))
              (subst (λ x. Spread content x st.ooq st.right_edge) {x = stop}
                (omega (arith, size, g))
                (subst (λ x. Spread content stop x st.right_edge)
                  (none_before st.r_tail i st.ooq
                    (subst (λ x. Spread content st.r_tail (take i st.ooq) x) g s))
                  d)) in
          let z' : Advanced content st (st.r_tail + length (slice p (pos - off) (stop - pos)))
              (append_copy st pos (slice p (pos - off) (stop - pos)) left) =
            subst
              (λ x.
                Advanced content st (st.r_tail + length (slice p (pos - off) (stop - pos)))
                  (append_copy st x (slice p (pos - off) (stop - pos)) left))
              (sym g) z in
          record { onward = z'.onward; moves = m; taken = λ y. omega (arith, z'.reaches, size, g) }
