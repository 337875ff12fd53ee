-- ===== src/Session/Receive/Copied.antt =====
-- The loop of copyPiecesLocked (internal/session/recv.go) keeps the invariant of the receive side.
use rendr.Common.{
  ℕ, zero, suc, ◌+◌, ◌≤◌, ◌<◌, min, refl, inl, inr, List, arith, leb, Bool-cases, lt→ltb, le→ltb,
  leb→le, leb→lt, length, get_or,
}
use native.Mathlib.Decide.{dec_lt}
use rendr.Session.Segments.{Seg, no_seg}
use rendr.Session.Segments.Chain.{Agrees}
use rendr.Session.Segments.Search.{passed, after-passed, take-passed, passed_end, Spread-drop}
use rendr.Session.Receive.State.{Recv}
use rendr.Session.Receive.Merging.{Held}
use rendr.Session.Receive.Moves.{Onward, Onward-trans}
use rendr.Session.Receive.Data.{place_piece, copy_step, copy_pieces}
use rendr.Session.Receive.Pieces.{Stepped, place_piece-Stepped, Gap-off}

module _ (content : ℕ → ℕ) where
  pub copy_step-Stepped :
      (limit : ℕ) (st : Recv) (off : ℕ) (p : List ℕ) (left pos : ℕ)
      → Held content st
      → Agrees content off p
      → off ≤ pos
      → pos < off + length p
      → off + length p ≤ st.right_edge
      → Stepped content st pos (copy_step limit st off p left pos)
  unfolding copy_step
  copy_step-Stepped limit st off p left pos h a o m e =
      rw (after-passed content st.r_tail st.right_edge pos st.ooq h.ahead)
        (elim (dec_lt pos st.r_tail) [
          | yes t ↦
              rw (lt→ltb pos st.r_tail t)
                (record { onward = stays; moves = t; taken = λ z. omega arith })
          | no t ↦ rw (le→ltb pos st.r_tail (omega arith)) (elim (dec_lt i (length st.ooq)) [
            | no k ↦ rw (le→ltb i (length st.ooq) (omega arith)) (
                placed_to (off + length p) (omega arith) m (omega arith)
                  (λ z. absurd (omega arith)))
            | yes k ↦ rw (lt→ltb i (length st.ooq) k) (elim (Bool-cases (leb (Seg.off sg) pos)) [
              | inl g ↦ rw g (record {
                onward = stays;
                moves = passed_end content pos st.ooq k;
                taken = λ z. absurd (beyond k (leb→le (Seg.off sg) pos g) z);
              })
              | inr g ↦ rw g (
                  placed_to (min (off + length p) (Seg.off sg)) (omega arith)
                    (omega (arith, leb→lt (Seg.off sg) pos g)) (omega arith) (λ z. omega arith))
            ])
          ])
        ])
    where
      i : ℕ
      i = passed st.ooq pos

      sg : Seg
      sg = get_or st.ooq (passed st.ooq pos) no_seg

      stays : Onward content st st
      stays = record { held = h; read = refl; edge = refl; mode = refl; tail = omega arith }

      placed_to :
          (stop : ℕ)
          → st.r_tail ≤ pos
          → pos < stop
          → stop ≤ off + length p
          → (passed st.ooq pos < length st.ooq
              → stop ≤ Seg.off (get_or st.ooq (passed st.ooq pos) no_seg))
          → Stepped content st pos (place_piece limit st (passed st.ooq pos) off p left pos stop)
      placed_to stop t q w f =
          place_piece-Stepped content limit st (passed st.ooq pos) off p left pos stop h a o t q w e
            (take-passed content st.r_tail st.right_edge pos st.ooq h.ahead t)
            (Spread-drop content st.r_tail st.right_edge stop st.ooq (passed st.ooq pos) h.ahead
              (omega arith) f)

      beyond :
          passed st.ooq pos < length st.ooq
          → Seg.off (get_or st.ooq (passed st.ooq pos) no_seg) ≤ pos
          → pos ≤ st.r_tail
          → ⊥
      beyond k g z = absurd (
          omega (
            arith,
            Gap-off content st.r_tail st.right_edge (passed st.ooq pos) st.ooq h.ahead h.gap k,
          ))

  -- With fuel for the bytes left, the copy reaches the end of the frame.
  pub copy_pieces-Advanced :
      (n limit : ℕ) (st : Recv) (off : ℕ) (p : List ℕ) (left pos : ℕ)
      → Held content st
      → Agrees content off p
      → off ≤ pos
      → off + length p ≤ st.right_edge
      → off + length p ≤ pos + n
      → Onward content st (copy_pieces n limit st off p left pos)
        × (pos ≤ st.r_tail → off + length p ≤ (copy_pieces n limit st off p left pos).r_tail)
  unfolding copy_pieces
  copy_pieces-Advanced zero limit st off p left pos h a o e f = (
    record { held = h; read = refl; edge = refl; mode = refl; tail = omega arith },
    λ z. omega arith,
  )
  copy_pieces-Advanced (suc n) limit st off p left pos h a o e f =
      elim (dec_lt pos (off + length p)) [
        | no g ↦ rw (le→ltb pos (off + length p) (omega arith)) (
          record { held = h; read = refl; edge = refl; mode = refl; tail = omega arith },
          λ z. omega arith,
        )
        | yes g ↦ rw (lt→ltb pos (off + length p) g) (
            let s = copy_step-Stepped limit st off p left pos h a o g e in
            let st' = (copy_step limit st off p left pos).0 in
            let (x, y) =
              copy_pieces-Advanced n limit st' off p left (copy_step limit st off p left pos).1
                s.onward.held a (omega (arith, s.moves)) (omega (arith, s.onward.edge))
                (omega (arith, s.moves)) in
            (
              Onward-trans content st st'
                  (copy_pieces n limit st' off p left (copy_step limit st off p left pos).1)
                  s.onward x,
              λ z. y (s.taken z),
            ))
      ]
