-- ===== src/Session/Receive/Bounded.antt =====
-- The receive charge between DATA frames stays at the receive limit (recvDataLocked of
-- internal/session/recv.go).
use rendr.Common.{
  ℕ, zero, suc, ◌+◌, ◌-◌, ◌^◌, ◌≤◌, ◌<◌, max, ◌≡◌, refl, ap, ◌∙◌, inl, inr, Bool, false, ◌&&◌,
  Option, none, some, List, arith, ltb, Bool-cases, lt→ltb, le→ltb, ltb→lt, eq→==, le→leb, lt→leb,
  if-both, length, take, drop,
}
use native.Mathlib.Decide.{dec_lt, dec_le}
use rendr.Session.Segments.{charges, copy_budget}
use rendr.Session.Segments.Chain.{Agrees}
use rendr.Session.Receive.State.{Recv, Buf, Received}
use rendr.Session.Receive.Merging.{Held}
use rendr.Session.Receive.Copied.{copy_step-Stepped, copy_pieces-Advanced}
use rendr.Session.Receive.Data.{
  copy_step, copy_pieces, keeps_ref, place, place_new, after_placing, range_error, compared,
  checked, recv_data,
}
use rendr.Session.Receive.Range.{Within, held_in-Within}
use rendr.Session.Receive.Reference.{keep_ref-Onward}
use rendr.Session.Receive.Compared.{list_equal-Agrees}
use rendr.Session.Receive.Settled.{after_placing-Settled}
use rendr.Session.Receive.Taken.{
  new_bytes-lt, both-true, range_error-fits, place-Onward, agrees_held,
}
use rendr.Session.Receive.Place.{HeldRange, held_in, new_bytes}
use rendr.Session.Receive.Charge.{Bounded, keep_ref-Bounded, copy_step-Rests}

module _ (content : ℕ → ℕ) where
  copy_pieces-Bounded :
      (n limit : ℕ) (st : Recv) (off : ℕ) (p : List ℕ) (left pos : ℕ)
      → Held content st
      → Agrees content off p
      → off ≤ pos
      → off + length p ≤ st.right_edge
      → off + length p ≤ pos + n
      → (copy_pieces n limit st off p left pos).r_tail ≡ st.r_tail
      → Bounded limit st
      → Bounded limit (copy_pieces n limit st off p left pos)
  unfolding copy_pieces
  copy_pieces-Bounded zero limit st off p left pos h a o e f t b = b
  copy_pieces-Bounded (suc n) limit st off p left pos h a o e f t b =
      elim (dec_lt pos (off + length p)) [
        | no g ↦ rw (le→ltb pos (off + length p) (omega arith)) b
        | yes g ↦ rw (lt→ltb pos (off + length p) g) (
            let s = copy_step-Stepped content limit st off p left pos h a o g e in
            let st' = (copy_step limit st off p left pos).0 in
            let pos' = (copy_step limit st off p left pos).1 in
            let (x, y) =
              copy_pieces-Advanced content n limit st' off p left pos' s.onward.held a
                (omega (arith, s.moves)) (omega (arith, s.onward.edge)) (omega (arith, s.moves)) in
            let t' = rw (lt→ltb pos (off + length p) g) at t in
            copy_pieces-Bounded n limit st' off p left pos' s.onward.held a (omega (arith, s.moves))
              (omega (arith, s.onward.edge)) (omega (arith, s.moves, f))
              (omega (arith, t', x.tail, s.onward.tail))
              (copy_step-Rests limit st off p left pos b
                (λ q. omega (arith, s.moves, s.taken (omega (arith, q)), q))
                (omega (arith, t', x.tail, s.onward.tail))))
      ]

  place-Bounded :
      (limit : ℕ) (st : Recv) (off : ℕ) (p : List ℕ) (buf : Option Buf) (h : HeldRange)
      → Held content st
      → Agrees content off p
      → Within content st (max off st.r_tail) (off + length p) h
      → off + length p ≤ st.right_edge
      → (place limit st off p buf h (new_bytes h)).r_tail ≡ st.r_tail
      → Bounded limit st
      → Bounded limit (place limit st off p buf h (new_bytes h))
  unfolding place keeps_ref
  place-Bounded limit st off p none h d a w f t b =
      copy_pieces-Bounded (length p) limit st off p (copy_budget - new_bytes h) off d a
        (omega arith) f (omega arith) t b
  place-Bounded limit st off p (some y) h d a w f t b =
      elim (Bool-cases (keeps_ref y h (new_bytes h))) [
        | inr g ↦ rw g (
            copy_pieces-Bounded (length p) limit st off p (copy_budget - new_bytes h) off d a
              (omega arith) f (omega arith) (rw g at t) b)
        | inl g ↦ rw g (
            let new =
              new_bytes-lt h (ltb→lt 0 (new_bytes h) (both-true (ltb 0 (new_bytes h)) _ g).0) in
            let z =
              keep_ref-Onward content limit st off p y h (max off st.r_tail) (new_bytes h)
                copy_budget d a f (omega arith) (omega arith) w new in
            keep_ref-Bounded limit st off p y h (new_bytes h) copy_budget
              (λ q. omega (arith, z.1 (omega (arith, w.starts, q)) refl, w.below, new, q))
              (rw g at t)
              (w.charged
                ∙ ap (λ x. charges (take x (drop h.a st.ooq))) {x = w.k} (omega (arith, w.inside)))
              b)
      ]

  place_new-Bounded :
      (limit : ℕ) (st : Recv) (off : ℕ) (p : List ℕ) (buf : Option Buf)
      → Held content st
      → Agrees content off p
      → st.r_tail < off + length p
      → 0 < length p
      → off + length p ≤ st.right_edge
      → Bounded limit st
      → Bounded limit (place_new limit st off p buf).next
  unfolding place_new after_placing
  place_new-Bounded limit st off p buf d a t z f b =
      let h = held_in st.ooq (max off st.r_tail) (off + length p) in
      let w =
        held_in-Within content st (max off st.r_tail) (off + length p) d (omega arith) (omega arith)
          f in
      let (x, y) = place-Onward content st off p d a limit buf h (new_bytes h) w refl f in
      elim (dec_lt st.r_tail (place limit st off p buf h (new_bytes h)).r_tail) [
        | yes g ↦
            (after_placing-Settled content limit (place limit st off p buf h (new_bytes h))
                st.r_tail x.held).within
              g
        | no g ↦
            rw
              (eq→== (place limit st off p buf h (new_bytes h)).r_tail st.r_tail
                (omega (arith, x.tail)))
              (place-Bounded limit st off p buf h d a w f (omega (arith, x.tail)) b)
      ]

  -- Between DATA frames of a stream (in a state that holds the stream's bytes, each frame not empty,
  -- below the right edge and not past the peer's FIN, its offset and length below 2^64) the receive
  -- charge is at most the receive limit whenever anything is held out of order: a frame that finds
  -- it so leaves it so.
  pub recv_data-Bounded :
      (race : Bool) (limit : ℕ) (st : Recv) (off : ℕ) (p : List ℕ) (buf : Option Buf)
      → Held content st
      → Agrees content off p
      → off < 2 ^ 64
      → length p < 2 ^ 64
      → range_error st off p ≡ none
      → Bounded limit st
      → Bounded limit (recv_data race limit st off p buf).next
  unfolding recv_data checked compared
  recv_data-Bounded race limit st off p buf d a h k e b =
      let (z, f) = range_error-fits st off p h k e in
      rw
        (
          e,
          agrees_held content st off p d a z f,
          list_equal-Agrees content st.r_tail st.right_edge off p st.ooq d.ahead a,
        )
        (elim (dec_le (off + length p) st.r_tail) [
          | yes g ↦ rw (le→leb (off + length p) st.r_tail g, lt→ltb off st.r_tail (omega arith)) b
          | no g ↦ rw (lt→leb (off + length p) st.r_tail (omega arith)) (
              if-both {A = Received} (λ r. Bounded limit r.next) (ltb off st.r_tail && false) _
                (place_new limit st off p buf) b
                (place_new-Bounded limit st off p buf d a (omega arith) z f b))
        ])
