-- ===== src/Session/Receive/Kept.antt =====
-- A DATA frame at the receive path (recvDataLocked of internal/session/recv.go): what it takes, what
-- it refuses, and the invariant it keeps.
use rendr.Common.{
  ℕ, ◌+◌, ◌-◌, ◌^◌, ◌≤◌, ◌<◌, min, max, ◌≡◌, refl, subst, ◌⊎◌, inl, inr, Bool, true, Option, none,
  some, List, [], arith, Bool-cases, lt→ltb, length, slice,
}
use native.Mathlib.Decide.{dec_lt}
use rendr.Session.Segments.Chain.{Agrees}
use rendr.Session.Receive.State.{Recv, Buf, Violation, conflict_err}
use rendr.Session.Receive.Data.{
  place_new, refuse, range_error, agrees_in_order, compared, checked, recv_data,
}
use rendr.Session.Receive.Merging.{Held}
use rendr.Session.Receive.Pieces.{slice_size}
use rendr.Session.Receive.Compared.{ring_equal_sound}
use rendr.Session.Receive.Taken.{recv_data-Takes}

module _ (content : ℕ → ℕ) (race : Bool) (limit : ℕ) (st : Recv) (off : ℕ) (p : List ℕ)
    (buf : Option Buf) (held : Held content st) (agrees : Agrees content off p) (h : off < 2 ^ 64)
    (k : length p < 2 ^ 64) (e : range_error st off p ≡ none) where
  -- On a state that holds bytes of a stream (the invariant), a frame of bytes of the same stream
  -- that is not empty, ends at or below the right edge and does not pass the peer's FIN (its
  -- offset and length below 2^64) is answered without an error, whatever it overlaps; the
  -- invariant holds again, and neither the in-order end nor the read position moves back.
  pub recv_data_accepts :
      ((recv_data race limit st off p buf).error ≡ none)
      × Held content (recv_data race limit st off p buf).next
      × (st.r_tail ≤ (recv_data race limit st off p buf).next.r_tail)
      × (st.r_read ≤ (recv_data race limit st off p buf).next.r_read)
  recv_data_accepts =
      let t = recv_data-Takes content st off p held agrees race limit buf h k e in
      (t.accepted, t.later.held, t.later.tail, t.later.read)

  -- On a state that holds bytes of a stream (the invariant), a frame of bytes of the same stream
  -- that ends at or below the right edge, does not pass the peer's FIN (its offset and length below
  -- 2^64), begins at or before the in-order end and ends beyond it is in order afterwards to its
  -- last byte, whatever the receive limit; and then nothing is held out of order or the charge is
  -- at most the receive limit.
  pub recv_data_in_order :
      off ≤ st.r_tail
      → st.r_tail < off + length p
      → (off + length p ≤ (recv_data race limit st off p buf).next.r_tail)
        × (((recv_data race limit st off p buf).next.ooq ≡ [])
            ⊎ ((recv_data race limit st off p buf).next.ooo_cap ≤ limit))
  recv_data_in_order w z =
      let t = recv_data-Takes content st off p held agrees race limit buf h k e in
      (t.in_order w, t.within (omega (arith, t.in_order w, z)))

-- When recvDataLocked answers with a violation, the receive side is as it was before the frame,
-- and nothing is reported to the rest of the session.
pub recv_data_refused :
    (race : Bool) (limit : ℕ) (st : Recv) (off : ℕ) (p : List ℕ) (buf : Option Buf) (v : Violation)
    → (recv_data race limit st off p buf).error ≡ some v
    → ((recv_data race limit st off p buf).next ≡ st)
      × ((recv_data race limit st off p buf).signals ≡ [])
unfolding recv_data checked compared place_new
recv_data_refused race limit st off p buf v e = by_range (range_error st off p) e
  where
    by_range :
        (x : Option Violation)
        → (checked x race limit st off p buf).error ≡ some v
        → ((checked x race limit st off p buf).next ≡ st)
          × ((checked x race limit st off p buf).signals ≡ [])
    by_range (some u) q = (refl, refl)
    by_range none q = ground (arith, q)

-- What lies outside the window, beyond the peer's FIN or has no bytes is refused before it is compared.
pub recv_data-range_error :
    (race : Bool) (limit : ℕ) (st : Recv) (off : ℕ) (p : List ℕ) (buf : Option Buf) (v : Violation)
    → range_error st off p ≡ some v
    → recv_data race limit st off p buf ≡ refuse st v
unfolding recv_data checked
recv_data-range_error race limit st off p buf v e = rw e refl

module _ (content : ℕ → ℕ) where
  agrees_in_order_sound :
      (st : Recv) (off : ℕ) (p : List ℕ)
      → Held content st
      → agrees_in_order st off p ≡ true
      → Agrees content
          (max off st.r_read)
          (slice p (max off st.r_read - off) (min (off + length p) st.r_tail - max off st.r_read))
  unfolding agrees_in_order
  agrees_in_order_sound st off p h e =
      elim (dec_lt (max off st.r_read) (min (off + length p) st.r_tail)) [
        | yes g ↦
            ring_equal_sound content h.from st.r_tail (max off st.r_read) st.inq
              (slice p (max off st.r_read - off)
                (min (off + length p) st.r_tail - max off st.r_read))
              h.covered (omega (arith, h.kept))
              (omega (
                arith,
                g,
                slice_size content off p (max off st.r_read)
                    (min (off + length p) st.r_tail - max off st.r_read) (omega arith)
                    (omega (arith, g)),
              ))
              (rw
                (
                  lt→ltb off st.r_tail (omega (arith, g)),
                  lt→ltb (max off st.r_read) (min (off + length p) st.r_tail) g,
                )
                at e)
        | no g ↦
            subst (λ n. Agrees content (max off st.r_read) (slice p (max off st.r_read - off) n))
              {x = 0} (omega (arith, g)) refl
      ]

  -- On a state that holds bytes of a stream, a frame of whatever bytes that is answered without an
  -- error has the stream's bytes wherever it overlaps the bytes in order that are not read yet: a
  -- frame that differs there is answered with an error.
  pub recv_data_no_conflict :
      (race : Bool) (limit : ℕ) (st : Recv) (off : ℕ) (p : List ℕ) (buf : Option Buf)
      → Held content st
      → (recv_data race limit st off p buf).error ≡ none
      → Agrees content
          (max off st.r_read)
          (slice p (max off st.r_read - off) (min (off + length p) st.r_tail - max off st.r_read))
  unfolding recv_data checked compared
  recv_data_no_conflict race limit st off p buf h e = by_range (range_error st off p) e
    where
      none_some : (v : Violation) → some v ≡ none → ⊥
      none_some v q = absurd cc

      by_range :
          (x : Option Violation)
          → (checked x race limit st off p buf).error ≡ none
          → Agrees content (max off st.r_read) (
              slice p
                (max off st.r_read - off)
                (min (off + length p) st.r_tail - max off st.r_read))
      by_range (some v) q = absurd (none_some v q)
      by_range none q = elim (Bool-cases (agrees_in_order st off p)) [
        | inr f ↦ absurd (none_some (conflict_err race) (rw f at q))
        | inl f ↦ agrees_in_order_sound st off p h f
      ]
