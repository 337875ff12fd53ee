-- ===== src/Session/Receive/Taken.antt =====
-- How recvDataLocked (internal/session/recv.go) takes a DATA frame of the stream.
use rendr.Common.{
  ℕ, ◌+◌, ◌-◌, ◌%◌, ◌^◌, ◌≤◌, ◌<◌, min, max, ◌≡◌, refl, sym, ◌∙◌, ◌⊎◌, inl, inr, Bool, true, false,
  ◌&&◌, ◌||◌, Option, none, some, List, [], arith, ltb, ◌==◌, if◌then◌else◌, Bool-cases, lt→ltb,
  ltb→lt, ltb→le, ==-ne, le→leb, lt→leb, length, slice,
}
use native.Mathlib.Decide.{dec_lt, dec_le}
use rendr.Session.Segments.{copy_budget}
use rendr.Session.Segments.Chain.{Agrees}
use rendr.Session.Receive.State.{Recv, Buf, Violation, Received}
use rendr.Session.Receive.Place.{HeldRange, held_in, new_bytes}
use rendr.Session.Receive.Data.{
  keeps_ref, place, place_new, range_error, agrees_in_order, compared, checked, recv_data,
}
use rendr.Session.Receive.Merging.{Held}
use rendr.Session.Receive.Moves.{Onward}
use rendr.Session.Receive.Pieces.{slice-Agrees}
use rendr.Session.Receive.Copied.{copy_pieces-Advanced}
use rendr.Session.Receive.Range.{Within, held_in-Within}
use rendr.Session.Receive.Reference.{keep_ref-Onward}
use rendr.Session.Receive.Compared.{ring_equal-Agrees, list_equal-Agrees}
use rendr.Session.Receive.Shed.{Later}
use rendr.Session.Receive.Settled.{after_placing-Settled}

pub both-true : (a b : Bool) → (a && b) ≡ true → (a ≡ true) × (b ≡ true)
both-true true b h = (refl, h)
both-true false b h = absurd cc

pub new_bytes-lt : (h : HeldRange) → 0 < new_bytes h → h.s0 < h.x
unfolding new_bytes
new_bytes-lt h w = elim (dec_le h.x h.s0) [
  | yes e ↦ absurd (omega (arith, rw (le→leb h.x h.s0 e) at w))
  | no e ↦ omega arith
]

-- A frame in range lies below the right edge, and below the peer's FIN.
pub range_error-fits :
    (st : Recv) (off : ℕ) (p : List ℕ)
    → off < 2 ^ 64
    → length p < 2 ^ 64
    → range_error st off p ≡ none
    → (0 < length p) × (off + length p ≤ st.right_edge)
unfolding range_error
range_error-fits st off p h k e =
    elim (Bool-cases ((length p == 0) || ltb ((off + length p) % 2 ^ 64) off)) [
      | inl f ↦ absurd (some_none (sym (rw f at e)))
      | inr f ↦ elim (dec_lt st.right_edge ((off + length p) % 2 ^ 64)) [
        | yes g ↦
            absurd
              (some_none (sym (rw (f, lt→ltb st.right_edge ((off + length p) % 2 ^ 64) g) at e)))
        | no g ↦
            let (x, y) = neither (length p == 0) (ltb ((off + length p) % 2 ^ 64) off) f in
            let z = ltb→le ((off + length p) % 2 ^ 64) off y in
            (omega (arith, ==-ne (length p) 0 x), omega (arith, h, k, z, g))
      ]
    ]
  where
    some_none : {v : Violation} → none ≡ some v → ⊥
    some_none q = absurd cc

    neither : (a b : Bool) → (a || b) ≡ false → (a ≡ false) × (b ≡ false)
    neither true b q = absurd cc
    neither false b q = (refl, q)

module _ (content : ℕ → ℕ) (st : Recv) (off : ℕ) (p : List ℕ) (held : Held content st)
    (agrees : Agrees content off p) where
  pub place-Onward :
      (limit : ℕ) (buf : Option Buf) (h : HeldRange) (n : ℕ)
      → Within content st (max off st.r_tail) (off + length p) h
      → n ≡ new_bytes h
      → off + length p ≤ st.right_edge
      → Onward content st (place limit st off p buf h n)
        × (off ≤ st.r_tail → off + length p ≤ (place limit st off p buf h n).r_tail)
  unfolding place keeps_ref
  place-Onward limit none h n w e f =
      copy_pieces-Advanced content (length p) limit st off p (copy_budget - n) off held agrees
        (omega arith) f (omega arith)
  place-Onward limit (some b) h n w e f = elim (Bool-cases (keeps_ref b h n)) [
    | inr g ↦ rw g (
        copy_pieces-Advanced content (length p) limit st off p (copy_budget - n) off held agrees
          (omega arith) f (omega arith))
    | inl g ↦ rw g (
        let (x, y) =
          keep_ref-Onward content limit st off p b h (max off st.r_tail) n copy_budget held agrees f
            (omega arith) (omega arith) w (new_bytes-lt h (some_new g)) in
        (x, λ q. y q refl))
  ]
    where
      some_new : keeps_ref b h n ≡ true → 0 < new_bytes h
      some_new g = omega (arith, e, ltb→lt 0 n (both-true (ltb 0 n) _ g).0)

  -- The frame agrees with what is held, in order and out of order.
  pub agrees_held : 0 < length p → off + length p ≤ st.right_edge → agrees_in_order st off p ≡ true
  unfolding agrees_in_order
  agrees_held z f =
      elim (Bool-cases
        (ltb off st.r_tail && ltb (max off st.r_read) (min (off + length p) st.r_tail))) [
          | inr e ↦ rw e refl
          | inl e ↦ rw e (
              ring_equal-Agrees content held.from st.r_tail (max off st.r_read) st.inq
                (slice p (max off st.r_read - off)
                  (min (off + length p) st.r_tail - max off st.r_read))
                held.covered (omega (arith, held.kept))
                (slice-Agrees content off p (max off st.r_read)
                  (min (off + length p) st.r_tail - max off st.r_read) agrees (omega arith)))
        ]

  -- What taking a frame means: it is answered without an error, the invariant is kept, and if it
  -- does not begin beyond the in-order end, all of it is in order afterwards.
  pub record Takes (limit : ℕ) (r : Received) : Type 0 where
    pub accepted : r.error ≡ none
    pub later : Later content st r.next
    pub in_order : off ≤ st.r_tail → off + length p ≤ r.next.r_tail
    pub reads : st.discard ≡ false → r.next.r_read ≡ st.r_read
    pub within : st.r_tail < r.next.r_tail → (r.next.ooq ≡ []) ⊎ (r.next.ooo_cap ≤ limit)

  place_new-Takes :
      (limit : ℕ) (buf : Option Buf)
      → st.r_tail < off + length p
      → 0 < length p
      → off + length p ≤ st.right_edge
      → Takes limit (place_new limit st off p buf)
  unfolding place_new
  place_new-Takes limit buf t z f =
      let h = held_in st.ooq (max off st.r_tail) (off + length p) in
      let (x, y) =
        place-Onward limit buf h (new_bytes h)
          (held_in-Within content st (max off st.r_tail) (off + length p) held (omega arith)
            (omega arith) f)
          refl f in
      let w =
        after_placing-Settled content limit (place limit st off p buf h (new_bytes h)) st.r_tail
          x.held in
      record {
        accepted = refl;
        later = record {
          held = w.later.held;
          read = omega (arith, w.later.read, x.read);
          edge = w.later.edge ∙ x.edge;
          mode = w.later.mode ∙ x.mode;
          tail = omega (arith, w.later.tail, x.tail);
        };
        in_order = λ q. omega (arith, y q, w.same);
        reads = λ d. w.reads (x.mode ∙ d) ∙ x.read;
        within = λ q. w.within (omega (arith, q, w.same));
      }

  compared-Takes :
      (race : Bool) (limit : ℕ) (buf : Option Buf)
      → 0 < length p
      → off + length p ≤ st.right_edge
      → Takes limit (compared race limit st off p buf)
  unfolding compared
  compared-Takes race limit buf z f =
      rw
        (
          agrees_held z f,
          list_equal-Agrees content st.r_tail st.right_edge off p st.ooq held.ahead agrees,
        )
        (elim (dec_le (off + length p) st.r_tail) [
          | yes g ↦
              rw (le→leb (off + length p) st.r_tail g, lt→ltb off st.r_tail (omega arith))
                (record {
                  accepted = refl;
                  later = record {
                    held = held;
                    read = omega arith;
                    edge = refl;
                    mode = refl;
                    tail = omega arith;
                  };
                  in_order = λ q. g;
                  reads = λ d. refl;
                  within = λ q. absurd (omega arith);
                })
          | no g ↦
              rw (lt→leb (off + length p) st.r_tail (omega arith))
                (by_tail (ltb off st.r_tail) _ (place_new-Takes limit buf (omega arith) z f))
        ])
    where
      by_tail :
          (b : Bool) (x : Received)
          → Takes limit (place_new limit st off p buf)
          → Takes limit (if b && false then x else place_new limit st off p buf)
      by_tail true x t = t
      by_tail false x t = t

  pub recv_data-Takes :
      (race : Bool) (limit : ℕ) (buf : Option Buf)
      → off < 2 ^ 64
      → length p < 2 ^ 64
      → range_error st off p ≡ none
      → Takes limit (recv_data race limit st off p buf)
  unfolding recv_data checked
  recv_data-Takes race limit buf h k e =
      let (z, f) = range_error-fits st off p h k e in rw e (compared-Takes race limit buf z f)
