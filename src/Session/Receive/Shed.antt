-- ===== src/Session/Receive/Shed.antt =====
-- Shedding above the receive limit and the release of consumed segments keep the invariant of the
-- receive side (shedLocked and releaseConsumed of internal/session/recv.go).
use rendr.Common.{
  ℕ, zero, suc, ◌+◌, ◌-◌, ◌≤◌, ◌≡◌, refl, ◌⊎◌, inl, inr, List, [], ◌∷◌, arith, lt→ltb, le→ltb,
  le→leb, lt→leb, length, get_or, take, length-take,
}
use native.Mathlib.Decide.{dec_lt, dec_le}
use rendr.Session.Segments.{Seg, seg_end, no_seg, charges}
use rendr.Session.Segments.Chain.{Covers, Spread, Spread-le}
use rendr.Session.Receive.State.{Recv}
use rendr.Session.Receive.Merging.{Gap, Held}
use rendr.Session.Receive.Moves.{Onward}
use rendr.Session.Receive.Pieces.{Gap-take}
use rendr.Session.Receive.Data.{shed_loop, shed, release_to, release_consumed}

charges-take-suc :
    (n : ℕ) (l : List Seg)
    → length l ≡ suc n
    → charges l ≡ charges (take n l) + Seg.charge (get_or l n no_seg)
charges-take-suc n [] e = absurd (omega arith)
charges-take-suc zero (sg ∷ []) e = omega arith
charges-take-suc zero (sg ∷ t ∷ l) e = absurd (omega arith)
charges-take-suc (suc n) (sg ∷ l) e = omega (arith, charges-take-suc n l (omega arith))

module _ (content : ℕ → ℕ) where
  Spread-take :
      (lo hi n : ℕ) (l : List Seg) → Spread content lo l hi → Spread content lo (take n l) hi
  Spread-take lo hi zero l s = Spread-le content lo hi l s
  Spread-take lo hi (suc n) [] s = s
  Spread-take lo hi (suc n) (sg ∷ l) s = (s.0, s.1, Spread-take (seg_end sg) hi n l s.2)

  -- What shedding leaves: segments from the front, and a charge at the limit or no segment.
  record Shed (limit tail hi k : ℕ) (r : List Seg × ℕ × ℕ) : Type 0 where
    ahead : Spread content tail r.0 hi
    gap : Gap tail r.0
    charged : r.1 ≡ charges r.0 + k
    within : (r.0 ≡ []) ⊎ (r.1 ≤ limit)

  shed_loop-Shed :
      (n limit tail hi k : ℕ) (l : List Seg) (held dropped : ℕ)
      → length l ≡ n
      → Spread content tail l hi
      → Gap tail l
      → held ≡ charges l + k
      → Shed limit tail hi k (shed_loop n limit l held dropped)
  unfolding shed_loop
  shed_loop-Shed zero limit tail hi k [] held dropped e s g c = record {
    ahead = s;
    gap = g;
    charged = c;
    within = inl refl;
  }
  shed_loop-Shed zero limit tail hi k (sg ∷ l) held dropped e s g c = absurd (omega arith)
  shed_loop-Shed (suc n) limit tail hi k l held dropped e s g c = elim (dec_lt limit held) [
    | no h ↦
        rw (le→ltb limit held (omega arith))
          (record { ahead = s; gap = g; charged = c; within = inr (omega arith) })
    | yes h ↦ rw (lt→ltb limit held h) (
        shed_loop-Shed n limit tail hi k (take n l) (held - Seg.charge (get_or l n no_seg))
          (dropped + length (Seg.bytes (get_or l n no_seg))) (omega (arith, length-take n l))
          (Spread-take tail hi n l s) (Gap-take tail n l g) (omega (arith, charges-take-suc n l e)))
  ]

  pub shed-Onward :
      (limit : ℕ) (st : Recv)
      → Held content st
      → Onward content st (shed limit st)
        × ((Recv.ooq (shed limit st) ≡ []) ⊎ (Recv.ooo_cap (shed limit st) ≤ limit))
  unfolding shed
  shed-Onward limit st h =
      let z =
        shed_loop-Shed (length st.ooq) limit st.r_tail st.right_edge (charges st.inq) st.ooq
          st.ooo_cap st.ooo_dropped refl h.ahead h.gap (omega (arith, h.charged)) in
      (
        record {
          held = record {
            from = h.from;
            covered = h.covered;
            kept = h.kept;
            unread = h.unread;
            ahead = z.ahead;
            gap = z.gap;
            charged = omega (arith, z.charged);
          };
          read = refl;
          edge = refl;
          mode = refl;
          tail = omega arith;
        },
        z.within,
      )

  record Released (tail to k : ℕ) (r : List Seg × ℕ) : Type 0 where
    from : ℕ
    covered : Covers content from r.0 tail
    kept : from ≤ to
    charged : r.1 ≡ charges r.0 + k

  release_to-Released :
      (from tail to k : ℕ) (l : List Seg) (held : ℕ)
      → Covers content from l tail
      → from ≤ to
      → held ≡ charges l + k
      → Released tail to k (release_to l to held)
  unfolding release_to
  release_to-Released from tail to k [] held c f e = record {
    from = from;
    covered = c;
    kept = f;
    charged = e;
  }
  release_to-Released from tail to k (sg ∷ l) held c f e = elim (dec_le (seg_end sg) to) [
    | yes g ↦
        rw (le→leb (seg_end sg) to g)
          (release_to-Released (seg_end sg) tail to k l (held - sg.charge) c.2 g (omega (arith, e)))
    | no g ↦
        rw (lt→leb (seg_end sg) to (omega arith))
          (record { from = from; covered = c; kept = f; charged = e })
  ]

  pub release_consumed-Held : (st : Recv) → Held content st → Held content (release_consumed st)
  unfolding release_consumed
  release_consumed-Held st h =
      let z =
        release_to-Released h.from st.r_tail st.r_read (charges st.ooq) st.inq st.ooo_cap h.covered
          h.kept h.charged in
      record {
        from = z.from;
        covered = z.covered;
        kept = z.kept;
        unread = h.unread;
        ahead = h.ahead;
        gap = h.gap;
        charged = z.charged;
      }

  -- The invariant holds after a step that moves the read position and the in-order end forward, if
  -- anything.
  pub record Later (a b : Recv) : Type 0 where
    pub held : Held content b
    pub read : a.r_read ≤ b.r_read
    pub edge : b.right_edge ≡ a.right_edge
    pub mode : b.discard ≡ a.discard
    pub tail : a.r_tail ≤ b.r_tail
