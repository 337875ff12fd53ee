-- ===== src/Session/Receive/Moves.antt =====
-- Steps that move the in-order end forward, and the promotion of what became contiguous
-- (promoteLocked of internal/session/recv.go).
use rendr.Common.{
  ℕ, ◌+◌, ◌≤◌, ◌≡◌, refl, ap, ◌∙◌, subst, inl, inr, List, [], ◌∷◌, arith, ◌==◌, Bool-cases, ==-eq,
  ==-ne, eq→==, length,
}
use rendr.Session.Segments.{Seg, seg_end, charges}
use rendr.Session.Segments.Chain.{Covers, Spread}
use rendr.Session.Receive.State.{Recv}
use rendr.Session.Receive.Merging.{Held, Promoted, promoted, promote_into-Promoted}
use rendr.Session.Receive.Place.{promote}

module _ (content : ℕ → ℕ) where
  -- The invariant holds after a step that moves the in-order end forward, if anything, and neither
  -- the read position nor the right edge.
  pub record Onward (a b : Recv) : Type 0 where
    pub held : Held content b
    pub read : b.r_read ≡ a.r_read
    pub edge : b.right_edge ≡ a.right_edge
    pub mode : b.discard ≡ a.discard
    pub tail : a.r_tail ≤ b.r_tail

  pub Onward-trans : (a b c : Recv) → Onward a b → Onward b c → Onward a c
  Onward-trans a b c p q = record {
    held = q.held;
    read = q.read ∙ p.read;
    edge = q.edge ∙ p.edge;
    mode = q.mode ∙ p.mode;
    tail = omega (arith, p.tail, q.tail);
  }

  -- The invariant of a state before the promotion of its out-of-order segments `l`.
  pub record Ready (st : Recv) (l : List Seg) : Type 0 where
    pub from : ℕ
    pub covered : Covers content from st.inq st.r_tail
    pub kept : from ≤ st.r_read
    pub unread : st.r_read ≤ st.r_tail
    pub ahead : Spread content st.r_tail l st.right_edge
    pub charged : st.ooo_cap ≡ charges st.inq + charges l

  -- So far that `to` is reached.
  pub record Advanced (a : Recv) (to : ℕ) (b : Recv) : Type 0 where
    pub onward : Onward a b
    pub reaches : to ≤ b.r_tail

  abbrev PromotesAll : List Seg → Type 0
  PromotesAll l = (st : Recv) (left : ℕ) → Ready st l → Onward st (promote st l left)

  promote_more :
      (st : Recv) (sg : Seg) (l : List Seg) {r : List Seg × ℕ × ℕ}
      → PromotesAll l
      → (y : Ready st (sg ∷ l)) → sg.off ≡ st.r_tail
      → Promoted content y.from (st.r_tail + length sg.bytes) (charges l) r
      → Advanced st (st.r_tail + length sg.bytes) (
          promote
            (record st {
              inq = r.0;
              ooo_cap = r.1;
              r_tail = st.r_tail + length sg.bytes;
              rx_bytes = st.rx_bytes + length sg.bytes;
            })
            l
            r.2)
  promote_more st sg l again y o (promoted inq held left c e) =
      let next : Recv = record st {
        inq = inq;
        ooo_cap = held;
        r_tail = st.r_tail + length sg.bytes;
        rx_bytes = st.rx_bytes + length sg.bytes;
      } in
      let z = again next left (record {
        from = y.from;
        covered = c;
        kept = y.kept;
        unread = omega (arith, y.unread);
        ahead =
            subst (λ x. Spread content x l st.right_edge) (ap (λ x. x + length sg.bytes) o)
              y.ahead.2;
        charged = e;
      }) in
      record {
        onward = record {
          held = z.held;
          read = z.read;
          edge = z.edge;
          mode = z.mode;
          tail = omega (arith, z.tail);
        };
        reaches = z.tail;
      }

  pub promote-Onward : (l : List Seg) → PromotesAll l
  unfolding promote
  promote-Onward [] st left y = record {
    held = record {
      from = y.from;
      covered = y.covered;
      kept = y.kept;
      unread = y.unread;
      ahead = y.ahead;
      gap = tt;
      charged = y.charged;
    };
    read = refl;
    edge = refl;
    mode = refl;
    tail = omega arith;
  }
  promote-Onward (sg ∷ l) st left y = elim (Bool-cases (sg.off == st.r_tail)) [
    | inl e ↦
        rw e
          (promote_more st sg l (promote-Onward l) y (==-eq sg.off st.r_tail e) (
            promote_into-Promoted content y.from st.r_tail st.inq sg st.ooo_cap left (charges l)
              y.covered (==-eq sg.off st.r_tail e) y.ahead.1 y.charged)).onward
    | inr e ↦ rw e (record {
      held = record {
        from = y.from;
        covered = y.covered;
        kept = y.kept;
        unread = y.unread;
        ahead = y.ahead;
        gap = omega (arith, y.ahead.0, ==-ne sg.off st.r_tail e);
        charged = y.charged;
      };
      read = refl;
      edge = refl;
      mode = refl;
      tail = omega arith;
    })
  ]

  -- A first segment at the in-order end is promoted.
  pub promote_first :
      (sg : Seg) (l : List Seg) (st : Recv) (left : ℕ)
      → Ready st (sg ∷ l)
      → sg.off ≡ st.r_tail
      → seg_end sg ≤ (promote st (sg ∷ l) left).r_tail
  unfolding promote
  promote_first sg l st left y o = rw (eq→== sg.off st.r_tail o) (
      omega (
        arith,
        o,
        (promote_more st sg l (promote-Onward l) y o (
            promote_into-Promoted content y.from st.r_tail st.inq sg st.ooo_cap left (charges l)
              y.covered o y.ahead.1 y.charged)).reaches,
      ))
