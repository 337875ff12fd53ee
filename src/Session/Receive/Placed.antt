-- ===== src/Session/Receive/Placed.antt =====
-- Copies and merges keep the invariant of the receive side: appendCopyLocked and
-- mergeFollowersLocked (internal/session/recv.go).
use rendr.Common.{ℕ, suc, ◌+◌, ◌<◌, ◌≡◌, refl, Option, none, some, List, ◌++◌, arith, length}
use rendr.Session.Segments.{Seg, seg_end, back, set_back, charges}
use rendr.Session.Segments.Chain.{
  Agrees, Spread, Spread_back, Spread-set_back, Spread-weaken, Spread-append,
}
use rendr.Session.Receive.State.{Recv}
use rendr.Session.Receive.Loops.{charges-append, charges-set_back}
use rendr.Session.Receive.Queues.{append_loop-Covers}
use rendr.Session.Receive.Merging.{Held, Gap-Spread, Merged, merged, merge_followers-Merged}
use rendr.Session.Receive.Place.{append_loop, append_copy, merge_at}
use rendr.Session.Receive.Moves.{Onward, Advanced, promote-Onward}

module _ (content : ℕ → ℕ) where
  pub append_copy-Onward :
      (st : Recv) (piece : List ℕ) (left : ℕ)
      → Held content st
      → Agrees content st.r_tail piece
      → Spread content (st.r_tail + length piece) st.ooq st.right_edge
      → Advanced content st (st.r_tail + length piece) (append_copy st st.r_tail piece left)
  unfolding append_copy
  append_copy-Onward st piece left h a s =
      let (c, e) =
        append_loop-Covers content h.from (length piece) st.inq st.r_tail piece st.ooo_cap
          (charges st.ooq) h.covered a (omega arith) h.charged in
      let z =
        promote-Onward content st.ooq
          (record st {
            inq = (append_loop (length piece) st.inq st.r_tail piece st.ooo_cap).0;
            ooo_cap = (append_loop (length piece) st.inq st.r_tail piece st.ooo_cap).1;
            r_tail = st.r_tail + length piece;
            rx_bytes = st.rx_bytes + length piece;
          })
          left
          (record {
            from = h.from;
            covered = c;
            kept = h.kept;
            unread = omega (arith, h.unread);
            ahead = s;
            charged = e;
          }) in
      record {
        onward = record {
          held = z.held;
          read = z.read;
          edge = z.edge;
          mode = z.mode;
          tail = omega (arith, z.tail);
        };
        reaches = z.tail;
      }

  -- A state whose out-of-order segments are replaced.
  pub replaced :
      (st : Recv) (l : List Seg) (held dropped : ℕ)
      → Held content st
      → st.r_tail < st.right_edge
      → Spread content (suc st.r_tail) l st.right_edge
      → held ≡ charges st.inq + charges l
      → Onward content st (record st { ooq = l; ooo_cap = held; ooo_dropped = dropped })
  replaced st l held dropped h t s e = record {
    held = record {
      from = h.from;
      covered = h.covered;
      kept = h.kept;
      unread = h.unread;
      ahead =
          Spread-weaken content (suc st.r_tail) st.r_tail st.right_edge st.right_edge l s
            (omega arith) (omega arith);
      gap = Gap-Spread content st.r_tail st.right_edge l s;
      charged = e;
    };
    read = refl;
    edge = refl;
    mode = refl;
    tail = omega arith;
  }

  pub merge_at-Onward :
      (st : Recv) (held mid : ℕ) (before l : List Seg) (left : ℕ)
      → Held content st
      → st.r_tail < st.right_edge
      → Spread content (suc st.r_tail) before mid
      → Spread content mid l st.right_edge
      → held ≡ charges st.inq + (charges before + charges l)
      → Onward content st (merge_at (record st { ooo_cap = held }) (back before) before l left)
  unfolding merge_at
  merge_at-Onward st held mid before l left h t s r e = by_back (back before) refl
    where
      joined :
          (u : Seg) (b : back before ≡ some u) {m : Seg × List Seg × ℕ × ℕ}
          → Merged content u st.right_edge (charges st.inq + charges before) m
          → Onward content st (record st { ooq = set_back before m.0 ++ m.1; ooo_cap = m.2 })
      joined u b (merged v l' held' left' o c y w d) =
          replaced st (set_back before v ++ l') held' st.ooo_dropped h t
            (Spread-append content (suc st.r_tail) (seg_end v) st.right_edge (set_back before v) l'
              (Spread-set_back content (suc st.r_tail) mid before u v s b o y) w)
            (omega
              (arith, charges-append (set_back before v) l', charges-set_back before u v b c, d))

      by_back :
          (b : Option Seg)
          → back before ≡ b
          → Onward content st (merge_at (record st { ooo_cap = held }) b before l left)
      by_back none b =
          replaced st (before ++ l) held st.ooo_dropped h t
            (Spread-append content (suc st.r_tail) mid st.right_edge before l s r)
            (omega (arith, charges-append before l, e))
      by_back (some u) b =
          let (d, y) = Spread_back content (suc st.r_tail) mid before u s b in
          joined u b (
            merge_followers-Merged content l u st.right_edge held left
              (charges st.inq + charges before) y
              (Spread-weaken content mid (seg_end u) st.right_edge st.right_edge l r d
                (omega arith))
              (omega (arith, e)))
