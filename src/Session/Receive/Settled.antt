-- ===== src/Session/Receive/Settled.antt =====
-- The end of a DATA frame at the receive path (consumeAllLocked and the last part of
-- recvDataLocked of internal/session/recv.go).
use rendr.Common.{
  ℕ, ◌+◌, ◌-◌, ◌≤◌, ◌<◌, ◌≡◌, refl, sym, ◌∙◌, ◌⊎◌, inl, inr, Bool, true, false, List, [], ◌∷◌, ◌++◌,
  arith, ltb, ◌==◌, if◌then◌else◌, Bool-cases, ==-eq, eq→==, ne→==, if-both, if-cases,
}
use native.Mathlib.Decide.{dec_lt}
use rendr.Session.Receive.State.{Recv, Signal, ring_actor, wake_reader, bump_now}
use rendr.Session.Receive.Merging.{Held}
use rendr.Session.Receive.Data.{shed, release_consumed, consume_all, after_placing}
use rendr.Session.Receive.Shed.{Later, shed-Onward, release_consumed-Held}

module _ (content : ℕ → ℕ) where
  -- Everything in order is read.
  record Emptied (st : Recv) (b : Recv) : Type 0 where
    later : Later content st b
    drained : b.r_read ≡ st.r_tail
    same : b.r_tail ≡ st.r_tail

  emptied :
      (st b : Recv)
      → Held content st
      → Held content b
      → b.r_read ≡ st.r_tail
      → b.r_tail ≡ st.r_tail
      → b.right_edge ≡ st.right_edge
      → b.discard ≡ st.discard
      → Emptied st b
  emptied st b h g d t e m = record {
    later = record {
      held = g;
      read = omega (arith, h.unread, d);
      edge = e;
      mode = m;
      tail = omega (arith, t);
    };
    drained = d;
    same = t;
  }

  consume_all-Emptied : (st : Recv) → Held content st → Emptied st (consume_all st).0
  unfolding consume_all release_consumed
  consume_all-Emptied st h = elim (dec_lt st.r_read st.r_tail) [
    | no g ↦
        rw (eq→== (st.r_tail - st.r_read) 0 (omega arith))
          (emptied st st h h (omega (arith, h.unread)) refl refl refl)
    | yes g ↦ rw (ne→== (st.r_tail - st.r_read) 0 (omega arith)) (
        if-both (λ b. Emptied st b) st.r_copying (record read { r_free_pending = true })
          (release_consumed read)
          (emptied st (record read { r_free_pending = true }) h
            (record {
              from = h.from;
              covered = h.covered;
              kept = omega (arith, h.kept, h.unread);
              unread = omega arith;
              ahead = h.ahead;
              gap = h.gap;
              charged = h.charged;
            })
            refl refl refl refl)
          (emptied st (release_consumed read) h
            (release_consumed-Held content read (record {
              from = h.from;
              covered = h.covered;
              kept = omega (arith, h.kept, h.unread);
              unread = omega arith;
              ahead = h.ahead;
              gap = h.gap;
              charged = h.charged;
            }))
            refl refl refl refl))
  ]
    where
      read : Recv
      read = record st { r_read = st.r_tail; delivered = st.delivered + (st.r_tail - st.r_read) }

  -- After the placement: the charge is at the limit again, or nothing is held out of order, if the
  -- in-order end moved.
  pub record Settled (limit tail : ℕ) (st b : Recv) : Type 0 where
    pub later : Later content st b
    pub same : b.r_tail ≡ st.r_tail
    pub reads : st.discard ≡ false → b.r_read ≡ st.r_read
    pub within : tail < st.r_tail → (b.ooq ≡ []) ⊎ (b.ooo_cap ≤ limit)

  shed-Settled :
      (limit tail : ℕ) (st b : Recv)
      → Later content st b
      → b.r_tail ≡ st.r_tail
      → (st.discard ≡ false → b.r_read ≡ st.r_read)
      → Settled limit tail st (shed limit b)
  unfolding shed
  shed-Settled limit tail st b l e d =
      let (y, w) = shed-Onward content limit b l.held in
      record {
        later = record {
          held = y.held;
          read = omega (arith, l.read);
          edge = l.edge;
          mode = l.mode;
          tail = omega (arith, l.tail);
        };
        same = e;
        reads = d;
        within = λ q. w;
      }

  pub after_placing-Settled :
      (limit : ℕ) (st : Recv) (tail : ℕ)
      → Held content st
      → Settled limit tail st (after_placing limit st tail).0
  unfolding after_placing
  after_placing-Settled limit st tail h = elim (Bool-cases (st.r_tail == tail)) [
    | inl e ↦ rw e (record {
      later = record { held = h; read = omega arith; edge = refl; mode = refl; tail = omega arith };
      same = refl;
      reads = λ d. refl;
      within = λ z. absurd (omega (arith, ==-eq st.r_tail tail e));
    })
    | inr e ↦ rw e (
        if-cases {A = Recv × List Signal} (λ r. Settled limit tail st r.0) st.discard
          (
            shed limit discarded,
            (consume_all st).1 ++ (if ltb 0 (st.r_tail - st.r_read) then ring_actor ∷ [] else []),
          )
          (
            record (shed limit st) { ack_on_data = false },
            (if st.r_waiting then wake_reader ∷ [] else [])
                ++ (if st.ack_on_data then bump_now ∷ [] else []),
          )
          (λ d.
            shed-Settled limit tail st discarded z.later z.same
              (λ q. absurd (both_ways (sym d ∙ q))))
          (λ d. quiet (shed limit st) (
            shed-Settled limit tail st st
              (record {
                held = h;
                read = omega arith;
                edge = refl;
                mode = refl;
                tail = omega arith;
              })
              refl (λ q. refl))))
  ]
    where
      discarded : Recv
      discarded =
          if ltb 0 (st.r_tail - st.r_read)
          then record (consume_all st).0 { discarded_after_close = true }
          else (consume_all st).0

      z : Emptied st discarded
      z =
          if-both (λ b. Emptied st b) (ltb 0 (st.r_tail - st.r_read))
            (record (consume_all st).0 { discarded_after_close = true }) (consume_all st).0
            (marked (consume_all st).0 (consume_all-Emptied st h)) (consume_all-Emptied st h)
        where
          marked :
              (b : Recv) → Emptied st b → Emptied st (record b { discarded_after_close = true })
          marked b e = record {
            later = record {
              held = record {
                from = e.later.held.from;
                covered = e.later.held.covered;
                kept = e.later.held.kept;
                unread = e.later.held.unread;
                ahead = e.later.held.ahead;
                gap = e.later.held.gap;
                charged = e.later.held.charged;
              };
              read = e.later.read;
              edge = e.later.edge;
              mode = e.later.mode;
              tail = e.later.tail;
            };
            drained = e.drained;
            same = e.same;
          }

      both_ways : ◌≡◌ {A = Bool} true false → ⊥
      both_ways q = absurd cc

      quiet :
          (b : Recv)
          → Settled limit tail st b
          → Settled limit tail st (record b { ack_on_data = false })
      quiet b e = record {
        later = record {
          held = record {
            from = e.later.held.from;
            covered = e.later.held.covered;
            kept = e.later.held.kept;
            unread = e.later.held.unread;
            ahead = e.later.held.ahead;
            gap = e.later.held.gap;
            charged = e.later.held.charged;
          };
          read = e.later.read;
          edge = e.later.edge;
          mode = e.later.mode;
          tail = e.later.tail;
        };
        same = e.same;
        reads = e.reads;
        within = e.within;
      }
