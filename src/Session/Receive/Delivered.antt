-- ===== src/Session/Receive/Delivered.antt =====
-- Runs of the receive side of a stream: frames in any order, Reads and the steps that change what
-- the checks compare with.
use rendr.Common.{
  ℕ, ◌+◌, ◌^◌, ◌≤◌, ◌<◌, ◌≡◌, refl, sym, ◌∙◌, subst, Bool, false, Option, none, some, List, [],
  ◌++◌, arith, length, length-append,
}
use rendr.Session.Segments.Chain.{Agrees, Agrees-append, Spread-weaken}
use rendr.Session.Receive.State.{Recv, Buf, Violation, Received}
use rendr.Session.Receive.Data.{range_error, recv_data}
use rendr.Session.Receive.Merging.{Held}
use rendr.Session.Receive.Taken.{recv_data-Takes}
use rendr.Session.Receive.Kept.{recv_data-range_error}
use rendr.Session.Receive.Reading.{
  copies, read_verdict, read_views, read_commit, read_views-Agrees, read_commit-Later,
}

-- The receive side of a stream whose first byte is `first`, with a right edge.
unfoldable pub opened : ℕ → ℕ → Recv
opened first edge = record {
  r_read = first;
  r_tail = first;
  right_edge = edge;
  inq = [];
  ooq = [];
  ooo_cap = 0;
  ooo_dropped = 0;
  rx_bytes = 0;
  peer_fin = none;
  delivered = 0;
  discard = false;
  discarded_after_close = false;
  r_copying = false;
  r_free_pending = false;
  r_waiting = false;
  ack_on_data = false;
}

-- The states that frames of the stream and Reads lead to, with the bytes that the Reads returned.
-- A frame may lie anywhere and come any number of times; the right edge may grow, the peer's FIN may
-- arrive, and the receive limit may differ from call to call.
pub data Reached (content : ℕ → ℕ) (race : Bool) (first : ℕ) : Recv → List ℕ → Type 0 where
  start : (edge : ℕ) → first ≤ edge → Reached content race first (opened first edge) []
  frame :
      {st : Recv} {out : List ℕ} (limit off : ℕ) (p : List ℕ) (buf : Option Buf)
      → Reached content race first st out
      → Agrees content off p
      → off < 2 ^ 64
      → length p < 2 ^ 64
      → Reached content race first (recv_data race limit st off p buf).next out
  read :
      {st : Recv} {out : List ℕ} (n : ℕ)
      → Reached content race first st out
      → read_verdict false false false st ≡ copies
      → Reached content race first
          (read_commit st (length (read_views st n)))
          (out ++ read_views st n)
  widen :
      {st : Recv} {out : List ℕ} (edge : ℕ)
      → Reached content race first st out
      → st.right_edge ≤ edge
      → Reached content race first (record st { right_edge = edge }) out
  fin :
      {st : Recv} {out : List ℕ} (off : ℕ)
      → Reached content race first st out
      → Reached content race first (record st { peer_fin = some off }) out
  wait :
      {st : Recv} {out : List ℕ} (waiting ack : Bool)
      → Reached content race first st out
      → Reached content race first (record st { r_waiting = waiting; ack_on_data = ack }) out

module _ (content : ℕ → ℕ) (race : Bool) (first : ℕ) where
  -- The invariant of a run: what is held, what was returned, and that no Close happened.
  pub record Delivers (st : Recv) (out : List ℕ) : Type 0 where
    pub held : Held content st
    pub open_mode : st.discard ≡ false
    pub returned : Agrees content first out
    pub position : st.r_read ≡ first + length out

  widened :
      (st : Recv) (edge : ℕ)
      → Held content st
      → st.right_edge ≤ edge
      → Held content (record st { right_edge = edge })
  widened st edge h w = record {
    from = h.from;
    covered = h.covered;
    kept = h.kept;
    unread = h.unread;
    ahead =
        Spread-weaken content st.r_tail st.r_tail st.right_edge edge st.ooq h.ahead (omega arith) w;
    gap = h.gap;
    charged = h.charged;
  }

  frame-Delivers :
      (st : Recv) (out : List ℕ) (limit off : ℕ) (p : List ℕ) (buf : Option Buf)
      → Delivers st out
      → Agrees content off p
      → off < 2 ^ 64
      → length p < 2 ^ 64
      → Delivers (recv_data race limit st off p buf).next out
  frame-Delivers st out limit off p buf d a h k = by_error (range_error st off p) refl
    where
      by_error :
          (x : Option Violation)
          → range_error st off p ≡ x
          → Delivers (recv_data race limit st off p buf).next out
      by_error none e =
          let t = recv_data-Takes content st off p d.held a race limit buf h k e in
          record {
            held = t.later.held;
            open_mode = t.later.mode ∙ d.open_mode;
            returned = d.returned;
            position = t.reads d.open_mode ∙ d.position;
          }
      by_error (some v) e =
          subst (λ (r : Received). Delivers r.next out)
            (sym (recv_data-range_error race limit st off p buf v e)) d

  -- In every state that a run leads to from an empty receive side at the byte `first`, with a
  -- right edge at or above it, the bytes that the Reads returned are the stream's bytes from
  -- `first` on, with no gap and none twice, the next byte to read follows them, and the queues
  -- hold the stream's bytes. A run has frames of bytes of the stream (at any offset and of any
  -- length below 2^64, in any order, repeated, overlapping, refused or dropped, in buffers or not,
  -- under any receive limit), Reads that copy, right edges that grow, FIN offsets, and a reader
  -- that starts or stops waiting.
  pub Reached-Delivers :
      {st : Recv} {out : List ℕ} → Reached content race first st out → Delivers st out
  unfolding opened
  Reached-Delivers (start edge w) = record {
    held = record {
      from = first;
      covered = refl;
      kept = omega arith;
      unread = omega arith;
      ahead = w;
      gap = tt;
      charged = omega arith;
    };
    open_mode = refl;
    returned = refl;
    position = omega arith;
  }
  Reached-Delivers (frame {st = st} {out = out} limit off p buf r a h k) =
      frame-Delivers st out limit off p buf (Reached-Delivers r) a h k
  Reached-Delivers (read {st = st} {out = out} n r v) =
      let d = Reached-Delivers r in
      let (a, b, c) = read_views-Agrees content st n d.held in
      let (l, q) =
        read_commit-Later content st (length (read_views st n)) d.held (omega (arith, b)) in
      record {
        held = l.held;
        open_mode = l.mode ∙ d.open_mode;
        returned =
            Agrees-append content first out (read_views st n) d.returned
              (subst (λ x. Agrees content x (read_views st n)) d.position a);
        position = omega (arith, q, d.position, length-append out (read_views st n));
      }
  Reached-Delivers (widen {st = st} edge r w) =
      let d = Reached-Delivers r in
      record {
        held = widened st edge d.held w;
        open_mode = d.open_mode;
        returned = d.returned;
        position = d.position;
      }
  Reached-Delivers (fin off r) =
      let d = Reached-Delivers r in
      let h = d.held in
      record {
        held = record {
          from = h.from;
          covered = h.covered;
          kept = h.kept;
          unread = h.unread;
          ahead = h.ahead;
          gap = h.gap;
          charged = h.charged;
        };
        open_mode = d.open_mode;
        returned = d.returned;
        position = d.position;
      }
  Reached-Delivers (wait waiting ack r) =
      let d = Reached-Delivers r in
      let h = d.held in
      record {
        held = record {
          from = h.from;
          covered = h.covered;
          kept = h.kept;
          unread = h.unread;
          ahead = h.ahead;
          gap = h.gap;
          charged = h.charged;
        };
        open_mode = d.open_mode;
        returned = d.returned;
        position = d.position;
      }
