-- ===== src/Session/Receive/Data.antt =====
-- A DATA frame inside the right edge (recvDataLocked, copyPiecesLocked, shedLocked and
-- consumeAllLocked of internal/session/recv.go).
use rendr.Common.{
  ℕ, zero, suc, ◌+◌, ◌-◌, ◌%◌, ◌^◌, min, max, Bool, true, false, not, ◌&&◌, ◌||◌, Option, none,
  some, List, [], ◌∷◌, ◌++◌, ltb, leb, ◌==◌, if◌then◌else◌, length, get_or, take, slice,
}
use rendr.Session.Segments.{Seg, copy_budget, seg_end, no_seg, ring_equal, after, list_equal}
use rendr.Session.Receive.State.{
  Recv, Buf, Violation, data_length, beyond_window, data_beyond_fin, conflict_err, Signal, race_dup,
  ring_actor, wake_reader, bump_now, consumed, Received,
}
use rendr.Session.Receive.Place.{
  HeldRange, held_in, new_bytes, by_ref, keep_ref, append_copy, insert_copy,
}

-- A round of the loop of copyPiecesLocked with the segment found, if there is one: the state and the
-- next position. The piece that is placed runs to the end of the frame or to that segment.
unfoldable pub place_piece : ℕ → Recv → ℕ → ℕ → List ℕ → ℕ → ℕ → ℕ → Recv × ℕ
place_piece limit st i off p left pos stop =
    let piece = slice p (pos - off) (stop - pos) in
    (
      (if pos == st.r_tail
          then append_copy st pos piece left
          else insert_copy limit st i pos piece left),
      stop,
    )

unfoldable pub copy_step : ℕ → Recv → ℕ → List ℕ → ℕ → ℕ → Recv × ℕ
copy_step limit st off p left pos =
    let i = after st.ooq pos in
    let sg = get_or st.ooq i no_seg in
    let end = off + length p in
    let found = ltb i (length st.ooq) in
    if ltb pos st.r_tail
    then (st, st.r_tail)
    else (if found && leb sg.off pos
        then (st, seg_end sg)
        else place_piece limit st i off p left pos (if found then min end sg.off else end))

-- The loop, with fuel for each byte of the frame.
unfoldable pub copy_pieces : ℕ → ℕ → Recv → ℕ → List ℕ → ℕ → ℕ → Recv
copy_pieces zero limit st off p left pos = st
copy_pieces (suc n) limit st off p left pos =
    let (st', pos') = copy_step limit st off p left pos in
    let rest = copy_pieces n limit st' off p left pos' in
    if ltb pos (off + length p) then rest else st

-- The loop of shedLocked over the first `n` segments: them, the charge and the bytes dropped.
unfoldable pub shed_loop : ℕ → ℕ → List Seg → ℕ → ℕ → List Seg × ℕ × ℕ
shed_loop zero limit l cap dropped = (l, cap, dropped)
shed_loop (suc n) limit l cap dropped =
    let sg = get_or l n no_seg in
    let rest = shed_loop n limit (take n l) (cap - sg.charge) (dropped + length sg.bytes) in
    if ltb limit cap then rest else (l, cap, dropped)

unfoldable pub shed : ℕ → Recv → Recv
shed limit st =
    let (ooq, cap, dropped) = shed_loop (length st.ooq) limit st.ooq st.ooo_cap st.ooo_dropped in
    record st { ooq = ooq; ooo_cap = cap; ooo_dropped = dropped }

-- The loop of releaseConsumed: the segments left and the charge.
unfoldable pub release_to : List Seg → ℕ → ℕ → List Seg × ℕ
release_to [] to cap = ([], cap)
release_to (sg ∷ l) to cap =
    let rest = release_to l to (cap - sg.charge) in
    if leb (seg_end sg) to then rest else (sg ∷ l, cap)

unfoldable pub release_consumed : Recv → Recv
release_consumed st =
    let (inq, cap) = release_to st.inq st.r_read st.ooo_cap in
    record st { inq = inq; ooo_cap = cap }

unfoldable pub consume_all : Recv → Recv × List Signal
consume_all st =
    let d = st.r_tail - st.r_read in
    let read = record st { r_read = st.r_tail; delivered = st.delivered + d } in
    if d == 0 then (st, []) else (
      if st.r_copying then record read { r_free_pending = true } else release_consumed read,
      consumed d ∷ [],
    )

-- What recvDataLocked does after the placement, given the in-order end before it.
unfoldable pub after_placing : ℕ → Recv → ℕ → Recv × List Signal
after_placing limit st tail =
    let (all, took) = consume_all st in
    let some_taken = ltb 0 (st.r_tail - st.r_read) in
    let discarded = if some_taken then record all { discarded_after_close = true } else all in
    let rest = shed limit st in
    if st.r_tail == tail
    then (st, [])
    else (if st.discard
        then (shed limit discarded, took ++ (if some_taken then ring_actor ∷ [] else []))
        else (
          record rest { ack_on_data = false },
          (if st.r_waiting then wake_reader ∷ [] else [])
              ++ (if st.ack_on_data then bump_now ∷ [] else []),
        ))

-- Whether a frame with a buffer is kept by reference: it has new bytes, more than the copy limit
-- allows or for less charge than the segments it replaces.
unfoldable pub keeps_ref : Buf → HeldRange → ℕ → Bool
keeps_ref b h n = ltb 0 n && (ltb copy_budget n || by_ref h b.capacity)

unfoldable pub place : ℕ → Recv → ℕ → List ℕ → Option Buf → HeldRange → ℕ → Recv
place limit st off p none h n = copy_pieces (length p) limit st off p (copy_budget - n) off
place limit st off p (some b) h n =
    if keeps_ref b h n
    then keep_ref limit st off p b h n copy_budget
    else copy_pieces (length p) limit st off p (copy_budget - n) off

-- The bytes of the frame that are new are placed.
unfoldable pub place_new : ℕ → Recv → ℕ → List ℕ → Option Buf → Received
place_new limit st off p buf =
    let end = off + length p in
    let start = max off st.r_tail in
    let h = held_in st.ooq start end in
    let n = new_bytes h in
    let dup = (start - off) + (end - start - n) in
    let (next, signals) = after_placing limit (place limit st off p buf h n) st.r_tail in
    record {
      error = none;
      next = next;
      signals = (if ltb 0 dup then race_dup dup false ∷ [] else []) ++ signals;
    }

abbrev pub refuse : Recv → Violation → Received
refuse st v = record { error = some v; next = st; signals = [] }

-- The offset and the length of a frame against the right edge and the peer's FIN. The sum of an
-- offset and a length wraps at 64 bits.
unfoldable pub beyond_fin : Option ℕ → ℕ → Bool
beyond_fin none end = false
beyond_fin (some fin) end = ltb fin end

unfoldable pub range_error : Recv → ℕ → List ℕ → Option Violation
range_error st off p =
    let end = (off + length p) % 2 ^ 64 in
    if (length p == 0) || ltb end off
    then some data_length
    else (if ltb st.right_edge end
        then some beyond_window
        else (if beyond_fin st.peer_fin end then some data_beyond_fin else none))

-- Whether the bytes in order that are not read yet agree with the frame.
unfoldable pub agrees_in_order : Recv → ℕ → List ℕ → Bool
agrees_in_order st off p =
    let a = max off st.r_read in
    let b = min (off + length p) st.r_tail in
    if ltb off st.r_tail && ltb a b then ring_equal st.inq a (slice p (a - off) (b - a)) else true

unfoldable pub compared : Bool → ℕ → Recv → ℕ → List ℕ → Option Buf → Received
compared race limit st off p buf =
    if not (agrees_in_order st off p)
    then refuse st (conflict_err race)
    else (if ltb off st.r_tail && leb (off + length p) st.r_tail
        then record { error = none; next = st; signals = race_dup (length p) true ∷ [] }
        else (if not (list_equal st.ooq off p)
            then refuse st (conflict_err race)
            else place_new limit st off p buf))

unfoldable pub checked : Option Violation → Bool → ℕ → Recv → ℕ → List ℕ → Option Buf → Received
checked (some v) race limit st off p buf = refuse st v
checked none race limit st off p buf = compared race limit st off p buf

unfoldable pub recv_data : Bool → ℕ → Recv → ℕ → List ℕ → Option Buf → Received
recv_data race limit st off p buf = checked (range_error st off p) race limit st off p buf
