-- ===== src/Session/Receive/Place.antt =====
-- Where the bytes of a DATA frame go (heldIn, keepRefLocked, appendCopyLocked, insertCopyLocked,
-- mergeFollowersLocked and promoteLocked of internal/session/recv.go). `limit` is recvLimit. The
-- count of copied bytes that a test hook reads is left out; what an rcall keeps besides, the bytes
-- the call may still copy, is the number `left`: it stops at 0, and below 1 no segment is merged.
use rendr.Common.{
  ℕ, zero, suc, ◌+◌, ◌-◌, ◌*◌, Bool, false, not, ◌&&◌, Option, none, some, List, [], ◌∷◌, ◌++◌, ltb,
  leb, ◌==◌, if◌then◌else◌, length, get_or, take, drop, slice,
}
use rendr.Session.Segments.{
  Seg, run_cap, seg_end, seg_room, grow_seg, new_run, no_seg, back, set_back, push, after, cut,
  charges,
}
use rendr.Session.Receive.State.{Recv, Buf}

-- A heldRange.
pub record HeldRange : Type 0 where
  pub s0 : ℕ
  pub x : ℕ
  pub a : ℕ
  pub b : ℕ
  pub bytes : ℕ
  pub charge : ℕ

-- The loop of heldIn over the segments from `h.b` on.
unfoldable pub held_from : List Seg → ℕ → HeldRange → HeldRange
held_from [] end h = h
held_from (sg ∷ l) end h =
    let rest = held_from l end (record h {
      b = suc h.b;
      bytes = h.bytes + length sg.bytes;
      charge = h.charge + sg.charge;
    }) in
    if ltb sg.off end then (if ltb end (seg_end sg) then record h { x = sg.off } else rest) else h

unfoldable pub held_in : List Seg → ℕ → ℕ → HeldRange
held_in l start end =
    let i = after l start in
    let sg = get_or l i no_seg in
    let straddles = ltb i (length l) && ltb sg.off start in
    let s0 = if straddles then seg_end sg else start in
    let a = if straddles then suc i else i in
    held_from (drop a l) end (record { s0 = s0; x = end; a = a; b = a; bytes = 0; charge = 0 })

unfoldable pub new_bytes : HeldRange → ℕ
new_bytes h = if leb h.x h.s0 then 0 else h.x - h.s0 - h.bytes

unfoldable pub by_ref : HeldRange → ℕ → Bool
by_ref h c = leb c h.charge && leb c (2 * (h.x - h.s0))

-- The loop of mergeFollowersLocked: `t` is the segment, the list what follows it.
unfoldable pub merge_followers : Seg → List Seg → ℕ → ℕ → Seg × List Seg × ℕ × ℕ
merge_followers t [] cap left = (t, [], cap, left)
merge_followers t (sg ∷ l) cap left =
    let n = length sg.bytes in
    let rest = merge_followers (grow_seg t sg.bytes).0 l (cap - sg.charge) (left - n) in
    if (sg.off == seg_end t) && (leb n (seg_room t) && leb n left)
    then rest
    else (t, sg ∷ l, cap, left)

-- One round of promoteLocked: the segment moves into the in-order tail, or becomes it.
unfoldable pub promote_into : Option Seg → List Seg → Seg → ℕ → ℕ → List Seg × ℕ × ℕ
promote_into none inq sg cap left = (push inq sg, cap, left)
promote_into (some t) inq sg cap left =
    let n = length sg.bytes in
    if leb n (seg_room t) && leb n left
    then (set_back inq (grow_seg t sg.bytes).0, cap - sg.charge, left - n)
    else (push inq sg, cap, left)

-- promoteLocked; the list is the out-of-order segments that are not looked at yet.
unfoldable pub promote : Recv → List Seg → ℕ → Recv
promote st [] left = record st { ooq = [] }
promote st (sg ∷ l) left =
    let (inq, cap, left') = promote_into (back st.inq) st.inq sg st.ooo_cap left in
    let rest =
      promote
        (record st {
          inq = inq;
          ooo_cap = cap;
          r_tail = st.r_tail + length sg.bytes;
          rx_bytes = st.rx_bytes + length sg.bytes;
        })
        l left' in
    if sg.off == st.r_tail then rest else record st { ooq = sg ∷ l }

-- releaseOOORange.
unfoldable pub release_ooo_range : Recv → ℕ → ℕ → Recv
release_ooo_range st a b = record st {
  ooo_cap = st.ooo_cap - charges (take (b - a) (drop a st.ooq));
  ooq = cut st.ooq a b;
}

-- The merge at the segment that ends `before`, with the segments that follow it.
unfoldable pub merge_at : Recv → Option Seg → List Seg → List Seg → ℕ → Recv
merge_at st none before l left = record st { ooq = before ++ l }
merge_at st (some t) before l left =
    let (t', l', cap, left') = merge_followers t l st.ooo_cap left in
    record st { ooq = set_back before t' ++ l'; ooo_cap = cap }

unfoldable pub keep_ref : ℕ → Recv → ℕ → List ℕ → Buf → HeldRange → ℕ → ℕ → Recv
keep_ref limit st off p buf h n left =
    let sg : Seg = record {
      off = h.s0;
      bytes = slice p (h.s0 - off) (h.x - h.s0);
      span = buf.span - (h.s0 - off);
      charge = buf.capacity;
      is_run = false;
    } in
    let freed = release_ooo_range st h.a h.b in
    if h.s0 == st.r_tail
    then (promote
        (record freed {
          inq = push st.inq sg;
          ooo_cap = freed.ooo_cap + buf.capacity;
          rx_bytes = st.rx_bytes + (h.x - h.s0);
          r_tail = h.x;
        })
        freed.ooq left)
    else (if ltb limit (st.ooo_cap - h.charge + buf.capacity)
        then record st { ooo_dropped = st.ooo_dropped + n }
        else merge_at (record freed { ooo_cap = freed.ooo_cap + buf.capacity }) (some sg)
            (push (take h.a freed.ooq) sg) (drop h.a freed.ooq) left)

-- A round of the loop of appendCopyLocked: the queue, the bytes copied and the capacity taken.
unfoldable pub append_head : Option Seg → List Seg → ℕ → List ℕ → List Seg × ℕ × ℕ
append_head none l pos q = let (sg, m) = new_run pos q in (push l sg, m, run_cap)
append_head (some t) l pos q =
    let (u, k) = grow_seg t q in
    let (sg, m) = new_run pos q in
    if ltb 0 (seg_room t) then (set_back l u, k, 0) else (push l sg, m, run_cap)

-- The loop, with fuel for each byte of `q`.
unfoldable pub append_loop : ℕ → List Seg → ℕ → List ℕ → ℕ → List Seg × ℕ
append_loop zero l pos q cap = (l, cap)
append_loop (suc n) l pos q cap =
    let (l', m, c) = append_head (back l) l pos q in
    let rest = append_loop n l' (pos + m) (drop m q) (cap + c) in
    if ltb 0 (length q) then rest else (l, cap)

unfoldable pub append_copy : Recv → ℕ → List ℕ → ℕ → Recv
append_copy st pos piece left =
    let (inq, cap) = append_loop (length piece) st.inq pos piece st.ooo_cap in
    promote
      (record st {
        inq = inq;
        ooo_cap = cap;
        r_tail = st.r_tail + length piece;
        rx_bytes = st.rx_bytes + length piece;
      })
      st.ooq left

-- Whether the segment before ends exactly at `pos` and has room.
unfoldable pub grows_at : Option Seg → ℕ → Bool
grows_at none pos = false
grows_at (some t) pos = (seg_end t == pos) && ltb 0 (seg_room t)

-- The loop of insertCopyLocked over the segments before `i`, with fuel for each byte of `q`: the
-- segments, the capacity, and the bytes dropped where the limit stops it.
unfoldable pub insert_loop : ℕ → ℕ → List Seg → ℕ → List ℕ → ℕ → List Seg × ℕ × Option ℕ
insert_loop zero limit l pos q cap = (l, cap, none)
insert_loop (suc n) limit l pos q cap =
    let into = grows_at (back l) pos in
    let (l', m, c) = append_head (if into then back l else none) l pos q in
    let rest = insert_loop n limit l' (pos + m) (drop m q) (cap + c) in
    if ltb 0 (length q)
    then (if not into && ltb limit (cap + run_cap) then (l, cap, some (length q)) else rest)
    else (l, cap, none)

unfoldable pub inserted : Recv → List Seg → List Seg → ℕ → Option ℕ → ℕ → Recv
inserted st before l cap (some n) left = record st {
  ooq = before ++ l;
  ooo_cap = cap;
  ooo_dropped = st.ooo_dropped + n;
}
inserted st before l cap none left =
    merge_at (record st { ooo_cap = cap }) (back before) before l left

unfoldable pub insert_copy : ℕ → Recv → ℕ → ℕ → List ℕ → ℕ → Recv
insert_copy limit st i pos piece left =
    let (before, cap, dropped) =
      insert_loop (length piece) limit (take i st.ooq) pos piece st.ooo_cap in
    inserted st before (drop i st.ooq) cap dropped left
