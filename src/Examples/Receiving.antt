-- ===== src/Examples/Receiving.antt =====
-- The receive path of a stream on concrete frames.
use rendr.Common.{
  ℕ, ◌+◌, ◌*◌, ◌≤◌, ◌≡◌, refl, ◌⊎◌, inr, true, false, none, List, [], ◌∷◌, ◌++◌, arith, length,
}
use rendr.Session.Segments.{
  Seg, run_cap, seg_room, grow_seg, new_run, ring_head, ring_equal, after_between, after,
  list_equal_from, list_equal,
}
use rendr.Session.Segments.Search.{passed, after-passed}
use rendr.Session.Receive.State.{Recv, conflict}
use rendr.Session.Receive.Place.{
  held_from, held_in, new_bytes, merge_followers, promote_into, promote, merge_at, append_head,
  append_loop, append_copy, grows_at, insert_loop, inserted, insert_copy,
}
use rendr.Session.Receive.Data.{
  place_piece, copy_step, copy_pieces, shed_loop, shed, release_to, release_consumed, consume_all,
  after_placing, place, place_new, beyond_fin, range_error, agrees_in_order, compared, checked,
  recv_data,
}
use rendr.Session.Receive.Merging.{Held}
use rendr.Session.Receive.Charge.{Bounded}
use rendr.Session.Receive.Bounded.{recv_data-Bounded}
use rendr.Session.Receive.Kept.{
  recv_data_accepts, recv_data_in_order, recv_data_refused, recv_data_no_conflict,
}
use rendr.Session.Receive.Reading.{read_verdict, at_fin, read_views, read_commit}
use rendr.Session.Receive.Delivered.{
  opened, Reached, start, frame, read, Delivers, Reached-Delivers,
}

-- The byte at an offset.
abbrev numbered : ℕ → ℕ
numbered i = i + 1

abbrev run_of : ℕ → List ℕ → Seg
run_of off p = record { off = off; bytes = p; span = run_cap; charge = run_cap; is_run = true }

abbrev limit : ℕ
limit = 40000

-- Bytes 0 and 1 in order and unread, bytes 4 and 5 out of order.
abbrev two_held : Recv
two_held = record {
  r_read = 0;
  r_tail = 2;
  right_edge = 100;
  inq = run_of 0 (1 ∷ 2 ∷ []) ∷ [];
  ooq = run_of 4 (5 ∷ 6 ∷ []) ∷ [];
  ooo_cap = 2 * run_cap;
  ooo_dropped = 0;
  rx_bytes = 2;
  peer_fin = none;
  delivered = 0;
  discard = false;
  discarded_after_close = false;
  r_copying = false;
  r_free_pending = false;
  r_waiting = true;
  ack_on_data = false;
}

two_held-Held : Held numbered two_held
two_held-Held = record {
  from = 0;
  covered = (refl, (omega arith, refl), refl);
  kept = omega arith;
  unread = omega arith;
  ahead = (omega arith, (omega arith, refl), omega arith);
  gap = omega arith;
  charged = refl;
}

-- The gap closes: the frame's new bytes are copied, and the segment beyond them is merged.
gap_closes :
    ((recv_data false limit two_held 1 (2 ∷ 3 ∷ 4 ∷ 5 ∷ []) none).next.inq
      ≡ (run_of 0 (1 ∷ 2 ∷ 3 ∷ 4 ∷ 5 ∷ 6 ∷ []) ∷ []))
    × ((recv_data false limit two_held 1 (2 ∷ 3 ∷ 4 ∷ 5 ∷ []) none).next.r_tail ≡ 6)
unfolding recv_data checked range_error beyond_fin compared agrees_in_order ring_equal ring_head
    list_equal list_equal_from after after_between place_new held_in held_from new_bytes place
    copy_pieces copy_step place_piece append_copy append_loop append_head grow_seg seg_room new_run
    promote promote_into after_placing consume_all release_consumed release_to shed shed_loop
gap_closes = (refl, refl)

recv_data_accepts_example :
    ((recv_data false limit two_held 3 (4 ∷ 5 ∷ []) none).error ≡ none)
    × Held numbered (recv_data false limit two_held 3 (4 ∷ 5 ∷ []) none).next
    × (2 ≤ (recv_data false limit two_held 3 (4 ∷ 5 ∷ []) none).next.r_tail)
    × (0 ≤ (recv_data false limit two_held 3 (4 ∷ 5 ∷ []) none).next.r_read)
unfolding range_error beyond_fin
recv_data_accepts_example =
    recv_data_accepts numbered false limit two_held 3 (4 ∷ 5 ∷ []) none two_held-Held refl
      (omega arith) (omega arith) refl

recv_data_in_order_example :
    (5 ≤ (recv_data false limit two_held 1 (2 ∷ 3 ∷ 4 ∷ 5 ∷ []) none).next.r_tail)
    × (((recv_data false limit two_held 1 (2 ∷ 3 ∷ 4 ∷ 5 ∷ []) none).next.ooq ≡ [])
        ⊎ ((recv_data false limit two_held 1 (2 ∷ 3 ∷ 4 ∷ 5 ∷ []) none).next.ooo_cap ≤ limit))
unfolding range_error beyond_fin
recv_data_in_order_example =
    recv_data_in_order numbered false limit two_held 1 (2 ∷ 3 ∷ 4 ∷ 5 ∷ []) none two_held-Held refl
      (omega arith) (omega arith) refl (omega arith) (omega arith)

-- Byte 5 comes again with another value.
recv_data_refused_example :
    ((recv_data false limit two_held 3 (4 ∷ 5 ∷ 9 ∷ []) none).next ≡ two_held)
    × ((recv_data false limit two_held 3 (4 ∷ 5 ∷ 9 ∷ []) none).signals ≡ [])
unfolding recv_data checked range_error beyond_fin compared agrees_in_order list_equal
    list_equal_from after after_between
recv_data_refused_example =
    recv_data_refused false limit two_held 3 (4 ∷ 5 ∷ 9 ∷ []) none conflict refl

recv_data_no_conflict_example : ◌≡◌ {A = List ℕ} (2 ∷ []) (numbered 1 ∷ [])
unfolding recv_data checked range_error beyond_fin compared agrees_in_order ring_equal ring_head
    list_equal list_equal_from after after_between place_new
recv_data_no_conflict_example =
    recv_data_no_conflict numbered false limit two_held 1 (2 ∷ 3 ∷ []) none two_held-Held refl

after-passed_example :
    after (run_of 4 (5 ∷ 6 ∷ []) ∷ run_of 8 (9 ∷ []) ∷ []) 6
    ≡ passed (run_of 4 (5 ∷ 6 ∷ []) ∷ run_of 8 (9 ∷ []) ∷ []) 6
after-passed_example =
    after-passed numbered 0 100 6 (run_of 4 (5 ∷ 6 ∷ []) ∷ run_of 8 (9 ∷ []) ∷ [])
      (omega arith, (omega arith, refl), (omega arith, (omega arith, refl), omega arith))

-- A frame beyond a gap, one that closes it, and a Read of what is in order.
abbrev first_frame : Recv
first_frame = (recv_data false limit (opened 0 100) 2 (3 ∷ 4 ∷ []) none).next

abbrev both_frames : Recv
both_frames = (recv_data false limit first_frame 0 (1 ∷ 2 ∷ 3 ∷ []) none).next

run_reached :
    Reached numbered false 0
      (read_commit both_frames (length (read_views both_frames 3)))
      ([] ++ read_views both_frames 3)
unfolding opened recv_data checked range_error beyond_fin compared agrees_in_order ring_equal
    ring_head list_equal list_equal_from after after_between place_new held_in held_from new_bytes
    place copy_pieces copy_step place_piece append_copy append_loop append_head insert_copy
    insert_loop inserted grows_at merge_at merge_followers grow_seg seg_room new_run promote
    promote_into after_placing consume_all release_consumed release_to shed shed_loop read_verdict
    at_fin
run_reached =
    read 3
      (frame limit 0 (1 ∷ 2 ∷ 3 ∷ []) none
        (frame limit 2 (3 ∷ 4 ∷ []) none (start 100 (omega arith)) refl (omega arith) (omega arith))
        refl (omega arith) (omega arith))
      refl

Reached-Delivers_example :
    Delivers numbered false 0
      (read_commit both_frames (length (read_views both_frames 3)))
      ([] ++ read_views both_frames 3)
Reached-Delivers_example = Reached-Delivers numbered false 0 run_reached

recv_data-Bounded_example : Bounded limit (recv_data false limit two_held 5 (6 ∷ 7 ∷ []) none).next
unfolding range_error beyond_fin
recv_data-Bounded_example =
    recv_data-Bounded numbered false limit two_held 5 (6 ∷ 7 ∷ []) none two_held-Held refl
      (omega arith) (omega arith) refl (inr (omega arith))
