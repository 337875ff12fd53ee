-- ===== src/Examples/Rel.antt =====
-- Runs of the reliable control sublayer.
use rendr.Common.{
  ℕ, ◌+◌, ◌%◌, ◌^◌, ◌≤◌, ◌<◌, ◌≡◌, refl, ap, ◌∙◌, Bool, true, false, none, some, List, [], ◌∷◌,
  arith, get_or, take, replicate, put_front,
}
use rendr.Common.Int.{positive}
use rendr.Wire.FrameType.{wrappable, allowed_flags, handle_ok, payload_bounds, carrier_level}
use rendr.Wire.Payload.Rel.{RelHead, layout_rel_head, parse_rel, check_rel, read_rel_head}
use rendr.Wire.Payload.Pack.{put_rack}
use rendr.Common.Slots.{taken}
use rendr.Carrier.Receiver.{
  RelReceiver, Dispatched, nothing_held, of_handshake, init_recv, on_rel, on_head, hold,
  dispatch_next, drain, dispatch_at, dispatch_held, rel_advance, rack, sack_bits,
}
use rendr.Carrier.Receiver.Order.{Delivers, here, next}
use rendr.Carrier.Receiver.Order.Steps.{Obeys, Never}
use rendr.Carrier.Receiver.Dispatch.{Flags, rel_dispatch, dispatch_session}
use rendr.Examples.Closing.{counting, flags}
use rendr.Carrier.Receiver.Order.Runs.{
  Arrival, InReach, arrived, arrived_to, receives, receives-Delivers, receives-arrived,
}
use rendr.Carrier.Sender.{RelSender, init_send, room, seal_one, rel_payload, on_rack, rack_taken}
use rendr.Carrier.Pair.{
  Message, Sendable, payload_of, payload, head, inner, Sendable-Numbered, System, seals,
  rel_arrives, racks_out, Reached, start, later,
}
use rendr.Carrier.Pair.Runs.{opening, Reached-window, Reached-violation}

-- An empty PACK of view 1, again and again.
abbrev note : Message
note = record { type = 0x21; flags = 0; handle = 1; inner = replicate 20 0 }

note-Sendable : Sendable false note
unfolding wrappable allowed_flags handle_ok payload_bounds carrier_level of_handshake rel_dispatch
    dispatch_session
note-Sendable = record {
  fits = record {
    cseq_fits = omega arith;
    type_fits = omega arith;
    flags_fits = omega arith;
    handle_fits = omega arith;
  };
  carries = record {
    is_wrappable = refl;
    flags_allowed = refl;
    handle_fine = refl;
    long_enough = omega arith;
    short_enough = omega arith;
  };
  small = omega arith;
  fine = refl;
}

abbrev notes : ℕ → Message
notes k = note

-- The carrier over a session that counts the control frames it is handed, which are no violation
-- and do not close the peer.
abbrev dispatch : Flags ℕ → RelHead → List ℕ → ℕ → Dispatched (Flags ℕ)
dispatch = rel_dispatch counting

abbrev is_closed : Flags ℕ → Bool
is_closed s = s.peer_closed

-- The counters wrap behind the first RELs.
abbrev last_cseq : ℕ
last_cseq = 4294967294

abbrev fresh : RelReceiver (Flags ℕ)
fresh = record {
  cum = 0;
  held_mask = 0;
  rack_due = false;
  held = replicate 8 nothing_held;
  rest = flags;
  dropped = 0;
}

abbrev coming : List Arrival
coming = (2, 10) ∷ (1, 11) ∷ (2, 12) ∷ (4, 13) ∷ []

notes-Obeys :
    Obeys false is_closed dispatch last_cseq
      (payload false last_cseq notes)
      (head false last_cseq notes)
      (inner false last_cseq notes)
      0
      flags
unfolding rel_dispatch dispatch_session
notes-Obeys k t fseq d = refl

notes-Never :
    Never false is_closed dispatch last_cseq
      (payload false last_cseq notes)
      (head false last_cseq notes)
      (inner false last_cseq notes)
      0
      flags
unfolding rel_dispatch dispatch_session
notes-Never k t here = refl
notes-Never k t (next fseq d e p) = ap (λ s. s.peer_closed) p ∙ notes-Never _ _ d

coming-InReach : InReach coming
coming-InReach = (
  (omega arith, omega arith),
  ((omega arith, omega arith), ((omega arith, omega arith), ((omega arith, omega arith), tt))),
)

receives-Delivers_example :
    (m : ℕ) × Delivers dispatch
      (head false last_cseq notes)
      (inner false last_cseq notes)
      0
      flags
      m
      (receives false is_closed dispatch
        (payload false last_cseq notes)
        (init_recv fresh last_cseq)
        coming).0.rest
receives-Delivers_example =
    receives-Delivers false is_closed dispatch last_cseq (payload false last_cseq notes)
      (head false last_cseq notes) (inner false last_cseq notes)
      (Sendable-Numbered false last_cseq notes (λ k. note-Sendable)) fresh coming (omega arith) refl
      coming-InReach

goes_on :
    (receives false is_closed dispatch
      (payload false last_cseq notes)
      (init_recv fresh last_cseq)
      coming).1
    ≡ true
unfolding init_recv on_rel on_head hold dispatch_next drain dispatch_at dispatch_held rel_advance
    taken parse_rel check_rel read_rel_head layout_rel_head wrappable allowed_flags handle_ok
    payload_bounds carrier_level of_handshake rel_dispatch dispatch_session
goes_on = refl

receives-arrived_example :
    (m : ℕ) × Delivers dispatch
      (head false last_cseq notes)
      (inner false last_cseq notes)
      0
      flags
      m
      (receives false is_closed dispatch
        (payload false last_cseq notes)
        (init_recv fresh last_cseq)
        coming).0.rest
    × ((receives false is_closed dispatch
          (payload false last_cseq notes)
          (init_recv fresh last_cseq)
          coming).0.cum
        ≡ (last_cseq + m) % 2 ^ 32)
    × (arrived_to coming m ≡ true)
    × (arrived coming (m + 1) ≡ false)
receives-arrived_example =
    receives-arrived false is_closed dispatch last_cseq (payload false last_cseq notes)
      (head false last_cseq notes) (inner false last_cseq notes)
      (Sendable-Numbered false last_cseq notes (λ k. note-Sendable)) fresh coming (omega arith) refl
      coming-InReach notes-Never goes_on

abbrev idle : RelSender
idle = record {
  next = 0;
  una = 0;
  slot = replicate 8 [];
  backoff = 0;
  due = none;
  blocked = false;
  round = 0;
  sealed = replicate 8 0;
  retx = false;
  retx_cseq = 0;
  retx_rnd = 0;
  first_at = 0;
}

-- One message is sealed, and it arrives.
abbrev opened : System (Flags ℕ)
opened = opening idle fresh last_cseq

abbrev sealed_one : System (Flags ℕ)
sealed_one = record opened {
  sender = seal_one 5 opened.sender (payload_of 0 note);
  number = 1 + 1;
  rels = rel_payload (payload_of 0 note) opened.sender.next ∷ [];
}

abbrev arrived_one : System (Flags ℕ)
arrived_one = record sealed_one {
  receiver =
      (on_rel false is_closed dispatch sealed_one.receiver (get_or sealed_one.rels 0 []) 7).0;
}

abbrev answer : List ℕ
answer = 255 ∷ 255 ∷ 255 ∷ 255 ∷ 0 ∷ 0 ∷ 0 ∷ 0 ∷ []

abbrev racked_one : System (Flags ℕ)
racked_one = record arrived_one { racks = take 8 answer ∷ [] }

has_room : positive (room opened.sender) ≡ true
unfolding room init_send
has_room = refl

goes_one :
    (on_rel false is_closed dispatch sealed_one.receiver (get_or sealed_one.rels 0 []) 7).1 ≡ true
unfolding init_recv init_send seal_one rel_payload on_rel on_head hold dispatch_next drain
    dispatch_at dispatch_held rel_advance taken parse_rel check_rel read_rel_head layout_rel_head
    wrappable allowed_flags handle_ok payload_bounds carrier_level of_handshake rel_dispatch
    dispatch_session
goes_one = refl

answered : put_rack (replicate 8 0) (rack arrived_one.receiver) ≡ some (8, answer)
unfolding put_rack put_front rack sack_bits init_recv init_send seal_one rel_payload on_rel on_head
    hold dispatch_next drain dispatch_at dispatch_held rel_advance taken parse_rel check_rel
    read_rel_head layout_rel_head wrappable allowed_flags handle_ok payload_bounds carrier_level
    of_handshake rel_dispatch dispatch_session
answered = refl

run_of_one : Reached false is_closed dispatch last_cseq notes opened racked_one
run_of_one =
    later {y = arrived_one}
      (later {y = sealed_one} (later {y = opened} start (seals 5 has_room))
        (rel_arrives 0 7 (omega arith) goes_one))
      (racks_out answer answered)

Reached-window_example :
    (lo : ℕ) × (m : ℕ) × Delivers dispatch
      (head false last_cseq notes)
      (inner false last_cseq notes)
      0
      flags
      m
      racked_one.receiver.rest
    × (m < racked_one.number)
    × (racked_one.sender.una ≡ (last_cseq + lo) % 2 ^ 32)
    × (racked_one.sender.next ≡ (last_cseq + racked_one.number) % 2 ^ 32)
    × (lo ≤ m + 1)
    × (lo ≤ racked_one.number)
    × (racked_one.number ≤ lo + 8)
Reached-window_example =
    Reached-window false is_closed dispatch last_cseq notes idle fresh (λ k. note-Sendable)
      (omega arith) refl refl run_of_one (omega arith)

Reached-violation_example :
    ((on_rel false is_closed dispatch racked_one.receiver (get_or racked_one.rels 0 []) 9).1 ≡ true)
    × ((t : RelSender) × (wake : Bool) × (progress : Bool) × (on_rack racked_one.sender
            (get_or racked_one.racks 0 [])
            300
            400
          ≡ rack_taken t wake progress))
Reached-violation_example =
    Reached-violation false is_closed dispatch last_cseq notes idle fresh (λ k. note-Sendable)
      (omega arith) refl refl run_of_one (omega arith) notes-Obeys 0 0 9 300 400 (omega arith)
      (omega arith)
