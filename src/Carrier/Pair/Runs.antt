-- ===== src/Carrier/Pair/Runs.antt =====
-- What holds of the two ends in every reachable state.
use rendr.Common.{
  ℕ, ◌+◌, ◌%◌, ◌^◌, ◌≤◌, ◌<◌, ◌≡◌, refl, inr, Bool, true, false, List, [], arith, length, get_or,
}
use rendr.Wire.Payload.Rel.{RelHead}
use rendr.Common.Slots.{taken_none}
use rendr.Carrier.Receiver.{RelReceiver, Dispatched, on_rel, init_recv}
use rendr.Carrier.Receiver.Order.{Delivers, here, Delivers-trans}
use rendr.Carrier.Receiver.Order.Steps.{stopped, going, Obeys}
use rendr.Carrier.Receiver.Order.Arrivals.{Took, unchanged, added}
use rendr.Carrier.Sender.{RelSender, init_send, on_rack, rack_taken}
use rendr.Carrier.Pair.{
  Message, Sendable, payload, head, inner, System, Step, seals, retransmits, attempts, rel_arrives,
  racks_out, rack_arrives, Reached, start, later,
}
use rendr.Carrier.Pair.Safe.{Safe, dispatched-lt}
use rendr.Carrier.Pair.Kept.{arrival, told_back, Step-Safe}

-- Both ends as the handshakes leave them, behind cseq `first`.
abbrev pub opening : {S : Type 0} → RelSender → RelReceiver S → ℕ → System S
opening s r first = record {
  sender = init_send s ((first + 1) % 2 ^ 32);
  receiver = init_recv r first;
  number = 1;
  rels = [];
  racks = [];
}

module _ {S : Type 0} (mux : Bool) (closed : S → Bool)
    (dispatch : S → RelHead → List ℕ → ℕ → Dispatched S) (first : ℕ) (messages : ℕ → Message)
    (s : RelSender) (r : RelReceiver S) (fine : (k : ℕ) → Sendable mux (messages k))
    (first_fits : first < 2 ^ 32) (send_slots : length s.slot ≡ 8)
    (recv_slots : length r.held ≡ 8) where
  opening-Safe : Safe mux closed dispatch first messages r.rest (opening s r first)
  unfolding init_send init_recv
  opening-Safe = record {
    lo = 1;
    m = 0;
    seen = λ j. false;
    started = omega arith;
    from_one = omega arith;
    send = record {
      una_is = refl;
      next_is = refl;
      ordered = omega arith;
      window = omega arith;
      slots = send_slots;
      kept = λ k p q. absurd (omega arith);
    };
    recv = record {
      reach = omega arith;
      cum_is = omega arith;
      slots = recv_slots;
      marks = λ k p q. taken_none ((first + k) % 8);
      kept = λ k p q e. cc;
      before = λ k p q. absurd (omega arith);
      beyond = λ k p. refl;
      near = λ k e. cc;
    };
    gap = inr refl;
    below = λ k e. cc;
    behind = omega arith;
    sent = tt;
    told = tt;
    delivered = here;
  }

  grows : {x y : System S} → Step mux closed dispatch first messages x y → x.number ≤ y.number
  grows (seals now free) = omega arith
  grows (retransmits now p cseq e) = omega arith
  grows (attempts retx rto rto_max at) = omega arith
  grows (rel_arrives i fseq lt goes) = omega arith
  grows (racks_out p e) = omega arith
  grows (rack_arrives i rto now t wake progress lt e) = omega arith

  pub Reached-Safe :
      {x : System S}
      → Reached mux closed dispatch first messages (opening s r first) x
      → x.number + 16 < 2 ^ 31
      → Safe mux closed dispatch first messages r.rest x
  Reached-Safe start small = opening-Safe
  Reached-Safe (later before step) small =
      Step-Safe mux closed dispatch first messages r.rest fine
        (Reached-Safe before (omega (arith, grows step))) step small

  -- A frame within the window stops the reader only by a dispatch.
  taken_on :
      {x : System S} {o : RelReceiver S × Bool}
      (v : Safe mux closed dispatch first messages r.rest x)
      → Obeys mux closed dispatch first
          (payload mux first messages)
          (head mux first messages)
          (inner mux first messages)
          v.m
          x.receiver.rest
      → (k : ℕ) → k ≤ v.m + 8
      → Took mux closed dispatch first
          (payload mux first messages)
          (head mux first messages)
          (inner mux first messages)
          v.seen
          v.m
          x.receiver
          k
          o
      → o.1 ≡ true
  taken_on v obeys k near (unchanged (stopped m d e b) why) = absurd (omega (arith, b obeys))
  taken_on v obeys k near (unchanged (going m i d e g) why) = e
  taken_on v obeys k near (added (stopped m d e b)) = absurd (omega (arith, b obeys))
  taken_on v obeys k near (added (going m i d e g)) = e

  module _ {x : System S} (run : Reached mux closed dispatch first messages (opening s r first) x)
      (small : x.number + 16 < 2 ^ 31) where
    -- For Sendable messages, two ends of eight slots that start behind a uint32 cseq, and fewer
    -- than 2^31 - 16 RELs: whatever the network loses, repeats and reorders, what the receiver
    -- dispatched is the first m of the sender's messages, in order and each once, all RELs before
    -- the sender's una are among them, and at most eight are outstanding.
    pub Reached-window :
        (lo : ℕ) × (m : ℕ) × Delivers dispatch
          (head mux first messages)
          (inner mux first messages)
          0
          r.rest
          m
          x.receiver.rest
        × (m < x.number)
        × (x.sender.una ≡ (first + lo) % 2 ^ 32)
        × (x.sender.next ≡ (first + x.number) % 2 ^ 32)
        × (lo ≤ m + 1)
        × (lo ≤ x.number)
        × (x.number ≤ lo + 8)
    Reached-window =
        let v = Reached-Safe run small in
        (
          v.lo,
          v.m,
          v.delivered,
          dispatched-lt mux closed dispatch first messages r.rest v,
          v.send.una_is,
          v.send.next_is,
          v.behind,
          v.send.ordered,
          v.send.window,
        )

    -- For Sendable messages, two ends of eight slots that start behind a uint32 cseq, and fewer
    -- than 2^31 - 16 RELs: no REL that the sender wrote, and no RACK that the receiver wrote, is
    -- ever a violation at the other end, if the dispatch of the sender's messages, in their order
    -- from the receiver's first state and under whatever frame numbers, is never one.
    pub Reached-violation :
        Obeys mux closed dispatch first
          (payload mux first messages)
          (head mux first messages)
          (inner mux first messages)
          0
          r.rest
        → (i j fseq rto now : ℕ) → i < length x.rels
        → j < length x.racks
        → ((on_rel mux closed dispatch x.receiver (get_or x.rels i []) fseq).1 ≡ true)
          × ((t : RelSender) × (wake : Bool) × (progress : Bool) × (on_rack x.sender
                  (get_or x.racks j [])
                  rto
                  now
                ≡ rack_taken t wake progress))
    Reached-violation obeys i j fseq rto now lt_rel lt_rack =
        let v = Reached-Safe run small in
        let (k, below, took) =
          arrival mux closed dispatch first messages r.rest fine v i fseq lt_rel (omega arith) in
        let (t, wake, progress, a, le, e, out) =
          told_back mux closed dispatch first messages r.rest fine v j rto now lt_rack small in
        (
          taken_on v (from_now v) k (omega (arith, below, v.behind, v.send.window)) took,
          (t, wake, progress, e),
        )
      where
        from_now :
            (v : Safe mux closed dispatch first messages r.rest x)
            → Obeys mux closed dispatch first
                (payload mux first messages)
                (head mux first messages)
                (inner mux first messages)
                v.m
                x.receiver.rest
        from_now v k t f d = obeys k t f (
            Delivers-trans dispatch (head mux first messages) (inner mux first messages) v.delivered
              d)
