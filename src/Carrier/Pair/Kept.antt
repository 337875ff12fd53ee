-- ===== src/Carrier/Pair/Kept.antt =====
-- Every step keeps what is safe.
use rendr.Common.{
  ℕ, ◌+◌, ◌^◌, ◌≤◌, ◌<◌, max, ◌≡◌, sym, ap, ◌∙◌, subst, inl, inr, Bool, true, Option, List, [],
  arith, ◌==◌, Bool-cases, ==-eq, length, get_or, All-get_or,
}
use rendr.Wire.Payload.Rel.{RelHead}
use rendr.Carrier.Receiver.{RelReceiver, Dispatched, on_rel}
use rendr.Carrier.Receiver.Order.{Delivers-trans}
use rendr.Carrier.Receiver.Order.Moves.{joined, joined_other}
use rendr.Carrier.Receiver.Order.Steps.{Outcome, stopped, going}
use rendr.Carrier.Receiver.Order.Arrivals.{Took, unchanged, added, on_head_lem}
use rendr.Carrier.Receiver.Order.Runs.{on_rel-on_head}
use rendr.Carrier.Sender.{RelSender, rel_attempted, on_rack, rack_taken}
use rendr.Carrier.Sender.Window.{Outstanding, rel_attempted-Outstanding, on_rack_fields-Outstanding}
use rendr.Carrier.Pair.{
  Message, Sendable, payload, head, inner, Sendable-Numbered, System, Step, seals, retransmits,
  attempts, rel_arrives, racks_out, rack_arrives,
}
use rendr.Carrier.Pair.Safe.{
  dispatched-lt, IsSent, IsRack, Safe, seals-Safe, retransmits-Safe, racks_out-Safe, Delivers-le,
  All-map, IsRack-later,
}

module _ {S : Type 0} (mux : Bool) (closed : S → Bool)
    (dispatch : S → RelHead → List ℕ → ℕ → Dispatched S) (first : ℕ) (messages : ℕ → Message)
    (rest : S) where
  module _ (fine : (k : ℕ) → Sendable mux (messages k)) {x : System S}
      (v : Safe mux closed dispatch first messages rest x) where
    attempts-Safe :
        (retx : Option ℕ) (rto rto_max at : ℕ)
        → Safe mux closed dispatch first messages rest
            (record x { sender = rel_attempted x.sender retx rto rto_max at })
    attempts-Safe retx rto rto_max at = record {
      lo = v.lo;
      m = v.m;
      seen = v.seen;
      started = v.started;
      from_one = v.from_one;
      send =
          rel_attempted-Outstanding first (payload mux first messages) v.send retx rto rto_max at;
      recv = v.recv;
      gap = v.gap;
      below = v.below;
      behind = v.behind;
      sent = v.sent;
      told = v.told;
      delivered = v.delivered;
    }

    abbrev Took' : ℕ → RelReceiver S × Bool → Type 0
    Took' k o =
        Took mux closed dispatch first (payload mux first messages) (head mux first messages)
          (inner mux first messages) v.seen v.m x.receiver k o

    -- What the receiver makes of a REL that was sent.
    pub arrival :
        (i fseq : ℕ)
        → i < length x.rels
        → x.number < 2 ^ 31
        → (k : ℕ) × (k < x.number)
          × Took' k (on_rel mux closed dispatch x.receiver (get_or x.rels i []) fseq)
    arrival i fseq lt small =
        let (k, up, below, same) =
          All-get_or (IsSent mux closed dispatch first messages rest x.number) i [] x.rels v.sent
            lt in
        (
          k,
          below,
          subst (λ o. Took' k o)
              (sym (
                ap (λ p. on_rel mux closed dispatch x.receiver p fseq) same
                ∙ on_rel-on_head mux closed dispatch first (payload mux first messages)
                    (head mux first messages) (inner mux first messages)
                    (Sendable-Numbered mux first messages fine) x.receiver k fseq))
              (on_head_lem mux closed dispatch first (payload mux first messages)
                (head mux first messages) (inner mux first messages) k fseq
                (Sendable-Numbered mux first messages fine) v.recv v.gap up (omega arith)),
        )

    taken_out :
        {Far : Type 0} {o : RelReceiver S × Bool} (seen : ℕ → Bool)
        → Outcome mux closed dispatch first
            (payload mux first messages)
            (head mux first messages)
            (inner mux first messages)
            Far
            seen
            v.m
            x.receiver.rest
            o
        → o.1 ≡ true
        → ((j : ℕ) → seen j ≡ true → j < x.number)
        → Safe mux closed dispatch first messages rest (record x { receiver = o.0 })
    taken_out seen (stopped m d e b) goes below = cc
    taken_out seen (going m r d e gap) goes below =
        let more = Delivers-le mux closed dispatch first messages rest d in
        record {
          lo = v.lo;
          m = m;
          seen = seen;
          started = v.started;
          from_one = v.from_one;
          send = v.send;
          recv = r;
          gap = gap;
          below = below;
          behind = omega (arith, more, v.behind);
          sent = v.sent;
          told =
              All-map mux closed dispatch first messages rest x.racks
                (IsRack-later mux closed dispatch first messages rest x.number x.number v.m m
                  (omega arith) more)
                v.told;
          delivered =
              Delivers-trans dispatch (head mux first messages) (inner mux first messages)
                v.delivered d;
        }

    Took-Safe :
        {o : RelReceiver S × Bool} (k : ℕ)
        → k < x.number
        → Took' k o
        → o.1 ≡ true
        → Safe mux closed dispatch first messages rest (record x { receiver = o.0 })
    Took-Safe k below (unchanged out why) goes = taken_out v.seen out goes v.below
    Took-Safe k below (added out) goes = taken_out (joined k v.seen) out goes λ j e.
        elim (Bool-cases (j == k)) [
          | inl same ↦ omega (arith, ==-eq j k same)
          | inr other ↦ v.below j (sym (joined_other k v.seen j other) ∙ e)
        ]

    -- What the sender makes of a RACK that was written.
    pub told_back :
        (i rto now : ℕ)
        → i < length x.racks
        → x.number + 16 < 2 ^ 31
        → (s : RelSender) × (wake : Bool) × (progress : Bool) × (a : ℕ) × (a ≤ v.m)
          × (on_rack x.sender (get_or x.racks i []) rto now ≡ rack_taken s wake progress)
          × Outstanding first (payload mux first messages) (max v.lo (a + 1)) x.number s
    told_back i rto now lt small =
        let (a, sack, read, le, names) =
          All-get_or (IsRack mux closed dispatch first messages rest x.number v.m) i [] x.racks
            v.told lt in
        let (s, wake, progress, e, out) =
          on_rack_fields-Outstanding first (payload mux first messages) v.send a sack rto now
            (omega (arith, dispatched-lt mux closed dispatch first messages rest v))
            (v.send.ordered) small names in
        (s, wake, progress, a, le, unfold on_rack in rw (on_rack, read) e, out)

    acknowledged :
        (a : ℕ) (s : RelSender)
        → a ≤ v.m
        → Outstanding first (payload mux first messages) (max v.lo (a + 1)) x.number s
        → Safe mux closed dispatch first messages rest (record x { sender = s })
    acknowledged a s le out = record {
      lo = max v.lo (a + 1);
      m = v.m;
      seen = v.seen;
      started = v.started;
      from_one = omega (arith, v.from_one);
      send = out;
      recv = v.recv;
      gap = v.gap;
      below = v.below;
      behind = omega (arith, v.behind);
      sent = v.sent;
      told = v.told;
      delivered = v.delivered;
    }

    pub Step-Safe :
        {y : System S}
        → Step mux closed dispatch first messages x y
        → y.number + 16 < 2 ^ 31
        → Safe mux closed dispatch first messages rest y
    Step-Safe (seals now free) small =
        seals-Safe mux closed dispatch first messages rest fine v now free (omega arith)
    Step-Safe (retransmits now p cseq e) small =
        retransmits-Safe mux closed dispatch first messages rest fine v now p cseq e
    Step-Safe (attempts retx rto rto_max at) small = attempts-Safe retx rto rto_max at
    Step-Safe (rel_arrives i fseq lt goes) small =
        let (k, below, took) = arrival i fseq lt (omega arith) in Took-Safe k below took goes
    Step-Safe (racks_out p e) small =
        racks_out-Safe mux closed dispatch first messages rest fine v p e
    Step-Safe (rack_arrives i rto now s wake progress lt e) small =
        let (s', wake', progress', a, le, e', out) = told_back i rto now lt small in
        acknowledged a s le (
          subst (λ t. Outstanding first (payload mux first messages) (max v.lo (a + 1)) x.number t)
            (cc (e, e')) out)
