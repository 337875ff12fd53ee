-- ===== src/Carrier/Pair/Safe.antt =====
-- What holds of the two ends at any time, and that every step keeps it.
use rendr.Common.{
  ℕ, zero, suc, ◌+◌, ◌-◌, ◌%◌, ◌^◌, ◌≤◌, ◌<◌, ◌≡◌, sym, ap, ◌∙◌, ◌⊎◌, Bool, true, false, some, List,
  [], ◌∷◌, arith, ltb→lt, take, replicate, All, ok,
}
use rendr.Common.Int.{pos, positive}
use rendr.Wire.Payload.Rel.{RelHead}
use rendr.Wire.Payload.Pack.{put_rack, parse_rack}
use rendr.Common.Slots.{taken}
use rendr.Carrier.Receiver.{Dispatched, rack}
use rendr.Carrier.Receiver.Order.{Delivers, here, next, Inv}
use rendr.Carrier.Sender.{room, rel_payload, seal_one, retransmission}
use rendr.Carrier.Sender.Window.{Outstanding, room_lem, seal_one-Outstanding, retransmission_lem}
use rendr.Carrier.Pair.{
  Message, Sendable, payload, payload_of, head, inner, rel_payload-payload_of, Sendable-Numbered,
  System,
}
use rendr.Carrier.Pair.Racks.{rack_read, rack_names}

module _ {S : Type 0} (mux : Bool) (closed : S → Bool)
    (dispatch : S → RelHead → List ℕ → ℕ → Dispatched S) (first : ℕ) (messages : ℕ → Message)
    (rest : S) where
  -- A REL payload that was sent.
  abbrev pub IsSent : ℕ → List ℕ → Type 0
  IsSent number p = (k : ℕ) × (0 < k) × (k < number) × (p ≡ payload mux first messages k)

  -- A RACK payload that the receiver wrote when it had dispatched no more than `m` RELs.
  abbrev pub IsRack : ℕ → ℕ → List ℕ → Type 0
  IsRack number m p =
      (a : ℕ) × (sack : ℕ) × (parse_rack p
        ≡ ok (record { cum_ack = (first + a) % 2 ^ 32; sack = sack }))
      × (a ≤ m)
      × ((j : ℕ) → taken sack j ≡ true → a + 2 + j < number)

  -- `lo` is the oldest REL that is outstanding, `m` the last that was dispatched.
  pub record Safe (x : System S) : Type 0 where
    pub lo : ℕ
    pub m : ℕ
    pub seen : ℕ → Bool
    pub started : 0 < x.number
    pub from_one : 0 < lo
    pub send : Outstanding first (payload mux first messages) lo x.number x.sender
    pub recv : Inv first (payload mux first messages) seen m x.receiver
    pub gap : (closed x.receiver.rest ≡ true) ⊎ (seen (m + 1) ≡ false)
    pub below : (k : ℕ) → seen k ≡ true → k < x.number
    pub behind : lo ≤ m + 1
    pub sent : All (IsSent x.number) x.rels
    pub told : All (IsRack x.number m) x.racks
    pub delivered :
        Delivers dispatch
          (head mux first messages)
          (inner mux first messages)
          0
          rest
          m
          x.receiver.rest

  pub dispatched-lt : {x : System S} (v : Safe x) → v.m < x.number
  dispatched-lt {x = x} v = at v.m (v.below v.m) (v.recv.before v.m)
    where
      at :
          (k : ℕ)
          → (v.seen k ≡ true → k < x.number)
          → (0 < k → k ≤ k → v.seen k ≡ true)
          → k < x.number
      at zero below before = v.started
      at (suc k) below before = below (before (omega arith) (omega arith))

  pub Delivers-le :
      {n : ℕ} {s : S} {k : ℕ} {t : S}
      → Delivers dispatch (head mux first messages) (inner mux first messages) n s k t
      → n ≤ k
  Delivers-le here = omega arith
  Delivers-le (next f d p q) = omega (arith, Delivers-le d)

  pub All-map :
      {P Q : List ℕ → Type 0} (xs : List (List ℕ))
      → ((p : List ℕ) → P p → Q p)
      → All P xs
      → All Q xs
  All-map [] f a = tt
  All-map (x ∷ xs) f a = (f x a.0, All-map xs f a.1)

  IsSent-later : (number : ℕ) (p : List ℕ) → IsSent number p → IsSent (number + 1) p
  IsSent-later number p (k, a, b, e) = (k, a, omega arith, e)

  pub IsRack-later :
      (number number' m m' : ℕ)
      → number ≤ number'
      → m ≤ m'
      → (p : List ℕ) → IsRack number m p
      → IsRack number' m' p
  IsRack-later number number' m m' a b p (c, sack, e, le, names) =
      (c, sack, e, omega arith, λ j t. omega (arith, names j t))

  module _ (fine : (k : ℕ) → Sendable mux (messages k)) {x : System S} (v : Safe x) where
    pub seals-Safe :
        (now : ℕ)
        → positive (room x.sender) ≡ true
        → x.number + 1 < 2 ^ 31
        → Safe (record x {
          sender = seal_one now x.sender (payload_of 0 (messages x.number));
          number = x.number + 1;
          rels = rel_payload (payload_of 0 (messages x.number)) x.sender.next ∷ x.rels;
        })
    seals-Safe now free small = record {
      lo = v.lo;
      m = v.m;
      seen = v.seen;
      started = omega arith;
      from_one = v.from_one;
      send =
          seal_one-Outstanding first (payload mux first messages) v.send now
            (payload_of 0 (messages x.number))
            (has_room
              (sym (ap positive (room_lem first (payload mux first messages) v.send)) ∙ free))
            (rel_payload-payload_of ((first + x.number) % 2 ^ 32) (messages x.number))
            ((Sendable-Numbered mux first messages fine).small x.number);
      recv = v.recv;
      gap = v.gap;
      below = λ k e. omega (arith, v.below k e);
      behind = v.behind;
      sent = (
        (
          x.number,
          v.started,
          omega arith,
          ap (rel_payload (payload_of 0 (messages x.number))) (v.send.next_is)
              ∙ rel_payload-payload_of ((first + x.number) % 2 ^ 32) (messages x.number),
        ),
        All-map x.rels (IsSent-later x.number) v.sent,
      );
      told =
          All-map x.racks (IsRack-later x.number (x.number + 1) v.m v.m (omega arith) (omega arith))
            v.told;
      delivered = v.delivered;
    }
      where
        has_room : positive (pos (v.lo + 8 - x.number)) ≡ true → x.number < v.lo + 8
        has_room e = omega (arith, ltb→lt 0 (v.lo + 8 - x.number) e)

    pub retransmits-Safe :
        (now : ℕ) (p : List ℕ) (cseq : ℕ)
        → retransmission x.sender now ≡ some (p, cseq)
        → Safe (record x { rels = p ∷ x.rels })
    retransmits-Safe now p cseq e =
        let (same, number, some_left) =
          retransmission_lem first (payload mux first messages) v.send now p cseq e in
        record {
          lo = v.lo;
          m = v.m;
          seen = v.seen;
          started = v.started;
          from_one = v.from_one;
          send = v.send;
          recv = v.recv;
          gap = v.gap;
          below = v.below;
          behind = v.behind;
          sent = ((v.lo, v.from_one, some_left, same), v.sent);
          told = v.told;
          delivered = v.delivered;
        }

    pub racks_out-Safe :
        (p : List ℕ)
        → put_rack (replicate 8 0) (rack x.receiver) ≡ some (8, p)
        → Safe (record x { racks = take 8 p ∷ x.racks })
    racks_out-Safe p e = record {
      lo = v.lo;
      m = v.m;
      seen = v.seen;
      started = v.started;
      from_one = v.from_one;
      send = v.send;
      recv = v.recv;
      gap = v.gap;
      below = v.below;
      behind = v.behind;
      sent = v.sent;
      told = (
        (
          v.m,
          (rack x.receiver).sack,
          rack_read v.recv p e,
          omega arith,
          λ j t. v.below (v.m + 2 + j) (rack_names v.recv j t),
        ),
        v.told,
      );
      delivered = v.delivered;
    }
