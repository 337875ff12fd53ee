-- ===== src/Carrier/Pair/Progress.antt =====
-- What is sealed can still be delivered: the timer, a retransmission and a RACK are enough.
use rendr.Common.{ℕ, ◌+◌, ◌%◌, ◌^◌, ◌<◌, ◌≡◌, Bool, List, length}
use rendr.Wire.Payload.Rel.{RelHead}
use rendr.Carrier.Receiver.{RelReceiver, Dispatched}
use rendr.Carrier.Receiver.Order.Steps.{Obeys, Never}
use rendr.Carrier.Sender.{RelSender}
use rendr.Carrier.Pair.{Message, Sendable, payload, head, inner, System, Reached}
use rendr.Carrier.Pair.Safe.{Safe}
use rendr.Carrier.Pair.Runs.{opening, Reached-Safe}

module _ {S : Type 0} (mux : Bool) (closed : S → Bool)
    (dispatch : S → RelHead → List ℕ → ℕ → Dispatched S) (first : ℕ) (messages : ℕ → Message) where
  module _ (s : RelSender) (r : RelReceiver S) (fine : (k : ℕ) → Sendable mux (messages k))
      (obeys : Obeys mux closed dispatch first
        (payload mux first messages)
        (head mux first messages)
        (inner mux first messages)
        0
        r.rest)
      (never : Never mux closed dispatch first
        (payload mux first messages)
        (head mux first messages)
        (inner mux first messages)
        0
        r.rest)
      (first_fits : first < 2 ^ 32) (send_slots : length s.slot ≡ 8)
      (recv_slots : length r.held ≡ 8) where
    module _ (x : System S) (run : Reached mux closed dispatch first messages (opening s r first) x)
        (small : x.number + 16 < 2 ^ 31) (m : ℕ) (fits : m < 2 ^ 31)
        (cum : x.receiver.cum ≡ (first + m) % 2 ^ 32) where
      now : Safe mux closed dispatch first messages r.rest x
      now =
          Reached-Safe mux closed dispatch first messages s r fine first_fits send_slots recv_slots
            run small
