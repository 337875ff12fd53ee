-- ===== src/Carrier/Pair.antt =====
-- One direction of the reliable control sublayer: a sender, a receiver, and between them a network
-- that loses, repeats and reorders (internal/carrier/rel.go).
mod Racks
mod Safe
mod Kept
pub mod Runs
mod Resend
pub mod Progress
use rendr.Common.{
  ℕ, ◌+◌, ◌%◌, ◌^◌, ◌≤◌, ◌<◌, ◌≡◌, refl, Bool, true, false, not, ◌&&◌, Option, some, List, [], ◌∷◌,
  ◌++◌, arith, length, get_or, take, replicate,
}
use rendr.Common.Int.{positive}
use rendr.Wire.Payload.Rel.{
  RelHead, layout_rel_head, Fits, Carries, parse_rel, parse_rel-layout_rel_head,
}
use rendr.Wire.Payload.Pack.{Rack, put_rack}
use rendr.Carrier.Receiver.{RelReceiver, Dispatched, of_handshake, on_rel, rack}
use rendr.Carrier.Receiver.Order.{Numbered}
use rendr.Carrier.Sender.{
  RelSender, room, rel_payload, seal_one, retransmission, rel_attempted, on_rack, RackAnswer,
  rack_taken,
}

-- A control frame to send: what addReliable is given.
pub record Message : Type 0 where
  pub type : ℕ
  pub flags : ℕ
  pub handle : ℕ
  pub inner : List ℕ

abbrev pub head_of : ℕ → Message → RelHead
head_of cseq m = record { cseq = cseq; type = m.type; flags = m.flags; handle = m.handle }

-- The REL payload, with a cseq of 0 until it is stamped.
abbrev pub payload_of : ℕ → Message → List ℕ
payload_of cseq m = layout_rel_head (head_of cseq m) ++ m.inner

-- The message obeys the rules of its frame type, fits a slot, and is no handshake frame unless the
-- carrier is a MUX trunk.
pub record Sendable (mux : Bool) (m : Message) : Type 0 where
  pub fits : Fits (head_of 0 m)
  pub carries : Carries (head_of 0 m) m.inner
  pub small : length m.inner ≤ 265
  pub fine : (of_handshake m.type && not mux) ≡ false

pub rel_payload-payload_of :
    (cseq : ℕ) (m : Message) → rel_payload (payload_of 0 m) cseq ≡ payload_of cseq m
unfolding rel_payload layout_rel_head
rel_payload-payload_of cseq m = refl

-- The RELs of a sender whose k-th message is `messages k`.
module _ (mux : Bool) (first : ℕ) (messages : ℕ → Message) where
  abbrev pub payload : ℕ → List ℕ
  payload k = payload_of ((first + k) % 2 ^ 32) (messages k)

  abbrev pub head : ℕ → RelHead
  head k = head_of ((first + k) % 2 ^ 32) (messages k)

  abbrev pub inner : ℕ → List ℕ
  inner k = (messages k).inner

  pub Sendable-Numbered :
      ((k : ℕ) → Sendable mux (messages k)) → Numbered mux first payload head inner
  Sendable-Numbered all = record {
    reads = λ k. parse_rel-layout_rel_head (head k) (inner k) (fits k) (carries k);
    numbered = λ k. refl;
    small = λ k. unfold layout_rel_head in omega (arith, (all k).small);
    fine = λ k. (all k).fine;
  }
    where
      fits : (k : ℕ) → Fits (head k)
      fits k = record {
        cseq_fits = omega arith;
        type_fits = (all k).fits.type_fits;
        flags_fits = (all k).fits.flags_fits;
        handle_fits = (all k).fits.handle_fits;
      }

      carries : (k : ℕ) → Carries (head k) (inner k)
      carries k = record {
        is_wrappable = (all k).carries.is_wrappable;
        flags_allowed = (all k).carries.flags_allowed;
        handle_fine = (all k).carries.handle_fine;
        long_enough = (all k).carries.long_enough;
        short_enough = (all k).carries.short_enough;
      }

-- The two ends, the number of the next message, and the payloads of all RELs and RACKs that were
-- written so far.
pub record System (S : Type 0) : Type 0 where
  pub sender : RelSender
  pub receiver : RelReceiver S
  pub number : ℕ
  pub rels : List (List ℕ)
  pub racks : List (List ℕ)

module _ {S : Type 0} (mux : Bool) (closed : S → Bool)
    (dispatch : S → RelHead → List ℕ → ℕ → Dispatched S) (first : ℕ) (messages : ℕ → Message) where
  -- What may happen next. What was written may arrive any number of times, late or never.
  pub data Step (x : System S) : System S → Type 0 where
    seals :
        (now : ℕ)
        → positive (room x.sender) ≡ true
        → Step x (record x {
          sender = seal_one now x.sender (payload_of 0 (messages x.number));
          number = x.number + 1;
          rels = rel_payload (payload_of 0 (messages x.number)) x.sender.next ∷ x.rels;
        })
    retransmits :
        (now : ℕ) (p : List ℕ) (cseq : ℕ)
        → retransmission x.sender now ≡ some (p, cseq)
        → Step x (record x { rels = p ∷ x.rels })
    attempts :
        (retx : Option ℕ) (rto rto_max at : ℕ)
        → Step x (record x { sender = rel_attempted x.sender retx rto rto_max at })
    rel_arrives :
        (i fseq : ℕ)
        → i < length x.rels
        → (on_rel mux closed dispatch x.receiver (get_or x.rels i []) fseq).1 ≡ true
        → Step x (record x {
          receiver = (on_rel mux closed dispatch x.receiver (get_or x.rels i []) fseq).0;
        })
    racks_out :
        (p : List ℕ)
        → put_rack (replicate 8 0) (rack x.receiver) ≡ some (8, p)
        → Step x (record x { racks = take 8 p ∷ x.racks })
    rack_arrives :
        (i rto now : ℕ) (s : RelSender) (wake progress : Bool)
        → i < length x.racks
        → on_rack x.sender (get_or x.racks i []) rto now ≡ rack_taken s wake progress
        → Step x (record x { sender = s })

  pub data Reached (x : System S) : System S → Type 0 where
    start : Reached x x
    later : {y z : System S} → Reached x y → Step y z → Reached x z
