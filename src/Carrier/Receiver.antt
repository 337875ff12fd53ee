-- ===== src/Carrier/Receiver.antt =====
-- The receiver of the reliable control sublayer: relOnRel, relAdvance and rackLocked of relState
-- (internal/carrier/rel.go). What a REL is dispatched to is a parameter of the module, which
-- Carrier.Receiver.Dispatch fills.
pub mod Dispatch
pub mod Order
pub mod Closed
use rendr.Common.{
  ℕ, zero, suc, ◌+◌, ◌-◌, ◌%◌, ◌^◌, bit_or, Bool, true, false, not, ◌&&◌, ◌||◌, List, [], ltb, leb,
  ◌==◌, if◌then◌else◌, and_not, get_or, take, set, ok, err,
}
use rendr.Wire.Const
use rendr.Wire.FrameType.{type_open, type_open_ack, type_join, type_join_ack}
use rendr.Wire.Payload.Rel.{RelHead, parse_rel}
use rendr.Wire.Payload.Pack.{Rack}
use rendr.Common.Slots.{taken}

-- The payload of a REL that came out of order, and the number of its outer frame.
pub record RelHeld : Type 0 where
  pub bytes : List ℕ
  pub fseq : ℕ

abbrev pub rel_max_payload : ℕ
rel_max_payload = Const.rel_head_len + Const.open_ack_fixed_len + Const.max_msg

-- The receiver's part of relState, and the rest of the carrier.
pub record RelReceiver (S : Type 0) : Type 0 where
  pub cum : ℕ
  pub held_mask : ℕ
  pub rack_due : Bool
  pub held : List RelHeld
  pub rest : S
  pub dropped : ℕ

-- What a dispatch leaves: the rest of the carrier, the frames it dropped and counted, and whether
-- the reader continues.
pub record Dispatched (S : Type 0) : Type 0 where
  pub after : S
  pub drops : ℕ
  pub continues : Bool

abbrev pub nothing_held : RelHeld
nothing_held = record { bytes = []; fseq = 0 }

-- OPEN, OPEN_ACK, JOIN and JOIN_ACK.
unfoldable pub of_handshake : ℕ → Bool
of_handshake t = t == type_open || (t == type_open_ack || (t == type_join || t == type_join_ack))

unfoldable pub init_recv : {S : Type 0} → RelReceiver S → ℕ → RelReceiver S
init_recv r cum = record r { cum = cum; held_mask = 0; rack_due = false }

unfoldable pub rel_advance : {S : Type 0} → RelReceiver S → ℕ → RelReceiver S
rel_advance r cseq = record r {
  cum = cseq;
  held_mask = and_not r.held_mask (2 ^ (cseq % Const.rel_window));
  rack_due = true;
}

-- A REL beyond the next is kept, its payload cut to the slot.
unfoldable pub hold : {S : Type 0} → RelReceiver S → ℕ → List ℕ → ℕ → RelReceiver S
hold r cseq payload fseq = record r {
  held =
      set r.held (cseq % Const.rel_window)
        (record { bytes = take rel_max_payload payload; fseq = fseq });
  held_mask = bit_or r.held_mask (2 ^ (cseq % Const.rel_window));
  rack_due = true;
}

-- The loop of rackLocked: `n` rounds from `i` on.
unfoldable pub sack_bits : ℕ → ℕ → ℕ → ℕ → ℕ → ℕ
sack_bits mask cum sack i zero = sack
sack_bits mask cum sack i (suc n) =
    sack_bits mask cum
      (if taken mask ((cum + 2 + i) % 2 ^ 32 % Const.rel_window) then bit_or sack (2 ^ i) else sack)
      (i + 1) n

unfoldable pub rack : {S : Type 0} → RelReceiver S → Rack
rack r = record { cum_ack = r.cum; sack = sack_bits r.held_mask r.cum 0 0 (Const.rel_window - 1) }

module _ {S : Type 0} (mux : Bool) (closed : S → Bool)
    (dispatch : S → RelHead → List ℕ → ℕ → Dispatched S) where
  -- A dispatch, and the advance to `cseq` behind it.
  unfoldable pub dispatch_at : RelReceiver S → ℕ → RelHead → List ℕ → ℕ → RelReceiver S × Bool
  dispatch_at r cseq h inner fseq =
      let o = dispatch r.rest h inner fseq in
      let r' : RelReceiver S = record r { rest = o.after; dropped = r.dropped + o.drops } in
      if o.continues then (rel_advance r' cseq, true) else (r', false)

  -- One round of relOnRel's loop: the held successor.
  unfoldable pub dispatch_held : RelReceiver S → ℕ → RelReceiver S × Bool
  dispatch_held r next =
      let s = get_or r.held (next % Const.rel_window) nothing_held in
      elim (parse_rel s.bytes) [ ok x ↦ dispatch_at r next x.0 x.1 s.fseq | err e ↦ (r, false) ]

  -- The loop, on fuel.
  unfoldable pub drain : ℕ → RelReceiver S → RelReceiver S × Bool
  drain zero r = (r, true)
  drain (suc fuel) r =
      let next = (r.cum + 1) % 2 ^ 32 in
      let one = dispatch_held r next in
      let more = drain fuel one.0 in
      if closed r.rest || not (taken r.held_mask (next % Const.rel_window))
      then (r, true)
      else if one.1
      then more
      else one

  unfoldable pub dispatch_next : RelReceiver S → RelHead → List ℕ → ℕ → RelReceiver S × Bool
  dispatch_next r h inner fseq =
      let one = dispatch_at r h.cseq h inner fseq in
      if one.1 then drain Const.rel_window one.0 else one

  -- relOnRel behind ParseRel: `d` is the distance from the cumulative point, at most 0 as an
  -- int32 if it is 0 or has the top bit.
  unfoldable pub on_head : RelReceiver S → RelHead → List ℕ → List ℕ → ℕ → RelReceiver S × Bool
  on_head r h inner payload fseq =
      let d = (h.cseq + 2 ^ 32 - r.cum) % 2 ^ 32 in
      let old = d == 0 || leb (2 ^ 31) d in
      if old || (leb d Const.rel_window && leb 2 d && taken r.held_mask (h.cseq % Const.rel_window))
      then (record r { rack_due = true }, true)
      else if closed r.rest
      then (record r { dropped = r.dropped + 1 }, true)
      else if ltb Const.rel_window d
      then (r, false)
      else if of_handshake h.type && not mux
      then (r, false)
      else if leb 2 d
      then (hold r h.cseq payload fseq, true)
      else dispatch_next r h inner fseq

  unfoldable pub on_rel : RelReceiver S → List ℕ → ℕ → RelReceiver S × Bool
  on_rel r payload fseq = elim (parse_rel payload) [
    | ok x ↦ on_head r x.0 x.1 payload fseq
    | err e ↦ (r, false)
  ]
