-- ===== src/Carrier/Receiver/Dispatch.antt =====
-- What an in-order REL is dispatched to: relDispatch and relDispatchMux (internal/carrier/rel.go).
-- The trunk's handles, the session's endpoint and the trunk's DETACH and DOWN (mux.go, detach.go,
-- down.go) are the interface Upper over the carrier's other state.
use rendr.Common.{ℕ, ◌%◌, ◌^◌, Bool, true, false, not, List, ◌==◌, if◌then◌else◌, length, ok, err}
use rendr.Wire.Const
use rendr.Wire.FrameType.{type_close, type_go_away, type_detach, type_down}
use rendr.Wire.Frame.{Header}
use rendr.Wire.Payload.Reason.{parse_close, parse_go_away}
use rendr.Wire.Payload.Rel.{RelHead}
use rendr.Carrier.Receiver.{RelReceiver, Dispatched, on_rel}

-- muxAct.
pub data MuxAct : Type 0 where
  act_dispatch act_admit act_response act_ignore act_illegal : MuxAct

-- onDetach's two results: nothing to say, a frame to drop, or a violation.
pub data DetachAnswer : Type 0 where
  detach_done detach_dropped detach_violation : DetachAnswer

-- The operations of the rest of the carrier that relDispatch calls, over its state `U` and its
-- views `V`. A Bool result is that the call returned no error.
pub record Upper (U V : Type 0) : Type 0 where
  pub mux : Bool
  pub has_endpoint : Bool
  pub ring_views : U → U
  pub retire : U → ℕ → U
  pub retire_trunk : U → ℕ → U
  pub on_detach : U → List ℕ → U × DetachAnswer
  pub on_down : U → List ℕ → U × Bool
  pub control : U → Header → List ℕ → U × Bool
  pub classify : U → ℕ → ℕ → MuxAct × V
  pub admit : U → Header → List ℕ → U
  pub alive : U → Bool
  pub on_response : U → V → Header → List ℕ → U × Bool
  pub enter : U → V → U × Bool
  pub view_control : U → V → Header → List ℕ → U × Bool
  pub exit : U → V → U

-- The carrier's flags that CLOSE and GOAWAY set, and its other state.
pub record Flags (U : Type 0) : Type 0 where
  pub peer_closed : Bool
  pub peer_close_fseq : ℕ
  pub peer_close_reason : ℕ
  pub peer_close_cseq : ℕ
  pub peer_close_seen : Bool
  pub peer_go_away : Bool
  pub upper : U

module _ {U V : Type 0} (up : Upper U V) where
  abbrev goes_on : Flags U → Dispatched (Flags U)
  goes_on s = record { after = s; drops = 0; continues = true }

  abbrev drops_one : Flags U → Dispatched (Flags U)
  drops_one s = record { after = s; drops = 1; continues = true }

  abbrev violates : Flags U → Dispatched (Flags U)
  violates s = record { after = s; drops = 0; continues = false }

  -- A call whose error is a violation.
  abbrev called : Flags U → U × Bool → Dispatched (Flags U)
  called s r = record { after = record s { upper = r.0 }; drops = 0; continues = r.1 }

  -- The peer's CLOSE is recorded, and answered where there is no session to drain.
  unfoldable pub peer_close : Flags U → ℕ → ℕ → ℕ → Flags U
  peer_close s reason cseq fseq =
      let u = up.ring_views s.upper in
      record s {
        peer_closed = true;
        peer_close_fseq = fseq;
        peer_close_reason = reason;
        peer_close_cseq = cseq;
        peer_close_seen = true;
        upper =
            if not up.has_endpoint
            then up.retire u Const.close_retire
            else if up.mux
            then up.retire_trunk u Const.close_retire
            else u;
      }

  -- relDispatchMux, behind classify.
  unfoldable pub rel_dispatch_mux : Flags U → MuxAct → V → Header → List ℕ → Dispatched (Flags U)
  rel_dispatch_mux s act_admit v h inner =
      let u = up.admit s.upper h inner in called s (u, up.alive u)
  rel_dispatch_mux s act_response v h inner = called s (up.on_response s.upper v h inner)
  rel_dispatch_mux s act_dispatch v h inner =
      let (u, entered) = up.enter s.upper v in
      let (t, fine) = up.view_control u v h inner in
      if entered then called s (up.exit t v, fine) else called s (u, true)
  rel_dispatch_mux s act_illegal v h inner = drops_one s
  rel_dispatch_mux s act_ignore v h inner = goes_on s

  -- The cases of relDispatch behind those of the carrier: a session frame.
  unfoldable pub dispatch_session : Flags U → RelHead → List ℕ → ℕ → Dispatched (Flags U)
  dispatch_session s h inner fseq =
      let hdr : Header = record {
        type = h.type;
        flags = h.flags;
        len = length inner % 2 ^ 32;
        fseq = fseq;
        handle = h.handle;
      } in
      let act = up.classify s.upper h.type h.handle in
      if not up.has_endpoint
      then violates s
      else if up.mux
      then rel_dispatch_mux s act.0 act.1 hdr inner
      else if not (h.handle == 1)
      then violates s
      else called s (up.control s.upper hdr inner)

  unfoldable pub dispatch_detach : Flags U → U × DetachAnswer → Dispatched (Flags U)
  dispatch_detach s (u, detach_done) = goes_on (record s { upper = u })
  dispatch_detach s (u, detach_dropped) = drops_one (record s { upper = u })
  dispatch_detach s (u, detach_violation) = violates (record s { upper = u })

  unfoldable pub rel_dispatch : Flags U → RelHead → List ℕ → ℕ → Dispatched (Flags U)
  rel_dispatch s h inner fseq =
      if h.type == type_close
      then elim (parse_close inner) [
        | ok reason ↦ goes_on (peer_close s reason h.cseq fseq)
        | err e ↦ violates s
      ]
      else if h.type == type_go_away
      then elim (parse_go_away inner) [
        | ok reason ↦ goes_on (record s { peer_go_away = true; upper = up.ring_views s.upper })
        | err e ↦ violates s
      ]
      else if h.type == type_detach
      then dispatch_detach s (up.on_detach s.upper inner)
      else if h.type == type_down
      then called s (up.on_down s.upper inner)
      else dispatch_session s h inner fseq

  -- relOnRel of the carrier.
  unfoldable pub carrier_on_rel : RelReceiver (Flags U) → List ℕ → ℕ → RelReceiver (Flags U) × Bool
  carrier_on_rel r payload fseq = on_rel up.mux (λ s. s.peer_closed) rel_dispatch r payload fseq
