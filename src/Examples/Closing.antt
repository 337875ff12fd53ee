-- ===== src/Examples/Closing.antt =====
-- The peer's CLOSE on a carrier.
use rendr.Common.{ℕ, ◌+◌, refl, true, false, [], ◌∷◌, ◌++◌, replicate}
use rendr.Wire.FrameType.{type_close}
use rendr.Wire.Payload.Rel.{RelHead, layout_rel_head}
use rendr.Carrier.Receiver.{RelReceiver, nothing_held}
use rendr.Carrier.Receiver.Dispatch.{Upper, Flags, act_ignore, detach_done, rel_dispatch}
use rendr.Carrier.Receiver.Closed.{Same, takes_all, takes_all-Same}

-- A dedicated carrier over a session that counts the control frames it is handed.
abbrev pub counting : Upper ℕ ℕ
counting = record {
  mux = false;
  has_endpoint = true;
  ring_views = λ u. u;
  retire = λ u reason. u;
  retire_trunk = λ u reason. u;
  on_detach = λ u p. (u, detach_done);
  on_down = λ u p. (u, true);
  control = λ u h p. (u + 1, true);
  classify = λ u t h. (act_ignore, 0);
  admit = λ u h p. u;
  alive = λ u. true;
  on_response = λ u v h p. (u, true);
  enter = λ u v. (u, true);
  view_control = λ u v h p. (u, true);
  exit = λ u v. u;
}

abbrev pub flags : Flags ℕ
flags = record {
  peer_closed = false;
  peer_close_fseq = 0;
  peer_close_reason = 0;
  peer_close_cseq = 0;
  peer_close_seen = false;
  peer_go_away = false;
  upper = 4;
}

-- The REL behind the next is held.
abbrev waiting : RelReceiver (Flags ℕ)
waiting = record {
  cum = 5;
  held_mask = 128;
  rack_due = false;
  held = replicate 8 nothing_held;
  rest = flags;
  dropped = 0;
}

abbrev closing : RelHead
closing = record { cseq = 6; type = type_close; flags = 0; handle = 0 }

abbrev closed_flags : Flags ℕ
closed_flags = record flags { peer_closed = true }

abbrev left : RelReceiver (Flags ℕ)
left = record waiting { rest = closed_flags }

takes_all-Same_example :
    Same left
      (takes_all false
        (λ s. s.peer_closed)
        (rel_dispatch counting)
        left
        ((layout_rel_head closing ++ 1 ∷ [], 78) ∷ (1 ∷ 2 ∷ [], 79) ∷ [])).0
takes_all-Same_example =
    takes_all-Same false (λ s. s.peer_closed) (rel_dispatch counting) left
      ((layout_rel_head closing ++ 1 ∷ [], 78) ∷ (1 ∷ 2 ∷ [], 79) ∷ []) refl
