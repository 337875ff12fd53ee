-- ===== src/Carrier/Sender.antt =====
-- The sender of the reliable control sublayer: relState's sender, relSealLocked,
-- relRetxDueLocked, dgRetxLocked, relAttemptedLocked, relWakeLocked and relOnRack
-- (internal/carrier/rel.go, dgwrite.go, batch_dgram.go). A time is a number of nanoseconds, and
-- `none` is the zero time.Time.
pub mod Window
use rendr.Common.{
  ℕ, zero, suc, ◌+◌, ◌-◌, ◌%◌, ◌^◌, bit_and, Bool, true, false, not, ◌&&◌, ◌||◌, Option, none, some,
  List, [], ◌∷◌, ◌++◌, ltb, leb, ◌==◌, if◌then◌else◌, get_or, take, drop, set, byte, put_uint32, ok,
  err,
}
use rendr.Common.Int.{ℤ, pos, negsuc, positive, pos_part}
use rendr.Wire.Const
use rendr.Wire.FrameType.{type_down}
use rendr.Wire.Frame.{seq_less}
use rendr.Wire.Payload.Pack.{Rack, parse_rack}
use rendr.Sched.Rto.{rto_backoff_within}
use rendr.Carrier.Receiver.{rel_max_payload, of_handshake}

-- The sender's part of relState.
pub record RelSender : Type 0 where
  pub next : ℕ
  pub una : ℕ
  pub slot : List (List ℕ)
  pub backoff : ℕ
  pub due : Option ℕ
  pub blocked : Bool
  pub round : ℕ
  pub sealed : List ℕ
  pub retx : Bool
  pub retx_cseq : ℕ
  pub retx_rnd : ℕ
  pub first_at : ℕ

unfoldable pub init_send : RelSender → ℕ → RelSender
init_send s next = record s {
  next = next;
  una = next;
  backoff = 0;
  due = none;
  blocked = false;
  retx = false;
}

-- `wire.RelWindow - int(r.next-r.una)`.
unfoldable pub room : RelSender → ℤ
room s =
    let out = (s.next + 2 ^ 32 - s.una) % 2 ^ 32 in
    if leb out Const.rel_window
    then pos (Const.rel_window - out)
    else negsuc (out - Const.rel_window - 1)

abbrev pub rel_first_keep : ℕ
rel_first_keep = 2

unfoldable pub rel_first : ℕ → Bool
rel_first t = of_handshake t

unfoldable pub rel_keeps : ℕ → Bool
rel_keeps t = not (t == type_down) && not (rel_first t)

-- `now - firstAt >= rto`, with the terms on the sides that keep them natural.
unfoldable pub rel_keep : RelSender → ℕ → ℕ → ℕ
rel_keep s rto now = if s.first_at == 0 || leb (s.first_at + rto) now then 0 else rel_first_keep

-- RelRoom: 0 on a dead carrier and behind our CLOSE.
unfoldable pub rel_room : RelSender → Bool → Bool → ℕ → ℕ → ℕ
rel_room s dead close_sent rto now =
    if dead || close_sent then 0 else pos_part (room s) - rel_keep s rto now

-- addReliable's test, on the room and the kept room that SetDatagram gave the round, behind `nrel`
-- frames of it.
unfoldable pub may_reserve : ℕ → ℕ → ℕ → ℕ → Bool
may_reserve rel_room rel_keep nrel t = ltb (nrel + (if rel_keeps t then rel_keep else 0)) rel_room

unfoldable pub outstanding : RelSender → Bool
outstanding s = not (s.una == s.next)

-- relPayload writes the cseq over the first four bytes.
unfoldable pub rel_payload : List ℕ → ℕ → List ℕ
rel_payload p cseq = put_uint32 cseq ++ drop 4 p

-- One round of relSealLocked's loop.
unfoldable pub seal_one : ℕ → RelSender → List ℕ → RelSender
seal_one now s p =
    let q = rel_payload p s.next in
    record s {
      slot = set s.slot (s.next % Const.rel_window) (take rel_max_payload q);
      sealed = set s.sealed (s.next % Const.rel_window) s.round;
      next = (s.next + 1) % 2 ^ 32;
      first_at = if rel_first (byte q 4) then now else s.first_at;
    }

unfoldable pub rel_seal : ℕ → RelSender → List (List ℕ) → RelSender
rel_seal now s [] = s
rel_seal now s (p ∷ rest) = rel_seal now (seal_one now s p) rest

abbrev pub reached : Option ℕ → ℕ → Bool
reached none now = false
reached (some t) now = leb t now

unfoldable pub rel_retx_due : RelSender → ℕ → Bool
rel_retx_due s now = outstanding s && reached s.due now

-- What dgRetxLocked puts into the round: the payload of una, and its cseq.
unfoldable pub retransmission : RelSender → ℕ → Option (List ℕ × ℕ)
retransmission s now =
    if rel_retx_due s now then some (get_or s.slot (s.una % Const.rel_window) [], s.una) else none

abbrev pub is_none : Option ℕ → Bool
is_none none = true
is_none (some t) = false

abbrev pub names : Option ℕ → ℕ → Bool
names none c = false
names (some d) c = c == d

-- relAttemptedLocked: `retx` is the cseq that the round retransmitted. The timeout is the carrier's,
-- within the largest it backs off to.
unfoldable pub rel_attempted : RelSender → Option ℕ → ℕ → ℕ → ℕ → RelSender
rel_attempted s retx rto rto_max at =
    let s' : RelSender = record s { round = (s.round + 1) % 2 ^ 32 } in
    let again = names retx s.una in
    let backed_off = pos_part (rto_backoff_within (pos rto) (pos (s.backoff + 1)) rto_max) in
    if not (outstanding s)
    then record s' { due = none; backoff = 0; retx = false }
    else if again
    then record s' {
      backoff = s.backoff + 1;
      due = some (at + backed_off);
      retx = true;
      retx_cseq = s.una;
      retx_rnd = get_or s.sealed (s.una % Const.rel_window) 0;
    }
    else if is_none s.due
    then record s' { due = some (at + rto) }
    else s'

unfoldable pub rel_wake : RelSender → Option ℕ
rel_wake s = if outstanding s then s.due else none

-- The loop over the sack bits of relOnRack, `n` rounds from `i` on: every bit that is set names a
-- cseq that was sent.
unfoldable pub sack_sent : ℕ → ℕ → ℕ → ℕ → ℕ → Bool
sack_sent next cum_ack sack i zero = true
sack_sent next cum_ack sack i (suc n) =
    if not (bit_and sack (2 ^ i) == 0) && not (seq_less ((cum_ack + 2 + i) % 2 ^ 32) next)
    then false
    else sack_sent next cum_ack sack (i + 1) n

abbrev pub sooner : ℕ → Option ℕ → Bool
sooner due none = true
sooner due (some old) = ltb due old

-- A RACK with progress: the new una, its timer and the writer's wake.
unfoldable pub rack_progress : RelSender → ℕ → ℕ → ℕ → RelSender × Bool
rack_progress s cum_ack rto now =
    let una = (cum_ack + 1) % 2 ^ 32 in
    let implied = s.retx && not (seq_less cum_ack s.retx_cseq) in
    let s' : RelSender = record s {
      una = una;
      backoff = 0;
      retx = if implied then false else s.retx;
    } in
    let due =
      (if implied && get_or s.sealed (una % Const.rel_window) 0 == s.retx_rnd
        then now
        else now + rto) in
    let s'' : RelSender =
      (if outstanding s' then record s' { due = some due } else record s' { due = none }) in
    let earlier = outstanding s' && sooner due s.due in
    let free = s.blocked && positive (room s'') in
    if free then (record s'' { blocked = false }, true) else (s'', earlier)

-- What relOnRack makes of a RACK: a violation, or the new state, whether the writer wakes and
-- whether the RACK made progress.
pub data RackAnswer : Type 0 where
  rack_violation : RackAnswer
  rack_taken : (s : RelSender) (wake progress : Bool) → RackAnswer

unfoldable pub on_rack_fields : RelSender → Rack → ℕ → ℕ → RackAnswer
on_rack_fields s rk rto now =
    let r = rack_progress s rk.cum_ack rto now in
    if seq_less ((s.next + 2 ^ 32 - 1) % 2 ^ 32) rk.cum_ack
    then rack_violation
    else if not (sack_sent s.next rk.cum_ack rk.sack 0 (Const.rel_window - 1))
    then rack_violation
    else if seq_less rk.cum_ack s.una
    then rack_taken s false false
    else rack_taken r.0 r.1 true

unfoldable pub on_rack : RelSender → List ℕ → ℕ → ℕ → RackAnswer
on_rack s p rto now = elim (parse_rack p) [
  | ok rk ↦ on_rack_fields s rk rto now
  | err e ↦ rack_violation
]
