-- ===== src/Session/Receive/State.antt =====
-- The receive side of a stream (type stream of internal/session/state.go), what one DATA frame is
-- answered with, and recvLimit (internal/session/recv.go, early_recv.go). Release of a buffer is its
-- capacity taken off `ooo_cap`.
use rendr.Common.{ℕ, ◌*◌, Bool, Option, List, if◌then◌else◌}
use rendr.Session.Segments.{Seg}

-- The fields of the receive side of a stream.
pub record Recv : Type 0 where
  pub r_read : ℕ
  pub r_tail : ℕ
  pub right_edge : ℕ
  pub inq : List Seg
  pub ooq : List Seg
  pub ooo_cap : ℕ
  pub ooo_dropped : ℕ
  pub rx_bytes : ℕ
  pub peer_fin : Option ℕ
  pub delivered : ℕ
  pub discard : Bool
  pub discarded_after_close : Bool
  pub r_copying : Bool
  pub r_free_pending : Bool
  pub r_waiting : Bool
  pub ack_on_data : Bool

-- The buffer of a frame: the capacity of it, and that of the payload's slice of it.
pub record Buf : Type 0 where
  pub capacity : ℕ
  pub span : ℕ

pub data Violation : Type 0 where
  data_length : Violation
  beyond_window : Violation
  data_beyond_fin : Violation
  conflict : Violation
  race_mismatch : Violation

-- Bytes held before (a whole frame of them, or a part of one); a wake of the actor or the reader;
-- an urgent ACK; bytes consumed, which run the ACK cadence and the check of the peer's FIN.
pub data Signal : Type 0 where
  race_dup : ℕ → Bool → Signal
  ring_actor : Signal
  wake_reader : Signal
  bump_now : Signal
  consumed : ℕ → Signal

pub record Received : Type 0 where
  pub error : Option Violation
  pub next : Recv
  pub signals : List Signal

abbrev pub conflict_err : Bool → Violation
conflict_err race = if race then race_mismatch else conflict

abbrev pub early_recv_limit : ℕ
early_recv_limit = 2 * 65536

unfoldable pub recv_limit : Bool → ℕ → ℕ
recv_limit pending window = if pending then early_recv_limit else 2 * window
