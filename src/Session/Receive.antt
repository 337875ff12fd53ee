-- ===== src/Session/Receive.antt =====
-- One DATA frame at the receive path of a stream (internal/session/recv.go).
pub mod State
pub mod Place
pub mod Data
pub mod Loops
pub mod Queues
pub mod Merging
pub mod Taken
pub mod Kept
pub mod Moves
pub mod Placed
pub mod Pieces
pub mod Copied
pub mod Range
pub mod Reference
pub mod Compared
pub mod Shed
pub mod Settled
pub mod Reading
pub mod Charge
pub mod Bounded
pub mod Delivered
