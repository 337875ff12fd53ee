-- ===== src/Carrier.antt =====
-- The reliable control sublayer of a datagram carrier (internal/carrier/rel.go).
pub mod Receiver
pub mod Sender
pub mod Pair
