-- ===== src/Session.antt =====
-- The stream receive path of a session (internal/session).
pub mod Segments
pub mod Receive
