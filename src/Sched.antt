-- ===== src/Sched.antt =====
-- The scheduler's pure decisions (internal/sched).
pub mod Insertion
pub mod Rank
pub mod Lanes
pub mod Rto
pub mod Cadence
pub mod Evidence
pub mod Group
pub mod Race
