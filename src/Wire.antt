-- ===== src/Wire.antt =====
-- The wire codec (internal/wire): one module for each of its files, and for each family of payloads.
pub mod Const
pub mod FrameType
pub mod Errors
pub mod Payload
pub mod Checksum
pub mod Frame
pub mod Preface
pub mod Window
