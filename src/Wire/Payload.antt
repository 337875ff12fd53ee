-- ===== src/Wire/Payload.antt =====
-- The payloads of the core frames (internal/wire/payload.go, dgram.go, detach.go, down.go). A child
-- module has the record of one payload with its writer and its parser, and their theorems: what
-- the writer writes is read back, and what the parser accepts is valid and has no other encoding.
pub mod Tail
pub mod Ack
pub mod Open
pub mod OpenAck
pub mod Join
pub mod JoinAck
pub mod Data
pub mod Rst
pub mod Sched
pub mod Ping
pub mod Reason
pub mod Pack
pub mod Rel
pub mod Dgram
