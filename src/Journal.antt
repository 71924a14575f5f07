-- ===== src/Journal.antt =====
-- The journal package: append-only JSONL journals, one to a session.
pub mod Record
pub mod File
pub mod Paths
pub mod Envelope
pub mod Store
pub mod Events
pub mod Replay
