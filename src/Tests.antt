-- ===== src/Tests.antt =====
-- Concrete runs, and the theorems at concrete inputs.
mod Codec
mod Replays
mod Journals
mod Sessions
mod Streams
mod Events
mod Runtimes
mod Recoveries
