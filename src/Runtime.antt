-- ===== src/Runtime.antt =====
-- The runtime package: live sessions and the events that they deliver.
pub mod Coalesce
pub mod State
pub mod Configuration
pub mod Turns
pub mod Delivery
pub mod Sending
pub mod Queueing
pub mod Lifecycle
pub mod Restoring
pub mod Shutdown
pub mod Calls
pub mod Bounds
