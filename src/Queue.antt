-- ===== src/Queue.antt =====
-- src/ai/aimanager.go: the background work on the queue of tasks.
pub mod Startup
pub mod Settled
pub mod Orphans
pub mod Pass
pub mod Run
pub mod Started
pub mod Retries
pub mod Ended
mod Examples
