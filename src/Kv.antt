-- ===== src/Kv.antt =====
-- kvraft: the key/value service on top of Raft, and its clerk.
pub mod Types
pub mod Server
pub mod Waiting
pub mod Clerk
pub mod ExactlyOnce
pub mod Replicas
pub mod Notices
pub mod Transfer
pub mod Retries
pub mod Waits
pub mod Channels
pub mod Waiters
mod Tests
