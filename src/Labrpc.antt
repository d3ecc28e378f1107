-- ===== src/Labrpc.antt =====
-- labrpc: the simulated network, its servers, and the way of a request through them.
pub mod Bytes
pub mod Server
pub mod Network
pub mod Delivery
pub mod Paths
pub mod Replies
pub mod Times
pub mod Changes
pub mod Calls
mod Tests
