-- ===== src/Raft.antt =====
-- One Raft peer (raft/raft.go) and its stable storage (raft/persister.go).
pub mod Persister
pub mod Types
pub mod Log
pub mod Storage
pub mod Roles
pub mod Vote
pub mod Append
pub mod Heartbeat
pub mod Snapshot
pub mod Lifecycle
pub mod Steps
pub mod Frame
pub mod Ballot
pub mod Agreement
mod Samples
mod Tests
