-- ===== src/Shards.antt =====
-- shardmaster and shardkv: the clerks, and what the servers have of their parts.
pub mod Master
pub mod Groups
pub mod Routing
mod Tests
