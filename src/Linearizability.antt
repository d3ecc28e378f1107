-- ===== src/Linearizability.antt =====
-- linearizability: the checker of histories, and the model of the key/value service.
pub mod Model
pub mod Bitset
pub mod Entries
pub mod Nodes
pub mod Checker
pub mod Sorted
pub mod Reordering
pub mod Operations
pub mod RealTime
pub mod Checks
pub mod KvModel
pub mod Partition
mod Tests
