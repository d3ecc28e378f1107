-- ===== src/MapReduce.antt =====
-- mapreduce and main/wc.go: the MapReduce library and its word count.
pub mod Types
pub mod Host
pub mod Tasks
pub mod Master
pub mod Worker
pub mod WordCount
pub mod Names
pub mod Partition
pub mod Grouping
pub mod Scheduling
pub mod Counting
mod Samples
mod Tests
