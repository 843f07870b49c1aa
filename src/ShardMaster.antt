-- ===== src/ShardMaster.antt =====
-- The service of src/shardmaster, which numbers configurations and spreads shards over groups.
pub mod State
pub mod Assign
pub mod Server
pub mod Channels
pub mod Clerk
pub mod History
pub mod Lost
mod Tests
