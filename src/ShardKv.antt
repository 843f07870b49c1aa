-- ===== src/ShardKv.antt =====
-- The sharded key/value service of src/shardkv.
pub mod State
pub mod Apply
pub mod Counting
pub mod Server
pub mod Run
pub mod Migration
pub mod Clerk
mod Writes
mod Tests
pub mod Invariant
pub mod Settled
pub mod Handoff
pub mod Calls
pub mod Faults
pub mod Events
pub mod Channels
pub mod Restore
pub mod Replicas
pub mod Once
