-- ===== src/KvRaft.antt =====
-- The key/value service of src/kvraft, on one Raft peer.
pub mod State
pub mod Server
pub mod Clerk
pub mod Once
pub mod Channels
mod Tests
