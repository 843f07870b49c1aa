-- ===== src/Raft.antt =====
-- The Raft peer of src/raft: one module for the state, one for each handler, and `Node`, which
-- joins them into the steps that one peer can take.
pub mod Persister
pub mod State
pub mod Role
pub mod Vote
pub mod Append
pub mod Election
pub mod Broadcast
pub mod Snapshot
pub mod Node
pub mod Deliver
pub mod Durable
pub mod Invariant
pub mod Ballot
pub mod Cluster
pub mod Faults
pub mod Replication
pub mod Delivery
pub mod Recovery
mod Tests
