-- ===== src/Lib.antt =====
-- A verification library for the Raft lab: the Raft peer of src/raft, and the services of
-- src/kvraft, src/shardmaster and src/shardkv that stand on it.
--
-- The program. A server of a service owns one Raft peer. It hands commands to `Start`, and the
-- peer sends what is committed to it on a channel as `ApplyMsg`s. Peers call AppendEntries,
-- RequestVote and InstallSnapshot of each other over labrpc, and keep their state in a
-- `Persister`.
--
-- The model. A peer is the record `Raft` (Raft/State), with the fields of the Go struct. What Go
-- does while it holds `rf.mu` is one function from state to state: the handlers whole, and of the
-- goroutines that send a message the part before the call and the part after the reply. `Event`
-- and `step` (Raft/Node) join them, so that an interleaving is a sequence of events. A panic of
-- Go, an index out of range, is the result `panic` of `Run` (Base/Outcome).
--
--   Base            numbers, lists with Go's indexing, Boolean tests, results that can panic
--   Raft/Persister  src/raft/persister.go
--   Raft/State      the struct Raft, Entries, ApplyMsg, and the index helpers of src/raft/raft.go
--   Raft/Role       persist, convertRoleTo, applyLogs
--   Raft/Vote       RequestVote
--   Raft/Append     AppendEntries
--   Raft/Election   leaderElection, and the election timer
--   Raft/Broadcast  broadcastEntries
--   Raft/Snapshot   TakeSnapshot, InstallSnapshot, sendSnapshot
--   Raft/Cluster    the peers together: elections, and their messages on the network
--   Raft/Node       Make, Start, Kill, readPersist, the loop of Make, and the steps of one peer
--   KvRaft/State    the struct KVServer of src/kvraft/server.go, requests, replies and channels
--   KvRaft/Server   Get, PutAppend, receiveNewMsg, closeCh, snapshots, StartKVServer
--   KvRaft/Clerk    src/kvraft/client.go
--   ShardMaster/State   src/shardmaster/common.go, and the structs and helpers of its server.go
--   ShardMaster/Assign  navieAssign
--   ShardMaster/Server  the commands that run applies, and the answer of Query
--   ShardMaster/Channels  executeOp, the handlers, run, closeCh, StartServer, Kill
--   ShardMaster/Clerk   src/shardmaster/client.go
--   ShardKv/State      the structs, requests and commands of src/shardkv/server.go and common.go
--   ShardKv/Apply      parseCfg, and what run does with a command
--   ShardKv/Server     executeOp, convertToLeader, Get, PutAppend, closeCh
--   ShardKv/Run        run, snapshots, StartServer, Kill
--   ShardKv/Migration  getCfg, checkCfg, PushShard, broadShard, sendShard
--   ShardKv/Events     the steps of a server, and the states that it can come to
--   ShardKv/Clerk      src/shardkv/client.go
--   the other files of Raft, KvRaft, ShardMaster and ShardKv: theorems, and Tests with the
--     concrete states
--
-- A cluster is a list of peers, the calls of leaderElection that run, and the replies that are on
-- the network; `Move` (Raft/Cluster) is one step of it.
--
-- A KVServer is the record `KvServer` with its peer inside. Its handlers wait for the loop
-- receiveNewMsg on unbuffered channels; a channel is modelled with what its handler does, so that
-- a send that nobody receives, with the lock held, is the result `blocked`. The channels of a
-- ShardKV have room for one message, and a channel is modelled with its content.
--
-- A ShardKV is the record `ShardKv`. executeOp gives up the lock while it waits, and
-- convertToLeader calls it in between, so each of them is in parts, and `Event` and `step`
-- (ShardKv/Events) take the parts in any order. The clerks of a group's configuration come from
-- the shardmaster's Config (ShardMaster/State). What a call of another server, or of the
-- shardmaster, gives back is an argument of the part that comes after the call.
--
-- Choices. Go's maps are lists of pairs (Base/Maps), sets of shards are lists (Base/Sets), and
-- strings are the native texts. Terms, votes and the conflict hints of a reply are integers,
-- since -1 occurs; log indices are natural, so a subtraction stops at 0 where Go goes below:
-- getLastLogIndex of an empty log, which the invariant excludes, is lastIncludedIndex here and
-- one less in Go. Go's 64-bit numbers are not bounded here: no log or term comes near 2 ^ 63.
-- Every loop is structural: on the entries, on the number of entries left to deliver, or on the
-- log position that goes down. Only the first loop of navieAssign, over the groups with too many
-- shards, has fuel, one more than the number of all shards of the groups: each round takes one
-- shard. A channel of capacity 1 that dropAndSet fills is a Boolean; applyCh is the list of what
-- was sent. The encoding of encoding/gob is the parameter `Codec`: what is encoded is decoded, to
-- at least one byte. A stored byte slice is a list over an abstract type.
--
-- What the model leaves out. The Entries of a request share their array with the leader's log in
-- Go; here they are a copy, as they are after the call has encoded them. Timers, logging and the
-- code of the network are not modelled: a reply may come at any time, or never; the loops of a
-- clerk run over a list of the outcomes of its calls, and those of a clerk of shardkv over rounds
-- of them. readPersist leaves the state alone when decoding fails, as in Go. The test harnesses,
-- labrpc and labgob are not modelled, nor is linearizability, which the tests use and which is a
-- copy of the library Porcupine.
pub mod Base
pub mod Raft
pub mod KvRaft
pub mod ShardMaster
pub mod ShardKv
