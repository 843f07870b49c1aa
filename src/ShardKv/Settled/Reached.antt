-- ===== src/ShardKv/Settled/Reached.antt =====
-- src/shardkv/server.go: waitUntilMoveDone in the servers that can come about.
use mit_raft.Base.{ℕ, ◌≡◌, ◌≢◌, ◌↔◌, pos}
use mit_raft.Raft.Persister.{Codec}
use mit_raft.Raft.Role.{Saved}
use mit_raft.ShardKv.State.{Op, Snapshot, ShardKv}
use mit_raft.ShardKv.Events.{Reach}
use mit_raft.ShardKv.Events.Reachable.{Reach-Ready}
use mit_raft.ShardKv.Settled.{Settled, zero-Settled, Settled-zero}

module _ {B : Type 0} ⦃gob : Codec (Saved Op) B⦄ ⦃snap : Codec Snapshot B⦄ where
  -- In a group whose number is not 0, in every server that can come about, from a new server or a
  -- restart with a snapshot of such a server, by any events, by commands with consecutive indices
  -- and by snapshots of such servers, waitUntilMoveDone is 0 exactly when the shards in the
  -- database are the shards that the group has been given.
  pub Reach-Settled :
      (g n : ℕ) (kv : ShardKv B)
      → g ≢ 0
      → Reach g n kv
      → (kv.wait_until_move_done ≡ pos 0) ↔ Settled kv
  Reach-Settled g n kv nonzero reach =
      let inv = (Reach-Ready g n kv nonzero reach).0 in (zero-Settled kv inv, Settled-zero kv inv)
