-- ===== src/ShardKv/Migration.antt =====
-- src/shardkv/server.go: getCfg and checkCfg, and the migration of shards by sendShard and
-- PushShard.
use Prim.Native.String.{String}
use mit_raft.Base.{
  ℕ, ◌+◌, Bool, true, false, not, ◌&&◌, ◌||◌, ℤ, pos, ◌==ℤ◌, List, [], Option, none, some,
  get_elem?, ltb, leb, if◌then◌else◌, find, nat_key, int_key, string_key, Run, ok, ◌>>=◌, or_panic,
}
use mit_raft.ShardMaster.State.{Config}
use mit_raft.ShardKv.State.{
  Op, PushShardArgs, PushShardReply, ShardKv, inner, have_shard, shard_in_db, config_op,
}
use mit_raft.ShardKv.Apply.{copy_map}
use mit_raft.ShardKv.Server.{broad_shard}

-- A round of sendShard before the calls: the goroutine returns, or sleeps, or calls the servers of
-- the list in turn.
pub data Sending : Type 0 where
  stops sleeps : Sending
  offers : PushShardArgs → List String → Sending

-- What it does after a call: it returns, executes a newSend, or calls the next server.
pub data Pushed : Type 0 where
  returns confirms next_server : Pushed

-- `ok && reply.WrongLeader == false`
abbrev pub push_accepted : Option PushShardReply → Bool
push_accepted none = false
push_accepted (some r) = not r.wrong_leader

-- With the result of the newSend command: whether the goroutine returns.
unfoldable pub send_done : Bool × Bool → Bool
send_done (wrong_leader, wrong_group) =
    if wrong_leader then true else not wrong_leader && not wrong_group

-- The end of PushShard, with the result of executeOp.
unfoldable pub push_shard_finish : Bool × Bool → PushShardReply
push_shard_finish (wrong_leader, wrong_group) =
    if not wrong_leader && not wrong_group
    then record { wrong_leader = false }
    else record { wrong_leader = true }

module _ {B : Type 0} where
  -- The configuration that getCfg asks the shardmaster for.
  unfoldable pub query_num : ShardKv B → ℤ
  query_num kv = pos (kv.cfg.num + 1)

  -- A round of getCfg with the shardmaster's answer: the command to execute, or the end.
  unfoldable pub get_cfg : Config → ShardKv B → Option Op
  get_cfg cfg kv = if not kv.leader || leb cfg.num kv.cfg.num then none else some (config_op cfg)

  -- After the command: the goroutines to start at the end, or another round.
  unfoldable pub get_cfg_done : Bool × Bool → ShardKv B → Option (List (ℕ × ℕ))
  unfolding broad_shard
  get_cfg_done (wrong_leader, wrong_group) kv =
      if not wrong_leader && not wrong_group then some (broad_shard kv) else none

  -- A round of checkCfg after convertToLeader: whether it calls getCfg.
  unfoldable pub check_cfg : ShardKv B → Bool
  check_cfg kv = kv.leader && kv.wait_until_move_done ==ℤ pos 0

  -- PushShard up to executeOp: the reply, if it replies here.
  unfoldable pub push_shard : PushShardArgs → ShardKv B → Option PushShardReply
  push_shard args kv =
      if kv.leader && ltb args.cfg_num kv.cfg.num
      then some (record { wrong_leader = false })
      else if not kv.leader || ltb kv.cfg.num args.cfg_num || not (have_shard args.shard kv)
      then some (record { wrong_leader = true })
      else if shard_in_db args.shard kv
      then some (record { wrong_leader = false })
      else none

  unfoldable pub push_args : ℕ → ℕ → ShardKv B → PushShardArgs
  push_args shard cfg kv = record {
    cfg_num = cfg;
    shard = shard;
    shard_db = copy_map (inner shard kv.kv_db) [];
    clerk_log = copy_map (inner shard kv.clerk_log) [];
    gid = kv.gid;
  }

  unfoldable pub send_shard : ℕ → ℕ → ShardKv B → Run Sending
  unfolding push_args
  send_shard shard cfg kv =
      if not kv.leader || not (shard_in_db shard kv) || ltb cfg kv.cfg.num then ok stops else (do
        gid ← or_panic (get_elem? kv.cfg.shards shard)
        ok (elim (find gid kv.cfg.groups) [
          | none ↦ sleeps
          | some servers ↦ offers (push_args shard cfg kv) servers
        ]))

  unfoldable pub after_push : Option PushShardReply → ShardKv B → Pushed
  after_push answer kv =
      if not kv.leader then returns else if push_accepted answer then confirms else next_server
