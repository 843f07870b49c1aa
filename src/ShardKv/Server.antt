-- ===== src/ShardKv/Server.antt =====
-- src/shardkv/server.go: executeOp, convertToLeader and the handlers Get and PutAppend. A goroutine is in parts, one for each holding of the lock: what it does before
-- Start, after Start, and when a message or the timeout has come.
use mit_raft.Base.{
  ℕ, Bool, true, false, not, ◌&&◌, ◌||◌, ◌==ℤ◌, List, [], Option, none, some, map, set, get_elem?,
  ◌==◌, if◌then◌else◌, find, delete, nat_key, string_key, same_text, Run, ok, panic,
}
use mit_raft.Raft.State.{get_state}
use mit_raft.ShardKv.State.{
  Kind, request, new_config, new_shard, new_send, new_leader, Op, GetArgs, GetReply, PutAppendArgs,
  PutAppendReply, put, append, no_config, no_shards, no_error, err_no_key, err_wrong_group, MsgInCh,
  Chan, ShardKv, inner, have_shard, shard_in_db, executed, open_ch,
}
use mit_raft.ShardKv.Apply.{parse_cfg}

-- What executeOp gets from its `select`: the timeout, a message, or the zero value of a closed
-- channel.
pub data Heard : Type 0 where
  timeout zero_value : Heard
  message : MsgInCh → Heard

abbrev pub kind_number : Kind → ℕ
kind_number request = 0
kind_number new_config = 1
kind_number new_shard = 2
kind_number new_send = 3
kind_number new_leader = 4

abbrev pub same_kind : Kind → Kind → Bool
same_kind a b = kind_number a == kind_number b

unfoldable pub equal : Op → Op → Bool
equal begin done =
    same_kind begin.kind done.kind
    && begin.shard == done.shard
    && begin.clerk ==ℤ done.clerk
    && begin.cmd_index ==ℤ done.cmd_index

-- `if args.Op == "Put" { op = putOp } else { op = appendOp }`
abbrev pub put_append_op : PutAppendArgs → Op
put_append_op args = record {
  kind = request;
  shard = args.shard;
  operation = if same_text args.op "Put" then put else append;
  key = args.key;
  value = args.value;
  clerk = args.clerk;
  cmd_index = args.cmd_index;
  new_config = no_config;
  new_shards = no_shards;
}

-- The end of executeOp: wrongLeader and wrongGroup.
unfoldable pub finish : Op → Heard → Bool × Bool
unfolding equal
finish op timeout = (true, false)
finish op zero_value = (false, true)
finish op (message res) =
    if not res.is_ok
    then (false, true)
    else if not (equal res.op op)
    then (true, false)
    else (false, false)

unfoldable pub put_append_finish : Bool × Bool → PutAppendReply
put_append_finish (wrong_leader, wrong_group) = record {
  wrong_leader = wrong_leader;
  err = if wrong_group then err_wrong_group else no_error;
}

module _ {B : Type 0} where
  -- executeOp up to Start: what it returns, if it returns here.
  unfoldable pub early : Op → ShardKv B → Option (Bool × Bool)
  early op kv =
      if same_kind op.kind request && kv.leader
      then (if not (have_shard op.shard kv) || not (shard_in_db op.shard kv)
          then some (true, true)
          else if executed op kv
          then some (false, false)
          else none)
      else none

  -- The first part of convertToLeader; the flag says that it goes on to execute a newLeader.
  unfoldable pub convert_to_leader : Bool → ShardKv B → Bool × ShardKv B
  convert_to_leader is_leader kv = (is_leader && not kv.leader, record kv { leader = is_leader })

  -- broadShard: the arguments of the goroutines sendShard.
  unfoldable pub broad_shard : ShardKv B → List (ℕ × ℕ)
  broad_shard kv = map (λ shard. (shard, kv.cfg.num)) kv.shard_to_send

  -- The second part, with the result of the newLeader command.
  unfoldable pub new_leader_done : Bool × Bool → ShardKv B → List (ℕ × ℕ) × ShardKv B
  unfolding broad_shard
  new_leader_done (wrong_leader, wrong_group) kv =
      if wrong_leader || wrong_group
      then ([], record kv { leader = false })
      else (broad_shard (parse_cfg kv), parse_cfg kv)

  -- executeOp after Start and convertToLeader; `none` if it returns (true, false) here.
  unfoldable pub register : ℕ → Bool → ShardKv B → Option ℕ × ShardKv B
  register index is_leader kv =
      if not is_leader then (none, kv) else let (ch, kv') = open_ch index kv in (some ch, kv')

  -- `case res := <-ch`, if it can be taken
  unfoldable pub receive : ℕ → ShardKv B → Option Heard × ShardKv B
  receive ch kv = elim (get_elem? kv.chans ch) [
    | some (Chan.holding m) ↦ (some (message m), record kv { chans = set kv.chans ch Chan.vacant })
    | some Chan.closed ↦ (some zero_value, kv)
    | _ ↦ (none, kv)
  ]

  -- To close a nil channel, or a closed one, is a panic.
  unfoldable pub close_ch : ℕ → ShardKv B → Run (ShardKv B)
  close_ch index kv = elim (find index kv.msg_ch) [
    | none ↦ panic
    | some ch ↦ elim (get_elem? kv.chans ch) [
      | none ↦ panic
      | some Chan.closed ↦ panic
      | some _ ↦
          ok (record kv { msg_ch = delete index kv.msg_ch; chans = set kv.chans ch Chan.closed })
    ]
  ]

  -- The end of Get, with the result of executeOp.
  unfoldable pub get_finish : GetArgs → Bool × Bool → ShardKv B → GetReply
  get_finish args (wrong_leader, wrong_group) kv =
      if wrong_group
      then record { wrong_leader = wrong_leader; err = err_wrong_group; value = "" }
      else if wrong_leader
      then record { wrong_leader = wrong_leader; err = ""; value = "" }
      else elim (find args.key (inner args.shard kv.kv_db)) [
        | some v ↦ record { wrong_leader = wrong_leader; err = no_error; value = v }
        | none ↦ record { wrong_leader = wrong_leader; err = err_no_key; value = "" }
      ]

  unfoldable pub check_leader : ShardKv B → Bool
  check_leader kv = (get_state kv.rf).1
