-- ===== src/ShardKv/State.antt =====
-- src/shardkv/server.go and common.go: the state of a ShardKV, its commands, requests and channels.
use Prim.Native.String.{String}
use mit_raft.Base.{
  ℕ, Bool, false, ℤ, pos, minus_one, List, [], ◌∷◌, ◌++◌, Option, none, some, replicate, length,
  leb_ℤ, find, insert, present, member, nat_key, int_key,
}
use mit_raft.Raft.State.{Raft}
use mit_raft.ShardMaster.State.{Config, n_shards}

-- `Op.Type`
pub data Kind : Type 0 where
  request new_config new_shard new_send new_leader : Kind

-- `Op.Operation`; `nothing` is the empty text.
pub data Method : Type 0 where
  put append get nothing : Method

pub record NewShards : Type 0 where
  pub shard_db : List (String × String)
  pub clerk_log : List (ℤ × ℤ)

-- `new_config` is the configuration inside the struct NewConfig, its only field.
pub record Op : Type 0 where
  pub kind : Kind
  pub shard : ℕ
  pub operation : Method
  pub key : String
  pub value : String
  pub clerk : ℤ
  pub cmd_index : ℤ
  pub new_config : Config
  pub new_shards : NewShards

-- `NewConfig{}` and `NewShards{}`
abbrev pub no_config : Config
no_config = record { num = 0; shards = replicate n_shards 0; groups = [] }

abbrev pub no_shards : NewShards
no_shards = record { shard_db = []; clerk_log = [] }

pub record PutAppendArgs : Type 0 where
  pub key : String
  pub value : String
  pub op : String
  pub clerk : ℤ
  pub cmd_index : ℤ
  pub shard : ℕ

pub record PutAppendReply : Type 0 where
  pub wrong_leader : Bool
  pub err : String

pub record GetArgs : Type 0 where
  pub key : String
  pub clerk : ℤ
  pub cmd_index : ℤ
  pub shard : ℕ

pub record GetReply : Type 0 where
  pub wrong_leader : Bool
  pub err : String
  pub value : String

pub record PushShardArgs : Type 0 where
  pub cfg_num : ℕ
  pub shard : ℕ
  pub shard_db : List (String × String)
  pub clerk_log : List (ℤ × ℤ)
  pub gid : ℕ

pub record PushShardReply : Type 0 where
  pub wrong_leader : Bool

abbrev pub no_error : String
no_error = "OK"

abbrev pub err_no_key : String
err_no_key = "ErrNoKey"

abbrev pub err_wrong_group : String
err_wrong_group = "ErrWrongGroup"

pub record MsgInCh : Type 0 where
  pub is_ok : Bool
  pub op : Op

-- A channel of capacity 1.
pub data Chan : Type 0 where
  vacant closed : Chan
  holding : MsgInCh → Chan

-- The content of a snapshot.
pub record Snapshot : Type 0 where
  pub db : List (ℕ × List (String × String))
  pub clerks : List (ℕ × List (ℤ × ℤ))
  pub cfg : Config

-- `msg_ch` gives the channel of an index as a position in `chans`, which has every channel that
-- was made. `exit_ch` is the number of signals in the channel. The field `persister` of the program
-- is the persister of `rf`.
pub record ShardKv (B : Type 0) : Type 0 where
  pub me : ℕ
  pub rf : Raft Op B
  pub gid : ℕ
  pub max_raft_state : ℤ
  pub msg_ch : List (ℕ × ℕ)
  pub chans : List Chan
  pub clerk_log : List (ℕ × List (ℤ × ℤ))
  pub kv_db : List (ℕ × List (String × String))
  pub shards : List ℕ
  pub shard_to_send : List ℕ
  pub cfg : Config
  pub leader : Bool
  pub wait_until_move_done : ℤ
  pub exit_ch : ℕ

-- `kv.skvDB[shard]` and `kv.sClerkLog[shard]`, which are nil for a missing shard
abbrev pub or_nil {ℓ} : {A : Type ℓ} → Option (List A) → List A
or_nil none = []
or_nil (some l) = l

abbrev pub inner {ℓ} : {A : Type ℓ} → ℕ → List (ℕ × List A) → List A
inner shard m = or_nil (find shard m)

-- `ind, ok := log[clerk]; ok && ind >= index`
unfoldable pub logged : ℤ → ℤ → List (ℤ × ℤ) → Bool
logged clerk index log = elim (find clerk log) [ none ↦ false | some ind ↦ leb_ℤ index ind ]

module _ {B : Type 0} where
  unfoldable pub have_shard : ℕ → ShardKv B → Bool
  have_shard shard kv = member shard kv.shards

  unfoldable pub shard_in_db : ℕ → ShardKv B → Bool
  shard_in_db shard kv = present shard kv.kv_db

  -- The clerk's command, or a later one, is in the log of the shard.
  unfoldable pub executed : Op → ShardKv B → Bool
  unfolding logged
  executed op kv = logged op.clerk op.cmd_index (inner op.shard kv.clerk_log)

  -- `ch := make(chan msgInCh, 1); kv.msgCh[index] = ch`
  unfoldable pub open_ch : ℕ → ShardKv B → ℕ × ShardKv B
  open_ch index kv = (
    length kv.chans,
    record kv {
      msg_ch = insert index (length kv.chans) kv.msg_ch;
      chans = kv.chans ++ Chan.vacant ∷ [];
    },
  )

-- The commands that the program makes of its requests and of its own.
abbrev pub get_op : GetArgs → Op
get_op args = record {
  kind = request;
  shard = args.shard;
  operation = get;
  key = args.key;
  value = "";
  clerk = args.clerk;
  cmd_index = args.cmd_index;
  new_config = no_config;
  new_shards = no_shards;
}

-- A command of the server itself.
abbrev pub own_op : Kind → ℕ → ℤ → ℤ → Config → NewShards → Op
own_op kind shard clerk index config moved = record {
  kind = kind;
  shard = shard;
  operation = nothing;
  key = "";
  value = "";
  clerk = clerk;
  cmd_index = index;
  new_config = config;
  new_shards = moved;
}

abbrev pub leader_op : ℕ → Op
leader_op me = own_op new_leader 1 minus_one (pos me) no_config no_shards

abbrev pub config_op : Config → Op
config_op cfg = own_op new_config 1 (pos 1) (pos 1) cfg no_shards

abbrev pub shard_op : PushShardArgs → Op
shard_op args =
    own_op new_shard args.shard minus_one minus_one no_config
      (record { shard_db = args.shard_db; clerk_log = args.clerk_log })

abbrev pub send_op : ℕ → Op
send_op shard = own_op new_send shard minus_one minus_one no_config no_shards
