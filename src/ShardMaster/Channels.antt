-- ===== src/ShardMaster/Channels.antt =====
-- src/shardmaster/server.go: executeOp, the handlers, the loop run, closeCh, StartServer and Kill.
-- executeOp is in parts, one for each holding of the lock.
use Prim.Native.String.{String}
use mit_raft.Base.{
  ℕ, Bool, true, false, ℤ, List, [], ◌∷◌, ◌++◌, Option, none, some, length, set, get_elem?,
  if◌then◌else◌, find, insert, delete, nat_key, replicate, Run, ok, panic, ◌>>=◌,
}
use mit_raft.Raft.Persister.{Codec, Persister}
use mit_raft.Raft.State.{Raft, Command, Payload, ApplyMsg}
use mit_raft.Raft.Role.{Saved}
use mit_raft.Raft.Node.{start, make, kill}
use mit_raft.ShardMaster.State.{
  n_shards, Config, Op, ShardMaster, executed, join_op, leave_op, move_op, query_op,
}
use mit_raft.ShardMaster.State as State
use mit_raft.ShardMaster.Server.{run_op, query_config}

pub record JoinArgs : Type 0 where
  pub servers : List (ℕ × List String)
  pub clerk : ℕ
  pub index : ℕ

pub record LeaveArgs : Type 0 where
  pub gids : List ℕ
  pub clerk : ℕ
  pub index : ℕ

pub record MoveArgs : Type 0 where
  pub shard : ℕ
  pub gid : ℕ
  pub clerk : ℕ
  pub index : ℕ

pub record QueryArgs : Type 0 where
  pub num : ℤ
  pub clerk : ℕ
  pub index : ℕ

-- JoinReply, LeaveReply and MoveReply are alike; nothing sets their field Err.
pub record Reply : Type 0 where
  pub wrong_leader : Bool

pub record QueryReply : Type 0 where
  pub wrong_leader : Bool
  pub config : Config

-- `Config{}`
abbrev pub zero_config : Config
zero_config = record { num = 0; shards = replicate n_shards 0; groups = [] }

-- The commands of the requests.
abbrev pub op_of_join : JoinArgs → Op
op_of_join args = join_op args.servers args.clerk args.index

abbrev pub op_of_leave : LeaveArgs → Op
op_of_leave args = leave_op args.gids args.clerk args.index

abbrev pub op_of_move : MoveArgs → Op
op_of_move args = move_op args.shard args.gid args.clerk args.index

abbrev pub op_of_query : QueryArgs → Op
op_of_query args = query_op args.num args.clerk args.index

-- An unbuffered channel with the executeOp that made it: it stands in its `select`, has been told,
-- or has left after its timeout; or the channel is closed.
pub data Chan : Type 0 where
  reading told left closed : Chan

-- The other fields of the Go struct, beside those of `ShardMaster`.
pub record Server (B : Type 0) : Type 0 where
  pub master : ShardMaster
  pub rf : Raft Op B
  pub msg_ch : List (ℕ × ℕ)
  pub chans : List Chan

-- A round of run goes on, or keeps the lock for ever.
pub data Received (B : Type 0) : Type 0 where
  went_on : Server B → Received B
  blocked : Received B

module _ {B : Type 0} where
  -- executeOp up to Start: what it returns, if it returns here.
  unfoldable pub early : Op → Server B → Option Bool
  early op s = if executed op.clerk op.cmd_index s.master then some false else none

  -- `ch := make(chan struct{}); sm.msgCh[index] = ch`, after Start has accepted the command
  unfoldable pub open_ch : ℕ → Server B → ℕ × Server B
  open_ch index s = (
    length s.chans,
    record s {
      msg_ch = insert index (length s.chans) s.msg_ch;
      chans = s.chans ++ Chan.reading ∷ [];
    },
  )

  -- `case <-time.After(…)`, for an executeOp that is still in its `select`
  unfoldable pub time_out : ℕ → Server B → Option Bool × Server B
  time_out ch s = elim (get_elem? s.chans ch) [
    | some Chan.reading ↦ (some true, record s { chans = set s.chans ch Chan.left })
    | _ ↦ (none, s)
  ]

  -- `case <-ch`, if it can be taken, with the result `wrongLeader`; a closed channel gives its zero
  -- value.
  unfoldable pub heard : ℕ → Server B → Option Bool
  heard ch s = elim (get_elem? s.chans ch) [
    | some Chan.told ↦ some false
    | some Chan.closed ↦ some false
    | _ ↦ none
  ]

  -- To close a nil channel, or a closed one, is a panic.
  unfoldable pub close_ch : ℕ → Server B → Run (Server B)
  close_ch index s = elim (find index s.msg_ch) [
    | none ↦ panic
    | some ch ↦ elim (get_elem? s.chans ch) [
      | none ↦ panic
      | some Chan.closed ↦ panic
      | some _ ↦
          ok (record s { msg_ch = delete index s.msg_ch; chans = set s.chans ch Chan.closed })
    ]
  ]

  -- `if ch, ok := sm.msgCh[commandIndex]; ok { ch <- struct{}{} }`
  unfoldable pub notify : ℕ → Server B → Run (Received B)
  notify index s = elim (find index s.msg_ch) [
    | none ↦ ok (went_on s)
    | some ch ↦ elim (get_elem? s.chans ch) [
      | some Chan.reading ↦ ok (went_on (record s { chans = set s.chans ch Chan.told }))
      | some Chan.closed ↦ panic
      | _ ↦ ok blocked
    ]
  ]

  unfoldable pub after_op : ℕ → Option ShardMaster → Server B → Run (Received B)
  unfolding notify
  after_op index none s = ok blocked
  after_op index (some master) s = notify index (record s { master = master })

  -- One round of run; a content of the wrong type is a panic.
  unfoldable pub run_round : ApplyMsg Op B → Server B → Run (Received B)
  unfolding after_op
  run_round msg s = elim msg.payload [
    | Payload.command (Command.cmd op) ↦ do
      master ← run_op op s.master
      after_op msg.command_index master s
    | _ ↦ panic
  ]

  -- The end of Query, with the result of executeOp.
  unfoldable pub query_finish : QueryArgs → Bool → Server B → Run QueryReply
  query_finish args true s = ok (record { wrong_leader = true; config = zero_config })
  query_finish args false s = do
    cfg ← query_config args.num s.master
    ok (record { wrong_leader = false; config = cfg })

  module _ ⦃gob : Codec (Saved Op) B⦄ where
    -- `sm.rf.Start(op)`: the index, the term, and whether this peer is the leader.
    unfoldable pub submit : Op → Server B → (ℤ × ℤ × Bool) × Server B
    submit op s = let (answer, rf) = start op s.rf in (answer, record s { rf = rf })

    unfoldable pub kill_server : Server B → Server B
    kill_server s = record s { rf = kill s.rf }

    unfoldable pub start_master : ℕ → ℕ → Persister B → Run (Server B)
    start_master peers me ps = do
      rf ← make peers me ps
      ok (record { master = State.start_server me; rf = rf; msg_ch = []; chans = [] })
