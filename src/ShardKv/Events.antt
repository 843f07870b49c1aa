-- ===== src/ShardKv/Events.antt =====
-- src/shardkv/server.go: what a server does under one holding of its lock, as events.
mod Keeps
pub mod Reachable
use Prim.Native.String.{String}
use mit_raft.Base.{
  ℕ, ◌+◌, ◌<◌, ◌≡◌, ◌⊎◌, refl, sym, ap, ◌∙◌, Bool, true, false, ◌||◌, ◌&&◌, not, ℤ, List, [], ◌∷◌,
  Option, none, some, length, set, get_elem?, get_elem?-lt, if◌then◌else◌, inl, inr, find, delete,
  nat_key, Run, ok, panic, ◌>>=◌, Ensures, value, panics, Ensures-bind, Ensures-after, Returns,
  Returns-value, Bool-cases, Option-cases, arith,
}
use mit_raft.Raft.Persister.{Codec, Persister}
use mit_raft.Raft.State.{Raft, Command, Payload, ApplyMsg}
use mit_raft.Raft.Role.{Saved}
use mit_raft.Raft.Node.{start}
use mit_raft.Raft.Node as Node
use mit_raft.ShardKv.State.{Op, Snapshot, Chan, ShardKv, open_ch}
use mit_raft.ShardKv.Apply.{parse_cfg}
use mit_raft.ShardKv.Server.{convert_to_leader, new_leader_done, register, receive, close_ch}
use mit_raft.ShardKv.Run.{
  Received, went_on, blocked, encode_snapshot, decoded_snapshot, check_state, run_round, submit,
  snapshot_taken, fresh_server, start_server,
}
use mit_raft.ShardKv.Invariant.{Inv, parse_cfg-Inv}
use mit_raft.ShardKv.Restore.{decoded_snapshot-Same}
use mit_raft.ShardKv.Channels.{Clear, Clear-taken, Clear-closed, Clear-opened}
use mit_raft.ShardKv.Channels.Rounds.{Ready, channels_only, run_round-Ready}

-- The parts of executeOp and convertToLeader, closeCh, the rounds of run and the goroutine of
-- checkState; and whatever the Raft peer of the server does.
pub data Event (B : Type 0) : Type 0 where
  submits : Op → Event B
  converts : Bool → Event B
  leads : Bool × Bool → Event B
  registers : ℕ → Bool → Event B
  receives : ℕ → Event B
  closes : ℕ → Event B
  applies : ApplyMsg Op B → Event B
  snaps : List B → ℕ → ℤ → Event B
  peer : Node.Event Op B → Event B

module _ {B : Type 0} where
  -- `none` is a server that stands in a send for ever.
  abbrev after_round : Received B → Option (ShardKv B)
  after_round (went_on kv due) = some kv
  after_round blocked = none

  module _ ⦃gob : Codec (Saved Op) B⦄ ⦃snap : Codec Snapshot B⦄ where
    unfoldable pub step : Event B → ShardKv B → Run (Option (ShardKv B))
    unfolding submit convert_to_leader new_leader_done register receive close_ch run_round
        snapshot_taken
    step (submits op) kv = ok (some (submit op kv).1)
    step (converts b) kv = ok (some (convert_to_leader b kv).1)
    step (leads result) kv = ok (some (new_leader_done result kv).1)
    step (registers index is_leader) kv = ok (some (register index is_leader kv).1)
    step (receives ch) kv = ok (some (receive ch kv).1)
    step (closes index) kv = do kv' ← close_ch index kv; ok (some kv')
    step (applies msg) kv = do r ← run_round msg kv; ok (after_round r)
    step (snaps raw index term) kv = do kv' ← snapshot_taken raw index term kv; ok (some kv')
    step (peer e) kv = do rf ← Node.step kv.rf e; ok (some (record kv { rf = rf }))

    -- Everything but a round of run.
    abbrev pub Quiet : Event B → Type 0
    Quiet (applies msg) = ⊥
    Quiet (submits op) = Unit
    Quiet (converts b) = Unit
    Quiet (leads result) = Unit
    Quiet (registers index is_leader) = Unit
    Quiet (receives ch) = Unit
    Quiet (closes index) = Unit
    Quiet (snaps raw index term) = Unit
    Quiet (peer e) = Unit

    -- A message with the command of the index `n`.
    pub record IsCommand (n : ℕ) (msg : ApplyMsg Op B) : Type 0 where
      pub op : Op
      pub valid : msg.command_valid ≡ true
      pub payload : msg.payload ≡ Payload.command (Command.cmd op)
      pub at : msg.command_index ≡ n

    -- The servers of the group `g` that can come about, with the index of the next command: a new
    -- server; after an event; after the next command; after a snapshot of a server of the group; and
    -- after a restart with such a snapshot.
    pub data Reach (g : ℕ) : ℕ → ShardKv B → Type 0 where
      started :
          (me : ℕ) (rf : Raft Op B) (max_raft_state : ℤ)
          → Reach g 1 (fresh_server me rf max_raft_state g)
      moved :
          {n : ℕ} {kv kv' : ShardKv B} (e : Event B)
          → Reach g n kv
          → Quiet e
          → step e kv ≡ ok (some kv')
          → Reach g n kv'
      applied :
          {n : ℕ} {kv kv' : ShardKv B} (msg : ApplyMsg Op B)
          → Reach g n kv
          → IsCommand n msg
          → step (applies msg) kv ≡ ok (some kv')
          → Reach g (n + 1) kv'
      overtaken :
          {n m : ℕ} {kv from kv' : ShardKv B} (msg : ApplyMsg Op B)
          → Reach g n kv
          → Reach g m from
          → msg.command_valid ≡ false
          → msg.payload ≡ Payload.snapshot (encode_snapshot from)
          → step (applies msg) kv ≡ ok (some kv')
          → Reach g n kv'
      restarted :
          {m n : ℕ} {from kv : ShardKv B} (peers me : ℕ) (ps : Persister B) (max_raft_state : ℤ)
          → Reach g m from
          → ps.snapshot ≡ encode_snapshot from
          → start_server peers me ps max_raft_state g ≡ ok kv
          → Reach g n kv
