-- ===== src/ShardKv/Run.antt =====
-- src/shardkv/server.go: the loop run, snapshots, StartServer and Kill.
use mit_raft.Base.{
  ℕ, ◌+◌, ◌*◌, ◌/◌, Bool, true, false, ℤ, pos, minus_one, pos_part, ◌==ℤ◌, List, [], Option, none,
  some, length, set, get_elem?, ltb, ◌==◌, if◌then◌else◌, find, nat_key, string_key, Run, ok, panic,
  ◌>>=◌,
}
use mit_raft.Raft.Persister.{Codec, Persister, raft_state_size, read_snapshot, snapshot_size}
use mit_raft.Raft.State.{Raft, Command, Payload, ApplyMsg}
use mit_raft.Raft.Role.{Saved}
use mit_raft.Raft.Node.{start, make, kill}
use mit_raft.Raft.Snapshot.{take_snapshot}
use mit_raft.ShardKv.State.{Op, no_config, MsgInCh, Chan, Snapshot, ShardKv}
use mit_raft.ShardKv.Apply.{parse_cfg, apply_op}

-- What a round of run has done: gone on, with the arguments of a TakeSnapshot to call if a snapshot
-- is due; or come to a send into a full channel, holding the lock.
pub data Received (B : Type 0) : Type 0 where
  went_on : ShardKv B → Option (List B × ℕ × ℤ) → Received B
  blocked : Received B

module _ {B : Type 0} where
  -- The server before it reads a snapshot.
  abbrev pub fresh_server : ℕ → Raft Op B → ℤ → ℕ → ShardKv B
  fresh_server me rf max_raft_state gid = record {
    me = me;
    rf = rf;
    gid = gid;
    max_raft_state = max_raft_state;
    msg_ch = [];
    chans = [];
    clerk_log = [];
    kv_db = [];
    shards = [];
    shard_to_send = [];
    cfg = no_config;
    leader = false;
    wait_until_move_done = pos 0;
    exit_ch = 0;
  }

  -- `if ch, ok := kv.msgCh[index]; ok { ch <- msgInCh{…} }`; `none` if it blocks.
  unfoldable pub notify : ℕ → MsgInCh → ShardKv B → Run (Option (ShardKv B))
  notify index m kv = elim (find index kv.msg_ch) [
    | none ↦ ok (some kv)
    | some ch ↦ elim (get_elem? kv.chans ch) [
      | some Chan.vacant ↦ ok (some (record kv { chans = set kv.chans ch (Chan.holding m) }))
      | some Chan.closed ↦ panic
      | _ ↦ ok none
    ]
  ]

  module _ ⦃snap : Codec Snapshot B⦄ where
    unfoldable pub encode_snapshot : ShardKv B → List B
    encode_snapshot kv = snap.encode (record { db = kv.kv_db; clerks = kv.clerk_log; cfg = kv.cfg })

    unfoldable pub decoded_snapshot : List B → ShardKv B → ShardKv B
    decoded_snapshot bytes kv = elim (snap.decode bytes) [
      | none ↦ kv
      | some s ↦ record kv { kv_db = s.db; clerk_log = s.clerks; cfg = s.cfg }
    ]

    unfoldable pub load_snapshot : ShardKv B → ShardKv B
    unfolding decoded_snapshot read_snapshot
    load_snapshot kv =
        let bytes = read_snapshot kv.rf.persister in
        if length bytes == 0 then kv else decoded_snapshot bytes kv

    -- The arguments of the TakeSnapshot that is called, if one is.
    unfoldable pub check_state : ℕ → ℤ → ShardKv B → Option (List B × ℕ × ℤ)
    check_state index term kv =
        if kv.max_raft_state ==ℤ minus_one
        then none
        else if ltb (raft_state_size kv.rf.persister) (pos_part kv.max_raft_state * 3 / 4)
        then none
        else some (encode_snapshot kv, index, term)

    -- The end of a round, with what `notify` has given.
    unfoldable pub answered : ℕ → ℤ → Option (ShardKv B) → Received B
    answered index term none = Received.blocked
    answered index term (some kv) = Received.went_on kv (check_state index term kv)

    -- One round of run; a content of the wrong type is a panic.
    unfoldable pub run_round : ApplyMsg Op B → ShardKv B → Run (Received B)
    unfolding decoded_snapshot answered
    run_round msg kv = elim msg.command_valid [
      | false ↦ elim msg.payload [
        | Payload.snapshot bytes ↦
            ok (Received.went_on (parse_cfg (decoded_snapshot bytes kv)) none)
        | Payload.command c ↦ panic
      ]
      | true ↦ elim msg.payload [
        | Payload.command (Command.cmd op) ↦ do
          (is_ok, kv') ← apply_op op kv
          sent ← notify msg.command_index (record { is_ok = is_ok; op = op }) kv'
          ok (answered msg.command_index msg.commit_term sent)
        | _ ↦ panic
      ]
    ]

  module _ ⦃gob : Codec (Saved Op) B⦄ where
    -- `kv.rf.Start(op)`: the index, the term, and whether this peer is the leader.
    unfoldable pub submit : Op → ShardKv B → (ℤ × ℤ × Bool) × ShardKv B
    submit op kv = let (answer, rf) = start op kv.rf in (answer, record kv { rf = rf })

    -- The goroutine of checkState.
    unfoldable pub snapshot_taken : List B → ℕ → ℤ → ShardKv B → Run (ShardKv B)
    snapshot_taken raw index term kv = do
      rf ← take_snapshot raw index term kv.rf
      ok (record kv { rf = rf })

    -- Two signals for the two goroutines; `none` if the channel has no place for them.
    unfoldable pub kill_server : ShardKv B → Option (ShardKv B)
    kill_server kv =
        if ltb 0 kv.exit_ch
        then none
        else some (record kv { rf = kill kv.rf; exit_ch = kv.exit_ch + 2 })

    module _ ⦃snap : Codec Snapshot B⦄ where
      unfoldable pub start_server : ℕ → ℕ → Persister B → ℤ → ℕ → Run (ShardKv B)
      unfolding load_snapshot
      start_server peers me ps max_raft_state gid = do
        rf ← make peers me ps
        let kv = load_snapshot (fresh_server me rf max_raft_state gid)
        ok (if snapshot_size kv.rf.persister == 0 then kv else parse_cfg kv)
