-- ===== src/KvRaft/Server.antt =====
-- src/kvraft/server.go: the handlers Get and PutAppend, the loop receiveNewMsg, and snapshots.
-- A handler is in parts, one for each holding of a lock: what it sends to Raft, the channel that it
-- registers, and what it replies when a term or the timeout has come.
use Prim.Native.String.{String}
use mit_raft.Base.{
  ℕ, ◌*◌, ◌/◌, Bool, true, false, ℤ, pos, minus_one, pos_part, ◌==ℤ◌, List, [], Option, none, some,
  length, set, get_elem?, ltb, ◌==◌, if◌then◌else◌, find, insert, delete, nat_key, string_key,
  append_text, same_text, Run, ok, panic, ◌>>=◌,
}
use mit_raft.Raft.Persister.{Codec, Persister, raft_state_size, read_snapshot}
use mit_raft.Raft.State.{Command, Payload, ApplyMsg}
use mit_raft.Raft.Role.{Saved}
use mit_raft.Raft.Node.{start, make, kill}
use mit_raft.Raft.Snapshot.{take_snapshot}
use mit_raft.KvRaft.State.{
  Op, PutAppendArgs, PutAppendReply, GetArgs, GetReply, no_error, err_no_key, Chan, Snapshot,
  KvServer, executed, open_ch,
}

-- A handler replies, or waits for the channel with this number.
pub data Pending (R : Type 0) : Type 0 where
  replies : R → Pending R
  waits : ℕ → Pending R

-- What the loop has done with a message: gone on, with the arguments of a TakeSnapshot to call if
-- a snapshot is due; or come to a send that nobody receives, holding the lock.
pub data Received (B : Type 0) : Type 0 where
  went_on : KvServer B → Option (List B × ℕ × ℤ) → Received B
  blocked : Received B

abbrev pub get_op : GetArgs → Op
get_op args = record {
  method = "Get";
  key = args.key;
  value = "";
  clerk = args.clerk_id;
  index = args.cmd_index;
}

abbrev pub put_append_op : PutAppendArgs → Op
put_append_op args = record {
  method = args.op;
  key = args.key;
  value = args.value;
  clerk = args.clerk_id;
  index = args.cmd_index;
}

-- `db[key]`, which is "" on a missing key
abbrev pub value_or_empty : Option String → String
value_or_empty none = ""
value_or_empty (some v) = v

-- The three methods; any other changes nothing.
unfoldable pub write : Op → List (String × String) → List (String × String)
write op db =
    if same_text op.method "Put"
    then insert op.key op.value db
    else if same_text op.method "Append"
    then elim (find op.key db) [
      | some v ↦ insert op.key (append_text v op.value) db
      | none ↦ insert op.key op.value db
    ]
    else db

-- The end of PutAppend: `none` is the timeout, `some t` a term from the channel.
unfoldable pub put_append_finish : ℤ → Option ℤ → PutAppendReply
put_append_finish term none = record { wrong_leader = true; err = no_error }
put_append_finish term (some t) =
    if t ==ℤ term
    then record { wrong_leader = false; err = no_error }
    else record { wrong_leader = true; err = no_error }

module _ {B : Type 0} where
  -- Get, after Start has said that this peer is the leader.
  unfoldable pub get_register : GetArgs → ℕ → KvServer B → Pending GetReply × KvServer B
  get_register args index kv =
      if executed args.clerk_id args.cmd_index kv
      then (
        Pending.replies (record {
          wrong_leader = false;
          err = no_error;
          value = value_or_empty (find args.key kv.kv_db);
        }),
        kv,
      )
      else let (ch, kv') = open_ch index kv in (Pending.waits ch, kv')

  -- The end of Get: `none` is the timeout, `some t` a term from the channel.
  unfoldable pub get_finish : GetArgs → ℤ → Option ℤ → KvServer B → GetReply
  get_finish args term none kv = record { wrong_leader = true; err = err_no_key; value = "" }
  get_finish args term (some t) kv =
      if t ==ℤ term
      then elim (find args.key kv.kv_db) [
        | some v ↦ record { wrong_leader = false; err = no_error; value = v }
        | none ↦ record { wrong_leader = false; err = err_no_key; value = "" }
      ]
      else record { wrong_leader = true; err = err_no_key; value = "" }

  -- PutAppend, up to Start: whether the command has been executed already.
  unfoldable pub put_append_check : PutAppendArgs → KvServer B → Option PutAppendReply
  put_append_check args kv =
      if executed args.clerk_id args.cmd_index kv
      then some (record { wrong_leader = false; err = no_error })
      else none

  -- `case <-time.After(WaitPeriod)`, for a handler that is still in its `select`
  unfoldable pub time_out : ℕ → KvServer B → KvServer B
  time_out ch kv = elim (get_elem? kv.chans ch) [
    | some Chan.reading ↦ record kv { chans = set kv.chans ch Chan.left }
    | _ ↦ kv
  ]

  -- `case msgTerm := <-ch`: a closed channel gives 0.
  unfoldable pub message : ℕ → KvServer B → Option ℤ
  message ch kv = elim (get_elem? kv.chans ch) [
    | some (Chan.taken t) ↦ some t
    | some Chan.closed ↦ some (pos 0)
    | _ ↦ none
  ]

  -- To close a nil channel, or a closed one, is a panic.
  unfoldable pub close_ch : ℕ → KvServer B → Run (KvServer B)
  close_ch index kv = elim (find index kv.msg_ch) [
    | none ↦ panic
    | some ch ↦ elim (get_elem? kv.chans ch) [
      | none ↦ panic
      | some Chan.closed ↦ panic
      | some _ ↦
          ok (record kv { msg_ch = delete index kv.msg_ch; chans = set kv.chans ch Chan.closed })
    ]
  ]

  -- The part of receiveNewMsg that executes a command.
  unfoldable pub execute : Op → KvServer B → KvServer B
  execute op kv = if executed op.clerk op.index kv then kv else record kv {
    clerk_log = insert op.clerk op.index kv.clerk_log;
    kv_db = write op kv.kv_db;
  }

  -- `if ch, ok := kv.msgCh[index]; ok { ch <- term }`; `none` if it blocks.
  unfoldable pub notify : ℕ → ℤ → KvServer B → Run (Option (KvServer B))
  notify index term kv = elim (find index kv.msg_ch) [
    | none ↦ ok (some kv)
    | some ch ↦ elim (get_elem? kv.chans ch) [
      | some Chan.reading ↦ ok (some (record kv { chans = set kv.chans ch (Chan.taken term) }))
      | some Chan.closed ↦ panic
      | _ ↦ ok none
    ]
  ]

  module _ ⦃snap : Codec Snapshot B⦄ where
    unfoldable pub encode_snapshot : KvServer B → List B
    encode_snapshot kv = snap.encode (record { db = kv.kv_db; clerks = kv.clerk_log })

    unfoldable pub decoded_snapshot : List B → KvServer B → KvServer B
    decoded_snapshot bytes kv = elim (snap.decode bytes) [
      | none ↦ kv
      | some s ↦ record kv { kv_db = s.db; clerk_log = s.clerks }
    ]

    unfoldable pub load_snapshot : KvServer B → KvServer B
    unfolding decoded_snapshot read_snapshot
    load_snapshot kv =
        let bytes = read_snapshot kv.rf.persister in
        if length bytes == 0 then kv else decoded_snapshot bytes kv

    -- The arguments of the TakeSnapshot that is called, if one is.
    unfoldable pub check_state : ℕ → ℤ → KvServer B → Option (List B × ℕ × ℤ)
    check_state index term kv =
        if kv.max_raft_state ==ℤ minus_one
        then none
        else if ltb (raft_state_size kv.rf.persister) (pos_part kv.max_raft_state * 2 / 3)
        then none
        else some (encode_snapshot kv, index, term)

    -- One round of receiveNewMsg; a content of the wrong type is a panic.
    unfoldable pub receive_new_msg : ApplyMsg Op B → KvServer B → Run (Received B)
    unfolding decoded_snapshot
    receive_new_msg msg kv = elim msg.command_valid [
      | false ↦ elim msg.payload [
        | Payload.snapshot bytes ↦ ok (Received.went_on (decoded_snapshot bytes kv) none)
        | Payload.command c ↦ panic
      ]
      | true ↦ elim msg.payload [
        | Payload.command (Command.cmd op) ↦
            notify msg.command_index msg.commit_term (execute op kv) >>= answered msg
        | _ ↦ panic
      ]
    ]
      where
        answered : ApplyMsg Op B → Option (KvServer B) → Run (Received B)
        answered msg none = ok Received.blocked
        answered msg (some kv') =
            ok (Received.went_on kv' (check_state msg.command_index msg.commit_term kv'))

  module _ ⦃gob : Codec (Saved Op) B⦄ where
    -- `kv.rf.Start(op)`: the index, the term, and whether this peer is the leader.
    unfoldable pub submit : Op → KvServer B → (ℤ × ℤ × Bool) × KvServer B
    submit op kv = let (answer, rf) = start op kv.rf in (answer, record kv { rf = rf })

    -- The goroutine of checkState.
    unfoldable pub snapshot_taken : List B → ℕ → ℤ → KvServer B → Run (KvServer B)
    snapshot_taken raw index term kv = do
      rf ← take_snapshot raw index term kv.rf
      ok (record kv { rf = rf })

    unfoldable pub kill_server : KvServer B → KvServer B
    kill_server kv = record kv { rf = kill kv.rf }

    module _ ⦃snap : Codec Snapshot B⦄ where
      unfoldable pub start_kv_server : ℕ → ℕ → Persister B → ℤ → Run (KvServer B)
      unfolding load_snapshot
      start_kv_server peers me ps max_raft_state = do
        rf ← make peers me ps
        ok (
            load_snapshot (record {
              me = me;
              rf = rf;
              max_raft_state = max_raft_state;
              clerk_log = [];
              kv_db = [];
              msg_ch = [];
              chans = [];
            }))
