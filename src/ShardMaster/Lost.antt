-- ===== src/ShardMaster/Lost.antt =====
-- src/shardmaster/server.go: what executeOp takes for the end of its command.
use mit_raft.Base.{
  ℕ, ◌≡◌, refl, false, List, [], ◌∷◌, ◌++◌, some, length, set, get_elem?, get_elem?-last,
  find-insert, nat_key, Ensures, value, Ensures-bind, Ensures-after,
}
use mit_raft.Raft.State.{Command, Payload, ApplyMsg}
use mit_raft.ShardMaster.State.{Op, ShardMaster, executed}
use mit_raft.ShardMaster.Server.{apply_op, run_op}
use mit_raft.ShardMaster.Channels.{
  Server, Received, went_on, blocked, Chan, open_ch, heard, notify, after_op, run_round,
}

set_last :
    (l : List Chan) (c d : Chan) → get_elem? (set (l ++ c ∷ []) (length l) d) (length l) ≡ some d
set_last [] c d = refl
set_last (x ∷ l) c d = set_last l c d

module _ {B : Type 0} where
  -- Run has gone on, and the executeOp with the channel says that its server is the right leader.
  abbrev pub Answered : ℕ → Received B → Type 0
  Answered ch (went_on s) = heard ch s ≡ some false
  Answered ch blocked = ⊥

  told_chan :
      (ch : ℕ) (s : Server B) → get_elem? s.chans ch ≡ some Chan.told → heard ch s ≡ some false
  unfolding heard
  told_chan ch s e = rw (heard, e)

  notified :
      (index : ℕ) (s : Server B) (master : ShardMaster)
      → Ensures
          (Answered (open_ch index s).0)
          (notify index (record (open_ch index s).1 { master = master }))
  unfolding notify open_ch
  notified index s master =
      rw (notify, find-insert index (length s.chans) s.msg_ch, get_elem?-last s.chans Chan.reading)
        (value (told_chan (length s.chans) _ (set_last s.chans Chan.reading Chan.told)))

  run_op-some :
      (op : Op) (index : ℕ) (s : Server B)
      → executed op.clerk op.cmd_index s.master ≡ false
      → Ensures
          (λ o. (master : ShardMaster) × (o ≡ some master))
          (run_op op (open_ch index s).1.master)
  unfolding run_op open_ch
  run_op-some op index s new =
      rw new (Ensures-after (apply_op op s.master) λ master. value (master, refl))

  -- When an executeOp waits for the index of its command, and run gets another command with that
  -- index that clerkLog does not hold, then, if nothing panics, run goes on, and the executeOp
  -- takes from its channel that its server is the right leader.
  pub run_round_other :
      (index : ℕ) (other : Op) (msg : ApplyMsg Op B) (s : Server B)
      → msg.payload ≡ Payload.command (Command.cmd other)
      → msg.command_index ≡ index
      → executed other.clerk other.cmd_index s.master ≡ false
      → Ensures (Answered (open_ch index s).0) (run_round msg (open_ch index s).1)
  unfolding run_round after_op
  run_round_other index other msg s payload at new =
      rw (payload, at)
        (Ensures-bind (run_op-some other index s new)
          λ o (master, e). rw e (notified index s master))
